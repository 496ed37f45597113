-- ===== src/Storage/ChunkPool/Files.antt =====
-- The pool files of src/storage/chunk_pool.rs and the calls of `std::fs` on them. A disk gives the
-- bytes of `pool_{i:03}.bin` for each `i`, or `none` where there is no such file. Reads end at the
-- end of a file; the medium does not fail otherwise.
use oasis_nvr.Prelude.{
  ℕ, ◌+◌, ◌-◌, Bool, true, false, Option, none, some, List, ◌++◌, ◌==◌, if◌then◌else◌, length, take,
  drop, replicate, get_elem?, set,
}
use oasis_nvr.Outcome.{NvrError, storage, cannot_open, Result, ok, err, panic, or_err, or_panic}
use oasis_nvr.Storage.ChunkPool.Types.{ChunkPool, PoolSlot}

abbrev pub Disk : Type 0
Disk = ℕ → Option (List ℕ)

abbrev pub write_disk : Disk → ℕ → List ℕ → Disk
write_disk d i file j = if i == j then some file else d j

-- Writing bytes at an offset, over what stands there; a gap before it is filled with zeros.
unfoldable pub write_at : ℕ → List ℕ → List ℕ → List ℕ
write_at offset bytes file =
    take offset file
    ++ (replicate (offset - length file) 0 ++ (bytes ++ drop (offset + length bytes) file))

-- The pool and its files, which the operations change.
pub record Store : Type 0 where
  pub pool : ChunkPool
  pub disk : Disk

-- An operation gives its outcome and the store that it leaves, also when it fails.
abbrev pub M {ℓ} : Type ℓ → Type ℓ
M A = Store → Result A × Store

abbrev pub pure {ℓ} : {A : Type ℓ} → A → M A
pure a s = (ok a, s)

abbrev pub raise {ℓ} : {A : Type ℓ} → NvrError → M A
raise e s = (err e, s)

abbrev pub lift {ℓ} : {A : Type ℓ} → Result A → M A
lift r s = (r, s)

abbrev bind_result {ℓ κ} : {A : Type ℓ} {B : Type κ} → Result A → (A → M B) → M B
bind_result (ok a) f s = f a s
bind_result (err e) f s = (err e, s)
bind_result panic f s = (panic, s)

infixl 5 ◌>>=◌ ◌>>◌
abbrev pub ◌>>=◌ {ℓ κ} : {A : Type ℓ} {B : Type κ} → M A → (A → M B) → M B
◌>>=◌ m f s = bind_result (m s).0 f (m s).1

abbrev pub ◌>>◌ {ℓ κ} : {A : Type ℓ} {B : Type κ} → M A → M B → M B
m >> k = m >>= λ _. k

abbrev pub get_pool : M ChunkPool
get_pool s = (ok s.pool, s)

abbrev pub put_pool : ChunkPool → M (Unit {0})
put_pool p s = (ok tt, record s { pool = p })

abbrev pub raise_if : Bool → NvrError → M (Unit {0})
raise_if true e = raise e
raise_if false e = pure tt

-- `&self.slots[idx]`
abbrev pub slot_at : ℕ → M PoolSlot
slot_at idx s = (or_panic (get_elem? s.pool.slots idx), s)

abbrev pub put_slot : ℕ → PoolSlot → M (Unit {0})
put_slot idx slot s =
    (ok tt, record s { pool = record s.pool { slots = set s.pool.slots idx slot } })

-- `OpenOptions::new().write(true).open(path)`, `seek` and `write_all`: the file must exist.
abbrev pub write_file : ℕ → ℕ → List ℕ → M (Unit {0})
write_file idx offset bytes s = elim (s.disk idx) [
  | none ↦ (err (storage (cannot_open idx)), s)
  | some file ↦ (ok tt, record s { disk = write_disk s.disk idx (write_at offset bytes file) })
]

-- `File::open`
abbrev pub open_file : ℕ → M (List ℕ)
open_file idx s = (or_err (s.disk idx) (storage (cannot_open idx)), s)
