-- ===== src/Calls.antt =====
-- Runs of calls into GStreamer (the crate `gstreamer`, which src/camera.rs and src/playback.rs
-- drive): the calls that were made, in order, and what came of it. Whether a call succeeds is an
-- argument; a call that fails is an error of the kind `GStreamer`. A function that makes calls is a
-- `do` block of them, each followed by the rest of the run.
pub mod Plans
use oasis_nvr.Prelude.{Bool, List, [], ◌∷◌, if◌then◌else◌}
use oasis_nvr.Outcome.{gstreamer, Result, err}

abbrev pub Calls {ℓ κ} : Type ℓ → Type κ → Type (ℓ ⊔ κ)
Calls C A = List C × Result A

module _ {ℓ κ} {C : Type ℓ} {A : Type κ} (works : C → Bool) where
  -- `call.map_err(...)?`, and then the rest
  abbrev pub attempt : C → Calls C A → Calls C A
  attempt c rest = if works c then (c ∷ rest.0, rest.1) else (c ∷ [], err gstreamer)

  -- `let _ = call;`, and then the rest
  abbrev pub ignore : C → Calls C A → Calls C A
  ignore c rest = (c ∷ rest.0, rest.1)

  -- The calls of a plan one after the other, and then the rest.
  unfoldable pub perform : List C → Calls C A → Calls C A
  perform [] rest = rest
  perform (c ∷ cs) rest = attempt c (perform cs rest)

-- Of a `do` block: one part, and then the rest.
infixr 5 ◌>>◌
abbrev pub ◌>>◌ {ℓ κ} : {C : Type ℓ} {A : Type κ} → (Calls C A → Calls C A) → Calls C A → Calls C A
part >> rest = part rest
