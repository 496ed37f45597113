-- ===== src/Outcome.antt =====
-- src/error.rs: `NvrError` and `Result`, with a Rust panic as a third outcome.
-- Of an error's text the model keeps what the callers can tell apart.
use oasis_nvr.Prelude.{ℕ, Bool, true, false, Option, none, some, List}

-- What the message of a `Storage` or `Config` error says.
pub data Reason : Type 0 where
  cannot_open : ℕ → Reason
  segment_too_large : ℕ → ℕ → Reason
  no_segments : Reason
  unreadable invalid_toml unserializable unwritable : Reason
  no_cameras zero_chunk_size zero_max_pools zero_segment_duration : Reason
  camera_exists : List ℕ → Reason
  other : Reason

pub data NvrError : Type 0 where
  config : Reason → NvrError
  gstreamer : NvrError
  io : NvrError
  camera_connection : List ℕ → NvrError
  storage : Reason → NvrError
  index : Reason → NvrError
  camera_not_found : List ℕ → NvrError

pub data Result {ℓ} (A : Type ℓ) : Type ℓ where
  ok : A → Result A
  err : NvrError → Result A
  panic : Result A

infixl 5 ◌>>=◌ ◌>>◌
abbrev pub ◌>>=◌ {ℓ κ} : {A : Type ℓ} {B : Type κ} → Result A → (A → Result B) → Result B
ok a >>= f = f a
err e >>= f = err e
panic >>= f = panic

abbrev pub ◌>>◌ {ℓ} : {B : Type ℓ} → Result (Unit {0}) → Result B → Result B
m >> k = m >>= λ _. k

-- `if c { return Err(e); }`
abbrev pub fail_if : Bool → NvrError → Result (Unit {0})
fail_if true e = err e
fail_if false e = ok tt

abbrev pub or_err {ℓ} : {A : Type ℓ} → Option A → NvrError → Result A
or_err none e = err e
or_err (some a) e = ok a

-- An index that is out of range panics.
abbrev pub or_panic {ℓ} : {A : Type ℓ} → Option A → Result A
or_panic none = panic
or_panic (some a) = ok a
