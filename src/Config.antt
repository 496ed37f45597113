-- ===== src/Config.antt =====
-- src/config.rs: the configuration, its defaults and `validate`. Reading and writing TOML belongs to
-- the crates `toml` and `serde`; what `#[serde(default)]` fills in is the `Option.get_or` here.
pub mod Valid
pub mod File
use mathlib.Core.Option.{get_or}
use oasis_nvr.Prelude.{
  ℕ, Bool, true, false, Option, none, some, List, [], ◌∷◌, ◌==◌, if◌then◌else◌, mul64,
}
use oasis_nvr.Utf8.{Text}
use oasis_nvr.Outcome.{
  NvrError, config, no_cameras, zero_chunk_size, zero_max_pools, zero_segment_duration, Result, ok,
  err, ◌>>=◌, ◌>>◌, fail_if, or_err, unreadable, invalid_toml, unserializable, unwritable,
}

pub record ApiConfig : Type 0 where
  pub enabled : Bool
  pub port : ℕ
  pub username : Text
  pub password : Text

pub record StorageConfig : Type 0 where
  pub base_path : Text
  pub chunk_size_mb : ℕ
  pub max_pools : ℕ
  pub segment_duration_secs : ℕ
  pub writer_queue_size : ℕ

pub record CameraConfig : Type 0 where
  pub id : Text
  pub name : Text
  pub url : Text
  pub max_reconnect_attempts : ℕ

pub record Config : Type 0 where
  pub storage : StorageConfig
  pub cameras : List CameraConfig
  pub api : ApiConfig

abbrev pub default_api_enabled : Bool
default_api_enabled = true

abbrev pub default_api_port : ℕ
default_api_port = 8080

-- "oasis"
abbrev pub default_api_username : Text
default_api_username = 111 ∷ 97 ∷ 115 ∷ 105 ∷ 115 ∷ []

-- "1234"
abbrev pub default_api_password : Text
default_api_password = 49 ∷ 50 ∷ 51 ∷ 52 ∷ []

abbrev pub default_chunk_size_mb : ℕ
default_chunk_size_mb = 512

abbrev pub default_max_chunks : ℕ
default_max_chunks = 20

abbrev pub default_segment_duration : ℕ
default_segment_duration = 60

abbrev pub default_writer_queue : ℕ
default_writer_queue = 256

-- `ApiConfig::default`
abbrev pub default_api : ApiConfig
default_api = record {
  enabled = default_api_enabled;
  port = default_api_port;
  username = default_api_username;
  password = default_api_password;
}

-- The fields of `[storage]` as a file may give them.
pub record StorageFields : Type 0 where
  pub base_path : Text
  pub chunk_size_mb : Option ℕ
  pub max_pools : Option ℕ
  pub segment_duration_secs : Option ℕ
  pub writer_queue_size : Option ℕ

unfoldable pub with_defaults : StorageFields → StorageConfig
with_defaults f = record {
  base_path = f.base_path;
  chunk_size_mb = get_or f.chunk_size_mb default_chunk_size_mb;
  max_pools = get_or f.max_pools default_max_chunks;
  segment_duration_secs = get_or f.segment_duration_secs default_segment_duration;
  writer_queue_size = get_or f.writer_queue_size default_writer_queue;
}

abbrev pub is_nil {ℓ} : {A : Type ℓ} → List A → Bool
is_nil [] = true
is_nil (x ∷ xs) = false

unfoldable pub validate : Config → Result (Unit {0})
validate c = do
  fail_if (is_nil c.cameras) (config no_cameras)
  fail_if (c.storage.chunk_size_mb == 0) (config zero_chunk_size)
  fail_if (c.storage.max_pools == 0) (config zero_max_pools)
  fail_if (c.storage.segment_duration_secs == 0) (config zero_segment_duration)
  ok tt

-- `chunk_size_mb * 1024 * 1024`, the bytes of a pool.
abbrev pub pool_bytes : StorageConfig → ℕ
pool_bytes s = mul64 (mul64 s.chunk_size_mb 1024) 1024

-- `Config::from_file`: `content` is what reading the file gives, `parse` is `toml::from_str`.
unfoldable pub from_file : (Text → Option Config) → Option Text → Result Config
from_file parse content = do
  text ← or_err content (config unreadable)
  c ← or_err (parse text) (config invalid_toml)
  validate c
  ok c

-- `Config::save_to_file`: `serialize` is `toml::to_string`, and `write` is `std::fs::write`, which
-- tells whether it succeeds and what the file then holds. The second part is the file at `path`.
unfoldable pub save_to_file :
    (Config → Option Text)
    → (Text → Option Text → Bool × Option Text)
    → Config
    → Option Text
    → Result (Unit {0}) × Option Text
save_to_file serialize write c file = elim (serialize c) [
  | none ↦ (err (config unserializable), file)
  | some content ↦
      let (written, after) = write content file in
      (if written then ok tt else err (config unwritable), after)
]
