-- ===== src/Tests/ConfigTests.antt =====
-- The theorems on the saved configuration at concrete inputs.
use native.Mathlib.Decide.{ℕ_discrete}
use oasis_nvr.Prelude.{◌≡◌, refl, sym, ap, Bool, true, Option, none, some, List, [], ◌∷◌, ◌++◌}
use oasis_nvr.Utf8.{Text}
use oasis_nvr.Outcome.{ok}
use oasis_nvr.Config.{Config, CameraConfig, validate, from_file, save_to_file}
use oasis_nvr.Config.File.{Storing}
use oasis_nvr.Manager.{find_worker}
use oasis_nvr.Api.{AppState, Reply}
use oasis_nvr.Api.Cameras.{handle_add_camera}
use oasis_nvr.Api.Cameras.Persisted.{succeeds, with_camera, handle_add_camera-from_file}
use oasis_nvr.Tests.Fixtures.{cam2}
use oasis_nvr.Tests.ApiTests.{camera, small, state}

Text-discrete : Discrete Text
Text-discrete = hlevel (ℕ_discrete)

CameraConfig-discrete : Discrete CameraConfig
CameraConfig-discrete = hlevel (ℕ_discrete, Text-discrete)

Config-discrete : Discrete Config
Config-discrete = hlevel (ℕ_discrete, Text-discrete, CameraConfig-discrete)

-- A configuration of which a pool has a megabyte, and what it becomes.
abbrev valid_config : Config
valid_config = record small { storage = record small.storage { chunk_size_mb = 1 } }

abbrev added_config : Config
added_config = with_camera valid_config (camera cam2)

-- A TOML crate that knows one configuration, and a file system that never fails.
one_text : (c : Config) → Dec (c ≡ added_config) → Option Text
one_text c (yes e) = some (7 ∷ [])
one_text c (no n) = none

serialize : Config → Option Text
unfolding one_text Config-discrete
serialize c = one_text c (Config-discrete c added_config)

parse : Text → Option Config
parse t = some added_config

write : Text → Option Text → Bool × Option Text
write t file = (true, some t)

one_text-parse :
    (c : Config) (d : Dec (c ≡ added_config)) (t : Text) → one_text c d ≡ some t → parse t ≡ some c
unfolding one_text parse
one_text-parse c (yes e) t h = ap some (sym e)
one_text-parse c (no n) t h = cc

storing : Storing parse serialize write
unfolding serialize write
storing = record {
  parse-serialize = λ c t h. one_text-parse c (Config-discrete c added_config) t h;
  holds = λ t file h. refl;
}

one_text_self : (d : Dec (added_config ≡ added_config)) → one_text added_config d ≡ some (7 ∷ [])
unfolding one_text
one_text_self (yes e) = refl
one_text_self (no n) = absurd (n refl)

saved : (save_to_file serialize write added_config none).0 ≡ ok tt
unfolding save_to_file serialize write
saved = rw (save_to_file, one_text_self (Config-discrete added_config added_config)) refl

abbrev before_adding : AppState
before_adding = record state { config = valid_config }

handle_add_camera-from_file_example :
    (reply : Reply CameraConfig) × (after : AppState) × (handle_add_camera
        (λ c. succeeds (save_to_file serialize write c none).0)
        before_adding
        (camera cam2)
      ≡ ok (reply, after))
    × (after.config.cameras ≡ valid_config.cameras ++ (camera cam2 ∷ []))
    × (from_file parse (save_to_file serialize write after.config none).1 ≡ ok after.config)
    × (after.saved ≡ after.config)
unfolding validate find_worker oasis_nvr.Prelude.bytes_eq
handle_add_camera-from_file_example =
    handle_add_camera-from_file parse serialize write before_adding (camera cam2) none storing refl
      refl saved
