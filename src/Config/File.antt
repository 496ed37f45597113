-- ===== src/Config/File.antt =====
-- What `Config::from_file` reads after `Config::save_to_file`.
use oasis_nvr.Prelude.{◌≡◌, refl, Bool, true, Option, some, inl, inr, Bool-cases}
use oasis_nvr.Prelude.Cases.{Option-cases}
use oasis_nvr.Utf8.{Text}
use oasis_nvr.Outcome.{Result, ok, err, config, unwritable, unserializable}
use oasis_nvr.Config.{Config, validate, from_file, save_to_file}

-- What the crate `toml` and the file system are relied on for: a serialized configuration parses
-- back, and a write that succeeds leaves what was written.
pub record Storing (parse : Text → Option Config) (serialize : Config → Option Text)
    (write : Text → Option Text → Bool × Option Text) : Type 0 where
  pub parse-serialize : (c : Config) (t : Text) → serialize c ≡ some t → parse t ≡ some c
  pub holds : (t : Text) (file : Option Text) → (write t file).0 ≡ true → (write t file).1 ≡ some t

module _ (parse : Text → Option Config) (serialize : Config → Option Text)
    (write : Text → Option Text → Bool × Option Text) (laws : Storing parse serialize write) where
  -- A saved configuration that is valid is loaded again.
  pub from_file-save_to_file :
      (c : Config) (file : Option Text)
      → (save_to_file serialize write c file).0 ≡ ok tt
      → validate c ≡ ok tt
      → from_file parse (save_to_file serialize write c file).1 ≡ ok c
  unfolding save_to_file from_file
  from_file-save_to_file c file saved valid = elim (Option-cases (serialize c)) [
    | inl e ↦
        let no : Path (Result (Unit {0})) (err (config unserializable)) (ok tt) =
          rw (save_to_file, e) at saved in
        cc
    | inr (t, e) ↦ elim (Bool-cases (write t file).0) [
      | inl done ↦
          rw (save_to_file, e, laws.holds t file done, laws.parse-serialize c t e, valid) refl
      | inr failed ↦
          let no : Path (Result (Unit {0})) (err (config unwritable)) (ok tt) =
            rw (save_to_file, e, failed) at saved in
          cc
    ]
  ]
