-- ===== src/Main/Start/Queue.antt =====
-- A configuration of src/config.rs that is accepted and with which the recorder does not start.
use oasis_nvr.Prelude.{ℕ, ◌≡◌, refl, Bool, true, false, ◌&&◌, not, Option, some}
use oasis_nvr.Chrono.{Time, Chrono}
use oasis_nvr.Outcome.{ok}
use oasis_nvr.Config.{Config, pool_bytes, validate, from_file}
use oasis_nvr.Utf8.{Text}
use oasis_nvr.Storage.ChunkPool.Files.{Disk, Store}
use oasis_nvr.Storage.ChunkPool.Open.{open_pool}
use oasis_nvr.Storage.GlobalWriter.{spawn_writer}
use oasis_nvr.Main.{crashes}
use oasis_nvr.Main.Start.{Directories, new_manager, run_record}

no_failure : (b : Bool) → (b && not true) ≡ false
no_failure true = refl
no_failure false = refl

-- The recorder crashes at the start on a configuration with a writer queue of size 0, although the
-- configuration is accepted: where its file parses to such a configuration that is otherwise valid,
-- loading gives no error, and the start panics instead of naming a problem. The directories must
-- be made, the pools be opened, and `mpsc::channel` panic on a bound of 0, as its documentation says.
pub run_record-zero_queue :
    (ch : Chrono) (clock : ℕ → Time) (now : Time) (disk : Disk) (dirs : Directories)
    (parse : Text → Option Config) (text : Text) (cfg : Config) (pool : Store)
    → parse text ≡ some cfg
    → validate cfg ≡ ok tt
    → cfg.storage.writer_queue_size ≡ 0
    → dirs.channel 0 ≡ false
    → dirs.make_base ≡ true
    → dirs.clear_tmp ≡ true
    → dirs.make_tmp ≡ true
    → open_pool ch clock (pool_bytes cfg.storage) now disk cfg.storage.max_pools ≡ ok pool
    → (from_file parse (some text) ≡ ok cfg)
      × (run_record ch clock now disk dirs (from_file parse (some text)) ≡ crashes)
unfolding from_file run_record new_manager spawn_writer
run_record-zero_queue ch clock now disk dirs parse text cfg pool parsed valid zero refused base
      clear tmp opens =
    let loaded : from_file parse (some text) ≡ ok cfg = rw (from_file, parsed, valid) refl in
    (
      loaded,
      rw
          (
            run_record,
            loaded,
            new_manager,
            base,
            clear,
            tmp,
            no_failure dirs.tmp_exists,
            opens,
            spawn_writer,
            zero,
            refused,
          )
          refl,
    )
