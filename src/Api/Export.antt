-- ===== src/Api/Export.antt =====
-- `handle_export` of src/api.rs.
pub mod Guards
use oasis_nvr.Prelude.{
  ℕ, ◌*◌, Bool, ◌||◌, not, Option, none, some, List, [], ◌∷◌, map, keep, ◌==◌, if◌then◌else◌,
}
use oasis_nvr.Utf8.{Text}
use oasis_nvr.Chrono.{Time, Chrono}
use oasis_nvr.Outcome.{NvrError, storage, Result, ok, err, panic, ◌>>=◌}
use oasis_nvr.Config.{pool_bytes}
use oasis_nvr.Storage.ChunkPool.Readers.{PoolReadCounters, PoolReadGuard, acquire, drop_guard}
use oasis_nvr.Storage.ChunkPool.Files.{Store}
use oasis_nvr.Storage.ChunkPool.Open.{open_pool}
use oasis_nvr.Storage.Index.{SegmentMeta, segments_in_range}
use oasis_nvr.Playback.{Surroundings, Exported, export_range}
use oasis_nvr.Api.{
  AppState, ExportParams, bad_request_400, not_found_404, internal_server_error_500, json, mp4,
  invalid_from, invalid_to, cannot_read_export, storage_problem, failed, Reply, answer, refuse,
  Parse,
}

-- The pools of the segments, each once. The set's order is not fixed; here it is that of the first
-- segments.
unfoldable pub distinct_pools : List ℕ → List ℕ
distinct_pools [] = []
distinct_pools (i ∷ is) = i ∷ keep (λ j. not (i == j)) (distinct_pools is)

unfoldable pub acquire_all :
    PoolReadCounters → List ℕ → Result (PoolReadCounters × List PoolReadGuard)
acquire_all c [] = ok (c, [])
acquire_all c (i ∷ is) = do
  (c1, guard) ← acquire c i
  (c2, guards) ← acquire_all c1 is
  ok (c2, guard ∷ guards)

-- `drop(_guards)`: the elements of a vector are dropped in their order.
unfoldable pub drop_all : PoolReadCounters → List PoolReadGuard → Result PoolReadCounters
drop_all c [] = ok c
drop_all c (g ∷ gs) = drop_guard c g >>= λ c1. drop_all c1 gs

abbrev error_reply : NvrError → Reply (List ℕ)
error_reply (storage m) = refuse not_found_404 json (storage_problem m)
error_reply e = refuse internal_server_error_500 json (failed e)

-- The reply for what the export gave; the output file is read and removed.
unfoldable pub export_reply : Exported → Result (Reply (List ℕ))
export_reply ex = elim ex.outcome [
  | ok count ↦ elim ex.output [
    | none ↦ ok (refuse internal_server_error_500 json cannot_read_export)
    | some bytes ↦ ok (answer mp4 bytes)
  ]
  | err e ↦ ok (error_reply e)
  | panic ↦ panic
]

-- The pool is opened anew; `clock` is read while its files are scanned, and `now` while a first
-- header is written.
unfoldable pub handle_export :
    Parse
    → Chrono
    → (ℕ → Time)
    → Time
    → Surroundings
    → AppState
    → ExportParams
    → Result (Reply (List ℕ) × AppState)
handle_export parse ch clock now env state params = elim (parse params.from) [
  | none ↦ ok (refuse bad_request_400 json invalid_from, state)
  | some from ↦ elim (parse params.to) [
    | none ↦ ok (refuse bad_request_400 json invalid_to, state)
    | some to ↦
        elim (open_pool ch clock (pool_bytes state.config.storage) now state.store.disk
          state.config.storage.max_pools) [
            | err e ↦ ok (refuse internal_server_error_500 json (failed e), state)
            | panic ↦ panic
            | ok opened ↦ do
              let segs = segments_in_range state.index params.camera from to
              (held, guards) ←
                  acquire_all state.read_counters
                    (distinct_pools (map (λ m. m.location.pool_idx) segs))
              let exported = export_range env opened state.index params.camera from to
              counters ← drop_all held guards
              reply ← export_reply exported
              ok (
                reply,
                record state {
                  read_counters = counters;
                  store = record state.store { disk = opened.disk };
                },
              )
          ]
  ]
]
