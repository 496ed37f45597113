-- ===== src/Lib.antt =====
-- Oasis NVR records camera streams into a ring of preallocated pool files (src/storage) and serves
-- the segments over HTTP. This library models the storage subsystem, the way of a segment from the
-- camera's stream to the pool and back out to a viewer, the HTTP handlers, and the commands.
--
-- The parts and their files. Paths are from the repository's root.
-- Prelude holds shared helpers: Boolean tests, lists over the native numbers, 64-bit addition and
-- little-endian bytes. Chrono is what the code uses of the crate chrono, as a record of functions
-- with their documented laws. Utf8 is what it uses of `str`. Outcome is src/error.rs, with a panic
-- as a third outcome.
-- Storage/ChunkPool is src/storage/chunk_pool.rs. Types has its constants and structs. Record has
-- the bytes that `append` writes for a segment (`encode_record`) and the loop of `scan_records`
-- (`scan_from`, one round of it `scan_round`). Readers has `PoolReadCounters` and its guards.
-- Files has the pool files as byte lists, with the monad of operations that read and change the
-- pool and the files and leave a state also when they fail. Pool has `append`, `rotate`,
-- `write_pool_header`, `status` and `read_segment_data`; Ring has what these promise their
-- clients, an abstract ring of pools, and the relation of a store to it; Open has `open`
-- (`open_pool`), `read_pool_header` and `scan_all_pools`, with its children on where `open`
-- resumes and what a restart finds.
-- Storage/Index is src/storage/index.rs: the BTreeMap is the list of its entries in key order.
-- Storage/GlobalWriter is src/storage/global_writer.rs: `writer_loop` over the list of the
-- requests received, `write_step` for one request. The writer calls the pool and the index in the
-- order of the source: status, eviction, append, insertion. Its children relate the writer to the
-- ring: `Serves` is its invariant. Restart is about the index that a restart builds (`start_index`),
-- with the segments as their records keep them (`as_kept`).
-- Config is src/config.rs: `validate`, `from_file`, `save_to_file` and the defaults. Manager is
-- src/manager.rs: the worker table, with the calls on tasks as a list. Hls is src/hls.rs and Dash is src/dash.rs:
-- both take the segments from the index; a playlist is the list of its lines.
-- Camera is src/camera.rs: the state behind the `format-location` signal, `stop`, and the loop of
-- `supervised_connect`, whose fuel is the number of attempts that the configuration allows.
-- Camera/Pipeline has `CameraStream::connect` and its `pad-added` handler call by call, and
-- Camera/Channel `read_segment` with the senders of the stream's channel.
-- Calls has runs of calls into GStreamer: the calls made, in order, and the result, where whether
-- a call succeeds is an argument, and a call that fails with `?` ends the run.
-- Ingestion is src/ingestion.rs: `CameraWorker` between the streams of camera.rs, the temporary
-- files and the writer's channel, where `run` has the one stream that a worker comes to read;
-- Ingestion/Reconnects has the loops of `run` as a step relation.
-- Playback is src/playback.rs: `export_range`, and in
-- Playback/Remux `remux_segments` with the `pad-added` handler of its demuxers.
-- Api is src/api.rs: Status has the login, the status and the list, Query and Media the playlists,
-- manifests and segments, Cameras the handlers that list, add and remove cameras, Export the
-- download, Router the routes and, in Router/Documented, the table of README.md, Players the two
-- player pages. A handler takes the shared state `AppState` and gives a reply, and the state where
-- it changes it. Api/Media/Concurrent runs the writer and a segment request at the same time, as a
-- step relation whose steps are what each does under one lock.
-- Main is src/main.rs, and Main/Start has `RecordingManager::new` of src/manager.rs with the start
-- of the writer, and `end_record`, what `run_record` does after the interrupt. Main/Commands has the
-- command line (`main`). Main/Recording joins the parts from a camera's signals to the answer of
-- the API, and Main/Restarted from the pool files that were left to that answer.
-- Tests has concrete data, runs, and theorems at concrete inputs.
--
-- Conventions. Bytes, ids, offsets and instants are native numbers; 64-bit additions wrap
-- (`add64`), as in a release build. An instant counts nanoseconds from the first that chrono
-- represents. Clock readings and the answers of `has_readers` over time are arguments. The fuel of
-- the scan loop is the length of the rest of the file: each round that goes on takes at least 40
-- bytes off it.
--
-- The fuel of the polling loop of `handle_hls_live` is the number of polls; with a pause of 200 ms
-- between two polls, 151 are enough for its 30 seconds. Elsewhere than in Api/Media/Concurrent
-- handlers run one after the other: what other tasks change while one waits is an argument, as the
-- index at each poll.
--
-- Not modelled: failures of the medium other than a missing file or its end, logging, how locks
-- are waited for, the texts of TOML, JSON and HTTP and the parsing of the command line (the crates
-- toml, serde, axum and clap), the digits of printed dates and durations, what GStreamer does with
-- the pipelines once they run, `start_server`, which only binds a socket and serves, and `spawn` of
-- src/ingestion.rs, which only hands `run` to tokio.
pub mod Api
pub mod Main
pub mod Playback
pub mod Ingestion
pub mod Prelude
pub mod Chrono
pub mod Calls
pub mod Outcome
pub mod Utf8
pub mod Storage
pub mod Tests
pub mod Config
pub mod Manager
pub mod Camera
pub mod Hls
pub mod Dash
