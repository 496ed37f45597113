-- ===== src/Tests.antt =====
-- The theorems at concrete inputs, and concrete runs.
pub mod Fixtures
mod StorageTests
mod StaleTests
mod ConfigTests
mod OpenTests
mod RouterTests
mod WorkerTests
mod RestartTests
mod PipelineTests
mod RecordingTests
mod ConcurrentTests
mod WriterTests
mod ApiTests
mod CommandTests
mod ServiceTests
