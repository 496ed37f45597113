-- ===== src/Api.antt =====
-- src/api.rs: the HTTP handlers. The router, the extractors and the JSON texts belong to the crates
-- `axum` and `serde`; a handler here takes the extracted parameters and the shared state, and
-- answers a status code, a media type, and a body or the problem that the error's text names.
-- `NaiveDateTime::parse_from_str` of the crate `chrono` is the argument `parse`.
pub mod Status
pub mod Query
pub mod Media
pub mod Cameras
pub mod Export
pub mod Router
pub mod Players
use oasis_nvr.Prelude.{ℕ, Option, List}
use oasis_nvr.Utf8.{Text}
use oasis_nvr.Chrono.{Time}
use oasis_nvr.Outcome.{NvrError, Reason}
use oasis_nvr.Config.{Config}
use oasis_nvr.Manager.{RecordingManager}
use oasis_nvr.Storage.ChunkPool.Readers.{PoolReadCounters}
use oasis_nvr.Storage.ChunkPool.Files.{Store}
use oasis_nvr.Storage.Index.{SegmentIndex}

-- `manager.pool` with its files is `store`; `saved` is the configuration that the file at
-- `config_path` holds.
pub record AppState : Type 0 where
  pub index : SegmentIndex
  pub config : Config
  pub saved : Config
  pub read_counters : PoolReadCounters
  pub manager : RecordingManager
  pub store : Store

pub record ListParams : Type 0 where
  pub camera : Text

pub record ExportParams : Type 0 where
  pub camera : Text
  pub from : Text
  pub to : Text

pub record VodParams : Type 0 where
  pub from : Text
  pub to : Text

pub record DashParams : Type 0 where
  pub from : Option Text
  pub to : Option Text

pub record LoginParams : Type 0 where
  pub username : Text
  pub password : Text

pub data StatusCode : Type 0 where
  ok_200 created_201 bad_request_400 unauthorized_401 not_found_404 conflict_409 : StatusCode
  internal_server_error_500 : StatusCode

pub data MediaType : Type 0 where
  json plain_text html mpegurl dash_xml mp4 : MediaType

-- What the text of an error answer says.
pub data Problem : Type 0 where
  invalid_credentials invalid_from invalid_to segment_not_found cannot_read_export : Problem
  no_segments_found : Text → Problem
  camera_not_found : Text → Problem
  storage_problem : Reason → Problem
  failed : NvrError → Problem

pub data Body {ℓ} (A : Type ℓ) : Type ℓ where
  content : A → Body A
  problem : Problem → Body A

pub record Reply {ℓ} (A : Type ℓ) : Type ℓ where
  pub status : StatusCode
  pub media : MediaType
  pub body : Body A

abbrev pub answer {ℓ} : {A : Type ℓ} → MediaType → A → Reply A
answer m a = record { status = ok_200; media = m; body = content a }

abbrev pub refuse {ℓ} : {A : Type ℓ} → StatusCode → MediaType → Problem → Reply A
refuse code m why = record { status = code; media = m; body = problem why }

-- A text as an instant of UTC, where it has the form of a date with a time.
abbrev pub Parse : Type 0
Parse = Text → Option Time
