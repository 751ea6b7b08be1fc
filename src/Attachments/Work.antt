-- ===== src/Attachments/Work.antt =====
-- What a run of the worker of src/worker/chat-storage.ts works with: the services, its options and its
-- errors. A run is several transactions.
use openvac_web.Attachments.Types.{ChatStorage, StorageError, stale_lease}
use openvac_web.Attachments.Chunks.{ChunkError}
use openvac_web.Attachments.Chunks.Documents.{ParsedPage}
use openvac_web.Prelude.{ℕ, String, Bool, true, false, Option, List, Result, Tx, ok, err}

-- The errors that a run meets; the flag of a provider's error is `retryable`.
pub data WorkError : Type 0 where
  provider_error : Bool → WorkError
  chunk_error : ChunkError → WorkError
  database_error : StorageError → WorkError
  other_error : WorkError

pub data ParserStatus : Type 0 where
  parser_pending parser_processing parser_failed parser_succeeded : ParserStatus

pub record Outside : Type 0 where
  pub delete_private : String → Result WorkError (Unit {0})
  pub get_private : String → Result WorkError (List ℕ)
  pub pdf_text : List ℕ → Result WorkError (Option (List ParsedPage))
  pub create_download_url : String → Result WorkError String
  pub submit : String → String → Result WorkError String
  pub get_status : String → Result WorkError ParserStatus
  pub get_result : String → Result WorkError (List ParsedPage)
  pub decode : List ℕ → Option (List ℕ)
  pub meanwhile : ChatStorage → ChatStorage

pub record WorkerOptions : Type 0 where
  pub worker_id : String
  pub poll_interval_ms : ℕ
  pub retry_delay_ms : ℕ
  pub max_parser_polls : ℕ
  pub max_parser_age_ms : ℕ

pub data Outcome : Type 0 where
  idle deferred_run completed_run failed_run : Outcome

-- Several transactions: an error keeps what was committed before it.
abbrev pub Work : Type 0 → Type 0
Work A = ChatStorage → Result WorkError A × ChatStorage

abbrev pub go_on :
    {A B : Type 0}
    → (A → Work B)
    → Result WorkError A × ChatStorage
    → Result WorkError B × ChatStorage
go_on f (ok a, s) = f a s
go_on f (err e, s) = (err e, s)

abbrev pub bind : {A B : Type 0} → Work A → (A → Work B) → Work B
bind m f s = go_on f (m s)

abbrev pub committed :
    {A : Type 0}
    → ChatStorage
    → Result StorageError (A × ChatStorage)
    → Result WorkError A × ChatStorage
committed s (ok (a, s')) = (ok a, s')
committed s (err e) = (err (database_error e), s)

abbrev pub transact : {A : Type 0} → Tx ChatStorage StorageError A → Work A
transact m s = committed s (m s)

abbrev pub finish : {A : Type 0} → A → Work A
finish a s = (ok a, s)

abbrev pub fails_with : {A : Type 0} → WorkError → Work A
fails_with e s = (err e, s)

-- The chunks, or their error.
abbrev pub chunked : {A : Type 0} → Result ChunkError A → Work A
chunked (ok a) s = (ok a, s)
chunked (err e) s = (err (chunk_error e), s)

-- `error instanceof StaleChatStorageLeaseError`
abbrev pub is_stale : WorkError → Bool
is_stale (database_error stale_lease) = true
is_stale _ = false

-- `error instanceof ProviderError && !error.retryable`
abbrev pub is_final : WorkError → Bool
is_final (provider_error false) = true
is_final _ = false
