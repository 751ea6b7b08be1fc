-- ===== src/Attachments/Queue.antt =====
-- The parse queue of src/worker/chat-storage.ts: the claim, and the writes of a worker that holds the
-- lease of an attachment. A token of `gen_random_uuid()` is an argument, and so are the rows that
-- `SKIP LOCKED` passes over.
use openvac_web.Prelude.{
  ℕ, ◌+◌, ◌-◌, String, Bool, true, false, not, ◌&&◌, ◌||◌, Option, none, some, List, [], ◌∷◌, ◌++◌,
  map, str_eq, ltb, leb, ◌==◌, if◌then◌else◌, length, any, select, sort, Tx, ◌>>◌, modify, ok, err,
}
use openvac_web.Attachments.Types.{
  AttachmentKind, AttachmentStatus, ChatAttachmentParseStatus, Locator, AttachmentRow, ChunkRow,
  ChatStorage, StorageError, document, image, processing, ready, failed, parse_queued,
  parse_processing, parse_ready, parse_failed, stale_lease, invalid_chunk_count,
}
use openvac_web.Attachments.Rows.{is_committed, is_active, find_attachment, set_attachment}

pub record ParseJob : Type 0 where
  pub id : ℕ
  pub object_key : String
  pub filename : String
  pub mime_type : String
  pub parser_job_id : Option String
  pub parser_poll_count : ℕ
  pub parser_submitted_at : Option ℕ
  pub attempts : ℕ
  pub max_attempts : ℕ
  pub worker_id : String
  pub lease_token : ℕ

-- `INTERVAL '15 minutes'`
abbrev pub lease_ms : ℕ
lease_ms = 900_000

-- `locked_at < NOW() - INTERVAL '15 minutes'`
abbrev pub lease_over : ℕ → Option ℕ → Bool
lease_over now none = false
lease_over now (some at) = ltb (at + lease_ms) now

abbrev pub is_document : AttachmentKind → Bool
is_document document = true
is_document image = false

abbrev pub is_processing : AttachmentStatus → Bool
is_processing processing = true
is_processing _ = false

abbrev pub is_parse_queued : ChatAttachmentParseStatus → Bool
is_parse_queued parse_queued = true
is_parse_queued _ = false

abbrev pub is_parsing : ChatAttachmentParseStatus → Bool
is_parsing parse_processing = true
is_parsing _ = false

unfoldable pub is_claimable : ℕ → AttachmentRow → Bool
is_claimable now r =
    is_document r.kind
    && (is_committed r.quota_state
        && (is_active r.deletion_status
            && (is_processing r.status
                && ((is_parse_queued r.parse_status && leb r.parse_run_at now)
                    || (is_parsing r.parse_status && lease_over now r.parse_locked_at)))))

-- `ORDER BY parse_run_at, created_at`
unfoldable pub parse_order : AttachmentRow → AttachmentRow → Bool
parse_order a b =
    ltb a.parse_run_at b.parse_run_at
    || (a.parse_run_at == b.parse_run_at && leb a.created_at b.created_at)

abbrev pub head : List AttachmentRow → Option AttachmentRow
head [] = none
head (r ∷ rs) = some r

unfoldable pub parse_candidate : ℕ → List ℕ → List AttachmentRow → Option AttachmentRow
unfolding is_claimable parse_order
parse_candidate now locked rows = head (
    sort parse_order (
      select (λ (r : AttachmentRow). is_claimable now r && not (any (λ n. n == r.id) locked)) rows))

unfoldable pub claimed : String → ℕ → ℕ → AttachmentRow → AttachmentRow
claimed worker_id token now r = record r {
  parse_status = parse_processing;
  parse_attempts = r.parse_attempts + 1;
  parse_locked_at = some now;
  parse_locked_by = some worker_id;
  parse_lease_token = some token;
}

unfoldable pub parse_job : String → ℕ → AttachmentRow → ParseJob
parse_job worker_id token r = record {
  id = r.id;
  object_key = r.object_key;
  filename = r.filename;
  mime_type = r.mime_type;
  parser_job_id = r.parse_job_id;
  parser_poll_count = r.parse_poll_count;
  parser_submitted_at = r.parse_submitted_at;
  attempts = r.parse_attempts;
  max_attempts = r.parse_max_attempts;
  worker_id = worker_id;
  lease_token = token;
}

unfoldable pub claim_attachment_parse :
    String → ℕ → ℕ → List ℕ → ChatStorage → Option ParseJob × ChatStorage
unfolding parse_candidate claimed parse_job set_attachment
claim_attachment_parse worker_id token now locked s =
    elim (parse_candidate now locked s.attachments) [
      | none ↦ (none, s)
      | some r ↦ (
        some (parse_job worker_id token (claimed worker_id token now r)),
        record s { attachments = set_attachment r.id (claimed worker_id token now) s.attachments },
      )
    ]

-- The condition of every write of a worker: the row is being parsed under the job's own lease.
unfoldable pub holds_lease : ParseJob → AttachmentRow → Bool
holds_lease job r =
    is_parsing r.parse_status
    && (elim r.parse_locked_by [ none ↦ false | some worker ↦ str_eq worker job.worker_id ]
        && elim r.parse_lease_token [ none ↦ false | some token ↦ token == job.lease_token ])

-- `UPDATE … WHERE id = $1 AND … RETURNING id`, and `assertLease`.
unfoldable pub leased_update :
    ParseJob → (AttachmentRow → AttachmentRow) → Tx ChatStorage StorageError (Unit {0})
unfolding holds_lease find_attachment set_attachment
leased_update job change s = elim (find_attachment job.id s.attachments) [
  | none ↦ err stale_lease
  | some r ↦
      if holds_lease job r
      then ok (tt, record s { attachments = set_attachment job.id change s.attachments })
      else err stale_lease
]

unfoldable pub unlocked : AttachmentRow → AttachmentRow
unlocked r = record r { parse_locked_at = none; parse_locked_by = none; parse_lease_token = none }

unfoldable pub renew_attachment_lease : ParseJob → ℕ → Tx ChatStorage StorageError (Unit {0})
unfolding leased_update
renew_attachment_lease job now =
    leased_update job (λ (r : AttachmentRow). record r { parse_locked_at = some now })

unfoldable pub submitted : String → ℕ → ℕ → AttachmentRow → AttachmentRow
unfolding unlocked
submitted parser_job_id retry_at now r = unlocked (record r {
  parse_status = parse_queued;
  parse_job_id = some parser_job_id;
  parse_run_at = retry_at;
  parse_poll_count = 0;
  parse_submitted_at = some now;
  parse_attempts = r.parse_attempts - 1;
})

unfoldable pub mark_parser_submitted :
    ParseJob → String → ℕ → ℕ → Tx ChatStorage StorageError (Unit {0})
unfolding leased_update submitted
mark_parser_submitted job parser_job_id retry_at now =
    leased_update job (submitted parser_job_id retry_at now)

unfoldable pub deferred : ℕ → AttachmentRow → AttachmentRow
unfolding unlocked
deferred retry_at r = unlocked (record r {
  parse_status = parse_queued;
  parse_run_at = retry_at;
  parse_poll_count = r.parse_poll_count + 1;
  parse_attempts = r.parse_attempts - 1;
})

unfoldable pub defer_parser_poll : ParseJob → ℕ → Tx ChatStorage StorageError (Unit {0})
unfolding leased_update deferred
defer_parser_poll job retry_at = leased_update job (deferred retry_at)

-- `MAX_CHUNKS`
abbrev pub max_chunks : ℕ
max_chunks = 4_096

pub record PrivateAttachmentChunk : Type 0 where
  pub ordinal : ℕ
  pub content : List ℕ
  pub locator : Locator

unfoldable pub chunk_row : ℕ → PrivateAttachmentChunk → ChunkRow
chunk_row attachment_id chunk = record {
  attachment_id = attachment_id;
  ordinal = chunk.ordinal;
  content = chunk.content;
  locator = chunk.locator;
}

unfoldable pub parsed : ℕ → AttachmentRow → AttachmentRow
unfolding unlocked
parsed now r = unlocked (record r {
  status = ready;
  parse_status = parse_ready;
  failure_code = none;
  ready_at = some now;
})

unfoldable pub replace_chunks : ℕ → List PrivateAttachmentChunk → ChatStorage → ChatStorage
unfolding chunk_row
replace_chunks id chunks s = record s {
  chunks =
      map (chunk_row id) chunks ++ select (λ (c : ChunkRow). not (c.attachment_id == id)) s.chunks;
}

-- The lease is looked at before the chunks are replaced and again when the row is written.
unfoldable pub save_chunks_and_complete :
    ParseJob → List PrivateAttachmentChunk → ℕ → Tx ChatStorage StorageError (Unit {0})
unfolding leased_update parsed replace_chunks
save_chunks_and_complete job chunks now s =
    if ltb (length chunks) 1 || ltb max_chunks (length chunks)
    then err invalid_chunk_count
    else (leased_update job (λ r. r)
          >> (modify (replace_chunks job.id chunks) >> leased_update job (parsed now)))
        s

-- `terminal`: no attempt is left, or the provider says that no attempt can succeed.
unfoldable pub is_terminal : ℕ → ℕ → Bool → Bool
is_terminal attempts max_attempts final = leb max_attempts attempts || final

unfoldable pub parse_failure : Bool → ℕ → AttachmentRow → AttachmentRow
unfolding unlocked
parse_failure terminal retry_at r = unlocked (record r {
  status = if terminal then failed else processing;
  parse_status = if terminal then parse_failed else parse_queued;
  parse_run_at = retry_at;
  failure_code = if terminal then some "ATTACHMENT_PARSE_FAILED" else none;
})

unfoldable pub mark_attachment_failed : ParseJob → Bool → ℕ → Tx ChatStorage StorageError (Unit {0})
unfolding leased_update is_terminal parse_failure
mark_attachment_failed job final retry_at =
    leased_update job (parse_failure (is_terminal job.attempts job.max_attempts final) retry_at)
