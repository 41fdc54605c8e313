-- ===== src/Uploads/Finalize.antt =====
-- `finalizeChunkedUploadSession` and `handleChunkedFinish` of internal/server/chunked_upload.go.
use mentis_eterna.Prelude.{
  ℕ, zero, suc, String, Bool, false, not, ◌&&◌, ◌||◌, Option, none, some, List, [], ◌++◌, length,
  ◌==◌, nat_key, string_key, ◌⊎◌, inl, inr, if◌then◌else◌,
}
use mentis_eterna.Uploads.Sessions.{
  UploadStatus, blank, uploading, assembling, verifying, processing, done, failed, NoteFile,
  FinishResult, Session, Store, is_uploading, is_session, is_session_of, load_upload_session,
  update_sessions, any_session, set_status, on_sessions, update_upload_status, read_chunk,
  remove_dir,
}
use mentis_eterna.Uploads.Handlers.{Reply, refused, created, is_session_expired}

pub data FinishError : Type 0 where
  no_media not_found expired already_finalizing already_completed : FinishError
  terminal : UploadStatus → FinishError
  not_all_chunks : ℕ → ℕ → FinishError
  missing_chunk : ℕ → FinishError
  file_mismatch : FinishError
  disk_failure media_failure : String → FinishError

pub data Finish : Type 0 where
  failure : FinishError → Finish
  success : FinishResult → Finish

-- Why a status does not let a session be finalized, if it does not.
abbrev pub status_error : UploadStatus → Option FinishError
status_error blank = none
status_error uploading = none
status_error processing = some already_finalizing
status_error assembling = some already_finalizing
status_error verifying = some already_finalizing
status_error done = some already_completed
status_error s = some (terminal s)

-- WHERE upload_id = ? AND note_id = ? AND (status = 'uploading' OR status = '').
abbrev pub is_claimable : String → ℕ → Session → Bool
is_claimable id note s = is_session_of id note s && is_uploading s.status

abbrev pub or_finalizing : Option FinishError → FinishError
or_finalizing none = already_finalizing
or_finalizing (some e) = e

-- Why the UPDATE found no row.
abbrev pub lost_claim : Option Session → FinishError
lost_claim none = not_found
lost_claim (some s) = or_finalizing (status_error s.status)

abbrev pub claim_after : Option FinishError → String → ℕ → Store → Option FinishError × Store
claim_after (some e) id note st = (some e, st)
claim_after none id note st =
    if any_session (is_claimable id note) st.sessions
    then (none, on_sessions (update_sessions (is_claimable id note) (set_status assembling)) st)
    else (some (lost_claim (load_upload_session id note st.sessions)), st)

-- `claimChunkedUploadFinalization` of the row that was read before.
unfoldable pub claim_chunked_upload_finalization :
    Session → String → ℕ → Store → Option FinishError × Store
unfolding load_upload_session update_sessions
claim_chunked_upload_finalization s id note st = claim_after (status_error s.status) id note st

-- The loop over the chunks from `i` on, of which so many are left: the bytes written, or the first chunk
-- that cannot be read.
unfoldable pub assemble : String → ℕ → ℕ → Store → List ℕ → Option (List ℕ) × ℕ
unfolding read_chunk
assemble id i zero st out = (some out, i)
assemble id i (suc left) st out = elim (read_chunk id i st) [
  | none ↦ (none, i)
  | some bytes ↦ assemble id (suc i) left st (out ++ bytes)
]

-- What the disk refuses while the file is put together: to create it, to close it, to open it again.
pub record DiskErrors : Type 0 where
  pub create : Option String
  pub close : Option String
  pub open_again : Option String

abbrev pub give_up : FinishError → String → Store → Finish × Store
give_up e id st = (failure e, update_upload_status id failed st)

-- Go on, unless the disk refuses.
abbrev pub unless_refused : Option String → String → Store → Finish × Store → Finish × Store
unless_refused (some e) id st next = give_up (disk_failure e) id st
unless_refused none id st next = next

abbrev pub set_finished : FinishResult → Session → Session
set_finished r s = record s { status = done; finish_result = some r }

-- The digest of the whole file, if the client gave one.
abbrev pub needs_digest : Option String → Bool
needs_digest none = false
needs_digest (some h) = not (h == "")

abbrev pub or_empty : Option String → String
or_empty none = ""
or_empty (some h) = h

-- The code that a client gets for an error.
abbrev pub code_of : FinishError → ℕ
code_of not_found = 404
code_of expired = 410
code_of already_finalizing = 409
code_of already_completed = 409
code_of (not_all_chunks n m) = 409
code_of (missing_chunk i) = 409
code_of file_mismatch = 400
code_of _ = 500

-- The fixed part of the message.
abbrev pub message_of : FinishError → String
message_of not_found = "upload session not found"
message_of expired = "upload session expired"
message_of already_finalizing = "upload already being finalized"
message_of already_completed = "upload already completed"
message_of (not_all_chunks n m) = "not all chunks received: "
message_of (missing_chunk i) = "missing chunk "
message_of file_mismatch = "file sha256 mismatch: "
message_of _ = "internal server error"

abbrev pub reply_of : Finish × Store → Reply × Store
reply_of (failure e, st) = (refused (code_of e) (message_of e), st)
reply_of (success r, st) = (created r, st)

-- `create_file` is the media service, which makes a file of the bytes, or gives an error; `markdown_of`
-- the reference to it in a note. `between` is what other goroutines do to the store before the claim, before
-- the chunks are read, and before the result is stored.
module _ (sha256_hex : List ℕ → String) (equal_fold : String → String → Bool)
    (create_file : Session → List ℕ → String ⊎ NoteFile) (markdown_of : NoteFile → String)
    (between : ℕ → Store → Store) where
  abbrev pub finish_result_of : Session → NoteFile → FinishResult
  finish_result_of s file = record {
    file = file;
    markdown = if s.inline then some (markdown_of file) else none;
  }

  abbrev pub store_result : String → FinishResult → Store → Finish × Store
  store_result id r st =
      (success r, remove_dir id (on_sessions (update_sessions (is_session id) (set_finished r)) st))

  abbrev pub after_create : Session → String → String ⊎ NoteFile → Store → Finish × Store
  after_create s id (inl e) st = give_up (media_failure e) id st
  after_create s id (inr file) st = store_result id (finish_result_of s file) st

  abbrev pub file_fits : Session → List ℕ → Bool
  file_fits s bytes =
      not (needs_digest s.file_sha256) || equal_fold (sha256_hex bytes) (or_empty s.file_sha256)

  -- The statuses `verifying` and `processing` are each written before what they announce.
  abbrev pub process : Session → String → DiskErrors → List ℕ → Store → Finish × Store
  process s id disk bytes st =
      let verified = update_upload_status id verifying st in
      let processed = update_upload_status id processing verified in
      if not (file_fits s bytes)
      then give_up file_mismatch id verified
      else unless_refused disk.open_again id processed
          (after_create s id (create_file s bytes) (between 2 processed))

  abbrev pub after_assemble :
      Session → String → DiskErrors → Option (List ℕ) × ℕ → Store → Finish × Store
  after_assemble s id disk (none, i) st = give_up (missing_chunk i) id st
  after_assemble s id disk (some bytes, _) st =
      unless_refused disk.close id st (process s id disk bytes st)

  abbrev pub after_claim :
      Session → String → DiskErrors → Option FinishError × Store → Finish × Store
  after_claim s id disk (some e, st) = (failure e, st)
  after_claim s id disk (none, st) =
      let later = between 1 st in
      if not (length s.chunks_done == s.total_chunks)
      then give_up (not_all_chunks (length s.chunks_done) s.total_chunks) id st
      else unless_refused disk.create id st
          (after_assemble s id disk (assemble id 0 s.total_chunks later []) later)

  abbrev pub finalize_found : Option Session → String → ℕ → ℕ → DiskErrors → Store → Finish × Store
  finalize_found none id note now disk st = (failure not_found, st)
  finalize_found (some s) id note now disk st =
      if is_session_expired now s
      then (failure expired, st)
      else after_claim s id disk (claim_chunked_upload_finalization s id note (between 0 st))

  unfoldable pub finalize_chunked_upload_session :
      Bool → String → ℕ → ℕ → DiskErrors → Store → Finish × Store
  unfolding load_upload_session claim_chunked_upload_finalization update_upload_status remove_dir
      assemble update_sessions
  finalize_chunked_upload_session configured id note now disk st =
      if not configured
      then (failure no_media, st)
      else finalize_found (load_upload_session id note st.sessions) id note now disk st

  unfoldable pub handle_chunked_finish :
      Bool → Bool → String → ℕ → ℕ → DiskErrors → Store → Reply × Store
  unfolding finalize_chunked_upload_session
  handle_chunked_finish configured is_post id note now disk st =
      if not configured
      then (refused 503 "media not configured", st)
      else if not is_post
      then (refused 405 "method not allowed", st)
      else reply_of (finalize_chunked_upload_session configured id note now disk st)

  -- The goroutine that a chunk starts, when the last one has come.
  unfoldable pub maybe_auto_finish_chunked_upload :
      Bool → Bool → String → ℕ → ℕ → DiskErrors → Store → Store
  unfolding finalize_chunked_upload_session
  maybe_auto_finish_chunked_upload auto_finish configured id note now disk st =
      if auto_finish then (finalize_chunked_upload_session configured id note now disk st).1 else st
