-- ===== src/Uploads/Handlers.antt =====
-- The HTTP handlers of internal/server/chunked_upload.go, but for the finish. A handler gives a reply and
-- the store behind it.
use mentis_eterna.Prelude.{
  ℕ, ◌+◌, ◌*◌, String, Bool, false, not, ◌&&◌, ◌||◌, Option, none, some, List, [], ◌∷◌, ◌++◌,
  keep_if, length, leb, ltb, ◌==◌, nat_key, string_key, if◌then◌else◌,
}
use mentis_eterna.Uploads.Sessions.{
  UploadStatus, uploading, FinishResult, Session, Store, is_unfinished, load_upload_session,
  load_upload_session_by_hash, load_upload_session_by_placeholder, on_sessions, has_index,
  add_chunk_done, write_chunk, cleanup_upload_session,
}

pub data Reply : Type 0 where
  refused : ℕ → String → Reply
  started : String → List ℕ → UploadStatus → Option FinishResult → Reply
  chunk_received : ℕ → ℕ → ℕ → Reply
  state : Session → Reply
  not_there cancelled : Reply
  sessions : List Session → Reply
  created : FinishResult → Reply

-- A number that is not positive is 0 here.
pub record StartRequest : Type 0 where
  pub filename : String
  pub mime_type : String
  pub total_size : ℕ
  pub chunk_size : ℕ
  pub total_chunks : ℕ
  pub file_sha256 : String
  pub inline : Bool
  pub placeholder_token : String

pub record Limits : Type 0 where
  pub max_upload_bytes : ℕ
  pub max_inline_upload_bytes : ℕ

-- A text, unless it is empty.
abbrev pub unless_empty : String → Option String
unless_empty s = if s == "" then none else some s

abbrev pub lifetime : ℕ
lifetime = 12 * 60 * 60 * 1000

abbrev pub build_chunked_start_response : Session → Reply
build_chunked_start_response s = started s.upload_id s.chunks_done s.status s.finish_result

abbrev pub new_session : String → ℕ → StartRequest → ℕ → Session
new_session id note req now = record {
  upload_id = id;
  note_id = note;
  filename = if req.filename == "" then "untitled" else req.filename;
  mime_type = req.mime_type;
  total_size = req.total_size;
  chunk_size = req.chunk_size;
  total_chunks = req.total_chunks;
  file_sha256 = unless_empty req.file_sha256;
  inline = req.inline;
  chunks_done = [];
  status = uploading;
  finish_result = none;
  placeholder_token = unless_empty req.placeholder_token;
  created_at = now;
  expires_at = now + lifetime;
}

-- A lookup that an empty text leaves out.
abbrev pub if_given : Option String → (String → Option Session) → Option Session
if_given none find = none
if_given (some v) find = find v

abbrev pub start_new : String → ℕ → StartRequest → ℕ → Store → Reply × Store
start_new id note req now st = (
  started id [] uploading none,
  on_sessions (λ rows. rows ++ new_session id note req now ∷ []) st,
)

abbrev pub start_or : Option Session → Store → Reply × Store → Reply × Store
start_or none st next = next
start_or (some s) st next = (build_chunked_start_response s, st)

abbrev pub start_request : Limits → String → ℕ → ℕ → StartRequest → Store → Reply × Store
start_request limits id note now req st =
    let max_bytes =
      if req.inline then limits.max_inline_upload_bytes else limits.max_upload_bytes in
    if req.total_size == 0 || req.chunk_size == 0 || req.total_chunks == 0
    then (refused 400 "total_size, chunk_size, and total_chunks must be positive", st)
    else if ltb max_bytes req.total_size
    then (refused 413 "total file size exceeds configured limit", st)
    else start_or
        (if_given (unless_empty req.placeholder_token)
          (λ token. load_upload_session_by_placeholder note token now st.sessions))
        st
        (start_or
          (if_given (unless_empty req.file_sha256)
            (λ hash. load_upload_session_by_hash note hash now st.sessions))
          st (start_new id note req now st))

abbrev pub decoded : Option StartRequest → Store → (StartRequest → Reply × Store) → Reply × Store
decoded none st next = (refused 400 "invalid json", st)
decoded (some req) st next = next req

-- `id` is the new UUID; `exists_note` is the first query; no request is one that is no JSON.
unfoldable pub handle_chunked_start :
    Bool → Bool → Bool → Limits → String → ℕ → ℕ → Option StartRequest → Store → Reply × Store
unfolding load_upload_session_by_placeholder load_upload_session_by_hash
handle_chunked_start configured is_post exists_note limits id note now req st =
    if not configured
    then (refused 503 "media not configured", st)
    else if not is_post
    then (refused 405 "method not allowed", st)
    else if not exists_note
    then (refused 404 "note not found", st)
    else decoded req st (λ r. start_request limits id note now r st)

-- Expired, or with a time that does not parse.
abbrev pub is_session_expired : ℕ → Session → Bool
is_session_expired now s = s.expires_at == 0 || ltb s.expires_at now

-- What comes with a chunk: no index if it is no number that is not negative; no bytes if the form field is missing or the body
-- too long for the server; the error of the directory and of the file.
pub record ChunkRequest : Type 0 where
  pub index : Option ℕ
  pub chunk : Option (List ℕ)
  pub sha256 : String
  pub disk_error : Option String

-- A reply to a chunk, and whether the goroutine of the automatic finish is started.
pub record ChunkResult : Type 0 where
  pub reply : Reply
  pub auto_finish : Bool
  pub store : Store

abbrev pub refuse : ℕ → String → Store → ChunkResult
refuse code message st = record { reply = refused code message; auto_finish = false; store = st }

-- `sha256Hex` and `strings.EqualFold` are parameters.
module _ (sha256_hex : List ℕ → String) (equal_fold : String → String → Bool) where
  abbrev pub record_chunk : Session → ℕ → Option (List ℕ) × Store → ChunkResult
  record_chunk s i (none, st) = refuse 500 "internal server error" st
  record_chunk s i (some indexes, st) = record {
    reply = chunk_received i (length indexes) s.total_chunks;
    auto_finish = length indexes == s.total_chunks;
    store = st;
  }

  abbrev pub save_chunk : Session → ℕ → List ℕ → Option String → Store → ChunkResult
  save_chunk s i bytes (some e) st = refuse 500 "internal server error" st
  save_chunk s i bytes none st =
      record_chunk s i (add_chunk_done s.upload_id i (write_chunk s.upload_id i bytes st))

  -- The digest counts only where one is given.
  abbrev pub digest_fits : String → List ℕ → Bool
  digest_fits expected bytes = expected == "" || equal_fold (sha256_hex bytes) expected

  abbrev pub check_chunk : Session → ℕ → ChunkRequest → Option (List ℕ) → Store → ChunkResult
  check_chunk s i req none st = refuse 400 "missing chunk in form field 'chunk'" st
  check_chunk s i req (some bytes) st =
      if ltb s.chunk_size (length bytes)
      then refuse 413 "chunk exceeds declared chunk_size" st
      else if not (digest_fits req.sha256 bytes)
      then refuse 400 "chunk sha256 mismatch" st
      else save_chunk s i bytes req.disk_error st

  abbrev pub chunk_at : Session → Option ℕ → ChunkRequest → Store → ChunkResult
  chunk_at s none req st = refuse 400 "invalid or out-of-range chunk index" st
  chunk_at s (some i) req st =
      if leb s.total_chunks i
      then refuse 400 "invalid or out-of-range chunk index" st
      else if has_index i s.chunks_done
      then record {
        reply = chunk_received i (length s.chunks_done) s.total_chunks;
        auto_finish = false;
        store = st;
      }
      else check_chunk s i req req.chunk st

  abbrev pub chunk_of : Option Session → ℕ → ChunkRequest → Store → ChunkResult
  chunk_of none now req st = refuse 404 "upload session not found" st
  chunk_of (some s) now req st =
      if is_session_expired now s
      then refuse 410 "upload session expired" st
      else chunk_at s req.index req st

  unfoldable pub handle_chunked_chunk :
      Bool → Bool → String → ℕ → ℕ → ChunkRequest → Store → ChunkResult
  unfolding load_upload_session add_chunk_done write_chunk
  handle_chunked_chunk configured is_post id note now req st =
      if not configured
      then refuse 503 "media not configured" st
      else if not is_post
      then refuse 405 "method not allowed" st
      else chunk_of (load_upload_session id note st.sessions) now req st

abbrev pub state_of : Option Session → Reply
state_of none = not_there
state_of (some s) = state s

unfoldable pub handle_chunked_status : Bool → String → ℕ → Store → Reply
unfolding load_upload_session
handle_chunked_status is_get id note st =
    if not is_get
    then refused 405 "method not allowed"
    else state_of (load_upload_session id note st.sessions)

abbrev pub cancel_found : Option Session → String → Store → Reply × Store
cancel_found none id st = (refused 404 "upload session not found", st)
cancel_found (some s) id st = (cancelled, cleanup_upload_session id st)

unfoldable pub handle_chunked_cancel : Bool → String → ℕ → Store → Reply × Store
unfolding load_upload_session cleanup_upload_session
handle_chunked_cancel is_post id note st =
    if not is_post
    then (refused 405 "method not allowed", st)
    else cancel_found (load_upload_session id note st.sessions) id st

-- ORDER BY created_at ASC.
abbrev pub by_age : Session → List Session → List Session
by_age s [] = s ∷ []
by_age s (t ∷ rows) =
    let rest = t ∷ by_age s rows in if ltb t.created_at s.created_at then rest else s ∷ t ∷ rows

unfoldable pub oldest_first : List Session → List Session
oldest_first [] = []
oldest_first (s ∷ rows) = by_age s (oldest_first rows)

unfoldable pub handle_chunked_pending : Bool → ℕ → ℕ → Store → Reply
unfolding oldest_first
handle_chunked_pending is_get note now st =
    if not is_get
    then refused 405 "method not allowed"
    else sessions (
        oldest_first (
          keep_if (λ s. s.note_id == note && ltb now s.expires_at && is_unfinished s.status)
            st.sessions))
