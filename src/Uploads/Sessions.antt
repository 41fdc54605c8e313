-- ===== src/Uploads/Sessions.antt =====
-- The table `upload_sessions` and the chunk files of internal/server/chunked_upload.go, with the
-- statements made on them. A time is a number of milliseconds, 0 where a text does not parse; a file is
-- the list of its bytes; the JSON array `chunks_done` is the list that it encodes.
use mentis_eterna.Prelude.{
  ℕ, String, Bool, true, false, not, ◌&&◌, ◌||◌, Option, none, some, List, [], ◌∷◌, ◌++◌, keep_if,
  ltb, ◌==◌, nat_key, string_key, if◌then◌else◌,
}
use mentis_eterna.Prelude.Maps.{Map, or_zero, lookup, insert, delete}

-- The statuses that the code writes, and the two that it reads in older rows.
pub data UploadStatus : Type 0 where
  blank uploading assembling verifying processing done failed finished : UploadStatus

pub record NoteFile : Type 0 where
  pub id : ℕ
  pub filename : String
  pub mime_type : String
  pub size_bytes : ℕ
  pub url : String

-- The JSON that `finish_result` holds. The results of the replicas are left out.
pub record FinishResult : Type 0 where
  pub file : NoteFile
  pub markdown : Option String

pub record Session : Type 0 where
  pub upload_id : String
  pub note_id : ℕ
  pub filename : String
  pub mime_type : String
  pub total_size : ℕ
  pub chunk_size : ℕ
  pub total_chunks : ℕ
  pub file_sha256 : Option String
  pub inline : Bool
  pub chunks_done : List ℕ
  pub status : UploadStatus
  pub finish_result : Option FinishResult
  pub placeholder_token : Option String
  pub created_at : ℕ
  pub expires_at : ℕ

-- The rows, and of each upload directory the chunk files by index.
pub record Store : Type 0 where
  pub sessions : List Session
  pub chunks : Map String (Map ℕ (List ℕ))

abbrev pub is_finalizing : UploadStatus → Bool
is_finalizing processing = true
is_finalizing assembling = true
is_finalizing verifying = true
is_finalizing _ = false

-- `status = 'uploading' OR status = ''`.
abbrev pub is_uploading : UploadStatus → Bool
is_uploading uploading = true
is_uploading blank = true
is_uploading _ = false

-- `status NOT IN ('done', 'failed', 'finished')`.
abbrev pub is_unfinished : UploadStatus → Bool
is_unfinished done = false
is_unfinished failed = false
is_unfinished finished = false
is_unfinished _ = true

-- `status NOT IN ('failed', 'finished')`.
abbrev pub is_not_failed : UploadStatus → Bool
is_not_failed failed = false
is_not_failed finished = false
is_not_failed _ = true

abbrev pub is_session : String → Session → Bool
is_session id s = s.upload_id == id

abbrev pub is_session_of : String → ℕ → Session → Bool
is_session_of id note s = s.upload_id == id && s.note_id == note

abbrev pub first_where : (Session → Bool) → List Session → Option Session
first_where p [] = none
first_where p (s ∷ rows) = if p s then some s else first_where p rows

-- `loadUploadSession`.
unfoldable pub load_upload_session : String → ℕ → List Session → Option Session
load_upload_session id note rows = first_where (is_session_of id note) rows

-- UPDATE upload_sessions SET … WHERE ….
unfoldable pub update_sessions :
    (Session → Bool) → (Session → Session) → List Session → List Session
update_sessions p f [] = []
update_sessions p f (s ∷ rows) = (if p s then f s else s) ∷ update_sessions p f rows

abbrev pub any_session : (Session → Bool) → List Session → Bool
any_session p [] = false
any_session p (s ∷ rows) = p s || any_session p rows

abbrev pub has_value : Option String → String → Bool
has_value none v = false
has_value (some w) v = w == v

abbrev pub newer : Session → Option Session → Session
newer s none = s
newer s (some t) = if ltb s.created_at t.created_at then t else s

-- ORDER BY created_at DESC LIMIT 1.
unfoldable pub newest : List Session → Option Session
newest [] = none
newest (s ∷ rows) = some (newer s (newest rows))

unfoldable pub load_upload_session_by_hash : ℕ → String → ℕ → List Session → Option Session
unfolding newest
load_upload_session_by_hash note hash now rows = newest (
    keep_if
      (λ s.
        s.note_id == note
        && has_value s.file_sha256 hash
        && ltb now s.expires_at
        && is_unfinished s.status)
      rows)

unfoldable pub load_upload_session_by_placeholder : ℕ → String → ℕ → List Session → Option Session
unfolding newest
load_upload_session_by_placeholder note token now rows = newest (
    keep_if
      (λ s.
        s.note_id == note
        && has_value s.placeholder_token token
        && ltb now s.expires_at
        && is_not_failed s.status)
      rows)

abbrev pub set_status : UploadStatus → Session → Session
set_status status s = record s { status = status }

abbrev pub on_sessions : (List Session → List Session) → Store → Store
on_sessions f st = record st { sessions = f st.sessions }

unfoldable pub update_upload_status : String → UploadStatus → Store → Store
unfolding update_sessions
update_upload_status id status = on_sessions (update_sessions (is_session id) (set_status status))

abbrev pub has_index : ℕ → List ℕ → Bool
has_index i [] = false
has_index i (j ∷ js) = j == i || has_index i js

abbrev pub done_of : Option Session → Option (List ℕ)
done_of none = none
done_of (some s) = some s.chunks_done

-- The SELECT and the UPDATE of `addChunkDone`, and what is appended between them.
abbrev pub read_chunks_done : String → Store → Option (List ℕ)
read_chunks_done id st = done_of (first_where (is_session id) st.sessions)

abbrev pub with_chunk : ℕ → List ℕ → List ℕ
with_chunk i indexes = if has_index i indexes then indexes else indexes ++ i ∷ []

abbrev pub set_chunks_done : List ℕ → Session → Session
set_chunks_done indexes s = record s { chunks_done = indexes }

unfoldable pub write_chunks_done : String → List ℕ → Store → Store
unfolding update_sessions
write_chunks_done id indexes =
    on_sessions (update_sessions (is_session id) (set_chunks_done indexes))

abbrev pub append_chunk : String → ℕ → Option (List ℕ) → Store → Option (List ℕ) × Store
append_chunk id i none st = (none, st)
append_chunk id i (some indexes) st =
    (some (with_chunk i indexes), write_chunks_done id (with_chunk i indexes) st)

unfoldable pub add_chunk_done : String → ℕ → Store → Option (List ℕ) × Store
unfolding write_chunks_done
add_chunk_done id i st = append_chunk id i (read_chunks_done id st) st

-- The files of a directory; a directory that is not there has none.
abbrev pub dir_of : String → Store → Map ℕ (List ℕ)
dir_of id st = or_zero [] (lookup id st.chunks)

unfoldable pub read_chunk : String → ℕ → Store → Option (List ℕ)
read_chunk id i st = lookup i (dir_of id st)

-- `os.MkdirAll` and `os.WriteFile`.
unfoldable pub write_chunk : String → ℕ → List ℕ → Store → Store
write_chunk id i bytes st = record st {
  chunks = insert id (insert i bytes (dir_of id st)) st.chunks;
}

-- `os.RemoveAll`.
unfoldable pub remove_dir : String → Store → Store
remove_dir id st = record st { chunks = delete id st.chunks }

unfoldable pub cleanup_upload_session : String → Store → Store
unfolding remove_dir
cleanup_upload_session id st = on_sessions (keep_if (λ s. not (is_session id s))) (remove_dir id st)

abbrev pub expired_ids : ℕ → List Session → List String
expired_ids now [] = []
expired_ids now (s ∷ rows) =
    let rest = expired_ids now rows in if ltb s.expires_at now then s.upload_id ∷ rest else rest

abbrev pub cleanup_all : List String → Store → Store
cleanup_all [] st = st
cleanup_all (id ∷ ids) st = cleanup_all ids (cleanup_upload_session id st)

unfoldable pub cleanup_expired_upload_sessions : ℕ → Store → Store
unfolding cleanup_upload_session
cleanup_expired_upload_sessions now st = cleanup_all (expired_ids now st.sessions) st
