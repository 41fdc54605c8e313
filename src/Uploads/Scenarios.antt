-- ===== src/Uploads/Scenarios.antt =====
-- Uploads on small inputs: a file of five bytes in three chunks.
use mathlib.Core.List.{Memᴰ}
use mentis_eterna.Prelude.{
  ℕ, zero, suc, ◌≤◌, ◌<◌, String, Bool, true, false, some, List, [], ◌∷◌, length, leb, ◌⊎◌, inl,
  inr, ◌≡◌, refl, ◌==◌, ==_refl, nat_key, string_key, if◌then◌else◌, arith,
}
use mentis_eterna.Prelude.Maps.{lookup, insert, delete}
use mentis_eterna.Uploads.Sessions.{
  Session, Store, assembling, verifying, set_status, NoteFile, FinishResult, load_upload_session,
  has_index, set_chunks_done, read_chunks_done, append_chunk, write_chunk, update_upload_status,
  write_chunks_done, cleanup_expired_upload_sessions,
}
use mentis_eterna.Uploads.Handlers.{
  StartRequest, Limits, ChunkRequest, created, handle_chunked_start, handle_chunked_chunk,
  handle_chunked_cancel, new_session,
}
use mentis_eterna.Uploads.Finalize.{
  FinishError, claim_chunked_upload_finalization, finalize_chunked_upload_session,
  handle_chunked_finish,
}
use mentis_eterna.Uploads.Sound.{IsSound}
use mentis_eterna.Uploads.Preserve.{handlers-IsSound}
use mentis_eterna.Uploads.Delivery.{send_all, starts_finish, request_of}
use mentis_eterna.Uploads.Assembly.{join}
use mentis_eterna.Uploads.Completion.{IsDelivered, handle_chunked_finish-send_all}
use mentis_eterna.Uploads.Finishing.{alone, no_errors}
use mentis_eterna.Uploads.Once.{
  Reach, here, next, record_chunks, advance, claim_chunked_upload_finalization_once,
}
use mentis_eterna.Uploads.Race.{append_chunk-lost}

abbrev digest : List ℕ → String
digest bytes = if leb (length bytes) 2 then "short" else "long"

abbrev same_text : String → String → Bool
same_text a b = a == b

abbrev stored_file : NoteFile
stored_file = record {
  id = 7;
  filename = "a.bin";
  mime_type = "";
  size_bytes = 5;
  url = "/media/7";
}

abbrev create : Session → List ℕ → String ⊎ NoteFile
create s bytes = if length bytes == 5 then inr stored_file else inl "unexpected size"

abbrev markdown : NoteFile → String
markdown file = file.url

abbrev request : StartRequest
request = record {
  filename = "a.bin";
  mime_type = "";
  total_size = 5;
  chunk_size = 2;
  total_chunks = 3;
  file_sha256 = "long";
  inline = true;
  placeholder_token = "";
}

abbrev pieces : ℕ → List ℕ
pieces zero = 10 ∷ 11 ∷ []
pieces (suc zero) = 12 ∷ 13 ∷ []
pieces (suc (suc n)) = 14 ∷ []

abbrev fresh_session : Session
fresh_session = new_session "u1" 4 request 100

abbrev one_session : Store
one_session = record { sessions = fresh_session ∷ []; chunks = [] }

abbrev limits : Limits
limits = record { max_upload_bytes = 1000; max_inline_upload_bytes = 100 }

abbrev file_result : FinishResult
file_result = record { file = stored_file; markdown = some "/media/7" }

-- The chunks 2, 0, 0 and 1, then the finish.
finish_after_chunks :
    (handle_chunked_finish digest same_text create markdown alone true true "u1" 4 200 no_errors
      (send_all digest same_text fresh_session pieces 200 (2 ∷ 0 ∷ 0 ∷ 1 ∷ []) one_session)).0
    ≡ created file_result
unfolding handle_chunked_finish send_all lookup insert delete
finish_after_chunks = refl

one_session-IsSound : IsSound one_session
one_session-IsSound = record {
  unique = (refl, tt);
  sound = (record { distinct = tt; in_range = tt; on_disk = λ open_still. tt }, tt);
}

abbrev chunk_request : ChunkRequest
chunk_request = request_of digest pieces 1

handlers-IsSound_example :
    IsSound (handle_chunked_start true true true limits "u2" 4 200 (some request) one_session).1
    × IsSound
        (handle_chunked_chunk digest same_text true true "u1" 4 200 chunk_request one_session).store
    × IsSound (handle_chunked_cancel true "u1" 4 one_session).1
    × IsSound
        (finalize_chunked_upload_session digest same_text create markdown alone true "u1" 4 200
          no_errors one_session).1
    × IsSound (cleanup_expired_upload_sessions 200 one_session)
handlers-IsSound_example =
    handlers-IsSound digest same_text create markdown alone true true true limits "u1" "u2" 4 200
      (some request) chunk_request no_errors one_session (λ n u h. h) refl one_session-IsSound

pieces_fit : (i : ℕ) → i < 3 → length (pieces i) ≤ 2
pieces_fit zero lt = omega arith
pieces_fit (suc zero) lt = omega arith
pieces_fit (suc (suc n)) lt = omega arith

all_sent : (i : ℕ) → i < 3 → has_index i (2 ∷ 0 ∷ 0 ∷ 1 ∷ []) ≡ true
all_sent zero lt = refl
all_sent (suc zero) lt = refl
all_sent (suc (suc zero)) lt = refl
all_sent (suc (suc (suc n))) lt = absurd (omega arith)

abbrev sent_out_of_order : List ℕ
sent_out_of_order = 2 ∷ 0 ∷ 0 ∷ 1 ∷ []

handle_chunked_finish-send_all_example :
    (starts_finish digest same_text fresh_session pieces 200 sent_out_of_order one_session ≡ true)
    × IsDelivered digest same_text create markdown fresh_session file_result 200
        (starts_finish digest same_text fresh_session pieces 200 sent_out_of_order one_session)
        (send_all digest same_text fresh_session pieces 200 sent_out_of_order one_session)
unfolding load_upload_session join
handle_chunked_finish-send_all_example =
    handle_chunked_finish-send_all digest same_text create markdown fresh_session pieces
      sent_out_of_order 200 stored_file one_session (λ h. ==_refl h) (refl, tt) refl refl refl
      (omega arith) refl pieces_fit (omega arith, (omega arith, (omega arith, (omega arith, tt))))
      all_sent refl (λ recorded. refl)

-- The claim, a chunk that comes late, and the next status.
abbrev claimed : Store
claimed = record { sessions = set_status assembling fresh_session ∷ []; chunks = [] }

abbrev later : Store
later = record {
  sessions = set_status verifying (set_chunks_done (1 ∷ []) fresh_session) ∷ [];
  chunks = [];
}

later-Reach : Reach "u1" claimed later
unfolding write_chunks_done update_upload_status
later-Reach =
    next (next here (record_chunks "u1" (1 ∷ []) claimed))
      (advance "u1" verifying (write_chunks_done "u1" (1 ∷ []) claimed) refl)

claim_chunked_upload_finalization_once_example :
    (error : FinishError) × (claim_chunked_upload_finalization fresh_session "u1" 4 later
      ≡ (some error, later))
unfolding claim_chunked_upload_finalization
claim_chunked_upload_finalization_once_example =
    claim_chunked_upload_finalization_once fresh_session fresh_session "u1" 4 one_session claimed
      later refl later-Reach

append_chunk-lost_example :
    let files = write_chunk "u1" 1 (12 ∷ 13 ∷ []) (write_chunk "u1" 0 (10 ∷ 11 ∷ []) one_session) in
    let first = append_chunk "u1" 0 (read_chunks_done "u1" files) files in
    let second = append_chunk "u1" 1 (read_chunks_done "u1" files) first.1 in
    (first.0 ≡ some (0 ∷ []))
    × (read_chunks_done "u1" second.1 ≡ some (1 ∷ []))
    × (has_index 0 (1 ∷ []) ≡ false)
append_chunk-lost_example =
    append_chunk-lost fresh_session 0 1 (10 ∷ 11 ∷ []) (12 ∷ 13 ∷ []) one_session (refl, tt)
      (Memᴰ.head refl) refl refl refl
