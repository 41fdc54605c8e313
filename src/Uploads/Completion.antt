-- ===== src/Uploads/Completion.antt =====
-- From the first chunk to the file: what a client's finish answers once all chunks were sent, before
-- the goroutine that the last chunk starts and after it.
use mathlib.Core.Bool.{false≢true}
use mentis_eterna.Prelude.{
  ==_refl, All, Bool, List, String, [], ap, false, inr, length, none, refl, some, subst, sym, true,
  ℕ, ◌<◌, ◌∙◌, ◌≡◌, ◌≤◌, ◌⊎◌, nat_key, string_key,
}
use mentis_eterna.Prelude.Maps.{lookup}
use mentis_eterna.Uploads.Sessions.{
  FinishResult, NoteFile, Session, Store, has_index, is_session_of, is_uploading,
  load_upload_session, set_chunks_done,
}
use mentis_eterna.Uploads.Handlers.{created, is_session_expired, refused}
use mentis_eterna.Uploads.Finalize.{
  Finish, already_completed, claim_chunked_upload_finalization, failure, file_fits,
  finalize_chunked_upload_session, finish_result_of, handle_chunked_finish,
  maybe_auto_finish_chunked_upload, reply_of, set_finished, success,
}
use mentis_eterna.Uploads.Rows.{UniqueIds, first_where-some, first_where_unique}
use mentis_eterna.Uploads.Counting.{length-Distinct}
use mentis_eterna.Uploads.Assembly.{join}
use mentis_eterna.Uploads.Delivery.{Progress, send_all, send_all-Progress, starts_finish}
use mentis_eterna.Uploads.AutoFinish.{starts_finish-all}
use mentis_eterna.Uploads.Finishing.{
  IsFinished, IsLoaded, alone, finalize_chunked_upload_session-IsFinished, no_errors,
  reply_of-IsFinished,
}

module _ (sha256_hex : List ℕ → String) (equal_fold : String → String → Bool)
    (create_file : Session → List ℕ → String ⊎ NoteFile) (markdown_of : NoteFile → String) where
  -- On a session that is done, a finish is refused and changes nothing.
  finalize_done :
      (s : Session) (r : FinishResult) (now : ℕ) (st : Store)
      → is_session_expired now s ≡ false
      → IsLoaded (set_finished r s) st
      → finalize_chunked_upload_session sha256_hex equal_fold create_file markdown_of alone true
          s.upload_id s.note_id now no_errors st
        ≡ (failure already_completed, st)
  unfolding finalize_chunked_upload_session load_upload_session claim_chunked_upload_finalization
  finalize_done s r now st intime h = rw h (rw intime refl)

  reply_of-store : (end : Finish × Store) → (reply_of end).1 ≡ end.1
  reply_of-store (failure e, st) = refl
  reply_of-store (success r, st) = refl

  -- The finish of a client and the goroutine, one after the other in both orders: `st` has all chunks.
  abbrev pub IsDelivered : Session → FinishResult → ℕ → Bool → Store → Type 0
  IsDelivered s r now begun st =
      let finish =
        handle_chunked_finish sha256_hex equal_fold create_file markdown_of alone true true
          s.upload_id s.note_id now no_errors in
      let goroutine =
        maybe_auto_finish_chunked_upload sha256_hex equal_fold create_file markdown_of alone begun
          true s.upload_id s.note_id now no_errors in
      ((finish st).0 ≡ created r)
      × ((recorded : List ℕ) × (load_upload_session s.upload_id s.note_id (finish st).1.sessions
            ≡ some (set_finished r (set_chunks_done recorded s))))
      × (lookup s.upload_id (finish st).1.chunks ≡ none)
      × (goroutine (finish st).1 ≡ (finish st).1)
      × (goroutine st ≡ (finish st).1)
      × (finish (goroutine st) ≡ (refused 409 "upload already completed", goroutine st))

  IsFinished-IsDelivered :
      (s : Session) (recorded : List ℕ) (file : NoteFile) (now : ℕ) (st : Store)
      → is_session_expired now s ≡ false
      → IsFinished sha256_hex equal_fold create_file markdown_of (set_chunks_done recorded s) file (
          finalize_chunked_upload_session sha256_hex equal_fold create_file markdown_of alone true
            s.upload_id s.note_id now no_errors st)
      → IsDelivered s
          (finish_result_of sha256_hex equal_fold create_file markdown_of alone s file)
          now
          true
          st
  unfolding handle_chunked_finish maybe_auto_finish_chunked_upload load_upload_session
  IsFinished-IsDelivered s recorded file now st intime done_row =
      let r = finish_result_of sha256_hex equal_fold create_file markdown_of alone s file in
      let end =
        finalize_chunked_upload_session sha256_hex equal_fold create_file markdown_of alone true
          s.upload_id s.note_id now no_errors st in
      let answer =
        reply_of-IsFinished sha256_hex equal_fold create_file markdown_of
          (set_chunks_done recorded s) file end done_row in
      let same = reply_of-store end in
      let again =
        finalize_done (set_chunks_done recorded s) r now end.1 intime
          (subst (λ u. IsLoaded (set_finished r (set_chunks_done recorded s)) u) same answer.1) in
      (
        answer.0,
        (recorded, answer.1),
        answer.2,
        ap
              (λ u.
                (finalize_chunked_upload_session sha256_hex equal_fold create_file markdown_of alone
                  true s.upload_id s.note_id now no_errors u).1)
              same
            ∙ ap (λ p. p.1) again
            ∙ sym same,
        sym same,
        ap (λ p. reply_of p) again,
      )

  -- A session is open, not expired, and has chunks to come, but none yet; a client sends its pieces,
  -- each with its own digest and no longer than announced, in any order and any of them again, until
  -- all were sent. If the digest given for the whole file is that of the pieces in order, and the
  -- media service takes the file, then a chunk has started the automatic finish; a finish of the client
  -- that comes before it answers 201 with the file that is made of the pieces in order, the session is
  -- done and holds the same result, and its chunk files are removed, and the automatic finish then
  -- changes nothing; if it runs first, it leaves the same store, and the finish of the client answers
  -- 409 and changes nothing. A text equals itself but for case.
  pub handle_chunked_finish-send_all :
      (s : Session) (pieces : ℕ → List ℕ) (sends : List ℕ) (now : ℕ) (file : NoteFile) (st : Store)
      → ((h : String) → equal_fold h h ≡ true)
      → UniqueIds st.sessions
      → load_upload_session s.upload_id s.note_id st.sessions ≡ some s
      → is_uploading s.status ≡ true
      → s.chunks_done ≡ []
      → 0 < s.total_chunks
      → is_session_expired now s ≡ false
      → ((i : ℕ) → i < s.total_chunks → length (pieces i) ≤ s.chunk_size)
      → All (λ i. i < s.total_chunks) sends
      → ((i : ℕ) → i < s.total_chunks → has_index i sends ≡ true)
      → file_fits sha256_hex equal_fold create_file markdown_of alone s
          (join pieces 0 s.total_chunks)
        ≡ true
      → ((recorded : List ℕ)
          → create_file (set_chunks_done recorded s) (join pieces 0 s.total_chunks) ≡ inr file)
      → (starts_finish sha256_hex equal_fold s pieces now sends st ≡ true)
        × IsDelivered s
            (finish_result_of sha256_hex equal_fold create_file markdown_of alone s file)
            now
            (starts_finish sha256_hex equal_fold s pieces now sends st)
            (send_all sha256_hex equal_fold s pieces now sends st)
  unfolding load_upload_session
  handle_chunked_finish-send_all s pieces sends now file st same_text unique h up fresh some_chunks
        intime small within all_sent fits taken =
      let (stands, own) = first_where-some (is_session_of s.upload_id s.note_id) s st.sessions h in
      let row = first_where_unique s.upload_id s st.sessions unique stands (==_refl s.upload_id) in
      let start : Progress s pieces [] st = record {
        row = row ∙ ap (λ is. some (set_chunks_done is s)) fresh;
        loaded = h ∙ ap (λ is. some (set_chunks_done is s)) fresh;
        distinct = tt;
        in_range = tt;
        stored = λ i e. absurd (false≢true e);
      } in
      let begun =
        starts_finish-all sha256_hex equal_fold s pieces now same_text intime small sends [] st
          within start some_chunks (λ i lt. all_sent i lt) in
      let (recorded, progress, all_of) =
        send_all-Progress sha256_hex equal_fold s pieces now same_text intime small sends [] st
          within start in
      let complete =
        length-Distinct s.total_chunks recorded progress.distinct progress.in_range
          (λ i lt. all_of i (all_sent i lt)) in
      let finished_all =
        finalize_chunked_upload_session-IsFinished sha256_hex equal_fold create_file markdown_of
          (set_chunks_done recorded s) pieces now file
          (send_all sha256_hex equal_fold s pieces now sends st) progress.loaded up intime complete
          (λ i lt. progress.stored i (all_of i (all_sent i lt))) fits (taken recorded) in
      (
        begun,
        rw begun (
            IsFinished-IsDelivered s recorded file now
              (send_all sha256_hex equal_fold s pieces now sends st) intime finished_all),
      )
