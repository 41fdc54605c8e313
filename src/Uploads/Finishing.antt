-- ===== src/Uploads/Finishing.antt =====
-- What a finish does with a session that has all its chunks, or is done.
use mathlib.Core.Bool.{false≢true}
use mentis_eterna.Prelude.{
  ==_refl, Bool, Bool-cases, List, String, [], ap, arith, false, inl, inr, length, none, refl, some,
  true, ℕ, ◌<◌, ◌==◌, ◌∙◌, ◌∷◌, ◌≡◌, ◌⊎◌, nat_key, string_key,
}
use mentis_eterna.Prelude.Maps.{lookup, lookup-delete}
use mentis_eterna.Uploads.Sessions.{
  NoteFile, Session, Store, UploadStatus, any_session, assembling, blank, done, failed, finished,
  first_where, is_session, is_session_of, is_uploading, load_upload_session, on_sessions,
  processing, read_chunk, remove_dir, set_status, update_sessions, update_upload_status, uploading,
  verifying,
}
use mentis_eterna.Uploads.Handlers.{created, is_session_expired}
use mentis_eterna.Uploads.Finalize.{
  DiskErrors, Finish, claim_chunked_upload_finalization, failure, file_fits,
  finalize_chunked_upload_session, finish_result_of, is_claimable, process, reply_of, set_finished,
  status_error, store_result, success,
}
use mentis_eterna.Uploads.Assembly.{assemble-join, first_where-update, join}

abbrev pub alone : ℕ → Store → Store
alone n st = st

abbrev pub no_errors : DiskErrors
no_errors = record { create = none; close = none; open_again = none }

any_session-first_where :
    (p q : Session → Bool) (r : Session) (rows : List Session)
    → first_where p rows ≡ some r
    → q r ≡ true
    → any_session q rows ≡ true
any_session-first_where p q r [] h k = cc
any_session-first_where p q r (s ∷ rows) h k = elim (Bool-cases (p s)) [
  | inl e ↦ let here : s ≡ r = cc (rw e at h) in ground (arith, ap q here ∙ k)
  | inr e ↦ ground (arith, any_session-first_where p q r rows (rw e at h) k)
]

status_error-is_uploading :
    (status : UploadStatus) → is_uploading status ≡ true → status_error status ≡ none
status_error-is_uploading blank h = refl
status_error-is_uploading uploading h = refl
status_error-is_uploading assembling h = absurd (false≢true h)
status_error-is_uploading verifying h = absurd (false≢true h)
status_error-is_uploading processing h = absurd (false≢true h)
status_error-is_uploading done h = absurd (false≢true h)
status_error-is_uploading failed h = absurd (false≢true h)
status_error-is_uploading finished h = absurd (false≢true h)

-- A row that a finish claims: the session read before is open and stands in the table.
claim_chunked_upload_finalization-some :
    (s t : Session) (id : String) (note : ℕ) (st : Store)
    → first_where (is_session_of id note) st.sessions ≡ some t
    → is_session_of id note t ≡ true
    → is_uploading s.status ≡ true
    → is_uploading t.status ≡ true
    → claim_chunked_upload_finalization s id note st
      ≡ (none, on_sessions (update_sessions (is_claimable id note) (set_status assembling)) st)
unfolding claim_chunked_upload_finalization
claim_chunked_upload_finalization-some s t id note st h e k l =
    rw (status_error-is_uploading s.status k) (
      rw
        (any_session-first_where (is_session_of id note) (is_claimable id note) t st.sessions h
          (ground (arith, e, l)))
        refl)

-- The row of a session, as a handler loads it.
abbrev pub IsLoaded : Session → Store → Type 0
IsLoaded s st = first_where (is_session_of s.upload_id s.note_id) st.sessions ≡ some s

update_upload_status-IsLoaded :
    (s : Session) (status : UploadStatus) (st : Store)
    → IsLoaded s st
    → IsLoaded (set_status status s) (update_upload_status s.upload_id status st)
unfolding update_upload_status
update_upload_status-IsLoaded s status st h =
    first_where-update (is_session_of s.upload_id s.note_id) (is_session s.upload_id)
      (set_status status) s st.sessions (λ t. refl) (==_refl s.upload_id) h

module _ (sha256_hex : List ℕ → String) (equal_fold : String → String → Bool)
    (create_file : Session → List ℕ → String ⊎ NoteFile) (markdown_of : NoteFile → String) where
  -- What a finish leaves behind, and what it answers.
  abbrev pub IsFinished : Session → NoteFile → Finish × Store → Type 0
  IsFinished s file (answer, st) =
      (answer
        ≡ success (finish_result_of sha256_hex equal_fold create_file markdown_of alone s file))
      × IsLoaded
          (set_finished
            (finish_result_of sha256_hex equal_fold create_file markdown_of alone s file) s)
          st
      × (lookup s.upload_id st.chunks ≡ none)

  store_result-IsFinished :
      (s : Session) (file : NoteFile) (st : Store)
      → IsLoaded (set_status processing s) st
      → IsFinished s file (
          store_result sha256_hex equal_fold create_file markdown_of alone s.upload_id
            (finish_result_of sha256_hex equal_fold create_file markdown_of alone s file)
            st)
  unfolding remove_dir
  store_result-IsFinished s file st h =
      let r = finish_result_of sha256_hex equal_fold create_file markdown_of alone s file in
      (
        refl,
        first_where-update (is_session_of s.upload_id s.note_id) (is_session s.upload_id)
            (set_finished r) (set_status processing s) st.sessions (λ t. refl) (==_refl s.upload_id)
            h,
        lookup-delete s.upload_id s.upload_id st.chunks ∙ rw (==_refl s.upload_id) refl,
      )

  process-IsFinished :
      (s : Session) (bytes : List ℕ) (file : NoteFile) (st : Store)
      → IsLoaded (set_status assembling s) st
      → file_fits sha256_hex equal_fold create_file markdown_of alone s bytes ≡ true
      → create_file s bytes ≡ inr file
      → IsFinished s file (
          process sha256_hex equal_fold create_file markdown_of alone s s.upload_id no_errors bytes
            st)
  process-IsFinished s bytes file st h fits e = rw fits (
      rw e (
        store_result-IsFinished s file _ (
          update_upload_status-IsLoaded (set_status verifying s) processing _
            (update_upload_status-IsLoaded (set_status assembling s) verifying st h))))

  -- A session with all its chunks becomes a file.
  pub finalize_chunked_upload_session-IsFinished :
      (s : Session) (pieces : ℕ → List ℕ) (now : ℕ) (file : NoteFile) (st : Store)
      → IsLoaded s st
      → is_uploading s.status ≡ true
      → is_session_expired now s ≡ false
      → length s.chunks_done ≡ s.total_chunks
      → ((i : ℕ) → i < s.total_chunks → read_chunk s.upload_id i st ≡ some (pieces i))
      → file_fits sha256_hex equal_fold create_file markdown_of alone s
          (join pieces 0 s.total_chunks)
        ≡ true
      → create_file s (join pieces 0 s.total_chunks) ≡ inr file
      → IsFinished s file (
          finalize_chunked_upload_session sha256_hex equal_fold create_file markdown_of alone true
            s.upload_id s.note_id now no_errors st)
  unfolding finalize_chunked_upload_session load_upload_session read_chunk
  finalize_chunked_upload_session-IsFinished s pieces now file st h up intime all_of stored fits e =
      let own : is_session_of s.upload_id s.note_id s ≡ true =
        ground (arith, ==_refl s.upload_id, ==_refl s.note_id) in
      let claimed =
        claim_chunked_upload_finalization-some s s s.upload_id s.note_id st h own up up in
      let same : (length s.chunks_done == s.total_chunks) ≡ true = ground (arith, all_of) in
      let open_row =
        first_where-update (is_session_of s.upload_id s.note_id)
          (is_claimable s.upload_id s.note_id) (set_status assembling) s st.sessions (λ t. refl)
          (ground (arith, own, up)) h in
      let next =
        on_sessions (update_sessions (is_claimable s.upload_id s.note_id) (set_status assembling))
          st in
      let bytes =
        assemble-join s.upload_id pieces 0 s.total_chunks next []
          (λ k ge lt. stored k (ground (arith, lt))) in
      rw h (
        rw intime (
          rw claimed (
            rw same (
              rw bytes
                (process-IsFinished s (join pieces 0 s.total_chunks) file next open_row fits e)))))

  pub reply_of-IsFinished :
      (s : Session) (file : NoteFile) (end : Finish × Store)
      → IsFinished s file end
      → let r = finish_result_of sha256_hex equal_fold create_file markdown_of alone s file in
        ((reply_of end).0 ≡ created r)
        × IsLoaded (set_finished r s) (reply_of end).1
        × (lookup s.upload_id (reply_of end).1.chunks ≡ none)
  reply_of-IsFinished s file (failure e, st) h = absurd (cc h.0)
  reply_of-IsFinished s file (success r, st) h = (cc h.0, h.1, h.2)
