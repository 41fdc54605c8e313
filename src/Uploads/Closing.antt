-- ===== src/Uploads/Closing.antt =====
-- Closing a session keeps the invariant: a new status, the end of a finish, the removal of a session, and
-- the finish that is made of them.
use mentis_eterna.Prelude.{
  All-kept, ℕ, String, Bool, true, false, not, Option, none, some, List, [], ◌∷◌, length,
  Bool-cases, inl, inr, ◌⊎◌, ◌≡◌, refl, ◌==◌, nat_key, string_key, arith,
}
use mentis_eterna.Prelude.Maps.{delete}
use mentis_eterna.Uploads.Sessions.{
  Session, Store, UploadStatus, assembling, verifying, processing, failed, FinishResult, NoteFile,
  is_uploading, is_session, set_status, on_sessions, update_sessions, update_upload_status,
  remove_dir, cleanup_upload_session, cleanup_all, cleanup_expired_upload_sessions, expired_ids,
  load_upload_session, any_session,
}
use mentis_eterna.Uploads.Handlers.{is_session_expired, handle_chunked_cancel, cancel_found}
use mentis_eterna.Uploads.Finalize.{
  FinishError, Finish, DiskErrors, status_error, is_claimable, claim_chunked_upload_finalization,
  claim_after, give_up, unless_refused, set_finished, after_create, process, after_assemble,
  after_claim, finalize_found, finalize_chunked_upload_session, file_fits, assemble, file_mismatch,
  missing_chunk, not_all_chunks, disk_failure, media_failure,
}
use mentis_eterna.Uploads.Rows.{All-update_sessions, UniqueIds-update_sessions, UniqueIds-keep_if}
use mentis_eterna.Uploads.Sound.{SoundIn, IsSound, SoundIn-closed, SoundIn-delete}

other_dir : (id : String) (s : Session) → is_session id s ≡ false → (id == s.upload_id) ≡ false
other_dir id s e =
    ground (arith, string_key.same_iff id s.upload_id, string_key.same_iff s.upload_id id)

pub set_status-IsSound :
    (p : Session → Bool) (status : UploadStatus) (st : Store)
    → is_uploading status ≡ false
    → IsSound st
    → IsSound (on_sessions (update_sessions p (set_status status)) st)
set_status-IsSound p status st closed h = record {
  unique = UniqueIds-update_sessions p (set_status status) st.sessions (λ t. refl) h.unique;
  sound =
      All-update_sessions p (set_status status) (SoundIn st.chunks) (SoundIn st.chunks) st.sessions
        (λ s m k. elim (Bool-cases (p s)) [
          | inl e ↦
              rw e (SoundIn-closed st.chunks st.chunks s (set_status status s) refl refl closed k)
          | inr e ↦ rw e k
        ])
        h.sound;
}

pub update_upload_status-IsSound :
    (id : String) (status : UploadStatus) (st : Store)
    → is_uploading status ≡ false
    → IsSound st
    → IsSound (update_upload_status id status st)
unfolding update_upload_status
update_upload_status-IsSound id status st closed h =
    set_status-IsSound (is_session id) status st closed h

pub set_finished-IsSound :
    (id : String) (r : FinishResult) (st : Store)
    → IsSound st
    → IsSound (remove_dir id (on_sessions (update_sessions (is_session id) (set_finished r)) st))
unfolding remove_dir
set_finished-IsSound id r st h = record {
  unique =
      UniqueIds-update_sessions (is_session id) (set_finished r) st.sessions (λ t. refl) h.unique;
  sound =
      All-update_sessions (is_session id) (set_finished r) (SoundIn st.chunks)
        (SoundIn (delete id st.chunks)) st.sessions
        (λ s m k. elim (Bool-cases (is_session id s)) [
          | inl e ↦
              rw e (
                SoundIn-closed st.chunks (delete id st.chunks) s (set_finished r s) refl refl refl
                  k)
          | inr e ↦ rw e (SoundIn-delete st.chunks id s (other_dir id s e) k)
        ])
        h.sound;
}

pub cleanup_upload_session-IsSound :
    (id : String) (st : Store) → IsSound st → IsSound (cleanup_upload_session id st)
unfolding cleanup_upload_session remove_dir
cleanup_upload_session-IsSound id st h = record {
  unique = UniqueIds-keep_if (λ s. not (is_session id s)) st.sessions h.unique;
  sound =
      All-kept (SoundIn st.chunks) (SoundIn (delete id st.chunks)) (λ s. not (is_session id s))
        st.sessions (λ s e k. SoundIn-delete st.chunks id s (other_dir id s (ground (arith, e))) k)
        h.sound;
}

cleanup_all-IsSound : (ids : List String) (st : Store) → IsSound st → IsSound (cleanup_all ids st)
cleanup_all-IsSound [] st h = h
cleanup_all-IsSound (id ∷ ids) st h =
    cleanup_all-IsSound ids (cleanup_upload_session id st) (cleanup_upload_session-IsSound id st h)

pub cleanup_expired_upload_sessions-IsSound :
    (now : ℕ) (st : Store) → IsSound st → IsSound (cleanup_expired_upload_sessions now st)
unfolding cleanup_expired_upload_sessions
cleanup_expired_upload_sessions-IsSound now st h =
    cleanup_all-IsSound (expired_ids now st.sessions) st h

cancel_found-IsSound :
    (o : Option Session) (id : String) (st : Store) → IsSound st → IsSound (cancel_found o id st).1
cancel_found-IsSound none id st h = h
cancel_found-IsSound (some s) id st h = cleanup_upload_session-IsSound id st h

pub handle_chunked_cancel-IsSound :
    (is_post : Bool) (id : String) (note : ℕ) (st : Store)
    → IsSound st
    → IsSound (handle_chunked_cancel is_post id note st).1
unfolding handle_chunked_cancel
handle_chunked_cancel-IsSound false id note st h = h
handle_chunked_cancel-IsSound true id note st h =
    cancel_found-IsSound (load_upload_session id note st.sessions) id st h

claim_after-IsSound :
    (e : Option FinishError) (id : String) (note : ℕ) (st : Store)
    → IsSound st
    → IsSound (claim_after e id note st).1
claim_after-IsSound (some e) id note st h = h
claim_after-IsSound none id note st h =
    elim (Bool-cases (any_session (is_claimable id note) st.sessions)) [
      | inl e ↦ rw e (set_status-IsSound (is_claimable id note) assembling st refl h)
      | inr e ↦ rw e h
    ]

give_up-IsSound :
    (e : FinishError) (id : String) (st : Store) → IsSound st → IsSound (give_up e id st).1
give_up-IsSound e id st h = update_upload_status-IsSound id failed st refl h

unless_refused-IsSound :
    (e : Option String) (id : String) (st : Store) (next : Finish × Store)
    → IsSound st
    → IsSound next.1
    → IsSound (unless_refused e id st next).1
unless_refused-IsSound none id st next h k = k
unless_refused-IsSound (some e) id st next h k = give_up-IsSound (disk_failure e) id st h

module _ (sha256_hex : List ℕ → String) (equal_fold : String → String → Bool)
    (create_file : Session → List ℕ → String ⊎ NoteFile) (markdown_of : NoteFile → String)
    (between : ℕ → Store → Store)
    (between-IsSound : (n : ℕ) (st : Store) → IsSound st → IsSound (between n st)) where
  after_create-IsSound :
      (s : Session) (id : String) (o : String ⊎ NoteFile) (st : Store)
      → IsSound st
      → IsSound (after_create sha256_hex equal_fold create_file markdown_of between s id o st).1
  after_create-IsSound s id (inl e) st h = give_up-IsSound (media_failure e) id st h
  after_create-IsSound s id (inr file) st h = set_finished-IsSound id _ st h

  process-IsSound :
      (s : Session) (id : String) (disk : DiskErrors) (bytes : List ℕ) (st : Store)
      → IsSound st
      → IsSound (process sha256_hex equal_fold create_file markdown_of between s id disk bytes st).1
  process-IsSound s id disk bytes st h =
      let verified = update_upload_status-IsSound id verifying st refl h in
      let processed =
        update_upload_status-IsSound id processing (update_upload_status id verifying st) refl
          verified in
      elim (Bool-cases (file_fits sha256_hex equal_fold create_file markdown_of between s bytes)) [
        | inl e ↦ rw e (
            unless_refused-IsSound disk.open_again id _ _ processed
              (after_create-IsSound s id (create_file s bytes) _ (between-IsSound 2 _ processed)))
        | inr e ↦ rw e (give_up-IsSound file_mismatch id _ verified)
      ]

  after_assemble-IsSound :
      (s : Session) (id : String) (disk : DiskErrors) (r : Option (List ℕ) × ℕ) (st : Store)
      → IsSound st
      → IsSound
          (after_assemble sha256_hex equal_fold create_file markdown_of between s id disk r st).1
  after_assemble-IsSound s id disk (none, i) st h = give_up-IsSound (missing_chunk i) id st h
  after_assemble-IsSound s id disk (some bytes, i) st h =
      unless_refused-IsSound disk.close id st _ h (process-IsSound s id disk bytes st h)

  after_claim-IsSound :
      (s : Session) (id : String) (disk : DiskErrors) (r : Option FinishError × Store)
      → IsSound r.1
      → IsSound (after_claim sha256_hex equal_fold create_file markdown_of between s id disk r).1
  after_claim-IsSound s id disk (some e, st) h = h
  after_claim-IsSound s id disk (none, st) h =
      elim (Bool-cases (length s.chunks_done == s.total_chunks)) [
        | inl e ↦ rw e (
            unless_refused-IsSound disk.create id st _ h (
              after_assemble-IsSound s id disk (assemble id 0 s.total_chunks (between 1 st) [])
                (between 1 st) (between-IsSound 1 st h)))
        | inr e ↦
            rw e (give_up-IsSound (not_all_chunks (length s.chunks_done) s.total_chunks) id st h)
      ]

  finalize_found-IsSound :
      (o : Option Session) (id : String) (note now : ℕ) (disk : DiskErrors) (st : Store)
      → IsSound st
      → IsSound
          (finalize_found sha256_hex equal_fold create_file markdown_of between o id note now disk
            st).1
  unfolding claim_chunked_upload_finalization
  finalize_found-IsSound none id note now disk st h = h
  finalize_found-IsSound (some s) id note now disk st h =
      elim (Bool-cases (is_session_expired now s)) [
        | inl e ↦ rw e h
        | inr e ↦ rw e (
            after_claim-IsSound s id disk
              (claim_chunked_upload_finalization s id note (between 0 st))
              (claim_after-IsSound (status_error s.status) id note (between 0 st)
                (between-IsSound 0 st h)))
      ]

  pub finalize_chunked_upload_session-IsSound :
      (configured : Bool) (id : String) (note now : ℕ) (disk : DiskErrors) (st : Store)
      → IsSound st
      → IsSound
          (finalize_chunked_upload_session sha256_hex equal_fold create_file markdown_of between
            configured id note now disk st).1
  unfolding finalize_chunked_upload_session
  finalize_chunked_upload_session-IsSound false id note now disk st h = h
  finalize_chunked_upload_session-IsSound true id note now disk st h =
      finalize_found-IsSound (load_upload_session id note st.sessions) id note now disk st h
