-- ===== src/Uploads/Once.antt =====
-- A session is finalized at most once, whatever statements of other requests come in between.
use mentis_eterna.Prelude.{
  ℕ, String, Bool, false, not, Option, none, some, List, [], ◌∷◌, ◌++◌, Bool-cases, inl, inr, ◌≡◌,
  refl, sym, nat_key, string_key, arith,
}
use mentis_eterna.Uploads.Sessions.{
  Session, Store, UploadStatus, assembling, done, FinishResult, is_uploading, is_session,
  load_upload_session, set_status, set_chunks_done, on_sessions, update_sessions,
  update_upload_status, any_session, write_chunk, write_chunks_done, remove_dir,
  cleanup_upload_session,
}
use mentis_eterna.Uploads.Finalize.{
  FinishError, status_error, is_claimable, lost_claim, claim_after,
  claim_chunked_upload_finalization, set_finished,
}
use mentis_eterna.Uploads.Rows.{any_session-keep_if, any_session-append}

-- A statement on the rows or the files, of any request; a new session does not have this id.
pub data Step (id : String) : Store → Store → Type 0 where
  start_session :
      (s : Session) (st : Store)
      → is_session id s ≡ false
      → Step id st (on_sessions (λ rows. rows ++ s ∷ []) st)
  save_chunk_file :
      (other : String) (i : ℕ) (bytes : List ℕ) (st : Store)
      → Step id st (write_chunk other i bytes st)
  record_chunks :
      (other : String) (indexes : List ℕ) (st : Store)
      → Step id st (write_chunks_done other indexes st)
  claim :
      (read : Session) (other : String) (note : ℕ) (st : Store)
      → Step id st (claim_chunked_upload_finalization read other note st).1
  advance :
      (other : String) (status : UploadStatus) (st : Store)
      → is_uploading status ≡ false
      → Step id st (update_upload_status other status st)
  store_finish :
      (other : String) (r : FinishResult) (st : Store)
      → Step id st
          (remove_dir other (on_sessions (update_sessions (is_session other) (set_finished r)) st))
  remove_session : (other : String) (st : Store) → Step id st (cleanup_upload_session other st)

pub data Reach (id : String) (st : Store) : Store → Type 0 where
  here : Reach id st st
  next : {u v : Store} → Reach id st u → Step id u v → Reach id st v

module _ (q p : Session → Bool) (f : Session → Session) where
  any_session-update_kept :
      (rows : List Session)
      → ((s : Session) → q s ≡ false → q (f s) ≡ false)
      → any_session q rows ≡ false
      → any_session q (update_sessions p f rows) ≡ false
  unfolding update_sessions
  any_session-update_kept [] keep h = refl
  any_session-update_kept (s ∷ rows) keep h =
      let here_not : q s ≡ false = ground (arith, h) in
      let rest : any_session q rows ≡ false = ground (arith, h) in
      ground (arith, here_not, keep s here_not, any_session-update_kept rows keep rest)

any_session-update_all :
    (q : Session → Bool) (f : Session → Session) (rows : List Session)
    → ((s : Session) → q (f s) ≡ false)
    → any_session q (update_sessions q f rows) ≡ false
unfolding update_sessions
any_session-update_all q f [] out = refl
any_session-update_all q f (s ∷ rows) out =
    ground (arith, out s, any_session-update_all q f rows out)

closed_not-is_claimable :
    (id : String) (note : ℕ) (status : UploadStatus) (s : Session)
    → is_uploading status ≡ false
    → is_claimable id note (set_status status s) ≡ false
closed_not-is_claimable id note status s h = ground (arith, h)

claim_after-kept :
    (id other : String) (note owner : ℕ) (e : Option FinishError) (st : Store)
    → any_session (is_claimable id note) st.sessions ≡ false
    → any_session (is_claimable id note) (claim_after e other owner st).1.sessions ≡ false
claim_after-kept id other note owner (some e) st h = h
claim_after-kept id other note owner none st h =
    elim (Bool-cases (any_session (is_claimable other owner) st.sessions)) [
      | inl k ↦ rw k (
          any_session-update_kept (is_claimable id note) (is_claimable other owner)
            (set_status assembling) st.sessions
            (λ s n. closed_not-is_claimable id note assembling s refl) h)
      | inr k ↦ rw k h
    ]

Step-kept :
    {id : String} {st u : Store} (note : ℕ)
    → Step id st u
    → any_session (is_claimable id note) st.sessions ≡ false
    → any_session (is_claimable id note) u.sessions ≡ false
unfolding write_chunk write_chunks_done claim_chunked_upload_finalization update_upload_status
    remove_dir cleanup_upload_session
Step-kept {id} note (start_session s st other) h =
    any_session-append (is_claimable id note) st.sessions s h (ground (arith, other))
Step-kept note (save_chunk_file other i bytes st) h = h
Step-kept {id} note (record_chunks other indexes st) h =
    any_session-update_kept (is_claimable id note) (is_session other) (set_chunks_done indexes)
      st.sessions (λ s n. n) h
Step-kept {id} note (claim read other owner st) h =
    claim_after-kept id other note owner (status_error read.status) st h
Step-kept {id} note (advance other status st closed) h =
    any_session-update_kept (is_claimable id note) (is_session other) (set_status status)
      st.sessions (λ s n. closed_not-is_claimable id note status s closed) h
Step-kept {id} note (store_finish other r st) h =
    any_session-update_kept (is_claimable id note) (is_session other) (set_finished r) st.sessions
      (λ s n. closed_not-is_claimable id note done (set_finished r s) refl) h
Step-kept {id} note (remove_session other st) h =
    any_session-keep_if (is_claimable id note) (λ s. not (is_session other s)) st.sessions h

Reach-kept :
    {id : String} {st u : Store} (note : ℕ)
    → Reach id st u
    → any_session (is_claimable id note) st.sessions ≡ false
    → any_session (is_claimable id note) u.sessions ≡ false
Reach-kept note here h = h
Reach-kept note (next r step) h = Step-kept note step (Reach-kept note r h)

claim_after-closed :
    (e : Option FinishError) (id : String) (note : ℕ) (st u : Store)
    → claim_after e id note st ≡ (none, u)
    → any_session (is_claimable id note) u.sessions ≡ false
claim_after-closed (some e) id note st u h = absurd (cc h)
claim_after-closed none id note st u h =
    elim (Bool-cases (any_session (is_claimable id note) st.sessions)) [
      | inl k ↦
          let same : on_sessions (update_sessions (is_claimable id note) (set_status assembling)) st
              ≡ u =
            cc (rw k at h) in
          rw (sym same) (
            any_session-update_all (is_claimable id note) (set_status assembling) st.sessions
              (λ s. closed_not-is_claimable id note assembling s refl))
      | inr k ↦ absurd (cc (rw k at h))
    ]

claim_after-refused :
    (e : Option FinishError) (id : String) (note : ℕ) (st : Store)
    → any_session (is_claimable id note) st.sessions ≡ false
    → (error : FinishError) × (claim_after e id note st ≡ (some error, st))
claim_after-refused (some e) id note st h = (e, refl)
claim_after-refused none id note st h =
    (lost_claim (load_upload_session id note st.sessions), rw h refl)

-- Once a finish has claimed a session, no other finish claims it again, whatever row it read before and
-- whatever statements of other requests, of the finish itself and of the cleanup came in between: it gets an
-- error and changes nothing. New sessions do not get an old id.
pub claim_chunked_upload_finalization_once :
    (first second : Session) (id : String) (note : ℕ) (st u v : Store)
    → claim_chunked_upload_finalization first id note st ≡ (none, u)
    → Reach id u v
    → (error : FinishError) × (claim_chunked_upload_finalization second id note v ≡ (some error, v))
unfolding claim_chunked_upload_finalization
claim_chunked_upload_finalization_once first second id note st u v h r =
    claim_after-refused (status_error second.status) id note v
      (Reach-kept note r (claim_after-closed (status_error first.status) id note st u h))
