-- ===== src/Uploads/Opening.antt =====
-- A new session keeps the invariant.
use mentis_eterna.Prelude.{
  All-append, ℕ, String, Bool, true, false, ◌||◌, Option, none, some, [], ◌∷◌, ltb, Bool-cases, inl,
  inr, ◌≡◌, ◌==◌, nat_key, if◌then◌else◌,
}
use mentis_eterna.Uploads.Sessions.{
  Session, Store, is_session, any_session, load_upload_session_by_placeholder,
  load_upload_session_by_hash,
}
use mentis_eterna.Uploads.Handlers.{
  Reply, StartRequest, Limits, new_session, handle_chunked_start, start_new, start_request,
  start_or, if_given, unless_empty,
}
use mentis_eterna.Uploads.Rows.{UniqueIds-append}
use mentis_eterna.Uploads.Sound.{SoundIn, IsSound}

start_new-IsSound :
    (id : String) (note : ℕ) (req : StartRequest) (now : ℕ) (st : Store)
    → any_session (is_session id) st.sessions ≡ false
    → IsSound st
    → IsSound (start_new id note req now st).1
start_new-IsSound id note req now st fresh h =
    let s = new_session id note req now in
    record {
      unique = UniqueIds-append st.sessions s h.unique fresh;
      sound =
          All-append (SoundIn st.chunks) st.sessions (s ∷ []) h.sound
            (record { distinct = tt; in_range = tt; on_disk = λ open_still. tt }, tt);
    }

start_or-IsSound :
    (o : Option Session) (st : Store) (next : Reply × Store)
    → IsSound st
    → IsSound next.1
    → IsSound (start_or o st next).1
start_or-IsSound none st next h k = k
start_or-IsSound (some s) st next h k = h

start_request-IsSound :
    (limits : Limits) (id : String) (note now : ℕ) (req : StartRequest) (st : Store)
    → any_session (is_session id) st.sessions ≡ false
    → IsSound st
    → IsSound (start_request limits id note now req st).1
start_request-IsSound limits id note now req st fresh h =
    elim (Bool-cases (req.total_size == 0 || req.chunk_size == 0 || req.total_chunks == 0)) [
      | inl e ↦ rw e h
      | inr e ↦
          elim (Bool-cases (
            ltb (if req.inline then limits.max_inline_upload_bytes else limits.max_upload_bytes)
              req.total_size)) [
                | inl k ↦ rw e (rw k h)
                | inr k ↦ rw e (
                    rw k (
                      start_or-IsSound
                        (if_given (unless_empty req.placeholder_token)
                          (λ token. load_upload_session_by_placeholder note token now st.sessions))
                        st _ h
                        (start_or-IsSound
                          (if_given (unless_empty req.file_sha256)
                            (λ hash. load_upload_session_by_hash note hash now st.sessions))
                          st _ h (start_new-IsSound id note req now st fresh h))))
              ]
    ]

pub handle_chunked_start-IsSound :
    (configured is_post exists_note : Bool) (limits : Limits) (id : String) (note now : ℕ)
    (req : Option StartRequest) (st : Store)
    → any_session (is_session id) st.sessions ≡ false
    → IsSound st
    → IsSound (handle_chunked_start configured is_post exists_note limits id note now req st).1
unfolding handle_chunked_start
handle_chunked_start-IsSound false is_post exists_note limits id note now req st fresh h = h
handle_chunked_start-IsSound true false exists_note limits id note now req st fresh h = h
handle_chunked_start-IsSound true true false limits id note now req st fresh h = h
handle_chunked_start-IsSound true true true limits id note now none st fresh h = h
handle_chunked_start-IsSound true true true limits id note now (some req) st fresh h =
    start_request-IsSound limits id note now req st fresh h
