-- ===== src/Uploads/Preserve.antt =====
-- Every handler of the uploads keeps the invariant.
use mathlib.Core.List.{Memᴰ}
use mathlib.Core.Option.{some-injective}
use mentis_eterna.Prelude.{
  ℕ, ◌<◌, String, Bool, true, false, Option, none, some, List, length, leb, ltb, Bool-cases, inl,
  inr, ◌⊎◌, ◌≡◌, refl, sym, ◌∙◌, subst, ==_refl, nat_key, string_key, if◌then◌else◌, arith,
}
use mentis_eterna.Prelude.Maps.{insert}
use mentis_eterna.Uploads.Sessions.{
  Session, Store, NoteFile, is_session, has_index, with_chunk, set_chunks_done, dir_of,
  add_chunk_done, write_chunks_done, write_chunk, cleanup_expired_upload_sessions,
  load_upload_session, any_session, is_session_of,
}
use mentis_eterna.Uploads.Handlers.{
  StartRequest, Limits, ChunkRequest, handle_chunked_start, handle_chunked_chunk, chunk_of,
  chunk_at, check_chunk, save_chunk, record_chunk, digest_fits, is_session_expired,
  handle_chunked_cancel,
}
use mentis_eterna.Uploads.Finalize.{DiskErrors, finalize_chunked_upload_session}
use mentis_eterna.Uploads.Rows.{
  UniqueIds, All-update_sessions, UniqueIds-update_sessions, first_where_unique, first_where-some,
}
use mentis_eterna.Uploads.Sound.{SoundIn, IsSound, SoundIn-insert, SoundIn-with_chunk}
use mentis_eterna.Uploads.Opening.{handle_chunked_start-IsSound}
use mentis_eterna.Uploads.Closing.{
  handle_chunked_cancel-IsSound, finalize_chunked_upload_session-IsSound,
  cleanup_expired_upload_sessions-IsSound,
}

one_row :
    (id : String) (r s : Session) (rows : List Session)
    → UniqueIds rows
    → Memᴰ r rows
    → Memᴰ s rows
    → is_session id r ≡ true
    → is_session id s ≡ true
    → r ≡ s
one_row id r s rows u m n h k =
    some-injective r s
      (sym (first_where_unique id r rows u m h) ∙ first_where_unique id s rows u n k)

-- Recording a chunk of a session that stands in the table.
pub add_chunk_done-IsSound :
    (s : Session) (i : ℕ) (bytes : List ℕ) (st : Store)
    → Memᴰ s st.sessions
    → i < s.total_chunks
    → IsSound st
    → IsSound (add_chunk_done s.upload_id i (write_chunk s.upload_id i bytes st)).1
unfolding add_chunk_done write_chunks_done write_chunk
add_chunk_done-IsSound s i bytes st m lt h =
    let id = s.upload_id in
    let chunks = insert id (insert i bytes (dir_of id st)) st.chunks in
    rw (first_where_unique id s st.sessions h.unique m (==_refl id)) (record {
      unique =
          UniqueIds-update_sessions (is_session id) (set_chunks_done (with_chunk i s.chunks_done))
            st.sessions (λ t. refl) h.unique;
      sound =
          All-update_sessions (is_session id) (set_chunks_done (with_chunk i s.chunks_done))
            (SoundIn st.chunks) (SoundIn chunks) st.sessions (λ r n k. recorded r n k) h.sound;
    })
  where
    recorded :
        (r : Session)
        → Memᴰ r st.sessions
        → SoundIn st.chunks r
        → SoundIn
            (insert s.upload_id (insert i bytes (dir_of s.upload_id st)) st.chunks)
            (if is_session s.upload_id r then set_chunks_done (with_chunk i s.chunks_done) r else r)
    recorded r n k = elim (Bool-cases (is_session s.upload_id r)) [
      | inl e ↦
          let same : s ≡ r =
            one_row s.upload_id s r st.sessions h.unique m n (==_refl s.upload_id) e in
          rw e (
            subst
              (λ x.
                SoundIn (insert s.upload_id (insert i bytes (dir_of s.upload_id st)) st.chunks)
                  (set_chunks_done (with_chunk i s.chunks_done) x))
              same
              (SoundIn-with_chunk st.chunks i bytes s lt (subst (SoundIn st.chunks) (sym same) k)))
      | inr e ↦ rw e (SoundIn-insert st.chunks s.upload_id i bytes r k)
    ]

module _ (sha256_hex : List ℕ → String) (equal_fold : String → String → Bool) where
  save_chunk-IsSound :
      (s : Session) (i : ℕ) (bytes : List ℕ) (e : Option String) (st : Store)
      → Memᴰ s st.sessions
      → i < s.total_chunks
      → IsSound st
      → IsSound (save_chunk sha256_hex equal_fold s i bytes e st).store
  save_chunk-IsSound s i bytes (some e) st m lt h = h
  save_chunk-IsSound s i bytes none st m lt h =
      record_chunk-IsSound s i (add_chunk_done s.upload_id i (write_chunk s.upload_id i bytes st))
        (add_chunk_done-IsSound s i bytes st m lt h)
    where
      record_chunk-IsSound :
          (s : Session) (i : ℕ) (r : Option (List ℕ) × Store)
          → IsSound r.1
          → IsSound (record_chunk sha256_hex equal_fold s i r).store
      record_chunk-IsSound s i (none, st) h = h
      record_chunk-IsSound s i (some indexes, st) h = h

  check_chunk-IsSound :
      (s : Session) (i : ℕ) (req : ChunkRequest) (bytes : Option (List ℕ)) (st : Store)
      → Memᴰ s st.sessions
      → i < s.total_chunks
      → IsSound st
      → IsSound (check_chunk sha256_hex equal_fold s i req bytes st).store
  check_chunk-IsSound s i req none st m lt h = h
  check_chunk-IsSound s i req (some bytes) st m lt h =
      elim (Bool-cases (ltb s.chunk_size (length bytes))) [
        | inl long ↦ rw long h
        | inr fits ↦ elim (Bool-cases (digest_fits sha256_hex equal_fold req.sha256 bytes)) [
          | inl good ↦ rw fits (rw good (save_chunk-IsSound s i bytes req.disk_error st m lt h))
          | inr bad ↦ rw fits (rw bad h)
        ]
      ]

  chunk_at-IsSound :
      (s : Session) (i : Option ℕ) (req : ChunkRequest) (st : Store)
      → Memᴰ s st.sessions
      → IsSound st
      → IsSound (chunk_at sha256_hex equal_fold s i req st).store
  chunk_at-IsSound s none req st m h = h
  chunk_at-IsSound s (some i) req st m h = elim (Bool-cases (leb s.total_chunks i)) [
    | inl out ↦ rw out h
    | inr within ↦ elim (Bool-cases (has_index i s.chunks_done)) [
      | inl old ↦ rw within (rw old h)
      | inr new ↦
          rw within (rw new (check_chunk-IsSound s i req req.chunk st m (ground (arith, within)) h))
    ]
  ]

  chunk_of-IsSound :
      (o : Option Session) (id : String) (note now : ℕ) (req : ChunkRequest) (st : Store)
      → load_upload_session id note st.sessions ≡ o
      → IsSound st
      → IsSound (chunk_of sha256_hex equal_fold o now req st).store
  unfolding load_upload_session
  chunk_of-IsSound none id note now req st e h = h
  chunk_of-IsSound (some s) id note now req st e h = elim (Bool-cases (is_session_expired now s)) [
    | inl late ↦ rw late h
    | inr intime ↦ rw intime (
        chunk_at-IsSound s req.index req st
          (first_where-some (is_session_of id note) s st.sessions e).0 h)
  ]

  pub handle_chunked_chunk-IsSound :
      (configured is_post : Bool) (id : String) (note now : ℕ) (req : ChunkRequest) (st : Store)
      → IsSound st
      → IsSound
          (handle_chunked_chunk sha256_hex equal_fold configured is_post id note now req st).store
  unfolding handle_chunked_chunk
  handle_chunked_chunk-IsSound false is_post id note now req st h = h
  handle_chunked_chunk-IsSound true false id note now req st h = h
  handle_chunked_chunk-IsSound true true id note now req st h =
      chunk_of-IsSound (load_upload_session id note st.sessions) id note now req st refl h

-- A new id is new, and what other goroutines do during a finish keeps the invariant: then every handler, the
-- automatic finish and the hourly cleanup keep it. The ids of the sessions are unique; the indexes that a
-- session records are distinct and below its number of chunks; while it is open, the file of each is there.
pub handlers-IsSound :
    (sha256_hex : List ℕ → String) (equal_fold : String → String → Bool)
    (create_file : Session → List ℕ → String ⊎ NoteFile) (markdown_of : NoteFile → String)
    (between : ℕ → Store → Store) (configured method exists_note : Bool) (limits : Limits)
    (id fresh : String) (note now : ℕ) (req : Option StartRequest) (chunk : ChunkRequest)
    (disk : DiskErrors) (st : Store)
    → ((n : ℕ) (u : Store) → IsSound u → IsSound (between n u))
    → any_session (is_session fresh) st.sessions ≡ false
    → IsSound st
    → IsSound (handle_chunked_start configured method exists_note limits fresh note now req st).1
      × IsSound
          (handle_chunked_chunk sha256_hex equal_fold configured method id note now chunk st).store
      × IsSound (handle_chunked_cancel method id note st).1
      × IsSound
          (finalize_chunked_upload_session sha256_hex equal_fold create_file markdown_of between
            configured id note now disk st).1
      × IsSound (cleanup_expired_upload_sessions now st)
handlers-IsSound sha256_hex equal_fold create_file markdown_of between configured method exists_note
      limits id fresh note now req chunk disk st kept new h =
    (
      handle_chunked_start-IsSound configured method exists_note limits fresh note now req st new h,
      handle_chunked_chunk-IsSound sha256_hex equal_fold configured method id note now chunk st h,
      handle_chunked_cancel-IsSound method id note st h,
      finalize_chunked_upload_session-IsSound sha256_hex equal_fold create_file markdown_of between
          kept configured id note now disk st h,
      cleanup_expired_upload_sessions-IsSound now st h,
    )
