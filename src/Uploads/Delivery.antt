-- ===== src/Uploads/Delivery.antt =====
-- A file that is sent in chunks is the file that is made: the chunks may come in any order, and each any
-- number of times.
use mentis_eterna.Prelude.{
  ℕ, ◌≤◌, ◌<◌, String, Bool, true, false, ◌||◌, none, some, List, [], ◌∷◌, ◌++◌, All, length, leb,
  ltb, Bool-cases, inl, inr, ◌≡◌, refl, sym, ap, ◌∙◌, subst, ◌==◌, ==_refl, nat_key, string_key,
  arith,
}
use mentis_eterna.Uploads.Sessions.{
  Session, Store, is_session, is_session_of, first_where, load_upload_session, has_index,
  with_chunk, set_chunks_done, add_chunk_done, write_chunks_done, write_chunk, read_chunk,
}
use mentis_eterna.Uploads.Handlers.{
  ChunkRequest, handle_chunked_chunk, digest_fits, is_session_expired,
}
use mentis_eterna.Uploads.Sound.{Distinct, Distinct-with_chunk, All-with_chunk}
use mentis_eterna.Uploads.Assembly.{read_chunk-write_chunk, first_where-update}

-- How far a session has come: the indexes that it has recorded, and their files.
pub record Progress (s : Session) (pieces : ℕ → List ℕ) (is : List ℕ) (st : Store) : Type 0 where
  pub row : first_where (is_session s.upload_id) st.sessions ≡ some (set_chunks_done is s)
  pub loaded :
      first_where (is_session_of s.upload_id s.note_id) st.sessions ≡ some (set_chunks_done is s)
  pub distinct : Distinct is
  pub in_range : All (λ i. i < s.total_chunks) is
  pub stored : (i : ℕ) → has_index i is ≡ true → read_chunk s.upload_id i st ≡ some (pieces i)

pub has_index-append :
    (i j : ℕ) (is : List ℕ) → has_index i (is ++ j ∷ []) ≡ (has_index i is || j == i)
has_index-append i j [] = ground arith
has_index-append i j (k ∷ is) = ground (arith, has_index-append i j is)

pub has_index-with_chunk :
    (i j : ℕ) (is : List ℕ) → has_index i (with_chunk j is) ≡ (has_index i is || j == i)
has_index-with_chunk i j is = elim (Bool-cases (has_index j is)) [
  | inl e ↦ rw e (elim (Bool-cases (j == i)) [
    | inl k ↦ let same : j ≡ i = ground (arith, k) in ground (arith, k, rw same at e)
    | inr k ↦ ground (arith, k)
  ])
  | inr e ↦ rw e (has_index-append i j is)
]

-- What a client sends for a chunk: its bytes with their digest.
abbrev pub request_of : (List ℕ → String) → (ℕ → List ℕ) → ℕ → ChunkRequest
request_of sha256_hex pieces i = record {
  index = some i;
  chunk = some (pieces i);
  sha256 = sha256_hex (pieces i);
  disk_error = none;
}

module _ (sha256_hex : List ℕ → String) (equal_fold : String → String → Bool) where
  unfoldable pub send : Session → (ℕ → List ℕ) → ℕ → ℕ → Store → Store
  unfolding handle_chunked_chunk
  send s pieces now i st =
      (handle_chunked_chunk sha256_hex equal_fold true true s.upload_id s.note_id now
        (request_of sha256_hex pieces i) st).store

  unfoldable pub send_all : Session → (ℕ → List ℕ) → ℕ → List ℕ → Store → Store
  unfolding send
  send_all s pieces now [] st = st
  send_all s pieces now (i ∷ is) st = send_all s pieces now is (send s pieces now i st)

  -- Whether one of the chunks starts the goroutine of the automatic finish.
  unfoldable pub starts_finish : Session → (ℕ → List ℕ) → ℕ → List ℕ → Store → Bool
  unfolding send handle_chunked_chunk
  starts_finish s pieces now [] st = false
  starts_finish s pieces now (i ∷ is) st =
      let later = starts_finish s pieces now is (send s pieces now i st) in
      (handle_chunked_chunk sha256_hex equal_fold true true s.upload_id s.note_id now
        (request_of sha256_hex pieces i) st).auto_finish
      || later

  -- The client keeps to the size that it announced, and the session is not expired.
  module _ (s : Session) (pieces : ℕ → List ℕ) (now : ℕ)
      (fold_refl : (h : String) → equal_fold h h ≡ true) (intime : is_session_expired now s ≡ false)
      (fits : (i : ℕ) → i < s.total_chunks → length (pieces i) ≤ s.chunk_size) where
    add_chunk_done-Progress :
        (i : ℕ) (is : List ℕ) (st : Store)
        → i < s.total_chunks
        → Progress s pieces is st
        → Progress s pieces (with_chunk i is) (
            write_chunks_done s.upload_id
              (with_chunk i is)
              (write_chunk s.upload_id i (pieces i) st))
    unfolding write_chunks_done write_chunk read_chunk
    add_chunk_done-Progress i is st lt h = record {
      row =
          first_where-update (is_session s.upload_id) (is_session s.upload_id)
            (set_chunks_done (with_chunk i is)) (set_chunks_done is s) st.sessions (λ t. refl)
            (==_refl s.upload_id) h.row;
      loaded =
          first_where-update (is_session_of s.upload_id s.note_id) (is_session s.upload_id)
            (set_chunks_done (with_chunk i is)) (set_chunks_done is s) st.sessions (λ t. refl)
            (==_refl s.upload_id) h.loaded;
      distinct = Distinct-with_chunk i is h.distinct;
      in_range = All-with_chunk (λ j. j < s.total_chunks) i is h.in_range lt;
      stored = λ j e. elim (Bool-cases (i == j)) [
        | inl k ↦
            let same : i ≡ j = ground (arith, k) in
            read_chunk-write_chunk s.upload_id i j (pieces i) st
            ∙ rw k (ap (λ m. some (pieces m)) same)
        | inr k ↦
            let old : has_index j is ≡ true = ground (arith, has_index-with_chunk j i is, e, k) in
            read_chunk-write_chunk s.upload_id i j (pieces i) st ∙ rw k (h.stored j old)
      ];
    }

    pub add_chunk_done-new :
        (i : ℕ) (is : List ℕ) (st : Store)
        → has_index i is ≡ false
        → Progress s pieces is st
        → add_chunk_done s.upload_id i (write_chunk s.upload_id i (pieces i) st) ≡ (
          some (is ++ i ∷ []),
          write_chunks_done s.upload_id (is ++ i ∷ []) (write_chunk s.upload_id i (pieces i) st),
        )
    unfolding add_chunk_done write_chunk
    add_chunk_done-new i is st e h = rw h.row (rw e refl)

    pub send-Progress :
        (i : ℕ) (is : List ℕ) (st : Store)
        → i < s.total_chunks
        → Progress s pieces is st
        → Progress s pieces (with_chunk i is) (send s pieces now i st)
    unfolding send handle_chunked_chunk load_upload_session
    send-Progress i is st lt h =
        let good : digest_fits sha256_hex equal_fold (sha256_hex (pieces i)) (pieces i) ≡ true =
          ground (arith, fold_refl (sha256_hex (pieces i))) in
        let within : leb s.total_chunks i ≡ false = ground (arith, lt) in
        let small : ltb s.chunk_size (length (pieces i)) ≡ false = ground (arith, fits i lt) in
        elim (Bool-cases (has_index i is)) [
          | inl e ↦
              let same : send s pieces now i st ≡ st =
                rw (h.loaded, send, handle_chunked_chunk) (rw intime (rw within (rw e refl))) in
              rw same (rw e h)
          | inr e ↦
              let recorded = add_chunk_done-new i is st e h in
              let sent : send s pieces now i st
                  ≡ write_chunks_done s.upload_id (with_chunk i is)
                      (write_chunk s.upload_id i (pieces i) st) =
                rw (h.loaded, send, handle_chunked_chunk)
                  (rw intime (rw within (rw e (rw small (rw good (rw recorded refl)))))) in
              subst (λ u. Progress s pieces (with_chunk i is) u) (sym sent)
                (add_chunk_done-Progress i is st lt h)
        ]

    -- All that is sent is recorded.
    pub send_all-Progress :
        (sends is : List ℕ) (st : Store)
        → All (λ i. i < s.total_chunks) sends
        → Progress s pieces is st
        → (recorded : List ℕ) × Progress s pieces recorded (send_all s pieces now sends st)
          × ((i : ℕ) → (has_index i is || has_index i sends) ≡ true → has_index i recorded ≡ true)
    unfolding send_all
    send_all-Progress [] is st lt h = (is, h, λ i e. ground (arith, e))
    send_all-Progress (j ∷ sends) is st lt h =
        let (recorded, progress, all_of) =
          send_all-Progress sends (with_chunk j is) (send s pieces now j st) lt.1
            (send-Progress j is st lt.0 h) in
        (recorded, progress, λ i e. all_of i (ground (arith, e, has_index-with_chunk i j is)))
