-- ===== src/Uploads/AutoFinish.antt =====
-- The goroutine of the automatic finish: it is started once all chunks were sent.
use mentis_eterna.Prelude.{
  All, Bool, Bool-cases, List, String, [], arith, false, inl, inr, leb, length, length-append, ltb,
  refl, suc, true, ℕ, ◌++◌, ◌<◌, ◌==◌, ◌||◌, ◌∙◌, ◌∷◌, ◌≡◌, ◌≤◌, nat_key, string_key,
}
use mentis_eterna.Uploads.Sessions.{Session, Store, has_index, load_upload_session, with_chunk}
use mentis_eterna.Uploads.Handlers.{digest_fits, handle_chunked_chunk, is_session_expired}
use mentis_eterna.Uploads.Counting.{length-Distinct}
use mentis_eterna.Uploads.Delivery.{
  Progress, add_chunk_done-new, has_index-with_chunk, request_of, send, send-Progress,
  starts_finish,
}

module _ (sha256_hex : List ℕ → String) (equal_fold : String → String → Bool) (s : Session)
    (pieces : ℕ → List ℕ) (now : ℕ) (fold_refl : (h : String) → equal_fold h h ≡ true)
    (intime : is_session_expired now s ≡ false)
    (fits : (i : ℕ) → i < s.total_chunks → length (pieces i) ≤ s.chunk_size) where
  -- A chunk that is new starts it if it is the last one to come.
  auto_finish_new :
      (i : ℕ) (is : List ℕ) (st : Store)
      → i < s.total_chunks
      → has_index i is ≡ false
      → Progress s pieces is st
      → (handle_chunked_chunk sha256_hex equal_fold true true s.upload_id s.note_id now
          (request_of sha256_hex pieces i)
          st).auto_finish
        ≡ (length (is ++ i ∷ []) == s.total_chunks)
  unfolding handle_chunked_chunk load_upload_session
  auto_finish_new i is st lt e h =
      let good : digest_fits sha256_hex equal_fold (sha256_hex (pieces i)) (pieces i) ≡ true =
        ground (arith, fold_refl (sha256_hex (pieces i))) in
      let within : leb s.total_chunks i ≡ false = ground (arith, lt) in
      let small : ltb s.chunk_size (length (pieces i)) ≡ false = ground (arith, fits i lt) in
      let recorded =
        add_chunk_done-new sha256_hex equal_fold s pieces now fold_refl intime fits i is st e h in
      rw (h.loaded, handle_chunked_chunk)
        (rw intime (rw within (rw e (rw small (rw good (rw recorded refl))))))

  pub starts_finish-all :
      (sends is : List ℕ) (st : Store)
      → All (λ i. i < s.total_chunks) sends
      → Progress s pieces is st
      → length is < s.total_chunks
      → ((i : ℕ) → i < s.total_chunks → (has_index i is || has_index i sends) ≡ true)
      → starts_finish sha256_hex equal_fold s pieces now sends st ≡ true
  unfolding starts_finish
  starts_finish-all [] is st lt h few all =
      let full : length is ≡ s.total_chunks =
        length-Distinct s.total_chunks is h.distinct h.in_range (λ i l. ground (arith, all i l)) in
      absurd (omega arith)
  starts_finish-all (j ∷ sends) is st lt h few all =
      let later =
        send-Progress sha256_hex equal_fold s pieces now fold_refl intime fits j is st lt.0 h in
      let rest =
        starts_finish-all sends (with_chunk j is) (send sha256_hex equal_fold s pieces now j st)
          lt.1 later in
      let covered : (i : ℕ)
          → i < s.total_chunks
          → (has_index i (with_chunk j is) || has_index i sends) ≡ true =
        λ i l. ground (arith, all i l, has_index-with_chunk i j is) in
      elim (Bool-cases (has_index j is)) [
        | inl e ↦
            let same : length (with_chunk j is) ≡ length is = rw e refl in
            ground (arith, rest (omega arith) covered)
        | inr e ↦
            let one_more : length (with_chunk j is) ≡ suc (length is) =
              rw e (length-append is (j ∷ []) ∙ omega arith) in
            elim (Bool-cases (length (is ++ j ∷ []) == s.total_chunks)) [
              | inl full ↦ rw (auto_finish_new j is st lt.0 e h) (rw full refl)
              | inr more ↦
                  let less : length (with_chunk j is) < s.total_chunks =
                    ground (arith, more, length-append is (j ∷ [])) in
                  ground (arith, rest less covered)
            ]
      ]
