-- ===== src/Uploads/Race.antt =====
-- Two chunks of one session at the same time: `addChunkDone` reads and writes the list of indexes in two
-- statements, with no transaction around them.
use mathlib.Core.List.{Memᴰ}
use mentis_eterna.Prelude.{
  ℕ, false, some, List, [], ◌∷◌, ◌++◌, ◌≡◌, refl, ◌∙◌, ◌==◌, ==_refl, nat_key, string_key, arith,
}
use mentis_eterna.Uploads.Sessions.{
  Session, Store, is_session, has_index, read_chunks_done, append_chunk, write_chunks_done,
  write_chunk, set_chunks_done, update_sessions,
}
use mentis_eterna.Uploads.Rows.{UniqueIds, first_where_unique}
use mentis_eterna.Uploads.Assembly.{first_where-update}
use mentis_eterna.Uploads.Delivery.{has_index-append}

-- Of two new chunks of one session whose requests both read the list of indexes before either writes it, the
-- first is lost: its client is told that it is recorded, but the row names only the second.
pub append_chunk-lost :
    (s : Session) (i j : ℕ) (bytes other_bytes : List ℕ) (st : Store)
    → UniqueIds st.sessions
    → Memᴰ s st.sessions
    → has_index i s.chunks_done ≡ false
    → has_index j s.chunks_done ≡ false
    → (j == i) ≡ false
    → let files = write_chunk s.upload_id j other_bytes (write_chunk s.upload_id i bytes st) in
      let first = append_chunk s.upload_id i (read_chunks_done s.upload_id files) files in
      let second = append_chunk s.upload_id j (read_chunks_done s.upload_id files) first.1 in
      (first.0 ≡ some (s.chunks_done ++ i ∷ []))
      × (read_chunks_done s.upload_id second.1 ≡ some (s.chunks_done ++ j ∷ []))
      × (has_index i (s.chunks_done ++ j ∷ []) ≡ false)
unfolding write_chunk write_chunks_done
append_chunk-lost s i j bytes other_bytes st unique stands new_i new_j apart =
    let row = first_where_unique s.upload_id s st.sessions unique stands (==_refl s.upload_id) in
    let f = set_chunks_done (s.chunks_done ++ i ∷ []) in
    let g = set_chunks_done (s.chunks_done ++ j ∷ []) in
    let after =
      first_where-update (is_session s.upload_id) (is_session s.upload_id) f s st.sessions
        (λ t. refl) (==_refl s.upload_id) row in
    let last =
      first_where-update (is_session s.upload_id) (is_session s.upload_id) g (f s)
        (update_sessions (is_session s.upload_id) f st.sessions) (λ t. refl) (==_refl s.upload_id)
        after in
    (
      rw row (rw new_i refl),
      rw row (rw new_i (rw new_j (rw last refl))),
      has_index-append i j s.chunks_done ∙ ground (arith, new_i, apart),
    )
