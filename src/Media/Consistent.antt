-- ===== src/Media/Consistent.antt =====
-- The invariant of the tables, and what the statements of the service do to it.
use mathlib.Core.Bool.{false≢true}
use mentis_eterna.Prelude.{
  ==→eq, All, Bool, Bool-cases, List, [], ap, arith, false, inl, inr, keep_if, refl, subst, sym,
  true, ℕ, ◌++◌, ◌==◌, ◌∙◌, ◌∷◌, ◌≡◌, ◌≤◌, nat_key, string_key,
}
use mentis_eterna.Media.Tables.{
  FileRecord, FileRef, Media, change_where, delete_file_replica, enqueue_deletes, has_no_value,
  is_deleted_file, is_file, is_known, is_pending, is_pending_file, is_ref_of, is_soft_deleted,
  mark_all_deleted, mark_deleted, referenced, set_deleted,
}
use mentis_eterna.Media.Rows.{any_of-change_where, any_of_not-change_where, any_of-keep_if}

-- Ids are at most the last one; a reference is to a file that is there and not deleted; a file that waits for
-- the next save of a note has no reference yet.
pub record Consistent (files : List FileRecord) (refs : List FileRef) (last_id : ℕ) : Type 0 where
  pub bounded : (id : ℕ) → is_known id files ≡ true → id ≤ last_id
  pub known : (id : ℕ) → referenced id refs ≡ true → is_known id files ≡ true
  pub alive : (id : ℕ) → referenced id refs ≡ true → is_soft_deleted id files ≡ false
  pub unreferenced : (id : ℕ) → is_pending id files ≡ true → referenced id refs ≡ false

abbrev pub IsConsistent : Media → Type 0
IsConsistent m = Consistent m.files m.refs m.last_id

contra : (b : Bool) → b ≡ true → b ≡ false → ⊥
contra b e f = false≢true (sym f ∙ e)

-- Fewer references.
pub Consistent-keep_if :
    (p : FileRef → Bool) (files : List FileRecord) (refs : List FileRef) (last_id : ℕ)
    → Consistent files refs last_id
    → Consistent files (keep_if p refs) last_id
unfolding referenced
Consistent-keep_if p files refs last_id h = record {
  bounded = h.bounded;
  known = λ id e. h.known id (any_of-keep_if (is_ref_of id) p refs e);
  alive = λ id e. h.alive id (any_of-keep_if (is_ref_of id) p refs e);
  unreferenced = λ id e. elim (Bool-cases (referenced id (keep_if p refs))) [
    | inl k ↦
        absurd (
          contra (referenced id refs) (any_of-keep_if (is_ref_of id) p refs k)
            (h.unreferenced id e))
    | inr k ↦ k
  ];
}

-- A change of rows that keeps their ids.
module _ (p : FileRecord → Bool) (f : FileRecord → FileRecord) (files : List FileRecord)
    (same : (x : FileRecord) → (f x).id ≡ x.id) where
  pub is_known-change_where : (id : ℕ) → is_known id (change_where p f files) ≡ is_known id files
  unfolding is_known
  is_known-change_where id =
      any_of-change_where (is_file id) p f files (λ x. ap (λ k. k == id) (same x))

  pub is_soft_deleted-change_where :
      ((x : FileRecord) → (f x).deleted_at ≡ x.deleted_at)
      → (id : ℕ) → is_soft_deleted id (change_where p f files) ≡ is_soft_deleted id files
  unfolding is_soft_deleted
  is_soft_deleted-change_where kept id =
      any_of-change_where (is_deleted_file id) p f files
        (λ x. ground (arith, same x, ap has_no_value (kept x)))

-- A file that no reference names can be marked as deleted.
pub Consistent-mark_deleted :
    (now id : ℕ) (files : List FileRecord) (refs : List FileRef) (last_id : ℕ)
    → referenced id refs ≡ false
    → Consistent files refs last_id
    → Consistent (mark_deleted now id files) refs last_id
unfolding mark_deleted is_pending is_soft_deleted
Consistent-mark_deleted now id files refs last_id free h = record {
  bounded = λ j e. h.bounded j (sym (known_same j) ∙ e);
  known = λ j e. known_same j ∙ h.known j e;
  alive = λ j e. still_alive j e;
  unreferenced = λ j e. h.unreferenced j (sym (pending_same j) ∙ e);
}
  where
    known_same : (j : ℕ) → is_known j (mark_deleted now id files) ≡ is_known j files
    known_same j = is_known-change_where (is_file id) (set_deleted now) files (λ x. refl) j

    pending_same : (j : ℕ) → is_pending j (mark_deleted now id files) ≡ is_pending j files
    pending_same j =
        any_of-change_where (is_pending_file j) (is_file id) (set_deleted now) files (λ x. refl)

    still_alive :
        (j : ℕ) → referenced j refs ≡ true → is_soft_deleted j (mark_deleted now id files) ≡ false
    still_alive j e =
        any_of_not-change_where (is_deleted_file j) (is_file id) (set_deleted now) files
          (λ x here gone. absurd (
            contra (referenced id refs)
              (subst (λ k. referenced k refs ≡ true)
                (sym (==→eq x.id j (ground (arith, gone))) ∙ ==→eq x.id id here) e)
              free))
          (h.alive j e)

pub Consistent-mark_all_deleted :
    (now : ℕ) (ids : List ℕ) (files : List FileRecord) (refs : List FileRef) (last_id : ℕ)
    → All (λ id. referenced id refs ≡ false) ids
    → Consistent files refs last_id
    → Consistent (mark_all_deleted now ids files) refs last_id
Consistent-mark_all_deleted now [] files refs last_id free h = h
Consistent-mark_all_deleted now (id ∷ ids) files refs last_id free h =
    Consistent-mark_all_deleted now ids (mark_deleted now id files) refs last_id free.1
      (Consistent-mark_deleted now id files refs last_id free.0 h)

-- Enqueued jobs are beside it.
pub enqueue_deletes-IsConsistent :
    (ids : List ℕ) (m : Media) → IsConsistent m → IsConsistent (enqueue_deletes ids m)
enqueue_deletes-IsConsistent [] m h = h
enqueue_deletes-IsConsistent (id ∷ ids) m h =
    enqueue_deletes-IsConsistent ids (record m { jobs = m.jobs ++ delete_file_replica id ∷ [] }) h
