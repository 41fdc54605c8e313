-- ===== src/Media/Named.antt =====
-- `ReconcileInlineRefs` and the invariant, whatever the body names.
use mathlib.Core.Bool.{false≢true}
use mentis_eterna.Prelude.{
  Bool, Bool-cases, List, Option, [], arith, false, inl, inr, keep_if, none, not, refl, some, subst,
  sym, true, ℕ, ◌&&◌, ◌++◌, ◌==◌, ◌∙◌, ◌∷◌, ◌≡◌, ◌≤◌, nat_key, string_key,
}
use mentis_eterna.Media.Tables.{
  FileRecord, FileRef, Media, delete_file_replica, enqueue_deletes, is_deleted_file, is_file,
  is_inline, is_known, is_pending, is_pending_file, is_soft_deleted, mark_all_deleted, mark_deleted,
  referenced, set_deleted, with_files, with_refs,
}
use mentis_eterna.Media.Service.{
  commit_orphans, file_ids, insert_inline_refs, is_orphaned_file, orphaned_file_ids,
  reconcile_inline_refs,
}
use mentis_eterna.Media.Rows.{any_of-change_where, any_of_not-change_where}
use mentis_eterna.Media.Consistent.{Consistent-keep_if, IsConsistent, is_known-change_where}
use mentis_eterna.Media.Reconcile.{OnSome}
use mentis_eterna.Media.Saved.{ConsistentBut, Grows, IsConsistentBut, insert_inline_refs-Grows}
use mentis_eterna.Media.Inline.{names}

-- The orphans wait.
orphan-pending :
    (note j : ℕ) (refs : List FileRef) (files : List FileRecord)
    → names j (file_ids (keep_if (is_orphaned_file note refs) files)) ≡ true
    → is_pending j files ≡ true
unfolding is_pending
orphan-pending note j refs [] h = h
orphan-pending note j refs (f ∷ files) h = elim (Bool-cases (is_orphaned_file note refs f)) [
  | inr e ↦ ground (arith, orphan-pending note j refs files (rw e at h))
  | inl e ↦ elim (Bool-cases (f.id == j)) [
    | inl k ↦ ground (arith, e, k)
    | inr k ↦
        let rest : names j (file_ids (keep_if (is_orphaned_file note refs) files)) ≡ true =
          ground (arith, rw e at h, k) in
        ground (arith, orphan-pending note j refs files rest)
  ]
]

known-mark_all_deleted :
    (now : ℕ) (ids : List ℕ) (files : List FileRecord) (j : ℕ)
    → is_known j (mark_all_deleted now ids files) ≡ is_known j files
unfolding mark_deleted
known-mark_all_deleted now [] files j = refl
known-mark_all_deleted now (id ∷ ids) files j =
    known-mark_all_deleted now ids (mark_deleted now id files) j
    ∙ is_known-change_where (is_file id) (set_deleted now) files (λ x. refl) j

pending-mark_all_deleted :
    (now : ℕ) (ids : List ℕ) (files : List FileRecord) (j : ℕ)
    → is_pending j (mark_all_deleted now ids files) ≡ is_pending j files
unfolding mark_deleted is_pending
pending-mark_all_deleted now [] files j = refl
pending-mark_all_deleted now (id ∷ ids) files j =
    pending-mark_all_deleted now ids (mark_deleted now id files) j
    ∙ any_of-change_where (is_pending_file j) (is_file id) (set_deleted now) files (λ x. refl)

alive-mark_all_deleted :
    (now : ℕ) (ids : List ℕ) (files : List FileRecord) (j : ℕ)
    → names j ids ≡ false
    → is_soft_deleted j files ≡ false
    → is_soft_deleted j (mark_all_deleted now ids files) ≡ false
unfolding mark_deleted is_soft_deleted
alive-mark_all_deleted now [] files j absent h = h
alive-mark_all_deleted now (id ∷ ids) files j absent h =
    let apart : (id == j) ≡ false = ground (arith, absent) in
    alive-mark_all_deleted now ids (mark_deleted now id files) j (ground (arith, absent)) (
      any_of_not-change_where (is_deleted_file j) (is_file id) (set_deleted now) files
        (λ x here gone. absurd (false≢true (sym apart ∙ ground (arith, here, gone)))) h)

-- Enqueued jobs are beside it.
enqueue_deletes-IsConsistentBut :
    (named : ℕ → Bool) (ids : List ℕ) (m : Media)
    → IsConsistentBut named m
    → IsConsistentBut named (enqueue_deletes ids m)
enqueue_deletes-IsConsistentBut named [] m h = h
enqueue_deletes-IsConsistentBut named (id ∷ ids) m h =
    enqueue_deletes-IsConsistentBut named ids
      (record m { jobs = m.jobs ++ delete_file_replica id ∷ [] }) h

-- The orphans are deleted after references to the named files were added.
ConsistentBut-grown :
    (note now : ℕ) (ids : List ℕ) (m n : Media)
    → IsConsistent m
    → Grows ids m n
    → ConsistentBut
        (λ j. names j ids)
        (mark_all_deleted now (orphaned_file_ids note n) n.files)
        n.refs
        n.last_id
unfolding orphaned_file_ids
ConsistentBut-grown note now ids m n h g = record {
  bounded = λ j e.
      let old = h.bounded j (sym (g.known_same j) ∙ sym (known_end j) ∙ e) in
      subst (λ l. j ≤ l) (sym g.last) old;
  known = λ j e.
      known_end j
      ∙ g.known_same j
      ∙ elim (g.new j e) [ inl old ↦ h.known j old | inr (named, there) ↦ there ];
  alive = λ j absent e.
      alive-mark_all_deleted now orphans n.files j (no_orphan j (old_ref j absent e))
        (g.deleted_same j ∙ h.alive j (old_ref j absent e));
  unreferenced = λ j absent e. elim (Bool-cases (referenced j n.refs)) [
    | inr k ↦ k
    | inl k ↦
        let waits = g.pending_before j (sym (pending-mark_all_deleted now orphans n.files j) ∙ e) in
        absurd (false≢true (sym (h.unreferenced j waits) ∙ old_ref j absent k))
  ];
}
  where
    orphans : List ℕ
    orphans = file_ids (keep_if (is_orphaned_file note n.refs) n.files)

    known_end : (j : ℕ) → is_known j (mark_all_deleted now orphans n.files) ≡ is_known j n.files
    known_end j = known-mark_all_deleted now orphans n.files j

    old_ref :
        (j : ℕ) → names j ids ≡ false → referenced j n.refs ≡ true → referenced j m.refs ≡ true
    old_ref j absent e = elim (g.new j e) [
      | inl old ↦ old
      | inr (named, there) ↦ absurd (false≢true (sym absent ∙ named))
    ]

    no_orphan : (j : ℕ) → referenced j m.refs ≡ true → names j orphans ≡ false
    no_orphan j e = elim (Bool-cases (names j orphans)) [
      | inr k ↦ k
      | inl k ↦
          let waits = g.pending_before j (orphan-pending note j n.refs n.files k) in
          absurd (false≢true (sym (h.unreferenced j waits) ∙ e))
    ]

IsConsistent-but : (named : ℕ → Bool) (m : Media) → IsConsistent m → IsConsistentBut named m
IsConsistent-but named m h = record {
  bounded = h.bounded;
  known = h.known;
  alive = λ j absent e. h.alive j e;
  unreferenced = λ j absent e. h.unreferenced j e;
}

commit_orphans-IsConsistentBut :
    (note now : ℕ) (ids : List ℕ) (m start : Media) (o : Option Media)
    → IsConsistent m
    → IsConsistent start
    → OnSome (Grows ids start) o
    → IsConsistentBut (λ j. names j ids) (commit_orphans note now m o).1
commit_orphans-IsConsistentBut note now ids m start none h k g =
    IsConsistent-but (λ j. names j ids) m h
commit_orphans-IsConsistentBut note now ids m start (some n) h k g =
    let orphans = orphaned_file_ids note n in
    enqueue_deletes-IsConsistentBut (λ j. names j ids) orphans
      (with_files (mark_all_deleted now orphans n.files) n)
      (ConsistentBut-grown note now ids start n k g)

-- A save of any body keeps the invariant of all files but those that the body names.
pub reconcile_inline_refs-IsConsistentBut :
    (note : ℕ) (ids : List ℕ) (now : ℕ) (m : Media)
    → IsConsistent m
    → IsConsistentBut (λ j. names j ids) (reconcile_inline_refs note ids now m).1
unfolding reconcile_inline_refs
reconcile_inline_refs-IsConsistentBut note ids now m h =
    let kept = λ (r : FileRef). not (r.note_id == note && is_inline r.ref_kind) in
    let start = with_refs (keep_if kept m.refs) m in
    commit_orphans-IsConsistentBut note now ids m start (insert_inline_refs note ids (some start)) h
      (Consistent-keep_if kept m.files m.refs m.last_id h) (insert_inline_refs-Grows note ids start)
