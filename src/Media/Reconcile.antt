-- ===== src/Media/Reconcile.antt =====
-- `ReconcileInlineRefs` and the invariant.
use mathlib.Core.Bool.{false≢true}
use mathlib.Core.List.{Memᴰ}
use mentis_eterna.Prelude.{
  All, All-mono, Bool, Bool-cases, List, Option, [], ap, arith, false, inl, inr, keep_if, none, not,
  refl, some, subst, sym, true, ℕ, ◌&&◌, ◌++◌, ◌==◌, ◌∙◌, ◌∷◌, ◌≡◌, ◌⊎◌, nat_key, string_key,
}
use mentis_eterna.Media.Tables.{
  FileRecord, FileRef, Media, any_of, change_where, has_no_value, has_ref, inline, is_inline,
  is_known, is_known_note, is_note, is_pending, is_pending_file, is_ref_of, is_soft_deleted,
  mark_all_deleted, referenced, with_files, with_refs,
}
use mentis_eterna.Media.Service.{
  clear_pending, commit_orphans, file_ids, insert_inline_ref, insert_inline_refs, is_orphaned_file,
  is_pending_of, no_longer_pending, orphaned_file_ids, reconcile_inline_refs,
}
use mentis_eterna.Media.Rows.{any_of-append, any_of_not-change_where}
use mentis_eterna.Media.Consistent.{
  Consistent, Consistent-keep_if, Consistent-mark_all_deleted, IsConsistent,
  enqueue_deletes-IsConsistent, is_known-change_where, is_soft_deleted-change_where,
}

abbrev pub is_pending_elsewhere : ℕ → ℕ → FileRecord → Bool
is_pending_elsewhere note id f =
    f.id == id
    && not (has_no_value f.pending_inline_note_id)
    && not (is_note note f.pending_inline_note_id)

-- A file that a body may name: it is not deleted, and does not wait for another note.
abbrev pub IsFit : ℕ → List FileRecord → ℕ → Type 0
IsFit note files id =
    (is_soft_deleted id files ≡ false) × (any_of (is_pending_elsewhere note id) files ≡ false)

-- What holds of the tables, if there are any.
abbrev pub OnSome : (Media → Type 0) → Option Media → Type 0
OnSome P none = Unit
OnSome P (some m) = P m

pub All-file_ids :
    (P : ℕ → Type 0) (p : FileRecord → Bool) (files : List FileRecord)
    → ((f : FileRecord) → Memᴰ f files → p f ≡ true → P f.id)
    → All P (file_ids (keep_if p files))
All-file_ids P p [] h = tt
All-file_ids P p (f ∷ files) h = elim (Bool-cases (p f)) [
  | inl e ↦ rw e (h f (Memᴰ.head refl) e, All-file_ids P p files (λ g m. h g (Memᴰ.tail m)))
  | inr e ↦ rw e (All-file_ids P p files (λ g m. h g (Memᴰ.tail m)))
]

pub any_of-mem :
    (q : FileRecord → Bool) (f : FileRecord) (files : List FileRecord)
    → Memᴰ f files
    → q f ≡ true
    → any_of q files ≡ true
any_of-mem q f [] m h = elim m [ ]
any_of-mem q f (g ∷ files) (Memᴰ.head e) h = ground (arith, ap q (sym e) ∙ h)
any_of-mem q f (g ∷ files) (Memᴰ.tail m) h = ground (arith, any_of-mem q f files m h)

-- Cleared for this note, a file that waits for no other waits no longer.
not_pending_cleared :
    (note id : ℕ) (files : List FileRecord)
    → any_of (is_pending_elsewhere note id) files ≡ false
    → is_pending id (change_where (is_pending_of note id) clear_pending files) ≡ false
unfolding is_pending
not_pending_cleared note id [] h = refl
not_pending_cleared note id (f ∷ files) h =
    let rest : any_of (is_pending_elsewhere note id) files ≡ false = ground (arith, h) in
    ground (arith, h, not_pending_cleared note id files rest)

pub cleared_pending :
    (note id j : ℕ) (files : List FileRecord)
    → is_pending j files ≡ false
    → is_pending j (change_where (is_pending_of note id) clear_pending files) ≡ false
unfolding is_pending
cleared_pending note id j files h =
    any_of_not-change_where (is_pending_file j) (is_pending_of note id) clear_pending files
      (λ x e k. ground (arith, k)) h

IsFit-cleared :
    (note id j : ℕ) (files : List FileRecord)
    → IsFit note files j
    → IsFit note (change_where (is_pending_of note id) clear_pending files) j
unfolding is_soft_deleted
IsFit-cleared note id j files h = (
  is_soft_deleted-change_where (is_pending_of note id) clear_pending files (λ x. refl) (λ x. refl) j
      ∙ h.0,
  any_of_not-change_where (is_pending_elsewhere note j) (is_pending_of note id) clear_pending files
      (λ x e k. ground (arith, k)) h.1,
)

-- A reference to a file that fits, and the file no longer waits.
Consistent-inserted :
    (note id : ℕ) (files : List FileRecord) (refs more : List FileRef) (last_id : ℕ)
    → ((j : ℕ) → referenced j more ≡ true → (referenced j refs ≡ true) ⊎ (j ≡ id))
    → is_known id files ≡ true
    → IsFit note files id
    → Consistent files refs last_id
    → Consistent (change_where (is_pending_of note id) clear_pending files) more last_id
Consistent-inserted note id files refs more last_id new there fit h = record {
  bounded = λ j e. h.bounded j (sym (known_same j) ∙ e);
  known = λ j e. known_same j ∙ elim (new j e) [
    | inl old ↦ h.known j old
    | inr same ↦ subst (λ k. is_known k files ≡ true) (sym same) there
  ];
  alive = λ j e. deleted_same j ∙ elim (new j e) [
    | inl old ↦ h.alive j old
    | inr same ↦ subst (λ k. is_soft_deleted k files ≡ false) (sym same) fit.0
  ];
  unreferenced = λ j e. elim (Bool-cases (referenced j more)) [
    | inr k ↦ k
    | inl k ↦ absurd (elim (new j k) [
      | inl old ↦ elim (Bool-cases (is_pending j files)) [
        | inl p ↦ false≢true (sym (h.unreferenced j p) ∙ old)
        | inr p ↦ false≢true (sym (cleared_pending note id j files p) ∙ e)
      ]
      | inr same ↦ false≢true (
          sym (not_pending_cleared note id files fit.1)
          ∙ subst
              (λ k. is_pending k (change_where (is_pending_of note id) clear_pending files) ≡ true)
              same e)
    ])
  ];
}
  where
    known_same :
        (j : ℕ)
        → is_known j (change_where (is_pending_of note id) clear_pending files) ≡ is_known j files
    known_same = is_known-change_where (is_pending_of note id) clear_pending files (λ x. refl)

    deleted_same :
        (j : ℕ)
        → is_soft_deleted j (change_where (is_pending_of note id) clear_pending files)
          ≡ is_soft_deleted j files
    deleted_same =
        is_soft_deleted-change_where (is_pending_of note id) clear_pending files (λ x. refl)
          (λ x. refl)

insert_inline_ref-IsConsistent :
    (note id : ℕ) (ids : List ℕ) (m : Media)
    → All (IsFit note m.files) (id ∷ ids)
    → IsConsistent m
    → OnSome
        (λ n. All (IsFit note n.files) ids × IsConsistent n)
        (no_longer_pending note id (insert_inline_ref note id m))
unfolding insert_inline_ref referenced
insert_inline_ref-IsConsistent note id ids m fit h =
    elim (Bool-cases (is_known_note note m.notes && is_known id m.files)) [
      | inr e ↦ rw e tt
      | inl e ↦
          let there : is_known id m.files ≡ true = ground (arith, e) in
          let later = All-mono (λ j. IsFit-cleared note id j m.files) ids fit.1 in
          elim (Bool-cases (has_ref note id inline m.refs)) [
            | inl k ↦ rw e (
                rw k (
                  later,
                  Consistent-inserted note id m.files m.refs m.refs m.last_id (λ j r. inl r) there
                      fit.0 h,
                ))
            | inr k ↦
                let r : FileRef = record { note_id = note; file_id = id; ref_kind = inline } in
                rw e (
                  rw k (
                    later,
                    Consistent-inserted note id m.files m.refs (m.refs ++ r ∷ []) m.last_id
                        (λ j e. elim (Bool-cases (any_of (is_ref_of j) m.refs)) [
                          | inl old ↦ inl old
                          | inr new ↦
                              inr (
                                ground (arith, any_of-append (is_ref_of j) m.refs (r ∷ []), e, new))
                        ])
                        there fit.0 h,
                  ))
          ]
    ]

insert_inline_refs-IsConsistent :
    (note : ℕ) (ids : List ℕ) (o : Option Media)
    → OnSome (λ m. All (IsFit note m.files) ids × IsConsistent m) o
    → OnSome IsConsistent (insert_inline_refs note ids o)
unfolding insert_inline_refs
insert_inline_refs-IsConsistent note ids none h = tt
insert_inline_refs-IsConsistent note [] (some m) h = h.1
insert_inline_refs-IsConsistent note (id ∷ ids) (some m) h =
    insert_inline_refs-IsConsistent note ids
      (no_longer_pending note id (insert_inline_ref note id m))
      (insert_inline_ref-IsConsistent note id ids m h.0 h.1)

commit_orphans-IsConsistent :
    (note now : ℕ) (m : Media) (o : Option Media)
    → IsConsistent m
    → OnSome IsConsistent o
    → IsConsistent (commit_orphans note now m o).1
unfolding orphaned_file_ids is_pending
commit_orphans-IsConsistent note now m none h k = h
commit_orphans-IsConsistent note now m (some n) h k =
    let ids = orphaned_file_ids note n in
    enqueue_deletes-IsConsistent ids (with_files (mark_all_deleted now ids n.files) n) (
      Consistent-mark_all_deleted now ids n.files n.refs n.last_id
        (All-file_ids (λ id. referenced id n.refs ≡ false) (is_orphaned_file note n.refs) n.files
          (λ f there e.
            k.unreferenced f.id
              (any_of-mem (is_pending_file f.id) f n.files there (ground (arith, e)))))
        k)

pub reconcile_inline_refs-IsConsistent :
    (note : ℕ) (ids : List ℕ) (now : ℕ) (m : Media)
    → All (IsFit note m.files) ids
    → IsConsistent m
    → IsConsistent (reconcile_inline_refs note ids now m).1
unfolding reconcile_inline_refs
reconcile_inline_refs-IsConsistent note ids now m fit h =
    let refs = keep_if (λ r. not (r.note_id == note && is_inline r.ref_kind)) m.refs in
    commit_orphans-IsConsistent note now m (insert_inline_refs note ids (some (with_refs refs m))) h
      (insert_inline_refs-IsConsistent note ids (some (with_refs refs m)) (
        fit,
        Consistent-keep_if (λ r. not (r.note_id == note && is_inline r.ref_kind)) m.files m.refs
            m.last_id h,
      ))
