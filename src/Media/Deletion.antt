-- ===== src/Media/Deletion.antt =====
-- The deletions of references, notes and abandoned files, and the invariant.
use mathlib.Core.Bool.{false≢true}
use mathlib.Core.List.{Memᴰ}
use mentis_eterna.Prelude.{
  All-append, All-kept, ==_refl, ==→eq, All, Bool, Bool-cases, List, [], ap, arith, false, inl, inr,
  keep_if, not, refl, subst, sym, true, ℕ, ◌&&◌, ◌++◌, ◌<◌, ◌==◌, ◌||◌, ◌∙◌, ◌∷◌, ◌≡◌, ◌≤◌, nat_key,
  string_key,
}
use mentis_eterna.Media.Tables.{
  is_known_note, FileRecord, FileRef, Media, any_of, count_of, enqueue_delete, has_no_value,
  is_deleted_file, is_file, is_known, is_note, is_pending, is_pending_file, is_ref_of,
  is_soft_deleted, mark_all_deleted, ref_count, referenced, with_files,
}
use mentis_eterna.Media.Service.{
  cascade_note, collect_deletable_files, delete_note, file_ids_of, forget_origin, file_ids,
  is_abandoned, is_deletable, is_gone, is_pending_for, pending_inline_cleanup_task,
  remove_attachment, soft_delete_files,
}
use mentis_eterna.Media.Rows.{any_of-change_where, any_of-keep_if, count_of-dropped, count_of-zero}
use mentis_eterna.Media.Consistent.{
  Consistent-keep_if, Consistent-mark_all_deleted, Consistent-mark_deleted, IsConsistent,
  enqueue_deletes-IsConsistent, is_known-change_where, is_soft_deleted-change_where,
}
use mentis_eterna.Media.Reconcile.{any_of-mem, All-file_ids}

pub remove_attachment-IsConsistent :
    (note file now : ℕ) (m : Media)
    → IsConsistent m
    → IsConsistent (remove_attachment note file now m)
unfolding remove_attachment ref_count enqueue_delete referenced
remove_attachment-IsConsistent note file now m h =
    let p : FileRef → Bool = λ r. not (r.note_id == note && r.file_id == file) in
    let fewer = Consistent-keep_if p m.files m.refs m.last_id h in
    elim (Bool-cases (ref_count file (keep_if p m.refs) == 0)) [
      | inl e ↦ rw e (
          Consistent-mark_deleted now file m.files (keep_if p m.refs) m.last_id
            (count_of-zero (is_ref_of file) (keep_if p m.refs)
              (==→eq (ref_count file (keep_if p m.refs)) 0 e))
            fewer)
      | inr e ↦ rw e fewer
    ]

pub soft_delete_files-IsConsistent :
    (now : ℕ) (ids : List ℕ) (m : Media)
    → All (λ id. referenced id m.refs ≡ false) ids
    → IsConsistent m
    → IsConsistent (soft_delete_files now ids m)
unfolding soft_delete_files
soft_delete_files-IsConsistent now ids m free h =
    enqueue_deletes-IsConsistent ids (with_files (mark_all_deleted now ids m.files) m)
      (Consistent-mark_all_deleted now ids m.files m.refs m.last_id free h)

pub pending_inline_cleanup_task-IsConsistent :
    (now : ℕ) (m : Media) → IsConsistent m → IsConsistent (pending_inline_cleanup_task now m)
unfolding pending_inline_cleanup_task
pending_inline_cleanup_task-IsConsistent now m h =
    soft_delete_files-IsConsistent now (file_ids (keep_if (is_abandoned now m.refs) m.files)) m
      (All-file_ids (λ id. referenced id m.refs ≡ false) (is_abandoned now m.refs) m.files
        (λ f there e. ground (arith, e)))
      h

-- A row with an id stays, unless a row with the id goes.
is_known-kept :
    (note id : ℕ) (files : List FileRecord)
    → is_known id files ≡ true
    → is_gone note files id ≡ false
    → is_known id (keep_if (λ f. not (is_pending_for note f)) files) ≡ true
unfolding is_known
is_known-kept note id [] h gone = h
is_known-kept note id (f ∷ files) h gone = elim (Bool-cases (f.id == id)) [
  | inl e ↦
      let stays : is_pending_for note f ≡ false = ground (arith, e, gone) in
      rw stays (ground (arith, e))
  | inr e ↦
      let rest = is_known-kept note id files (ground (arith, e, h)) (ground (arith, gone)) in
      elim (Bool-cases (is_pending_for note f)) [
        | inl k ↦ rw k rest
        | inr k ↦ rw k (ground (arith, rest))
      ]
]

not_gone :
    (note id : ℕ) (files : List FileRecord) (refs : List FileRef)
    → referenced id (keep_if (λ r. not (r.note_id == note || is_gone note files r.file_id)) refs)
      ≡ true
    → is_gone note files id ≡ false
unfolding referenced
not_gone note id files [] h = absurd (false≢true h)
not_gone note id files (r ∷ refs) h =
    elim (Bool-cases (r.note_id == note || is_gone note files r.file_id)) [
      | inl e ↦ not_gone note id files refs (rw e at h)
      | inr e ↦ elim (Bool-cases (r.file_id == id)) [
        | inl k ↦
            subst (λ j. is_gone note files j ≡ false) (==→eq r.file_id id k) (ground (arith, e))
        | inr k ↦ not_gone note id files refs (ground (arith, rw e at h, k))
      ]
    ]

pub cascade_note-IsConsistent :
    (note : ℕ) (m : Media) → IsConsistent m → IsConsistent (cascade_note note m)
unfolding cascade_note is_known is_pending is_soft_deleted
cascade_note-IsConsistent note m h =
    let p : FileRef → Bool = λ r. not (r.note_id == note || is_gone note m.files r.file_id) in
    let origin : FileRecord → Bool = λ f. is_note note f.original_note_id in
    let stays : FileRecord → Bool = λ f. not (is_pending_for note f) in
    let files = keep_if stays m.files in
    let fewer = Consistent-keep_if p m.files m.refs m.last_id h in
    let same = is_known-change_where origin forget_origin files (λ x. refl) in
    record {
      bounded =
          λ id e. h.bounded id (any_of-keep_if (is_file id) stays m.files (sym (same id) ∙ e));
      known = λ id e.
          same id
          ∙ is_known-kept note id m.files (fewer.known id e) (not_gone note id m.files m.refs e);
      alive = λ id e.
          is_soft_deleted-change_where origin forget_origin files (λ x. refl) (λ x. refl) id
          ∙ elim (Bool-cases (any_of (is_deleted_file id) files)) [
            | inl k ↦ absurd (
                false≢true
                  (sym (fewer.alive id e) ∙ any_of-keep_if (is_deleted_file id) stays m.files k))
            | inr k ↦ k
          ];
      unreferenced = λ id e. fewer.unreferenced id (
          any_of-keep_if (is_pending_file id) stays m.files (
            sym (any_of-change_where (is_pending_file id) origin forget_origin files (λ x. refl))
            ∙ e));
    }

-- Of a file that the note alone references, once, no reference is left.
file_ids_of-All :
    (P : ℕ → Type 0) (note : ℕ) (refs : List FileRef)
    → ((r : FileRef) → Memᴰ r refs → r.note_id == note ≡ true → P r.file_id)
    → All P (file_ids_of note refs)
file_ids_of-All P note [] h = tt
file_ids_of-All P note (r ∷ refs) h = elim (Bool-cases (r.note_id == note)) [
  | inl e ↦ rw e (h r (Memᴰ.head refl) e, file_ids_of-All P note refs (λ s m. h s (Memᴰ.tail m)))
  | inr e ↦ rw e (file_ids_of-All P note refs (λ s m. h s (Memᴰ.tail m)))
]

any_of-mem_ref :
    (q : FileRef → Bool) (r : FileRef) (refs : List FileRef)
    → Memᴰ r refs
    → q r ≡ true
    → any_of q refs ≡ true
any_of-mem_ref q r [] m h = elim m [ ]
any_of-mem_ref q r (s ∷ refs) (Memᴰ.head e) h = ground (arith, ap q (sym e) ∙ h)
any_of-mem_ref q r (s ∷ refs) (Memᴰ.tail m) h = ground (arith, any_of-mem_ref q r refs m h)

only_here :
    (note : ℕ) (m : Media) (r : FileRef)
    → Memᴰ r m.refs
    → (r.note_id == note) ≡ true
    → is_deletable note m r.file_id ≡ true
    → referenced r.file_id (cascade_note note m).refs ≡ false
unfolding cascade_note ref_count referenced
only_here note m r there own deletable =
    let p : FileRef → Bool = λ s. not (s.note_id == note || is_gone note m.files s.file_id) in
    let one : count_of (is_ref_of r.file_id) m.refs ≤ 1 = ground (arith, deletable) in
    let fewer : count_of (is_ref_of r.file_id) (keep_if p m.refs)
        < count_of (is_ref_of r.file_id) m.refs =
      count_of-dropped (is_ref_of r.file_id) p m.refs (
        any_of-mem_ref (λ s. is_ref_of r.file_id s && not (p s)) r m.refs there
          (ground (arith, own, ==_refl r.file_id))) in
    count_of-zero (is_ref_of r.file_id) (keep_if p m.refs) (omega (arith, one, fewer))

collected :
    (note : ℕ) (m : Media)
    → IsConsistent m
    → All
        (λ id. is_deletable note m id ≡ true → referenced id (cascade_note note m).refs ≡ false)
        (file_ids_of note m.refs
          ++ file_ids (
              keep_if
                (λ f. is_note note f.pending_inline_note_id && has_no_value f.deleted_at)
                m.files))
unfolding is_pending cascade_note referenced
collected note m h =
    let p : FileRef → Bool = λ r. not (r.note_id == note || is_gone note m.files r.file_id) in
    All-append
      (λ id. is_deletable note m id ≡ true → referenced id (cascade_note note m).refs ≡ false)
      (file_ids_of note m.refs)
      (file_ids
        (keep_if (λ f. is_note note f.pending_inline_note_id && has_no_value f.deleted_at) m.files))
      (file_ids_of-All
        (λ id. is_deletable note m id ≡ true → referenced id (cascade_note note m).refs ≡ false)
        note m.refs (λ r there own. only_here note m r there own))
      (All-file_ids
        (λ id. is_deletable note m id ≡ true → referenced id (cascade_note note m).refs ≡ false)
        (λ f. is_note note f.pending_inline_note_id && has_no_value f.deleted_at) m.files
        (λ f there e deletable. elim (Bool-cases (any_of (is_ref_of f.id) (keep_if p m.refs))) [
          | inl k ↦ absurd (
              false≢true (
                sym (
                  h.unreferenced f.id
                    (any_of-mem (is_pending_file f.id) f m.files there (ground (arith, e))))
                ∙ any_of-keep_if (is_ref_of f.id) p m.refs k))
          | inr k ↦ k
        ]))

pub delete_note-IsConsistent :
    (note now : ℕ) (m : Media) → IsConsistent m → IsConsistent (delete_note note now m).1
unfolding delete_note collect_deletable_files
delete_note-IsConsistent note now m h = elim (Bool-cases (is_known_note note m.notes)) [
  | inl e ↦ rw e (
      soft_delete_files-IsConsistent now (collect_deletable_files note m) (cascade_note note m)
        (All-kept
          (λ id. is_deletable note m id ≡ true → referenced id (cascade_note note m).refs ≡ false)
          (λ id. referenced id (cascade_note note m).refs ≡ false) (is_deletable note m)
          (file_ids_of note m.refs
            ++ file_ids (
                keep_if (λ f. is_note note f.pending_inline_note_id && has_no_value f.deleted_at)
                  m.files))
          (λ id k f. f k) (collected note m h))
        (cascade_note-IsConsistent note m h))
  | inr e ↦ rw e h
]
