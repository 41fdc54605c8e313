-- ===== src/Media/Shared.antt =====
-- What a save does to a file that waits for it and that another note references already.
use mathlib.Core.Bool.{false≢true}
use mentis_eterna.Prelude.{
  ==_refl, ==→eq, Bool, Bool-cases, List, Option, [], ap, arith, false, inl, inr, keep_if, none,
  not, refl, some, sym, true, ℕ, ◌&&◌, ◌++◌, ◌==◌, ◌||◌, ◌∙◌, ◌∷◌, ◌≡◌, nat_key, string_key,
}
use mentis_eterna.Media.Tables.{
  FileRecord, Media, any_of, change_where, delete_file_replica, enqueue_deletes, has_no_value,
  has_ref, inline, is_deleted_file, is_file, is_inline, is_known, is_known_note, is_note,
  is_soft_deleted, mark_all_deleted, mark_deleted, set_deleted, with_files, with_refs,
}
use mentis_eterna.Media.Service.{
  clear_pending, commit_orphans, file_ids, insert_inline_ref, insert_inline_refs, is_orphaned_file,
  is_pending_of, no_longer_pending, orphaned_file_ids, reconcile_inline_refs,
}
use mentis_eterna.Media.Rows.{any_of-weaker}
use mentis_eterna.Media.Consistent.{is_known-change_where}
use mentis_eterna.Media.Reconcile.{OnSome}
use mentis_eterna.Media.Inline.{
  IsInserted, all_known, all_known-files, has_ref-keep_if, insert_inline_refs-IsInserted, names,
  reconcile_inline_refs-view,
}

-- The file waits for the next save of the note, and is not deleted.
abbrev pub waits_for : ℕ → ℕ → FileRecord → Bool
waits_for note file f =
    f.id == file && is_note note f.pending_inline_note_id && has_no_value f.deleted_at

waits_for-cleared :
    (note file id : ℕ) (files : List FileRecord)
    → (id == file) ≡ false
    → any_of (waits_for note file) files ≡ true
    → any_of (waits_for note file) (change_where (is_pending_of note id) clear_pending files) ≡ true
waits_for-cleared note file id [] apart h = h
waits_for-cleared note file id (f ∷ files) apart h = elim (Bool-cases (waits_for note file f)) [
  | inl e ↦
      let own : f.id ≡ file = ==→eq f.id file (ground (arith, e)) in
      let not_it : is_pending_of note id f ≡ false = ground (arith, apart, own) in
      rw not_it (ground (arith, e))
  | inr e ↦ ground (arith, waits_for-cleared note file id files apart (ground (arith, h, e)))
]

still_waits :
    (note file : ℕ) (ids : List ℕ) (o : Option Media)
    → names file ids ≡ false
    → OnSome (λ m. any_of (waits_for note file) m.files ≡ true) o
    → OnSome (λ m. any_of (waits_for note file) m.files ≡ true) (insert_inline_refs note ids o)
unfolding insert_inline_refs insert_inline_ref
still_waits note file ids none absent h = tt
still_waits note file [] (some m) absent h = h
still_waits note file (id ∷ ids) (some m) absent h =
    still_waits note file ids (no_longer_pending note id (insert_inline_ref note id m))
      (ground (arith, absent))
      (elim (Bool-cases (is_known_note note m.notes && is_known id m.files)) [
        | inr e ↦ rw e tt
        | inl e ↦
            let kept = waits_for-cleared note file id m.files (ground (arith, absent)) h in
            elim (Bool-cases (has_ref note id inline m.refs)) [
              | inl k ↦ rw e (rw k kept)
              | inr k ↦ rw e (rw k kept)
            ]
      ])

names-file_ids :
    (p q : FileRecord → Bool) (file : ℕ) (files : List FileRecord)
    → ((f : FileRecord) → q f ≡ true → (f.id ≡ file) × (p f ≡ true))
    → any_of q files ≡ true
    → names file (file_ids (keep_if p files)) ≡ true
names-file_ids p q file [] less h = h
names-file_ids p q file (f ∷ files) less h = elim (Bool-cases (q f)) [
  | inl e ↦ let (own, kept) = less f e in rw kept (rw own (ground (arith, ==_refl file)))
  | inr e ↦
      let rest = names-file_ids p q file files less (ground (arith, h, e)) in
      elim (Bool-cases (p f)) [ inl k ↦ rw k (ground (arith, rest)) | inr k ↦ rw k rest ]
]

is_soft_deleted-marked :
    (now id : ℕ) (files : List FileRecord)
    → is_known id files ≡ true
    → is_soft_deleted id (mark_deleted now id files) ≡ true
unfolding is_known is_soft_deleted mark_deleted
is_soft_deleted-marked now id [] h = h
is_soft_deleted-marked now id (f ∷ files) h = elim (Bool-cases (f.id == id)) [
  | inl e ↦ rw e (ground (arith, e))
  | inr e ↦
      let rest = is_soft_deleted-marked now id files (ground (arith, h, e)) in
      ground (arith, e, rest)
]

is_soft_deleted-mark_deleted :
    (now id other : ℕ) (files : List FileRecord)
    → is_soft_deleted other files ≡ true
    → is_soft_deleted other (mark_deleted now id files) ≡ true
unfolding is_soft_deleted mark_deleted
is_soft_deleted-mark_deleted now id other [] h = h
is_soft_deleted-mark_deleted now id other (f ∷ files) h =
    elim (Bool-cases (is_deleted_file other f)) [
      | inl e ↦ ground (arith, e)
      | inr e ↦
          ground (arith, is_soft_deleted-mark_deleted now id other files (ground (arith, h, e)))
    ]

pub is_soft_deleted-mark_all_deleted :
    (now file : ℕ) (ids : List ℕ) (files : List FileRecord)
    → (is_soft_deleted file files || is_known file files && names file ids) ≡ true
    → is_soft_deleted file (mark_all_deleted now ids files) ≡ true
unfolding mark_deleted
is_soft_deleted-mark_all_deleted now file [] files h = ground (arith, h)
is_soft_deleted-mark_all_deleted now file (id ∷ ids) files h =
    let known = is_known-change_where (is_file id) (set_deleted now) files (λ x. refl) file in
    is_soft_deleted-mark_all_deleted now file ids (mark_deleted now id files)
      (elim (Bool-cases (is_soft_deleted file files)) [
        | inl e ↦ ground (arith, is_soft_deleted-mark_deleted now id file files e)
        | inr e ↦ elim (Bool-cases (id == file)) [
          | inl k ↦
              let own : id ≡ file = ==→eq id file k in
              let there : is_known id files ≡ true = rw own (ground (arith, h, e)) in
              let marked = is_soft_deleted-marked now id files there in
              ground (arith, rw own at marked)
          | inr k ↦ ground (arith, known, h, e, k)
        ]
      ])

pub enqueue_deletes-files : (ids : List ℕ) (m : Media) → (enqueue_deletes ids m).files ≡ m.files
enqueue_deletes-files [] m = refl
enqueue_deletes-files (id ∷ ids) m =
    enqueue_deletes-files ids (record m { jobs = m.jobs ++ delete_file_replica id ∷ [] })

waits_is_known :
    (note file : ℕ) (files : List FileRecord)
    → any_of (waits_for note file) files ≡ true
    → is_known file files ≡ true
unfolding is_known
waits_is_known note file files =
    any_of-weaker (waits_for note file) (is_file file) files (λ f e. ground (arith, e))

commit_orphans-shared :
    (note file : ℕ) (ids : List ℕ) (now : ℕ) (m start : Media) (o : Option Media)
    → names file ids ≡ false
    → all_known note ids start ≡ true
    → has_ref note file inline start.refs ≡ false
    → IsInserted note ids start o
    → OnSome (λ n. any_of (waits_for note file) n.files ≡ true) o
    → is_soft_deleted file (commit_orphans note now m o).1.files ≡ true
unfolding orphaned_file_ids
commit_orphans-shared note file ids now m start none absent known unreferenced h w =
    absurd (false≢true (sym h ∙ known))
commit_orphans-shared note file ids now m start (some n) absent known unreferenced (h, k) w =
    let orphans = orphaned_file_ids note n in
    let not_named : has_ref note file inline n.refs ≡ false =
      ground (arith, k note file inline, unreferenced, absent) in
    let named : names file orphans ≡ true =
      names-file_ids (is_orphaned_file note n.refs) (waits_for note file) file n.files
        (λ f e.
          let own : f.id ≡ file = ==→eq f.id file (ground (arith, e)) in
          (own, rw own (ground (arith, e, not_named))))
        w in
    let there = waits_is_known note file n.files w in
    rw (enqueue_deletes-files orphans (with_files (mark_all_deleted now orphans n.files) n))
      (is_soft_deleted-mark_all_deleted now file orphans n.files (ground (arith, there, named)))

-- A file waits for the next save of a note, and another note references it meanwhile. If the body that is saved
-- does not name it, and the files that it names are known, the file is deleted and the other note still
-- references it.
pub reconcile_inline_refs-shared :
    (note other file : ℕ) (ids : List ℕ) (now : ℕ) (m : Media)
    → any_of (waits_for note file) m.files ≡ true
    → has_ref other file inline m.refs ≡ true
    → (other == note) ≡ false
    → names file ids ≡ false
    → all_known note ids m ≡ true
    → let end = (reconcile_inline_refs note ids now m).1 in
      (has_ref other file inline end.refs ≡ true) × (is_soft_deleted file end.files ≡ true)
unfolding reconcile_inline_refs
reconcile_inline_refs-shared note other file ids now m w referenced_there apart absent known =
    let refs = keep_if (λ r. not (r.note_id == note && is_inline r.ref_kind)) m.refs in
    let start = with_refs refs m in
    let seen = ap (λ v. v other file inline) (reconcile_inline_refs-view note ids now m).1 in
    let cleared : has_ref note file inline refs ≡ false =
      has_ref-keep_if note note file inline m.refs ∙ ground (arith, ==_refl note) in
    (
      seen ∙ rw known (rw apart referenced_there),
      commit_orphans-shared note file ids now m start (insert_inline_refs note ids (some start))
          absent (all_known-files note ids m start refl (λ id. refl) ∙ known) cleared
          (insert_inline_refs-IsInserted note ids start)
          (still_waits note file ids (some start) absent w),
    )
