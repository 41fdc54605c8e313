-- ===== src/Media/Deleted.antt =====
-- What a save makes of a body that names a deleted file.
use mentis_eterna.Prelude.{
  ==_refl, List, Option, ap, arith, keep_if, none, not, some, true, ℕ, ◌&&◌, ◌==◌, ◌∙◌, ◌≡◌,
  nat_key, string_key,
}
use mentis_eterna.Media.Tables.{
  FileRef, Media, has_ref, inline, is_inline, is_soft_deleted, mark_all_deleted, with_files,
  with_refs,
}
use mentis_eterna.Media.Service.{
  commit_orphans, insert_inline_refs, orphaned_file_ids, reconcile_inline_refs,
}
use mentis_eterna.Media.Reconcile.{OnSome}
use mentis_eterna.Media.Saved.{Grows, insert_inline_refs-Grows}
use mentis_eterna.Media.Inline.{all_known, names, reconcile_inline_refs-view}
use mentis_eterna.Media.Shared.{enqueue_deletes-files, is_soft_deleted-mark_all_deleted}

commit_orphans-deleted :
    (note file : ℕ) (ids : List ℕ) (now : ℕ) (m start : Media) (o : Option Media)
    → is_soft_deleted file m.files ≡ true
    → is_soft_deleted file start.files ≡ true
    → OnSome (Grows ids start) o
    → is_soft_deleted file (commit_orphans note now m o).1.files ≡ true
commit_orphans-deleted note file ids now m start none old h g = old
commit_orphans-deleted note file ids now m start (some n) old h g =
    let orphans = orphaned_file_ids note n in
    rw (enqueue_deletes-files orphans (with_files (mark_all_deleted now orphans n.files) n)) (
      is_soft_deleted-mark_all_deleted now file orphans n.files
        (ground (arith, g.deleted_same file, h)))

-- If a body names a file that is deleted, and all that it names are known, the save gives the note a
-- reference to the file, which stays deleted.
reconcile_inline_refs-deleted :
    (note file : ℕ) (ids : List ℕ) (now : ℕ) (m : Media)
    → all_known note ids m ≡ true
    → names file ids ≡ true
    → is_soft_deleted file m.files ≡ true
    → let end = (reconcile_inline_refs note ids now m).1 in
      (has_ref note file inline end.refs ≡ true) × (is_soft_deleted file end.files ≡ true)
unfolding reconcile_inline_refs
reconcile_inline_refs-deleted note file ids now m known named old =
    let kept = λ (r : FileRef). not (r.note_id == note && is_inline r.ref_kind) in
    let start = with_refs (keep_if kept m.refs) m in
    let seen = ap (λ v. v note file inline) (reconcile_inline_refs-view note ids now m).1 in
    (
      seen ∙ rw known (rw (==_refl note) named),
      commit_orphans-deleted note file ids now m start (insert_inline_refs note ids (some start))
          old old (insert_inline_refs-Grows note ids start),
    )
