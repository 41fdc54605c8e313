-- ===== src/Media/Service.antt =====
-- The life of a file in internal/media/service.go: it is created for a note, referenced by notes, and deleted
-- where no reference is left.
use mentis_eterna.Prelude.{
  ℕ, ◌*◌, ◌-◌, Bool, true, false, not, ◌&&◌, ◌||◌, Option, none, some, List, [], ◌∷◌, ◌++◌, keep_if,
  leb, ◌==◌, nat_key, string_key, if◌then◌else◌,
}
use mentis_eterna.Media.Tables.{
  FileRecord, FileRef, Media, any_of, change_where, enqueue_delete, enqueue_deletes, has_no_value,
  has_ref, inline, is_inline, is_known, is_known_note, is_note, mark_all_deleted, mark_deleted,
  ref_count, referenced, with_files, with_refs,
}

-- `RemoveAttachment`.
unfoldable pub remove_attachment : ℕ → ℕ → ℕ → Media → Media
unfolding ref_count mark_deleted enqueue_delete
remove_attachment note file now m =
    let refs = keep_if (λ r. not (r.note_id == note && r.file_id == file)) m.refs in
    if ref_count file refs == 0
    then enqueue_delete file (with_files (mark_deleted now file m.files) (with_refs refs m))
    else with_refs refs m

-- INSERT OR IGNORE, which the primary key ignores and the foreign keys refuse.
unfoldable pub insert_inline_ref : ℕ → ℕ → Media → Option Media
unfolding has_ref is_known
insert_inline_ref note file m =
    if not (is_known_note note m.notes && is_known file m.files)
    then none
    else if has_ref note file inline m.refs
    then some m
    else some
        (with_refs (m.refs ++ record { note_id = note; file_id = file; ref_kind = inline } ∷ []) m)

abbrev pub clear_pending : FileRecord → FileRecord
clear_pending f = record f { pending_inline_note_id = none; pending_inline_at = none }

abbrev pub is_pending_of : ℕ → ℕ → FileRecord → Bool
is_pending_of note file f = f.id == file && is_note note f.pending_inline_note_id

abbrev pub no_longer_pending : ℕ → ℕ → Option Media → Option Media
no_longer_pending note file none = none
no_longer_pending note file (some m) =
    some (with_files (change_where (is_pending_of note file) clear_pending m.files) m)

-- The loop over the ids in the body.
unfoldable pub insert_inline_refs : ℕ → List ℕ → Option Media → Option Media
unfolding insert_inline_ref
insert_inline_refs note ids none = none
insert_inline_refs note [] (some m) = some m
insert_inline_refs note (file ∷ ids) (some m) =
    insert_inline_refs note ids (no_longer_pending note file (insert_inline_ref note file m))

abbrev pub is_orphaned_file : ℕ → List FileRef → FileRecord → Bool
is_orphaned_file note refs f =
    is_note note f.pending_inline_note_id
    && has_no_value f.deleted_at
    && not (has_ref note f.id inline refs)

abbrev pub file_ids : List FileRecord → List ℕ
file_ids [] = []
file_ids (f ∷ files) = f.id ∷ file_ids files

unfoldable pub orphaned_file_ids : ℕ → Media → List ℕ
unfolding has_ref
orphaned_file_ids note m = file_ids (keep_if (is_orphaned_file note m.refs) m.files)

-- What is committed, and the orphans; nothing where an insert fails.
abbrev pub commit_orphans : ℕ → ℕ → Media → Option Media → Option (List ℕ) × Media
commit_orphans note now m none = (none, m)
commit_orphans note now m (some inserted) =
    let ids = orphaned_file_ids note inserted in
    (some ids, enqueue_deletes ids (with_files (mark_all_deleted now ids inserted.files) inserted))

-- `ReconcileInlineRefs`, with the ids that `ExtractReferencedFileIDs` finds in the body.
unfoldable pub reconcile_inline_refs : ℕ → List ℕ → ℕ → Media → Option (List ℕ) × Media
unfolding insert_inline_refs orphaned_file_ids
reconcile_inline_refs note ids now m =
    let refs = keep_if (λ r. not (r.note_id == note && is_inline r.ref_kind)) m.refs in
    commit_orphans note now m (insert_inline_refs note ids (some (with_refs refs m)))

abbrev pub file_ids_of : ℕ → List FileRef → List ℕ
file_ids_of note [] = []
file_ids_of note (r ∷ refs) =
    let rest = file_ids_of note refs in if r.note_id == note then r.file_id ∷ rest else rest

-- The first row with an id; `Scan` leaves nil where there is none.
abbrev pub pending_owner : ℕ → List FileRecord → Option ℕ
pending_owner id [] = none
pending_owner id (f ∷ files) =
    if f.id == id then f.pending_inline_note_id else pending_owner id files

abbrev pub is_own_or_none : ℕ → Option ℕ → Bool
is_own_or_none note none = true
is_own_or_none note (some n) = n == note

abbrev pub is_deletable : ℕ → Media → ℕ → Bool
is_deletable note m file =
    leb (ref_count file m.refs) 1 && is_own_or_none note (pending_owner file m.files)

-- `CollectDeletableFilesAfterNoteDelete`.
unfoldable pub collect_deletable_files : ℕ → Media → List ℕ
unfolding ref_count
collect_deletable_files note m =
    let pending =
      keep_if (λ f. is_note note f.pending_inline_note_id && has_no_value f.deleted_at) m.files in
    keep_if (is_deletable note m) (file_ids_of note m.refs ++ file_ids pending)

-- `SoftDeleteFiles`.
unfoldable pub soft_delete_files : ℕ → List ℕ → Media → Media
soft_delete_files now ids m = enqueue_deletes ids (with_files (mark_all_deleted now ids m.files) m)

-- DELETE FROM notes: its references go, the files pending for it with all of theirs, and it is no longer the
-- origin of a file.
abbrev pub is_pending_for : ℕ → FileRecord → Bool
is_pending_for note f = is_note note f.pending_inline_note_id

abbrev pub forget_origin : FileRecord → FileRecord
forget_origin f = record f { original_note_id = none }

abbrev pub is_gone : ℕ → List FileRecord → ℕ → Bool
is_gone note files id = any_of (λ f. f.id == id && is_pending_for note f) files

unfoldable pub cascade_note : ℕ → Media → Media
cascade_note note m = record m {
  notes = keep_if (λ n. not (n == note)) m.notes;
  files =
      change_where (λ f. is_note note f.original_note_id) forget_origin
        (keep_if (λ f. not (is_pending_for note f)) m.files);
  refs = keep_if (λ r. not (r.note_id == note || is_gone note m.files r.file_id)) m.refs;
  replicas = keep_if (λ r. not (is_gone note m.files r.file_id)) m.replicas;
}

-- What `deleteNote` does to files: collect, delete, and mark. No such note is not found.
unfoldable pub delete_note : ℕ → ℕ → Media → Bool × Media
unfolding collect_deletable_files soft_delete_files cascade_note
delete_note note now m =
    if not (is_known_note note m.notes)
    then (false, m)
    else (true, soft_delete_files now (collect_deletable_files note m) (cascade_note note m))

abbrev pub pending_time : ℕ
pending_time = 60 * 60 * 1000

-- `pending_inline_at <= cutoff`.
abbrev pub is_at_most : ℕ → Option ℕ → Bool
is_at_most cutoff none = false
is_at_most cutoff (some t) = leb t cutoff

abbrev pub is_abandoned : ℕ → List FileRef → FileRecord → Bool
is_abandoned now refs f =
    is_at_most (now - pending_time) f.pending_inline_at
    && has_no_value f.deleted_at
    && not (referenced f.id refs)

-- `PendingInlineCleanupTask`.
unfoldable pub pending_inline_cleanup_task : ℕ → Media → Media
unfolding referenced soft_delete_files
pending_inline_cleanup_task now m =
    soft_delete_files now (file_ids (keep_if (is_abandoned now m.refs) m.files)) m
