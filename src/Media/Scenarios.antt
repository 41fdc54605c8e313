-- ===== src/Media/Scenarios.antt =====
-- The media service on small tables: two notes, and files that they share, wait for or leave behind.
use mentis_eterna.Prelude.{String, [], false, inl, inr, none, refl, some, true, ◌∷◌, ◌≡◌}
use mentis_eterna.Media.Tables.{
  mark_deleted, Media, attachment, delete_file_replica, has_ref, inline, is_known, is_soft_deleted,
}
use mentis_eterna.Media.Service.{delete_note, pending_inline_cleanup_task, reconcile_inline_refs}
use mentis_eterna.Media.Replicas.{
  PutResult, Encrypted, create_attachment, create_pending_inline, delete_replicas, file_row,
}
use mentis_eterna.Media.Inline.{all_known, is_some, reconcile_inline_refs-view, save_inline, view}
use mentis_eterna.Media.Shared.{reconcile_inline_refs-shared}

abbrev empty_tables : Media
empty_tables = record {
  notes = 1 ∷ 2 ∷ [];
  files = [];
  refs = [];
  replicas = [];
  last_id = 0;
  jobs = [];
}

abbrev picture : Encrypted
picture = record { key = "files/a"; name = "a.png"; mime = "image/png"; size = 5; digest = "a" }

abbrev stored : String → PutResult
stored endpoint = inr "etag"

abbrev refuses : String → PutResult
refuses endpoint = inl "refused"

-- File 1 waits for the next save of note 1.
abbrev waiting : Media
waiting = record {
  notes = 1 ∷ 2 ∷ [];
  files =
      record (file_row 1 1 picture) {
        pending_inline_note_id = some 1;
        pending_inline_at = some 100;
      }
      ∷ [];
  refs = [];
  replicas = [];
  last_id = 1;
  jobs = [];
}

-- Note 2 references it too.
abbrev shared : Media
shared = record waiting { refs = record { note_id = 2; file_id = 1; ref_kind = inline } ∷ [] }

created_waiting :
    (create_pending_inline [] stored false 1 picture 100 empty_tables).0
    ≡ inl "all replica uploads failed"
unfolding create_pending_inline
created_waiting = refl

created_file :
    (create_pending_inline ("s3" ∷ []) stored false 1 picture 100 empty_tables).1.files
    ≡ waiting.files
unfolding create_pending_inline
created_file = refl

failed_upload : (create_attachment ("s3" ∷ []) refuses false 1 picture 100 empty_tables).1.refs ≡ []
unfolding create_attachment
failed_upload = refl

-- Note 1 goes, and its waiting file with it by the foreign key; the job that is to remove the replicas finds no
-- row.
deleted_with_note :
    let end = (delete_note 1 200 waiting).1 in
    (end.files ≡ [])
    × (end.jobs ≡ delete_file_replica 1 ∷ [])
    × ((delete_replicas ("s3" ∷ []) (λ e. none) 1 end).0 ≡ false)
unfolding delete_note delete_replicas mark_deleted
deleted_with_note = (refl, refl, refl)

-- Note 1 has file 1 as an attachment and in its body.
abbrev referenced_twice : Media
referenced_twice = record waiting {
  files = file_row 1 1 picture ∷ [];
  refs =
      record { note_id = 1; file_id = 1; ref_kind = attachment }
      ∷ record { note_id = 1; file_id = 1; ref_kind = inline }
      ∷ [];
}

-- The file stays when the note goes, with no reference and no job.
left_behind :
    let end = (delete_note 1 200 referenced_twice).1 in
    (end.refs ≡ [])
    × (end.jobs ≡ [])
    × (is_soft_deleted 1 end.files ≡ false)
    × (is_known 1 end.files ≡ true)
unfolding delete_note is_soft_deleted is_known
left_behind = (refl, refl, refl, refl)

-- The body names file 1 and one that does not exist: nothing is saved, and after an hour file 1 is deleted.
unknown_file :
    ((reconcile_inline_refs 1 (1 ∷ 9 ∷ []) 200 waiting).0 ≡ none)
    × (is_soft_deleted 1
          (pending_inline_cleanup_task 4_000_000
            (reconcile_inline_refs 1 (1 ∷ 9 ∷ []) 200 waiting).1).files
        ≡ true)
unfolding reconcile_inline_refs pending_inline_cleanup_task is_soft_deleted mark_deleted
unknown_file = (refl, refl)

reconcile_inline_refs-view_example :
    let end = reconcile_inline_refs 1 (1 ∷ []) 200 waiting in
    (is_some end.0 ≡ all_known 1 (1 ∷ []) waiting)
    × (view end.1 ≡ save_inline (all_known 1 (1 ∷ []) waiting) 1 (1 ∷ []) (view waiting))
reconcile_inline_refs-view_example = reconcile_inline_refs-view 1 (1 ∷ []) 200 waiting

-- File 1 is deleted.
abbrev gone : Media
gone = record waiting { files = record (file_row 1 1 picture) { deleted_at = some 150 } ∷ [] }

-- A body that names it makes a reference to it.
deleted_is_referenced :
    let end = (reconcile_inline_refs 2 (1 ∷ []) 200 gone).1 in
    (has_ref 2 1 inline end.refs ≡ true) × (is_soft_deleted 1 end.files ≡ true)
unfolding reconcile_inline_refs is_soft_deleted has_ref mark_deleted
deleted_is_referenced = (refl, refl)

reconcile_inline_refs-shared_example :
    let end = (reconcile_inline_refs 1 [] 200 shared).1 in
    (has_ref 2 1 inline end.refs ≡ true) × (is_soft_deleted 1 end.files ≡ true)
unfolding has_ref
reconcile_inline_refs-shared_example =
    reconcile_inline_refs-shared 1 2 1 [] 200 shared refl refl refl refl refl
