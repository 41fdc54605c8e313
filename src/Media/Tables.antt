-- ===== src/Media/Tables.antt =====
-- The tables `files`, `files_refs` and `file_s3` of internal/db/db.go, with the statements that
-- internal/media/service.go makes on them. A time is a number of milliseconds.
use mentis_eterna.Prelude.{
  ℕ, suc, String, Bool, true, false, not, ◌&&◌, ◌||◌, Option, none, some, List, [], ◌∷◌, ◌++◌, ◌==◌,
  nat_key, string_key, if◌then◌else◌,
}

pub data RefKind : Type 0 where
  attachment inline : RefKind

pub data ReplicaState : Type 0 where
  uploading uploaded upload_failed deleting deleted delete_failed : ReplicaState

-- A row of `files`, without the keys and the digest of the plaintext.
pub record FileRecord : Type 0 where
  pub id : ℕ
  pub original_note_id : Option ℕ
  pub pending_inline_note_id : Option ℕ
  pub pending_inline_at : Option ℕ
  pub storage_key : String
  pub filename : String
  pub mime_type : String
  pub size_bytes : ℕ
  pub ciphertext_sha256 : String
  pub deleted_at : Option ℕ

pub record FileRef : Type 0 where
  pub note_id : ℕ
  pub file_id : ℕ
  pub ref_kind : RefKind

pub record S3ReplicaRecord : Type 0 where
  pub file_id : ℕ
  pub endpoint_id : String
  pub state : ReplicaState
  pub etag : Option String
  pub last_error : Option String
  pub retry_count : ℕ
  pub next_retry_at : Option ℕ

-- What `EnqueueFunc` is given.
pub data MediaJob : Type 0 where
  delete_file_replica : ℕ → MediaJob
  repair_file_replica : ℕ → String → MediaJob

-- The tables, the ids of the notes, the last id of a file, and the jobs enqueued.
pub record Media : Type 0 where
  pub notes : List ℕ
  pub files : List FileRecord
  pub refs : List FileRef
  pub replicas : List S3ReplicaRecord
  pub last_id : ℕ
  pub jobs : List MediaJob

module _ {A : Type 0} where
  abbrev pub any_of : (A → Bool) → List A → Bool
  any_of p [] = false
  any_of p (x ∷ xs) = p x || any_of p xs

  -- COUNT(*) … WHERE ….
  abbrev pub count_of : (A → Bool) → List A → ℕ
  count_of p [] = 0
  count_of p (x ∷ xs) = let rest = count_of p xs in if p x then suc rest else rest

  -- UPDATE … SET … WHERE ….
  abbrev pub change_where : (A → Bool) → (A → A) → List A → List A
  change_where p f [] = []
  change_where p f (x ∷ xs) = (if p x then f x else x) ∷ change_where p f xs

abbrev pub is_inline : RefKind → Bool
is_inline inline = true
is_inline attachment = false

abbrev pub same_kind : RefKind → RefKind → Bool
same_kind inline kind = is_inline kind
same_kind attachment kind = not (is_inline kind)

abbrev pub has_no_value : Option ℕ → Bool
has_no_value none = true
has_no_value (some v) = false

-- `column = ?`, which no NULL is.
abbrev pub is_note : ℕ → Option ℕ → Bool
is_note note none = false
is_note note (some n) = n == note

abbrev pub is_file : ℕ → FileRecord → Bool
is_file id f = f.id == id

abbrev pub is_ref : ℕ → ℕ → RefKind → FileRef → Bool
is_ref note file kind r = r.note_id == note && r.file_id == file && same_kind r.ref_kind kind

abbrev pub is_ref_of : ℕ → FileRef → Bool
is_ref_of file r = r.file_id == file

unfoldable pub has_ref : ℕ → ℕ → RefKind → List FileRef → Bool
has_ref note file kind refs = any_of (is_ref note file kind) refs

unfoldable pub referenced : ℕ → List FileRef → Bool
referenced file refs = any_of (is_ref_of file) refs

unfoldable pub ref_count : ℕ → List FileRef → ℕ
ref_count file refs = count_of (is_ref_of file) refs

-- `deleted_at` of a file is set.
abbrev pub is_deleted_file : ℕ → FileRecord → Bool
is_deleted_file id f = f.id == id && not (has_no_value f.deleted_at)

abbrev pub is_pending_file : ℕ → FileRecord → Bool
is_pending_file id f = f.id == id && not (has_no_value f.pending_inline_note_id)

unfoldable pub is_soft_deleted : ℕ → List FileRecord → Bool
is_soft_deleted id files = any_of (is_deleted_file id) files

unfoldable pub is_pending : ℕ → List FileRecord → Bool
is_pending id files = any_of (is_pending_file id) files

unfoldable pub is_known : ℕ → List FileRecord → Bool
is_known id files = any_of (is_file id) files

abbrev pub is_known_note : ℕ → List ℕ → Bool
is_known_note note notes = any_of (λ n. n == note) notes

abbrev pub with_refs : List FileRef → Media → Media
with_refs refs m = record m { refs = refs }

abbrev pub with_files : List FileRecord → Media → Media
with_files files m = record m { files = files }

abbrev pub set_deleted : ℕ → FileRecord → FileRecord
set_deleted now f = record f { deleted_at = some now }

-- UPDATE files SET deleted_at = ? WHERE id = ?.
unfoldable pub mark_deleted : ℕ → ℕ → List FileRecord → List FileRecord
mark_deleted now id = change_where (is_file id) (set_deleted now)

abbrev pub mark_all_deleted : ℕ → List ℕ → List FileRecord → List FileRecord
mark_all_deleted now [] files = files
mark_all_deleted now (id ∷ ids) files = mark_all_deleted now ids (mark_deleted now id files)

abbrev pub add_job : MediaJob → Media → Media
add_job job m = record m { jobs = m.jobs ++ job ∷ [] }

unfoldable pub enqueue_delete : ℕ → Media → Media
enqueue_delete id = add_job (delete_file_replica id)

unfoldable pub enqueue_repair : ℕ → String → Media → Media
enqueue_repair id endpoint = add_job (repair_file_replica id endpoint)

abbrev pub enqueue_deletes : List ℕ → Media → Media
enqueue_deletes [] m = m
enqueue_deletes (id ∷ ids) m =
    enqueue_deletes ids (record m { jobs = m.jobs ++ delete_file_replica id ∷ [] })
