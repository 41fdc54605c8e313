-- ===== src/Media/Replicas.antt =====
-- The creation of a file with its replicas, and the tasks that repair and delete replicas, in
-- internal/media/service.go. The object store answers an endpoint with an error or an etag; encryption has
-- given what a row needs.
use mentis_eterna.Prelude.{
  Bool, List, Option, String, [], false, if◌then◌else◌, inl, inr, keep_if, leb, ltb, none, not,
  some, suc, take, true, ℕ, ◌&&◌, ◌*◌, ◌++◌, ◌+◌, ◌==◌, ◌||◌, ◌∷◌, ◌⊎◌, nat_key, string_key,
}
use mentis_eterna.Media.Tables.{
  FileRecord, FileRef, Media, RefKind, ReplicaState, S3ReplicaRecord, any_of, attachment,
  change_where, delete_failed, deleted, has_no_value, inline, is_file, is_known_note, is_ref_of,
  mark_deleted, repair_file_replica, upload_failed, uploaded, uploading, with_files, with_refs,
}

-- What is known of a file once it is encrypted.
pub record Encrypted : Type 0 where
  pub key : String
  pub name : String
  pub mime : String
  pub size : ℕ
  pub digest : String

-- A replica's answer: the error, or the etag.
abbrev pub PutResult : Type 0
PutResult = String ⊎ String

abbrev pub is_replica : ℕ → String → S3ReplicaRecord → Bool
is_replica file endpoint r = r.file_id == file && r.endpoint_id == endpoint

abbrev pub minute : ℕ
minute = 60 * 1000

abbrev pub set_upload_failed : ℕ → String → S3ReplicaRecord → S3ReplicaRecord
set_upload_failed now e r = record r {
  state = upload_failed;
  last_error = some e;
  retry_count = suc r.retry_count;
  next_retry_at = some (now + minute);
}

abbrev pub set_uploaded : String → S3ReplicaRecord → S3ReplicaRecord
set_uploaded etag r = record r { state = uploaded; etag = some etag; next_retry_at = none }

abbrev pub set_repaired : String → S3ReplicaRecord → S3ReplicaRecord
set_repaired etag r = record r {
  state = uploaded;
  etag = some etag;
  retry_count = suc r.retry_count;
  next_retry_at = none;
}

abbrev pub on_replicas : (List S3ReplicaRecord → List S3ReplicaRecord) → Media → Media
on_replicas f m = record m { replicas = f m.replicas }

abbrev pub upload_to : ℕ → ℕ → String → PutResult → List S3ReplicaRecord → List S3ReplicaRecord
upload_to file now endpoint (inl e) =
    change_where (is_replica file endpoint) (set_upload_failed now e)
upload_to file now endpoint (inr etag) = change_where (is_replica file endpoint) (set_uploaded etag)

-- `uploadToReplicasFromFile`: each goroutine writes the row of its own endpoint.
unfoldable pub upload_to_replicas :
    ℕ → ℕ → (String → PutResult) → List String → List S3ReplicaRecord → List S3ReplicaRecord
upload_to_replicas file now put [] rows = rows
upload_to_replicas file now put (endpoint ∷ endpoints) rows =
    upload_to_replicas file now put endpoints (upload_to file now endpoint (put endpoint) rows)

abbrev pub is_failure : PutResult → Bool
is_failure (inl e) = true
is_failure (inr etag) = false

abbrev pub all_failed : (String → PutResult) → List String → Bool
all_failed put [] = true
all_failed put (endpoint ∷ endpoints) = is_failure (put endpoint) && all_failed put endpoints

abbrev pub enqueue_repairs : ℕ → (String → PutResult) → List String → Media → Media
enqueue_repairs file put [] m = m
enqueue_repairs file put (endpoint ∷ endpoints) m = enqueue_repairs file put endpoints (
    if is_failure (put endpoint)
    then record m { jobs = m.jobs ++ repair_file_replica file endpoint ∷ [] }
    else m)

-- `cleanupFailedUpload`, on the tables.
unfoldable pub cleanup_failed_upload : ℕ → ℕ → Media → Media
unfolding mark_deleted
cleanup_failed_upload file now m =
    with_files (mark_deleted now file m.files)
      (with_refs (keep_if (λ r. not (is_ref_of file r)) m.refs) m)

abbrev pub file_row : ℕ → ℕ → Encrypted → FileRecord
file_row id note e = record {
  id = id;
  original_note_id = some note;
  pending_inline_note_id = none;
  pending_inline_at = none;
  storage_key = e.key;
  filename = e.name;
  mime_type = e.mime;
  size_bytes = e.size;
  ciphertext_sha256 = e.digest;
  deleted_at = none;
}

abbrev pub new_replicas : ℕ → List String → List S3ReplicaRecord
new_replicas file [] = []
new_replicas file (endpoint ∷ endpoints) =
    record {
      file_id = file;
      endpoint_id = endpoint;
      state = uploading;
      etag = none;
      last_error = none;
      retry_count = 0;
      next_retry_at = none;
    }
    ∷ new_replicas file endpoints

abbrev pub attachment_refs : RefKind → ℕ → ℕ → List FileRef
attachment_refs inline note file = []
attachment_refs attachment note file =
    record { note_id = note; file_id = file; ref_kind = attachment } ∷ []

-- The transaction of `createFile`: the note is a foreign key and the storage key unique.
unfoldable pub insert_file :
    ℕ → RefKind → Encrypted → List String → Media → Option (FileRecord × Media)
insert_file note kind e endpoints m =
    if not (is_known_note note m.notes) || any_of (λ f. f.storage_key == e.key) m.files
    then none
    else some (
      file_row (suc m.last_id) note e,
      record m {
        files = m.files ++ file_row (suc m.last_id) note e ∷ [];
        refs = m.refs ++ attachment_refs kind note (suc m.last_id);
        replicas = m.replicas ++ new_replicas (suc m.last_id) endpoints;
        last_id = suc m.last_id;
      },
    )

abbrev pub after_insert :
    List String
    → (String → PutResult)
    → Bool
    → ℕ
    → Media
    → Option (FileRecord × Media)
    → (String ⊎ FileRecord) × Media
after_insert endpoints put aborted now m none = (inl "insert file", m)
after_insert endpoints put aborted now m (some (f, inserted)) =
    let stored = on_replicas (upload_to_replicas f.id now put endpoints) inserted in
    if aborted
    then (inl "upload aborted", cleanup_failed_upload f.id now stored)
    else if all_failed put endpoints
    then (inl "all replica uploads failed", cleanup_failed_upload f.id now stored)
    else (inr f, enqueue_repairs f.id put endpoints stored)

-- `createFile` from its transaction on; `aborted` tells whether the context was cancelled meanwhile.
unfoldable pub create_file :
    List String
    → (String → PutResult)
    → Bool
    → ℕ
    → RefKind
    → Encrypted
    → ℕ
    → Media
    → (String ⊎ FileRecord) × Media
unfolding insert_file upload_to_replicas cleanup_failed_upload
create_file endpoints put aborted note kind e now m =
    after_insert endpoints put aborted now m (insert_file note kind e endpoints m)

unfoldable pub create_attachment :
    List String
    → (String → PutResult)
    → Bool
    → ℕ
    → Encrypted
    → ℕ
    → Media
    → (String ⊎ FileRecord) × Media
unfolding create_file
create_attachment endpoints put aborted note e now m =
    create_file endpoints put aborted note attachment e now m

abbrev pub set_pending : ℕ → ℕ → FileRecord → FileRecord
set_pending note now f = record f {
  pending_inline_note_id = some note;
  pending_inline_at = some now;
}

abbrev pub make_pending : ℕ → ℕ → (String ⊎ FileRecord) × Media → (String ⊎ FileRecord) × Media
make_pending note now (inl e, m) = (inl e, m)
make_pending note now (inr f, m) = (
  inr (set_pending note now f),
  with_files (change_where (is_file f.id) (set_pending note now) m.files) m,
)

unfoldable pub create_pending_inline :
    List String
    → (String → PutResult)
    → Bool
    → ℕ
    → Encrypted
    → ℕ
    → Media
    → (String ⊎ FileRecord) × Media
unfolding create_file
create_pending_inline endpoints put aborted note e now m =
    make_pending note now (create_file endpoints put aborted note inline e now m)

-- `loadFileRecord`.
unfoldable pub load_file_record : ℕ → List FileRecord → Option FileRecord
load_file_record id [] = none
load_file_record id (f ∷ files) = if f.id == id then some f else load_file_record id files

abbrev pub contains : String → List String → Bool
contains e endpoints = any_of (λ x. x == e) endpoints

abbrev pub after_put : ℕ → String → PutResult → Media → (String ⊎ Bool) × Media
after_put file endpoint (inl e) m = (inl "repair upload", m)
after_put file endpoint (inr etag) m =
    (inr true, on_replicas (change_where (is_replica file endpoint) (set_repaired etag)) m)

abbrev pub repair_found :
    (FileRecord → Bool)
    → (String → PutResult)
    → Option FileRecord
    → String
    → Media
    → (String ⊎ Bool) × Media
repair_found has_source put none endpoint m = (inl "load file", m)
repair_found has_source put (some f) endpoint m =
    if not (has_no_value f.deleted_at)
    then (inr false, m)
    else if not (has_source f)
    then (inl "no source for repair", m)
    else after_put f.id endpoint (put endpoint) m

-- `repairReplica`: the error, or whether anything was uploaded. A source is the cache or another replica.
unfoldable pub repair_replica :
    List String
    → (FileRecord → Bool)
    → (String → PutResult)
    → ℕ
    → String
    → Media
    → (String ⊎ Bool) × Media
unfolding load_file_record
repair_replica endpoints has_source put file endpoint m =
    if not (contains endpoint endpoints)
    then (inl "unknown endpoint", m)
    else repair_found has_source put (load_file_record file m.files) endpoint m

abbrev pub is_due : ℕ → S3ReplicaRecord → Bool
is_due now r = is_upload_failed r.state && is_over r.next_retry_at
  where
    is_upload_failed : ReplicaState → Bool
    is_upload_failed upload_failed = true
    is_upload_failed _ = false

    is_over : Option ℕ → Bool
    is_over none = true
    is_over (some t) = leb t now

-- ORDER BY next_retry_at ASC, where NULL comes first.
abbrev pub retry_time : S3ReplicaRecord → ℕ
retry_time r = time_of r.next_retry_at
  where
    time_of : Option ℕ → ℕ
    time_of none = 0
    time_of (some t) = suc t

abbrev pub by_retry : S3ReplicaRecord → List S3ReplicaRecord → List S3ReplicaRecord
by_retry r [] = r ∷ []
by_retry r (s ∷ rows) =
    let rest = s ∷ by_retry r rows in
    if ltb (retry_time s) (retry_time r) then rest else r ∷ s ∷ rows

abbrev pub in_retry_order : List S3ReplicaRecord → List S3ReplicaRecord
in_retry_order [] = []
in_retry_order (r ∷ rows) = by_retry r (in_retry_order rows)

abbrev pub count_repair : (String ⊎ Bool) × Media → ℕ → ℕ × Media
count_repair (inl e, m) n = (n, m)
count_repair (inr b, m) n = (suc n, m)

abbrev pub repair_all :
    List String
    → (FileRecord → Bool)
    → (String → PutResult)
    → List S3ReplicaRecord
    → ℕ × Media
    → ℕ × Media
repair_all endpoints has_source put [] state = state
repair_all endpoints has_source put (r ∷ rows) (n, m) =
    repair_all endpoints has_source put rows
      (count_repair (repair_replica endpoints has_source put r.file_id r.endpoint_id m) n)

-- `RepairSweepTask`: how many replicas were repaired.
unfoldable pub repair_sweep_task :
    List String → (FileRecord → Bool) → (String → PutResult) → ℕ → Media → ℕ × Media
unfolding repair_replica
repair_sweep_task endpoints has_source put now m =
    repair_all endpoints has_source put (take 10 (in_retry_order (keep_if (is_due now) m.replicas)))
      (0, m)

abbrev pub delete_at : ℕ → String → Option String → List S3ReplicaRecord → List S3ReplicaRecord
delete_at file endpoint none =
    change_where (is_replica file endpoint) (λ r. record r { state = deleted })
delete_at file endpoint (some e) =
    change_where (is_replica file endpoint)
      (λ r. record r { state = delete_failed; last_error = some e })

abbrev pub delete_everywhere :
    ℕ → (String → Option String) → List String → List S3ReplicaRecord → List S3ReplicaRecord
delete_everywhere file remove [] rows = rows
delete_everywhere file remove (endpoint ∷ endpoints) rows =
    delete_everywhere file remove endpoints (delete_at file endpoint (remove endpoint) rows)

abbrev pub delete_found :
    List String → (String → Option String) → Option FileRecord → Media → Bool × Media
delete_found endpoints remove none m = (false, m)
delete_found endpoints remove (some f) m =
    (true, on_replicas (delete_everywhere f.id remove endpoints) m)

-- `deleteReplicas`: whether the file was found.
unfoldable pub delete_replicas : List String → (String → Option String) → ℕ → Media → Bool × Media
unfolding load_file_record
delete_replicas endpoints remove file m =
    delete_found endpoints remove (load_file_record file m.files) m

unfoldable pub update_file_mime_type : ℕ → String → Media → Media
update_file_mime_type file mime m =
    with_files (change_where (is_file file) (λ f. record f { mime_type = mime }) m.files) m
