-- ===== src/Media/Creation.antt =====
-- The creation of a file and the tasks on its replicas, and the invariant.
use mathlib.Core.Bool.{false≢true}
use mentis_eterna.Prelude.{
  ==→eq, Bool, Bool-cases, List, String, [], arith, false, inl, inr, keep_if, not, refl, some,
  subst, suc, sym, true, ℕ, ◌++◌, ◌==◌, ◌||◌, ◌∙◌, ◌∷◌, ◌≡◌, ◌≤◌, ◌⊎◌, nat_key, string_key,
}
use mentis_eterna.Media.Tables.{
  FileRecord, FileRef, Media, RefKind, any_of, attachment, inline, is_deleted_file, is_file,
  is_inline, is_known, is_known_note, is_pending, is_pending_file, is_ref_of, is_soft_deleted,
  referenced, repair_file_replica,
}
use mentis_eterna.Media.Replicas.{
  PutResult, Encrypted, after_insert, all_failed, attachment_refs, cleanup_failed_upload,
  create_attachment, create_file, create_pending_inline, enqueue_repairs, file_row, insert_file,
  is_failure, make_pending, new_replicas, on_replicas, set_pending, upload_to_replicas,
}
use mentis_eterna.Media.Rows.{any_of-append, any_of_not-change_where, any_of-dropped, any_of-weaker}
use mentis_eterna.Media.Consistent.{
  Consistent, Consistent-keep_if, Consistent-mark_deleted, IsConsistent, is_known-change_where,
  is_soft_deleted-change_where,
}

-- A new id is that of no row and of no reference.
fresh_id : (m : Media) → IsConsistent m → is_known (suc m.last_id) m.files ≡ false
fresh_id m h = elim (Bool-cases (is_known (suc m.last_id) m.files)) [
  | inl e ↦
      let bound : suc m.last_id ≤ m.last_id = h.bounded (suc m.last_id) e in
      absurd (omega (arith, bound))
  | inr e ↦ e
]

unknown_unreferenced :
    (id : ℕ) (m : Media)
    → is_known id m.files ≡ false
    → IsConsistent m
    → referenced id m.refs ≡ false
unknown_unreferenced id m e h = elim (Bool-cases (referenced id m.refs)) [
  | inl k ↦ absurd (false≢true (sym e ∙ h.known id k))
  | inr k ↦ k
]

unknown_not_deleted :
    (id : ℕ) (files : List FileRecord)
    → is_known id files ≡ false
    → is_soft_deleted id files ≡ false
unfolding is_known is_soft_deleted
unknown_not_deleted id files e = elim (Bool-cases (any_of (is_deleted_file id) files)) [
  | inl k ↦ absurd (
      false≢true (
        sym e ∙ any_of-weaker (is_deleted_file id) (is_file id) files (λ f g. ground (arith, g)) k))
  | inr k ↦ k
]

attachment_refs-referenced :
    (kind : RefKind) (note file id : ℕ)
    → any_of (is_ref_of id) (attachment_refs kind note file) ≡ true
    → id ≡ file
attachment_refs-referenced inline note file id h = absurd (false≢true h)
attachment_refs-referenced attachment note file id h = ground (arith, h)

-- A row is added, and its reference if it is an attachment.
insert_row-Consistent :
    (note : ℕ) (kind : RefKind) (e : Encrypted) (m : Media)
    → IsConsistent m
    → Consistent
        (m.files ++ file_row (suc m.last_id) note e ∷ [])
        (m.refs ++ attachment_refs kind note (suc m.last_id))
        (suc m.last_id)
unfolding is_known referenced is_soft_deleted is_pending
insert_row-Consistent note kind e m h =
    let id = suc m.last_id in
    let row = file_row id note e in
    let unknown = fresh_id m h in
    let unreferenced_new = unknown_unreferenced id m unknown h in
    let undeleted = unknown_not_deleted id m.files unknown in
    record {
      bounded = λ j k. elim (Bool-cases (any_of (is_file j) m.files)) [
        | inl old ↦ let bound = h.bounded j old in omega (arith, bound)
        | inr new ↦ ground (arith, any_of-append (is_file j) m.files (row ∷ []), k, new)
      ];
      known = λ j k.
          any_of-append (is_file j) m.files (row ∷ [])
          ∙ elim (Bool-cases (any_of (is_ref_of j) m.refs)) [
            | inl old ↦ ground (arith, h.known j old)
            | inr new ↦
                let same : j ≡ id = attachment_refs-referenced kind note id j (
                  ground (
                    arith,
                    any_of-append (is_ref_of j) m.refs (attachment_refs kind note id),
                    k,
                    new,
                  )) in
                ground (arith, same)
          ];
      alive = λ j k.
          any_of-append (is_deleted_file j) m.files (row ∷ [])
          ∙ elim (Bool-cases (any_of (is_ref_of j) m.refs)) [
            | inl old ↦ ground (arith, h.alive j old)
            | inr new ↦
                let same : j ≡ id = attachment_refs-referenced kind note id j (
                  ground (
                    arith,
                    any_of-append (is_ref_of j) m.refs (attachment_refs kind note id),
                    k,
                    new,
                  )) in
                rw same (ground (arith, undeleted))
          ];
      unreferenced = λ j k.
          let waiting : any_of (is_pending_file j) m.files ≡ true =
            ground (arith, any_of-append (is_pending_file j) m.files (row ∷ []), k) in
          let old = h.unreferenced j waiting in
          any_of-append (is_ref_of j) m.refs (attachment_refs kind note id)
          ∙ elim (Bool-cases (any_of (is_ref_of j) (attachment_refs kind note id))) [
            | inl new ↦
                let same : j ≡ id = attachment_refs-referenced kind note id j new in
                absurd (
                  false≢true (
                    sym unknown
                    ∙ any_of-weaker (is_pending_file id) (is_file id) m.files
                        (λ f g. ground (arith, g))
                        (subst (λ i. any_of (is_pending_file i) m.files ≡ true) same waiting)))
            | inr new ↦ ground (arith, old, new)
          ];
    }

enqueue_repairs-kept :
    (file : ℕ) (put : String → PutResult) (endpoints : List String) (m : Media)
    (P : List FileRecord → List FileRef → ℕ → Type 0)
    → P m.files m.refs m.last_id
    → let n = enqueue_repairs file put endpoints m in P n.files n.refs n.last_id
enqueue_repairs-kept file put [] m P h = h
enqueue_repairs-kept file put (endpoint ∷ endpoints) m P h =
    elim (Bool-cases (is_failure (put endpoint))) [
      | inl e ↦
          rw (e, enqueue_repairs)
            (enqueue_repairs-kept file put endpoints
              (record m { jobs = m.jobs ++ repair_file_replica file endpoint ∷ [] }) P h)
      | inr e ↦ rw (e, enqueue_repairs) (enqueue_repairs-kept file put endpoints m P h)
    ]

cleanup_failed_upload-IsConsistent :
    (file now : ℕ) (m : Media) → IsConsistent m → IsConsistent (cleanup_failed_upload file now m)
unfolding cleanup_failed_upload referenced
cleanup_failed_upload-IsConsistent file now m h =
    let p : FileRef → Bool = λ r. not (is_ref_of file r) in
    Consistent-mark_deleted now file m.files (keep_if p m.refs) m.last_id
      (any_of-dropped (is_ref_of file) p m.refs (λ r e. ground (arith, e)))
      (Consistent-keep_if p m.files m.refs m.last_id h)

-- What a creation answers: the tables are consistent, and no reference names an inline file yet.
abbrev pub IsCreated : RefKind → (String ⊎ FileRecord) × Media → Type 0
IsCreated kind (inl e, m) = IsConsistent m
IsCreated attachment (inr f, m) = IsConsistent m
IsCreated inline (inr f, m) = IsConsistent m × (referenced f.id m.refs ≡ false)

IsCreated-some :
    (kind : RefKind) (f : FileRecord) (m : Media)
    → IsConsistent m
    → (is_inline kind ≡ true → referenced f.id m.refs ≡ false)
    → IsCreated kind (inr f, m)
IsCreated-some inline f m h k = (h, k refl)
IsCreated-some attachment f m h k = h

IsCreated-IsConsistent :
    (kind : RefKind) (r : (String ⊎ FileRecord) × Media) → IsCreated kind r → IsConsistent r.1
IsCreated-IsConsistent kind (inl e, m) h = h
IsCreated-IsConsistent inline (inr f, m) h = h.0
IsCreated-IsConsistent attachment (inr f, m) h = h

after_insert-IsCreated :
    (endpoints : List String) (put : String → PutResult) (aborted : Bool) (now : ℕ) (kind : RefKind)
    (f : FileRecord) (m n : Media)
    → IsConsistent n
    → (is_inline kind ≡ true → referenced f.id n.refs ≡ false)
    → IsCreated kind (after_insert endpoints put aborted now m (some (f, n)))
after_insert-IsCreated endpoints put true now kind f m n h free =
    cleanup_failed_upload-IsConsistent f.id now
      (on_replicas (upload_to_replicas f.id now put endpoints) n) h
after_insert-IsCreated endpoints put false now kind f m n h free =
    let stored = on_replicas (upload_to_replicas f.id now put endpoints) n in
    elim (Bool-cases (all_failed put endpoints)) [
      | inl e ↦ rw e (cleanup_failed_upload-IsConsistent f.id now stored h)
      | inr e ↦ rw e (
          IsCreated-some kind f (enqueue_repairs f.id put endpoints stored)
            (enqueue_repairs-kept f.id put endpoints stored Consistent h)
            (enqueue_repairs-kept f.id put endpoints stored
              (λ files refs last. is_inline kind ≡ true → referenced f.id refs ≡ false) free))
    ]

attachment_refs-inline :
    (kind : RefKind) (note file : ℕ) → is_inline kind ≡ true → attachment_refs kind note file ≡ []
attachment_refs-inline inline note file e = refl
attachment_refs-inline attachment note file e = absurd (false≢true e)

create_file-IsCreated :
    (endpoints : List String) (put : String → PutResult) (aborted : Bool) (note : ℕ)
    (kind : RefKind) (e : Encrypted) (now : ℕ) (m : Media)
    → IsConsistent m
    → IsCreated kind (create_file endpoints put aborted note kind e now m)
unfolding create_file insert_file referenced
create_file-IsCreated endpoints put aborted note kind e now m h =
    elim (Bool-cases
      (not (is_known_note note m.notes) || any_of (λ f. f.storage_key == e.key) m.files)) [
        | inl k ↦ rw k h
        | inr k ↦ rw k (
            after_insert-IsCreated endpoints put aborted now kind (file_row (suc m.last_id) note e)
              m
              (record m {
                files = m.files ++ file_row (suc m.last_id) note e ∷ [];
                refs = m.refs ++ attachment_refs kind note (suc m.last_id);
                replicas = m.replicas ++ new_replicas (suc m.last_id) endpoints;
                last_id = suc m.last_id;
              })
              (insert_row-Consistent note kind e m h)
              (λ k.
                any_of-append (is_ref_of (suc m.last_id)) m.refs
                  (attachment_refs kind note (suc m.last_id))
                ∙ rw (attachment_refs-inline kind note (suc m.last_id) k)
                    (ground (arith, unknown_unreferenced (suc m.last_id) m (fresh_id m h) h))))
      ]

pub create_attachment-IsConsistent :
    (endpoints : List String) (put : String → PutResult) (aborted : Bool) (note : ℕ) (e : Encrypted)
    (now : ℕ) (m : Media)
    → IsConsistent m
    → IsConsistent (create_attachment endpoints put aborted note e now m).1
unfolding create_attachment
create_attachment-IsConsistent endpoints put aborted note e now m h =
    IsCreated-IsConsistent attachment (create_file endpoints put aborted note attachment e now m)
      (create_file-IsCreated endpoints put aborted note attachment e now m h)

make_pending-IsConsistent :
    (note now : ℕ) (r : (String ⊎ FileRecord) × Media)
    → IsCreated inline r
    → IsConsistent (make_pending note now r).1
unfolding is_pending
make_pending-IsConsistent note now (inl e, m) h = h
make_pending-IsConsistent note now (inr f, m) (h, free) = record {
  bounded = λ j e.
      h.bounded j (
        sym (is_known-change_where (is_file f.id) (set_pending note now) m.files (λ x. refl) j)
        ∙ e);
  known = λ j e.
      is_known-change_where (is_file f.id) (set_pending note now) m.files (λ x. refl) j
      ∙ h.known j e;
  alive = λ j e.
      is_soft_deleted-change_where (is_file f.id) (set_pending note now) m.files (λ x. refl)
        (λ x. refl) j
      ∙ h.alive j e;
  unreferenced = λ j e. elim (Bool-cases (j == f.id)) [
    | inl k ↦ subst (λ i. referenced i m.refs ≡ false) (sym (==→eq j f.id k)) free
    | inr k ↦ elim (Bool-cases (any_of (is_pending_file j) m.files)) [
      | inl old ↦ h.unreferenced j old
      | inr new ↦ absurd (
          false≢true (
            sym (
              any_of_not-change_where (is_pending_file j) (is_file f.id) (set_pending note now)
                m.files (λ x here waits. absurd (false≢true (sym k ∙ ground (arith, here, waits))))
                new)
            ∙ e))
    ]
  ];
}

pub create_pending_inline-IsConsistent :
    (endpoints : List String) (put : String → PutResult) (aborted : Bool) (note : ℕ) (e : Encrypted)
    (now : ℕ) (m : Media)
    → IsConsistent m
    → IsConsistent (create_pending_inline endpoints put aborted note e now m).1
unfolding create_pending_inline
create_pending_inline-IsConsistent endpoints put aborted note e now m h =
    make_pending-IsConsistent note now (create_file endpoints put aborted note inline e now m)
      (create_file-IsCreated endpoints put aborted note inline e now m h)
