-- ===== src/Media/Inline.antt =====
-- What a save does to references, against an abstract view of them: a set for each note and kind.
use mathlib.Core.Path.{fun_ext}
use mentis_eterna.Prelude.{
  ==→eq, Bool, Bool-cases, List, Option, [], ap, arith, false, if◌then◌else◌, inl, inr, keep_if,
  nat_key, none, not, refl, some, sym, true, ℕ, ◌&&◌, ◌++◌, ◌==◌, ◌||◌, ◌∙◌, ◌∷◌, ◌≡◌, string_key,
}
use mentis_eterna.Media.Tables.{
  FileRef, Media, RefKind, any_of, attachment, change_where, delete_file_replica, enqueue_deletes,
  has_ref, inline, is_inline, is_known, is_known_note, is_ref, mark_all_deleted, same_kind,
  with_files, with_refs,
}
use mentis_eterna.Media.Service.{
  clear_pending, commit_orphans, insert_inline_ref, insert_inline_refs, is_pending_of,
  orphaned_file_ids, reconcile_inline_refs,
}
use mentis_eterna.Media.Rows.{any_of-append, any_of-dropped, any_of-kept}
use mentis_eterna.Media.Consistent.{is_known-change_where}

-- Whether a note references a file in a way.
abbrev pub RefView : Type 0
RefView = ℕ → ℕ → RefKind → Bool

abbrev pub view : Media → RefView
view m = λ note file kind. has_ref note file kind m.refs

abbrev pub names : ℕ → List ℕ → Bool
names file ids = any_of (λ id. id == file) ids

-- The inline references of a note are those that its body names.
abbrev pub set_inline : ℕ → List ℕ → RefView → RefView
set_inline note ids v =
    λ other file kind. if other == note && is_inline kind then names file ids else v other file kind

-- The abstract save: where it fails, nothing changes.
abbrev pub save_inline : Bool → ℕ → List ℕ → RefView → RefView
save_inline known note ids v =
    λ other file kind. if known then set_inline note ids v other file kind else v other file kind

-- The foreign keys of what is inserted hold.
abbrev pub all_known : ℕ → List ℕ → Media → Bool
all_known note [] m = true
all_known note (id ∷ ids) m =
    let rest = all_known note ids m in is_known_note note m.notes && is_known id m.files && rest

abbrev pub is_some : Option (List ℕ) → Bool
is_some none = false
is_some (some ids) = true

same_kind-is_inline : (a b : RefKind) → same_kind a b ≡ true → is_inline a ≡ is_inline b
same_kind-is_inline inline b h = sym h
same_kind-is_inline attachment b h = ground (arith, h)

same_kind_refl : (a : RefKind) → same_kind a a ≡ true
same_kind_refl inline = refl
same_kind_refl attachment = refl

-- A test that decides alike on all rows that pass another.
any_of-decided :
    {A : Type 0} (q p : A → Bool) (c : Bool) (xs : List A)
    → ((x : A) → q x ≡ true → p x ≡ c)
    → any_of q (keep_if p xs) ≡ (any_of q xs && c)
any_of-decided q p true xs alike = any_of-kept q p xs alike ∙ ground arith
any_of-decided q p false xs alike = any_of-dropped q p xs alike ∙ ground arith

pub has_ref-keep_if :
    (note other file : ℕ) (kind : RefKind) (refs : List FileRef)
    → has_ref other file kind (keep_if (λ r. not (r.note_id == note && is_inline r.ref_kind)) refs)
      ≡ (has_ref other file kind refs && not (other == note && is_inline kind))
unfolding has_ref
has_ref-keep_if note other file kind refs =
    any_of-decided (is_ref other file kind) (λ r. not (r.note_id == note && is_inline r.ref_kind))
      (not (other == note && is_inline kind)) refs
      (λ r e.
        let own : r.note_id ≡ other = ==→eq r.note_id other (ground (arith, e)) in
        let alike = same_kind-is_inline r.ref_kind kind (ground (arith, e)) in
        rw own (rw alike refl))

pub all_known-files :
    (note : ℕ) (ids : List ℕ) (m n : Media)
    → n.notes ≡ m.notes
    → ((id : ℕ) → is_known id n.files ≡ is_known id m.files)
    → all_known note ids n ≡ all_known note ids m
all_known-files note [] m n e f = refl
all_known-files note (id ∷ ids) m n e f =
    ground (arith, f id, all_known-files note ids m n e f, ap (is_known_note note) e)

-- What the loop over the ids gives.
abbrev pub IsInserted : ℕ → List ℕ → Media → Option Media → Type 0
IsInserted note ids m none = all_known note ids m ≡ false
IsInserted note ids m (some n) =
    (all_known note ids m ≡ true)
    × ((other file : ℕ) (kind : RefKind)
        → has_ref other file kind n.refs
          ≡ (has_ref other file kind m.refs || other == note && is_inline kind && names file ids))

is_ref-inline :
    (note id other file : ℕ) (kind : RefKind)
    → is_ref other file kind (record { note_id = note; file_id = id; ref_kind = inline })
      ≡ (other == note && is_inline kind && id == file)
is_ref-inline note id other file kind =
    ground (arith, nat_key.same_iff note other, nat_key.same_iff other note)

-- One id of the body.
has_ref-appended :
    (note id other file : ℕ) (kind : RefKind) (refs : List FileRef)
    → has_ref other file kind
        (refs ++ record { note_id = note; file_id = id; ref_kind = inline } ∷ [])
      ≡ (has_ref other file kind refs || other == note && is_inline kind && id == file)
unfolding has_ref
has_ref-appended note id other file kind refs =
    let r : FileRef = record { note_id = note; file_id = id; ref_kind = inline } in
    ground (
      arith,
      any_of-append (is_ref other file kind) refs (r ∷ []),
      is_ref-inline note id other file kind,
    )

has_ref-there :
    (note id other file : ℕ) (kind : RefKind) (refs : List FileRef)
    → has_ref note id inline refs ≡ true
    → has_ref other file kind refs
      ≡ (has_ref other file kind refs || other == note && is_inline kind && id == file)
has_ref-there note id other file attachment refs h = ground arith
has_ref-there note id other file inline refs h = elim (Bool-cases (other == note && id == file)) [
  | inl e ↦
      let same : other ≡ note = ground (arith, e) in
      let alike : file ≡ id = ground (arith, e) in rw same (rw alike (ground (arith, h)))
  | inr e ↦ ground (arith, e)
]

IsInserted-cons :
    (note id : ℕ) (ids : List ℕ) (m n : Media) (o : Option Media)
    → (is_known_note note m.notes && is_known id m.files) ≡ true
    → all_known note ids n ≡ all_known note ids m
    → ((other file : ℕ) (kind : RefKind)
        → has_ref other file kind n.refs
          ≡ (has_ref other file kind m.refs || other == note && is_inline kind && id == file))
    → IsInserted note ids n o
    → IsInserted note (id ∷ ids) m o
IsInserted-cons note id ids m n none e same view_of h = ground (arith, e, same, h)
IsInserted-cons note id ids m n (some p) e same view_of (h, k) = (
  ground (arith, e, same, h),
  λ other file kind. ground (arith, k other file kind, view_of other file kind),
)

pub insert_inline_refs-IsInserted :
    (note : ℕ) (ids : List ℕ) (m : Media)
    → IsInserted note ids m (insert_inline_refs note ids (some m))
unfolding insert_inline_refs insert_inline_ref
insert_inline_refs-IsInserted note [] m = (refl, λ other file kind. ground arith)
insert_inline_refs-IsInserted note (id ∷ ids) m =
    let cleared = change_where (is_pending_of note id) clear_pending m.files in
    let same_known =
      is_known-change_where (is_pending_of note id) clear_pending m.files (λ x. refl) in
    elim (Bool-cases (is_known_note note m.notes && is_known id m.files)) [
      | inr e ↦ rw (e, insert_inline_refs) (ground (arith, e))
      | inl e ↦ elim (Bool-cases (has_ref note id inline m.refs)) [
        | inl k ↦
            let n = with_files cleared m in
            rw (e, insert_inline_refs)
              (rw k (
                IsInserted-cons note id ids m n (insert_inline_refs note ids (some n)) e
                  (all_known-files note ids m n refl same_known)
                  (λ other file kind. has_ref-there note id other file kind m.refs k)
                  (insert_inline_refs-IsInserted note ids n)))
        | inr k ↦
            let n = with_files cleared (
              with_refs (m.refs ++ record { note_id = note; file_id = id; ref_kind = inline } ∷ [])
                m) in
            rw (e, insert_inline_refs)
              (rw k (
                IsInserted-cons note id ids m n (insert_inline_refs note ids (some n)) e
                  (all_known-files note ids m n refl same_known)
                  (λ other file kind. has_ref-appended note id other file kind m.refs)
                  (insert_inline_refs-IsInserted note ids n)))
      ]
    ]

enqueue_deletes-refs : (ids : List ℕ) (m : Media) → (enqueue_deletes ids m).refs ≡ m.refs
enqueue_deletes-refs [] m = refl
enqueue_deletes-refs (id ∷ ids) m =
    enqueue_deletes-refs ids (record m { jobs = m.jobs ++ delete_file_replica id ∷ [] })

commit_orphans-view :
    (note : ℕ) (ids : List ℕ) (now : ℕ) (m start : Media) (o : Option Media) (other file : ℕ)
    (kind : RefKind)
    → ((j l : ℕ) (k : RefKind)
        → has_ref j l k start.refs ≡ (has_ref j l k m.refs && not (j == note && is_inline k)))
    → all_known note ids start ≡ all_known note ids m
    → IsInserted note ids start o
    → let end = commit_orphans note now m o in
      (is_some end.0 ≡ all_known note ids m)
      × (view end.1 other file kind
          ≡ save_inline (all_known note ids m) note ids (view m) other file kind)
unfolding orphaned_file_ids
commit_orphans-view note ids now m start none other file kind kept same h =
    let unknown : all_known note ids m ≡ false = sym same ∙ h in (sym unknown, rw unknown refl)
commit_orphans-view note ids now m start (some n) other file kind kept same (h, k) =
    let known : all_known note ids m ≡ true = sym same ∙ h in
    let orphans = orphaned_file_ids note n in
    let stay = enqueue_deletes-refs orphans (with_files (mark_all_deleted now orphans n.files) n) in
    (sym known, rw known (rw stay (ground (arith, k other file kind, kept other file kind))))

-- A save whose body names known files makes the inline references of the note exactly those, and leaves those of
-- other notes and the attachments; if a file or the note is unknown, it fails and no reference changes.
pub reconcile_inline_refs-view :
    (note : ℕ) (ids : List ℕ) (now : ℕ) (m : Media)
    → let end = reconcile_inline_refs note ids now m in
      (is_some end.0 ≡ all_known note ids m)
      × (view end.1 ≡ save_inline (all_known note ids m) note ids (view m))
unfolding reconcile_inline_refs
reconcile_inline_refs-view note ids now m =
    let refs = keep_if (λ r. not (r.note_id == note && is_inline r.ref_kind)) m.refs in
    let start = with_refs refs m in
    let at = λ (other : ℕ) (file : ℕ) (kind : RefKind).
      commit_orphans-view note ids now m start (insert_inline_refs note ids (some start)) other file
        kind (λ j l k. has_ref-keep_if note j l k m.refs)
        (all_known-files note ids m start refl (λ id. refl))
        (insert_inline_refs-IsInserted note ids start) in
    (
      (at 0 0 inline).0,
      fun_ext (λ other. fun_ext (λ file. fun_ext (λ kind. (at other file kind).1))),
    )
