-- ===== src/Media/Saved.antt =====
-- What a save may do to the invariant: nothing but to the files that its body names.
use mathlib.Core.Bool.{false≢true}
use mentis_eterna.Prelude.{
  ==_refl, Bool, Bool-cases, List, Option, [], ap, arith, false, inl, inr, none, refl, some, subst,
  sym, true, ℕ, ◌&&◌, ◌++◌, ◌==◌, ◌∙◌, ◌∷◌, ◌≡◌, ◌≤◌, ◌⊎◌, nat_key, string_key,
}
use mentis_eterna.Media.Tables.{
  FileRecord, FileRef, Media, any_of, change_where, has_ref, inline, is_known, is_known_note,
  is_pending, is_ref_of, is_soft_deleted, referenced, with_files, with_refs,
}
use mentis_eterna.Media.Service.{
  clear_pending, insert_inline_ref, insert_inline_refs, is_pending_of, no_longer_pending,
}
use mentis_eterna.Media.Rows.{any_of-append}
use mentis_eterna.Media.Consistent.{is_known-change_where, is_soft_deleted-change_where}
use mentis_eterna.Media.Reconcile.{OnSome, cleared_pending}
use mentis_eterna.Media.Inline.{names}

-- The invariant but for some files, which may be referenced although they are deleted or wait.
pub record ConsistentBut (named : ℕ → Bool) (files : List FileRecord) (refs : List FileRef)
    (last_id : ℕ) : Type 0 where
  pub bounded : (id : ℕ) → is_known id files ≡ true → id ≤ last_id
  pub known : (id : ℕ) → referenced id refs ≡ true → is_known id files ≡ true
  pub alive :
      (id : ℕ) → named id ≡ false → referenced id refs ≡ true → is_soft_deleted id files ≡ false
  pub unreferenced :
      (id : ℕ) → named id ≡ false → is_pending id files ≡ true → referenced id refs ≡ false

abbrev pub IsConsistentBut : (ℕ → Bool) → Media → Type 0
IsConsistentBut named m = ConsistentBut named m.files m.refs m.last_id

-- What the insertions of references to some ids make of the tables.
pub record Grows (ids : List ℕ) (m n : Media) : Type 0 where
  pub last : n.last_id ≡ m.last_id
  pub known_same : (j : ℕ) → is_known j n.files ≡ is_known j m.files
  pub deleted_same : (j : ℕ) → is_soft_deleted j n.files ≡ is_soft_deleted j m.files
  pub new :
      (j : ℕ)
      → referenced j n.refs ≡ true
      → (referenced j m.refs ≡ true) ⊎ ((names j ids ≡ true) × (is_known j m.files ≡ true))
  pub pending_before : (j : ℕ) → is_pending j n.files ≡ true → is_pending j m.files ≡ true

Grows-cleared :
    (note id : ℕ) (m : Media) (more : List FileRef)
    → is_known id m.files ≡ true
    → ((j : ℕ) → referenced j more ≡ true → (referenced j m.refs ≡ true) ⊎ (j ≡ id))
    → Grows
        (id ∷ [])
        m
        (with_files (change_where (is_pending_of note id) clear_pending m.files) (with_refs more m))
Grows-cleared note id m more there new = record {
  last = refl;
  known_same = is_known-change_where (is_pending_of note id) clear_pending m.files (λ x. refl);
  deleted_same =
      is_soft_deleted-change_where (is_pending_of note id) clear_pending m.files (λ x. refl)
        (λ x. refl);
  new = λ j e. elim (new j e) [
    | inl old ↦ inl old
    | inr same ↦ inr (
      ground (arith, ap (λ k. id == k) same, ==_refl id),
      subst (λ k. is_known k m.files ≡ true) (sym same) there,
    )
  ];
  pending_before = λ j e. elim (Bool-cases (is_pending j m.files)) [
    | inl p ↦ p
    | inr p ↦ absurd (false≢true (sym (cleared_pending note id j m.files p) ∙ e))
  ];
}

insert_inline_ref-Grows :
    (note id : ℕ) (m : Media)
    → OnSome (Grows (id ∷ []) m) (no_longer_pending note id (insert_inline_ref note id m))
unfolding insert_inline_ref referenced
insert_inline_ref-Grows note id m =
    elim (Bool-cases (is_known_note note m.notes && is_known id m.files)) [
      | inr e ↦ rw e tt
      | inl e ↦
          let there : is_known id m.files ≡ true = ground (arith, e) in
          elim (Bool-cases (has_ref note id inline m.refs)) [
            | inl k ↦ rw e (rw k (Grows-cleared note id m m.refs there (λ j r. inl r)))
            | inr k ↦
                let r : FileRef = record { note_id = note; file_id = id; ref_kind = inline } in
                rw e (
                  rw k (
                    Grows-cleared note id m (m.refs ++ r ∷ []) there (λ j e.
                      elim (Bool-cases (any_of (is_ref_of j) m.refs)) [
                        | inl old ↦ inl old
                        | inr new ↦
                            inr
                              (ground (arith, any_of-append (is_ref_of j) m.refs (r ∷ []), e, new))
                      ])))
          ]
    ]

Grows-cons :
    (id : ℕ) (ids : List ℕ) (m n p : Media)
    → Grows (id ∷ []) m n
    → Grows ids n p
    → Grows (id ∷ ids) m p
Grows-cons id ids m n p g h = record {
  last = h.last ∙ g.last;
  known_same = λ j. h.known_same j ∙ g.known_same j;
  deleted_same = λ j. h.deleted_same j ∙ g.deleted_same j;
  new = λ j e. elim (h.new j e) [
    | inl old ↦ elim (g.new j old) [
      | inl older ↦ inl older
      | inr (named, there) ↦ inr (ground (arith, named), there)
    ]
    | inr (named, there) ↦ inr (ground (arith, named), sym (g.known_same j) ∙ there)
  ];
  pending_before = λ j e. g.pending_before j (h.pending_before j e);
}

Grows-nil : (m : Media) → Grows [] m m
Grows-nil m = record {
  last = refl;
  known_same = λ j. refl;
  deleted_same = λ j. refl;
  new = λ j e. inl e;
  pending_before = λ j e. e;
}

OnSome-mono :
    (P Q : Media → Type 0) (o : Option Media) → ((m : Media) → P m → Q m) → OnSome P o → OnSome Q o
OnSome-mono P Q none f h = tt
OnSome-mono P Q (some m) f h = f m h

pub insert_inline_refs-Grows :
    (note : ℕ) (ids : List ℕ) (m : Media)
    → OnSome (Grows ids m) (insert_inline_refs note ids (some m))
unfolding insert_inline_refs
insert_inline_refs-Grows note [] m = Grows-nil m
insert_inline_refs-Grows note (id ∷ ids) m =
    go (no_longer_pending note id (insert_inline_ref note id m))
      (λ n. insert_inline_refs-Grows note ids n) (insert_inline_ref-Grows note id m)
  where
    go :
        (o : Option Media)
        → ((n : Media) → OnSome (Grows ids n) (insert_inline_refs note ids (some n)))
        → OnSome (Grows (id ∷ []) m) o
        → OnSome (Grows (id ∷ ids) m) (insert_inline_refs note ids o)
    go none rest h = tt
    go (some n) rest h =
        OnSome-mono (Grows ids n) (Grows (id ∷ ids) m) (insert_inline_refs note ids (some n))
          (λ p. Grows-cons id ids m n p h) (rest n)
