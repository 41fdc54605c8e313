-- ===== src/Uploads/Sound.antt =====
-- The invariant of the upload sessions, and that every handler keeps it.
use mathlib.Core.Bool.{false≢true}
use mentis_eterna.Prelude.{
  All-append, ℕ, ◌<◌, String, true, false, ◌||◌, some, List, [], ◌∷◌, ◌++◌, All, All-mono,
  Bool-cases, inl, inr, ◌≡◌, refl, sym, ◌∙◌, subst, ◌==◌, ==_refl, ==→eq, nat_key, string_key,
  arith,
}
use mentis_eterna.Prelude.Maps.{
  Map, or_zero, lookup, insert, delete, lookup-insert, lookup-delete, or_zero-insert,
}
use mentis_eterna.Uploads.Sessions.{
  Session, Store, is_uploading, has_index, with_chunk, set_chunks_done,
}
use mentis_eterna.Uploads.Rows.{UniqueIds}

abbrev pub Distinct : List ℕ → Type 0
Distinct [] = Unit
Distinct (i ∷ is) = (has_index i is ≡ false) × Distinct is

-- The file of a chunk is there.
abbrev pub OnDisk : Map String (Map ℕ (List ℕ)) → String → ℕ → Type 0
OnDisk chunks id i = (bytes : List ℕ) × (lookup i (or_zero [] (lookup id chunks)) ≡ some bytes)

-- The indexes recorded are distinct and in range, and while the session is open their files are there.
pub record SoundIn (chunks : Map String (Map ℕ (List ℕ))) (s : Session) : Type 0 where
  pub distinct : Distinct s.chunks_done
  pub in_range : All (λ i. i < s.total_chunks) s.chunks_done
  pub on_disk : is_uploading s.status ≡ true → All (OnDisk chunks s.upload_id) s.chunks_done

pub record IsSound (st : Store) : Type 0 where
  pub unique : UniqueIds st.sessions
  pub sound : All (SoundIn st.chunks) st.sessions

has_index-append : (i j : ℕ) (is : List ℕ) → has_index i (is ++ j ∷ []) ≡ (has_index i is || j == i)
has_index-append i j [] = ground arith
has_index-append i j (k ∷ is) = ground (arith, has_index-append i j is)

Distinct-append :
    (i : ℕ) (is : List ℕ) → Distinct is → has_index i is ≡ false → Distinct (is ++ i ∷ [])
Distinct-append i [] d h = (refl, tt)
Distinct-append i (j ∷ is) d h =
    let rest : has_index i is ≡ false = ground (arith, h) in
    (has_index-append j i is ∙ ground (arith, d.0, h), Distinct-append i is d.1 rest)

pub Distinct-with_chunk : (i : ℕ) (is : List ℕ) → Distinct is → Distinct (with_chunk i is)
Distinct-with_chunk i is d = elim (Bool-cases (has_index i is)) [
  | inl e ↦ rw e d
  | inr e ↦ rw e (Distinct-append i is d e)
]

pub All-with_chunk :
    (P : ℕ → Type 0) (i : ℕ) (is : List ℕ) → All P is → P i → All P (with_chunk i is)
All-with_chunk P i is h k = elim (Bool-cases (has_index i is)) [
  | inl e ↦ rw e h
  | inr e ↦ rw e (All-append P is (i ∷ []) h (k, tt))
]

-- Other files stay when a chunk is written, or another directory removed.
pub OnDisk-insert :
    (chunks : Map String (Map ℕ (List ℕ))) (id other : String) (i j : ℕ) (bytes : List ℕ)
    → OnDisk chunks other j
    → OnDisk (insert id (insert i bytes (or_zero [] (lookup id chunks))) chunks) other j
OnDisk-insert chunks id other i j bytes (b, h) = elim (Bool-cases (id == other)) [
  | inl e ↦
      let same : id ≡ other = ==→eq id other e in
      elim (Bool-cases (i == j)) [
        | inl k ↦ (
          bytes,
          rw (or_zero-insert [] id other (insert i bytes (or_zero [] (lookup id chunks))) chunks)
              (rw e (rw (lookup-insert i j bytes (or_zero [] (lookup id chunks))) (rw k refl))),
        )
        | inr k ↦ (
          b,
          rw (or_zero-insert [] id other (insert i bytes (or_zero [] (lookup id chunks))) chunks) (
              rw e (
                rw (lookup-insert i j bytes (or_zero [] (lookup id chunks))) (
                  rw k
                    (subst (λ x. lookup j (or_zero [] (lookup x chunks)) ≡ some b) (sym same) h)))),
        )
      ]
  | inr e ↦ (
    b,
    rw (or_zero-insert [] id other (insert i bytes (or_zero [] (lookup id chunks))) chunks)
        (rw e h),
  )
]

pub OnDisk-delete :
    (chunks : Map String (Map ℕ (List ℕ))) (id other : String) (j : ℕ)
    → (id == other) ≡ false
    → OnDisk chunks other j
    → OnDisk (delete id chunks) other j
OnDisk-delete chunks id other j e (b, h) = (b, rw (lookup-delete id other chunks) (rw e h))

written :
    (chunks : Map String (Map ℕ (List ℕ))) (id : String) (i : ℕ) (bytes : List ℕ)
    → OnDisk (insert id (insert i bytes (or_zero [] (lookup id chunks))) chunks) id i
written chunks id i bytes = (
  bytes,
  rw (or_zero-insert [] id id (insert i bytes (or_zero [] (lookup id chunks))) chunks) (
      rw (==_refl id)
        (rw (lookup-insert i i bytes (or_zero [] (lookup id chunks))) (rw (==_refl i) refl))),
)

pub SoundIn-insert :
    (chunks : Map String (Map ℕ (List ℕ))) (id : String) (i : ℕ) (bytes : List ℕ) (s : Session)
    → SoundIn chunks s
    → SoundIn (insert id (insert i bytes (or_zero [] (lookup id chunks))) chunks) s
SoundIn-insert chunks id i bytes s h = record {
  distinct = h.distinct;
  in_range = h.in_range;
  on_disk = λ open_still.
      All-mono (λ j. OnDisk-insert chunks id s.upload_id i j bytes) s.chunks_done
        (h.on_disk open_still);
}

pub SoundIn-with_chunk :
    (chunks : Map String (Map ℕ (List ℕ))) (i : ℕ) (bytes : List ℕ) (s : Session)
    → i < s.total_chunks
    → SoundIn chunks s
    → SoundIn
        (insert s.upload_id (insert i bytes (or_zero [] (lookup s.upload_id chunks))) chunks)
        (set_chunks_done (with_chunk i s.chunks_done) s)
SoundIn-with_chunk chunks i bytes s lt h = record {
  distinct = Distinct-with_chunk i s.chunks_done h.distinct;
  in_range = All-with_chunk (λ j. j < s.total_chunks) i s.chunks_done h.in_range lt;
  on_disk = λ open_still.
      All-with_chunk _ i s.chunks_done
        (All-mono (λ j. OnDisk-insert chunks s.upload_id s.upload_id i j bytes) s.chunks_done
          (h.on_disk open_still))
        (written chunks s.upload_id i bytes);
}

-- A session that is not open keeps no promise on files.
pub SoundIn-closed :
    (chunks other : Map String (Map ℕ (List ℕ))) (s t : Session)
    → t.chunks_done ≡ s.chunks_done
    → t.total_chunks ≡ s.total_chunks
    → is_uploading t.status ≡ false
    → SoundIn chunks s
    → SoundIn other t
SoundIn-closed chunks other s t e f closed h = record {
  distinct = subst Distinct (sym e) h.distinct;
  in_range =
      subst (All (λ i. i < t.total_chunks)) (sym e)
        (subst (λ n. All (λ i. i < n) s.chunks_done) (sym f) h.in_range);
  on_disk = λ open_still. absurd (false≢true (sym closed ∙ open_still));
}

pub SoundIn-delete :
    (chunks : Map String (Map ℕ (List ℕ))) (id : String) (s : Session)
    → (id == s.upload_id) ≡ false
    → SoundIn chunks s
    → SoundIn (delete id chunks) s
SoundIn-delete chunks id s e h = record {
  distinct = h.distinct;
  in_range = h.in_range;
  on_disk = λ open_still.
      All-mono (λ j. OnDisk-delete chunks id s.upload_id j e) s.chunks_done (h.on_disk open_still);
}
