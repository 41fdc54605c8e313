-- ===== src/TaskOverview/Latest.antt =====
-- The latest generation after a daily selection is stored.
use mentis_eterna.Prelude.{
  ℕ, suc, String, Bool, true, false, Option, some, List, [], ◌∷◌, ◌++◌, All, keep_if, Bool-cases,
  inl, inr, ◌≡◌, ◌≢◌, refl, ap, ◌∙◌, ==_ne, string_key, arith,
}
use mentis_eterna.Prelude.Integers.{ℤ, pos, negsuc, is_same}
use mentis_eterna.TaskOverview.Daily.{
  DailyRow, is_before, row_before, later_row, last_row, new_rows,
}

pub is_same_refl : (z : ℤ) → is_same z z ≡ true
is_same_refl (pos n) = ground arith
is_same_refl (negsuc n) = ground arith

pub keep_if-append :
    (p : DailyRow → Bool) (xs ys : List DailyRow)
    → keep_if p (xs ++ ys) ≡ keep_if p xs ++ keep_if p ys
keep_if-append p [] ys = refl
keep_if-append p (x ∷ xs) ys = elim (Bool-cases (p x)) [
  | inl e ↦ rw e (ap (λ l. x ∷ l) (keep_if-append p xs ys))
  | inr e ↦ rw e (keep_if-append p xs ys)
]

pub keep_if-every :
    (p : DailyRow → Bool) (xs : List DailyRow) → All (λ r. p r ≡ true) xs → keep_if p xs ≡ xs
keep_if-every p [] h = refl
keep_if-every p (x ∷ xs) h = rw h.0 (ap (λ l. x ∷ l) (keep_if-every p xs h.1))

pub keep_if-none :
    (p : DailyRow → Bool) (xs : List DailyRow) → All (λ r. p r ≡ false) xs → keep_if p xs ≡ []
keep_if-none p [] h = refl
keep_if-none p (x ∷ xs) h = rw h.0 (keep_if-none p xs h.1)

-- A generation that comes after a row: its time is later and its id is another.
abbrev pub ComesAfter : String → String → DailyRow → Type 0
ComesAfter generation assigned r =
    (r.assigned_at ≢ assigned)
    × (is_before r.assigned_at assigned ≡ true)
    × (r.generation_id ≢ generation)

-- A row of the generation.
abbrev pub IsNew : ℤ → String → String → DailyRow → Type 0
IsNew overview generation assigned r =
    (r.overview_note_id ≡ overview) × (r.generation_id ≡ generation) × (r.assigned_at ≡ assigned)

pub new_rows-IsNew :
    (overview : ℤ) (generation assigned : String) (idx : ℕ) (tasks : List ℤ)
    → All (IsNew overview generation assigned) (new_rows overview generation assigned idx tasks)
unfolding new_rows
new_rows-IsNew overview generation assigned idx [] = tt
new_rows-IsNew overview generation assigned idx (t ∷ tasks) =
    ((refl, refl, refl), new_rows-IsNew overview generation assigned (suc idx) tasks)

abbrev pub LastIsNew : ℤ → String → String → Option DailyRow → Type 0
LastIsNew overview generation assigned o =
    (r : DailyRow) × (o ≡ some r) × IsNew overview generation assigned r

later_row-IsNew :
    (overview : ℤ) (generation assigned : String) (r q : DailyRow)
    → IsNew overview generation assigned r
    → IsNew overview generation assigned q
    → IsNew overview generation assigned (later_row r (some q))
later_row-IsNew overview generation assigned r q h k = elim (Bool-cases (row_before r q)) [
  | inl e ↦ rw e k
  | inr e ↦ rw e h
]

last_row-new :
    (overview : ℤ) (generation assigned : String) (x : DailyRow) (rows : List DailyRow)
    → All (IsNew overview generation assigned) (x ∷ rows)
    → LastIsNew overview generation assigned (last_row (x ∷ rows))
unfolding last_row
last_row-new overview generation assigned x [] h = (x, refl, h.0)
last_row-new overview generation assigned x (y ∷ rows) h =
    let (q, e, k) = last_row-new overview generation assigned y rows h.1 in
    (
      later_row x (some q),
      ap (λ o. some (later_row x o)) e,
      later_row-IsNew overview generation assigned x q h.0 k,
    )

row_before-new :
    (overview : ℤ) (generation assigned : String) (r q : DailyRow)
    → ComesAfter generation assigned r
    → IsNew overview generation assigned q
    → row_before r q ≡ true
unfolding row_before
row_before-new overview generation assigned r q (ne, lt, _) (_, _, e) =
    rw e (rw (==_ne r.assigned_at assigned ne) lt)

pub last_row-append :
    (overview : ℤ) (generation assigned : String) (old : List DailyRow) (x : DailyRow)
    (rows : List DailyRow)
    → All (ComesAfter generation assigned) old
    → All (IsNew overview generation assigned) (x ∷ rows)
    → LastIsNew overview generation assigned (last_row (old ++ x ∷ rows))
unfolding last_row
last_row-append overview generation assigned [] x rows a h =
    last_row-new overview generation assigned x rows h
last_row-append overview generation assigned (r ∷ old) x rows a h =
    let (q, e, k) = last_row-append overview generation assigned old x rows a.1 h in
    (
      q,
      ap (λ o. some (later_row r o)) e
          ∙ rw (row_before-new overview generation assigned r q a.0 k) refl,
      k,
    )

pub All-keep_if :
    (P : DailyRow → Type 0) (p : DailyRow → Bool) (xs : List DailyRow)
    → All (λ r. p r ≡ true → P r) xs
    → All P (keep_if p xs)
All-keep_if P p [] h = tt
All-keep_if P p (x ∷ xs) h = elim (Bool-cases (p x)) [
  | inl e ↦ rw e (h.0 e, All-keep_if P p xs h.1)
  | inr e ↦ rw e (All-keep_if P p xs h.1)
]
