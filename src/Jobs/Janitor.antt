-- ===== src/Jobs/Janitor.antt =====
-- Which runs the janitor deletes.
use mathlib.Core.List.{Memᴰ}
use mathlib.Core.Bool.{false≢true}
use mentis_eterna.Prelude.{
  ==_refl, Bool, Bool-cases, List, [], ap, arith, false, inl, inr, length, ltb, ltb→ge, ltb→lt,
  nat_beq, nat_beq_iff, refl, sym, true, ℕ, ◌%◌, ◌*◌, ◌++◌, ◌+◌, ◌-◌, ◌/◌, ◌<◌, ◌↔◌, ◌∙◌, ◌∷◌, ◌≡◌,
  ◌≤◌, nat_key, string_key,
}
use mentis_eterna.Jobs.Table.{Run, delete_where}
use mentis_eterna.Jobs.Manager.{Manager, SqlTime, day_ms, is_expired, is_less, janitor_task}

module _ (p : Run → Bool) (r : Run) where
  mem_kept :
      (q : Run) (rows rest : List Run)
      → Memᴰ r (q ∷ rest)
      → p q ≡ false
      → (Memᴰ r rest → Memᴰ r rows × (p r ≡ false))
      → Memᴰ r (q ∷ rows) × (p r ≡ false)
  mem_kept q rows rest (Memᴰ.head h) e ih = (Memᴰ.head h, ap p h ∙ e)
  mem_kept q rows rest (Memᴰ.tail h) e ih = let k = ih h in (Memᴰ.tail k.0, k.1)

  mem-delete_where : (rows : List Run) → Memᴰ r (delete_where p rows) → Memᴰ r rows × (p r ≡ false)
  unfolding delete_where
  mem-delete_where [] m = elim m [ ]
  mem-delete_where (q ∷ rows) m = elim (Bool-cases (p q)) [
    | inl e ↦ let k = mem-delete_where rows (rw e at m) in (Memᴰ.tail k.0, k.1)
    | inr e ↦ mem_kept q rows (delete_where p rows) (rw e at m) e (mem-delete_where rows)
  ]

  mem-delete_where_kept :
      (rows : List Run) → Memᴰ r rows → p r ≡ false → Memᴰ r (delete_where p rows)
  unfolding delete_where
  mem-delete_where_kept [] m e = elim m [ ]
  mem-delete_where_kept (q ∷ rows) (Memᴰ.head h) e = rw (ap p (sym h) ∙ e) (Memᴰ.head h)
  mem-delete_where_kept (q ∷ rows) (Memᴰ.tail m) e = elim (Bool-cases (p q)) [
    | inl t ↦ rw t (mem-delete_where_kept rows m e)
    | inr n ↦ rw n (Memᴰ.tail (mem-delete_where_kept rows m e))
  ]

is_less_same : (p x y : List ℕ) → is_less (p ++ b'T' ∷ x) (p ++ b' ' ∷ y) ≡ false
unfolding is_less
is_less_same [] x y = refl
is_less_same (c ∷ p) x y = rw (==_refl c) (is_less_same p x y)

is_less_append :
    (p q x y : List ℕ) → length p ≡ length q → is_less p q ≡ true → is_less (p ++ x) (q ++ y) ≡ true
unfolding is_less
is_less_append [] [] x y e h = absurd (false≢true h)
is_less_append [] (c ∷ q) x y e h = absurd (omega arith)
is_less_append (b ∷ p) [] x y e h = absurd (omega arith)
is_less_append (b ∷ p) (c ∷ q) x y e h = elim (Bool-cases (nat_beq b c)) [
  | inl k ↦ rw k (is_less_append p q x y (omega arith) (rw k at h))
  | inr k ↦ rw k (rw k at h)
]

is_less_reverse :
    (p q x y : List ℕ)
    → length p ≡ length q
    → is_less q p ≡ true
    → is_less (p ++ x) (q ++ y) ≡ false
unfolding is_less
is_less_reverse [] [] x y e h = absurd (false≢true h)
is_less_reverse [] (c ∷ q) x y e h = absurd (omega arith)
is_less_reverse (b ∷ p) [] x y e h = absurd (omega arith)
is_less_reverse (b ∷ p) (c ∷ q) x y e h = elim (Bool-cases (nat_beq b c)) [
  | inl k ↦
      let back : nat_beq c b ≡ true = ground (arith, k) in
      rw k (is_less_reverse p q x y (omega arith) (rw back at h))
  | inr k ↦
      let back : nat_beq c b ≡ false = ground (arith, k) in
      let less : ltb c b ≡ true = rw back at h in rw k (ground (arith, less))
]

-- What SQLite documents: dates have one length, and a later day has a greater text.
pub record IsCalendar (clock : SqlTime) : Type 0 where
  pub same_length : (a b : ℕ) → length (clock.date a) ≡ length (clock.date b)
  pub increasing : (a b : ℕ) → a < b → is_less (clock.date a) (clock.date b) ≡ true

-- The two texts compare as the days do, since a `T` is greater than a space.
is_expired_day :
    (clock : SqlTime) (now : ℕ) (r : Run)
    → IsCalendar clock
    → is_expired clock now r ≡ ltb (r.created_at / day_ms) ((now - 30 * day_ms) / day_ms)
unfolding is_expired
is_expired_day clock now r c =
    let a = r.created_at / day_ms in
    let b = (now - 30 * day_ms) / day_ms in
    elim (Bool-cases (ltb a b)) [
      | inl less ↦ rw less (
          is_less_append (clock.date a) (clock.date b) _ _ (c.same_length a b)
            (c.increasing a b (ltb→lt a b less)))
      | inr not_less ↦ rw not_less (elim (Bool-cases (nat_beq a b)) [
        | inl e ↦
            let same : a ≡ b = (nat_beq_iff a b).0 e in
            ap
              (λ d.
                is_less (clock.date d ++ b'T' ∷ clock.fraction (r.created_at % day_ms))
                  (clock.date b ++ b' ' ∷ clock.seconds ((now - 30 * day_ms) % day_ms)))
              same
            ∙ is_less_same (clock.date b) _ _
        | inr n ↦
            is_less_reverse (clock.date a) (clock.date b) _ _ (c.same_length a b)
              (c.increasing b a (ground (arith, not_less, n)))
      ])
    ]

-- Where SQLite writes the dates as it documents, the janitor leaves a run exactly if it stood in the
-- table and was not created on a date before that of the limit, 30 days ago. So a run that was
-- created on the date of the limit stays, whatever its age.
pub janitor_task_dates :
    (clock : SqlTime) (now : ℕ) (m : Manager) (r : Run)
    → IsCalendar clock
    → Memᴰ r (janitor_task clock now m).table.rows
      ↔ (Memᴰ r m.table.rows × ((now - 30 * day_ms) / day_ms ≤ r.created_at / day_ms))
unfolding janitor_task
janitor_task_dates clock now m r c = (
  λ k.
      let (old, e) = mem-delete_where (is_expired clock now) r m.table.rows k in
      (old, ltb→ge _ _ (sym (is_expired_day clock now r c) ∙ e)),
  λ k.
      mem-delete_where_kept (is_expired clock now) r m.table.rows k.0
        (is_expired_day clock now r c ∙ ground (arith, k.1)),
)

-- The janitor deletes no run that is at most 30 days old.
janitor_task_keeps :
    (clock : SqlTime) (now : ℕ) (m : Manager) (r : Run)
    → IsCalendar clock
    → 30 * day_ms ≤ now
    → Memᴰ r m.table.rows
    → now ≤ r.created_at + 30 * day_ms
    → Memᴰ r (janitor_task clock now m).table.rows
janitor_task_keeps clock now m r c enough k young =
    (janitor_task_dates clock now m r c).1 (k, ground arith)

-- Every run that the janitor leaves stood in the table before, and is less than 31 days old.
janitor_task_drops :
    (clock : SqlTime) (now : ℕ) (m : Manager) (r : Run)
    → IsCalendar clock
    → 30 * day_ms ≤ now
    → Memᴰ r (janitor_task clock now m).table.rows
    → Memᴰ r m.table.rows × (now < r.created_at + 31 * day_ms)
janitor_task_drops clock now m r c enough k =
    let (old, e) = (janitor_task_dates clock now m r c).0 k in (old, ground (arith, e))
