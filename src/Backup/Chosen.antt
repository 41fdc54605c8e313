-- ===== src/Backup/Chosen.antt =====
-- The backups that the greedy choice picks: the newest of each bucket, within its quota.
use mathlib.Core.List.{Memᴰ}
use mentis_eterna.Prelude.{
  ◌+◌, ◌≤◌, min, String, true, false, List, [], ◌∷◌, All, keep_if, ltb, Bool-cases, inl, inr, ◌≡◌,
  refl, sym, ap, ◌∙◌, subst, ==_refl, string_key, arith, All-mono, keep_if-same, All-at,
}
use mentis_eterna.Backup.Calendar.{day_of, iso_week, month_of}
use mentis_eterna.Backup.Retention.{BackupEntry, Cutoffs}
use mentis_eterna.Backup.Greedy.{
  Bucket, on_day, in_week, in_month, quota, is_in, tally, is_below, has_room, chosen, has_key,
}
use mentis_eterna.Backup.Sorting.{IsDescending, Distinct}

-- A backup of a bucket has room if the bucket is not full.
has_room-in :
    (c : Cutoffs) (bucket : Bucket) (seen : List BackupEntry) (b : BackupEntry)
    → is_in c bucket b ≡ true
    → has_room c seen b ≡ is_below c bucket seen
has_room-in c (on_day d) seen b h =
    let e : day_of b.time ≡ d = ground arith in
    subst (λ k. has_room c seen b ≡ is_below c (on_day k) seen) e (ground arith)
has_room-in c (in_week w) seen b h =
    let e : iso_week b.time ≡ w = ground arith in
    subst (λ k. has_room c seen b ≡ is_below c (in_week k) seen) e (ground arith)
has_room-in c (in_month m) seen b h =
    let e : month_of b.time ≡ m = ground arith in
    subst (λ k. has_room c seen b ≡ is_below c (in_month k) seen) e (ground arith)

-- A newer backup of the bucket, or the same, that the loop chooses.
abbrev pub Heir : Cutoffs → Bucket → List BackupEntry → List BackupEntry → BackupEntry → Type 0
Heir c bucket seen bs b =
    (a : BackupEntry) × Memᴰ a bs
    × (is_in c bucket a ≡ true)
    × (b.time ≤ a.time)
    × (has_key a.key (chosen c seen bs) ≡ true)

first-Heir :
    (c : Cutoffs) (bucket : Bucket) (seen bs : List BackupEntry) (x b : BackupEntry)
    → tally c bucket seen ≡ 0
    → is_in c bucket x ≡ true
    → b.time ≤ x.time
    → Heir c bucket seen (x ∷ bs) b
unfolding chosen
first-Heir c bucket seen bs x b empty h le =
    let room : has_room c seen x ≡ true = has_room-in c bucket seen x h ∙ elim bucket [
      | on_day d ↦ ground arith
      | in_week w ↦ ground arith
      | in_month m ↦ ground arith
    ] in
    (x, Memᴰ.head refl, h, le, rw room (ground (arith, ==_refl x.key)))

later-Heir :
    (c : Cutoffs) (bucket : Bucket) (seen bs : List BackupEntry) (x b : BackupEntry)
    → Heir c bucket (x ∷ seen) bs b
    → Heir c bucket seen (x ∷ bs) b
unfolding chosen
later-Heir c bucket seen bs x b (a, m, i, le, k) = (a, Memᴰ.tail m, i, le, ground arith)

pub newest_chosen :
    (c : Cutoffs) (bucket : Bucket) (seen bs : List BackupEntry) (b : BackupEntry)
    → tally c bucket seen ≡ 0
    → IsDescending bs
    → is_in c bucket b ≡ true
    → Memᴰ b bs
    → Heir c bucket seen bs b
newest_chosen c bucket seen [] b empty d i m = elim m [ ]
newest_chosen c bucket seen (x ∷ bs) b empty d i (Memᴰ.head e) =
    first-Heir c bucket seen bs x b empty (ap (is_in c bucket) (sym e) ∙ i)
      (omega (arith, ap (λ a. a.time) e))
newest_chosen c bucket seen (x ∷ bs) b empty d i (Memᴰ.tail m) =
    elim (Bool-cases (is_in c bucket x)) [
      | inl h ↦ first-Heir c bucket seen bs x b empty h (All-at (λ a. a.time ≤ x.time) bs d.0 m)
      | inr n ↦
          later-Heir c bucket seen bs x b
            (newest_chosen c bucket (x ∷ seen) bs b (rw n empty) d.1 i m)
    ]

pub tally-chosen :
    (c : Cutoffs) (bucket : Bucket) (seen bs : List BackupEntry)
    → tally c bucket (chosen c seen bs) + min (quota bucket) (tally c bucket seen) ≤ quota bucket
unfolding chosen
tally-chosen c bucket seen [] = omega arith
tally-chosen c bucket seen (x ∷ bs) = elim (Bool-cases (is_in c bucket x)) [
  | inl h ↦ ground (arith, tally-chosen c bucket (x ∷ seen) bs, has_room-in c bucket seen x h, h)
  | inr n ↦ ground (arith, tally-chosen c bucket (x ∷ seen) bs, n)
]

chosen_among :
    (c : Cutoffs) (seen bs : List BackupEntry) (k : String)
    → has_key k bs ≡ false
    → has_key k (chosen c seen bs) ≡ false
unfolding chosen
chosen_among c seen [] k h = refl
chosen_among c seen (x ∷ bs) k h =
    let n : has_key k bs ≡ false = ground (arith, h) in
    ground (arith, h, chosen_among c (x ∷ seen) bs k n)

-- The loop keeps a backup only in a bucket.
abbrev pub InBucket : Cutoffs → BackupEntry → Type 0
InBucket c b = (bucket : Bucket) × (is_in c bucket b ≡ true)

has_room-InBucket :
    (c : Cutoffs) (seen : List BackupEntry) (b : BackupEntry)
    → has_room c seen b ≡ true
    → InBucket c b
has_room-InBucket c seen b h = elim (Bool-cases (ltb c.day b.time)) [
  | inl d ↦ (on_day (day_of b.time), ground arith)
  | inr d ↦ elim (Bool-cases (ltb c.week b.time)) [
    | inl w ↦ (in_week (iso_week b.time), ground arith)
    | inr w ↦ (in_month (month_of b.time), ground arith)
  ]
]

pub chosen-InBucket :
    (c : Cutoffs) (seen bs : List BackupEntry)
    → All (λ b. Memᴰ b bs × InBucket c b) (chosen c seen bs)
unfolding chosen
chosen-InBucket c seen [] = tt
chosen-InBucket c seen (x ∷ bs) =
    let rest =
      All-mono (λ b (m, i). (Memᴰ.tail m, i)) (chosen c (x ∷ seen) bs)
        (chosen-InBucket c (x ∷ seen) bs) in
    elim (Bool-cases (has_room c seen x)) [
      | inl h ↦ rw h ((Memᴰ.head refl, has_room-InBucket c seen x h), rest)
      | inr n ↦ rw n rest
    ]

other_keys :
    (x : BackupEntry) (ys bs : List BackupEntry)
    → has_key x.key bs ≡ false
    → All (λ b. has_key b.key (x ∷ ys) ≡ has_key b.key ys) bs
other_keys x ys [] h = tt
other_keys x ys (b ∷ bs) h = (
  ground (arith, h, string_key.same_iff x.key b.key, string_key.same_iff b.key x.key),
  other_keys x ys bs (ground (arith, h)),
)

-- With distinct keys, the backups with a chosen key are the chosen ones.
pub keep_if-chosen :
    (c : Cutoffs) (seen bs : List BackupEntry)
    → Distinct bs
    → keep_if (λ b. has_key b.key (chosen c seen bs)) bs ≡ chosen c seen bs
unfolding chosen
keep_if-chosen c seen [] d = refl
keep_if-chosen c seen (x ∷ bs) d =
    let rest = chosen c (x ∷ seen) bs in
    let ih = keep_if-chosen c (x ∷ seen) bs d.1 in
    elim (Bool-cases (has_room c seen x)) [
      | inl h ↦
          let e : x ∷ rest ≡ chosen c seen (x ∷ bs) = rw h refl in
          let self : has_key x.key (x ∷ rest) ≡ true = ground (arith, ==_refl x.key) in
          subst (λ l. keep_if (λ b. has_key b.key l) (x ∷ bs) ≡ l) e
            (rw self (ap (λ l. x ∷ l) (keep_if-same _ _ bs (other_keys x rest bs d.0) ∙ ih)))
      | inr n ↦
          let e : rest ≡ chosen c seen (x ∷ bs) = rw n refl in
          subst (λ l. keep_if (λ b. has_key b.key l) (x ∷ bs) ≡ l) e
            (rw (chosen_among c (x ∷ seen) bs x.key d.0) ih)
    ]
