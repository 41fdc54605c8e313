-- ===== src/Backup/Greedy.antt =====
-- What the loop of `ClassifyBackups` keeps, told without its maps: of the backups from new to old, one is
-- chosen if fewer than the quota of its day, week or month went before it.
use mentis_eterna.Prelude.{
  ℕ, suc, ◌+◌, min, String, Bool, true, false, not, ◌&&◌, ◌||◌, List, [], ◌∷◌, keep_if, ltb,
  nat_beq, ◌==◌, string_key, nat_key, if◌then◌else◌, ◌≡◌, refl, ap, arith,
}
use mentis_eterna.Prelude.Maps.{lookup, or_zero-insert}
use mentis_eterna.Backup.Calendar.{day_of, iso_week, month_of}
use mentis_eterna.Backup.Retention.{
  BackupEntry, Cutoffs, Kept, nothing_kept, days_kept, is_week_kept, is_month_kept, is_key_kept,
  keep_of_day, keep_of_week, keep_of_month, visit, visit_all, split_kept, keys_of,
}

-- The buckets: the days of the first window, the weeks of the second, the months of the third.
pub data Bucket : Type 0 where
  on_day in_week in_month : ℕ → Bucket

abbrev pub quota : Bucket → ℕ
quota (on_day d) = 3
quota (in_week w) = 1
quota (in_month m) = 1

abbrev pub is_in : Cutoffs → Bucket → BackupEntry → Bool
is_in c (on_day d) b = ltb c.day b.time && nat_beq (day_of b.time) d
is_in c (in_week w) b = not (ltb c.day b.time) && ltb c.week b.time && nat_beq (iso_week b.time) w
is_in c (in_month m) b =
    not (ltb c.day b.time)
    && not (ltb c.week b.time)
    && ltb c.month b.time
    && nat_beq (month_of b.time) m

-- How many of a list are in a bucket.
abbrev pub tally : Cutoffs → Bucket → List BackupEntry → ℕ
tally c bucket [] = 0
tally c bucket (b ∷ bs) = let n = tally c bucket bs in if is_in c bucket b then suc n else n

abbrev pub is_below : Cutoffs → Bucket → List BackupEntry → Bool
is_below c bucket seen = ltb (tally c bucket seen) (quota bucket)

-- Whether the bucket of a backup has room behind those seen before. One older than all windows has none.
abbrev pub has_room : Cutoffs → List BackupEntry → BackupEntry → Bool
has_room c seen b =
    if ltb c.day b.time
    then is_below c (on_day (day_of b.time)) seen
    else if ltb c.week b.time
    then is_below c (in_week (iso_week b.time)) seen
    else if ltb c.month b.time
    then is_below c (in_month (month_of b.time)) seen
    else false

unfoldable pub chosen : Cutoffs → List BackupEntry → List BackupEntry → List BackupEntry
chosen c seen [] = []
chosen c seen (b ∷ bs) =
    let rest = chosen c (b ∷ seen) bs in if has_room c seen b then b ∷ rest else rest

abbrev pub has_key : String → List BackupEntry → Bool
has_key k [] = false
has_key k (b ∷ bs) = b.key == k || has_key k bs

-- The maps of the loop know of each bucket how full it is.
record Matches (c : Cutoffs) (seen : List BackupEntry) (s : Kept) : Type 0 where
  days : (d : ℕ) → days_kept d s ≡ min 3 (tally c (on_day d) seen)
  weeks : (w : ℕ) → is_week_kept w s ≡ ltb 0 (tally c (in_week w) seen)
  months : (m : ℕ) → is_month_kept m s ≡ ltb 0 (tally c (in_month m) seen)

visit-days :
    (c : Cutoffs) (seen : List BackupEntry) (b : BackupEntry) (s : Kept) (d : ℕ)
    → Matches c seen s
    → days_kept d (visit c b s) ≡ min 3 (tally c (on_day d) (b ∷ seen))
unfolding visit keep_of_day keep_of_week keep_of_month
visit-days c seen b s d m = ground (
  arith,
  m.days d,
  m.days (day_of b.time),
  or_zero-insert 0 (day_of b.time) d (days_kept (day_of b.time) s + 1) s.kept_days,
)

visit-weeks :
    (c : Cutoffs) (seen : List BackupEntry) (b : BackupEntry) (s : Kept) (w : ℕ)
    → Matches c seen s
    → is_week_kept w (visit c b s) ≡ ltb 0 (tally c (in_week w) (b ∷ seen))
unfolding visit keep_of_day keep_of_week keep_of_month
visit-weeks c seen b s w m = ground (
  arith,
  m.weeks w,
  m.weeks (iso_week b.time),
  or_zero-insert false (iso_week b.time) w true s.kept_weeks,
)

visit-months :
    (c : Cutoffs) (seen : List BackupEntry) (b : BackupEntry) (s : Kept) (n : ℕ)
    → Matches c seen s
    → is_month_kept n (visit c b s) ≡ ltb 0 (tally c (in_month n) (b ∷ seen))
unfolding visit keep_of_day keep_of_week keep_of_month
visit-months c seen b s n m = ground (
  arith,
  m.months n,
  m.months (month_of b.time),
  or_zero-insert false (month_of b.time) n true s.kept_months,
)

visit-keys :
    (c : Cutoffs) (seen : List BackupEntry) (b : BackupEntry) (s : Kept) (k : String)
    → Matches c seen s
    → is_key_kept k (visit c b s)
      ≡ (if has_room c seen b && b.key == k then true else is_key_kept k s)
unfolding visit keep_of_day keep_of_week keep_of_month
visit-keys c seen b s k m = ground (
  arith,
  m.days (day_of b.time),
  m.weeks (iso_week b.time),
  m.months (month_of b.time),
  or_zero-insert false b.key k true s.keep_set,
)

visit-Matches :
    (c : Cutoffs) (seen : List BackupEntry) (b : BackupEntry) (s : Kept)
    → Matches c seen s
    → Matches c (b ∷ seen) (visit c b s)
visit-Matches c seen b s m = record {
  days = λ d. visit-days c seen b s d m;
  weeks = λ w. visit-weeks c seen b s w m;
  months = λ n. visit-months c seen b s n m;
}

visit_all-keys :
    (c : Cutoffs) (seen bs : List BackupEntry) (s : Kept) (k : String)
    → Matches c seen s
    → is_key_kept k (visit_all c bs s) ≡ (is_key_kept k s || has_key k (chosen c seen bs))
unfolding visit_all chosen
visit_all-keys c seen [] s k m = ground arith
visit_all-keys c seen (b ∷ bs) s k m = ground (
  arith,
  visit-keys c seen b s k m,
  visit_all-keys c (b ∷ seen) bs (visit c b s) k (visit-Matches c seen b s m),
)

-- What is in the set of keys behind the loop.
pub kept-chosen :
    (c : Cutoffs) (bs : List BackupEntry) (k : String)
    → is_key_kept k (visit_all c bs nothing_kept) ≡ has_key k (chosen c [] bs)
unfolding lookup
kept-chosen c bs k =
    visit_all-keys c [] bs nothing_kept k
      (record { days = λ d. refl; weeks = λ w. refl; months = λ n. refl })

-- Tests that agree keep the same.
pub keep_if-cong :
    (p q : BackupEntry → Bool) (bs : List BackupEntry)
    → ((b : BackupEntry) → p b ≡ q b)
    → keep_if p bs ≡ keep_if q bs
keep_if-cong p q [] h = refl
keep_if-cong p q (b ∷ bs) h = ground (arith, h b, keep_if-cong p q bs h)

-- The loop and its maps keep exactly the backups with a chosen key.
pub split_kept-chosen :
    (c : Cutoffs) (bs : List BackupEntry)
    → split_kept c bs ≡ (
      keys_of (keep_if (λ b. has_key b.key (chosen c [] bs)) bs),
      keys_of (keep_if (λ b. not (has_key b.key (chosen c [] bs))) bs),
    )
unfolding split_kept
split_kept-chosen c bs =
    let kept =
      keep_if-cong _ (λ b. has_key b.key (chosen c [] bs)) bs (λ b. kept-chosen c bs b.key) in
    let left =
      keep_if-cong _ (λ b. not (has_key b.key (chosen c [] bs))) bs
        (λ b. ap not (kept-chosen c bs b.key)) in
    cc (kept, left)
