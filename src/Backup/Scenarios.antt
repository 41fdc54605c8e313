-- ===== src/Backup/Scenarios.antt =====
-- A run of the retention on the evening of 20 May 2026.
use mathlib.Core.List.{Memᴰ, Permᴰ}
use mathlib.Core.List.Permᴰ
use mentis_eterna.Prelude.{
  ℕ, ◌+◌, ◌*◌, ◌≤◌, String, true, Option, List, [], ◌∷◌, ◌++◌, All, Bool-cases, inl, inr, ltb, ◌≡◌,
  refl, arith, string_key, if◌then◌else◌,
}
use mentis_eterna.Prelude.Maps.{Map, lookup, insert, delete}
use mentis_eterna.Backup.Calendar.{
  day_of, iso_week, month_of, first_day, year_in_era, days_before, months_before,
}
use mentis_eterna.Backup.Retention.{
  BackupEntry, cutoffs, default_retention_policy, has_suffix, trim_suffix, behind,
  parse_backup_time, parse_keys, keys_of, classify_backups, split_kept, visit, visit_all,
  keep_of_day, keep_of_week, keep_of_month,
}
use mentis_eterna.Backup.Greedy.{in_week, is_in}
use mentis_eterna.Backup.Sorting.{IsDescending, SortsNewestFirst}
use mentis_eterna.Backup.Policy.{classify_backups-perm, classify_backups-newest}

-- 31 May and three months before, which is 3 March: February ends early.
months_before_31 : months_before 3 76565001600 ≡ 76557312000
unfolding months_before month_of first_day year_in_era
months_before_31 = refl

-- 29 February 2024 and five years before, which is 1 March 2019.
months_before_leap : months_before 60 76493980800 ≡ 76336214400
unfolding months_before month_of first_day year_in_era
months_before_leap = refl

-- Monday 11 May 2026 and the Sunday before are of two weeks.
weeks_apart : iso_week 76563273600 ≡ iso_week 76563187200 + 1
unfolding iso_week
weeks_apart = refl

-- A parser of the times of the run.
abbrev times : Map String ℕ
times =
    ("2026-05-20T06-00-00", 76564051200 + 6 * 3600)
    ∷ ("2026-05-20T09-00-00", 76564051200 + 9 * 3600)
    ∷ ("2026-05-20T12-00-00", 76564051200 + 12 * 3600)
    ∷ ("2026-05-20T15-00-00", 76564051200 + 15 * 3600)
    ∷ ("2026-04-29T03-00-00", 76562236800 + 3 * 3600)
    ∷ ("2026-04-30T03-00-00", 76562323200 + 3 * 3600)
    ∷ ("2019-01-01T03-00-00", 76331116800 + 3 * 3600)
    ∷ []

abbrev parse_listed : String → Option ℕ
parse_listed s = lookup s times

-- Insertion of a backup into a list from new to old, and the sort.
abbrev place : BackupEntry → List BackupEntry → List BackupEntry
place b [] = b ∷ []
place b (x ∷ xs) = let rest = x ∷ place b xs in if ltb b.time x.time then rest else b ∷ x ∷ xs

abbrev insertion_sort : List BackupEntry → List BackupEntry
insertion_sort [] = []
insertion_sort (b ∷ bs) = place b (insertion_sort bs)

place-perm : (b : BackupEntry) (xs : List BackupEntry) → Permᴰ (place b xs) (b ∷ xs)
place-perm b [] = Permᴰ.cons refl Permᴰ.nil
place-perm b (x ∷ xs) = elim (Bool-cases (ltb b.time x.time)) [
  | inl h ↦ rw h (Permᴰ.trans (Permᴰ.cons refl (place-perm b xs)) (Permᴰ.swap refl refl))
  | inr h ↦ rw h (Permᴰ.refl (b ∷ x ∷ xs))
]

insertion_sort-perm : (bs : List BackupEntry) → Permᴰ (insertion_sort bs) bs
insertion_sort-perm [] = Permᴰ.nil
insertion_sort-perm (b ∷ bs) =
    Permᴰ.trans (place-perm b (insertion_sort bs)) (Permᴰ.cons refl (insertion_sort-perm bs))

place-below :
    (b : BackupEntry) (t : ℕ) (xs : List BackupEntry)
    → b.time ≤ t
    → All (λ a. a.time ≤ t) xs
    → All (λ a. a.time ≤ t) (place b xs)
place-below b t [] le h = (le, tt)
place-below b t (x ∷ xs) le h = elim (Bool-cases (ltb b.time x.time)) [
  | inl e ↦ rw e (h.0, place-below b t xs le h.1)
  | inr e ↦ rw e (le, h)
]

All-le :
    (s t : ℕ) (xs : List BackupEntry) → s ≤ t → All (λ a. a.time ≤ s) xs → All (λ a. a.time ≤ t) xs
All-le s t [] le h = tt
All-le s t (x ∷ xs) le h = (omega (arith, h.0), All-le s t xs le h.1)

place-IsDescending :
    (b : BackupEntry) (xs : List BackupEntry) → IsDescending xs → IsDescending (place b xs)
place-IsDescending b [] h = (tt, tt)
place-IsDescending b (x ∷ xs) h = elim (Bool-cases (ltb b.time x.time)) [
  | inl e ↦ rw e (place-below b x.time xs (ground arith) h.0, place-IsDescending b xs h.1)
  | inr e ↦
      let le : x.time ≤ b.time = ground arith in rw e ((le, All-le x.time b.time xs le h.0), h)
]

insertion_sort-IsDescending : (bs : List BackupEntry) → IsDescending (insertion_sort bs)
insertion_sort-IsDescending [] = tt
insertion_sort-IsDescending (b ∷ bs) =
    place-IsDescending b (insertion_sort bs) (insertion_sort-IsDescending bs)

insertion_sort-SortsNewestFirst : SortsNewestFirst insertion_sort
insertion_sort-SortsNewestFirst = record {
  permutes = insertion_sort-perm;
  descends = insertion_sort-IsDescending;
}

abbrev stored : List String
stored =
    "backups/mentis-2026-05-20T06-00-00.bundle.enc"
    ∷ "backups/mentis-2026-05-20T15-00-00.bundle.enc" ∷ "backups/readme.txt"
    ∷ "backups/mentis-2026-05-20T12-00-00.bundle.enc" ∷ "backups/mentis-2026-05-20T09-00-00.db.enc"
    ∷ "backups/mentis-2026-04-29T03-00-00.db.enc" ∷ "backups/mentis-2026-04-30T03-00-00.db.enc"
    ∷ "backups/mentis-2019-01-01T03-00-00.db.enc" ∷ []

abbrev evening : ℕ
evening = 76564051200 + 20 * 3600

-- The fourth of the day goes, the older of the week, and the one from 2019; the readme stays.
evening_deletes :
    (classify_backups parse_listed insertion_sort stored evening default_retention_policy).1
    ≡ "backups/mentis-2026-05-20T06-00-00.bundle.enc" ∷ "backups/mentis-2026-04-29T03-00-00.db.enc"
      ∷ "backups/mentis-2019-01-01T03-00-00.db.enc" ∷ []
unfolding classify_backups split_kept visit visit_all keep_of_day keep_of_week keep_of_month lookup
    insert delete parse_keys parse_backup_time has_suffix trim_suffix behind cutoffs days_before
    months_before month_of first_day year_in_era day_of iso_week
evening_deletes = refl

classify_backups-perm_example :
    let r = classify_backups parse_listed insertion_sort stored evening default_retention_policy in
    Permᴰ (r.0 ++ r.1) (keys_of (parse_keys parse_listed stored))
classify_backups-perm_example =
    classify_backups-perm parse_listed insertion_sort stored evening default_retention_policy
      insertion_sort-SortsNewestFirst

-- The backup of 29 April, whose week keeps a newer one.
abbrev april : BackupEntry
april = record { key = "backups/mentis-2026-04-29T03-00-00.db.enc"; time = 76562236800 + 3 * 3600 }

classify_backups-newest_example :
    (a : BackupEntry) × Memᴰ a (parse_keys parse_listed stored)
    × (is_in (cutoffs evening default_retention_policy) (in_week (iso_week april.time)) a ≡ true)
    × (april.time ≤ a.time)
    × Memᴰ a.key
        (classify_backups parse_listed insertion_sort stored evening default_retention_policy).0
unfolding lookup parse_keys parse_backup_time has_suffix trim_suffix behind cutoffs days_before
    months_before month_of first_day year_in_era day_of iso_week
classify_backups-newest_example =
    classify_backups-newest parse_listed insertion_sort stored evening default_retention_policy
      (in_week (iso_week april.time)) april insertion_sort-SortsNewestFirst
      (Memᴰ.tail (Memᴰ.tail (Memᴰ.tail (Memᴰ.tail (Memᴰ.head refl))))) refl
