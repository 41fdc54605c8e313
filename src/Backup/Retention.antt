-- ===== src/Backup/Retention.antt =====
-- The functions of internal/backup/retention.go. The policy's numbers are not negative.
use mentis_eterna.Prelude.{
  ℕ, ◌+◌, ◌*◌, String, Bool, true, false, not, Option, none, some, List, [], ◌∷◌, map, keep_if, ltb,
  ◌==◌, string_key, nat_key, if◌then◌else◌,
}
use mentis_eterna.Prelude.Maps.{Map, or_zero, lookup, insert}
use mentis_eterna.Backup.Calendar.{day_of, iso_week, month_of, days_before, months_before}

abbrev backup_prefix : String
backup_prefix = "backups/mentis-"

abbrev legacy_backup_suffix : String
legacy_backup_suffix = ".db.enc"

abbrev bundle_backup_suffix : String
bundle_backup_suffix = ".bundle.enc"

-- `strings.HasSuffix`.
unfoldable pub has_suffix : String → String → Bool
has_suffix String.[] suffix = String.[] == suffix
has_suffix (String.◌∷◌ c s) suffix =
    let later = has_suffix s suffix in if String.◌∷◌ c s == suffix then true else later

-- `strings.TrimSuffix`.
unfoldable pub trim_suffix : String → String → String
trim_suffix String.[] suffix = String.[]
trim_suffix (String.◌∷◌ c s) suffix =
    let rest = String.◌∷◌ c (trim_suffix s suffix) in
    if String.◌∷◌ c s == suffix then String.[] else rest

-- What is behind a prefix.
unfoldable pub behind : String → String → Option String
behind s String.[] = some s
behind String.[] (String.◌∷◌ p prefix) = none
behind (String.◌∷◌ c s) (String.◌∷◌ p prefix) =
    let rest = behind s prefix in
    if String.◌∷◌ c String.[] == String.◌∷◌ p String.[] then rest else none

-- `strings.TrimPrefix`.
abbrev pub trim_prefix : String → String → String
trim_prefix s prefix = or_zero s (behind s prefix)

pub record BackupEntry : Type 0 where
  pub key : String
  pub time : ℕ

pub record RetentionPolicy : Type 0 where
  pub keep_last_days : ℕ
  pub weekly_months : ℕ
  pub monthly_years : ℕ

abbrev pub default_retention_policy : RetentionPolicy
default_retention_policy = record { keep_last_days = 7; weekly_months = 3; monthly_years = 5 }

pub record Cutoffs : Type 0 where
  pub day : ℕ
  pub week : ℕ
  pub month : ℕ

unfoldable pub cutoffs : ℕ → RetentionPolicy → Cutoffs
cutoffs now policy = record {
  day = days_before policy.keep_last_days now;
  week = months_before policy.weekly_months now;
  month = months_before (12 * policy.monthly_years) now;
}

-- The maps of the loop.
pub record Kept : Type 0 where
  pub keep_set : Map String Bool
  pub kept_days : Map ℕ ℕ
  pub kept_weeks : Map ℕ Bool
  pub kept_months : Map ℕ Bool

abbrev pub nothing_kept : Kept
nothing_kept = record { keep_set = []; kept_days = []; kept_weeks = []; kept_months = [] }

-- `keptDays[dk]`, `keptWeeks[wk]` and `keptMonths[mk]`.
abbrev pub days_kept : ℕ → Kept → ℕ
days_kept d s = or_zero 0 (lookup d s.kept_days)

abbrev pub is_week_kept : ℕ → Kept → Bool
is_week_kept w s = or_zero false (lookup w s.kept_weeks)

abbrev pub is_month_kept : ℕ → Kept → Bool
is_month_kept m s = or_zero false (lookup m s.kept_months)

-- `keepSet[b.key]`.
abbrev pub is_key_kept : String → Kept → Bool
is_key_kept k s = or_zero false (lookup k s.keep_set)

-- Rules 1, 2 and 3.
unfoldable pub keep_of_day : BackupEntry → Kept → Kept
keep_of_day b s =
    let n = days_kept (day_of b.time) s in
    if ltb n 3
    then record s {
      kept_days = insert (day_of b.time) (n + 1) s.kept_days;
      keep_set = insert b.key true s.keep_set;
    }
    else s

unfoldable pub keep_of_week : BackupEntry → Kept → Kept
keep_of_week b s =
    if not (is_week_kept (iso_week b.time) s)
    then record s {
      kept_weeks = insert (iso_week b.time) true s.kept_weeks;
      keep_set = insert b.key true s.keep_set;
    }
    else s

unfoldable pub keep_of_month : BackupEntry → Kept → Kept
keep_of_month b s =
    if not (is_month_kept (month_of b.time) s)
    then record s {
      kept_months = insert (month_of b.time) true s.kept_months;
      keep_set = insert b.key true s.keep_set;
    }
    else s

-- The body of the loop.
unfoldable pub visit : Cutoffs → BackupEntry → Kept → Kept
visit c b s =
    if ltb c.day b.time
    then keep_of_day b s
    else if ltb c.week b.time
    then keep_of_week b s
    else if ltb c.month b.time
    then keep_of_month b s
    else s

unfoldable pub visit_all : Cutoffs → List BackupEntry → Kept → Kept
visit_all c [] s = s
visit_all c (b ∷ bs) s = visit_all c bs (visit c b s)

abbrev pub keys_of : List BackupEntry → List String
keys_of = map (λ b. b.key)

-- The keys to keep and the keys to delete, of backups from new to old.
unfoldable pub split_kept : Cutoffs → List BackupEntry → List String × List String
split_kept c backups =
    let s = visit_all c backups nothing_kept in
    (
      keys_of (keep_if (λ b. is_key_kept b.key s) backups),
      keys_of (keep_if (λ b. not (is_key_kept b.key s)) backups),
    )

-- The first loop: a key that does not parse is passed over.
abbrev add_entry : String → Option ℕ → List BackupEntry → List BackupEntry
add_entry k none backups = backups
add_entry k (some t) backups = record { key = k; time = t } ∷ backups

-- `parse_time` is `time.Parse` with the layout of the keys.
module _ (parse_time : String → Option ℕ) where
  unfoldable pub parse_backup_time : String → Option ℕ
  parse_backup_time key =
      if has_suffix key bundle_backup_suffix
      then parse_time (trim_suffix (trim_prefix key backup_prefix) bundle_backup_suffix)
      else if has_suffix key legacy_backup_suffix
      then parse_time (trim_suffix (trim_prefix key backup_prefix) legacy_backup_suffix)
      else none

  unfoldable pub parse_keys : List String → List BackupEntry
  parse_keys [] = []
  parse_keys (k ∷ keys) = add_entry k (parse_backup_time k) (parse_keys keys)

-- `newest_first` is `sort.Slice` with the comparison by time.
module _ (newest_first : List BackupEntry → List BackupEntry) where
  abbrev pub classify_parsed : Cutoffs → List BackupEntry → List String × List String
  classify_parsed c [] = ([], [])
  classify_parsed c (b ∷ bs) = split_kept c (newest_first (b ∷ bs))

module _ (parse_time : String → Option ℕ) (newest_first : List BackupEntry → List BackupEntry) where
  unfoldable pub classify_backups : List String → ℕ → RetentionPolicy → List String × List String
  classify_backups keys now policy =
      classify_parsed newest_first (cutoffs now policy) (parse_keys parse_time keys)
