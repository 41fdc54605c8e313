-- ===== src/Backup/Policy.antt =====
-- What the retention policy keeps and deletes.
use mathlib.Core.List.{Memᴰ, Permᴰ, map-append}
use mathlib.Core.List.Permᴰ
use mathlib.Core.List.Memᴰ
use mentis_eterna.Prelude.{
  ℕ, ◌≤◌, String, true, not, Option, List, [], ◌∷◌, ◌++◌, keep_if, ◌≡◌, refl, sym, subst,
  string_key, mem-perm, keep_if-perm, mem-keep_if,
}
use mentis_eterna.Backup.Retention.{
  BackupEntry, RetentionPolicy, Cutoffs, cutoffs, parse_keys, classify_parsed, classify_backups,
  keys_of, split_kept, visit_all, nothing_kept, is_key_kept,
}
use mentis_eterna.Backup.Greedy.{Bucket, is_in, chosen, has_key, split_kept-chosen}
use mentis_eterna.Backup.Chosen.{newest_chosen}
use mentis_eterna.Backup.Sorting.{SortsNewestFirst}

module _ (newest_first : List BackupEntry → List BackupEntry) where
  parsed-perm :
      (c : Cutoffs) (bs : List BackupEntry)
      → SortsNewestFirst newest_first
      → let r = classify_parsed newest_first c bs in Permᴰ (r.0 ++ r.1) (keys_of bs)
  unfolding split_kept
  parsed-perm c [] sorts = Permᴰ.nil
  parsed-perm c (b ∷ bs) sorts =
      let s = visit_all c (newest_first (b ∷ bs)) nothing_kept in
      let kept = keep_if (λ x. is_key_kept x.key s) (newest_first (b ∷ bs)) in
      let left = keep_if (λ x. not (is_key_kept x.key s)) (newest_first (b ∷ bs)) in
      let all : Permᴰ (kept ++ left) (b ∷ bs) =
        Permᴰ.trans (keep_if-perm (λ x. is_key_kept x.key s) (newest_first (b ∷ bs)))
          (sorts.permutes (b ∷ bs)) in
      subst (λ l. Permᴰ l (keys_of (b ∷ bs))) (map-append (λ x. x.key) kept left)
        (Permᴰ.map (λ x. x.key) all)

  parsed-newest :
      (c : Cutoffs) (bucket : Bucket) (bs : List BackupEntry) (b : BackupEntry)
      → SortsNewestFirst newest_first
      → Memᴰ b bs
      → is_in c bucket b ≡ true
      → (a : BackupEntry) × Memᴰ a bs
        × (is_in c bucket a ≡ true)
        × (b.time ≤ a.time)
        × Memᴰ a.key (classify_parsed newest_first c bs).0
  parsed-newest c bucket [] b sorts m i = elim m [ ]
  parsed-newest c bucket (x ∷ bs) b sorts m i =
      let sorted = newest_first (x ∷ bs) in
      let there = mem-perm (Permᴰ.symm (sorts.permutes (x ∷ bs))) m in
      let (a, at, in_it, le, k) =
        newest_chosen c bucket [] sorted b refl (sorts.descends (x ∷ bs)) i there in
      let kept : Memᴰ a (keep_if (λ y. has_key y.key (chosen c [] sorted)) sorted) =
        mem-keep_if _ sorted k at in
      (
        a,
        mem-perm (sorts.permutes (x ∷ bs)) at,
        in_it,
        le,
        subst (λ r. Memᴰ a.key r.0) (sym (split_kept-chosen c sorted)) (Memᴰ.map (λ y. y.key) kept),
      )

module _ (parse_time : String → Option ℕ) (newest_first : List BackupEntry → List BackupEntry) where
  -- What is kept and what is deleted are together the keys that parse, each as often as it was given:
  -- a key that does not parse is never deleted.
  pub classify_backups-perm :
      (keys : List String) (now : ℕ) (policy : RetentionPolicy)
      → SortsNewestFirst newest_first
      → let r = classify_backups parse_time newest_first keys now policy in
        Permᴰ (r.0 ++ r.1) (keys_of (parse_keys parse_time keys))
  unfolding classify_backups
  classify_backups-perm keys now policy sorts =
      parsed-perm newest_first (cutoffs now policy) (parse_keys parse_time keys) sorts

  -- No bucket is given up: for each backup that parses and lies in a bucket of a window, one of that
  -- bucket that is at least as new is kept.
  pub classify_backups-newest :
      (keys : List String) (now : ℕ) (policy : RetentionPolicy) (bucket : Bucket) (b : BackupEntry)
      → SortsNewestFirst newest_first
      → Memᴰ b (parse_keys parse_time keys)
      → is_in (cutoffs now policy) bucket b ≡ true
      → (a : BackupEntry) × Memᴰ a (parse_keys parse_time keys)
        × (is_in (cutoffs now policy) bucket a ≡ true)
        × (b.time ≤ a.time)
        × Memᴰ a.key (classify_backups parse_time newest_first keys now policy).0
  unfolding classify_backups
  classify_backups-newest keys now policy bucket b sorts m i =
      parsed-newest newest_first (cutoffs now policy) bucket (parse_keys parse_time keys) b sorts m
        i
