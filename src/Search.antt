-- ===== src/Search.antt =====
-- The search of internal/server/search.go: Query makes its MATCH expressions, and this file has the
-- test whether the runes of a query occur in a title or a tag in their order. A text is the list of
-- its runes.
pub mod Subsequence
pub mod Query
pub mod Tokens
mod Scenarios
use mentis_eterna.Prelude.{
  Bool, List, [], false, if◌then◌else◌, length, nat_beq, suc, true, zero, ℕ, ◌∷◌,
}

-- `queryRunes[qi]`, guarded by `qi < len(queryRunes)`.
unfoldable pub is_next : List ℕ → ℕ → ℕ → Bool
is_next [] qi r = false
is_next (q ∷ query) zero r = nat_beq q r
is_next (q ∷ query) (suc qi) r = is_next query qi r

-- The loop over the target, with the index of the next rune of the query.
unfoldable pub scan_target : List ℕ → ℕ → List ℕ → Bool
unfolding is_next
scan_target query qi [] = false
scan_target query qi (r ∷ target) =
    let found = scan_target query (suc qi) target in
    let passed = scan_target query qi target in
    if is_next query qi r then if nat_beq (suc qi) (length query) then true else found else passed

unfoldable pub is_subsequence : List ℕ → List ℕ → Bool
unfolding scan_target
is_subsequence [] target = false
is_subsequence (q ∷ query) target = scan_target (q ∷ query) 0 target
