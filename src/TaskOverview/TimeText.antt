-- ===== src/TaskOverview/TimeText.antt =====
-- The duration texts of pkg/notetype/taskoverview/tasks.go, such as "1d 2h30m". A text is the list of its
-- bytes.
use mentis_eterna.Prelude.{
  ℕ, ◌+◌, ◌-◌, ◌*◌, ◌&&◌, Option, none, some, List, [], ◌∷◌, leb, nat_beq, if◌then◌else◌,
}

-- `trimSpace` cuts blanks at the front, then at the end.
unfoldable pub trim_front : List ℕ → List ℕ
trim_front [] = []
trim_front (c ∷ s) = let rest = trim_front s in if nat_beq c b' ' then rest else c ∷ s

abbrev pub cons_unless_blank : ℕ → List ℕ → List ℕ
cons_unless_blank c [] = if nat_beq c b' ' then [] else c ∷ []
cons_unless_blank c (d ∷ s) = c ∷ d ∷ s

unfoldable pub trim_end : List ℕ → List ℕ
trim_end [] = []
trim_end (c ∷ s) = cons_unless_blank c (trim_end s)

unfoldable pub trim_space : List ℕ → List ℕ
unfolding trim_front trim_end
trim_space s = trim_end (trim_front s)

-- The digits of a text, whatever stands between them.
unfoldable pub add_digits : ℕ → List ℕ → ℕ
add_digits n [] = n
add_digits n (c ∷ s) =
    let next = add_digits (if leb b'0' c && leb c b'9' then n * 10 + (c - b'0') else n) s in next

unfoldable pub parse_leading_int : List ℕ → ℕ
unfolding trim_space add_digits
parse_leading_int s = add_digits 0 (trim_space s)

abbrev found_behind : ℕ → Option (List ℕ × List ℕ) → Option (List ℕ × List ℕ)
found_behind c none = none
found_behind c (some (before, rest)) = some (c ∷ before, rest)

-- What stands before and behind the first of a letter.
unfoldable pub split_at : ℕ → List ℕ → Option (List ℕ × List ℕ)
split_at unit [] = none
split_at unit (c ∷ s) =
    let later = found_behind c (split_at unit s) in if nat_beq c unit then some ([], s) else later

-- The minutes that a unit gives, and the text behind it.
abbrev take_unit : ℕ → List ℕ → Option (List ℕ × List ℕ) → ℕ × List ℕ
take_unit minutes s none = (0, s)
take_unit minutes s (some (before, rest)) = (parse_leading_int before * minutes, rest)

-- A day has eight hours. An empty text has no unit.
unfoldable pub parse_time_to_minutes : List ℕ → ℕ
unfolding trim_space split_at
parse_time_to_minutes s =
    let text = trim_space s in
    let (days, behind_days) = take_unit (8 * 60) text (split_at b'd' text) in
    let (hours, behind_hours) = take_unit 60 behind_days (split_at b'h' behind_days) in
    let (minutes, _) = take_unit 1 behind_hours (split_at b'm' behind_hours) in
    days + hours + minutes
