-- ===== src/Printer/Layout.antt =====
-- The text helpers of pkg/printer/printer.go. A text is the list of its runes; a width that is not
-- positive is 0.
use mentis_eterna.Prelude.{
  ℕ, ◌-◌, ◌/◌, List, [], ◌∷◌, ◌++◌, length, take, replicate, leb, nat_beq, if◌then◌else◌,
}

abbrev pub text_width : List ℕ → ℕ
text_width s = length s

unfoldable pub truncate_width : List ℕ → ℕ → List ℕ
truncate_width s width =
    if nat_beq width 0 then [] else if leb (text_width s) width then s else take width s

abbrev pub ellipsis : ℕ
ellipsis = 0x2026

unfoldable pub truncate_with_ellipsis : List ℕ → ℕ → List ℕ
unfolding truncate_width
truncate_with_ellipsis s width =
    if nat_beq width 0
    then []
    else if leb (text_width s) width
    then s
    else if nat_beq width 1
    then ellipsis ∷ []
    else truncate_width s (width - 1) ++ ellipsis ∷ []

unfoldable pub pad_right : List ℕ → ℕ → List ℕ
pad_right s width =
    if leb width (text_width s) then s else s ++ replicate (width - text_width s) b' '

unfoldable pub pad_center : List ℕ → ℕ → List ℕ
pad_center s width =
    let total = width - text_width s in
    let left = total / 2 in
    if leb width (text_width s)
    then s
    else replicate left b' ' ++ (s ++ replicate (total - left) b' ')
