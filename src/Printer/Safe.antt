-- ===== src/Printer/Safe.antt =====
-- What the encoders can send to the printer.
use mentis_eterna.Prelude.{
  ℕ, Bool, true, ◌&&◌, ◌||◌, List, [], ◌∷◌, ◌++◌, All, ◌≡◌, refl, ltb, leb, Option-cases, inl, inr,
  nat_beq, nat_key, arith,
}
use mentis_eterna.Prelude.Maps.{Map, lookup}
use mentis_eterna.Printer.CodePage.{
  cp437_specials, windows1252_specials, normalize_common_rune, or_question_mark, pc437_byte,
  windows1252_byte, normalized_or, encode_with, encode_pc437, encode_windows1252, Encoder, pc437,
  wpc1252, encode,
}
use mentis_eterna.Printer.Tables.{holds_all, holds_all-lookup}

-- A line feed, a carriage return, or a byte that is no control code.
abbrev pub is_text_byte : ℕ → Bool
is_text_byte b = nat_beq b b'\n' || nat_beq b b'\r' || leb 0x20 b && ltb b 0x100

abbrev pub IsText : List ℕ → Type 0
IsText = All (λ b. is_text_byte b ≡ true)

cp437_values : holds_all (λ _ b. is_text_byte b) cp437_specials ≡ true
unfolding holds_all cp437_specials
cp437_values = refl

windows1252_values : holds_all (λ _ b. is_text_byte b) windows1252_specials ≡ true
unfolding holds_all windows1252_specials
windows1252_values = refl

special_text :
    (m : Map ℕ ℕ) (r : ℕ)
    → holds_all (λ _ b. is_text_byte b) m ≡ true
    → is_text_byte (or_question_mark (lookup r m)) ≡ true
special_text m r h = elim (Option-cases (lookup r m)) [
  | inl e ↦ rw e refl
  | inr (b, e) ↦ rw e (holds_all-lookup (λ _ c. is_text_byte c) m r b h e)
]

pc437_byte_text : (r : ℕ) → is_text_byte (pc437_byte r) ≡ true
unfolding pc437_byte
pc437_byte_text r = ground (arith, special_text cp437_specials r cp437_values)

windows1252_byte_text : (r : ℕ) → is_text_byte (windows1252_byte r) ≡ true
unfolding windows1252_byte
windows1252_byte_text r = ground (arith, special_text windows1252_specials r windows1252_values)

normalized-IsText :
    (r b : ℕ) → is_text_byte b ≡ true → IsText (normalized_or (normalize_common_rune r) b)
unfolding normalize_common_rune
normalized-IsText r b h = ground arith

IsText-append : (xs ys : List ℕ) → IsText xs → IsText ys → IsText (xs ++ ys)
IsText-append [] ys h k = k
IsText-append (x ∷ xs) ys h k = (h.0, IsText-append xs ys h.1 k)

encode_with-IsText :
    (byte : ℕ → ℕ)
    → ((r : ℕ) → is_text_byte (byte r) ≡ true)
    → (s : List ℕ) → IsText (encode_with byte s)
unfolding encode_with
encode_with-IsText byte ok [] = tt
encode_with-IsText byte ok (r ∷ s) =
    IsText-append (normalized_or (normalize_common_rune r) (byte r)) (encode_with byte s)
      (normalized-IsText r (byte r) (ok r)) (encode_with-IsText byte ok s)

-- Whatever text a note holds, with either page the encoder sends line feeds, carriage returns and
-- bytes from 0x20 to 0xFF alone: no text can smuggle an ESC/POS command to the printer.
pub encode-IsText : (page : Encoder) (s : List ℕ) → IsText (encode page s)
unfolding encode encode_pc437 encode_windows1252
encode-IsText pc437 s = encode_with-IsText pc437_byte pc437_byte_text s
encode-IsText wpc1252 s = encode_with-IsText windows1252_byte windows1252_byte_text s
