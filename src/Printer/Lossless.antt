-- ===== src/Printer/Lossless.antt =====
-- Characters that a code page has are printed apart.
use mentis_eterna.Prelude.{
  ℕ, ◌≤◌, ◌<◌, Bool, true, false, ◌&&◌, ◌||◌, Option, none, some, List, [], ◌∷◌, ◌++◌, All, ◌≡◌,
  refl, sym, ◌∙◌, ap, ltb, leb, Bool-cases, inl, inr, ◌⊎◌, nat_beq, nat_key, arith,
}
use mentis_eterna.Prelude.Maps.{Map, lookup}
use mentis_eterna.Printer.CodePage.{
  cp437_specials, windows1252_specials, normalize_common_rune, is_between, pc437_byte,
  windows1252_byte, normalized_or, encode_with, encode_pc437, encode_windows1252, Encoder, pc437,
  wpc1252, encode,
}
use mentis_eterna.Printer.Tables.{holds_all, holds_all-lookup, values_apart, lookup_injective}

abbrev pub is_some : Option ℕ → Bool
is_some none = false
is_some (some b) = true

-- The characters that the page has a place for.
abbrev pub in_pc437 : ℕ → Bool
in_pc437 r = is_between 0x20 0x7E r || is_some (lookup r cp437_specials)

-- U+00A0 is left out: it is printed as a blank.
abbrev pub in_windows1252 : ℕ → Bool
in_windows1252 r =
    is_between 0x20 0x7E r || is_between 0xA1 0xFF r || is_some (lookup r windows1252_specials)

abbrev no_bytes : Option (List ℕ) → Bool
no_bytes none = true
no_bytes (some bytes) = false

pc437_table :
    holds_all
      (λ r b.
        nat_beq (pc437_byte r) b && no_bytes (normalize_common_rune r) && leb 0x80 b && ltb b 0x100)
      cp437_specials
    ≡ true
unfolding holds_all cp437_specials pc437_byte normalize_common_rune lookup
pc437_table = refl

windows1252_table :
    holds_all
      (λ r b.
        nat_beq (windows1252_byte r) b
        && no_bytes (normalize_common_rune r)
        && leb 0x80 b
        && ltb b 0xA0)
      windows1252_specials
    ≡ true
unfolding holds_all windows1252_specials windows1252_byte normalize_common_rune lookup
windows1252_table = refl

pc437_apart : values_apart cp437_specials ≡ true
unfolding values_apart holds_all cp437_specials
pc437_apart = refl

windows1252_apart : values_apart windows1252_specials ≡ true
unfolding values_apart holds_all windows1252_specials
windows1252_apart = refl

-- Where the byte of a character comes from, and that no common rule replaces the character. The
-- bytes of the table lie between 0x80 and `top`.
abbrev Source : ℕ → Map ℕ ℕ → (ℕ → ℕ) → ℕ → Type 0
Source top m byte r =
    (no_bytes (normalize_common_rune r) ≡ true)
    × (((byte r ≡ r) × ((r < 0x80) ⊎ (top ≤ r)))
        ⊎ ((lookup r m ≡ some (byte r)) × (0x80 ≤ byte r) × (byte r < top)))

is_some-eq : (o : Option ℕ) → is_some o ≡ true → (b : ℕ) × (o ≡ some b)
is_some-eq none h = cc
is_some-eq (some b) h = (b, refl)

-- From an entry of a table that passes the checks of the page.
entry-Source :
    (top : ℕ) (m : Map ℕ ℕ) (byte : ℕ → ℕ) (r : ℕ)
    → holds_all
        (λ r b. nat_beq (byte r) b && no_bytes (normalize_common_rune r) && leb 0x80 b && ltb b top)
        m
      ≡ true
    → is_some (lookup r m) ≡ true
    → Source top m byte r
entry-Source top m byte r h found =
    let (b, e) = is_some-eq (lookup r m) found in
    let t =
      holds_all-lookup
        (λ r b. nat_beq (byte r) b && no_bytes (normalize_common_rune r) && leb 0x80 b && ltb b top)
        m r b h e in
    let same : byte r ≡ b = ground (arith, t) in
    (ground (arith, t), inr (e ∙ ap some (sym same), ground (arith, t), ground (arith, t)))

pc437-Source : (r : ℕ) → in_pc437 r ≡ true → Source 0x100 cp437_specials pc437_byte r
unfolding pc437_byte normalize_common_rune
pc437-Source r h = elim (Bool-cases (is_between 0x20 0x7E r)) [
  | inl ascii ↦ (ground arith, inl (ground arith, inl (ground arith)))
  | inr other ↦ entry-Source 0x100 cp437_specials pc437_byte r pc437_table (ground arith)
]

windows1252-Source :
    (r : ℕ) → in_windows1252 r ≡ true → Source 0xA0 windows1252_specials windows1252_byte r
unfolding windows1252_byte normalize_common_rune
windows1252-Source r h = elim (Bool-cases (is_between 0x20 0x7E r)) [
  | inl ascii ↦ (ground arith, inl (ground arith, inl (ground arith)))
  | inr other ↦ elim (Bool-cases (is_between 0xA1 0xFF r)) [
    | inl latin ↦ (ground arith, inl (ground arith, inr (ground arith)))
    | inr rest ↦
        entry-Source 0xA0 windows1252_specials windows1252_byte r windows1252_table (ground arith)
  ]
]

Source-injective :
    (top : ℕ) (m : Map ℕ ℕ) (byte : ℕ → ℕ) (r q : ℕ)
    → values_apart m ≡ true
    → Source top m byte r
    → Source top m byte q
    → byte r ≡ byte q
    → r ≡ q
Source-injective top m byte r q apart (_, inl (er, hr)) (_, inl (eq, hq)) h = ground arith
Source-injective top m byte r q apart (_, inl (er, hr)) (_, inr (eq, lo, hi)) h =
    absurd (ground arith)
Source-injective top m byte r q apart (_, inr (er, lo, hi)) (_, inl (eq, hq)) h =
    absurd (ground arith)
Source-injective top m byte r q apart (_, inr (er, lo, hi)) (_, inr (eq, lo', hi')) h =
    lookup_injective m r q (byte q) apart (er ∙ ap some h) eq

plain_bytes : (o : Option (List ℕ)) (b : ℕ) → no_bytes o ≡ true → normalized_or o b ≡ b ∷ []
plain_bytes none b h = refl
plain_bytes (some bytes) b h = cc

nil-ne-cons : {xs ys : List ℕ} {b : ℕ} → [] ≡ xs → xs ≡ b ∷ ys → ⊥
nil-ne-cons e h = cc

module _ (top : ℕ) (m : Map ℕ ℕ) (byte : ℕ → ℕ) (apart : values_apart m ≡ true) where
  head_bytes :
      (r : ℕ) (s : List ℕ)
      → Source top m byte r
      → encode_with byte (r ∷ s) ≡ byte r ∷ encode_with byte s
  unfolding encode_with
  head_bytes r s (plain, _) =
      ap (λ bytes. bytes ++ encode_with byte s) (plain_bytes _ (byte r) plain)

  encode_with_injective :
      (s t : List ℕ)
      → All (Source top m byte) s
      → All (Source top m byte) t
      → encode_with byte s ≡ encode_with byte t
      → s ≡ t
  unfolding encode_with
  encode_with_injective [] [] hs ht e = refl
  encode_with_injective [] (q ∷ t) hs ht e = absurd (nil-ne-cons e (head_bytes q t ht.0))
  encode_with_injective (r ∷ s) [] hs ht e = absurd (nil-ne-cons (sym e) (head_bytes r s hs.0))
  encode_with_injective (r ∷ s) (q ∷ t) hs ht e =
      let both : byte r ∷ encode_with byte s ≡ byte q ∷ encode_with byte t =
        sym (head_bytes r s hs.0) ∙ e ∙ head_bytes q t ht.0 in
      let heads : byte r ≡ byte q = cc both in
      let tails : encode_with byte s ≡ encode_with byte t = cc both in
      let same : r ≡ q = Source-injective top m byte r q apart hs.0 ht.0 heads in
      let rest : s ≡ t = encode_with_injective s t hs.1 ht.1 tails in cc (same, rest)

All-mono : (P Q : ℕ → Type 0) → ((r : ℕ) → P r → Q r) → (s : List ℕ) → All P s → All Q s
All-mono P Q f [] h = tt
All-mono P Q f (r ∷ s) h = (f r h.0, All-mono P Q f s h.1)

-- The characters that a page has a place for.
abbrev pub has_character : Encoder → ℕ → Bool
has_character pc437 r = in_pc437 r
has_character wpc1252 r = in_windows1252 r

-- Two texts of characters that the page has are sent as the same bytes only if they are the same
-- text.
pub encode_injective :
    (page : Encoder) (s t : List ℕ)
    → All (λ r. has_character page r ≡ true) s
    → All (λ r. has_character page r ≡ true) t
    → encode page s ≡ encode page t
    → s ≡ t
unfolding encode encode_pc437 encode_windows1252
encode_injective pc437 s t hs ht =
    encode_with_injective 0x100 cp437_specials pc437_byte pc437_apart s t
      (All-mono _ _ pc437-Source s hs) (All-mono _ _ pc437-Source t ht)
encode_injective wpc1252 s t hs ht =
    encode_with_injective 0xA0 windows1252_specials windows1252_byte windows1252_apart s t
      (All-mono _ _ windows1252-Source s hs) (All-mono _ _ windows1252-Source t ht)
