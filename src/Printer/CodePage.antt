-- ===== src/Printer/CodePage.antt =====
-- The code pages of pkg/printer/printer.go. A Go string is read as the list of its runes, as `range`
-- gives them; a byte is a number below 256.
use mentis_eterna.Prelude.{
  ℕ, Bool, ◌&&◌, ◌||◌, Option, none, some, List, [], ◌∷◌, ◌++◌, leb, ◌==◌, nat_key, string_key,
  String, if◌then◌else◌,
}
use mentis_eterna.Prelude.Maps.{Map, lookup}

unfoldable pub cp437_specials : Map ℕ ℕ
cp437_specials =
    (0x00C7, 0x80)
    ∷ (0x00FC, 0x81)
    ∷ (0x00E9, 0x82)
    ∷ (0x00E2, 0x83)
    ∷ (0x00E4, 0x84)
    ∷ (0x00E0, 0x85)
    ∷ (0x00E5, 0x86)
    ∷ (0x00E7, 0x87)
    ∷ (0x00EA, 0x88)
    ∷ (0x00EB, 0x89)
    ∷ (0x00E8, 0x8A)
    ∷ (0x00EF, 0x8B)
    ∷ (0x00EE, 0x8C)
    ∷ (0x00EC, 0x8D)
    ∷ (0x00C4, 0x8E)
    ∷ (0x00C5, 0x8F)
    ∷ (0x00C9, 0x90)
    ∷ (0x00E6, 0x91)
    ∷ (0x00C6, 0x92)
    ∷ (0x00F4, 0x93)
    ∷ (0x00F6, 0x94)
    ∷ (0x00F2, 0x95)
    ∷ (0x00FB, 0x96)
    ∷ (0x00F9, 0x97)
    ∷ (0x00FF, 0x98)
    ∷ (0x00D6, 0x99)
    ∷ (0x00DC, 0x9A)
    ∷ (0x00A2, 0x9B)
    ∷ (0x00A3, 0x9C)
    ∷ (0x00A5, 0x9D)
    ∷ (0x20A7, 0x9E)
    ∷ (0x0192, 0x9F)
    ∷ (0x00E1, 0xA0)
    ∷ (0x00ED, 0xA1)
    ∷ (0x00F3, 0xA2)
    ∷ (0x00FA, 0xA3)
    ∷ (0x00F1, 0xA4)
    ∷ (0x00D1, 0xA5)
    ∷ (0x00AA, 0xA6)
    ∷ (0x00BA, 0xA7)
    ∷ (0x00BF, 0xA8)
    ∷ (0x2310, 0xA9)
    ∷ (0x00AC, 0xAA)
    ∷ (0x00BD, 0xAB)
    ∷ (0x00BC, 0xAC)
    ∷ (0x00A1, 0xAD)
    ∷ (0x00AB, 0xAE)
    ∷ (0x00BB, 0xAF)
    ∷ (0x2591, 0xB0)
    ∷ (0x2592, 0xB1)
    ∷ (0x2593, 0xB2)
    ∷ (0x2502, 0xB3)
    ∷ (0x2524, 0xB4)
    ∷ (0x2561, 0xB5)
    ∷ (0x2562, 0xB6)
    ∷ (0x2556, 0xB7)
    ∷ (0x2555, 0xB8)
    ∷ (0x2563, 0xB9)
    ∷ (0x2551, 0xBA)
    ∷ (0x2557, 0xBB)
    ∷ (0x255D, 0xBC)
    ∷ (0x255C, 0xBD)
    ∷ (0x255B, 0xBE)
    ∷ (0x2510, 0xBF)
    ∷ (0x2514, 0xC0)
    ∷ (0x2534, 0xC1)
    ∷ (0x252C, 0xC2)
    ∷ (0x251C, 0xC3)
    ∷ (0x2500, 0xC4)
    ∷ (0x253C, 0xC5)
    ∷ (0x255E, 0xC6)
    ∷ (0x255F, 0xC7)
    ∷ (0x255A, 0xC8)
    ∷ (0x2554, 0xC9)
    ∷ (0x2569, 0xCA)
    ∷ (0x2566, 0xCB)
    ∷ (0x2560, 0xCC)
    ∷ (0x2550, 0xCD)
    ∷ (0x256C, 0xCE)
    ∷ (0x2567, 0xCF)
    ∷ (0x2568, 0xD0)
    ∷ (0x2564, 0xD1)
    ∷ (0x2565, 0xD2)
    ∷ (0x2559, 0xD3)
    ∷ (0x2558, 0xD4)
    ∷ (0x2552, 0xD5)
    ∷ (0x2553, 0xD6)
    ∷ (0x256B, 0xD7)
    ∷ (0x256A, 0xD8)
    ∷ (0x2518, 0xD9)
    ∷ (0x250C, 0xDA)
    ∷ (0x2588, 0xDB)
    ∷ (0x2584, 0xDC)
    ∷ (0x258C, 0xDD)
    ∷ (0x2590, 0xDE)
    ∷ (0x2580, 0xDF)
    ∷ (0x03B1, 0xE0)
    ∷ (0x00DF, 0xE1)
    ∷ (0x0393, 0xE2)
    ∷ (0x03C0, 0xE3)
    ∷ (0x03A3, 0xE4)
    ∷ (0x03C3, 0xE5)
    ∷ (0x00B5, 0xE6)
    ∷ (0x03C4, 0xE7)
    ∷ (0x03A6, 0xE8)
    ∷ (0x0398, 0xE9)
    ∷ (0x03A9, 0xEA)
    ∷ (0x03B4, 0xEB)
    ∷ (0x221E, 0xEC)
    ∷ (0x03C6, 0xED)
    ∷ (0x03B5, 0xEE)
    ∷ (0x2229, 0xEF)
    ∷ (0x2261, 0xF0)
    ∷ (0x00B1, 0xF1)
    ∷ (0x2265, 0xF2)
    ∷ (0x2264, 0xF3)
    ∷ (0x2320, 0xF4)
    ∷ (0x2321, 0xF5)
    ∷ (0x00F7, 0xF6)
    ∷ (0x2248, 0xF7)
    ∷ (0x00B0, 0xF8)
    ∷ (0x2219, 0xF9)
    ∷ (0x00B7, 0xFA)
    ∷ (0x221A, 0xFB)
    ∷ (0x207F, 0xFC)
    ∷ (0x00B2, 0xFD)
    ∷ (0x25A0, 0xFE)
    ∷ []

unfoldable pub windows1252_specials : Map ℕ ℕ
windows1252_specials =
    (0x20AC, 0x80)
    ∷ (0x201A, 0x82)
    ∷ (0x0192, 0x83)
    ∷ (0x201E, 0x84)
    ∷ (0x2026, 0x85)
    ∷ (0x2020, 0x86)
    ∷ (0x2021, 0x87)
    ∷ (0x02C6, 0x88)
    ∷ (0x2030, 0x89)
    ∷ (0x0160, 0x8A)
    ∷ (0x2039, 0x8B)
    ∷ (0x0152, 0x8C)
    ∷ (0x017D, 0x8E)
    ∷ (0x2018, 0x91)
    ∷ (0x2019, 0x92)
    ∷ (0x201C, 0x93)
    ∷ (0x201D, 0x94)
    ∷ (0x2022, 0x95)
    ∷ (0x2013, 0x96)
    ∷ (0x2014, 0x97)
    ∷ (0x02DC, 0x98)
    ∷ (0x2122, 0x99)
    ∷ (0x0161, 0x9A)
    ∷ (0x203A, 0x9B)
    ∷ (0x0153, 0x9C)
    ∷ (0x017E, 0x9E)
    ∷ (0x0178, 0x9F)
    ∷ []

-- The runes that both code pages treat alike: NUL is dropped and a tab becomes four blanks.
unfoldable pub normalize_common_rune : ℕ → Option (List ℕ)
normalize_common_rune r =
    if r == 0
    then some []
    else if r == b'\t'
    then some (b' ' ∷ b' ' ∷ b' ' ∷ b' ' ∷ [])
    else if r == b'\n' || r == b'\r'
    then some (r ∷ [])
    else if r == 0x00A0
    then some (b' ' ∷ [])
    else if r == 0x2212
    then some (b'-' ∷ [])
    else none

abbrev pub or_question_mark : Option ℕ → ℕ
or_question_mark none = b'?'
or_question_mark (some b) = b

abbrev pub is_between : ℕ → ℕ → ℕ → Bool
is_between lo hi r = leb lo r && leb r hi

-- The `switch` of the loop of `encodePC437`.
unfoldable pub pc437_byte : ℕ → ℕ
pc437_byte r =
    if r == 0x2010 || r == 0x2011 || r == 0x2012 || r == 0x2013 || r == 0x2014 || r == 0x2015
    then b'-'
    else if r == 0x2018 || r == 0x2019 || r == 0x2032
    then 0x27
    else if r == 0x201C || r == 0x201D || r == 0x2033
    then 0x22
    else if r == 0x2022
    then b'*'
    else if r == 0x2026
    then b'.'
    else if is_between 0x20 0x7E r
    then r
    else or_question_mark (lookup r cp437_specials)

-- The `switch` of the loop of `encodeWindows1252`.
unfoldable pub windows1252_byte : ℕ → ℕ
windows1252_byte r =
    if is_between 0x20 0x7E r
    then r
    else if is_between 0xA0 0xFF r
    then r
    else or_question_mark (lookup r windows1252_specials)

abbrev pub normalized_or : Option (List ℕ) → ℕ → List ℕ
normalized_or (some bytes) b = bytes
normalized_or none b = b ∷ []

-- The loop over the runes, given the byte of a rune that is not common to both pages.
unfoldable pub encode_with : (ℕ → ℕ) → List ℕ → List ℕ
encode_with byte [] = []
encode_with byte (r ∷ s) = normalized_or (normalize_common_rune r) (byte r) ++ encode_with byte s

unfoldable pub encode_pc437 : List ℕ → List ℕ
unfolding encode_with
encode_pc437 s = encode_with pc437_byte s

unfoldable pub encode_windows1252 : List ℕ → List ℕ
unfolding encode_with
encode_windows1252 s = encode_with windows1252_byte s

-- `escposCodePage`: one of two pages, each with its name, its table number and its encoder.
pub data Encoder : Type 0 where
  pc437 wpc1252 : Encoder

unfoldable pub encode : Encoder → List ℕ → List ℕ
unfolding encode_pc437 encode_windows1252
encode pc437 s = encode_pc437 s
encode wpc1252 s = encode_windows1252 s

unfoldable pub table_number : Encoder → ℕ
table_number pc437 = 0
table_number wpc1252 = 16

unfoldable pub page_name : Encoder → String
page_name pc437 = "pc437"
page_name wpc1252 = "wpc1252"

-- The switch on the setting, after `strings.TrimSpace` and `strings.ToLower`.
unfoldable pub configured_code_page : String → Encoder
configured_code_page setting =
    if setting == "" || setting == "auto"
    then pc437
    else if setting == "0" || setting == "pc437" || setting == "cp437" || setting == "tm-t88iii"
    then pc437
    else if setting == "16"
        || setting == "wpc1252"
        || setting == "cp1252"
        || setting == "windows1252"
        || setting == "windows-1252"
    then wpc1252
    else pc437
