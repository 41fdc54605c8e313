-- ===== src/Printer/Buffer.antt =====
-- `Buf` of pkg/printer/printer.go: every method appends bytes and returns the buffer.
use Prim.Native.Nat.{bit_and, bit_or}
use mentis_eterna.Prelude.{
  ℕ, ◌-◌, Bool, true, false, Option, none, some, List, [], ◌∷◌, ◌++◌, replicate, ◌==◌, nat_key,
  if◌then◌else◌,
}
use mentis_eterna.Printer.CodePage.{Encoder, encode, table_number}

abbrev pub esc : ℕ
esc = 0x1B

abbrev pub gs : ℕ
gs = 0x1D

abbrev pub escpos_font_a : ℕ
escpos_font_a = 0

abbrev pub escpos_font_b : ℕ
escpos_font_b = 1

abbrev pub escpos_font_c : ℕ
escpos_font_c = 2

-- `none` is the zero code page, with no encoder.
pub record Buf : Type 0 where
  pub bytes : List ℕ
  pub code_table_set : Bool
  pub code_page : Option Encoder
  pub style : ℕ

-- The zero value, ready to use; `Reset` goes back to it.
abbrev pub empty : Buf
empty = record { bytes = []; code_table_set = false; code_page = none; style = 0 }

unfoldable pub write : List ℕ → Buf → Buf
write bs p = record p { bytes = p.bytes ++ bs }

-- `page` is what `configuredCodePage` gives.
unfoldable pub init : Encoder → Buf → Buf
unfolding write
init page p = record (write (esc ∷ b'@' ∷ esc ∷ b't' ∷ table_number page ∷ []) p) {
  code_page = some page;
  style = 0;
  code_table_set = true;
}

-- 0 is left, 1 is the centre, 2 is right.
unfoldable pub align : ℕ → Buf → Buf
unfolding write
align n p = write (esc ∷ b'a' ∷ n ∷ []) p

abbrev pub align_left : Buf → Buf
align_left p = align 0 p

abbrev pub align_center : Buf → Buf
align_center p = align 1 p

abbrev pub align_right : Buf → Buf
align_right p = align 2 p

unfoldable pub font : ℕ → Buf → Buf
unfolding write
font n p = write (esc ∷ b'M' ∷ n ∷ []) p

abbrev pub font_a : Buf → Buf
font_a p = font escpos_font_a p

abbrev pub font_b : Buf → Buf
font_b p = font escpos_font_b p

abbrev pub font_c : Buf → Buf
font_c p = font escpos_font_c p

abbrev pub bold_bytes : Bool → List ℕ
bold_bytes on = let n : ℕ = if on then 1 else 0 in esc ∷ b'E' ∷ n ∷ esc ∷ b'G' ∷ n ∷ []

abbrev pub is_bold : ℕ → Bool
is_bold n = if bit_and n 0x08 == 0 then false else true

-- ESC ! first, then the bold state, so that it takes precedence.
unfoldable pub set_style : ℕ → Buf → Buf
unfolding write
set_style n p = record (write (esc ∷ b'!' ∷ n ∷ bold_bytes (is_bold n)) p) { style = n }

-- `style | 0x08` and `style &^ 0x08`.
unfoldable pub bold : Bool → Buf → Buf
unfolding set_style
bold true p = set_style (bit_or p.style 0x08) p
bold false p = set_style (p.style - bit_and p.style 0x08) p

unfoldable pub underline : ℕ → Buf → Buf
unfolding write
underline n p = write (esc ∷ b'-' ∷ n ∷ []) p

abbrev pub big_size : Buf → Buf
big_size p = set_style 0x18 p

abbrev pub double_size : Buf → Buf
double_size p = set_style 0x38 p

abbrev pub normal_size : Buf → Buf
normal_size p = set_style 0x00 p

unfoldable pub ln : Buf → Buf
unfolding write
ln p = write (b'\n' ∷ []) p

-- A negative width panics in `make`, and is no width here.
unfoldable pub h_line : ℕ → Buf → Buf
unfolding write ln
h_line width p = ln (write (replicate width b'-') p)

unfoldable pub line_spacing : ℕ → Buf → Buf
unfolding write
line_spacing dots p = write (esc ∷ b'3' ∷ dots ∷ []) p

unfoldable pub reset_line_spacing : Buf → Buf
unfolding write
reset_line_spacing p = write (esc ∷ b'2' ∷ []) p

unfoldable pub spacer_line : ℕ → Buf → Buf
unfolding write ln line_spacing reset_line_spacing
spacer_line width p = reset_line_spacing (ln (write (replicate width b'-') (line_spacing 10 p)))

unfoldable pub double_h_line : ℕ → Buf → Buf
unfolding write ln
double_h_line width p = ln (write (replicate width b'=') p)

abbrev pub page_or : Encoder → Option Encoder → Encoder
page_or configured none = configured
page_or configured (some page) = page

-- Text before `Init` is encoded with the configured page.
unfoldable pub text : Encoder → List ℕ → Buf → Buf
unfolding write
text configured s p =
    let page = page_or configured p.code_page in
    record (write (encode page s) p) { code_page = some page; code_table_set = true }

unfoldable pub feed : ℕ → Buf → Buf
unfolding write
feed n p = write (esc ∷ b'd' ∷ n ∷ []) p

-- 0 is a full cut, 1 a partial one.
unfoldable pub cut : ℕ → Buf → Buf
unfolding write ln
cut mode p = write (gs ∷ b'V' ∷ mode ∷ []) (ln p)

abbrev pub partial_cut : Buf → Buf
partial_cut p = cut 1 p

abbrev pub full_cut : Buf → Buf
full_cut p = cut 0 p

abbrev pub reset : Buf → Buf
reset p = empty
