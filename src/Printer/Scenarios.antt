-- ===== src/Printer/Scenarios.antt =====
-- Receipts on a printer.
use mentis_eterna.Prelude.{
  inl, arith, ℕ, ◌≤◌, true, false, none, some, List, [], ◌∷◌, ◌++◌, take, replicate, ◌≡◌, refl, inr,
}
use mentis_eterna.Prelude.Maps.{lookup}
use mentis_eterna.Printer.CodePage.{
  pc437, wpc1252, encode, cp437_specials, windows1252_specials, normalize_common_rune, pc437_byte,
  windows1252_byte, table_number,
}
use mentis_eterna.Printer.Buffer.{Buf, empty, init, text, bold, cut, feed}
use mentis_eterna.Printer.Layout.{truncate_with_ellipsis, pad_center}
use mentis_eterna.Printer.Safe.{IsText, encode-IsText}
use mentis_eterna.Printer.Lossless.{encode_injective}
use mentis_eterna.Printer.Transfer.{
  Device, device_error, write, configured_write_chunk_bytes, write_loop, write_throttled,
  send_and_cut, close,
}
use mentis_eterna.Printer.Delivery.{
  trailer, write_throttled_prefix, write_throttled_complete, send_and_cut_complete,
}

-- "Käse – 2 €" has an umlaut, a dash and a sign that page 437 lacks.
abbrev cheese : List ℕ
cheese = b'K' ∷ 0xE4 ∷ b's' ∷ b'e' ∷ 0x2013 ∷ 0x20AC ∷ []

cheese_437 : encode pc437 cheese ≡ b'K' ∷ 0x84 ∷ b's' ∷ b'e' ∷ b'-' ∷ b'?' ∷ []
unfolding encode pc437_byte normalize_common_rune cp437_specials lookup
cheese_437 = refl

cheese_1252 : encode wpc1252 cheese ≡ b'K' ∷ 0xE4 ∷ b's' ∷ b'e' ∷ 0x96 ∷ 0x80 ∷ []
unfolding encode windows1252_byte normalize_common_rune windows1252_specials lookup
cheese_1252 = refl

-- An escape in a text is printed as a question mark.
escape_437 : encode pc437 (0x1B ∷ b'@' ∷ []) ≡ b'?' ∷ b'@' ∷ []
unfolding encode pc437_byte normalize_common_rune cp437_specials lookup
escape_437 = refl

bold_bytes_sent :
    (text pc437 (b'x' ∷ []) (bold true (init pc437 empty))).bytes
    ≡ 0x1B ∷ b'@' ∷ 0x1B ∷ b't' ∷ 0 ∷ 0x1B ∷ b'!' ∷ 8 ∷ 0x1B ∷ b'E' ∷ 1 ∷ 0x1B ∷ b'G' ∷ 1 ∷ b'x'
      ∷ []
unfolding text bold init encode pc437_byte normalize_common_rune lookup table_number
bold_bytes_sent = refl

encode-IsText_example : IsText (encode pc437 (0x1B ∷ b'@' ∷ 0xE4 ∷ []))
encode-IsText_example = encode-IsText pc437 (0x1B ∷ b'@' ∷ 0xE4 ∷ [])

encode_injective_example : cheese ≡ cheese
unfolding windows1252_specials lookup
encode_injective_example =
    encode_injective wpc1252 cheese cheese (refl, (refl, (refl, (refl, (refl, (refl, tt))))))
      (refl, (refl, (refl, (refl, (refl, (refl, tt)))))) refl

truncate_cheese : truncate_with_ellipsis cheese 4 ≡ b'K' ∷ 0xE4 ∷ b's' ∷ 0x2026 ∷ []
unfolding truncate_with_ellipsis
truncate_cheese = refl

padded_cheese : pad_center cheese 9 ≡ replicate 1 b' ' ++ (cheese ++ replicate 2 b' ')
unfolding pad_center
padded_cheese = refl

-- A device that takes two chunks and then jams.
abbrev jamming : Device
jamming = record {
  received = [];
  answers =
      record { taken = 2; error = none }
      ∷ record { taken = 1; error = some (device_error "jam") }
      ∷ [];
  close_error = none;
  closed = false;
}

jammed : (write_throttled 2 cheese jamming).0 ≡ (3, some (device_error "jam"))
unfolding write_throttled write_loop write configured_write_chunk_bytes
jammed = refl

write_throttled_prefix_example :
    let r = write_throttled 2 cheese jamming in (r.0.0 ≤ 6) × (r.1.received ≡ take r.0.0 cheese)
write_throttled_prefix_example = write_throttled_prefix 2 cheese jamming

abbrev willing : Device
willing = record { received = []; answers = []; close_error = none; closed = false }

write_throttled_complete_example :
    ((write_throttled 4 cheese willing).0.0 ≡ 6)
    × ((write_throttled 4 cheese willing).1.received ≡ cheese)
unfolding write_throttled write_loop write configured_write_chunk_bytes
write_throttled_complete_example = write_throttled_complete 4 cheese willing (inr tt) refl

abbrev receipt : Buf
receipt = record empty { bytes = cheese }

-- It takes three chunks and has an error to tell of a fourth, which is not needed.
abbrev slow : Device
slow = record {
  received = [];
  answers =
      record { taken = 9; error = none }
      ∷ record { taken = 5; error = none }
      ∷ record { taken = 5; error = none }
      ∷ record { taken = 0; error = some (device_error "jam") }
      ∷ [];
  close_error = none;
  closed = false;
}

send_and_cut_complete_example :
    ((send_and_cut 5 receipt slow).1.received ≡ cheese ++ trailer)
    × ((send_and_cut 5 receipt slow).1.closed ≡ true)
unfolding send_and_cut write_throttled write_loop write configured_write_chunk_bytes close cut feed
send_and_cut_complete_example = send_and_cut_complete 5 receipt slow (inl (omega arith)) refl
