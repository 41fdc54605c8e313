-- ===== src/Printer/Transfer.antt =====
-- The transfer of a receipt to the device: `writeThrottled`, `Send` and `SendAndCut` of
-- pkg/printer/printer.go. The device is behind an interface: it answers each write, and the answers
-- are given in advance. The pauses between chunks change nothing that is modelled.
use mentis_eterna.Prelude.{
  ℕ, zero, suc, ◌+◌, min, String, Bool, true, Option, none, some, List, [], ◌∷◌, ◌++◌, length, take,
  drop, leb, nat_beq, if◌then◌else◌,
}
use mentis_eterna.Printer.Buffer.{Buf, feed, partial_cut}

-- `io.ErrShortWrite`, or what the device reports.
pub data WriteError : Type 0 where
  short_write : WriteError
  device_error : String → WriteError

-- How many bytes of the next write the device takes at most, and the error that it reports.
pub record Answer : Type 0 where
  pub taken : ℕ
  pub error : Option WriteError

-- The bytes that have reached the printer, the answers to come, and the answer to `Close`. A device
-- with no answer left takes all.
pub record Device : Type 0 where
  pub received : List ℕ
  pub answers : List Answer
  pub close_error : Option WriteError
  pub closed : Bool

abbrev pub answer_with : List ℕ → List Answer → Device → (ℕ × Option WriteError) × Device
answer_with chunk [] d = ((length chunk, none), record d { received = d.received ++ chunk })
answer_with chunk (a ∷ more) d = (
  (min a.taken (length chunk), a.error),
  record d { received = d.received ++ take a.taken chunk; answers = more },
)

-- `pr.Write(chunk)`.
unfoldable pub write : List ℕ → Device → (ℕ × Option WriteError) × Device
write chunk d = answer_with chunk d.answers d

abbrev pub default_write_chunk_bytes : ℕ
default_write_chunk_bytes = 512

-- A setting that is not positive is 0 here.
unfoldable pub configured_write_chunk_bytes : ℕ → ℕ
configured_write_chunk_bytes n = if nat_beq n 0 then default_write_chunk_bytes else n

abbrev pub Written : Type 0
Written = (ℕ × Option WriteError) × Device

-- The loop body's two early returns, and the way on.
abbrev pub after_chunk : ℕ → ℕ → Written → Written → Written
after_chunk total size ((n, some e), d) next = ((total + n, some e), d)
after_chunk total size ((n, none), d) next =
    if nat_beq n size then next else ((total + n, some short_write), d)

-- The loop over the chunks, on fuel; `rest` is `data[total:]`.
unfoldable pub write_loop : ℕ → ℕ → ℕ → List ℕ → Device → Written
write_loop zero chunk_size total rest d = ((total, none), d)
write_loop (suc fuel) chunk_size total rest d =
    let size = min chunk_size (length rest) in
    let answer = write (take chunk_size rest) d in
    let next = write_loop fuel chunk_size (total + size) (drop chunk_size rest) answer.1 in
    if nat_beq (length rest) 0 then ((total, none), d) else after_chunk total size answer next

-- Each round that goes on writes at least one byte, so that the length is fuel enough.
unfoldable pub write_throttled : ℕ → List ℕ → Device → Written
write_throttled setting bytes d =
    let chunk_size = configured_write_chunk_bytes setting in
    if nat_beq (length bytes) 0
    then ((0, none), d)
    else if leb (length bytes) chunk_size
    then write bytes d
    else write_loop (length bytes) chunk_size 0 bytes d

unfoldable pub send : ℕ → Buf → Device → Option WriteError × Device
send setting buf d = let ((n, e), d') = write_throttled setting buf.bytes d in (e, d')

unfoldable pub close : Device → Option WriteError × Device
close d = (d.close_error, record d { closed = true })

abbrev pub first_error : Option WriteError → Option WriteError → Option WriteError
first_error (some e) other = some e
first_error none other = other

-- The buffer gets the feed and the cut, and the device is closed on every path.
unfoldable pub send_and_cut : ℕ → Buf → Device → Option WriteError × Device
send_and_cut setting buf d =
    let ((n, e), d') = write_throttled setting (partial_cut (feed 4 buf)).bytes d in
    let (e', d'') = close d' in (first_error e e', d'')
