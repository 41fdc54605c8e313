-- ===== src/Printer/Delivery.antt =====
-- Which bytes of a receipt reach the printer.
use mathlib.Core.List.{append-nil, append_assoc}
use mentis_eterna.Prelude.{
  ℕ, zero, suc, ◌+◌, ◌≤◌, ◌<◌, min, true, false, Option, none, some, List, [], ◌∷◌, ◌++◌, length,
  take, drop, length-take, length-drop, nat_beq_iff, leb, nat_beq, Bool-cases, inl, inr, ◌⊎◌, ◌≡◌,
  refl, sym, ap, subst, ◌∙◌, arith,
}
use mentis_eterna.Printer.Buffer.{Buf, feed, cut, partial_cut}
use mentis_eterna.Printer.Transfer.{
  WriteError, short_write, Answer, Device, answer_with, write, configured_write_chunk_bytes,
  Written, after_chunk, write_loop, write_throttled, send_and_cut, close, first_error,
}

take-take : (n c : ℕ) (xs : List ℕ) → n ≤ length (take c xs) → take n (take c xs) ≡ take n xs
take-take zero c xs h = refl
take-take (suc n) zero xs h = absurd (omega arith)
take-take (suc n) (suc c) [] h = refl
take-take (suc n) (suc c) (x ∷ xs) h = ap (λ ys. x ∷ ys) (take-take n c xs (omega arith))

take_nil : (n : ℕ) → ◌≡◌ {A = List ℕ} (take n []) []
take_nil zero = refl
take_nil (suc n) = refl

take-add :
    (c k : ℕ) (xs : List ℕ) → take (min c (length xs) + k) xs ≡ take c xs ++ take k (drop c xs)
take-add zero k xs = ap (λ n. take n xs) (let e : min 0 (length xs) + k ≡ k = omega arith in e)
take-add (suc c) k [] = take_nil _ ∙ sym (take_nil k)
take-add (suc c) k (x ∷ xs) =
    let e : min (suc c) (suc (length xs)) + k ≡ suc (min c (length xs) + k) = omega arith in
    ap (λ n. take n (x ∷ xs)) e ∙ ap (λ ys. x ∷ ys) (take-add c k xs)

take_all : (c : ℕ) (xs : List ℕ) → length xs ≤ c → take c xs ≡ xs
take_all zero [] h = refl
take_all zero (x ∷ xs) h = absurd (omega arith)
take_all (suc c) [] h = refl
take_all (suc c) (x ∷ xs) h = ap (λ ys. x ∷ ys) (take_all c xs (omega arith))

take-min : (n : ℕ) (xs : List ℕ) → take (min n (length xs)) xs ≡ take n xs
take-min n xs = elim (Bool-cases (leb n (length xs))) [
  | inl e ↦ let m : min n (length xs) ≡ n = ground arith in ap (λ k. take k xs) m
  | inr e ↦
      let m : min n (length xs) ≡ length xs = ground arith in
      ap (λ k. take k xs) m
      ∙ take_all (length xs) xs (omega arith)
      ∙ sym (take_all n xs (ground arith))
]

-- After a write the device has received a prefix, of the length that it reports.
write_prefix :
    (chunk : List ℕ) (d : Device)
    → ((write chunk d).0.0 ≤ length chunk)
      × ((write chunk d).1.received ≡ d.received ++ take (write chunk d).0.0 chunk)
unfolding write
write_prefix chunk d = go d.answers
  where
    go :
        (more : List Answer)
        → ((answer_with chunk more d).0.0 ≤ length chunk)
          × ((answer_with chunk more d).1.received
              ≡ d.received ++ take (answer_with chunk more d).0.0 chunk)
    go [] = (
      omega arith,
      ap (λ ys. d.received ++ ys) (sym (take_all (length chunk) chunk (omega arith))),
    )
    go (a ∷ rest) = (omega arith, ap (λ ys. d.received ++ ys) (sym (take-min a.taken chunk)))

-- Of the bytes to send, the first `k` have reached the device, the count says so, and where no error
-- is reported these are all.
abbrev Delivers : ℕ → List ℕ → Device → Written → Type 0
Delivers total rest d r =
    (k : ℕ) × (k ≤ length rest)
    × (r.0.0 ≡ total + k)
    × (r.1.received ≡ d.received ++ take k rest)
    × (r.0.1 ≡ none → k ≡ length rest)

module _ (total chunk_size : ℕ) (rest : List ℕ) (d : Device) where
  abbrev chunk : List ℕ
  chunk = take chunk_size rest

  abbrev size : ℕ
  size = min chunk_size (length rest)

  partial-Delivers :
      (n : ℕ) (e : WriteError) (d1 : Device)
      → n ≤ length chunk
      → d1.received ≡ d.received ++ take n chunk
      → Delivers total rest d ((total + n, some e), d1)
  partial-Delivers n e d1 le got = (
    n,
    omega (arith, length-take chunk_size rest),
    refl,
    got ∙ ap (λ ys. d.received ++ ys) (take-take n chunk_size rest le),
    λ h. cc,
  )

  whole-Delivers :
      (n : ℕ) (d1 : Device) (next : Written)
      → n ≡ size
      → d1.received ≡ d.received ++ take n chunk
      → Delivers (total + size) (drop chunk_size rest) d1 next
      → Delivers total rest d next
  whole-Delivers n d1 next full got (k, le, count, more, all) =
      let all_taken : take n chunk ≡ chunk =
        take_all n chunk (omega (arith, length-take chunk_size rest)) in
      (
        size + k,
        omega (arith, length-drop chunk_size rest),
        count ∙ omega arith,
        more
            ∙ ap (λ ys. ys ++ take k (drop chunk_size rest))
                (got ∙ ap (λ ys. d.received ++ ys) all_taken)
            ∙ append_assoc d.received chunk (take k (drop chunk_size rest))
            ∙ ap (λ ys. d.received ++ ys) (sym (take-add chunk_size k rest)),
        λ h. omega (arith, length-drop chunk_size rest, all h),
      )

  after_chunk-Delivers :
      (n : ℕ) (e : Option WriteError) (d1 : Device) (next : Written)
      → n ≤ length chunk
      → d1.received ≡ d.received ++ take n chunk
      → Delivers (total + size) (drop chunk_size rest) d1 next
      → Delivers total rest d (after_chunk total size ((n, e), d1) next)
  after_chunk-Delivers n (some e) d1 next le got more = partial-Delivers n e d1 le got
  after_chunk-Delivers n none d1 next le got more = elim (Bool-cases (nat_beq n size)) [
    | inl t ↦ rw t (whole-Delivers n d1 next ((nat_beq_iff n size).0 t) got more)
    | inr f ↦ rw f (partial-Delivers n short_write d1 le got)
  ]

write_loop-Delivers :
    (fuel chunk_size total : ℕ) (rest : List ℕ) (d : Device)
    → 0 < chunk_size
    → length rest ≤ fuel
    → Delivers total rest d (write_loop fuel chunk_size total rest d)
unfolding write_loop
write_loop-Delivers zero chunk_size total [] d pos enough =
    (0, omega arith, omega arith, sym (append-nil d.received), λ h. refl)
write_loop-Delivers zero chunk_size total (x ∷ rest) d pos enough = absurd (omega arith)
write_loop-Delivers (suc fuel) chunk_size total [] d pos enough =
    (0, omega arith, omega arith, sym (append-nil d.received), λ h. refl)
write_loop-Delivers (suc fuel) chunk_size total (x ∷ rest) d pos enough =
    let all = x ∷ rest in
    let answer = write (take chunk_size all) d in
    let some_left : nat_beq (suc (length rest)) 0 ≡ false = ground arith in
    let (le, got) = write_prefix (take chunk_size all) d in
    rw some_left (
      after_chunk-Delivers total chunk_size all d answer.0.0 answer.0.1 answer.1 _ le got (
        write_loop-Delivers fuel chunk_size (total + min chunk_size (length all))
          (drop chunk_size all) answer.1 pos (omega (arith, length-drop chunk_size all))))

configured_pos : (setting : ℕ) → 0 < configured_write_chunk_bytes setting
unfolding configured_write_chunk_bytes
configured_pos setting = ground arith

abbrev whole_loop : ℕ → List ℕ → Device → Written
whole_loop setting bytes d =
    write_loop (length bytes) (configured_write_chunk_bytes setting) 0 bytes d

loop-Delivers :
    (setting : ℕ) (bytes : List ℕ) (d : Device)
    → Delivers 0 bytes d
        (write_loop (length bytes) (configured_write_chunk_bytes setting) 0 bytes d)
loop-Delivers setting bytes d =
    write_loop-Delivers (length bytes) (configured_write_chunk_bytes setting) 0 bytes d
      (configured_pos setting) (omega arith)

prefix_of :
    (bytes : List ℕ) (d : Device) (r : Written)
    → Delivers 0 bytes d r
    → (r.0.0 ≤ length bytes) × (r.1.received ≡ d.received ++ take r.0.0 bytes)
prefix_of bytes d r (k, le, count, got, all) =
    let same : r.0.0 ≡ k = count ∙ omega arith in
    (omega arith, got ∙ ap (λ n. d.received ++ take n bytes) (sym same))

no_bytes : (bytes : List ℕ) → nat_beq (length bytes) 0 ≡ true → bytes ≡ []
no_bytes [] h = refl
no_bytes (b ∷ bytes) h = absurd (ground arith)

-- Every path of `writeThrottled`: what has reached the device is a prefix of the receipt, of the
-- length that is returned.
pub write_throttled_prefix :
    (setting : ℕ) (bytes : List ℕ) (d : Device)
    → let r = write_throttled setting bytes d in
      (r.0.0 ≤ length bytes) × (r.1.received ≡ d.received ++ take r.0.0 bytes)
unfolding write_throttled
write_throttled_prefix setting bytes d = elim (Bool-cases (nat_beq (length bytes) 0)) [
  | inl empty ↦ rw empty (omega arith, sym (append-nil d.received))
  | inr more ↦
      rw more (elim (Bool-cases (leb (length bytes) (configured_write_chunk_bytes setting))) [
        | inl short ↦ rw short (write_prefix bytes d)
        | inr long ↦
            rw long (prefix_of bytes d (whole_loop setting bytes d) (loop-Delivers setting bytes d))
      ])
]

-- The contract of an `io.Writer` at the next write of up to so many bytes: it takes them all, or it
-- reports an error. Later writes may break it.
abbrev pub IsWriter : ℕ → List Answer → Type 0
IsWriter n [] = Unit
IsWriter n (a ∷ later) = a.error ≡ none → n ≤ a.taken

IsWriter-takes :
    (bytes : List ℕ) (answers : List Answer) (d : Device)
    → IsWriter (length bytes) answers
    → (answer_with bytes answers d).0.1 ≡ none
    → (answer_with bytes answers d).0.0 ≡ length bytes
IsWriter-takes bytes [] d w h = refl
IsWriter-takes bytes (a ∷ later) d w h = omega (arith, w h)

-- All bytes are counted and received, where no error is reported.
abbrev Complete : List ℕ → Device → Written → Type 0
Complete bytes d r = r.0.1 ≡ none → (r.0.0 ≡ length bytes) × (r.1.received ≡ d.received ++ bytes)

Complete-of :
    (bytes : List ℕ) (d : Device) (r : Written) → Delivers 0 bytes d r → Complete bytes d r
Complete-of bytes d r (k, le, count, got, all) h = (
  omega (arith, all h),
  got ∙ ap (λ ys. d.received ++ ys) (take_all k bytes (omega (arith, all h))),
)

short-Complete :
    (setting : ℕ) (bytes : List ℕ) (d : Device)
    → leb (length bytes) (configured_write_chunk_bytes setting) ≡ true
    → (configured_write_chunk_bytes setting < length bytes) ⊎ IsWriter (length bytes) d.answers
    → Complete bytes d (write bytes d)
unfolding write
short-Complete setting bytes d short (inl long) h = absurd (ground arith)
short-Complete setting bytes d short (inr writer) h =
    let (le, got) = write_prefix bytes d in
    let full = IsWriter-takes bytes d.answers d writer h in
    (full, got ∙ ap (λ ys. d.received ++ ys) (take_all (write bytes d).0.0 bytes (omega arith)))

-- Where no error is returned, the whole receipt has reached the device and is counted: always if it
-- is longer than a chunk, whose loop checks every write, and else if the device keeps the contract of
-- a writer.
pub write_throttled_complete :
    (setting : ℕ) (bytes : List ℕ) (d : Device)
    → (configured_write_chunk_bytes setting < length bytes) ⊎ IsWriter (length bytes) d.answers
    → (write_throttled setting bytes d).0.1 ≡ none
    → ((write_throttled setting bytes d).0.0 ≡ length bytes)
      × ((write_throttled setting bytes d).1.received ≡ d.received ++ bytes)
unfolding write_throttled
write_throttled_complete setting bytes d ok = elim (Bool-cases (nat_beq (length bytes) 0)) [
  | inl empty ↦ rw empty (λ h. (
    ground arith,
    sym (append-nil d.received) ∙ ap (λ ys. d.received ++ ys) (sym (no_bytes bytes empty)),
  ))
  | inr more ↦
      rw more (elim (Bool-cases (leb (length bytes) (configured_write_chunk_bytes setting))) [
        | inl short ↦ rw short (short-Complete setting bytes d short ok)
        | inr long ↦
            rw long
              (Complete-of bytes d (whole_loop setting bytes d) (loop-Delivers setting bytes d))
      ])
]

-- What `SendAndCut` adds behind the buffer: a feed of four lines, a line feed and a partial cut.
abbrev pub trailer : List ℕ
trailer = 0x1B ∷ b'd' ∷ 4 ∷ b'\n' ∷ 0x1D ∷ b'V' ∷ 1 ∷ []

no_first_error : (e e' : Option WriteError) → first_error e e' ≡ none → e ≡ none
no_first_error none e' h = refl
no_first_error (some e) e' h = h

with_trailer : (buf : Buf) → (partial_cut (feed 4 buf)).bytes ≡ buf.bytes ++ trailer
unfolding feed cut
with_trailer buf = simp append_assoc

-- Where `SendAndCut` returns no error, the device has received the whole buffer with the feed and the
-- cut behind it, and is closed: on any device, whatever its answers to the writes, if these bytes are
-- more than a chunk, and else if it keeps the contract of a writer for them.
pub send_and_cut_complete :
    (setting : ℕ) (buf : Buf) (d : Device)
    → (configured_write_chunk_bytes setting < length (buf.bytes ++ trailer))
      ⊎ IsWriter (length (buf.bytes ++ trailer)) d.answers
    → (send_and_cut setting buf d).0 ≡ none
    → ((send_and_cut setting buf d).1.received ≡ d.received ++ (buf.bytes ++ trailer))
      × ((send_and_cut setting buf d).1.closed ≡ true)
unfolding send_and_cut close
send_and_cut_complete setting buf d honest h =
    let bytes = (partial_cut (feed 4 buf)).bytes in
    let honest' =
      subst (λ l. (configured_write_chunk_bytes setting < length l) ⊎ IsWriter (length l) d.answers)
        (sym (with_trailer buf)) honest in
    let sent = write_throttled_complete setting bytes d honest' (
      no_first_error (write_throttled setting bytes d).0.1
        (write_throttled setting bytes d).1.close_error h) in
    (sent.1 ∙ ap (λ ys. d.received ++ ys) (with_trailer buf), refl)
