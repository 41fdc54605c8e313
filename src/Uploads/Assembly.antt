-- ===== src/Uploads/Assembly.antt =====
-- The chunk files: what is written is read, and the loop of the finish puts the pieces of a file together.
use mathlib.Core.List.{append_assoc, append-nil}
use mentis_eterna.Prelude.{
  ℕ, zero, suc, ◌+◌, ◌≤◌, ◌<◌, String, Bool, true, some, List, [], ◌∷◌, ◌++◌, Bool-cases, inl, inr,
  ◌≡◌, refl, sym, ap, ◌∙◌, ◌==◌, nat_key, string_key, if◌then◌else◌, arith,
}
use mentis_eterna.Prelude.Maps.{insert, lookup-insert, or_zero-insert}
use mentis_eterna.Uploads.Sessions.{
  Session, Store, first_where, update_sessions, read_chunk, write_chunk, dir_of,
}
use mentis_eterna.Uploads.Finalize.{assemble}

-- So many pieces of a file, from the one at `i` on.
unfoldable pub join : (ℕ → List ℕ) → ℕ → ℕ → List ℕ
join pieces i zero = []
join pieces i (suc n) = pieces i ++ join pieces (suc i) n

pub read_chunk-write_chunk :
    (id : String) (i j : ℕ) (bytes : List ℕ) (st : Store)
    → read_chunk id j (write_chunk id i bytes st)
      ≡ (if i == j then some bytes else read_chunk id j st)
unfolding read_chunk write_chunk
read_chunk-write_chunk id i j bytes st =
    rw (or_zero-insert [] id id (insert i bytes (dir_of id st)) st.chunks)
      (rw (string_refl id) (lookup-insert i j bytes (dir_of id st)))
  where
    string_refl : (k : String) → (k == k) ≡ true
    string_refl k = (string_key.same_iff k k).1 refl

pub assemble-join :
    (id : String) (pieces : ℕ → List ℕ) (i left : ℕ) (st : Store) (out : List ℕ)
    → ((k : ℕ) → i ≤ k → k < i + left → read_chunk id k st ≡ some (pieces k))
    → assemble id i left st out ≡ (some (out ++ join pieces i left), i + left)
unfolding assemble join
assemble-join id pieces i zero st out h =
    let last : i ≡ i + 0 = omega arith in cc (append-nil out, last)
assemble-join id pieces i (suc left) st out h =
    let last : suc i + left ≡ i + suc left = omega arith in
    let rest =
      assemble-join id pieces (suc i) left st (out ++ pieces i)
        (λ k ge lt. h k (omega arith) (omega arith)) in
    rw (h i (omega arith) (omega arith), assemble)
      (cc (rest, append_assoc out (pieces i) (join pieces (suc i) left), last))

-- The row that a lookup finds, behind an update that the lookup does not see.
pub first_where-update :
    (p q : Session → Bool) (f : Session → Session) (r : Session) (rows : List Session)
    → ((t : Session) → p (f t) ≡ p t)
    → q r ≡ true
    → first_where p rows ≡ some r
    → first_where p (update_sessions q f rows) ≡ some (f r)
unfolding update_sessions
first_where-update p q f r [] same k h = cc
first_where-update p q f r (s ∷ rows) same k h = elim (Bool-cases (p s)) [
  | inl e ↦
      let here : s ≡ r = cc (rw e at h) in
      rw here (rw k (rw (same r) (rw (ap p (sym here) ∙ e) refl)))
  | inr n ↦
      let rest = first_where-update p q f r rows same k (rw n at h) in
      elim (Bool-cases (q s)) [ inl e ↦ rw e (rw (same s) (rw n rest)) | inr e ↦ rw e (rw n rest) ]
]
