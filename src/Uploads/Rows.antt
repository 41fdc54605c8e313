-- ===== src/Uploads/Rows.antt =====
-- What the statements of the uploads do to the rows: which rows there are, and whether their ids are
-- unique.
use mathlib.Core.List.{Memᴰ}
use mathlib.Core.Bool.{false≢true}
use mentis_eterna.Prelude.{
  String, Bool, true, false, some, List, [], ◌∷◌, ◌++◌, All, keep_if, Bool-cases, inl, inr, ◌≡◌,
  refl, sym, ap, ◌∙◌, subst, ◌==◌, ==→eq, nat_key, string_key, if◌then◌else◌, arith,
}
use mentis_eterna.Uploads.Sessions.{Session, is_session, first_where, update_sessions, any_session}

-- The primary key: no id occurs twice.
abbrev pub UniqueIds : List Session → Type 0
UniqueIds [] = Unit
UniqueIds (s ∷ rows) = (any_session (is_session s.upload_id) rows ≡ false) × UniqueIds rows

-- An update that keeps the ids keeps them unique.
module _ (p : Session → Bool) (f : Session → Session) where
  pub All-update_sessions :
      (P Q : Session → Type 0) (rows : List Session)
      → ((s : Session) → Memᴰ s rows → P s → Q (if p s then f s else s))
      → All P rows
      → All Q (update_sessions p f rows)
  unfolding update_sessions
  All-update_sessions P Q [] g h = tt
  All-update_sessions P Q (s ∷ rows) g h =
      (g s (Memᴰ.head refl) h.0, All-update_sessions P Q rows (λ t m. g t (Memᴰ.tail m)) h.1)

  pub any_session-update_sessions :
      (q : Session → Bool) (rows : List Session)
      → ((s : Session) → q (f s) ≡ q s)
      → any_session q (update_sessions p f rows) ≡ any_session q rows
  unfolding update_sessions
  any_session-update_sessions q [] same = refl
  any_session-update_sessions q (s ∷ rows) same =
      ground (arith, same s, any_session-update_sessions q rows same)

  pub UniqueIds-update_sessions :
      (rows : List Session)
      → ((s : Session) → (f s).upload_id ≡ s.upload_id)
      → UniqueIds rows
      → UniqueIds (update_sessions p f rows)
  unfolding update_sessions
  UniqueIds-update_sessions [] same u = tt
  UniqueIds-update_sessions (s ∷ rows) same u =
      let id : (if p s then f s else s).upload_id ≡ s.upload_id = elim (Bool-cases (p s)) [
        | inl e ↦ rw e (same s)
        | inr e ↦ rw e refl
      ] in
      (
        subst (λ k. any_session (is_session k) (update_sessions p f rows) ≡ false) (sym id)
            (any_session-update_sessions (is_session s.upload_id) rows
                (λ t. ap (λ k. k == s.upload_id) (same t))
              ∙ u.0),
        UniqueIds-update_sessions rows same u.1,
      )

pub any_session-keep_if :
    (q p : Session → Bool) (rows : List Session)
    → any_session q rows ≡ false
    → any_session q (keep_if p rows) ≡ false
any_session-keep_if q p [] h = refl
any_session-keep_if q p (s ∷ rows) h =
    let rest : any_session q rows ≡ false = ground (arith, h) in
    ground (arith, h, any_session-keep_if q p rows rest)

pub UniqueIds-keep_if :
    (p : Session → Bool) (rows : List Session) → UniqueIds rows → UniqueIds (keep_if p rows)
UniqueIds-keep_if p [] u = tt
UniqueIds-keep_if p (s ∷ rows) u = elim (Bool-cases (p s)) [
  | inl e ↦
      rw e (any_session-keep_if (is_session s.upload_id) p rows u.0, UniqueIds-keep_if p rows u.1)
  | inr e ↦ rw e (UniqueIds-keep_if p rows u.1)
]

pub any_session-append :
    (q : Session → Bool) (rows : List Session) (t : Session)
    → any_session q rows ≡ false
    → q t ≡ false
    → any_session q (rows ++ t ∷ []) ≡ false
any_session-append q [] t h k = ground (arith, k)
any_session-append q (s ∷ rows) t h k =
    let rest : any_session q rows ≡ false = ground (arith, h) in
    ground (arith, h, any_session-append q rows t rest k)

pub UniqueIds-append :
    (rows : List Session) (t : Session)
    → UniqueIds rows
    → any_session (is_session t.upload_id) rows ≡ false
    → UniqueIds (rows ++ t ∷ [])
UniqueIds-append [] t u h = (refl, tt)
UniqueIds-append (s ∷ rows) t u h =
    let rest : any_session (is_session t.upload_id) rows ≡ false = ground (arith, h) in
    (
      any_session-append (is_session s.upload_id) rows t u.0 (
          ground (
            arith,
            h,
            string_key.same_iff t.upload_id s.upload_id,
            string_key.same_iff s.upload_id t.upload_id,
          )),
      UniqueIds-append rows t u.1 rest,
    )

pub any_session-mem :
    (q : Session → Bool) (s : Session) (rows : List Session)
    → Memᴰ s rows
    → q s ≡ true
    → any_session q rows ≡ true
any_session-mem q s [] m h = elim m [ ]
any_session-mem q s (t ∷ rows) (Memᴰ.head e) h = ground (arith, ap q (sym e) ∙ h)
any_session-mem q s (t ∷ rows) (Memᴰ.tail m) h = ground (arith, any_session-mem q s rows m h)

-- A row is the first one with its id.
pub first_where_unique :
    (id : String) (s : Session) (rows : List Session)
    → UniqueIds rows
    → Memᴰ s rows
    → is_session id s ≡ true
    → first_where (is_session id) rows ≡ some s
first_where_unique id s [] u m h = elim m [ ]
first_where_unique id s (t ∷ rows) u (Memᴰ.head e) h =
    rw (ap (is_session id) (sym e) ∙ h) (ap some (sym e))
first_where_unique id s (t ∷ rows) u (Memᴰ.tail m) h = elim (Bool-cases (is_session id t)) [
  | inl e ↦
      let same : t.upload_id ≡ id = ==→eq t.upload_id id e in
      absurd (
        false≢true (
          sym u.0
          ∙ any_session-mem (is_session t.upload_id) s rows m
              (subst (λ k. is_session k s ≡ true) (sym same) h)))
  | inr n ↦ rw n (first_where_unique id s rows u.1 m h)
]

-- What a lookup finds stands in the table and passes the test.
pub first_where-some :
    (p : Session → Bool) (s : Session) (rows : List Session)
    → first_where p rows ≡ some s
    → Memᴰ s rows × (p s ≡ true)
first_where-some p s [] h = cc
first_where-some p s (t ∷ rows) h = elim (Bool-cases (p t)) [
  | inl e ↦
      let same : t ≡ s = cc (rw e at h) in (Memᴰ.head (sym same), subst (λ x. p x ≡ true) same e)
  | inr n ↦ let (m, k) = first_where-some p s rows (rw n at h) in (Memᴰ.tail m, k)
]
