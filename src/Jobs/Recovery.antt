-- ===== src/Jobs/Recovery.antt =====
-- What a panic of the observer does to a run that has ended.
use mathlib.Core.Option
use mentis_eterna.Prelude.{
  Bool, Bool-cases, List, String, [], ap, inl, inr, none, refl, some, true, ℕ, ◌==◌, ◌∙◌, ◌∷◌, ◌≡◌,
  nat_key, string_key,
}
use mentis_eterna.Jobs.Table.{Run, complete, done, fail, find_run, has_id, update_where}
use mentis_eterna.Jobs.Manager.{Manager, done_event, emit_event, event_of}
use mentis_eterna.Jobs.Worker.{Observer, record_outcome, settle, succeeded}

find_run-settle :
    (id : ℕ) (f : Run → Run) (rows : List Run)
    → ((r : Run) → (f r).id ≡ r.id)
    → find_run id (update_where (has_id id) f rows) ≡ Option.map f (find_run id rows)
unfolding find_run update_where
find_run-settle id f [] same = refl
find_run-settle id f (r ∷ rows) same = elim (Bool-cases (r.id == id)) [
  | inl e ↦ rw e (let e' : ((f r).id == id) ≡ true = ap (λ k. k == id) (same r) ∙ e in rw e' refl)
  | inr e ↦ rw e (rw e (find_run-settle id f rows same))
]

update_twice :
    (p : Run → Bool) (f g : Run → Run) (rows : List Run)
    → ((r : Run) → p (f r) ≡ p r)
    → update_where p g (update_where p f rows) ≡ update_where p (λ r. g (f r)) rows
unfolding update_where
update_twice p f g [] same = refl
update_twice p f g (r ∷ rows) same = elim (Bool-cases (p r)) [
  | inl e ↦
      let e' : p (f r) ≡ true = same r ∙ e in
      rw e (rw e' (ap (λ rest. g (f r) ∷ rest) (update_twice p f g rows same)))
  | inr e ↦ rw e (rw e (ap (λ rest. r ∷ rest) (update_twice p f g rows same)))
]

-- Where the task of a run succeeds and the observer panics at the event of it, the run that was
-- written as done is then written as errored, with the message of the panic and the result of the
-- task, and no other run changes.
pub record_outcome-errored :
    (observer : Observer) (now : ℕ) (r : Run) (text message : String) (m : Manager)
    → observer (
        event_of done_event r.id r.job_id done (some text) none (settle (complete now text) r.id m))
      ≡ some message
    → (find_run r.id (record_outcome observer now r (succeeded text) m).table.rows
        ≡ Option.map (λ q. fail now message (complete now text q)) (find_run r.id m.table.rows))
      × ((record_outcome observer now r (succeeded text) m).table.rows
          ≡ update_where (has_id r.id) (λ q. fail now message (complete now text q)) m.table.rows)
unfolding record_outcome emit_event
record_outcome-errored observer now r text message m e =
    let twice =
      update_twice (has_id r.id) (complete now text) (fail now message) m.table.rows (λ q. refl) in
    rw e (
      ap (λ rows. find_run r.id rows) twice
          ∙ find_run-settle r.id (λ q. fail now message (complete now text q)) m.table.rows
              (λ q. refl),
      twice,
    )
