-- ===== src/Record/Factory/Totals.antt =====
-- The sum over all recorders, whenever documents are closed.
use mari_paint.Prelude.{
  ℕ, ◌≡◌, refl, sym, ap, ◌∙◌, inl, inr, Bool, true, false, List, [], ◌∷◌, ◌==◌, Bool-cases, subst,
  eq_of,
}
use mari_paint.Core.Errors.{Result, ok, err}
use mari_paint.Record.Tally.{RecordingTally, merge}
use mari_paint.Record.Tally.Sums.{IsFull, merge-IsFull, merge_swap}
use mari_paint.Record.Factory.{
  Factory, new_factory, opened_or_not, open_for_document, is_live, erase_live, retire, total_from,
  total_tally,
}

-- What happens to a factory: a document is opened, or a recorder ends with what it has counted.
pub data FactoryStep : Type 0 where
  opened : Bool → List ℕ → (List ℕ → ℕ → Result ℕ) → FactoryStep
  retired : (ℕ → RecordingTally) → ℕ → FactoryStep

module _ (join : List ℕ → List ℕ) where
  unfoldable pub factory_step : FactoryStep → Factory → Factory
  factory_step (opened usable name open_at) f = (open_for_document usable join name open_at f).1
  factory_step (retired tally r) f = retire tally r f

  unfoldable pub factory_run : List FactoryStep → Factory → Factory
  unfolding factory_step
  factory_run [] f = f
  factory_run (s ∷ ss) f = factory_run ss (factory_step s f)

retire-closed :
    (tally : ℕ → RecordingTally) (r : ℕ) (f : Factory)
    → IsFull f.closed
    → IsFull (retire tally r f).closed
unfolding retire
retire-closed tally r f h = elim (Bool-cases (is_live r f.live)) [
  | inl yes' ↦ rw yes' (merge-IsFull (tally r) f.closed h)
  | inr no' ↦ rw no' h
]

opened_or_not-closed :
    (a : Result ℕ) (path : List ℕ) (f : Factory) → (opened_or_not a path f).1.closed ≡ f.closed
unfolding opened_or_not
opened_or_not-closed (ok h) path f = refl
opened_or_not-closed (err e) path f = refl

open-closed :
    (usable : Bool) (join : List ℕ → List ℕ) (name : List ℕ) (open_at : List ℕ → ℕ → Result ℕ)
    (f : Factory)
    → (open_for_document usable join name open_at f).1.closed ≡ f.closed
unfolding open_for_document
open-closed false join name open_at f = refl
open-closed true join name open_at f = opened_or_not-closed (open_at _ f.next_segment) _ _

run-IsFull :
    (join : List ℕ → List ℕ) (ss : List FactoryStep) (f : Factory)
    → IsFull f.closed
    → IsFull (factory_run join ss f).closed
unfolding factory_run factory_step
run-IsFull join [] f h = h
run-IsFull join (opened usable name open_at ∷ ss) f h =
    run-IsFull join ss _ (subst IsFull (sym (open-closed usable join name open_at f)) h)
run-IsFull join (retired tally r ∷ ss) f h = run-IsFull join ss _ (retire-closed tally r f h)

-- A live recorder may be counted first.
total_from-erase :
    (tally : ℕ → RecordingTally) (r : ℕ) (hs : List ℕ) (out : RecordingTally)
    → IsFull out
    → is_live r hs ≡ true
    → total_from tally (erase_live r hs) (merge (tally r) out) ≡ total_from tally hs out
unfolding total_from is_live erase_live
total_from-erase tally r [] out full on = cc
total_from-erase tally r (h ∷ hs) out full on = elim (Bool-cases (h == r)) [
  | inl same ↦ rw same (ap (λ k. total_from tally hs (merge (tally k) out)) (sym (eq_of h r same)))
  | inr other ↦ rw other (
      ap (total_from tally (erase_live r hs)) (merge_swap (tally h) (tally r) out full)
      ∙ total_from-erase tally r hs (merge (tally h) out) (merge-IsFull (tally h) out full)
          (rw other at on))
]

-- Whatever documents a factory has opened and closed before, closing one more does not change the
-- sum of all counts: strokes, operations on regions, and changed tiles, of every origin.
pub total_tally-retire :
    (join : List ℕ → List ℕ) (ss : List FactoryStep) (tally : ℕ → RecordingTally) (r : ℕ)
    → total_tally tally (retire tally r (factory_run join ss new_factory))
      ≡ total_tally tally (factory_run join ss new_factory)
unfolding total_tally retire
total_tally-retire join ss tally r =
    let f = factory_run join ss new_factory in
    let full =
      run-IsFull join ss new_factory
        (record { strokes = refl; region_ops = refl; changed_tiles = refl }) in
    elim (Bool-cases (is_live r f.live)) [
      | inl on ↦ rw on (total_from-erase tally r f.live f.closed full on)
      | inr off ↦ rw off refl
    ]
