-- ===== src/Record/Tally/Sums.antt =====
-- Tallies that are added up: the order does not matter.
use mari_paint.Prelude.{
  ℕ, ◌+◌, ◌%◌, ◌^◌, ◌≡◌, refl, sym, ap, ◌∙◌, List, [], ◌∷◌, arith, length, get_or, length-set,
  subst,
}
use mari_paint.Core.Origin.{slot, add, count}
use mari_paint.Record.Tally.{RecordingTally, bump, merge}

-- A tally with a count for each slot.
pub record IsFull (t : RecordingTally) : Type 0 where
  pub strokes : length t.strokes.counts ≡ 6
  pub region_ops : length t.region_ops.counts ≡ 6
  pub changed_tiles : length t.changed_tiles ≡ 6

-- The six rounds on one list of counts.
abbrev bumps : List ℕ → List ℕ → List ℕ
bumps ts cs =
    bump
      (bump
        (bump (bump (bump (bump cs 0 (get_or ts 0 0)) 1 (get_or ts 1 0)) 2 (get_or ts 2 0)) 3
          (get_or ts 3 0))
        4 (get_or ts 4 0))
      5 (get_or ts 5 0)

merge-bumps :
    (t out : RecordingTally)
    → merge t out ≡ record {
      strokes = record { counts = bumps t.strokes.counts out.strokes.counts };
      region_ops = record { counts = bumps t.region_ops.counts out.region_ops.counts };
      changed_tiles = bumps t.changed_tiles out.changed_tiles;
    }
unfolding merge add count slot
merge-bumps t out = refl

length-bumps : (ts cs : List ℕ) → length (bumps ts cs) ≡ length cs
unfolding bump
length-bumps ts cs =
    length-set _ 5 _
    ∙ length-set _ 4 _
    ∙ length-set _ 3 _
    ∙ length-set _ 2 _
    ∙ length-set _ 1 _
    ∙ length-set cs 0 _

Six : List ℕ → Type 0
Six cs =
    (a : ℕ) × (b : ℕ) × (c : ℕ) × (d : ℕ) × (e : ℕ) × (f : ℕ) × (cs ≡ a ∷ b ∷ c ∷ d ∷ e ∷ f ∷ [])

six : (cs : List ℕ) → length cs ≡ 6 → Six cs
unfolding Six
six [] h = absurd (omega arith)
six (a ∷ []) h = absurd (omega arith)
six (a ∷ b ∷ []) h = absurd (omega arith)
six (a ∷ b ∷ c ∷ []) h = absurd (omega arith)
six (a ∷ b ∷ c ∷ d ∷ []) h = absurd (omega arith)
six (a ∷ b ∷ c ∷ d ∷ e ∷ []) h = absurd (omega arith)
six (a ∷ b ∷ c ∷ d ∷ e ∷ f ∷ []) h = (a, b, c, d, e, f, refl)
six (a ∷ b ∷ c ∷ d ∷ e ∷ f ∷ g ∷ cs) h = absurd (omega arith)

swap : (a x y : ℕ) → ((a + y) % 2 ^ 64 + x) % 2 ^ 64 ≡ ((a + x) % 2 ^ 64 + y) % 2 ^ 64
swap a x y = omega arith

bumps_swap : (xs ys cs : List ℕ) → length cs ≡ 6 → bumps xs (bumps ys cs) ≡ bumps ys (bumps xs cs)
unfolding Six bump
bumps_swap xs ys cs h =
    let (a, b, c, d, e, f, same) = six cs h in
    subst (λ ls. bumps xs (bumps ys ls) ≡ bumps ys (bumps xs ls)) (sym same)
      (λ i.
        swap a (get_or xs 0 0) (get_or ys 0 0) i
        ∷ swap b (get_or xs 1 0) (get_or ys 1 0) i
        ∷ swap c (get_or xs 2 0) (get_or ys 2 0) i
        ∷ swap d (get_or xs 3 0) (get_or ys 3 0) i
        ∷ swap e (get_or xs 4 0) (get_or ys 4 0) i
        ∷ swap f (get_or xs 5 0) (get_or ys 5 0) i
        ∷ [])

pub merge-IsFull : (t out : RecordingTally) → IsFull out → IsFull (merge t out)
merge-IsFull t out h = subst IsFull (sym (merge-bumps t out)) (record {
  strokes = length-bumps t.strokes.counts out.strokes.counts ∙ h.strokes;
  region_ops = length-bumps t.region_ops.counts out.region_ops.counts ∙ h.region_ops;
  changed_tiles = length-bumps t.changed_tiles out.changed_tiles ∙ h.changed_tiles;
})

-- Of two tallies that are added, either can be the first.
pub merge_swap :
    (s t out : RecordingTally) → IsFull out → merge s (merge t out) ≡ merge t (merge s out)
merge_swap s t out h =
    ap (merge s) (merge-bumps t out)
    ∙ merge-bumps s _
    ∙ (λ i. record {
      strokes = record {
        counts = bumps_swap s.strokes.counts t.strokes.counts out.strokes.counts h.strokes i;
      };
      region_ops = record {
        counts =
            bumps_swap s.region_ops.counts t.region_ops.counts out.region_ops.counts h.region_ops i;
      };
      changed_tiles =
          bumps_swap s.changed_tiles t.changed_tiles out.changed_tiles h.changed_tiles i;
    })
    ∙ sym (merge-bumps t _)
    ∙ ap (merge t) (sym (merge-bumps s out))
