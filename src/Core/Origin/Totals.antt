-- ===== src/Core/Origin/Totals.antt =====
-- The counts of strokes by origin, over any number of strokes.
use mari_paint.Prelude.{
  ℕ, zero, suc, ◌+◌, ◌%◌, ◌^◌, ◌<◌, ◌≡◌, refl, ◌∙◌, List, [], ◌∷◌, arith, length, set, get_or,
  length-set, get_or-set_self, get_or-set_other, ◌==◌, if◌then◌else◌, ℕ_discrete, subst,
}
use mari_paint.Core.Origin.{StrokeOriginStats, no_stats, slot, add, count, sum_counts, total}

-- Strokes, each call with an origin and how many, counted one after the other.
abbrev pub add_all : StrokeOriginStats → List (ℕ × ℕ) → StrokeOriginStats
add_all t [] = t
add_all t ((o, n) ∷ os) = add_all (add t o n) os

-- How many strokes there are that belong to the slot, and how many there are.
abbrev pub strokes_of : ℕ → List (ℕ × ℕ) → ℕ
strokes_of k [] = 0
strokes_of k ((o, n) ∷ os) = if slot o == k then n + strokes_of k os else strokes_of k os

abbrev pub strokes : List (ℕ × ℕ) → ℕ
strokes [] = 0
strokes ((o, n) ∷ os) = n + strokes os

slot-lt : (o : ℕ) → slot o < 6
unfolding slot
slot-lt o = ground arith

sum_counts-set :
    (cs : List ℕ) (i v : ℕ)
    → i < length cs
    → sum_counts (set cs i v) + get_or cs i 0 ≡ sum_counts cs + v
unfolding sum_counts
sum_counts-set [] i v h = absurd (omega arith)
sum_counts-set (c ∷ cs) zero v h = omega arith
sum_counts-set (c ∷ cs) (suc i) v h = omega (arith, sum_counts-set cs i v (omega arith))

count-add :
    (t : StrokeOriginStats) (o n k : ℕ)
    → length t.counts ≡ 6
    → get_or (add t o n).counts k 0
      ≡ (if slot o == k then (get_or t.counts k 0 + n) % 2 ^ 64 else get_or t.counts k 0)
unfolding add
count-add t o n k six = elim (ℕ_discrete (slot o) k) [
  | yes e ↦
      let here =
        get_or-set_self t.counts (slot o) ((get_or t.counts (slot o) 0 + n) % 2 ^ 64) 0
          (omega (arith, six, slot-lt o)) in
      subst
        (λ j.
          get_or (add t o n).counts j 0
          ≡ (if slot o == j then (get_or t.counts j 0 + n) % 2 ^ 64 else get_or t.counts j 0))
        e (ground (arith, here))
  | no ne ↦
      let there =
        get_or-set_other t.counts (slot o) k ((get_or t.counts (slot o) 0 + n) % 2 ^ 64) 0 ne in
      ground (arith, ne, there)
]

add_all_slots :
    (os : List (ℕ × ℕ)) (t : StrokeOriginStats) (k : ℕ)
    → length t.counts ≡ 6
    → get_or (add_all t os).counts k 0 % 2 ^ 64 ≡ (get_or t.counts k 0 + strokes_of k os) % 2 ^ 64
unfolding add
add_all_slots [] t k six = omega arith
add_all_slots ((o, n) ∷ os) t k six =
    let ih = add_all_slots os (add t o n) k (length-set t.counts (slot o) _ ∙ six) in
    ground (arith, ih, count-add t o n k six)

add_all_small :
    (os : List (ℕ × ℕ)) (t : StrokeOriginStats) (k : ℕ)
    → length t.counts ≡ 6
    → get_or t.counts k 0 < 2 ^ 64
    → get_or (add_all t os).counts k 0 < 2 ^ 64
unfolding add
add_all_small [] t k six lt = lt
add_all_small ((o, n) ∷ os) t k six lt =
    add_all_small os (add t o n) k (length-set t.counts (slot o) _ ∙ six)
      (ground (arith, lt, count-add t o n k six))

sum_counts-add :
    (t : StrokeOriginStats) (o n : ℕ)
    → length t.counts ≡ 6
    → total (add t o n) ≡ (total t + n) % 2 ^ 64
unfolding add total
sum_counts-add t o n six =
    let c = get_or t.counts (slot o) 0 in
    let s = sum_counts-set t.counts (slot o) ((c + n) % 2 ^ 64) (omega (arith, six, slot-lt o)) in
    omega (arith, s)

totals_grow :
    (os : List (ℕ × ℕ)) (t : StrokeOriginStats)
    → length t.counts ≡ 6
    → total (add_all t os) ≡ (total t + strokes os) % 2 ^ 64
unfolding total add
totals_grow [] t six = omega arith
totals_grow ((o, n) ∷ os) t six = omega (
  arith,
  totals_grow os (add t o n) (length-set t.counts (slot o) _ ∙ six),
  sum_counts-add t o n six,
)

zero-no_stats : (k : ℕ) → get_or no_stats.counts k 0 ≡ 0
zero-no_stats zero = refl
zero-no_stats (suc zero) = refl
zero-no_stats (suc (suc zero)) = refl
zero-no_stats (suc (suc (suc zero))) = refl
zero-no_stats (suc (suc (suc (suc zero)))) = refl
zero-no_stats (suc (suc (suc (suc (suc zero))))) = refl
zero-no_stats (suc (suc (suc (suc (suc (suc k)))))) = refl

-- However strokes are counted from nothing, the count of an origin is the number of the strokes in
-- its slot (an origin that is not known shares the slot of the unspecified one), and the total is
-- the number of all strokes, both as numbers of 64 bits.
pub total-add_all :
    (os : List (ℕ × ℕ)) (p : ℕ)
    → (count (add_all no_stats os) p ≡ strokes_of (slot p) os % 2 ^ 64)
      × (total (add_all no_stats os) ≡ strokes os % 2 ^ 64)
unfolding count total
total-add_all os p = (
  omega (
    arith,
    add_all_slots os no_stats (slot p) refl,
    add_all_small os no_stats (slot p) refl (omega (arith, zero-no_stats (slot p))),
    zero-no_stats (slot p),
  ),
  omega (arith, totals_grow os no_stats refl),
)
