-- ===== src/Core/Layers/Detach.antt =====
-- A layer taken out of the list of its parent, as `remove` and `move` begin.
use mari_paint.Prelude.{
  ℕ, ◌-◌, ◌≡◌, refl, sym, ap, ◌∙◌, true, false, ◌&&◌, arith, eq_of, ◌==◌, if◌then◌else◌, Bool-cases,
  inl, inr, if_yes, if_no,
}
use mari_paint.Core.Layers.{Tree, child_list_of, set_child_list, erase_first, has, if_ok}
use mari_paint.Core.Errors.{Result, ok, err}
use mari_paint.Core.Layers.Counts.{has-count, one_if, one_if_bound, count, count-erase_first}
use mari_paint.Core.Layers.Sound.{
  Sound, Parent, slot, child_list_of_set_self, child_list_of_set_other,
}

pub slot_self : (t : Tree) (p x : ℕ) → t.index x ≡ true → t.parents x ≡ p → slot t p x ≡ 1
slot_self t p x e k = ground (arith, e, k)

-- `std::find` finds a layer of the tree among its siblings.
pub listed :
    {t : Tree} {x : ℕ} → Sound t → t.index x ≡ true → has x (child_list_of t (t.parents x)) ≡ true
listed {t} {x} w e =
    has-count x (child_list_of t (t.parents x))
      (omega (arith, w.lists (t.parents x) x (w.up x e), slot_self t (t.parents x) x e refl))

pub if_ok-passed :
    (r : Result (Unit {0})) (u t : Tree) → (if_ok {A = Unit {0}} r tt u t).0 ≡ ok tt → r ≡ ok tt
if_ok-passed (ok _) u t e = refl
if_ok-passed (err c) u t e = cc

abbrev pub detached : ℕ → Tree → Tree
detached x t = set_child_list t (t.parents x) (erase_first x (child_list_of t (t.parents x)))

elsewhere : (t : Tree) (x r y : ℕ) → y ≡ x → (r == t.parents x) ≡ false → slot t r y ≡ 0
elsewhere t x r y c o =
    ap (slot t r) c
    ∙ elim (Bool-cases (t.index x)) [ inl e ↦ ground (arith, e, o) | inr e ↦ ground (arith, e) ]

-- The lists have what they had but x.
pub count_detached :
    (t : Tree) (x r y : ℕ)
    → Sound t
    → t.index x ≡ true
    → Parent t r
    → count y (child_list_of (detached x t) r) ≡ (if y == x then 0 else slot t r y)
count_detached t x r y w e m = elim (Bool-cases (r == t.parents x)) [
  | inl s ↦
      let p = t.parents x in
      ap (λ z. count y (child_list_of (detached x t) z)) (eq_of r p s)
      ∙ ap (count y) (child_list_of_set_self t p (erase_first x (child_list_of t p)))
      ∙ count-erase_first y x (child_list_of t p)
      ∙ ap (λ n. n - one_if (y == x)) (w.lists p y (w.up x e))
      ∙ elim (Bool-cases (y == x)) [
        | inl c ↦
            ap (λ b. slot t p y - one_if b) c
            ∙ omega (arith, one_if_bound (t.index y && (t.parents y == p)))
            ∙ sym (if_yes {b = y == x} 0 _ c)
        | inr c ↦
            ap (λ b. slot t p y - one_if b) c
            ∙ omega arith
            ∙ ap (λ z. slot t z y) (sym (eq_of r p s))
            ∙ sym (if_no {b = y == x} 0 _ c)
      ]
  | inr o ↦
      ap (count y) (
        child_list_of_set_other t (t.parents x) r (erase_first x (child_list_of t (t.parents x))) o)
      ∙ w.lists r y m
      ∙ elim (Bool-cases (y == x)) [
        | inl c ↦ elsewhere t x r y (eq_of y x c) o ∙ sym (if_yes {b = y == x} 0 _ c)
        | inr c ↦ sym (if_no {b = y == x} 0 _ c)
      ]
]
