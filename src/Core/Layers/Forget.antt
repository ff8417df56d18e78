-- ===== src/Core/Layers/Forget.antt =====
-- The recursion of `unindexRecursive`: it takes a layer and all below it out of the maps.
use mari_paint.Prelude.{
  ℕ, zero, suc, ◌+◌, ◌≤◌, ◌<◌, ◌≡◌, ◌≢◌, refl, sym, ap, ◌∙◌, subst, true, false, List, [], ◌∷◌,
  arith, eq_of, ◌==◌, Bool-cases, inl, inr, if_both, if_yes, if_no, ◌⊎◌,
}
use mari_paint.Core.Layers.{Tree, put, each, forget, unindex_recursive}
use mari_paint.Core.Layers.Counts.{one_if, count, count_self}
use mari_paint.Core.Layers.Depth.{At}
use mari_paint.Core.Layers.Sound.{Parent}

-- What the recursion reads of a tree `o`, but for the list that its top has left.
pub record Frame (o : Tree) (top : ℕ) : Type 0 where
  pub nil : o.index 0 ≡ false
  pub kids :
      (p x : ℕ)
      → o.index p ≡ true
      → 0 < count x (o.objects p).children
      → (o.index x ≡ true) × (o.parents x ≡ p)
  pub full :
      (p x : ℕ)
      → o.index p ≡ true
      → o.index x ≡ true
      → o.parents x ≡ p
      → x ≢ top
      → 0 < count x (o.objects p).children
  pub bound : (x d : ℕ) → o.index x ≡ true → At o.parents d x → d ≤ o.next_id

-- From t to u the maps forgot the tops and, but for the top of the whole recursion, all that stands
-- below what they forgot, and no more.
pub record Forgot (o : Tree) (top : ℕ) (t u : Tree) (tops : List ℕ) : Type 0 where
  pub roots : u.roots ≡ t.roots
  pub objects : u.objects ≡ t.objects
  pub next_id : u.next_id ≡ t.next_id
  pub kept : (x : ℕ) → u.index x ≡ true → (t.index x ≡ true) × (u.parents x ≡ t.parents x)
  pub why :
      (x : ℕ)
      → t.index x ≡ true
      → u.index x ≡ false
      → (0 < count x tops) ⊎ ((o.index (o.parents x) ≡ true) × (u.index (o.parents x) ≡ false))
  pub gone : (x : ℕ) → 0 < count x tops → u.index x ≡ false
  pub down :
      (p x : ℕ)
      → t.index p ≡ true
      → u.index p ≡ false
      → o.index x ≡ true
      → o.parents x ≡ p
      → x ≢ top
      → u.index x ≡ false
  pub active : Parent t t.active → Parent u u.active

pub stays_out :
    {o : Tree} {top : ℕ} {t u : Tree} {tops : List ℕ}
    → Forgot o top t u tops
    → (x : ℕ) → t.index x ≡ false
    → u.index x ≡ false
stays_out {u} f x e = elim (Bool-cases (u.index x)) [ inl k ↦ cc (e, (f.kept x k).0) | inr k ↦ k ]

Forgot-nil : (o : Tree) (top : ℕ) (t : Tree) → Forgot o top t t []
Forgot-nil o top t = record {
  roots = refl;
  objects = refl;
  next_id = refl;
  kept = λ x e. (e, refl);
  why = λ x e k. cc (e, k);
  gone = λ x h. absurd (omega (arith, h));
  down = λ p x e k _ _ _. cc (e, k);
  active = λ h. h;
}

Forgot-cons :
    (o : Tree) (top : ℕ) (t t1 u : Tree) (x : ℕ) (xs : List ℕ)
    → Forgot o top t t1 (x ∷ [])
    → Forgot o top t1 u xs
    → Forgot o top t u (x ∷ xs)
Forgot-cons o top t t1 u x xs f g = record {
  roots = g.roots ∙ f.roots;
  objects = g.objects ∙ f.objects;
  next_id = g.next_id ∙ f.next_id;
  kept = λ y e. let (a, b) = g.kept y e in let (c, d) = f.kept y a in (c, b ∙ d);
  why = λ y e k. elim (Bool-cases (t1.index y)) [
    | inl m ↦ elim (g.why y m k) [ inl h ↦ inl (omega (arith, h)) | inr h ↦ inr h ]
    | inr m ↦ elim (f.why y e m) [
      | inl h ↦ inl (omega (arith, h))
      | inr h ↦ inr (h.0, stays_out g (o.parents y) h.1)
    ]
  ];
  gone = λ y h. elim (Bool-cases (y == x)) [
    | inl s ↦ stays_out g y (f.gone y (omega (arith, ap one_if s)))
    | inr s ↦ g.gone y (omega (arith, h, ap one_if s))
  ];
  down = λ p y e k a b n. elim (Bool-cases (t1.index p)) [
    | inl m ↦ g.down p y m k a b n
    | inr m ↦ stays_out g y (f.down p y e m a b n)
  ];
  active = λ h. g.active (f.active h);
}

each-Forgot :
    (o : Tree) (top fuel : ℕ) (xs : List ℕ) (t : Tree)
    → t.objects ≡ o.objects
    → ((x : ℕ) (u : Tree)
        → 0 < count x xs
        → u.objects ≡ o.objects
        → Forgot o top u (unindex_recursive fuel x u) (x ∷ []))
    → Forgot o top t (each (unindex_recursive fuel) xs t) xs
each-Forgot o top fuel [] t e h = Forgot-nil o top t
each-Forgot o top fuel (x ∷ xs) t e h =
    let f = h x t (omega (arith, count_self x xs)) e in
    Forgot-cons o top t _ _ x xs f
      (each-Forgot o top fuel xs _ (f.objects ∙ e) (λ y u k. h y u (omega (arith, k))))

-- The layer itself is forgotten behind its children.
forget-Forgot :
    (o : Tree) (top x : ℕ) (t u : Tree)
    → Frame o top
    → o.index x ≡ true
    → Forgot o top t u (o.objects x).children
    → Forgot o top t (forget x u) (x ∷ [])
unfolding forget
forget-Forgot o top x t u w e f = record {
  roots = f.roots;
  objects = f.objects;
  next_id = f.next_id;
  kept = λ y k.
      let n = kept_other y k in
      let (a, b) = f.kept y (sym (if_no {b = y == x} false (u.index y) n) ∙ k) in
      (a, if_no {b = y == x} 0 (u.parents y) n ∙ b);
  why = λ y a k. elim (Bool-cases (y == x)) [
    | inl s ↦ inl (omega (arith, ap one_if s))
    | inr s ↦ elim (f.why y a (sym (if_no {b = y == x} false (u.index y) s) ∙ k)) [
      | inl h ↦
          let p = (w.kids x y e h).1 in
          inr (
            (ap o.index p ∙ e),
            if_yes {b = o.parents y == x} false (u.index (o.parents y)) (same p),
          )
      | inr h ↦ inr (h.0, out (o.parents y) h.1)
    ]
  ];
  gone = λ y h. if_yes {b = y == x} false (u.index y) (single y h);
  down = λ p y a k b c n. elim (Bool-cases (p == x)) [
    | inl s ↦ out y (f.gone y (w.full x y e b (c ∙ eq_of p x s) n))
    | inr s ↦ out y (f.down p y a (sym (if_no {b = p == x} false (u.index p) s) ∙ k) b c n)
  ];
  active = λ h. elim (Bool-cases (u.active == x)) [
    | inl s ↦ inl (if_yes {b = u.active == x} 0 u.active s)
    | inr s ↦
        subst (Parent (forget x u)) (sym (if_no {b = u.active == x} 0 u.active s))
          (elim (f.active h) [
            | inl z ↦ inl z
            | inr k ↦ inr (if_no {b = u.active == x} false (u.index u.active) s ∙ k)
          ])
  ];
}
  where
    kept_other : (y : ℕ) → put x false u.index y ≡ true → (y == x) ≡ false
    kept_other y k = elim (Bool-cases (y == x)) [
      | inl s ↦ cc (sym (if_yes {b = y == x} false (u.index y) s) ∙ k)
      | inr s ↦ s
    ]

    out : (y : ℕ) → u.index y ≡ false → put x false u.index y ≡ false
    out y k = if_both (λ b. b ≡ false) (y == x) refl k

    same : {y z : ℕ} → y ≡ z → (y == z) ≡ true
    same h = ground (arith, h)

    single : (y : ℕ) → 0 < count y (x ∷ []) → (y == x) ≡ true
    single y h = ground (arith, h)

-- With fuel for the layers below it, the recursion forgets the layer and all below it.
pub unindex_recursive-Forgot :
    (o : Tree) (top fuel d x : ℕ) (t : Tree)
    → Frame o top
    → o.index x ≡ true
    → At o.parents d x
    → o.next_id < fuel + d
    → t.objects ≡ o.objects
    → Forgot o top t (unindex_recursive fuel x t) (x ∷ [])
unfolding unindex_recursive
unindex_recursive-Forgot o top zero d x t w e l b h = absurd (omega (arith, b, w.bound x d e l))
unindex_recursive-Forgot o top (suc fuel) d x t w e l b h = forget-Forgot o top x t _ w e (
    subst (λ cs. Forgot o top t (each (unindex_recursive fuel) cs t) (o.objects x).children)
      (sym (ap (λ k. (k x).children) h))
      (each-Forgot o top fuel (o.objects x).children t h (λ y u k m.
        let (a, p) = w.kids x y e k in
        unindex_recursive-Forgot o top fuel (suc d) y u w a
          ((λ z. cc (w.nil, a, ap o.index z)), subst (At o.parents d) (sym p) l) (omega (arith, b))
          m)))
