-- ===== src/Core/Layers/Add.antt =====
-- A new layer object, and the operations that add it to the tree: they keep the tree sound.
use mari_paint.Prelude.{
  ℕ, ◌+◌, ◌^◌, ◌<◌, ◌≡◌, refl, ap, ◌∙◌, List, [], arith, ◌==◌, if◌then◌else◌, Bool-cases, inl, inr,
  if_yes, if_no,
}
use mari_paint.Prelude.Int.{ℤ}
use mari_paint.Core.Layers.{
  Tree, Layer, is_group, put, child_list_of, insert, new_object, add_group, add_raster,
}
use mari_paint.Core.Layers.Counts.{count}
use mari_paint.Core.Layers.Sound.{Sound, Parent}
use mari_paint.Core.Layers.Insert.{Leaf, insert-Sound}

new_object-Sound :
    (l : Layer) (t : Tree) → Sound t → t.next_id + 1 < 2 ^ 64 → Sound (new_object l t)
unfolding new_object child_list_of
new_object-Sound l t w h = record {
  nil = w.nil;
  next = omega (arith, h);
  fresh = λ x e. omega (arith, w.fresh x e, h);
  up = w.up;
  groups = λ x e n. ap is_group (ap (λ o. o.kind) (same (t.parents x) (w.up x e))) ∙ w.groups x e n;
  lists = λ p x m. ap (λ xs. count x xs) (same_list p m) ∙ w.lists p x m;
  rooted = w.rooted;
  active = w.active;
}
  where
    same : (p : ℕ) → Parent t p → put t.next_id l t.objects p ≡ t.objects p
    same p m =
        if_no {b = p == t.next_id} l (t.objects p)
          (elim m [ inl z ↦ ground (arith, z, w.next) | inr e ↦ ground (arith, w.fresh p e) ])

    same_list : (p : ℕ) → Parent t p → child_list_of (new_object l t) p ≡ child_list_of t p
    same_list p m = ap (λ (o : Layer). if p == 0 then t.roots else o.children) (same p m)

new_object-Leaf :
    (l : Layer) (t : Tree)
    → Sound t
    → l.children ≡ []
    → t.next_id + 1 < 2 ^ 64
    → Leaf (new_object l t) t.next_id
unfolding new_object
new_object-Leaf l t w e h = record {
  id = w.next;
  known = omega (arith, h);
  outside = elim (Bool-cases (t.index t.next_id)) [
    | inl k ↦ absurd (omega (arith, w.fresh t.next_id k))
    | inr k ↦ k
  ];
  bare =
      ap (λ (o : Layer). o.children)
        (if_yes {b = t.next_id == t.next_id} l (t.objects t.next_id) (ground arith))
      ∙ e;
}

pub add_group-Sound :
    (n : List ℕ) (p : ℕ) (i : ℤ) (t : Tree)
    → Sound t
    → t.next_id + 1 < 2 ^ 64
    → Sound (add_group n p i t).1
unfolding add_group
add_group-Sound n p i t w h =
    insert-Sound t.next_id p i _ (new_object-Sound _ t w h) (new_object-Leaf _ t w refl h)

pub add_raster-Sound :
    (n : List ℕ) (p : ℕ) (i : ℤ) (t : Tree)
    → Sound t
    → t.next_id + 1 < 2 ^ 64
    → Sound (add_raster n p i t).1
unfolding add_raster insert new_object
add_raster-Sound n p i t w h =
    insert-Sound t.next_id p i _ (new_object-Sound _ t w h) (new_object-Leaf _ t w refl h)
