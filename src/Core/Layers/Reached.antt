-- ===== src/Core/Layers/Reached.antt =====
-- The trees that the calls on a new tree lead to.
use mari_paint.Prelude.{ℕ, ◌+◌, ◌^◌, ◌<◌, ◌≡◌, List}
use mari_paint.Prelude.Int.{ℤ}
use mari_paint.Core.Errors.{ok}
use mari_paint.Core.Layers.{
  Tree, make_layer_tree, add_group, add_raster, remove, move, set_active_layer,
}
use mari_paint.Core.Layers.Sound.{Sound, make_layer_tree-Sound, set_active_layer-Sound}
use mari_paint.Core.Layers.Add.{add_group-Sound, add_raster-Sound}
use mari_paint.Core.Layers.Move.{move-Sound}
use mari_paint.Core.Layers.Remove.{remove-Sound}

-- A call of the interface `LayerTree` that changes the tree.
pub data Edit : Type 0 where
  group_added raster_added : List ℕ → ℕ → ℤ → Edit
  removed : ℕ → Edit
  moved : ℕ → ℕ → ℤ → Edit
  activated : ℕ → Edit

-- The tree behind the call, whether it succeeds or not.
unfoldable pub edit : Edit → Tree → Tree
unfolding add_group add_raster remove move set_active_layer
edit (group_added n p i) t = (add_group n p i t).1
edit (raster_added n p i) t = (add_raster n p i t).1
edit (removed x) t = (remove x t).1
edit (moved x q i) t = (move x q i t).1
edit (activated x) t = (set_active_layer x t).1

-- A new tree, and what a call makes of such a tree while ids are left.
pub data Reached : Tree → Type 0 where
  made : (w h : ℤ) (t : Tree) → make_layer_tree w h ≡ ok t → Reached t
  edited : (e : Edit) (t : Tree) → t.next_id + 1 < 2 ^ 64 → Reached t → Reached (edit e t)

edit-Sound : (e : Edit) (t : Tree) → t.next_id + 1 < 2 ^ 64 → Sound t → Sound (edit e t)
unfolding edit
edit-Sound (group_added n p i) t h w = add_group-Sound n p i t w h
edit-Sound (raster_added n p i) t h w = add_raster-Sound n p i t w h
edit-Sound (removed x) t h w = remove-Sound x t w
edit-Sound (moved x q i) t h w = move-Sound x q i t w
edit-Sound (activated x) t h w = set_active_layer-Sound x t w

-- Every tree that calls of the interface lead to from a new tree, while ids are left, is sound:
-- each layer that find finds stands once, in the list of its parent, which is the root or a group
-- of the tree; the parents lead to the root, so there is no cycle; the active layer is none or one
-- of the tree.
pub edit-Reached-Sound : (t : Tree) → Reached t → Sound t
edit-Reached-Sound t (made w h u e) = make_layer_tree-Sound w h u e
edit-Reached-Sound t (edited e u h r) = edit-Sound e u h (edit-Reached-Sound u r)
