-- ===== src/Examples/LayerTrees.antt =====
-- Layer trees.
use mari_paint.Prelude.{ℕ, ◌≡◌, ◌↔◌, refl, Bool, true, false, [], ◌∷◌, arith, none, some}
use mari_paint.Prelude.Int.{pos, negsuc}
use mari_paint.Core.Errors.{ok, err, invalid_argument}
use mari_paint.Core.Layers.{
  Tree, is_refused, raster, new_layer, make_layer_tree, child_list_of, is_descendant, add_group,
  add_raster, insert, insert_guard, new_object, index_recursive, put_in_list, set_child_list,
  clamp_index, move, move_guard, relist, remove,
}
use mari_paint.Core.Layers.Sound.{Sound}
use mari_paint.Core.Layers.Descends.{Reaches, is_descendant_iff}
use mari_paint.Core.Layers.Move.{Movable, move-Movable}
use mari_paint.Core.Layers.Remove.{Removed, remove-index}
use mari_paint.Core.Layers.Reached.{
  group_added, raster_added, edit, Reached, made, edited, edit-Reached-Sound,
}

abbrev start : Tree
start = record {
  width = pos 64;
  height = pos 64;
  roots = [];
  objects = λ _. new_layer raster [] none;
  index = λ _. false;
  parents = λ _. 0;
  next_id = 1;
  active = 0;
}

-- A group with a group with a raster layer in it.
abbrev nested : Tree
unfolding edit
nested =
    edit (raster_added [] 2 (negsuc 0))
      (edit (group_added [] 1 (negsuc 0)) (edit (group_added [] 0 (negsuc 0)) start))

start-Reached : Reached start
unfolding make_layer_tree
start-Reached = made (pos 64) (pos 64) start refl

nested-Reached : Reached nested
unfolding edit add_group add_raster insert insert_guard new_object index_recursive put_in_list
    set_child_list clamp_index
nested-Reached =
    edited (raster_added [] 2 (negsuc 0))
      (edit (group_added [] 1 (negsuc 0)) (edit (group_added [] 0 (negsuc 0)) start)) (omega arith)
      (edited (group_added [] 1 (negsuc 0)) (edit (group_added [] 0 (negsuc 0)) start) (omega arith)
        (edited (group_added [] 0 (negsuc 0)) start (omega arith) start-Reached))

nested-Sound : Sound nested
nested-Sound = edit-Reached-Sound nested nested-Reached

edit-Reached-Sound_example : Sound nested
edit-Reached-Sound_example = edit-Reached-Sound nested nested-Reached

-- The raster layer has the outer group above it.
is_descendant_iff_example :
    (answer : Bool) × (is_descendant 5 nested (nested.parents 3) 1 ≡ some answer)
    × ((answer ≡ true) ↔ ((k : ℕ) × Reaches nested.parents k (nested.parents 3) 1))
unfolding edit add_group add_raster insert insert_guard new_object index_recursive put_in_list
    set_child_list clamp_index
is_descendant_iff_example =
    is_descendant_iff 5 nested 3 1 nested-Sound refl (omega arith) (omega arith)

-- The outer group does not go into the inner one, the inner one goes to the root.
into_itself : (move 1 2 (pos 0) nested).0 ≡ err invalid_argument
unfolding edit add_group add_raster insert insert_guard new_object index_recursive put_in_list
    set_child_list clamp_index move move_guard relist is_descendant is_refused child_list_of
into_itself = refl

move-Movable_example : ((move 2 0 (pos 0) nested).0 ≡ ok tt) ↔ Movable nested 2 0
move-Movable_example = move-Movable 2 0 (pos 0) nested nested-Sound

to_the_root : (move 2 0 (pos 0) nested).1.roots ≡ 2 ∷ 1 ∷ []
unfolding edit add_group add_raster insert insert_guard new_object index_recursive put_in_list
    set_child_list clamp_index move move_guard relist is_descendant is_refused child_list_of
to_the_root = refl

remove-index_example : Removed nested 2 (remove 2 nested)
unfolding edit add_group add_raster insert insert_guard new_object index_recursive put_in_list
    set_child_list clamp_index
remove-index_example = remove-index 2 nested nested-Sound refl
