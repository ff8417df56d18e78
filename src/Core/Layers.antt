-- ===== src/Core/Layers.antt =====
-- The layer tree (include/mari/core/layer.hpp, layer_ops.hpp, core/src/layer.cpp). A layer object is
-- named by its id: `objects` is the heap of the objects, `index` says which of them `index_` holds,
-- and `parents` is `parents_` as `parentOf` reads it, 0 for a missing key.
use mari_paint.Prelude.{
  ℕ, zero, suc, ◌+◌, ◌-◌, ◌%◌, ◌^◌, Bool, true, false, ◌&&◌, ◌||◌, not, Option, none, some, List,
  [], ◌∷◌, ◌++◌, ltb, leb, ◌==◌, if◌then◌else◌, length, take, drop,
}
use mari_paint.Prelude.Int.{ℤ, pos, negsuc}
use mari_paint.Core.Errors.{
  ErrorCode, Result, ok, err, invalid_argument, not_found, unknown, unsupported,
}
use mari_paint.Core.Tile.{TileMap, PixelFormat, make_tile_map}
pub mod Counts
pub mod Depth
pub mod Sound
pub mod Insert
pub mod Add
pub mod Descends
pub mod Detach
pub mod Move
pub mod Forget
pub mod Remove
pub mod Reached

pub data LayerKind : Type 0 where
  raster group : LayerKind

abbrev pub is_group : LayerKind → Bool
is_group raster = false
is_group group = true

-- `LayerImpl`, but for its opacity and its blend mode.
pub record Layer : Type 0 where
  pub kind : LayerKind
  pub name : List ℕ
  pub visible : Bool
  pub locked : Bool
  pub alpha_locked : Bool
  pub tiles : Option TileMap
  pub mask : Option TileMap
  pub children : List ℕ

abbrev pub new_layer : LayerKind → List ℕ → Option TileMap → Layer
new_layer k n t = record {
  kind = k;
  name = n;
  visible = true;
  locked = false;
  alpha_locked = false;
  tiles = t;
  mask = none;
  children = [];
}

-- `LayerTreeImpl`. `kInvalidLayerId` is 0.
pub record Tree : Type 0 where
  pub width : ℤ
  pub height : ℤ
  pub roots : List ℕ
  pub objects : ℕ → Layer
  pub index : ℕ → Bool
  pub parents : ℕ → ℕ
  pub next_id : ℕ
  pub active : ℕ

-- A map with one key written.
abbrev pub put {ℓ} : {A : Type ℓ} → ℕ → A → (ℕ → A) → ℕ → A
put k v f x = if x == k then v else f x

abbrev pub negative : ℤ → Bool
negative (pos _) = false
negative (negsuc _) = true

-- `makeLayerTree`
unfoldable pub make_layer_tree : ℤ → ℤ → Result Tree
make_layer_tree w h =
    if negative w || negative h
    then err invalid_argument
    else ok (record {
      width = w;
      height = h;
      roots = [];
      objects = λ _. new_layer raster [] none;
      index = λ _. false;
      parents = λ _. 0;
      next_id = 1;
      active = 0;
    })

-- `childListOf`
unfoldable pub child_list_of : Tree → ℕ → List ℕ
child_list_of t p = if p == 0 then t.roots else (t.objects p).children

-- The list that `childListOf` gave, written.
unfoldable pub set_child_list : Tree → ℕ → List ℕ → Tree
set_child_list t p xs = record t {
  roots = if p == 0 then xs else t.roots;
  objects = if p == 0 then t.objects else put p (record (t.objects p) { children = xs }) t.objects;
}

-- `clampIndex`
unfoldable pub clamp_index : ℤ → ℕ → ℕ
clamp_index (pos i) size = if ltb size i then size else i
clamp_index (negsuc _) size = size

abbrev pub insert_at : ℕ → ℕ → List ℕ → List ℕ
insert_at i x xs = take i xs ++ x ∷ drop i xs

-- `std::find`, and `erase` of what it found.
abbrev pub has : ℕ → List ℕ → Bool
has x [] = false
has x (y ∷ ys) = (x == y) || has x ys

abbrev pub erase_first : ℕ → List ℕ → List ℕ
erase_first x [] = []
erase_first x (y ∷ ys) = if x == y then ys else y ∷ erase_first x ys

-- The calls of a function on the elements, one behind the other.
abbrev pub each : (ℕ → Tree → Tree) → List ℕ → Tree → Tree
each f [] t = t
each f (x ∷ xs) t = each f xs (f x t)

-- `indexRecursive` and `unindexRecursive`, on fuel.
unfoldable pub index_recursive : ℕ → ℕ → ℕ → Tree → Tree
index_recursive zero p x t = t
index_recursive (suc fuel) p x t =
    each (index_recursive fuel x) (t.objects x).children
      (record t { index = put x true t.index; parents = put x p t.parents })

-- The end of `unindexRecursive`: the maps forget the layer, and so does the active one.
unfoldable pub forget : ℕ → Tree → Tree
forget x t = record t {
  index = put x false t.index;
  parents = put x 0 t.parents;
  active = if t.active == x then 0 else t.active;
}

unfoldable pub unindex_recursive : ℕ → ℕ → Tree → Tree
unfolding forget
unindex_recursive zero x t = t
unindex_recursive (suc fuel) x t = forget x (each (unindex_recursive fuel) (t.objects x).children t)

-- The end of `insert`: the list, and an active layer where there is none.
unfoldable pub put_in_list : ℕ → ℕ → ℤ → Tree → Tree
unfolding child_list_of set_child_list clamp_index
put_in_list x p i t =
    let xs = child_list_of t p in
    let t1 = set_child_list t p (insert_at (clamp_index i (length xs)) x xs) in
    record t1 {
      active = if (t1.active == 0) && not (is_group (t1.objects x).kind) then x else t1.active;
    }

-- The guards of `insert`.
unfoldable pub insert_guard : ℕ → Tree → Result (Unit {0})
insert_guard p t =
    if p == 0
    then ok tt
    else if not (t.index p)
    then err not_found
    else if not (is_group (t.objects p).kind)
    then err invalid_argument
    else ok tt

-- What comes behind the guards, or nothing.
abbrev pub if_ok {ℓ} : {A : Type ℓ} → Result (Unit {0}) → A → Tree → Tree → Result A × Tree
if_ok (ok _) x placed t = (ok x, placed)
if_ok (err e) x placed t = (err e, t)

-- `insert` of the object x.
unfoldable pub insert : ℕ → ℕ → ℤ → Tree → Result ℕ × Tree
unfolding insert_guard index_recursive put_in_list
insert x p i t =
    if_ok (insert_guard p t) x (put_in_list x p i (index_recursive (suc t.next_id) p x t)) t

-- The constructor of a layer, with the next id.
unfoldable pub new_object : Layer → Tree → Tree
new_object l t = record t {
  objects = put t.next_id l t.objects;
  next_id = (t.next_id + 1) % 2 ^ 64;
}

unfoldable pub add_group : List ℕ → ℕ → ℤ → Tree → Result ℕ × Tree
unfolding insert new_object
add_group n p i t = insert t.next_id p i (new_object (new_layer group n none) t)

abbrev pub add_with_tiles : List ℕ → ℕ → ℤ → Tree → Result TileMap → Result ℕ × Tree
unfolding insert new_object
add_with_tiles n p i t (err e) = (err e, t)
add_with_tiles n p i t (ok m) = insert t.next_id p i (new_object (new_layer raster n (some m)) t)

unfoldable pub add_raster : List ℕ → ℕ → ℤ → Tree → Result ℕ × Tree
unfolding make_tile_map
add_raster n p i t = add_with_tiles n p i t (make_tile_map PixelFormat.rgba8)

-- `parentOf` is `parents`. The loop of `isDescendant`, on fuel: no answer when it runs out.
unfoldable pub is_descendant : ℕ → Tree → ℕ → ℕ → Option Bool
is_descendant zero t p a = none
is_descendant (suc fuel) t p a =
    let rest = is_descendant fuel t (t.parents p) a in
    if p == 0 then some false else if p == a then some true else rest

-- The use of the answer in `move`: a loop that does not end lets nothing pass.
unfoldable pub is_refused : Option Bool → Bool
is_refused none = true
is_refused (some b) = b

-- The guards of `remove`, and what it does behind them.
unfoldable pub remove_guard : ℕ → Tree → Result (Unit {0})
unfolding child_list_of
remove_guard x t =
    if x == 0
    then err invalid_argument
    else if not (t.index x)
    then err not_found
    else if not (has x (child_list_of t (t.parents x)))
    then err unknown
    else ok tt

unfoldable pub cut : ℕ → Tree → Tree
unfolding child_list_of set_child_list unindex_recursive
cut x t =
    let p = t.parents x in
    unindex_recursive (suc t.next_id) x (set_child_list t p (erase_first x (child_list_of t p)))

-- `remove`
unfoldable pub remove : ℕ → Tree → Result (Unit {0}) × Tree
unfolding remove_guard cut
remove x t = if_ok (remove_guard x t) tt (cut x t) t

-- `move` behind its guards.
unfoldable pub relist : ℕ → ℕ → ℤ → Tree → Tree
unfolding child_list_of set_child_list clamp_index
relist x q i t =
    let t1 = set_child_list t (t.parents x) (erase_first x (child_list_of t (t.parents x))) in
    let ys = child_list_of t1 q in
    set_child_list (record t1 { parents = put x q t1.parents }) q
      (insert_at (clamp_index i (length ys)) x ys)

unfoldable pub move_guard : ℕ → ℕ → Tree → Result (Unit {0})
unfolding child_list_of is_descendant is_refused
move_guard x q t =
    if x == 0
    then err invalid_argument
    else if not (t.index x)
    then err not_found
    else if x == q
    then err invalid_argument
    else if not (q == 0) && not (t.index q)
    then err not_found
    else if not (q == 0) && not (is_group (t.objects q).kind)
    then err invalid_argument
    else if not (q == 0) && is_refused (is_descendant (suc t.next_id) t (t.parents q) x)
    then err invalid_argument
    else if not (has x (child_list_of t (t.parents x)))
    then err unknown
    else ok tt

unfoldable pub move : ℕ → ℕ → ℤ → Tree → Result (Unit {0}) × Tree
unfolding move_guard relist
move x q i t = if_ok (move_guard x q t) tt (relist x q i t) t

unfoldable pub set_active_layer : ℕ → Tree → Result (Unit {0}) × Tree
set_active_layer x t =
    if x == 0
    then (ok tt, record t { active = 0 })
    else if t.index x
    then (ok tt, record t { active = x })
    else (err not_found, t)

-- `find`
unfoldable pub find : Tree → ℕ → Option Layer
find t x = if t.index x then some (t.objects x) else none

-- `reattachLayer` of an object of this heap.
unfoldable pub reattach_layer : ℕ → ℕ → ℤ → Tree → Result ℕ × Tree
unfolding insert
reattach_layer x p i t = if t.index x then (err invalid_argument, t) else insert x p i t
