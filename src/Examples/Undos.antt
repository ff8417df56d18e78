-- ===== src/Examples/Undos.antt =====
-- Tiles, strokes and the undo stack.
use mari_paint.Prelude.{
  ℕ, zero, suc, ◌+◌, ◌≡◌, ◌≤◌, ◌≢◌, refl, some, List, [], ◌∷◌, take, length, if◌then◌else◌, ◌==◌,
  arith,
}
use mari_paint.Core.Errors.{ok, err, not_found}
use mari_paint.Core.Tile.{
  PixelFormat, TileCoord, same_coord, find, bytes_per_pixel, is_unknown, Tile, TileMap, tile_at,
  zeros, stride_of,
}
use mari_paint.Core.Tile.Sharing.{Store, pixels, write, clone, Sound, pixels-write, clone-frozen}
use mari_paint.Core.Undo.{
  begin_command, knows, capture_loop, capture_before, capture_after, undo_command, redo_command,
}
use mari_paint.Core.Undo.Restore.{Good}
use mari_paint.Core.Undo.Stroke.{paint_rounds, Careful, stroke-undo-redo}
use mari_paint.Core.Undo.Stack.{
  UndoStack, make_stack, push, set_limit, trim, trim_loop, Command, undo_from, undo, redo_from,
  redo, settle_undo, settle_redo, pushed, undone, stack_run,
}
use mari_paint.Core.Undo.History.{push_lem, undo-redo_stack, undo_failed}
use mari_paint.Core.Undo.Bounded.{stack_run-bounded}

-- Two tiles on one buffer, and a third one.
abbrev store : Store
store = record { buffers = (1 ∷ 2 ∷ []) ∷ (3 ∷ 4 ∷ []) ∷ []; tiles = 0 ∷ 0 ∷ 1 ∷ [] }

store-Sound : Sound store
store-Sound zero h = omega arith
store-Sound (suc zero) h = omega arith
store-Sound (suc (suc zero)) h = omega arith
store-Sound (suc (suc (suc i))) h = absurd (omega arith)

pixels-write_example :
    pixels (write store 0 (9 ∷ 9 ∷ [])) 1 ≡ (if 0 == 1 then 9 ∷ 9 ∷ [] else pixels store 1)
pixels-write_example = pixels-write store 0 1 (9 ∷ 9 ∷ []) (omega arith) (omega arith) store-Sound

clone-frozen_example :
    (pixels (write (clone store 2) 2 (9 ∷ [])) 2 ≡ 9 ∷ [])
    × (pixels (write (clone store 2) 2 (9 ∷ [])) 3 ≡ pixels store 2)
    × (pixels (write (clone store 2) 3 (9 ∷ [])) 2 ≡ pixels store 2)
    × (pixels (write (clone store 2) 3 (9 ∷ [])) 3 ≡ 9 ∷ [])
clone-frozen_example = clone-frozen store 2 (9 ∷ []) (omega arith) store-Sound

abbrev here : TileCoord
here = record { tx = 0; ty = 0 }

abbrev there : TileCoord
there = record { tx = 1; ty = 0 }

abbrev grey : ℕ → Tile
grey v = record { format = PixelFormat.gray8; data' = v ∷ zeros 4095 }

abbrev sheet : TileMap
sheet = record { format = PixelFormat.gray8; tiles = (here, grey 1) ∷ [] }

-- The stroke changes one tile and makes another.
abbrev drawn : TileMap
drawn = record { format = PixelFormat.gray8; tiles = (here, grey 2) ∷ (there, grey 3) ∷ [] }

sheet-Good : Good sheet
unfolding is_unknown stride_of bytes_per_pixel
sheet-Good = record { known = refl; tiles = ((refl, refl), tt) }

drawn-Good : Good drawn
unfolding is_unknown stride_of bytes_per_pixel
drawn-Good = record { known = refl; tiles = ((refl, refl), ((refl, refl), tt)) }

abbrev rounds : List (List TileCoord × TileMap)
rounds = (here ∷ there ∷ [], drawn) ∷ []

careful : Careful sheet rounds (begin_command [])
unfolding Careful capture_before capture_loop begin_command knows tile_at find same_coord
careful = ((λ d h. ground (arith, h)), tt)

-- At the tile that the stroke made: it is gone after the undo, and back after the redo.
stroke-undo-redo_example :
    let (cmd, painted) = paint_rounds sheet rounds (begin_command []) in
    let stored = capture_after painted cmd in
    let (did, back) = undo_command stored painted in
    let (again_did, again) = redo_command stored back in
    (did ≡ ok tt)
    × (tile_at back there ≡ tile_at sheet there)
    × (again_did ≡ ok tt)
    × (tile_at again there ≡ tile_at painted there)
unfolding paint_rounds
stroke-undo-redo_example = stroke-undo-redo [] sheet rounds there sheet-Good drawn-Good refl careful

-- Commands that are numbers: 0 fails, others are noted in the world.
abbrev numbers : Command ℕ (List ℕ) ℕ
numbers = record {
  undo_command = λ c w. if c == 0 then (err not_found, w) else (ok tt, c ∷ w);
  redo_command = λ c w. if c == 0 then (err not_found, w) else (ok tt, c ∷ w);
  affected = λ c. c ∷ [];
}

abbrev two : UndoStack ℕ
two = record { undo_ = 2 ∷ 1 ∷ []; redo_ = 0 ∷ []; limit = 2 }

push_lem_example :
    ((push (some 3) two).undo_ ≡ take 2 (3 ∷ 2 ∷ 1 ∷ []))
    × ((push (some 3) two).redo_ ≡ [])
    × ((push (some 3) two).limit ≡ 2)
push_lem_example = push_lem 3 two

undone_fine : (undo numbers two [] []).0 ≡ ok tt
unfolding undo undo_from settle_undo
undone_fine = refl

redone_fine : (redo numbers (undo numbers two [] []).1 [] []).0 ≡ ok tt
unfolding undo undo_from settle_undo redo redo_from settle_redo
redone_fine = refl

undo-redo_stack_example : (redo numbers (undo numbers two [] []).1 [] []).1 ≡ two
undo-redo_stack_example = undo-redo_stack numbers two [] [] [] [] undone_fine redone_fine

abbrev stuck : UndoStack ℕ
stuck = record { undo_ = 0 ∷ 1 ∷ []; redo_ = 0 ∷ []; limit = 2 }

undo_refused : (undo numbers stuck [] []).0 ≢ ok tt
unfolding undo undo_from settle_undo
undo_refused e = cc

redo_refused : (redo numbers stuck [] []).0 ≢ ok tt
unfolding redo redo_from settle_redo
redo_refused e = cc

undo_failed_example : ((undo numbers stuck [] []).1 ≡ stuck) × ((undo numbers stuck [] []).2 ≡ [])
undo_failed_example = undo_failed numbers stuck [] [] undo_refused

stack_run-bounded_example :
    let s =
      (stack_run numbers
        (pushed (some 1) ∷ pushed (some 2) ∷ pushed (some 3) ∷ undone ∷ [])
        (make_stack 2, [])).0 in
    (length s.undo_ + length s.redo_ ≤ s.limit) × (1 ≤ s.limit) × (s.limit ≡ 2)
stack_run-bounded_example =
    stack_run-bounded numbers 2 (pushed (some 1) ∷ pushed (some 2) ∷ pushed (some 3) ∷ undone ∷ [])
      []

-- A limit that is lowered while commands wait to be redone: redoing them all leaves more commands
-- than the limit.
beyond_limit :
    let s = set_limit {C = ℕ} 1 (record { undo_ = []; redo_ = 1 ∷ 2 ∷ []; limit = 2 }) in
    let once = redo numbers s [] [] in
    let twice = redo numbers once.1 [] [] in (twice.1.limit ≡ 1) × (twice.1.undo_ ≡ 2 ∷ 1 ∷ [])
unfolding set_limit trim trim_loop redo redo_from settle_redo
beyond_limit = (refl, refl)
