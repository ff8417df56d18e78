-- ===== src/Core/Undo/Stack.antt =====
-- `UndoStack` (include/mari/core/undo.hpp, core/src/undo.cpp), over any kind of command. The vectors
-- `undo_` and `redo_` are lists with their back at the front.
use mari_paint.Prelude.{
  ℕ, zero, suc, Option, none, some, List, [], ◌∷◌, ◌++◌, length, ltb, ◌==◌, if◌then◌else◌,
}
use mari_paint.Core.Errors.{ErrorCode, Result, ok, err}

pub record UndoStack (C : Type 0) : Type 0 where
  pub undo_ : List C
  pub redo_ : List C
  pub limit : ℕ

unfoldable pub make_stack : {C : Type 0} → ℕ → UndoStack C
make_stack limit = record { undo_ = []; redo_ = []; limit = if limit == 0 then 1 else limit }

-- `undo_.erase(undo_.begin())`
unfoldable pub erase_oldest : {C : Type 0} → List C → List C
erase_oldest [] = []
erase_oldest (c ∷ []) = []
erase_oldest (c ∷ d ∷ cs) = c ∷ erase_oldest (d ∷ cs)

-- The loop that erases the oldest commands: it runs at most once for each.
unfoldable pub trim_loop : {C : Type 0} → ℕ → ℕ → List C → List C
unfolding erase_oldest
trim_loop zero limit cs = cs
trim_loop (suc fuel) limit cs =
    let rest = trim_loop fuel limit (erase_oldest cs) in if ltb limit (length cs) then rest else cs

unfoldable pub trim : {C : Type 0} → ℕ → List C → List C
unfolding trim_loop
trim limit cs = trim_loop (length cs) limit cs

-- A null command is not stored.
unfoldable pub push : {C : Type 0} → Option C → UndoStack C → UndoStack C
unfolding trim
push none s = s
push (some cmd) s = record s { undo_ = trim s.limit (cmd ∷ s.undo_); redo_ = [] }

unfoldable pub set_limit : {C : Type 0} → ℕ → UndoStack C → UndoStack C
unfolding trim
set_limit limit s =
    let n = if limit == 0 then 1 else limit in record s { limit = n; undo_ = trim n s.undo_ }

unfoldable pub clear : {C : Type 0} → UndoStack C → UndoStack C
clear s = record s { undo_ = []; redo_ = [] }

-- The text of the command at the back, or the empty text.
unfoldable pub back_text : {C : Type 0} → (C → List ℕ) → List C → List ℕ
back_text text [] = []
back_text text (c ∷ cs) = text c

-- A virtual command: what `undo` and `redo` answer and make of the world, and what they touch.
pub record Command (C W T : Type 0) : Type 0 where
  pub undo_command : C → W → Result (Unit {0}) × W
  pub redo_command : C → W → Result (Unit {0}) × W
  pub affected : C → List T

module _ {C W T : Type 0} (commands : Command C W T) where
  open commands use {undo_command, redo_command, affected}

  -- The end of `undo`: a command that failed goes back.
  unfoldable pub settle_undo :
      C
      → List C
      → UndoStack C
      → List T
      → Result (Unit {0}) × W
      → Result (Unit {0}) × UndoStack C × List T × W
  settle_undo cmd rest s dirty (err e, w) = (err e, record s { undo_ = cmd ∷ rest }, dirty, w)
  settle_undo cmd rest s dirty (ok _, w) =
      (ok tt, record s { undo_ = rest; redo_ = cmd ∷ s.redo_ }, dirty ++ affected cmd, w)

  unfoldable pub undo_from :
      List C → UndoStack C → List T → W → Result (Unit {0}) × UndoStack C × List T × W
  unfolding settle_undo
  undo_from [] s dirty w = (err ErrorCode.not_found, s, dirty, w)
  undo_from (cmd ∷ rest) s dirty w = settle_undo cmd rest s dirty (undo_command cmd w)

  unfoldable pub undo : UndoStack C → List T → W → Result (Unit {0}) × UndoStack C × List T × W
  unfolding undo_from
  undo s dirty w = undo_from s.undo_ s dirty w

  unfoldable pub settle_redo :
      C
      → List C
      → UndoStack C
      → List T
      → Result (Unit {0}) × W
      → Result (Unit {0}) × UndoStack C × List T × W
  settle_redo cmd rest s dirty (err e, w) = (err e, record s { redo_ = cmd ∷ rest }, dirty, w)
  settle_redo cmd rest s dirty (ok _, w) =
      (ok tt, record s { redo_ = rest; undo_ = cmd ∷ s.undo_ }, dirty ++ affected cmd, w)

  unfoldable pub redo_from :
      List C → UndoStack C → List T → W → Result (Unit {0}) × UndoStack C × List T × W
  unfolding settle_redo
  redo_from [] s dirty w = (err ErrorCode.not_found, s, dirty, w)
  redo_from (cmd ∷ rest) s dirty w = settle_redo cmd rest s dirty (redo_command cmd w)

  unfoldable pub redo : UndoStack C → List T → W → Result (Unit {0}) × UndoStack C × List T × W
  unfolding redo_from
  redo s dirty w = redo_from s.redo_ s dirty w

  -- Calls of the stack by its owner, over what else happens to the world.
  pub data StackCall : Type 0 where
    pushed : Option C → StackCall
    undone redone emptied : StackCall
    elsewhere : (W → W) → StackCall

  unfoldable pub stack_call : StackCall → UndoStack C × W → UndoStack C × W
  unfolding undo redo push clear
  stack_call (pushed c) (s, w) = (push c s, w)
  stack_call undone (s, w) = let (r, s', d, w') = undo s [] w in (s', w')
  stack_call redone (s, w) = let (r, s', d, w') = redo s [] w in (s', w')
  stack_call emptied (s, w) = (clear s, w)
  stack_call (elsewhere f) (s, w) = (s, f w)

  unfoldable pub stack_run : List StackCall → UndoStack C × W → UndoStack C × W
  unfolding stack_call
  stack_run [] p = p
  stack_run (c ∷ cs) p = stack_run cs (stack_call c p)
