-- ===== src/Core/Undo/Bounded.antt =====
-- The size of the undo stack and its limit.
use mari_paint.Prelude.{
  ℕ, ◌+◌, ◌≤◌, ◌≡◌, refl, ap, ◌∙◌, Option, none, some, List, [], ◌∷◌, length, length-take, arith,
  if◌then◌else◌, ◌==◌,
}
use mari_paint.Core.Errors.{Result, ok, err}
use mari_paint.Core.Undo.Stack.{
  UndoStack, make_stack, push, clear, Command, settle_undo, undo_from, undo, settle_redo, redo_from,
  redo, StackCall, pushed, undone, redone, emptied, elsewhere, stack_call, stack_run,
}
use mari_paint.Core.Undo.History.{push_lem}

module _ {C : Type 0} where
  -- All commands together, those to undo and those to redo.
  abbrev pub held : UndoStack C → ℕ
  held s = length s.undo_ + length s.redo_

  push-held : (c : Option C) (s : UndoStack C) → held s ≤ s.limit → held (push c s) ≤ s.limit
  unfolding push
  push-held none s le = le
  push-held (some cmd) s le =
      omega (arith, ap length (push_lem cmd s).0, length-take s.limit (cmd ∷ s.undo_))

  limit-push : (c : Option C) (s : UndoStack C) → (push c s).limit ≡ s.limit
  unfolding push
  limit-push none s = refl
  limit-push (some cmd) s = refl

module _ {C W T : Type 0} (commands : Command C W T) where
  settle_undo-held :
      (cmd : C) (rest : List C) (s : UndoStack C) (dirty : List T) (r : Result (Unit {0}) × W)
      → s.undo_ ≡ cmd ∷ rest
      → (held (settle_undo commands cmd rest s dirty r).1 ≡ held s)
        × ((settle_undo commands cmd rest s dirty r).1.limit ≡ s.limit)
  unfolding settle_undo
  settle_undo-held cmd rest s dirty (err e, w) u = (omega (arith, ap length u), refl)
  settle_undo-held cmd rest s dirty (ok _, w) u = (omega (arith, ap length u), refl)

  settle_redo-held :
      (cmd : C) (rest : List C) (s : UndoStack C) (dirty : List T) (r : Result (Unit {0}) × W)
      → s.redo_ ≡ cmd ∷ rest
      → (held (settle_redo commands cmd rest s dirty r).1 ≡ held s)
        × ((settle_redo commands cmd rest s dirty r).1.limit ≡ s.limit)
  unfolding settle_redo
  settle_redo-held cmd rest s dirty (err e, w) u = (omega (arith, ap length u), refl)
  settle_redo-held cmd rest s dirty (ok _, w) u = (omega (arith, ap length u), refl)

  undo_from-held :
      (us : List C) (s : UndoStack C) (dirty : List T) (w : W)
      → s.undo_ ≡ us
      → (held (undo_from commands us s dirty w).1 ≡ held s)
        × ((undo_from commands us s dirty w).1.limit ≡ s.limit)
  unfolding undo_from
  undo_from-held [] s dirty w u = (refl, refl)
  undo_from-held (cmd ∷ rest) s dirty w u = settle_undo-held cmd rest s dirty _ u

  redo_from-held :
      (rs : List C) (s : UndoStack C) (dirty : List T) (w : W)
      → s.redo_ ≡ rs
      → (held (redo_from commands rs s dirty w).1 ≡ held s)
        × ((redo_from commands rs s dirty w).1.limit ≡ s.limit)
  unfolding redo_from
  redo_from-held [] s dirty w u = (refl, refl)
  redo_from-held (cmd ∷ rest) s dirty w u = settle_redo-held cmd rest s dirty _ u

  Kept : UndoStack C → UndoStack C → Type 0
  Kept s t = (held s ≤ s.limit → held t ≤ t.limit) × (t.limit ≡ s.limit)

  stack_call-Kept :
      (c : StackCall commands) (s : UndoStack C) (w : W) → Kept s (stack_call commands c (s, w)).0
  unfolding stack_call Kept undo redo clear
  stack_call-Kept (pushed c) s w =
      (λ le. omega (arith, push-held c s le, limit-push c s), limit-push c s)
  stack_call-Kept undone s w =
      let (h, l) = undo_from-held s.undo_ s [] w refl in (λ le. omega (arith, h, l), l)
  stack_call-Kept redone s w =
      let (h, l) = redo_from-held s.redo_ s [] w refl in (λ le. omega (arith, h, l), l)
  stack_call-Kept emptied s w = (λ le. omega arith, refl)
  stack_call-Kept (elsewhere f) s w = (λ le. le, refl)

  stack_run-Kept :
      (cs : List (StackCall commands)) (s : UndoStack C) (w : W)
      → Kept s (stack_run commands cs (s, w)).0
  unfolding stack_run Kept
  stack_run-Kept [] s w = (λ le. le, refl)
  stack_run-Kept (c ∷ cs) s w =
      let (f, l) = stack_call-Kept c s w in
      let (g, m) =
        stack_run-Kept cs (stack_call commands c (s, w)).0 (stack_call commands c (s, w)).1 in
      (λ le. g (f le), m ∙ l)

  -- Whatever is pushed, undone, redone and cleared, in any order and over any changes of the world
  -- in between: a new stack keeps its limit, which is at least 1, and the commands to undo and
  -- those to redo are together never more than the limit.
  pub stack_run-bounded :
      (limit : ℕ) (cs : List (StackCall commands)) (w : W)
      → let s = (stack_run commands cs (make_stack limit, w)).0 in
        (length s.undo_ + length s.redo_ ≤ s.limit)
        × (1 ≤ s.limit)
        × (s.limit ≡ (if limit == 0 then 1 else limit))
  unfolding make_stack Kept
  stack_run-bounded limit cs w =
      let (f, l) = stack_run-Kept cs (make_stack limit) w in (f (omega arith), ground (arith, l), l)
