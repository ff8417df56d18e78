-- ===== src/Core/Undo/History.antt =====
-- The undo stack's history: what is kept, in which order, and how much.
use mari_paint.Prelude.{
  ℕ, zero, suc, ◌≤◌, ◌≡◌, ◌≢◌, refl, sym, ap, ◌∙◌, some, List, [], ◌∷◌, length, ltb, take, take_all,
  arith, Bool-cases, inl, inr,
}
use mari_paint.Core.Errors.{Result, ok, err}
use mari_paint.Core.Undo.Stack.{
  UndoStack, erase_oldest, trim_loop, trim, push, Command, settle_undo, undo_from, undo,
  settle_redo, redo_from, redo,
}

length-erase_oldest :
    {C : Type 0} (c : C) (cs : List C) → length (erase_oldest (c ∷ cs)) ≡ length cs
unfolding erase_oldest
length-erase_oldest c [] = refl
length-erase_oldest c (d ∷ cs) = ap suc (length-erase_oldest d cs)

take-erase_oldest :
    {C : Type 0} (n : ℕ) (c : C) (cs : List C)
    → n ≤ length cs
    → take n (erase_oldest (c ∷ cs)) ≡ take n (c ∷ cs)
unfolding erase_oldest
take-erase_oldest zero c cs le = refl
take-erase_oldest (suc n) c [] le = absurd (omega arith)
take-erase_oldest (suc n) c (d ∷ cs) le = ap (c ∷◌) (take-erase_oldest n d cs (omega arith))

trim_loop-take :
    {C : Type 0} (fuel limit : ℕ) (cs : List C)
    → length cs ≤ fuel
    → trim_loop fuel limit cs ≡ take limit cs
unfolding trim_loop
trim_loop-take zero limit cs le = sym (take_all cs (omega arith))
trim_loop-take {C} (suc fuel) limit [] le =
    let empty : trim_loop (suc fuel) limit [] ≡ [] = ground arith in
    empty ∙ sym (take_all {A = C} [] {n = limit} (omega arith))
trim_loop-take (suc fuel) limit (c ∷ cs) le = elim (Bool-cases (ltb limit (suc (length cs)))) [
  | inl more ↦ rw more (
      trim_loop-take fuel limit (erase_oldest (c ∷ cs)) (omega (arith, length-erase_oldest c cs))
      ∙ take-erase_oldest limit c cs (ground (arith, more)))
  | inr fits ↦ rw fits (sym (take_all (c ∷ cs) (ground (arith, fits))))
]

-- What the loop leaves are the newest commands, as many as the limit lets.
trim_lem : {C : Type 0} (limit : ℕ) (cs : List C) → trim limit cs ≡ take limit cs
unfolding trim
trim_lem limit cs = trim_loop-take (length cs) limit cs (omega arith)

-- A command that is pushed is the newest one, the oldest beyond the limit are gone, and so is
-- every command that could be redone; the limit stays.
pub push_lem :
    {C : Type 0} (cmd : C) (s : UndoStack C)
    → ((push (some cmd) s).undo_ ≡ take s.limit (cmd ∷ s.undo_))
      × ((push (some cmd) s).redo_ ≡ [])
      × ((push (some cmd) s).limit ≡ s.limit)
unfolding push
push_lem cmd s = (trim_lem s.limit (cmd ∷ s.undo_), refl, refl)

stack-eq :
    {C : Type 0} (a b : UndoStack C)
    → a.undo_ ≡ b.undo_
    → a.redo_ ≡ b.redo_
    → a.limit ≡ b.limit
    → a ≡ b
stack-eq a b x y z = λ i. record { undo_ = x i; redo_ = y i; limit = z i }

module _ {C W T : Type 0} (commands : Command C W T) where
  settle_redo-back :
      (cmd : C) (rest : List C) (s now : UndoStack C) (dirty : List T) (r : Result (Unit {0}) × W)
      → s.undo_ ≡ cmd ∷ now.undo_
      → s.redo_ ≡ rest
      → s.limit ≡ now.limit
      → (settle_redo commands cmd rest now dirty r).0 ≡ ok tt
      → (settle_redo commands cmd rest now dirty r).1 ≡ s
  unfolding settle_redo
  settle_redo-back cmd rest s now dirty (err e, w) u v l h = cc
  settle_redo-back cmd rest s now dirty (ok _, w) u v l h = stack-eq _ s (sym u) (sym v) (sym l)

  settle_undo-redo :
      (cmd : C) (rest : List C) (s : UndoStack C) (dirty : List T) (r : Result (Unit {0}) × W)
      (dirty' : List T) (w' : W)
      → s.undo_ ≡ cmd ∷ rest
      → (settle_undo commands cmd rest s dirty r).0 ≡ ok tt
      → (redo commands (settle_undo commands cmd rest s dirty r).1 dirty' w').0 ≡ ok tt
      → (redo commands (settle_undo commands cmd rest s dirty r).1 dirty' w').1 ≡ s
  unfolding settle_undo redo redo_from
  settle_undo-redo cmd rest s dirty (err e, w) dirty' w' u h k = cc
  settle_undo-redo cmd rest s dirty (ok _, w) dirty' w' u h k =
      settle_redo-back cmd s.redo_ s (record s { undo_ = rest; redo_ = cmd ∷ s.redo_ }) dirty' _ u
        refl refl k

  undo_from-redo :
      (us : List C) (s : UndoStack C) (dirty : List T) (w : W) (dirty' : List T) (w' : W)
      → s.undo_ ≡ us
      → (undo_from commands us s dirty w).0 ≡ ok tt
      → (redo commands (undo_from commands us s dirty w).1 dirty' w').0 ≡ ok tt
      → (redo commands (undo_from commands us s dirty w).1 dirty' w').1 ≡ s
  unfolding undo_from
  undo_from-redo [] s dirty w dirty' w' u h k = cc
  undo_from-redo (cmd ∷ rest) s dirty w dirty' w' u h k =
      settle_undo-redo cmd rest s dirty _ dirty' w' u h k

  -- An undo that works and then a redo that works leave the stack as it was, limit and all.
  pub undo-redo_stack :
      (s : UndoStack C) (dirty : List T) (w : W) (dirty' : List T) (w' : W)
      → (undo commands s dirty w).0 ≡ ok tt
      → (redo commands (undo commands s dirty w).1 dirty' w').0 ≡ ok tt
      → (redo commands (undo commands s dirty w).1 dirty' w').1 ≡ s
  unfolding undo
  undo-redo_stack s dirty w dirty' w' h k = undo_from-redo s.undo_ s dirty w dirty' w' refl h k

  settle_undo_failed :
      (cmd : C) (rest : List C) (s : UndoStack C) (dirty : List T) (r : Result (Unit {0}) × W)
      → s.undo_ ≡ cmd ∷ rest
      → (settle_undo commands cmd rest s dirty r).0 ≢ ok tt
      → ((settle_undo commands cmd rest s dirty r).1 ≡ s)
        × ((settle_undo commands cmd rest s dirty r).2 ≡ dirty)
  unfolding settle_undo
  settle_undo_failed cmd rest s dirty (err e, w) u h = (stack-eq _ s (sym u) refl refl, refl)
  settle_undo_failed cmd rest s dirty (ok _, w) u h = absurd (h refl)

  settle_redo_failed :
      (cmd : C) (rest : List C) (s : UndoStack C) (dirty : List T) (r : Result (Unit {0}) × W)
      → s.redo_ ≡ cmd ∷ rest
      → (settle_redo commands cmd rest s dirty r).0 ≢ ok tt
      → ((settle_redo commands cmd rest s dirty r).1 ≡ s)
        × ((settle_redo commands cmd rest s dirty r).2 ≡ dirty)
  unfolding settle_redo
  settle_redo_failed cmd rest s dirty (err e, w) u h = (stack-eq _ s refl (sym u) refl, refl)
  settle_redo_failed cmd rest s dirty (ok _, w) u h = absurd (h refl)

  undo_from_failed :
      (us : List C) (s : UndoStack C) (dirty : List T) (w : W)
      → s.undo_ ≡ us
      → (undo_from commands us s dirty w).0 ≢ ok tt
      → ((undo_from commands us s dirty w).1 ≡ s) × ((undo_from commands us s dirty w).2 ≡ dirty)
  unfolding undo_from
  undo_from_failed [] s dirty w u h = (refl, refl)
  undo_from_failed (cmd ∷ rest) s dirty w u h = settle_undo_failed cmd rest s dirty _ u h

  redo_from_failed :
      (rs : List C) (s : UndoStack C) (dirty : List T) (w : W)
      → s.redo_ ≡ rs
      → (redo_from commands rs s dirty w).0 ≢ ok tt
      → ((redo_from commands rs s dirty w).1 ≡ s) × ((redo_from commands rs s dirty w).2 ≡ dirty)
  unfolding redo_from
  redo_from_failed [] s dirty w u h = (refl, refl)
  redo_from_failed (cmd ∷ rest) s dirty w u h = settle_redo_failed cmd rest s dirty _ u h

  -- An undo that does not work, because there is nothing to undo or because the command failed,
  -- leaves the stack and the list of touched tiles as they were.
  pub undo_failed :
      (s : UndoStack C) (dirty : List T) (w : W)
      → (undo commands s dirty w).0 ≢ ok tt
      → ((undo commands s dirty w).1 ≡ s) × ((undo commands s dirty w).2 ≡ dirty)
  unfolding undo
  undo_failed s dirty w h = undo_from_failed s.undo_ s dirty w refl h

  -- A redo that does not work, because there is nothing to redo or because the command failed,
  -- leaves the stack and the list of touched tiles as they were.
  pub redo_failed :
      (s : UndoStack C) (dirty : List T) (w : W)
      → (redo commands s dirty w).0 ≢ ok tt
      → ((redo commands s dirty w).1 ≡ s) × ((redo commands s dirty w).2 ≡ dirty)
  unfolding redo
  redo_failed s dirty w h = redo_from_failed s.redo_ s dirty w refl h
