-- ===== src/Sigan/Publisher/Delivered.antt =====
-- What the other side has been given, against the frames of the journal.
use mari_paint.Prelude.{
  ℕ, suc, ◌-◌, ◌≤◌, ◌≡◌, refl, sym, ap, ◌∙◌, max, Bool, some, List, [], ◌∷◌, ◌++◌, map, arith,
  get_elem?, get_elem?-append_left,
}
use mathlib.Core.List.{map-append}
use mari_paint.Sigan.Frame.{StrokeFrame, encode_frame}
use mari_paint.Sigan.Publisher.State.{strip}
use mari_paint.Sigan.Sink.{Sink, SinkStatus}

-- Frames that are numbered from `n + 1` on without a hole.
abbrev pub InOrder : ℕ → List StrokeFrame → Type 0
InOrder n [] = Unit
InOrder n (f ∷ fs) = (f.seq ≡ suc n) × InOrder (suc n) fs

-- The highest number among the frames, or `h`.
abbrev pub high : ℕ → List StrokeFrame → ℕ
high h [] = h
high h (w ∷ ws) = high (max h w.seq) ws

-- No number is reached before the one below it: a frame may come again, none is passed over.
abbrev pub Gapless : ℕ → List StrokeFrame → Type 0
Gapless h [] = Unit
Gapless h (w ∷ ws) = (1 ≤ w.seq) × (w.seq ≤ suc h) × Gapless (max h w.seq) ws

-- The frame is the journal's frame of the same number, but for fields that were left out.
abbrev pub IsFrom : List StrokeFrame → StrokeFrame → Type 0
IsFrom fs w =
    (f : StrokeFrame) × (a : Bool) × (b : Bool) × (get_elem? fs (w.seq - 1) ≡ some f)
    × (w ≡ strip a b f)

abbrev pub AllFrom : List StrokeFrame → List StrokeFrame → Type 0
AllFrom fs [] = Unit
AllFrom fs (w ∷ ws) = IsFrom fs w × AllFrom fs ws

high-append :
    (h : ℕ) (ws : List StrokeFrame) (w : StrokeFrame)
    → high h (ws ++ w ∷ []) ≡ max (high h ws) w.seq
high-append h [] w = refl
high-append h (v ∷ ws) w = high-append (max h v.seq) ws w

Gapless-append :
    (h : ℕ) (ws : List StrokeFrame) (w : StrokeFrame)
    → Gapless h ws
    → 1 ≤ w.seq
    → w.seq ≤ suc (high h ws)
    → Gapless h (ws ++ w ∷ [])
Gapless-append h [] w g one le = (one, le, tt)
Gapless-append h (v ∷ ws) w (a, b, g) one le = (a, b, Gapless-append (max h v.seq) ws w g one le)

AllFrom-append :
    (fs ws : List StrokeFrame) (w : StrokeFrame)
    → AllFrom fs ws
    → IsFrom fs w
    → AllFrom fs (ws ++ w ∷ [])
AllFrom-append fs [] w a b = (b, tt)
AllFrom-append fs (v ∷ ws) w (h, a) b = (h, AllFrom-append fs ws w a b)

AllFrom-grow : (fs gs ws : List StrokeFrame) → AllFrom fs ws → AllFrom (fs ++ gs) ws
AllFrom-grow fs gs [] a = tt
AllFrom-grow fs gs (w ∷ ws) ((f, x, y, at, e), a) =
    ((f, x, y, get_elem?-append_left fs gs (w.seq - 1) at, e), AllFrom-grow fs gs ws a)

module _ (channel : Sink) where
  open channel use {State, write, received}

  -- The other side has been given frames of the journal `fs` without a hole, at least up to `sent`.
  pub record Delivered (fs : List StrokeFrame) (sent : ℕ) (s : State) : Type 0 where
    pub ws : List StrokeFrame
    pub bytes : received s ≡ map encode_frame ws
    pub gapless : Gapless 0 ws
    pub from_journal : AllFrom fs ws
    pub reached : sent ≤ high 0 ws

  pub Delivered-quiet :
      {fs : List StrokeFrame} {sent : ℕ} {s s' : State}
      → received s' ≡ received s
      → Delivered fs sent s
      → Delivered fs sent s'
  Delivered-quiet e d = record {
    ws = d.ws;
    bytes = e ∙ d.bytes;
    gapless = d.gapless;
    from_journal = d.from_journal;
    reached = d.reached;
  }

  pub Delivered-grow :
      {fs : List StrokeFrame} {sent : ℕ} {s : State} (gs : List StrokeFrame)
      → Delivered fs sent s
      → Delivered (fs ++ gs) sent s
  Delivered-grow {fs} gs d = record {
    ws = d.ws;
    bytes = d.bytes;
    gapless = d.gapless;
    from_journal = AllFrom-grow fs gs d.ws d.from_journal;
    reached = d.reached;
  }

  pub Delivered-lower :
      {fs : List StrokeFrame} {sent : ℕ} {s : State} (sent' : ℕ)
      → sent' ≤ sent
      → Delivered fs sent s
      → Delivered fs sent' s
  Delivered-lower sent' le d = record {
    ws = d.ws;
    bytes = d.bytes;
    gapless = d.gapless;
    from_journal = d.from_journal;
    reached = omega (arith, d.reached);
  }

  -- The next frame of the journal, taken by the sink.
  pub Delivered-write :
      {fs : List StrokeFrame} {sent : ℕ} {s : State} (n : ℕ) (f : StrokeFrame) (a b : Bool)
      → get_elem? fs n ≡ some f
      → f.seq ≡ suc n
      → n ≤ sent
      → (write (encode_frame (strip a b f)) s).0 ≡ SinkStatus.ok
      → Delivered fs sent s
      → Delivered fs f.seq (write (encode_frame (strip a b f)) s).1
  unfolding strip
  Delivered-write {fs} {sent} {s} n f a b at e le taken d = record {
    ws = d.ws ++ strip a b f ∷ [];
    bytes =
        channel.received-write _ s taken
        ∙ (ap (◌++ encode_frame (strip a b f) ∷ []) d.bytes
            ∙ sym (map-append encode_frame d.ws (strip a b f ∷ [])));
    gapless =
        Gapless-append 0 d.ws (strip a b f) d.gapless (omega arith) (omega (arith, d.reached));
    from_journal = AllFrom-append fs d.ws (strip a b f) d.from_journal (f, a, b, index, refl);
    reached = omega (arith, high-append 0 d.ws (strip a b f));
  }
    where
      index : get_elem? fs (f.seq - 1) ≡ some f
      index = let i : f.seq - 1 ≡ n = omega arith in rw i at
