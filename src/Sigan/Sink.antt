-- ===== src/Sigan/Sink.antt =====
-- The channel to the other side (include/mari/sigan/sink.hpp). `ISiganSink` is an interface: its
-- operations are a parameter, with what its comments promise as laws. `received` is what the other
-- side has been given so far, write by write.
use mari_paint.Prelude.{ℕ, ◌≡◌, ◌≢◌, Bool, List, [], ◌∷◌, ◌++◌}
use mari_paint.Core.Errors.{Result}
use mari_paint.Sigan.Handshake.{Handshake}

pub data SinkStatus : Type 0 where
  ok would_block disconnected : SinkStatus

pub record Sink : Type 1 where
  pub State : Type 0
  pub connected : State → Bool
  pub connect : State → Result (Unit {0}) × State
  pub handshake : Handshake → State → Result Handshake × State
  pub write : List ℕ → State → SinkStatus × State
  pub pump : State → State
  pub received : State → List (List ℕ)
  pub received-connect : (s : State) → received (connect s).1 ≡ received s
  pub received-handshake : (h : Handshake) (s : State) → received (handshake h s).1 ≡ received s
  pub received-pump : (s : State) → received (pump s) ≡ received s
  -- A write is taken whole, or as if it had not been made.
  pub received-write :
      (bytes : List ℕ) (s : State)
      → (write bytes s).0 ≡ SinkStatus.ok
      → received (write bytes s).1 ≡ received s ++ bytes ∷ []
  pub received-write_refused :
      (bytes : List ℕ) (s : State)
      → (write bytes s).0 ≢ SinkStatus.ok
      → received (write bytes s).1 ≡ received s
