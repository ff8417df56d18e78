-- ===== src/Sigan/Publisher/Text.antt =====
-- The notes that `SiganPublisher::pump` leaves in the journal, as bytes: UTF-8 and decimal numbers.
use Prim.Native.Char.{code}
use Prim.Native.String.{String}
use mari_paint.Prelude.{ℕ, zero, suc, ◌+◌, ◌/◌, ◌%◌, ◌^◌, List, [], ◌∷◌, ◌++◌, ltb, if◌then◌else◌}

-- The bytes of a character of the basic plane.
abbrev utf8_code : ℕ → List ℕ
utf8_code c =
    if ltb c 0x80
    then c ∷ []
    else if ltb c 0x800
    then (0xC0 + c / 2 ^ 6) ∷ (0x80 + c % 2 ^ 6) ∷ []
    else (0xE0 + c / 2 ^ 12) ∷ (0x80 + c / 2 ^ 6 % 2 ^ 6) ∷ (0x80 + c % 2 ^ 6) ∷ []

utf8 : String → List ℕ
utf8 String.[] = []
utf8 (String.◌∷◌ c s) = utf8_code (code c) ++ utf8 s

-- The digits of a number, before those of `acc`; ten of them hold a `uint32_t`.
decimal : ℕ → ℕ → List ℕ → List ℕ
decimal zero n acc = acc
decimal (suc fuel) n acc =
    let d = (b'0' + n % 10) ∷ acc in
    let rest = decimal fuel (n / 10) d in if ltb n 10 then d else rest

-- `std::to_string`
to_string : ℕ → List ℕ
unfolding decimal
to_string n = decimal 10 n []

unfoldable pub rehandshake_note : ℕ → List ℕ
unfolding utf8 to_string
rehandshake_note proto = utf8 "재핸드셰이크: proto=" ++ (to_string proto ++ utf8 " seq 연속 유지(같은 세션)")

unfoldable pub no_answer_note : List ℕ
unfolding utf8
no_answer_note = utf8 "핸드셰이크 무응답: 최소 능력으로 계속 기록한다"
