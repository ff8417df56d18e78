-- ===== src/Sigan/Wire.antt =====
-- Little-endian words (the anonymous helpers of sigan/src/frame.cpp, and their copies in
-- sigan/src/journal.cpp). A byte is a number below 256, a buffer is a list of bytes. The shifted
-- bytes that the source joins by `|` have no bit in common, so the join is a sum.
use mari_paint.Prelude.{
  ℕ, Bool, true, false, ◌==◌, if◌then◌else◌, ◌+◌, ◌*◌, ◌/◌, ◌%◌, ◌^◌, ◌<◌, ◌≡◌, refl, Option, none,
  some, List, [], ◌∷◌, ◌++◌, arith, length,
}

abbrev pub IsU8 : ℕ → Type 0
IsU8 v = v < 2 ^ 8

abbrev pub IsU32 : ℕ → Type 0
IsU32 v = v < 2 ^ 32

abbrev pub IsU64 : ℕ → Type 0
IsU64 v = v < 2 ^ 64

-- `(v >> k) & 0xFF`
abbrev pub byte_at : ℕ → ℕ → ℕ
byte_at v k = v / 2 ^ k % 256

unfoldable pub put_u32 : ℕ → List ℕ
put_u32 v = byte_at v 0 ∷ byte_at v 8 ∷ byte_at v 16 ∷ byte_at v 24 ∷ []

unfoldable pub put_u64 : ℕ → List ℕ
put_u64 v =
    byte_at v 0
    ∷ byte_at v 8
    ∷ byte_at v 16
    ∷ byte_at v 24
    ∷ byte_at v 32
    ∷ byte_at v 40
    ∷ byte_at v 48
    ∷ byte_at v 56
    ∷ []

-- A read returns the value and the bytes behind it. `none` stands for a read past the end of the
-- buffer, which the source leaves to its callers.
abbrev pub Read : Type 0 → Type 0
Read A = List ℕ → Option (A × List ℕ)

infixl 5 ◌>>=◌ ◌>>◌
abbrev pub ◌>>=◌ : {A B : Type 0} → Read A → (A → Read B) → Read B
◌>>=◌ m f bytes = elim (m bytes) [ none ↦ none | some (a, rest) ↦ f a rest ]

abbrev pub ◌>>◌ : {A B : Type 0} → Read A → Read B → Read B
m >> k = m >>= λ _. k

abbrev pub pure : {A : Type 0} → A → Read A
pure a bytes = some (a, bytes)

unfoldable pub get_u8 : Read ℕ
get_u8 [] = none
get_u8 (b ∷ rest) = some (b, rest)

unfoldable pub get_u32 : Read ℕ
get_u32 (a ∷ b ∷ c ∷ d ∷ rest) = some (a + b * 2 ^ 8 + c * 2 ^ 16 + d * 2 ^ 24, rest)
get_u32 _ = none

unfoldable pub get_u64 : Read ℕ
get_u64 (a ∷ b ∷ c ∷ d ∷ e ∷ f ∷ g ∷ h ∷ rest) = some (
  a + b * 2 ^ 8 + c * 2 ^ 16 + d * 2 ^ 24 + e * 2 ^ 32 + f * 2 ^ 40 + g * 2 ^ 48 + h * 2 ^ 56,
  rest,
)
get_u64 _ = none

-- `std::memcmp`, and the equality of `std::string`s.
unfoldable pub same_bytes : List ℕ → List ℕ → Bool
same_bytes [] [] = true
same_bytes (a ∷ as') (b ∷ bs) = if a == b then same_bytes as' bs else false
same_bytes _ _ = false

pub length-put_u32 : (v : ℕ) → length (put_u32 v) ≡ 4
unfolding put_u32
length-put_u32 v = refl

pub length-put_u64 : (v : ℕ) → length (put_u64 v) ≡ 8
unfolding put_u64
length-put_u64 v = refl

-- The bytes of a word add up to it.
pub join_u32 :
    (v : ℕ)
    → IsU32 v
    → byte_at v 0 + byte_at v 8 * 2 ^ 8 + byte_at v 16 * 2 ^ 16 + byte_at v 24 * 2 ^ 24 ≡ v
join_u32 v h = omega arith

pub join_u64 :
    (v : ℕ)
    → IsU64 v
    → byte_at v 0
        + byte_at v 8 * 2 ^ 8
        + byte_at v 16 * 2 ^ 16
        + byte_at v 24 * 2 ^ 24
        + byte_at v 32 * 2 ^ 32
        + byte_at v 40 * 2 ^ 40
        + byte_at v 48 * 2 ^ 48
        + byte_at v 56 * 2 ^ 56
      ≡ v
join_u64 v h = omega arith

pub get_u32-put_u32 :
    (v : ℕ) (rest : List ℕ) → IsU32 v → get_u32 (put_u32 v ++ rest) ≡ some (v, rest)
unfolding put_u32 get_u32
get_u32-put_u32 v rest h = λ i. some (join_u32 v h i, rest)

pub get_u64-put_u64 :
    (v : ℕ) (rest : List ℕ) → IsU64 v → get_u64 (put_u64 v ++ rest) ≡ some (v, rest)
unfolding put_u64 get_u64
get_u64-put_u64 v rest h = λ i. some (join_u64 v h i, rest)
