-- ===== src/Record/Factory/Names.antt =====
-- The names of journals: they stay in the directory, and no two segments share one.
use mari_paint.Prelude.{
  ℕ, zero, suc, ◌+◌, ◌/◌, ◌%◌, ◌^◌, ◌≤◌, ◌<◌, ◌≡◌, ◌≢◌, refl, sym, ap, ◌∙◌, inl, inr, Bool, true,
  ◌&&◌, List, [], ◌∷◌, ◌++◌, arith, length, length-take, take, ltb, ◌==◌, Bool-cases, if◌then◌else◌,
  if_yes, if_no, if_both, subst, append_assoc,
}
use mari_paint.Sigan.Handshake.{codes}
use mari_paint.Sigan.Handshake.Fields.{digits, decimal, read_digits}
use mari_paint.Sigan.Handshake.Fields.Numbers.{read_digits-decimal}
use mari_paint.Record.Factory.{is_name_char, replace_chars, sanitize, journal_name}

abbrev pub all_name_chars : List ℕ → Bool
all_name_chars [] = true
all_name_chars (c ∷ s) = is_name_char c && all_name_chars s

one_char : (c : ℕ) → is_name_char (if is_name_char c then c else b'-') ≡ true
unfolding is_name_char
one_char c = elim (Bool-cases (is_name_char c)) [
  | inl yes' ↦ ap is_name_char (if_yes c b'-' yes') ∙ yes'
  | inr no' ↦ ap is_name_char (if_no c b'-' no')
]

replace_chars_lem : (s : List ℕ) → all_name_chars (replace_chars s) ≡ true
unfolding replace_chars
replace_chars_lem [] = refl
replace_chars_lem (c ∷ s) = rw (one_char c, replace_chars_lem s) refl

take-name_chars : (n : ℕ) (s : List ℕ) → all_name_chars s ≡ true → all_name_chars (take n s) ≡ true
take-name_chars zero s h = refl
take-name_chars (suc n) [] h = refl
take-name_chars (suc n) (c ∷ s) h = ground (arith, h, take-name_chars n s)

-- A name of these characters, short enough, and what is put for an empty one.
record Safe (s : List ℕ) : Type 0 where
  chars : all_name_chars s ≡ true
  some_char : 1 ≤ length s
  short : length s ≤ 32

doc-Safe :
    (s : List ℕ)
    → all_name_chars s ≡ true
    → length s ≤ 32
    → Safe (if length s == 0 then 100 ∷ 111 ∷ 99 ∷ [] else s)
unfolding is_name_char
doc-Safe [] h le = record { chars = refl; some_char = omega arith; short = omega arith }
doc-Safe (c ∷ s) h le =
    subst Safe (sym (if_no {b = length (c ∷ s) == 0} _ (c ∷ s) (ground arith)))
      (record { chars = h; some_char = omega arith; short = le })

-- Whatever the hint of a document is, the part of the journal's name that is made of it has letters,
-- digits, `-` and `_` only, at least one and at most 32 of them.
pub sanitize_safe :
    (s : List ℕ)
    → (all_name_chars (sanitize s) ≡ true) × (1 ≤ length (sanitize s)) × (length (sanitize s) ≤ 32)
unfolding sanitize
sanitize_safe s =
    let out = replace_chars s in
    let short : length (if ltb 32 (length out) then take 32 out else out) ≤ 32 =
      ground (arith, length-take 32 out) in
    let chars =
      if_both (λ t. all_name_chars t ≡ true) (ltb 32 (length out))
        (take-name_chars 32 out (replace_chars_lem s)) (replace_chars_lem s) in
    let safe = doc-Safe (if ltb 32 (length out) then take 32 out else out) chars short in
    (safe.chars, safe.some_char, safe.short)

-- No `-` in a list.
abbrev Plain : List ℕ → Type 0
Plain [] = Unit
Plain (c ∷ s) = (c ≢ b'-') × Plain s

digits-Plain : (fuel n : ℕ) (t : List ℕ) → Plain t → Plain (digits fuel n ++ t)
unfolding digits
digits-Plain zero n t h = h
digits-Plain (suc fuel) n t h = elim (Bool-cases (ltb n 10)) [
  | inl small ↦ rw small ((λ e. omega arith), h)
  | inr large ↦
      rw (large, append_assoc (digits fuel (n / 10)) ((48 + n % 10) ∷ []) t)
        (digits-Plain fuel (n / 10) ((48 + n % 10) ∷ t) ((λ e. omega arith), h))
]

abbrev tail : List ℕ → List ℕ
tail [] = []
tail (c ∷ s) = s

dash_in : (xs ds : List ℕ) → Plain (xs ++ b'-' ∷ ds) → ⊥
dash_in [] ds (ne, _) = ne refl
dash_in (x ∷ xs) ds (_, p) = dash_in xs ds p

-- What stands behind the last `-` of a text.
behind_dash :
    (xs ys ds es : List ℕ) → Plain ds → Plain es → xs ++ b'-' ∷ ds ≡ ys ++ b'-' ∷ es → ds ≡ es
behind_dash [] [] ds es p q h = ap tail h
behind_dash [] (y ∷ ys) ds es p q h = absurd (dash_in ys es (subst Plain (ap tail h) p))
behind_dash (x ∷ xs) [] ds es p q h = absurd (dash_in xs ds (subst Plain (sym (ap tail h)) q))
behind_dash (x ∷ xs) (y ∷ ys) ds es p q h = behind_dash xs ys ds es p q (ap tail h)

jrnl-Plain : Plain (codes ".jrnl")
jrnl-Plain = (
  (λ e. omega arith),
  ((λ e. omega arith), ((λ e. omega arith), ((λ e. omega arith), ((λ e. omega arith), tt)))),
)

decimal-Plain : (n : ℕ) → Plain (decimal n ++ codes ".jrnl")
unfolding decimal
decimal-Plain n = digits-Plain 20 n (codes ".jrnl") jrnl-Plain

stops : (k : ℕ) → read_digits k (codes ".jrnl") ≡ (k, codes ".jrnl")
unfolding read_digits
stops k = refl

-- Two segments of a factory have different numbers, and then their journals have different names,
-- whatever the hints of the documents are: no journal is opened over another one.
pub journal_name-distinct :
    (a b : List ℕ) (m n : ℕ) → m < 2 ^ 64 → n < 2 ^ 64 → m ≢ n → journal_name a m ≢ journal_name b n
unfolding journal_name
journal_name-distinct a b m n hm hn ne same =
    let tails =
      behind_dash (codes "mari-" ++ sanitize a) (codes "mari-" ++ sanitize b)
        (decimal m ++ codes ".jrnl") (decimal n ++ codes ".jrnl") (decimal-Plain m)
        (decimal-Plain n)
        (append_assoc (codes "mari-") (sanitize a) _
          ∙ same
          ∙ sym (append_assoc (codes "mari-") (sanitize b) _)) in
    ne (
      ap (λ (r : ℕ × List ℕ). r.0)
        (sym (read_digits-decimal m (codes ".jrnl") hm stops)
          ∙ ap (read_digits 0) tails
          ∙ read_digits-decimal n (codes ".jrnl") hn stops))
