-- ===== src/Core/Tile/Sharing.antt =====
-- Pixel buffers shared copy-on-write (`BufferTile` of core/src/tile.cpp): a tile holds a pointer to
-- its buffer, a clone points to the same one, and a write to a buffer that another tile points to
-- copies it first. A store has the buffers, and for each tile the index of its buffer.
use mari_paint.Prelude.{
  ℕ, zero, suc, ◌≤◌, ◌<◌, ◌≡◌, ◌≢◌, refl, sym, ap, ◌∙◌, List, [], ◌∷◌, ◌++◌, length, set, get_or,
  ltb, ◌==◌, if◌then◌else◌, arith, length-set, length-append, Bool-cases, inl, inr, if_yes, if_no,
  true, false, subst, ℕ_discrete, get_or-set_self, get_or-set_other, get_or-append_left,
  get_or-append_last,
}

pub record Store : Type 0 where
  pub buffers : List (List ℕ)
  pub tiles : List ℕ

abbrev use_count : ℕ → List ℕ → ℕ
use_count a [] = 0
use_count a (b ∷ bs) = if b == a then suc (use_count a bs) else use_count a bs

-- `pixels`
unfoldable pub pixels : Store → ℕ → List ℕ
pixels s i = get_or s.buffers (get_or s.tiles i 0) []

-- `clone`: the new tile is the last one.
unfoldable pub clone : Store → ℕ → Store
clone s i = record s { tiles = s.tiles ++ get_or s.tiles i 0 ∷ [] }

-- `ensureUnique`
unfoldable pub ensure_unique : Store → ℕ → Store
ensure_unique s i =
    let a = get_or s.tiles i 0 in
    if ltb 1 (use_count a s.tiles)
    then record {
      buffers = s.buffers ++ get_or s.buffers a [] ∷ [];
      tiles = set s.tiles i (length s.buffers);
    }
    else s

-- A write of all pixels through `mutablePixels`.
unfoldable pub write_to : Store → ℕ → List ℕ → Store
write_to u i px = record u { buffers = set u.buffers (get_or u.tiles i 0) px }

unfoldable pub write : Store → ℕ → List ℕ → Store
unfolding ensure_unique write_to
write s i px = write_to (ensure_unique s i) i px

use_count-here : (ts : List ℕ) (i : ℕ) → i < length ts → 1 ≤ use_count (get_or ts i 0) ts
use_count-here [] i h = absurd (omega arith)
use_count-here (t ∷ ts) zero h = ground arith
use_count-here (t ∷ ts) (suc i) h = ground (arith, use_count-here ts i (omega arith))

use_count-twice :
    (ts : List ℕ) (i j : ℕ)
    → i < length ts
    → j < length ts
    → i ≢ j
    → get_or ts i 0 ≡ get_or ts j 0
    → 2 ≤ use_count (get_or ts i 0) ts
use_count-twice [] i j hi hj ne e = absurd (omega arith)
use_count-twice (t ∷ ts) zero zero hi hj ne e = absurd (ne refl)
use_count-twice (t ∷ ts) zero (suc j) hi hj ne e =
    ground (arith, e, use_count-here ts j (omega arith))
use_count-twice (t ∷ ts) (suc i) zero hi hj ne e =
    ground (arith, e, use_count-here ts i (omega arith))
use_count-twice (t ∷ ts) (suc i) (suc j) hi hj ne e =
    let more = use_count-twice ts i j (omega arith) (omega arith) (λ q. ne (ap suc q)) e in
    ground (arith, more)

-- Every tile points to a buffer.
abbrev pub Sound : Store → Type 0
Sound s = (i : ℕ) → i < length s.tiles → get_or s.tiles i 0 < length s.buffers

-- What a write makes of the tiles, whichever way `ensureUnique` goes.
pub record Written (s t : Store) (i : ℕ) (px : List ℕ) : Type 0 where
  count : length t.tiles ≡ length s.tiles
  sound : Sound t
  self : pixels t i ≡ px
  other : (j : ℕ) → j < length s.tiles → i ≢ j → pixels t j ≡ pixels s j

copied-Written :
    (s : Store) (i : ℕ) (px : List ℕ)
    → i < length s.tiles
    → Sound s
    → Written s
        (write_to
          (record {
            buffers = s.buffers ++ get_or s.buffers (get_or s.tiles i 0) [] ∷ [];
            tiles = set s.tiles i (length s.buffers);
          })
          i
          px)
        i
        px
unfolding write_to pixels
copied-Written s i px hi h = record {
  count = length-set s.tiles i n;
  sound = λ j hj. elim (ℕ_discrete i j) [
    | yes e ↦ subst (λ k. get_or (set s.tiles i n) k 0 < length more) e (omega (arith, here, grown))
    | no ne ↦ omega (
      arith,
      get_or-set_other s.tiles i j n 0 ne,
      h j (omega (arith, hj, length-set s.tiles i n)),
      grown,
    )
  ];
  self = get_or-set_self bs a px [] (omega (arith, here, length-append s.buffers (old ∷ [])));
  other = λ j hj ne.
      let apart : a ≢ get_or s.tiles j 0 = λ e. omega (arith, here, h j hj, e) in
      ap (λ k. get_or (set bs a px) k []) (get_or-set_other s.tiles i j n 0 ne)
      ∙ get_or-set_other bs a (get_or s.tiles j 0) px [] apart
      ∙ get_or-append_left s.buffers (old ∷ []) (get_or s.tiles j 0) [] (h j hj);
}
  where
    n : ℕ
    n = length s.buffers

    old : List ℕ
    old = get_or s.buffers (get_or s.tiles i 0) []

    bs : List (List ℕ)
    bs = s.buffers ++ old ∷ []

    a : ℕ
    a = get_or (set s.tiles i n) i 0

    more : List (List ℕ)
    more = set bs a px

    here : a ≡ n
    here = get_or-set_self s.tiles i n 0 hi

    grown : length more ≡ suc n
    grown = omega (arith, length-set bs a px, length-append s.buffers (old ∷ []))

alone-Written :
    (s : Store) (i : ℕ) (px : List ℕ)
    → i < length s.tiles
    → Sound s
    → use_count (get_or s.tiles i 0) s.tiles ≤ 1
    → Written s (write_to s i px) i px
unfolding write_to pixels
alone-Written s i px hi h one = record {
  count = refl;
  sound = λ j hj. omega (arith, h j hj, length-set s.buffers (get_or s.tiles i 0) px);
  self = get_or-set_self s.buffers (get_or s.tiles i 0) px [] (h i hi);
  other = λ j hj ne.
      get_or-set_other s.buffers (get_or s.tiles i 0) (get_or s.tiles j 0) px []
        (λ e. omega (arith, one, use_count-twice s.tiles i j hi hj ne e));
}

write-Written :
    (s : Store) (i : ℕ) (px : List ℕ) → i < length s.tiles → Sound s → Written s (write s i px) i px
unfolding write ensure_unique
write-Written s i px hi h = elim (Bool-cases (ltb 1 (use_count (get_or s.tiles i 0) s.tiles))) [
  | inl shared ↦
      subst (λ u. Written s (write_to u i px) i px) (sym (if_yes _ _ shared))
        (copied-Written s i px hi h)
  | inr alone ↦
      subst (λ u. Written s (write_to u i px) i px) (sym (if_no _ _ alone))
        (alone-Written s i px hi h (ground (arith, alone)))
]

-- In a store where every tile has a buffer, a write to a tile changes the pixels of this tile and
-- of no other, also where tiles share a buffer.
pub pixels-write :
    (s : Store) (i j : ℕ) (px : List ℕ)
    → i < length s.tiles
    → j < length s.tiles
    → Sound s
    → pixels (write s i px) j ≡ (if i == j then px else pixels s j)
pixels-write s i j px hi hj h =
    let w = write-Written s i px hi h in
    elim (ℕ_discrete i j) [
      | yes e ↦
          let same : (i == j) ≡ true = ground (arith, e) in
          ap (pixels (write s i px)) (sym e) ∙ w.self ∙ sym (if_yes _ _ same)
      | no ne ↦
          let apart : (i == j) ≡ false = ground (arith, ne) in
          w.other j hj ne ∙ sym (if_no _ _ apart)
    ]

-- In a store where every tile has a buffer, a tile that is cloned and then written to leaves the
-- clone's pixels as they were, and a clone that is written to leaves those of the tile.
pub clone-frozen :
    (s : Store) (i : ℕ) (px : List ℕ)
    → i < length s.tiles
    → Sound s
    → (pixels (write (clone s i) i px) i ≡ px)
      × (pixels (write (clone s i) i px) (length s.tiles) ≡ pixels s i)
      × (pixels (write (clone s i) (length s.tiles) px) i ≡ pixels s i)
      × (pixels (write (clone s i) (length s.tiles) px) (length s.tiles) ≡ px)
unfolding clone pixels
clone-frozen s i px hi h = (
  first.self,
  first.other n (omega (arith, len)) (λ e. omega (arith, e, hi)) ∙ ap at last,
  second.other i (omega (arith, len)) (λ e. omega (arith, e, hi)) ∙ ap at early,
  second.self,
)
  where
    n : ℕ
    n = length s.tiles

    at : ℕ → List ℕ
    at k = get_or s.buffers k []

    early : get_or (clone s i).tiles i 0 ≡ get_or s.tiles i 0
    early = get_or-append_left s.tiles (get_or s.tiles i 0 ∷ []) i 0 hi

    last : get_or (clone s i).tiles n 0 ≡ get_or s.tiles i 0
    last = get_or-append_last s.tiles (get_or s.tiles i 0) 0

    len : length (clone s i).tiles ≡ suc n
    len = omega (arith, length-append s.tiles (get_or s.tiles i 0 ∷ []))

    sound : Sound (clone s i)
    sound j hj = elim (ℕ_discrete n j) [
      | yes e ↦
          subst (λ k. get_or (clone s i).tiles k 0 < length s.buffers) e
            (omega (arith, last, h i hi))
      | no ne ↦
          let less : j < n = omega (arith, len, hj, ne) in
          omega (arith, get_or-append_left s.tiles (get_or s.tiles i 0 ∷ []) j 0 less, h j less)
    ]

    first : Written (clone s i) (write (clone s i) i px) i px
    first = write-Written (clone s i) i px (omega (arith, len, hi)) sound

    second : Written (clone s i) (write (clone s i) n px) n px
    second = write-Written (clone s i) n px (omega (arith, len)) sound
