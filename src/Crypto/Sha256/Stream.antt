-- ===== src/Crypto/Sha256/Stream.antt =====
-- The loop over whole blocks, and what `update` makes of a message in parts.
use mari_paint.Prelude.{
  ℕ, zero, suc, ◌+◌, ◌-◌, ◌%◌, ◌^◌, ◌≤◌, ◌<◌, ◌≡◌, refl, sym, ap, ◌∙◌, true, false, ◌||◌, List, [],
  ◌∷◌, ◌++◌, arith, ltb, leb, ◌==◌, length, take, drop, length-take, length-drop, length-append,
  take-append_left, take-append_right, drop-append_left, drop-append_right, append_assoc,
  append-nil, take_all, nil_of_length, Bool-cases, inl, inr, if_yes, if_no, subst,
}
use mari_paint.Crypto.Sha256.{
  Words, initial, compress, Sha256, reset, whole_blocks, take_blocks, fill, feed, update, hash_file,
}

-- The loop with enough fuel for the bytes.
abbrev pub absorb : Words → List ℕ → Words × List ℕ
absorb s p = whole_blocks (length p) s p

whole_blocks_fuel :
    (n m : ℕ) (s : Words) (p : List ℕ)
    → length p ≤ n
    → length p ≤ m
    → whole_blocks n s p ≡ whole_blocks m s p
unfolding whole_blocks
whole_blocks_fuel zero zero s p h k = refl
whole_blocks_fuel zero (suc m) s p h k = sym (if_no {b = leb 64 (length p)} _ _ (ground (arith, h)))
whole_blocks_fuel (suc n) zero s p h k = if_no {b = leb 64 (length p)} _ _ (ground (arith, k))
whole_blocks_fuel (suc n) (suc m) s p h k = elim (Bool-cases (leb 64 (length p))) [
  | inl more ↦
      if_yes _ _ more
      ∙ whole_blocks_fuel n m _ (drop 64 p) (ground (arith, h, more, length-drop 64 p))
          (ground (arith, k, more, length-drop 64 p))
      ∙ sym (if_yes _ _ more)
  | inr few ↦ if_no _ _ few ∙ sym (if_no _ _ few)
]

pub absorb_stop : (s : Words) (p : List ℕ) → length p < 64 → absorb s p ≡ (s, p)
unfolding whole_blocks
absorb_stop s p h =
    whole_blocks_fuel (length p) (suc (length p)) s p (omega arith) (omega arith)
    ∙ if_no {b = leb 64 (length p)} _ _ (ground (arith, h))

pub absorb_step :
    (s : Words) (p : List ℕ)
    → 64 ≤ length p
    → absorb s p ≡ absorb (compress s (take 64 p)) (drop 64 p)
unfolding whole_blocks
absorb_step s p h =
    whole_blocks_fuel (length p) (suc (length p)) s p (omega arith) (omega arith)
    ∙ if_yes {b = leb 64 (length p)} _ _ (ground (arith, h))
    ∙ whole_blocks_fuel (length p) (length (drop 64 p)) _ (drop 64 p)
        (omega (arith, length-drop 64 p)) (omega arith)

absorb-append_fuel :
    (n : ℕ) (s : Words) (m p : List ℕ)
    → length m ≤ n
    → (absorb s (m ++ p) ≡ absorb (absorb s m).0 ((absorb s m).1 ++ p))
      × (length (absorb s m).1 < 64)
absorb-append_fuel zero s m p h =
    let stop = absorb_stop s m (omega arith) in
    (
      ap (λ (r : Words × List ℕ). absorb r.0 (r.1 ++ p)) (sym stop),
      omega (arith, ap (λ (r : Words × List ℕ). length r.1) stop),
    )
absorb-append_fuel (suc n) s m p h = elim (Bool-cases (leb 64 (length m))) [
  | inl more ↦
      let le : 64 ≤ length m = ground (arith, more) in
      let (e, lt) =
        absorb-append_fuel n (compress s (take 64 m)) (drop 64 m) p
          (omega (arith, length-drop 64 m, le)) in
      let step = absorb_step s m le in
      (
        absorb_step s (m ++ p) (omega (arith, le, length-append m p))
            ∙ ap (λ b. absorb (compress s b) (drop 64 (m ++ p))) (take-append_left 64 m p le)
            ∙ ap (absorb (compress s (take 64 m))) (drop-append_left 64 m p le)
            ∙ e
            ∙ ap (λ (r : Words × List ℕ). absorb r.0 (r.1 ++ p)) (sym step),
        omega (arith, lt, ap (λ (r : Words × List ℕ). length r.1) step),
      )
  | inr few ↦
      let stop = absorb_stop s m (ground (arith, few)) in
      (
        ap (λ (r : Words × List ℕ). absorb r.0 (r.1 ++ p)) (sym stop),
        ground (arith, few, ap (λ (r : Words × List ℕ). length r.1) stop),
      )
]

-- A message in two parts: the second goes behind what is left of the first.
absorb-append :
    (s : Words) (m p : List ℕ) → absorb s (m ++ p) ≡ absorb (absorb s m).0 ((absorb s m).1 ++ p)
absorb-append s m p = (absorb-append_fuel (length m) s m p (omega arith)).0

length-absorb : (s : Words) (m : List ℕ) → length (absorb s m).1 < 64
length-absorb s m = (absorb-append_fuel (length m) s m [] (omega arith)).1

-- What `feed` does to the fields.
record Feeding (p : List ℕ) (s t : Sha256) : Type 0 where
  pub state : (t.words, t.buf) ≡ absorb s.words (s.buf ++ p)
  pub total : t.total ≡ s.total
  pub running : t.finished ≡ s.finished

take_blocks-Feeding : (p : List ℕ) (s : Sha256) → s.buf ≡ [] → Feeding p s (take_blocks p s)
unfolding take_blocks
take_blocks-Feeding p s e = record {
  state = ap (λ b. absorb s.words (b ++ p)) (sym e);
  total = refl;
  running = refl;
}

-- The bytes that do not fill the buffer go behind it.
fill-Feeding_short :
    (p : List ℕ) (s : Sha256) → length s.buf + length p < 64 → Feeding p s (fill (length p) p s)
unfolding fill
fill-Feeding_short p s h =
    subst (Feeding p s)
      (sym (
        if_yes {b = ltb (length (s.buf ++ take (length p) p)) 64} _ _
          (ground (arith, h, ap length all, length-append s.buf p))))
      (record {
        state =
            ap (λ b. (s.words, b)) all
            ∙ sym (absorb_stop s.words (s.buf ++ p) (omega (arith, h, length-append s.buf p)));
        total = refl;
        running = refl;
      })
  where
    all : s.buf ++ take (length p) p ≡ s.buf ++ p
    all = ap (s.buf ++◌) (take_all p (omega arith))

-- Otherwise the buffer with what it lacks is one block.
fill-Feeding_full :
    (p : List ℕ) (s : Sha256)
    → length s.buf < 64
    → 64 ≤ length s.buf + length p
    → Feeding p s (fill (64 - length s.buf) p s)
unfolding fill take_blocks
fill-Feeding_full p s lt h =
    let need = 64 - length s.buf in
    let long : 64 ≤ length (s.buf ++ p) = omega (arith, h, length-append s.buf p) in
    let size : length (s.buf ++ take need p) ≡ 64 =
      ground (arith, h, lt, length-append s.buf (take need p), length-take need p) in
    subst (Feeding p s)
      (sym (if_no {b = ltb (length (s.buf ++ take need p)) 64} _ _ (ground (arith, size))))
      (record {
        state =
            ap (λ b. absorb (compress s.words b) (drop need p))
              (sym (take-append_right 64 s.buf p (omega (arith, lt))))
            ∙ ap (absorb (compress s.words (take 64 (s.buf ++ p))))
                (sym (drop-append_right 64 s.buf p (omega (arith, lt))))
            ∙ sym (absorb_step s.words (s.buf ++ p) long);
        total = refl;
        running = refl;
      })

feed-Feeding : (p : List ℕ) (s : Sha256) → length s.buf < 64 → Feeding p s (feed p s)
unfolding feed
feed-Feeding p s lt = elim (Bool-cases (length s.buf == 0)) [
  | inl empty ↦
      subst (Feeding p s) (sym (if_yes _ _ empty))
        (take_blocks-Feeding p s (nil_of_length s.buf (ground (arith, empty))))
  | inr used ↦
      subst (Feeding p s) (sym (if_no _ _ used))
        (elim (Bool-cases (ltb (length p) (64 - length s.buf))) [
          | inl short ↦
              subst (λ n. Feeding p s (fill n p s)) (sym (if_yes _ _ short))
                (fill-Feeding_short p s (ground (arith, short)))
          | inr full ↦
              subst (λ n. Feeding p s (fill n p s)) (sym (if_no _ _ full))
                (fill-Feeding_full p s lt (ground (arith, full)))
        ])
]

-- The object has taken this message.
pub record Fed (m : List ℕ) (s : Sha256) : Type 0 where
  pub state : (s.words, s.buf) ≡ absorb initial m
  pub total : s.total ≡ length m % 2 ^ 64
  pub running : s.finished ≡ false

pub reset-Fed : Fed [] reset
unfolding whole_blocks
reset-Fed = record { state = refl; total = refl; running = refl }

length-buf_Fed : {m : List ℕ} {s : Sha256} → Fed m s → length s.buf < 64
length-buf_Fed {m} w =
    omega (arith, length-absorb initial m, ap (λ (r : Words × List ℕ). length r.1) w.state)

feed-state :
    (p m : List ℕ) (s : Sha256)
    → (s.words, s.buf) ≡ absorb initial m
    → length s.buf < 64
    → ((feed p s).words, (feed p s).buf) ≡ absorb initial (m ++ p)
feed-state p m s e lt =
    (feed-Feeding p s lt).state
    ∙ ap (λ (r : Words × List ℕ). absorb r.0 (r.1 ++ p)) e
    ∙ sym (absorb-append initial m p)

-- While the digest is not made, a part that is not empty is counted and fed.
update-feed :
    (p : List ℕ) (s : Sha256)
    → s.finished ≡ false
    → 0 < length p
    → update p s ≡ feed p (record s { total = (s.total + length p) % 2 ^ 64 })
unfolding update
update-feed p s run h =
    if_no {b = s.finished || (length p == 0)} _ _
      (ap (λ b. b || (length p == 0)) run ∙ ground (arith, h))

pub update-Fed : (p m : List ℕ) (s : Sha256) → Fed m s → Fed (m ++ p) (update p s)
unfolding update
update-Fed [] m s w =
    let e : (s.finished || true) ≡ true = ap (λ b. b || true) w.running in
    subst (Fed (m ++ [])) (sym (if_yes {b = s.finished || true} _ _ e))
      (subst (λ x. Fed x s) (sym (append-nil m)) w)
update-Fed (b ∷ p) m s w =
    let u : Sha256 = record s { total = (s.total + suc (length p)) % 2 ^ 64 } in
    let fed = feed-Feeding (b ∷ p) u (length-buf_Fed w) in
    subst (Fed (m ++ b ∷ p)) (sym (update-feed (b ∷ p) s w.running (omega arith))) (record {
      state = feed-state (b ∷ p) m u w.state (length-buf_Fed w);
      total = fed.total ∙ omega (arith, w.total, length-append m (b ∷ p));
      running = fed.running ∙ w.running;
    })

-- The parts in their order.
abbrev pub join : List (List ℕ) → List ℕ
join [] = []
join (x ∷ xs) = x ++ join xs

pub hash_file-Fed :
    (parts : List (List ℕ)) (m : List ℕ) (s : Sha256)
    → Fed m s
    → Fed (m ++ join parts) (hash_file parts s)
unfolding hash_file
hash_file-Fed [] m s w = subst (λ x. Fed x s) (sym (append-nil m)) w
hash_file-Fed (p ∷ parts) m s w =
    subst (λ x. Fed x (hash_file parts (update p s))) (append_assoc m p (join parts))
      (hash_file-Fed parts (m ++ p) _ (update-Fed p m s w))
