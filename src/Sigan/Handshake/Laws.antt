-- ===== src/Sigan/Handshake/Laws.antt =====
-- What both sides agree on.
use mari_paint.Prelude.{ℕ, ◌≡◌, refl, ap, min, true, not, ◌&&◌, List, [], ◌∷◌, arith, ◌==◌}
use mari_paint.Sigan.Wire.{same_bytes}
use mari_paint.Sigan.Handshake.{Handshake, has_cap, shared_caps, dropped_caps, negotiate}

same_bytes-eq : (a b : List ℕ) → same_bytes a b ≡ true → a ≡ b
unfolding same_bytes
same_bytes-eq [] [] h = refl
same_bytes-eq [] (b ∷ bs) h = ground arith
same_bytes-eq (a ∷ as') [] h = ground arith
same_bytes-eq (a ∷ as') (b ∷ bs) h = ground (arith, same_bytes-eq as' bs)

same_bytes_refl : (a : List ℕ) → same_bytes a a ≡ true
unfolding same_bytes
same_bytes_refl [] = refl
same_bytes_refl (a ∷ as') = ground (arith, same_bytes_refl as')

has_cap-shared_caps :
    (remote caps : List (List ℕ)) (c : List ℕ)
    → has_cap (shared_caps remote caps) c ≡ has_cap caps c && has_cap remote c
unfolding has_cap shared_caps
has_cap-shared_caps remote [] c = refl
has_cap-shared_caps remote (d ∷ caps) c = ground (
  arith,
  has_cap-shared_caps remote caps c,
  same_bytes-eq d c,
  λ (e : d ≡ c). ap (has_cap remote) e,
)

has_cap-dropped_caps :
    (remote caps : List (List ℕ)) (c : List ℕ)
    → has_cap (dropped_caps remote caps) c ≡ has_cap caps c && not (has_cap remote c)
unfolding has_cap dropped_caps
has_cap-dropped_caps remote [] c = refl
has_cap-dropped_caps remote (d ∷ caps) c = ground (
  arith,
  has_cap-dropped_caps remote caps c,
  same_bytes-eq d c,
  λ (e : d ≡ c). ap (has_cap remote) e,
)

-- A capability is agreed on exactly when both sides have it, and it is reported as dropped exactly
-- when we have it and the other side has not; the protocol is the smaller one, and the flag says
-- whether the two differ.
pub negotiate_lem :
    (l r : Handshake) (c : List ℕ)
    → (has_cap (negotiate l r).caps c ≡ has_cap l.caps c && has_cap r.caps c)
      × (has_cap (negotiate l r).dropped c ≡ has_cap l.caps c && not (has_cap r.caps c))
      × ((negotiate l r).proto ≡ min l.proto r.proto)
      × ((negotiate l r).proto_downgraded ≡ not (l.proto == r.proto))
unfolding negotiate
negotiate_lem l r c =
    (has_cap-shared_caps r.caps l.caps c, has_cap-dropped_caps r.caps l.caps c, refl, refl)
