-- ===== src/Io/Tar/Bounds.antt =====
-- The entries of an archive lie in it, one behind the other, and the loop of `readTar` ends.
use mari_paint.Prelude.{
  ℕ, zero, suc, ◌+◌, ◌-◌, ◌*◌, ◌/◌, ◌%◌, ◌^◌, ◌≤◌, ◌<◌, ◌≡◌, refl, sym, subst, true, false, ◌&&◌,
  ◌||◌, not, none, some, List, [], ◌∷◌, ◌++◌, arith, ltb, leb, ◌==◌, length, take, drop, Bool-cases,
  inl, inr, if_yes, if_no, if_both, elim_no, elim_both, elim_ext,
}
use mari_paint.Core.Errors.{Result, ok, err, parse_error}
use mari_paint.Io.Tar.{
  TarEntry, parse_octal, header_checksum, is_zero_block, padded, check_entry, read_entry, add_entry,
  read_loop, read_tar,
}

-- An entry whose header stands at this position.
pub record Placed (total pos : ℕ) (e : TarEntry) : Type 0 where
  pub offset : e.offset ≡ pos + 512
  pub inside : e.offset + padded e.size ≤ total

-- What holds of the value of a result.
abbrev pub OnOk {ℓ κ} : {A : Type ℓ} → (A → Type κ) → Result A → Type κ
OnOk P (ok a) = P a
OnOk P (err _) = Unit

check_entry-Placed :
    (total pos : ℕ) (h : List ℕ) (size : ℕ)
    → total < 2 ^ 64
    → OnOk (Placed total pos) (check_entry total pos h size)
unfolding check_entry
check_entry-Placed total pos h size b =
    elim (Bool-cases (ltb total size || ltb (total - size) (pos + 512))) [
      | inl e ↦
          subst (OnOk (Placed total pos))
            (sym (if_yes {b = ltb total size || ltb (total - size) (pos + 512)} _ _ e)) tt
      | inr e ↦
          subst (OnOk (Placed total pos))
            (sym (if_no {b = ltb total size || ltb (total - size) (pos + 512)} _ _ e))
            (elim (Bool-cases (
              ltb ((total + 2 ^ 64 - padded size) % 2 ^ 64) (pos + 512)
              && not (padded size == 0))) [
                | inl k ↦
                    subst (OnOk (Placed total pos))
                      (sym (
                        if_yes
                          {b = ltb ((total + 2 ^ 64 - padded size) % 2 ^ 64) (pos + 512)
                            && not (padded size == 0)}
                          _ _ k))
                      tt
                | inr k ↦
                    subst (OnOk (Placed total pos))
                      (sym (
                        if_no
                          {b = ltb ((total + 2 ^ 64 - padded size) % 2 ^ 64) (pos + 512)
                            && not (padded size == 0)}
                          _ _ k))
                      (record { offset = refl; inside = ground (arith, b, e, k) })
              ])
    ]

read_entry-Placed :
    (total pos : ℕ) (h : List ℕ) → total < 2 ^ 64 → OnOk (Placed total pos) (read_entry total pos h)
unfolding read_entry
read_entry-Placed total pos h b =
    elim (parse_octal (take 8 (drop 148 h)))
      as (λ o. OnOk (Placed total pos) (elim o [
        | none ↦ err parse_error
        | some stored ↦ elim (stored == header_checksum h) [
          | true ↦ elim (parse_octal (take 12 (drop 124 h))) [
            | none ↦ err parse_error
            | some size ↦ check_entry total pos h size
          ]
          | false ↦ err parse_error
        ]
      ])) [
        | none ↦ tt
        | some stored ↦
            elim_both (OnOk (Placed total pos)) (stored == header_checksum h)
              (λ _.
                elim (parse_octal (take 12 (drop 124 h)))
                  as (λ o. OnOk (Placed total pos) (elim o [
                    | none ↦ err parse_error
                    | some size ↦ check_entry total pos h size
                  ])) [ none ↦ tt | some size ↦ check_entry-Placed total pos h size b ])
              (λ _. tt)
      ]

-- Entries one behind the other, the first header at the first position and the next at the second.
abbrev pub Laid : ℕ → ℕ → List TarEntry → ℕ → Type 0
Laid total from [] to = from ≡ to
Laid total from (e ∷ es) to = Placed total from e × Laid total (e.offset + padded e.size) es to

Laid-append :
    (total from to : ℕ) (es : List TarEntry) (e : TarEntry)
    → Laid total from es to
    → Placed total to e
    → Laid total from (es ++ e ∷ []) (e.offset + padded e.size)
Laid-append total from to [] e l p = (subst (λ x. Placed total x e) (sym l) p, refl)
Laid-append total from to (d ∷ es) e l p =
    (l.0, Laid-append total (d.offset + padded d.size) to es e l.1 p)

-- What the loop gives.
pub record Archive (total : ℕ) (es : List TarEntry) : Type 0 where
  pub end : ℕ
  pub laid : Laid total 0 es end
  pub few : length es ≤ 4096

add_entry-Archive :
    (total pos : ℕ) (again : ℕ → List TarEntry → Result (List TarEntry)) (es : List TarEntry)
    (r : Result TarEntry)
    → ((to : ℕ) (out : List TarEntry)
        → Laid total 0 out to
        → length out ≤ 4096
        → OnOk (Archive total) (again to out))
    → Laid total 0 es pos
    → OnOk (Placed total pos) r
    → OnOk (Archive total) (add_entry again es r)
unfolding add_entry
add_entry-Archive total pos again es (err c) h l p = tt
add_entry-Archive total pos again es (ok e) h l p =
    elim_both (OnOk (Archive total)) (ltb 4096 (length (es ++ e ∷ []))) (λ _. tt)
      (λ k.
        h (e.offset + padded e.size) (es ++ e ∷ []) (Laid-append total 0 pos es e l p)
          (ground (arith, k)))

read_loop-Archive :
    (f : ℕ) (data' : List ℕ) (pos : ℕ) (es : List TarEntry)
    → length data' < 2 ^ 64
    → Laid (length data') 0 es pos
    → length es ≤ 4096
    → OnOk (Archive (length data')) (read_loop f data' pos es)
unfolding read_loop
read_loop-Archive zero data' pos es b l k = record { end = pos; laid = l; few = k }
read_loop-Archive (suc f) data' pos es b l k =
    let total = length data' in
    elim_both (OnOk (Archive total)) (leb (pos + 512) total)
      (λ _.
        elim_both (OnOk (Archive total)) (is_zero_block (drop pos data'))
          (λ _. record { end = pos; laid = l; few = k })
          (λ _.
            add_entry-Archive total pos (read_loop f data') es
              (read_entry total pos (drop pos data'))
              (λ to out m d. read_loop-Archive f data' to out b m d) l
              (read_entry-Placed total pos (drop pos data') b)))
      (λ _. record { end = pos; laid = l; few = k })

read_tar-OnOk :
    (data' : List ℕ) → length data' < 2 ^ 64 → OnOk (Archive (length data')) (read_tar data')
unfolding read_tar
read_tar-OnOk data' b = if_both (OnOk (Archive (length data'))) (length data' == 0) tt (
    if_both (OnOk (Archive (length data'))) (ltb (length data') 512) tt
      (read_loop-Archive (length data' / 512 + 1) data' 0 [] b refl (omega arith)))

-- Where an archive shorter than 2^64 bytes is read, its entries lie one behind the other: the
-- header of each stands where the padding of the one before ends, its data a block behind it, and
-- data and padding end in the archive. There are no more than 4096.
pub read_tar-Archive :
    (data' : List ℕ) (es : List TarEntry)
    → length data' < 2 ^ 64
    → read_tar data' ≡ ok es
    → Archive (length data') es
read_tar-Archive data' es b e = subst (OnOk (Archive (length data'))) e (read_tar-OnOk data' b)

-- Ways to go on that agree behind the end of the entry.
add_entry_agree :
    (total pos : ℕ) (again other : ℕ → List TarEntry → Result (List TarEntry)) (es : List TarEntry)
    (r : Result TarEntry)
    → ((to : ℕ) (out : List TarEntry) → pos + 512 ≤ to → again to out ≡ other to out)
    → OnOk (Placed total pos) r
    → add_entry again es r ≡ add_entry other es r
unfolding add_entry
add_entry_agree total pos again other es (err c) h p = refl
add_entry_agree total pos again other es (ok e) h p =
    elim_ext (ltb 4096 (length (es ++ e ∷ []))) (λ _. refl)
      (λ _. h (e.offset + padded e.size) (es ++ e ∷ []) (omega (arith, p.offset)))

-- The loop of readTar ends, since each round takes a block at least: in an archive shorter than
-- 2^64 bytes, any two amounts of fuel that cover the blocks behind the position give the same
-- result.
pub read_loop_fuel :
    (n k : ℕ) (data' : List ℕ) (pos : ℕ) (es : List TarEntry)
    → length data' < 2 ^ 64
    → length data' < pos + 512 * n + 512
    → length data' < pos + 512 * k + 512
    → read_loop n data' pos es ≡ read_loop k data' pos es
unfolding read_loop
read_loop_fuel zero zero data' pos es b h l = refl
read_loop_fuel zero (suc k) data' pos es b h l =
    sym (elim_no (leb (pos + 512) (length data')) _ _ (ground (arith, h)))
read_loop_fuel (suc n) zero data' pos es b h l =
    elim_no (leb (pos + 512) (length data')) _ _ (ground (arith, l))
read_loop_fuel (suc n) (suc k) data' pos es b h l =
    elim_ext (leb (pos + 512) (length data'))
      (λ _.
        elim_ext (is_zero_block (drop pos data')) (λ _. refl)
          (λ _.
            add_entry_agree (length data') pos (read_loop n data') (read_loop k data') es
              (read_entry (length data') pos (drop pos data'))
              (λ to out m.
                read_loop_fuel n k data' to out b (omega (arith, h, m)) (omega (arith, l, m)))
              (read_entry-Placed (length data') pos (drop pos data') b)))
      (λ _. refl)
