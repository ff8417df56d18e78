-- ===== src/Record/Factory/Journals.antt =====
-- The journals that a factory opens, over all its life.
use mari_paint.Prelude.{
  ℕ, ◌+◌, ◌%◌, ◌^◌, ◌≤◌, ◌<◌, ◌≡◌, ◌≢◌, refl, sym, ◌∙◌, suc, true, false, List, [], ◌∷◌, ◌++◌,
  arith, length, if_both,
}
use mari_paint.Core.Errors.{Result, ok, err}
use mari_paint.Record.Tally.{RecordingTally}
use mari_paint.Record.Factory.{
  Factory, new_factory, journal_name, opened_or_not, open_for_document, is_live, retire,
}
use mari_paint.Record.Factory.Names.{journal_name-distinct}
use mari_paint.Record.Factory.Totals.{FactoryStep, opened, retired, factory_step, factory_run}

-- No path is on the list twice.
abbrev pub NoneIs : List ℕ → List (List ℕ) → Type 0
NoneIs p [] = Unit
NoneIs p (q ∷ qs) = (q ≢ p) × NoneIs p qs

abbrev pub Distinct : List (List ℕ) → Type 0
Distinct [] = Unit
Distinct (p ∷ ps) = NoneIs p ps × Distinct ps

module _ (join : List ℕ → List ℕ) where
  -- A path for a segment below `n`.
  abbrev NamedBelow : ℕ → List ℕ → Type 0
  NamedBelow n p =
      (name : List ℕ) × (segment : ℕ) × (segment < n) × (p ≡ join (journal_name name segment))

  abbrev AllBelow : ℕ → List (List ℕ) → Type 0
  AllBelow n [] = Unit
  AllBelow n (p ∷ ps) = NamedBelow n p × AllBelow n ps

  record Sound (k : ℕ) (f : Factory) : Type 0 where
    room : f.next_segment + k < 2 ^ 64
    named : AllBelow f.next_segment f.journals
    distinct : Distinct f.journals

  AllBelow-le : (m n : ℕ) (ps : List (List ℕ)) → m ≤ n → AllBelow m ps → AllBelow n ps
  AllBelow-le m n [] le h = tt
  AllBelow-le m n (p ∷ ps) le ((name, segment, lt, e), h) =
      ((name, segment, omega arith, e), AllBelow-le m n ps le h)

  AllBelow-append :
      (n : ℕ) (p : List ℕ) (ps : List (List ℕ))
      → AllBelow n ps
      → NamedBelow n p
      → AllBelow n (ps ++ p ∷ [])
  AllBelow-append n p [] h b = (b, tt)
  AllBelow-append n p (q ∷ ps) (a, h) b = (a, AllBelow-append n p ps h b)

  NoneIs-append :
      (p q : List ℕ) (ps : List (List ℕ)) → NoneIs p ps → q ≢ p → NoneIs p (ps ++ q ∷ [])
  NoneIs-append p q [] h ne = (ne, tt)
  NoneIs-append p q (r ∷ ps) (a, h) ne = (a, NoneIs-append p q ps h ne)

  Distinct-append :
      (p : List ℕ) (ps : List (List ℕ)) → Distinct ps → NoneIs p ps → Distinct (ps ++ p ∷ [])
  Distinct-append p [] d h = (tt, tt)
  Distinct-append p (q ∷ ps) (a, d) (ne, h) =
      (NoneIs-append q p ps a (λ e. ne (sym e)), Distinct-append p ps d h)

  -- The join of paths keeps names apart.
  abbrev pub Injective : Type 0
  Injective = (a b : List ℕ) → join a ≡ join b → a ≡ b

  NoneIs-new :
      (name : List ℕ) (n : ℕ) (ps : List (List ℕ))
      → Injective
      → n < 2 ^ 64
      → AllBelow n ps
      → NoneIs (join (journal_name name n)) ps
  NoneIs-new name n [] inj lt h = tt
  NoneIs-new name n (p ∷ ps) inj lt ((other, segment, below, e), h) = (
    λ same.
        journal_name-distinct other name segment n (omega arith) lt (λ q. omega arith)
          (inj _ _ (sym e ∙ same)),
    NoneIs-new name n ps inj lt h,
  )

  Sound-answer :
      (k : ℕ) (a : Result ℕ) (name : List ℕ) (f : Factory)
      → Injective
      → Sound (suc k) f
      → Sound k
          (opened_or_not a
            (join (journal_name name f.next_segment))
            (record f { next_segment = (f.next_segment + 1) % 2 ^ 64 })).1
  unfolding opened_or_not
  Sound-answer k (err e) name f inj s = record {
    room = omega (arith, s.room);
    named = AllBelow-le f.next_segment _ f.journals (omega (arith, s.room)) s.named;
    distinct = s.distinct;
  }
  Sound-answer k (ok h) name f inj s = record {
    room = omega (arith, s.room);
    named =
        AllBelow-append _ _ f.journals
          (AllBelow-le f.next_segment _ f.journals (omega (arith, s.room)) s.named)
          (name, f.next_segment, omega (arith, s.room), refl);
    distinct =
        Distinct-append _ f.journals s.distinct
          (NoneIs-new name f.next_segment f.journals inj (omega (arith, s.room)) s.named);
  }

  Sound-less : (k : ℕ) (f : Factory) → Sound (suc k) f → Sound k f
  Sound-less k f s = record { room = omega (arith, s.room); named = s.named; distinct = s.distinct }

  Sound-retire :
      (k : ℕ) (tally : ℕ → RecordingTally) (r : ℕ) (f : Factory)
      → Sound k f
      → Sound k (retire tally r f)
  unfolding retire
  Sound-retire k tally r f s =
      if_both (Sound k) (is_live r f.live)
        (record { room = s.room; named = s.named; distinct = s.distinct }) s

  Sound-step :
      (k : ℕ) (s : FactoryStep) (f : Factory)
      → Injective
      → Sound (suc k) f
      → Sound k (factory_step join s f)
  unfolding factory_step open_for_document
  Sound-step k (opened true name open_at) f inj s = Sound-answer k _ name f inj s
  Sound-step k (opened false name open_at) f inj s = Sound-less k f s
  Sound-step k (retired tally r) f inj s = Sound-retire k tally r f (Sound-less k f s)

  Sound-run :
      (ss : List FactoryStep) (f : Factory)
      → Injective
      → Sound (length ss) f
      → Sound 0 (factory_run join ss f)
  unfolding factory_run
  Sound-run [] f inj s = s
  Sound-run (t ∷ ss) f inj s = Sound-run ss _ inj (Sound-step (length ss) t f inj s)

  -- When the join of a directory and a name keeps names apart, a factory that lives through fewer
  -- than 2^64 - 1 openings and closings, whatever the hints of the documents are and whether
  -- recorders open or not, never opens two journals at one path.
  pub journals-Distinct :
      (ss : List FactoryStep)
      → Injective
      → length ss + 1 < 2 ^ 64
      → Distinct (factory_run join ss new_factory).journals
  journals-Distinct ss inj lt =
      (Sound-run ss new_factory inj
        (record { room = omega arith; named = tt; distinct = tt })).distinct
