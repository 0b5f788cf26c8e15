-- ===== src/Types/Named/Sound.antt =====
-- src/type/named.cc: `Named::sound` and the chains of names.
use tiger_compilor.Prelude.{
  ℕ, zero, suc, ◌+◌, ◌<◌, ◌≡◌, refl, Bool, true, false, Option, some, List, [], ◌∷◌, ◌==◌, arith,
  length, Bool-cases, Option-cases, ◌⊎◌, inl, inr, subst,
}
use tiger_compilor.Types.Heap.{Heap, IsBounded}
use tiger_compilor.Types.Chains.{
  contains, Distinct, Below, pigeonhole, Ends, stop, link, Leads, one, Leads-snoc, not_Ends-cycle,
  Ends-next,
}
use tiger_compilor.Types.Named.{next_named, sound_loop, sound}

-- The two answers of the loop.
abbrev pub IsAnswer : Heap → Option Bool → ℕ → Type 0
IsAnswer h o t =
    ((o ≡ some true) × ((n : ℕ) × Ends (next_named h) t n))
    ⊎ ((o ≡ some false) × ((n : ℕ) → ¬ Ends (next_named h) t n))

module _ (h : Heap) (bounded : IsBounded h) where
  next_named-lt : (a b : ℕ) → next_named h a ≡ some b → a < h.size
  unfolding next_named
  next_named-lt a b e = ground (arith, bounded a)

  AllLead : List ℕ → ℕ → Type 0
  AllLead [] t = Unit
  AllLead (v ∷ vs) t = Leads (next_named h) v t × AllLead vs t

  AllLead-next : (vs : List ℕ) (t u : ℕ) → AllLead vs t → next_named h t ≡ some u → AllLead vs u
  unfolding AllLead
  AllLead-next [] t u l e = tt
  AllLead-next (v ∷ vs) t u l e = (Leads-snoc _ l.0 e, AllLead-next vs t u l.1 e)

  Leads-visited :
      (vs : List ℕ) (t : ℕ) → AllLead vs t → contains vs t ≡ true → Leads (next_named h) t t
  unfolding AllLead contains
  Leads-visited [] t l e = cc
  Leads-visited (v ∷ vs) t l e = elim (Bool-cases (v == t)) [
    | inl p ↦ subst (λ b. Leads (next_named h) b t) (ground arith) l.0
    | inr p ↦ Leads-visited vs t l.1 (ground arith)
  ]

  IsAnswer-link :
      (o : Option Bool) (t u : ℕ) → next_named h t ≡ some u → IsAnswer h o u → IsAnswer h o t
  IsAnswer-link o t u e (inl (p, (n, r))) = inl (p, (suc n, link e r))
  IsAnswer-link o t u e (inr (p, no_end)) =
      inr (p, λ n r. let (k, _, q) = Ends-next _ e r in no_end k q)

  sound_loop-IsAnswer :
      (fuel : ℕ) (visited : List ℕ) (t : ℕ)
      → h.size < fuel + length visited
      → Distinct visited
      → Below h.size visited
      → AllLead visited t
      → IsAnswer h (sound_loop fuel h visited t) t
  unfolding sound_loop AllLead
  sound_loop-IsAnswer zero visited t f d b l = absurd (omega (arith, pigeonhole h.size visited d b))
  sound_loop-IsAnswer (suc fuel) visited t f d b l = elim (Bool-cases (contains visited t)) [
    | inl e ↦ rw (e, sound_loop) (inr (refl, λ n. not_Ends-cycle _ (Leads-visited visited t l e)))
    | inr e ↦ elim (Option-cases (next_named h t)) [
      | inl stops ↦ rw (e, stops, sound_loop) (inl (refl, (0, stop stops)))
      | inr (u, goes) ↦
          rw (e, goes, sound_loop)
            (IsAnswer-link _ t u goes (
              sound_loop-IsAnswer fuel (t ∷ visited) u (omega arith) (e, d)
                (next_named-lt t u goes, b) (one goes, AllLead-next visited t u l goes)))
    ]
  ]

  -- `sound` ends; it answers true where the chain of names from `a` ends, and false where it does
  -- not.
  pub sound-IsAnswer : (a : ℕ) → IsAnswer h (sound h a) a
  unfolding sound AllLead
  sound-IsAnswer a = sound_loop-IsAnswer (suc h.size) [] a (omega arith) tt tt tt
