-- ===== src/Types/Classes/Common.antt =====
-- src/type/class.cc: `Class::common_root`.
use mathlib.Core.Option.{some-injective}
use tiger_compilor.Prelude.{
  ℕ, zero, suc, ◌<◌, ◌≤◌, ◌≡◌, refl, sym, ◌∙◌, subst, true, false, some, ◌==◌, ◌⊎◌, inl, inr,
  Bool-cases, arith, List,
}
use tiger_compilor.Types.Chains.{contains, Ends, Ends-next, Ends-le-size}
use tiger_compilor.Types.Classes.{Classes, super_get, enough, first_in, common_root}
use tiger_compilor.Types.Classes.Ancestors.{
  Extends, itself, through, next_super, IsBounded, next_super-lt, not_Extends-object, Extends-next,
}
use tiger_compilor.Types.Classes.Roots.{Rooted, at_object, above, Rooted-Ends, supers-Collects}

module _ (h : Classes) where
  -- The lowest class of the chain of `a` in a set, or `Object` if there is none.
  abbrev pub Lowest : (ℕ → Type 0) → ℕ → ℕ → Type 0
  Lowest In a r =
      ((r ≡ h.object) × ((c : ℕ) → In c → ¬ Extends h a c))
      ⊎ (In r × Extends h a r × ((c : ℕ) → In c → Extends h a c → Extends h r c))

  Lowest-next :
      (In : ℕ → Type 0) (a b r : ℕ)
      → (a == h.object) ≡ false
      → super_get h a ≡ some b
      → ¬ In a
      → Lowest In b r
      → Lowest In a r
  Lowest-next In a b r p e out low =
      let down : (c : ℕ) → In c → Extends h a c → Extends h b c = λ c i x.
        elim (Bool-cases (c == a)) [
          | inl q ↦ absurd (out (subst In {x = c} {y = a} (ground arith) i))
          | inr q ↦
              let (d, f, y) = Extends-next h q x in
              subst (λ z. Extends h z c) (some-injective d b (sym f ∙ e)) y
        ] in
      elim low [
        | inl (q, no_one) ↦ inl (q, λ c i x. no_one c i (down c i x))
        | inr (i, x, all) ↦ inr (i, through p e x, λ c j y. all c j (down c j y))
      ]

  first_in-Lowest :
      (her : List ℕ) (fuel n : ℕ) {a : ℕ}
      → Rooted h a
      → Ends (next_super h) a n
      → n < fuel
      → (r : ℕ) × (first_in fuel h her (some a) ≡ some r) × Lowest (λ c. contains her c ≡ true) a r
  unfolding first_in
  first_in-Lowest her zero n r s lt = absurd (omega arith)
  first_in-Lowest her (suc fuel) n (at_object {a} p) s lt =
      (h.object, rw (p, first_in) refl, inl (refl, λ c i. not_Extends-object h p))
  first_in-Lowest her (suc fuel) n (above {a} {b} p e r) s lt = elim (Bool-cases (contains her a)) [
    | inl q ↦ (a, rw (p, q, first_in) refl, inr (q, itself p, λ c i x. x))
    | inr q ↦
        let up : next_super h a ≡ some b = rw p e in
        let (k, same, rest) = Ends-next (next_super h) up s in
        let (t, f, low) = first_in-Lowest her fuel k r rest (omega arith) in
        (
          t,
          rw (p, q, e, first_in) f,
          Lowest-next (λ c. contains her c ≡ true) a b t p e (λ i. cc) low,
        )
  ]

  -- For two classes whose super classes lead to `Object`, `common_root` ends. It gives a super class
  -- of both which every super class of both is or is above, or `Object` if there is none below it;
  -- neither class counts as its own super class.
  pub common_root-Lowest :
      IsBounded h
      → (a other b c : ℕ) → super_get h a ≡ some b
      → super_get h other ≡ some c
      → Rooted h b
      → Rooted h c
      → (r : ℕ) × (common_root h a other ≡ some r) × Lowest (Extends h b) c r
  unfolding common_root
  common_root-Lowest bounded a other b c e f r s =
      let (m, p) = Rooted-Ends h r in
      let (n, q) = Rooted-Ends h s in
      let le : m ≤ h.size = Ends-le-size (next_super h) h.size (next_super-lt h bounded) p in
      let le' : n ≤ h.size = Ends-le-size (next_super h) h.size (next_super-lt h bounded) q in
      let (her, u, collects) = supers-Collects h (enough h) m r p (omega (arith, le)) in
      let (t, v, low) = first_in-Lowest her (enough h) n s q (omega (arith, le')) in
      (
        t,
        rw (e, f, u, common_root) v,
        (elim low [
          | inl (w, no_one) ↦ inl (w, λ d i. no_one d ((collects d).1 i))
          | inr (i, x, all) ↦ inr ((collects t).0 i, x, λ d j. all d ((collects d).1 j))
        ]),
      )
