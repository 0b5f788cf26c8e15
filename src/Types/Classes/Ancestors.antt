-- ===== src/Types/Classes/Ancestors.antt =====
-- src/type/class.cc: `Class::im_parent` and the super classes.
use mathlib.Core.Option.{some-injective}
use tiger_compilor.Prelude.{
  ℕ, zero, suc, ◌+◌, ◌<◌, ◌≤◌, ◌≡◌, refl, sym, ◌∙◌, subst, Bool, true, false, Option, none, some,
  ◌==◌, if◌then◌else◌, ◌⊎◌, inl, inr, Bool-cases, Option-cases, arith,
}
use tiger_compilor.Types.Chains.{Ends, Ends-next, Ends-le-size}
use tiger_compilor.Types.Classes.{Classes, super_get, enough, im_parent_loop, im_parent}

-- The class `c` is `a` or a super class of it, below `Object`.
pub data Extends (h : Classes) : ℕ → ℕ → Type 0 where
  itself : {a : ℕ} → (a == h.object) ≡ false → Extends h a a
  through :
      {a b c : ℕ} → (a == h.object) ≡ false → super_get h a ≡ some b → Extends h b c → Extends h a c

-- The chain of super classes stops at `Object`, or at a null pointer.
abbrev pub next_super : Classes → ℕ → Option ℕ
next_super h a = if a == h.object then none else super_get h a

-- The objects of the heap are below its size.
abbrev pub IsBounded : Classes → Type 0
IsBounded h = (a : ℕ) → h.size ≤ a → h.deref a ≡ none

pub next_super-lt : (h : Classes) → IsBounded h → (a b : ℕ) → next_super h a ≡ some b → a < h.size
next_super-lt h bounded a b e = ground (arith, bounded a)

-- a super class of a class that is another one is a super class of its own
pub Extends-next :
    (h : Classes) {a c : ℕ}
    → (c == a) ≡ false
    → Extends h a c
    → (b : ℕ) × (super_get h a ≡ some b) × Extends h b c
Extends-next h n (itself p) = absurd (ground arith)
Extends-next h n (through {b} p q r) = (b, q, r)

pub not_Extends-object : (h : Classes) {a c : ℕ} → (a == h.object) ≡ true → ¬ Extends h a c
not_Extends-object h e (itself p) = cc
not_Extends-object h e (through p q r) = cc

module _ (h : Classes) (me : ℕ) where
  im_parent_loop-null : (fuel : ℕ) → 0 < fuel → im_parent_loop fuel h me none ≡ some false
  unfolding im_parent_loop
  im_parent_loop-null zero lt = absurd (omega arith)
  im_parent_loop-null (suc fuel) lt = refl

  -- The two answers for a class.
  abbrev pub Decides : Option Bool → ℕ → Type 0
  Decides o a = ((o ≡ some true) × Extends h a me) ⊎ ((o ≡ some false) × ¬ Extends h a me)

  Decides-next :
      (o : Option Bool) (a b : ℕ)
      → (a == h.object) ≡ false
      → (me == a) ≡ false
      → super_get h a ≡ some b
      → Decides o b
      → Decides o a
  Decides-next o a b p n e (inl (q, x)) = inl (q, through p e x)
  Decides-next o a b p n e (inr (q, no_one)) = inr (
    q,
    λ x.
        let (c, f, y) = Extends-next h n x in
        no_one (subst (λ z. Extends h z me) (some-injective c b (sym f ∙ e)) y),
  )

  im_parent_loop-Decides :
      (fuel n a : ℕ)
      → Ends (next_super h) a n
      → n + 1 < fuel
      → Decides (im_parent_loop fuel h me (some a)) a
  unfolding im_parent_loop
  im_parent_loop-Decides zero n a r lt = absurd (omega arith)
  im_parent_loop-Decides (suc fuel) n a r lt = elim (Bool-cases (a == h.object)) [
    | inl p ↦ rw (p, im_parent_loop) (inr (refl, not_Extends-object h p))
    | inr p ↦ elim (Bool-cases (me == a)) [
      | inl q ↦
          rw (p, q, im_parent_loop)
            (inl (refl, subst (Extends h a) {x = a} {y = me} (ground arith) (itself p)))
      | inr q ↦ elim (Option-cases (super_get h a)) [
        | inl e ↦
            rw (p, q, e, im_parent_loop)
              (inr (
                im_parent_loop-null fuel (omega arith),
                λ x. let (c, f, _) = Extends-next h q x in cc,
              ))
        | inr (b, e) ↦
            let up : next_super h a ≡ some b = rw p e in
            let (k, same, rest) = Ends-next (next_super h) up r in
            rw (p, q, e, im_parent_loop)
              (Decides-next _ a b p q e (im_parent_loop-Decides fuel k b rest (omega arith)))
      ]
    ]
  ]

  -- If the chain of the super classes of a class ends, `im_parent` ends, with true if the first
  -- class is that class or a super class of it below `Object`, and with false otherwise.
  pub im_parent-Decides :
      IsBounded h → (n a : ℕ) → Ends (next_super h) a n → Decides (im_parent h me a) a
  unfolding im_parent
  im_parent-Decides bounded n a r =
      im_parent_loop-Decides (enough h) n a r
        (omega (arith, Ends-le-size (next_super h) h.size (next_super-lt h bounded) r))
