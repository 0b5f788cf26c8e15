-- ===== src/Types/Classes/Roots.antt =====
-- src/type/class.cc: `Class::sound` and `Class::common_root`.
use mathlib.Core.Option.{some-injective}
use tiger_compilor.Prelude.{
  ℕ, zero, suc, ◌<◌, ◌≡◌, ◌≢◌, refl, sym, ◌∙◌, subst, true, false, Option, none, some, ◌==◌, inl,
  inr, Bool-cases, Option-cases, arith, List, [], ◌∷◌, ◌↔◌,
}
use tiger_compilor.Types.Chains.{contains, Ends, stop, link, Ends-next, Ends-le-size}
use tiger_compilor.Types.Classes.{Classes, super_get, enough, sound_loop, sound, supers}
use tiger_compilor.Types.Classes.Ancestors.{
  Extends, itself, through, next_super, IsBounded, next_super-lt, not_Extends-object, Extends-next,
}

-- The super classes from `a` lead to `Object`.
pub data Rooted (h : Classes) : ℕ → Type 0 where
  at_object : {a : ℕ} → (a == h.object) ≡ true → Rooted h a
  above : {a b : ℕ} → (a == h.object) ≡ false → super_get h a ≡ some b → Rooted h b → Rooted h a

module _ (h : Classes) where
  pub Rooted-Ends : {a : ℕ} → Rooted h a → (n : ℕ) × Ends (next_super h) a n
  Rooted-Ends (at_object p) = (0, stop (rw p refl))
  Rooted-Ends (above p e r) = let (n, q) = Rooted-Ends r in (suc n, link (rw p e) q)

  sound_loop-null : (fuel : ℕ) → sound_loop fuel h none ≡ none
  unfolding sound_loop
  sound_loop-null zero = refl
  sound_loop-null (suc fuel) = refl

  sound_loop-Rooted : (fuel a : ℕ) → sound_loop fuel h (some a) ≡ some true → Rooted h a
  unfolding sound_loop
  sound_loop-Rooted zero a e = cc
  sound_loop-Rooted (suc fuel) a e = elim (Bool-cases (a == h.object)) [
    | inl p ↦ at_object p
    | inr p ↦ elim (Option-cases (super_get h a)) [
      | inl q ↦ cc (rw (p, q, sound_loop) at e, sound_loop-null fuel)
      | inr (b, q) ↦ above p q (sound_loop-Rooted fuel b (rw (p, q, sound_loop) at e))
    ]
  ]

  Rooted-sound_loop :
      (fuel n : ℕ) {a : ℕ}
      → Rooted h a
      → Ends (next_super h) a n
      → n < fuel
      → sound_loop fuel h (some a) ≡ some true
  unfolding sound_loop
  Rooted-sound_loop zero n r s lt = absurd (omega arith)
  Rooted-sound_loop (suc fuel) n (at_object p) s lt = rw (p, sound_loop) refl
  Rooted-sound_loop (suc fuel) n (above {a} {b} p e r) s lt =
      let up : next_super h a ≡ some b = rw p e in
      let (k, same, rest) = Ends-next (next_super h) up s in
      rw (p, e, sound_loop) (Rooted-sound_loop fuel k r rest (omega arith))

  sound_loop-not_false : (fuel : ℕ) (o : Option ℕ) → sound_loop fuel h o ≢ some false
  unfolding sound_loop
  sound_loop-not_false zero o e = cc
  sound_loop-not_false (suc fuel) none e = cc
  sound_loop-not_false (suc fuel) (some a) e = elim (Bool-cases (a == h.object)) [
    | inl p ↦ cc (rw (p, sound_loop) at e)
    | inr p ↦ sound_loop-not_false fuel (super_get h a) (rw (p, sound_loop) at e)
  ]

  -- The super classes of a class lead to `Object`.
  abbrev pub RootedAbove : ℕ → Type 0
  RootedAbove a = (b : ℕ) × (super_get h a ≡ some b) × Rooted h b

  -- `sound` answers true exactly if the super classes of the class lead to `Object`, and never
  -- answers false: on a recursive inheritance it does not end.
  pub sound_iff :
      IsBounded h → (a : ℕ) → ((sound h a ≡ some true) ↔ RootedAbove a) × (sound h a ≢ some false)
  unfolding sound
  sound_iff bounded a = (
    (
      λ e. elim (Option-cases (super_get h a)) [
        | inl p ↦ cc (rw (p, sound) at e, sound_loop-null (enough h))
        | inr (b, p) ↦ (b, p, sound_loop-Rooted (enough h) b (rw (p, sound) at e))
      ],
      λ r.
          let (b, p, q) = r in
          let (n, s) = Rooted-Ends q in
          rw (p, sound)
            (Rooted-sound_loop (enough h) n q s
              (omega (arith, Ends-le-size (next_super h) h.size (next_super-lt h bounded) s))),
    ),
    sound_loop-not_false (enough h) (super_get h a),
  )

  -- The classes that the first loop collects.
  abbrev pub Collects : ℕ → List ℕ → Type 0
  Collects a her = (c : ℕ) → (contains her c ≡ true) ↔ Extends h a c

  pub supers-Collects :
      (fuel n : ℕ) {a : ℕ}
      → Rooted h a
      → Ends (next_super h) a n
      → n < fuel
      → (her : List ℕ) × (supers fuel h (some a) ≡ some her) × Collects a her
  unfolding supers contains
  supers-Collects zero n r s lt = absurd (omega arith)
  supers-Collects (suc fuel) n (at_object {a} p) s lt =
      ([], rw (p, supers) refl, λ c. (λ e. cc, λ x. absurd (not_Extends-object h p x)))
  supers-Collects (suc fuel) n (above {a} {b} p e r) s lt =
      let up : next_super h a ≡ some b = rw p e in
      let (k, same, rest) = Ends-next (next_super h) up s in
      let (her, f, collects) = supers-Collects fuel k r rest (omega arith) in
      (
        a ∷ her,
        rw (p, e, f, supers) refl,
        λ c. (
          λ g. elim (Bool-cases (a == c)) [
            | inl q ↦ subst (Extends h a) {x = a} {y = c} (ground arith) (itself p)
            | inr q ↦ through p e ((collects c).0 (ground arith))
          ],
          λ x. elim (Bool-cases (a == c)) [
            | inl q ↦ ground arith
            | inr q ↦
                let (d, g, y) = Extends-next h (ground arith) x in
                let there =
                  (collects c).1 (subst (λ z. Extends h z c) (some-injective d b (sym g ∙ e)) y) in
                ground (arith, there)
          ],
        ),
      )
