-- ===== src/Types/Compatible/Laws.antt =====
-- src/type: `compatible_with`, beside a description by the ends of names.
use tiger_compilor.Prelude.{
  ℕ, zero, suc, ◌<◌, ◌≡◌, refl, Bool, true, false, not, ◌||◌, ◌&&◌, Option, none, some, arith, ◌==◌,
  Bool-cases, inl, inr, ap, sym, ◌∙◌,
}
use tiger_compilor.Types.Heap.{
  TigerType, int, string, void, nil, named, record_type, array, function, Heap, IsBounded,
}
use tiger_compilor.Types.Chains.{Ends, Ends-le-size, Ends-next}
use tiger_compilor.Types.Named.Actual.{
  Resolves, proper, through, IsProper, Resolves-Ends, target-through, next_type, next_type-lt,
  actual_iff,
}
use tiger_compilor.Types.Compatible.{
  is_nil, is_record, same_type, is_actual, nil_compatible, record_compatible, compatible_of,
  compatible_fuel, compatible_with,
}

compatible_of-proper :
    (again : ℕ → Option Bool) (h : Heap) (a : ℕ) (t : TigerType) (b : ℕ)
    → IsProper t
    → compatible_of again h a (some t) b ≡ compatible_of (λ u. none) h a (some t) b
unfolding compatible_of
compatible_of-proper again h a (named x t) b p = absurd p
compatible_of-proper again h a _ b p = refl

-- `compatible_with` looks through the names on its left.
compatible_fuel-Resolves :
    {h : Heap} {a c : ℕ} (fuel n b : ℕ)
    → Resolves h a c
    → Ends (next_type h) a n
    → n < fuel
    → compatible_fuel fuel h a b ≡ compatible_of (λ t. none) h c (h.deref c) b
unfolding compatible_fuel
compatible_fuel-Resolves {h} zero n b r e lt = absurd (omega arith)
compatible_fuel-Resolves {h} (suc fuel) n b (proper t e p) s lt =
    rw e (compatible_of-proper _ h _ t b p)
compatible_fuel-Resolves {h} (suc fuel) n b (through e r) s lt =
    let (k, p, q) = Ends-next (next_type h) (target-through h e) s in
    rw e (unfold compatible_of in compatible_fuel-Resolves fuel k b r q (omega arith))

-- Two types that are no names are compatible if they are one object, but not `Nil`, or if one is
-- `Nil` and the other a record.
abbrev pub are_compatible : Heap → ℕ → ℕ → Bool
are_compatible h a b =
    (a == b && not (is_nil (h.deref a)))
    || (is_nil (h.deref a) && is_record (h.deref b))
    || (is_record (h.deref a) && is_nil (h.deref b))

abbrev pub is_function : Option TigerType → Bool
is_function (some (function f r)) = true
is_function _ = false

-- Types that are compared: each has an end, and a name never stands for `Nil`.
pub record Compares (h : Heap) (a a' : ℕ) : Type 0 where
  pub resolves : Resolves h a a'
  pub no_function : is_function (h.deref a') ≡ false
  pub no_named_nil : is_nil (h.deref a') ≡ true → a ≡ a'

module _ (h : Heap) (bounded : IsBounded h) where
  pub Resolves-proper :
      {a c : ℕ} → Resolves h a c → (t : TigerType) × (h.deref c ≡ some t) × IsProper t
  Resolves-proper (proper t e p) = (t, e, p)
  Resolves-proper (through e r) = Resolves-proper r

  Resolves-nil : {b c : ℕ} → Resolves h b c → is_nil (h.deref b) ≡ true → b ≡ c
  Resolves-nil (proper t e p) n = refl
  Resolves-nil (through e r) n = cc (rw e at n)

  compatible_of-Resolves :
      {b b' : ℕ} (a : ℕ) (t : TigerType)
      → h.deref a ≡ some t
      → IsProper t
      → is_function (some t) ≡ false
      → Resolves h b b'
      → (is_nil (h.deref b') ≡ true → b ≡ b')
      → compatible_of (λ t. none) h a (h.deref a) b ≡ some (are_compatible h a b')
  unfolding compatible_of same_type is_actual nil_compatible record_compatible
  compatible_of-Resolves {b} {b'} a int e p f r k =
      let q = (actual_iff h bounded b b').1 r in
      let q' = (actual_iff h bounded a a).1 (proper int e tt) in rw (e, q, q') (ground arith)
  compatible_of-Resolves {b} {b'} a string e p f r k =
      let q = (actual_iff h bounded b b').1 r in
      let q' = (actual_iff h bounded a a).1 (proper string e tt) in rw (e, q, q') (ground arith)
  compatible_of-Resolves {b} {b'} a void e p f r k =
      let q = (actual_iff h bounded b b').1 r in
      let q' = (actual_iff h bounded a a).1 (proper void e tt) in rw (e, q, q') (ground arith)
  compatible_of-Resolves {b} {b'} a (nil x) e p f r k =
      let q = (actual_iff h bounded b b').1 r in rw (e, q) (ground arith)
  compatible_of-Resolves {b} {b'} a (named x u) e p f r k = absurd p
  compatible_of-Resolves {b} {b'} a (record_type fs) e p f r k =
      let q = (actual_iff h bounded b b').1 r in
      elim (Bool-cases (is_nil (h.deref b))) [
        | inl n ↦ rw e (ground (arith, n, Resolves-nil r n, ap h.deref (Resolves-nil r n)))
        | inr n ↦ rw e (ground (arith, n, q, k))
      ]
  compatible_of-Resolves {b} {b'} a (array u) e p f r k =
      let q = (actual_iff h bounded b b').1 r in rw (e, q) (ground arith)
  compatible_of-Resolves {b} {b'} a (function g u) e p f r k = cc

  -- Two types that are no functions are compatible exactly if their ends are one object, but not
  -- `Nil`, or if one end is `Nil` and the other a record; `compatible_with` then ends.
  pub compatible_with-Compares :
      (a b a' b' : ℕ)
      → Compares h a a'
      → Compares h b b'
      → compatible_with h a b ≡ some (are_compatible h a' b')
  unfolding compatible_with
  compatible_with-Compares a b a' b' p q =
      let (n, e) = Resolves-Ends p.resolves in
      let (t, at, is_proper) = Resolves-proper p.resolves in
      compatible_fuel-Resolves (suc h.size) n b p.resolves e
        (omega (arith, Ends-le-size (next_type h) h.size (next_type-lt h bounded) e))
      ∙ compatible_of-Resolves a' t at is_proper (rw at at p.no_function) q.resolves q.no_named_nil

  are_compatible_comm : (a b : ℕ) → are_compatible h a b ≡ are_compatible h b a
  are_compatible_comm a b = ground (
    arith,
    ap h.deref {x = a} {y = b},
    Bool-cases (is_nil (h.deref a)),
    Bool-cases (is_nil (h.deref b)),
    Bool-cases (is_record (h.deref a)),
    Bool-cases (is_record (h.deref b)),
  )

  -- So it does not matter which of the two is asked.
  compatible_with_comm :
      (a b a' b' : ℕ)
      → Compares h a a'
      → Compares h b b'
      → compatible_with h a b ≡ compatible_with h b a
  compatible_with_comm a b a' b' p q =
      compatible_with-Compares a b a' b' p q
      ∙ ap some (are_compatible_comm a' b')
      ∙ sym (compatible_with-Compares b a b' a' q p)
