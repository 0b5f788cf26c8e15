-- ===== src/Types/Named/Actual.antt =====
-- src/type/named.hxx: `Named::actual` and the chains of names.
use tiger_compilor.Prelude.{
  ℕ, zero, suc, ◌<◌, ◌≡◌, refl, Option, none, some, String, arith, ◌↔◌, subst,
}
use tiger_compilor.Types.Heap.{TigerType, named, Heap, IsBounded}
use tiger_compilor.Types.Chains.{Ends, stop, link, Ends-le-size, Ends-next}
use tiger_compilor.Types.Named.{target, actual_of, actual_fuel, actual}

-- A type that is not a name.
abbrev pub IsProper : TigerType → Type 0
IsProper (named x t) = ⊥
IsProper _ = Unit

-- The names from `a` lead to the type `c`, which is not a name.
pub data Resolves (h : Heap) : ℕ → ℕ → Type 0 where
  proper : {a : ℕ} (t : TigerType) → h.deref a ≡ some t → IsProper t → Resolves h a a
  through :
      {a b c : ℕ} {x : String}
      → h.deref a ≡ some (named x (some b))
      → Resolves h b c
      → Resolves h a c

pub next_type : Heap → ℕ → Option ℕ
next_type h a = target (h.deref a)

target-proper : (t : TigerType) → IsProper t → target (some t) ≡ none
target-proper (named x t) p = absurd p
target-proper _ p = refl

pub target-through :
    (h : Heap) {a b : ℕ} {x : String} → h.deref a ≡ some (named x (some b)) → next_type h a ≡ some b
unfolding next_type
target-through h e = rw e

actual_of-proper :
    (again : ℕ → Option ℕ) (a : ℕ) (t : TigerType)
    → IsProper t
    → actual_of again a (some t) ≡ some a
unfolding actual_of
actual_of-proper again a (named x t) p = absurd p
actual_of-proper again a _ p = refl

pub Resolves-Ends : {h : Heap} {a c : ℕ} → Resolves h a c → (n : ℕ) × Ends (next_type h) a n
unfolding next_type
Resolves-Ends (proper t e p) = (0, stop (rw e (target-proper t p)))
Resolves-Ends (through e r) = let (n, q) = Resolves-Ends r in (suc n, link (rw e) q)

actual_fuel-Ends :
    {h : Heap} {a c : ℕ} (fuel n : ℕ)
    → Resolves h a c
    → Ends (next_type h) a n
    → n < fuel
    → actual_fuel fuel h a ≡ some c
unfolding actual_fuel next_type
actual_fuel-Ends {h} zero n r e lt = absurd (omega arith)
actual_fuel-Ends {h} (suc fuel) n (proper t e p) s lt = rw e (actual_of-proper _ _ t p)
actual_fuel-Ends {h} (suc fuel) n (through e r) s lt =
    let (k, p, q) = Ends-next (next_type h) (target-through h e) s in
    rw e (actual_fuel-Ends fuel k r q (omega arith))

-- What `actual` answers is at the end of the chain.
actual_of-Resolves :
    (fuel : ℕ) (h : Heap) (a c : ℕ) (o : Option TigerType)
    → h.deref a ≡ o
    → ((b : ℕ) → actual_fuel fuel h b ≡ some c → Resolves h b c)
    → actual_of (actual_fuel fuel h) a o ≡ some c
    → Resolves h a c
unfolding actual_of
actual_of-Resolves fuel h a c none e ih p = cc
actual_of-Resolves fuel h a c (some (named x none)) e ih p = cc
actual_of-Resolves fuel h a c (some (named x (some b))) e ih p = through e (ih b p)
actual_of-Resolves fuel h a c (some t) e ih p =
    let q : ◌≡◌ {A = Option ℕ} (some a) (some c) = p in
    subst (Resolves h a) {x = a} {y = c} (cc) (proper t e tt)

actual_fuel-Resolves :
    (fuel : ℕ) (h : Heap) (a c : ℕ) → actual_fuel fuel h a ≡ some c → Resolves h a c
unfolding actual_fuel
actual_fuel-Resolves zero h a c p = cc
actual_fuel-Resolves (suc fuel) h a c p =
    actual_of-Resolves fuel h a c (h.deref a) refl (λ b q. actual_fuel-Resolves fuel h b c q) p

module _ (h : Heap) (bounded : IsBounded h) where
  pub next_type-lt : (a b : ℕ) → next_type h a ≡ some b → a < h.size
  unfolding next_type
  next_type-lt a b e = ground (arith, bounded a)

  -- `actual` finds the type at the end of every chain of names that has one, however long, and
  -- answers nothing else.
  pub actual_iff : (a c : ℕ) → (actual h a ≡ some c) ↔ Resolves h a c
  unfolding actual
  actual_iff a c = (
    actual_fuel-Resolves (suc h.size) h a c,
    λ r.
        let (n, e) = Resolves-Ends r in
        actual_fuel-Ends (suc h.size) n r e
          (omega (arith, Ends-le-size (next_type h) h.size next_type-lt e)),
  )
