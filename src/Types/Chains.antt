-- ===== src/Types/Chains.antt =====
-- Chains of pointers through a bounded heap, for src/type.
use tiger_compilor.Prelude.{
  ℕ, zero, suc, ◌+◌, ◌≤◌, ◌<◌, ◌≡◌, refl, subst, ap, Bool, true, false, ◌||◌, Option, none, some,
  List, [], ◌∷◌, ◌==◌, arith, length, if◌then◌else◌, inl, inr, Bool-cases,
}

-- `std::find` on a list of addresses
unfoldable pub contains : List ℕ → ℕ → Bool
contains [] a = false
contains (b ∷ bs) a = b == a || contains bs a

abbrev pub Distinct : List ℕ → Type 0
Distinct [] = Unit
Distinct (a ∷ as_) = (contains as_ a ≡ false) × Distinct as_

abbrev pub Below : ℕ → List ℕ → Type 0
Below n [] = Unit
Below n (a ∷ l) = (a < n) × Below n l

remove : ℕ → List ℕ → List ℕ
remove a [] = []
remove a (b ∷ l) = if b == a then remove a l else b ∷ remove a l

contains-remove : (a b : ℕ) (l : List ℕ) → contains l b ≡ false → contains (remove a l) b ≡ false
unfolding contains remove
contains-remove a b [] h = refl
contains-remove a b (c ∷ l) h = ground (arith, contains-remove a b l)

remove-Distinct : (a : ℕ) (l : List ℕ) → Distinct l → Distinct (remove a l)
unfolding remove
remove-Distinct a [] h = tt
remove-Distinct a (b ∷ l) h = ground (arith, remove-Distinct a l h.1, contains-remove a b l h.0)

remove-Below : (n : ℕ) (l : List ℕ) → Below (suc n) l → Below n (remove n l)
unfolding remove
remove-Below n [] h = tt
remove-Below n (b ∷ l) h = ground (arith, remove-Below n l h.1)

remove_absent : (a : ℕ) (l : List ℕ) → contains l a ≡ false → remove a l ≡ l
unfolding contains remove
remove_absent a [] h = refl
remove_absent a (b ∷ l) h = ground (arith, remove_absent a l)

length-remove : (a : ℕ) (l : List ℕ) → Distinct l → length l ≤ length (remove a l) + 1
unfolding remove
length-remove a [] h = omega arith
length-remove a (b ∷ l) h = ground (arith, length-remove a l h.1, remove_absent a l)

-- Different numbers below `n` are at most `n`.
pub pigeonhole : (n : ℕ) (l : List ℕ) → Distinct l → Below n l → length l ≤ n
pigeonhole zero [] d b = omega arith
pigeonhole zero (a ∷ l) d b = absurd (omega arith)
pigeonhole (suc n) l d b = omega (
  arith,
  length-remove n l d,
  pigeonhole n (remove n l) (remove-Distinct n l d) (remove-Below n l b),
)

module _ (next : ℕ → Option ℕ) where
  -- The chain from `a` ends after `n` links.
  pub data Ends : ℕ → ℕ → Type 0 where
    stop : {a : ℕ} → next a ≡ none → Ends a zero
    link : {a b n : ℕ} → next a ≡ some b → Ends b n → Ends a (suc n)

  pub Ends-unique : {a m n : ℕ} → Ends a m → Ends a n → m ≡ n
  Ends-unique (stop p) (stop q) = refl
  Ends-unique (stop p) (link q r) = cc
  Ends-unique (link p r) (stop q) = cc
  Ends-unique (link p r) (link {n} q s) = ap suc (Ends-unique r (subst (λ b. Ends b n) (cc) s))

  pub Ends-next : {a b n : ℕ} → next a ≡ some b → Ends a n → (k : ℕ) × (n ≡ suc k) × Ends b k
  Ends-next e (stop p) = cc
  Ends-next e (link {n} p r) = (n, refl, subst (λ b. Ends b n) (cc) r)

  nodes : {a n : ℕ} → Ends a n → List ℕ
  nodes (stop p) = []
  nodes (link {a} p r) = a ∷ nodes r

  length-nodes : {a n : ℕ} (r : Ends a n) → length (nodes r) ≡ n
  unfolding nodes
  length-nodes (stop p) = refl
  length-nodes (link p r) = ap suc (length-nodes r)

  -- From each node of a chain a part of the chain is left.
  left :
      {a n : ℕ} (r : Ends a n) (v : ℕ) → contains (nodes r) v ≡ true → (k : ℕ) × (k ≤ n) × Ends v k
  unfolding nodes contains
  left (stop p) v h = cc
  left (link {a} {n} p r) v h = elim (Bool-cases (a == v)) [
    | inl e ↦ (suc n, omega arith, subst (λ b. Ends b (suc n)) (ground arith) (link p r))
    | inr e ↦ let (k, le, q) = left r v (ground arith) in (k, omega arith, q)
  ]

  nodes-Distinct : {a n : ℕ} (r : Ends a n) → Distinct (nodes r)
  unfolding nodes
  nodes-Distinct (stop p) = tt
  nodes-Distinct (link {a} p r) = (
    elim (Bool-cases (contains (nodes r) a)) [
      | inl e ↦ let (k, le, q) = left r a e in absurd (omega (arith, Ends-unique q (link p r)))
      | inr e ↦ e
    ],
    nodes-Distinct r,
  )

  module _ (size : ℕ) (bounded : (a b : ℕ) → next a ≡ some b → a < size) where
    nodes-Below : {a n : ℕ} (r : Ends a n) → Below size (nodes r)
    unfolding nodes
    nodes-Below (stop p) = tt
    nodes-Below (link p r) = (bounded _ _ p, nodes-Below r)

    -- A chain that ends has no more links than the heap has objects.
    pub Ends-le-size : {a n : ℕ} → Ends a n → n ≤ size
    Ends-le-size r =
        omega (arith, length-nodes r, pigeonhole size (nodes r) (nodes-Distinct r) (nodes-Below r))

  -- `a` leads to `b` in some links.
  pub data Leads : ℕ → ℕ → Type 0 where
    one : {a b : ℕ} → next a ≡ some b → Leads a b
    more : {a b c : ℕ} → next a ≡ some b → Leads b c → Leads a c

  pub Leads-snoc : {a b c : ℕ} → Leads a b → next b ≡ some c → Leads a c
  Leads-snoc (one p) q = more p (one q)
  Leads-snoc (more p r) q = more p (Leads-snoc r q)

  -- A chain that comes back never ends.
  Leads-Ends : {a b n : ℕ} → Leads a b → Ends a n → (k : ℕ) × (k < n) × Ends b k
  Leads-Ends (one p) (stop q) = cc
  Leads-Ends (one p) (link {n} q r) = (n, omega arith, subst (λ b. Ends b n) (cc) r)
  Leads-Ends (more p l) (stop q) = cc
  Leads-Ends (more p l) (link {n} q r) =
      let (k, lt, e) = Leads-Ends l (subst (λ b. Ends b n) (cc) r) in (k, omega arith, e)

  pub not_Ends-Leads : {a b n : ℕ} → Leads a b → Leads b b → ¬ Ends a n
  not_Ends-Leads l c e =
      let (k, _, f) = Leads-Ends l e in
      let (j, lt, g) = Leads-Ends c f in absurd (omega (arith, Ends-unique f g))

  pub not_Ends-cycle : {a n : ℕ} → Leads a a → ¬ Ends a n
  not_Ends-cycle c e = let (k, lt, f) = Leads-Ends c e in absurd (omega (arith, Ends-unique e f))
