-- ===== src/Collector/Grows.antt =====
-- src/llvmtranslate/escapes-collector.cc: the sets of a collector grow, and are bounded.
use tiger_compilor.Prelude.{
  ℕ, zero, suc, ◌+◌, ◌*◌, ◌≤◌, ◌<◌, ◌≡◌, refl, ◌∙◌, true, false, List, [], ◌∷◌, length, ◌==◌,
  if◌then◌else◌, arith, inl, inr, Bool-cases,
}
use tiger_compilor.Types.Chains.{contains, Distinct, Below, pigeonhole}
use tiger_compilor.Collector.{State, Tables, insert_escaped, insert_all}

-- the sizes of the sets of the functions below `k`
pub total : ℕ → (ℕ → List ℕ) → ℕ
total zero e = 0
total (suc k) e = length (e k) + total k e

total-le : (k n : ℕ) (e : ℕ → List ℕ) → ((f : ℕ) → length (e f) ≤ n) → total k e ≤ k * n
unfolding total
total-le zero n e h = omega arith
total-le (suc k) n e h = grind (arith, h k, total-le k n e h)

abbrev with_one : (ℕ → List ℕ) → ℕ → ℕ → ℕ → List ℕ
with_one e f v g = if g == f then v ∷ e f else e g

total_other : (k f v : ℕ) (e : ℕ → List ℕ) → k ≤ f → total k (with_one e f v) ≡ total k e
unfolding total
total_other zero f v e h = refl
total_other (suc k) f v e h = ground (arith, total_other k f v e)

total_more : (k f v : ℕ) (e : ℕ → List ℕ) → f < k → total k (with_one e f v) ≡ suc (total k e)
unfolding total
total_more zero f v e h = absurd (omega arith)
total_more (suc k) f v e h = elim (Bool-cases (k == f)) [
  | inl same ↦ let here : k ≡ f = ground arith in ground (arith, total_other k f v e)
  | inr other ↦ ground (arith, total_more k f v e)
]

abbrev pub Escaping : Tables → List ℕ → Type 0
Escaping d [] = Unit
Escaping d (v ∷ vs) = (d.is_escapable v ≡ true) × Escaping d vs

-- The functions on the stack have numbers below `nf`, and each set has different variables, with
-- numbers below `nv`, that are escapable.
pub record Sound (d : Tables) (nf nv : ℕ) (s : State) : Type 0 where
  pub functions : Below nf s.function_type_stack
  pub different : (f : ℕ) → Distinct (s.escaped f)
  pub variables : (f : ℕ) → Below nv (s.escaped f)
  pub are_escapable : (f : ℕ) → Escaping d (s.escaped f)

module _ (d : Tables) (nf nv : ℕ) where
  abbrev pub size : State → ℕ
  size s = total nf s.escaped

  pub size-le : (s : State) → Sound d nf nv s → size s ≤ nf * nv
  size-le s h =
      total-le nf nv s.escaped λ f. pigeonhole nv (s.escaped f) (h.different f) (h.variables f)

  -- The stack is the same, and the flag is set, if it was not, only where a set has grown.
  pub record Grows (s t : State) : Type 0 where
    pub is_sound : Sound d nf nv t
    pub functions : t.function_type_stack ≡ s.function_type_stack
    pub bigger : size s ≤ size t
    pub flag : s.did_modify ≡ false → t.did_modify ≡ true → size s < size t

  pub Grows-refl : (s : State) → Sound d nf nv s → Grows s s
  Grows-refl s h = record { is_sound = h; functions = refl; bigger = omega arith; flag = λ e f. cc }

  pub Grows-trans : (s t u : State) → Grows s t → Grows t u → Grows s u
  Grows-trans s t u h k = record {
    is_sound = k.is_sound;
    functions = k.functions ∙ h.functions;
    bigger = omega (arith, h.bigger, k.bigger);
    flag = λ e f. elim (Bool-cases t.did_modify) [
      | inl set ↦ omega (arith, h.flag e set, k.bigger)
      | inr unset ↦ omega (arith, h.bigger, k.flag unset f)
    ];
  }

  pub insert_escaped-Grows :
      (f v : ℕ) (s : State)
      → Sound d nf nv s
      → f < nf
      → v < nv
      → d.is_escapable v ≡ true
      → Grows s (insert_escaped f v s)
  unfolding insert_escaped
  insert_escaped-Grows f v s h p q r = elim (Bool-cases (contains (s.escaped f) v)) [
    | inl old ↦ rw old (Grows-refl s h)
    | inr new ↦ rw new (record {
      is_sound = record {
        functions = h.functions;
        different = λ g. ground (arith, h.different g, h.different f);
        variables = λ g. ground (arith, h.variables g, h.variables f);
        are_escapable = λ g. ground (arith, h.are_escapable g, h.are_escapable f);
      };
      functions = refl;
      bigger = omega (arith, total_more nf f v s.escaped p);
      flag = λ a b. omega (arith, total_more nf f v s.escaped p);
    })
  ]

  pub insert_all-Grows :
      (f : ℕ) (vs : List ℕ) (s : State)
      → Sound d nf nv s
      → f < nf
      → Below nv vs
      → Escaping d vs
      → Grows s (insert_all f vs s)
  unfolding insert_all
  insert_all-Grows f [] s h p q r = Grows-refl s h
  insert_all-Grows f (v ∷ vs) s h p q r =
      let one = insert_escaped-Grows f v s h p q.0 r.0 in
      Grows-trans s (insert_escaped f v s) (insert_all f vs (insert_escaped f v s)) one
        (insert_all-Grows f vs (insert_escaped f v s) one.is_sound p q.1 r.1)
