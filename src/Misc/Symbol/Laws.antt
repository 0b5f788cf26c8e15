-- ===== src/Misc/Symbol/Laws.antt =====
-- lib/misc/unique.hxx and lib/misc/symbol.cc: pointers to strings, and fresh names.
use mathlib.Core.Option.{some-injective}
use tiger_compilor.Prelude.{
  ℕ, zero, suc, ◌+◌, ◌%◌, ◌<◌, String, ◌≡◌, ◌≢◌, refl, sym, ap, subst, ◌∙◌, false, none, some, List,
  [], ◌∷◌, ◌++◌, length, str_eq, eq_iff, ◌==◌, ◌↔◌, ◌⊎◌, inl, inr, Bool-cases, Option-cases, arith,
}
use tiger_compilor.Prelude.Suffix.{suffix_inj}
use tiger_compilor.Misc.Symbol.{
  Pool, get, find, unique, unique_eq, symbol_eq, State, fresh_text, fresh, fresh_each,
}

-- Each string is in the set once.
abbrev pub IsFlyweight : Pool → Type 0
IsFlyweight pool = (a b : ℕ) (x : String) → get pool a ≡ some x → get pool b ≡ some x → a ≡ b

find-get : (s : String) (pool : Pool) (a : ℕ) → find s pool ≡ some a → get pool a ≡ some s
unfolding find get
find-get s [] a e = cc
find-get s (x ∷ xs) a e = elim (Bool-cases (str_eq x s)) [
  | inl p ↦
      let same = some-injective zero a (rw (p, find) at e) in
      subst (λ z. get (x ∷ xs) z ≡ some s) same (ap some ((eq_iff x s).0 p))
  | inr p ↦ elim (Option-cases (find s xs)) [
    | inl q ↦ cc (rw (p, q, find) at e)
    | inr (b, q) ↦
        let same = some-injective (suc b) a (rw (p, q, find) at e) in
        subst (λ z. get (x ∷ xs) z ≡ some s) same (find-get s xs b q)
  ]
]

later-none :
    (s x : String) (xs : Pool) (a : ℕ)
    → str_eq x s ≡ false
    → ((b : ℕ) → find s xs ≡ none → get xs b ≢ some s)
    → find s xs ≡ none
    → get (x ∷ xs) a ≢ some s
unfolding get
later-none s x xs zero q h e p = let same = (eq_iff x s).1 (some-injective x s p) in cc
later-none s x xs (suc a) q h e p = h a e p

-- a string that is not found is not there
find-none : (s : String) (pool : Pool) (a : ℕ) → find s pool ≡ none → get pool a ≢ some s
unfolding find get
find-none s [] a e p = cc
find-none s (x ∷ xs) a e p = elim (Bool-cases (str_eq x s)) [
  | inl q ↦ cc (rw (q, find) at e)
  | inr q ↦ elim (Option-cases (find s xs)) [
    | inl r ↦ later-none s x xs a q (find-none s xs) r p
    | inr (b, r) ↦ cc (rw (q, r, find) at e)
  ]
]

get-append :
    (pool : Pool) (s : String) (a : ℕ) (x : String)
    → get pool a ≡ some x
    → get (pool ++ s ∷ []) a ≡ some x
unfolding get
get-append [] s a x e = cc
get-append (y ∷ ys) s zero x e = e
get-append (y ∷ ys) s (suc a) x e = get-append ys s a x e

get-last : (pool : Pool) (s : String) → get (pool ++ s ∷ []) (length pool) ≡ some s
unfolding get
get-last [] s = refl
get-last (y ∷ ys) s = get-last ys s

-- what is at a place of the longer list
get-snoc :
    (pool : Pool) (s : String) (a : ℕ) (x : String)
    → get (pool ++ s ∷ []) a ≡ some x
    → (get pool a ≡ some x) ⊎ ((a ≡ length pool) × (x ≡ s))
unfolding get
get-snoc [] s zero x e = inr (refl, some-injective x s (sym e))
get-snoc [] s (suc a) x e = cc
get-snoc (y ∷ ys) s zero x e = inl e
get-snoc (y ∷ ys) s (suc a) x e = elim (get-snoc ys s a x e) [
  | inl p ↦ inl p
  | inr (p, q) ↦ inr (ap suc p, q)
]

-- The constructor of `unique` keeps the set a flyweight and all pointers to it, and gives a pointer
-- to its string.
pub record Kept (s : String) (pool : Pool) (a : ℕ) (pool' : Pool) : Type 0 where
  flyweight : IsFlyweight pool → IsFlyweight pool'
  points : get pool' a ≡ some s
  stays : (b : ℕ) (x : String) → get pool b ≡ some x → get pool' b ≡ some x

snoc-IsFlyweight :
    (pool : Pool) (s : String)
    → find s pool ≡ none
    → IsFlyweight pool
    → IsFlyweight (pool ++ s ∷ [])
snoc-IsFlyweight pool s none_there h a b x p q = elim (get-snoc pool s a x p) [
  | inl i ↦ elim (get-snoc pool s b x q) [
    | inl j ↦ h a b x i j
    | inr (j, e) ↦ absurd (find-none s pool a none_there (i ∙ ap some e))
  ]
  | inr (i, e) ↦ elim (get-snoc pool s b x q) [
    | inl j ↦ absurd (find-none s pool b none_there (j ∙ ap some e))
    | inr (j, _) ↦ i ∙ sym j
  ]
]

unique-Kept : (s : String) (pool : Pool) → Kept s pool (unique s pool).0 (unique s pool).1
unfolding unique
unique-Kept s pool = elim (Option-cases (find s pool)) [
  | inl e ↦
      rw (e, unique)
        (record {
          flyweight = snoc-IsFlyweight pool s e;
          points = get-last pool s;
          stays = get-append pool s;
        })
  | inr (a, e) ↦
      rw (e, unique)
        (record { flyweight = λ h. h; points = find-get s pool a e; stays = λ b x p. p })
]

pointers-lem :
    (s t : String) (pool : Pool) (a b : ℕ)
    → IsFlyweight pool
    → get pool a ≡ some s
    → get pool b ≡ some t
    → (symbol_eq pool a b ≡ some (unique_eq a b)) × ((a ≡ b) ↔ (s ≡ t))
unfolding symbol_eq
pointers-lem s t pool a b h p q =
    let there : a ≡ b → s ≡ t = λ e. some-injective s t (sym p ∙ ap (get pool) e ∙ q) in
    let back : s ≡ t → a ≡ b = λ e. h a b s p (q ∙ ap some (sym e)) in
    (
      rw (p, q, symbol_eq)
          (ap some (elim (Bool-cases (str_eq s t)) [
            | inl e ↦ e ∙ ground (arith, back ((eq_iff s t).0 e))
            | inr e ↦ elim (Bool-cases (a == b)) [
              | inl f ↦ (eq_iff s t).1 (there (ground arith)) ∙ sym f
              | inr f ↦ e ∙ sym f
            ]
          ])),
      (there, back),
    )

-- In a set that has each string once, the pointers of two symbols that are made one after another
-- are equal exactly if the strings are, the comparison of symbols by what they point to agrees with
-- the comparison of the pointers, and the set has each string once again.
pub unique-symbol_eq :
    (s t : String) (pool : Pool)
    → IsFlyweight pool
    → let (a, first) = unique s pool in
      let (b, second) = unique t first in
      (symbol_eq second a b ≡ some (unique_eq a b)) × ((a ≡ b) ↔ (s ≡ t)) × IsFlyweight second
unfolding symbol_eq
unique-symbol_eq s t pool h =
    let (a, first) = unique s pool in
    let (b, second) = unique t first in
    let k = unique-Kept s pool in
    let l = unique-Kept t first in
    let all = l.flyweight (k.flyweight h) in
    let (p, q) = pointers-lem s t second a b all (l.stays a s k.points) l.points in (p, q, all)

-- the counter after many calls
fresh_each-counter :
    (ss : List String) (st : State)
    → st.counter < 4294967296
    → (fresh_each ss st).counter ≡ (st.counter + length ss) % 4294967296
unfolding fresh_each fresh
fresh_each-counter [] st h = omega arith
fresh_each-counter (s ∷ ss) st h = fresh_each-counter ss (fresh s st).1 (omega arith) ∙ omega arith

fresh-points :
    (s : String) (st : State)
    → get (fresh s st).1.pool (fresh s st).0 ≡ some (fresh_text s st.counter)
unfolding fresh
fresh-points s st = (unique-Kept (fresh_text s st.counter) st.pool).points

fresh-stays :
    (s : String) (st : State) (a : ℕ) (x : String)
    → get st.pool a ≡ some x
    → get (fresh s st).1.pool a ≡ some x
unfolding fresh
fresh-stays s st a x p = (unique-Kept (fresh_text s st.counter) st.pool).stays a x p

fresh_each-stays :
    (ss : List String) (st : State) (a : ℕ) (x : String)
    → get st.pool a ≡ some x
    → get (fresh_each ss st).pool a ≡ some x
unfolding fresh_each
fresh_each-stays [] st a x p = p
fresh_each-stays (s ∷ ss) st a x p = fresh_each-stays ss (fresh s st).1 a x (fresh-stays s st a x p)

-- Two fresh symbols are different, whatever they are made from, if fewer than 2 ^ 32 - 1 fresh
-- symbols are made between them.
pub fresh-distinct :
    (s t : String) (between : List String) (st : State)
    → st.counter < 4294967296
    → length between + 1 < 4294967296
    → (fresh s st).0 ≢ (fresh t (fresh_each between (fresh s st).1)).0
unfolding fresh_text fresh
fresh-distinct s t between st h k e =
    let last = fresh_each between (fresh s st).1 in
    let first_text = fresh-stays t last (fresh s st).0 (fresh_text s st.counter) (
      fresh_each-stays between (fresh s st).1 (fresh s st).0 (fresh_text s st.counter)
        (fresh-points s st)) in
    let texts =
      some-injective _ _
        (sym first_text ∙ ap (get (fresh t last).1.pool) e ∙ fresh-points t last) in
    let same = suffix_inj s t st.counter last.counter texts in
    let count = fresh_each-counter between (fresh s st).1 (omega arith) in
    absurd (omega (arith, same, count))
