-- ===== src/Clone/Types.antt =====
-- src/astclone/cloner.cc: the clones of the nodes of types.
use tiger_compilor.Prelude.{◌≡◌, refl, Option, none, some, List, [], ◌∷◌, All₂, Both}
use tiger_compilor.Ast.Syntax.{
  Node, NameTy, Field, Ty, name_ty, record_ty, array_ty, TypeDec, Var, Exp, var_exp, type_chunk,
}
use tiger_compilor.Ast.Visitor.{
  accept_name_ty, accept_opt_name_ty, accept_fields, accept_ty, accept_types, accept_exp,
  accept_chunk,
}
use tiger_compilor.Clone.Nodes.{
  Any, as_exp, as_var, as_ty, as_name_ty, as_field, as_init, as_var_dec, as_function_dec,
  as_type_dec, as_chunk, as_var_chunk, as_chunk_list, Init, State, visits, to_exps, to_inits,
  to_vars, to_functions, to_chunks,
}
use tiger_compilor.Clone.Nodes
use tiger_compilor.Clone.Strip.{
  strip_name_ty, strip_opt_name_ty, strip_field, strip_fields, strip_ty, strip_type_dec,
  strip_types, strip_var, strip_exp, strip_chunk,
}
use tiger_compilor.Clone.Parts.{
  Produces, recurse-Gives, collection-Gives, then-Produces, build-Produces, as-Produces,
}
use tiger_compilor.Clone.{to_opt_exp, cloner, clone}
use tiger_compilor.Clone

-- The clone of each kind of node.
abbrev pub SameExp : Exp → Exp → Type 0
SameExp e v = strip_exp v ≡ strip_exp e

abbrev pub SameVar : Var → Var → Type 0
SameVar e v = strip_var v ≡ strip_var e

abbrev pub SameTy : Ty → Ty → Type 0
SameTy t v = strip_ty v ≡ strip_ty t

abbrev pub SameNameTy : NameTy → NameTy → Type 0
SameNameTy t v = strip_name_ty v ≡ strip_name_ty t

abbrev pub SameField : Field → Field → Type 0
SameField t v = strip_field v ≡ strip_field t

abbrev pub SameTypeDec : TypeDec → TypeDec → Type 0
SameTypeDec d v = strip_type_dec v ≡ strip_type_dec d

abbrev pub a_var : Var → Any
a_var v = Nodes.exp (var_exp v)

abbrev pub a_name_ty : NameTy → Any
a_name_ty n = Nodes.ty (name_ty n)

pub name_ty-Produces : (n : NameTy) → Produces (accept_name_ty cloner n) a_name_ty (SameNameTy n)
unfolding Clone.name_ty
name_ty-Produces n = build-Produces n.node (λ m. record { node = m; name = n.name }) λ m e. cc

pub opt_name_ty-Both :
    (o : Option NameTy)
    → Both (λ a y. Produces a a_name_ty (SameNameTy y)) (accept_opt_name_ty cloner o) o
opt_name_ty-Both none = tt
opt_name_ty-Both (some n) = name_ty-Produces n

pub opt_name_ty-same :
    (o p : Option NameTy)
    → Both (λ v y. SameNameTy y v) o p
    → strip_opt_name_ty o ≡ strip_opt_name_ty p
opt_name_ty-same none none h = refl
opt_name_ty-same none (some y) h = absurd h
opt_name_ty-same (some x) none h = absurd h
opt_name_ty-same (some x) (some y) h = cc

fields-All :
    (fs : List Field)
    → All₂ (λ a y. Produces a Nodes.field (SameField y)) (accept_fields cloner fs) fs
unfolding Clone.field
fields-All [] = tt
fields-All (f ∷ fs) = (
  then-Produces (recurse-Gives as_name_ty a_name_ty (λ v. refl) (name_ty-Produces f.type_name))
      (λ t p.
        build-Produces f.node (λ m. record { node = m; name = f.name; type_name = t }) (λ m e. cc)),
  fields-All fs,
)

fields-same :
    (xs ys : List Field) → All₂ (λ v y. SameField y v) xs ys → strip_fields xs ≡ strip_fields ys
fields-same [] [] h = refl
fields-same [] (y ∷ ys) h = absurd h
fields-same (x ∷ xs) [] h = absurd h
fields-same (x ∷ xs) (y ∷ ys) h = let p = h.0 in let q = fields-same xs ys h.1 in cc

pub ty-Produces : (t : Ty) → Produces (accept_ty cloner t) Nodes.ty (SameTy t)
unfolding Clone.record_ty Clone.array_ty
ty-Produces (name_ty n) = as-Produces name_ty (name_ty-Produces n) λ v p. cc
ty-Produces (record_ty n fs) =
    then-Produces (collection-Gives as_field Nodes.field (λ v. refl) _ fs (fields-All fs))
      λ vs p. let q = fields-same vs fs p in build-Produces n (λ m. record_ty m vs) λ m e. cc
ty-Produces (array_ty n base) =
    then-Produces (recurse-Gives as_name_ty a_name_ty (λ v. refl) (name_ty-Produces base))
      λ t p. build-Produces n (λ m. array_ty m t) λ m e. cc

types-All :
    (ts : List TypeDec)
    → All₂ (λ a y. Produces a Nodes.type_dec (SameTypeDec y)) (visits (accept_types cloner ts)) ts
unfolding Clone.type_dec
types-All [] = tt
types-All (d ∷ ds) = (
  then-Produces (recurse-Gives as_ty Nodes.ty (λ v. refl) (ty-Produces d.ty))
      (λ t p. build-Produces d.node (λ m. record { node = m; name = d.name; ty = t }) (λ m e. cc)),
  types-All ds,
)

types-same :
    (xs ys : List TypeDec) → All₂ (λ v y. SameTypeDec y v) xs ys → strip_types xs ≡ strip_types ys
types-same [] [] h = refl
types-same [] (y ∷ ys) h = absurd h
types-same (x ∷ xs) [] h = absurd h
types-same (x ∷ xs) (y ∷ ys) h = let p = h.0 in let q = types-same xs ys h.1 in cc

pub type_chunk-Produces :
    (n : Node) (ts : List TypeDec)
    → Produces
        (accept_chunk cloner (type_chunk n ts))
        Nodes.chunk
        (λ v. strip_chunk v ≡ strip_chunk (type_chunk n ts))
unfolding Clone.type_chunk accept_exp strip_exp
type_chunk-Produces n ts =
    then-Produces (collection-Gives as_type_dec Nodes.type_dec (λ v. refl) _ ts (types-All ts))
      λ vs p. let q = types-same vs ts p in build-Produces n (λ m. type_chunk m vs) λ m e. cc
