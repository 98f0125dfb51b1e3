-- ===== src/Zallocrout/Router/Registered.antt =====
-- The trees that AddRoute builds, by the list of the routes: what each call changes of the fields that
-- Match reads.
pub mod Refines
pub mod Covering
use Prim.{Unit, tt}
use go_kitbox.Prelude.{
  ◌≡◌, refl, sym, ap, ap₂, ◌∙◌, Bool, true, false, not, ◌&&◌, ◌||◌, List, [], ◌∷◌, Option, none,
  some, length, drop, ltb, if◌then◌else◌, Bool-cases, Option-cases, inl, inr, arith,
}
use go_kitbox.Prelude.Keys.{list_eq, list_beq, list_beq_eq, nat_eq}
use go_kitbox.Prelude.Maps.{lookup, insert, lookup-insert}
use go_kitbox.Prelude.Run.{Run, ok, err, panic, ◌>>=◌, Run-cases}
use go_kitbox.Zallocrout.Paths.{Bytes, split_path_to_compressed_segs}
use go_kitbox.Zallocrout.Paths.Segments.{segments}
use go_kitbox.Zallocrout.Paths.Split.{split_path_to_compressed_segs-segments}
use go_kitbox.Zallocrout.Routes.{RouteError, validate_route}
use go_kitbox.Zallocrout.Tree.{
  Info, Node, Step, blank, leaf, static_info, param_info, wildcard_info, set_handler_with_params,
  add_segs,
}
use go_kitbox.Zallocrout.Tree.Places.{step_eq, starts, on_child, or_leaf}
use go_kitbox.Zallocrout.Tree.Adding.{
  key, field_at, field_at-leaf, field_at-add_segs, has, has-leaf, has-add_segs, or_false,
}
use go_kitbox.Zallocrout.Tree.Walking.{name_at}
use go_kitbox.Zallocrout.Tree.Labels.{labels, label_at, leaf_childless, name_at-add_segs}
use go_kitbox.Zallocrout.Router.{Router, param_names_of, root_or_new, add_route}
use go_kitbox.Zallocrout.Router.Found.{root_field}

-- A call of AddRoute
pub record Route (Handler Middleware : Type 0) : Type 0 where
  pub method : Bytes
  pub path : Bytes
  pub handler : Option Handler
  pub middlewares : List Middleware

abbrev pub passes : Run RouteError (Unit {0}) → Bool
passes (ok u) = true
passes (err e) = false
passes panic = false

abbrev pub accepted : Bytes → Bool
accepted path = passes (validate_route path)

or_comm : (a b : Bool) → (a || b) ≡ (b || a)
or_comm true true = refl
or_comm true false = refl
or_comm false true = refl
or_comm false false = refl

if_not {ℓ} : {A : Type ℓ} (b : Bool) (x y : A) → (if b then x else y) ≡ (if not b then y else x)
if_not true x y = refl
if_not false x y = refl

module _ {H M : Type 0} where
  -- The route is accepted, and of the method.
  abbrev pub serves : Route H M → Bytes → Bool
  serves x method = list_beq x.method method && accepted x.path

  -- The router after a call of AddRoute, also after a refused one.
  unfoldable pub added : Route H M → Router H M → Router H M
  added x r = elim (add_route x.method x.path x.handler x.middlewares r) [
    | ok r' ↦ r'
    | err _ ↦ r
    | panic ↦ r
  ]

  abbrev pub setting : Route H M → Info H M → Info H M
  setting x i = set_handler_with_params x.handler x.middlewares (param_names_of (segments x.path)) i

  -- The tree of a method after the call, which may pass the check.
  abbrev pub tree_when : Route H M → Bytes → List (Bytes × Node H M) → Bool → Option (Node H M)
  tree_when x method roots passed =
      if list_beq x.method method && passed
      then some (add_segs (segments x.path) (setting x) (root_or_new method roots))
      else lookup method roots

  at_method :
      (x : Route H M) (method : Bytes) (r : Router H M)
      → (if list_beq x.method method
          then some (add_segs (segments x.path) (setting x) (root_or_new x.method r.roots))
          else lookup method r.roots)
        ≡ tree_when x method r.roots true
  at_method x method r = elim (Bool-cases (list_beq x.method method)) [
    | inl same ↦ rw same (
        ap (λ m. some (add_segs (segments x.path) (setting x) (root_or_new m r.roots)))
          (list_beq_eq x.method method same))
    | inr other ↦ rw other refl
  ]

  not_taken :
      (x : Route H M) (method : Bytes) (r : Router H M)
      → lookup method r.roots ≡ tree_when x method r.roots false
  not_taken x method r = elim (Bool-cases (list_beq x.method method)) [
    | inl same ↦ rw same refl
    | inr other ↦ rw other refl
  ]

  pub lookup-added :
      (x : Route H M) (method : Bytes) (r : Router H M)
      → lookup method (added x r).roots ≡ tree_when x method r.roots (accepted x.path)
  unfolding added add_route
  lookup-added x method r =
      let by_result = λ (v : Run RouteError (Unit {0})). tree_when x method r.roots (passes v) in
      elim (Run-cases (validate_route x.path)) [
        | inl (u, good) ↦
            let changed : lookup method (added x r).roots ≡ tree_when x method r.roots true =
              rw (good, split_path_to_compressed_segs-segments x.path, added, add_route)
                (lookup-insert x.method method
                    (add_segs (segments x.path) (setting x) (root_or_new x.method r.roots)) r.roots
                  ∙ at_method x method r) in
            changed ∙ ap by_result (sym good)
        | inr (inl (e, bad)) ↦
            let same : lookup method (added x r).roots ≡ lookup method r.roots =
              rw (bad, added, add_route) refl in
            same ∙ not_taken x method r ∙ ap by_result (sym bad)
        | inr (inr bad) ↦
            let same : lookup method (added x r).roots ≡ lookup method r.roots =
              rw (bad, added, add_route) refl in
            same ∙ not_taken x method r ∙ ap by_result (sym bad)
      ]

  -- A field of the nodes of a method, for which a new node has `d`, and which a route changes as `g`.
  module _ {X : Type 0} (f : Info H M → X) (d : X) (g : X → X) (x : Route H M)
      (does : (i : Info H M) → f (setting x i) ≡ g (f i)) (new : f blank ≡ d)
      (static : (seg : Bytes) → f (static_info seg) ≡ d)
      (param : (seg : Bytes) → f (param_info seg) ≡ d)
      (wildcard : (seg : Bytes) → f (wildcard_info seg) ≡ d) (method : Bytes) (k : List Step)
      (r : Router H M) where
    field_or_new : (o : Option (Node H M)) → field_at f d k (or_leaf blank o) ≡ root_field f d o k
    field_or_new none = field_at-leaf f d k blank new
    field_or_new (some n) = refl

    pub root_field-added : root_field f d (lookup method (added x r).roots) k ≡ (
        if serves x method && list_beq k (key (segments x.path))
        then g (root_field f d (lookup method r.roots) k)
        else root_field f d (lookup method r.roots) k)
    root_field-added = elim (Bool-cases (serves x method)) [
      | inl takes ↦
          ap (λ t. root_field f d t k) (lookup-added x method r)
          ∙ rw takes (
              field_at-add_segs f d (setting x) g does static param wildcard (segments x.path) k
                (root_or_new method r.roots)
              ∙ ap (λ o. if list_beq k (key (segments x.path)) then g o else o)
                  (field_or_new (lookup method r.roots)))
      | inr other ↦ ap (λ t. root_field f d t k) (lookup-added x method r) ∙ rw other refl
    ]

  has_or_new :
      (o : Option (Node H M)) (k p : List Step)
      → (has k (or_leaf blank o) || starts k p) ≡ (starts k p || root_field (λ _. true) false o k)
  has_or_new none k p = has-leaf k p blank ∙ sym (or_false (starts k p))
  has_or_new (some n) k p = or_comm (has k n) (starts k p)

  pub nodes-added :
      (x : Route H M) (method : Bytes) (k : List Step) (r : Router H M)
      → root_field (λ _. true) false (lookup method (added x r).roots) k ≡ (
          (serves x method && starts k (key (segments x.path)))
          || root_field (λ _. true) false (lookup method r.roots) k)
  nodes-added x method k r = elim (Bool-cases (serves x method)) [
    | inl takes ↦
        ap (λ t. root_field (λ _. true) false t k) (lookup-added x method r)
        ∙ rw takes (
            has-add_segs (setting x) (segments x.path) k (root_or_new method r.roots)
            ∙ has_or_new (lookup method r.roots) k (key (segments x.path)))
    | inr other ↦
        ap (λ t. root_field (λ _. true) false t k) (lookup-added x method r) ∙ rw other refl
  ]

  label_or_new :
      (o : Option (Node H M)) (k : List Step) (ls : List (Step × Bytes))
      → (if has k (or_leaf blank o) then name_at (or_leaf blank o) k else label_at ls k) ≡ (
          if root_field (λ _. true) false o k
          then root_field (λ i. i.param_name) [] o k
          else label_at ls k)
  label_or_new none [] [] = refl
  label_or_new none [] (l ∷ ls) = refl
  label_or_new none (st ∷ k) ls =
      ap (λ b. if b then name_at {H = H} {M = M} (leaf blank) (st ∷ k) else label_at ls (st ∷ k))
        (leaf_childless {H = H} {M = M} st k blank)
  label_or_new (some n) k ls = refl

  pub labels-added :
      (x : Route H M) (method : Bytes) (k : List Step) (r : Router H M)
      → root_field (λ i. i.param_name) [] (lookup method (added x r).roots) k ≡ (
          if serves x method && not (root_field (λ _. true) false (lookup method r.roots) k)
          then label_at (labels (segments x.path)) k
          else root_field (λ i. i.param_name) [] (lookup method r.roots) k)
  unfolding set_handler_with_params
  labels-added x method k r = elim (Bool-cases (serves x method)) [
    | inl takes ↦
        ap (λ t. root_field (λ i. i.param_name) [] t k) (lookup-added x method r)
        ∙ rw takes (
            name_at-add_segs (setting x) (λ i. refl) (segments x.path) k
              (root_or_new method r.roots)
            ∙ label_or_new (lookup method r.roots) k (labels (segments x.path))
            ∙ if_not (root_field (λ _. true) false (lookup method r.roots) k)
                (root_field (λ i. i.param_name) [] (lookup method r.roots) k)
                (label_at (labels (segments x.path)) k))
    | inr other ↦
        ap (λ t. root_field (λ i. i.param_name) [] t k) (lookup-added x method r) ∙ rw other refl
  ]
