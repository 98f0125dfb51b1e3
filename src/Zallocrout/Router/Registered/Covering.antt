-- ===== src/Zallocrout/Router/Registered/Covering.antt =====
-- A handler that Match finds belongs to a route that fits the path.
use Prim.{Unit, tt}
use go_kitbox.Prelude.{
  ℕ, ◌≡◌, refl, sym, ap, ◌∙◌, Bool, true, false, ◌&&◌, List, [], ◌∷◌, Option, none, some,
  if◌then◌else◌, Bool-cases, inl, inr, either_branch,
}
use mathlib.Core.Path.{subst}
use go_kitbox.Prelude.Keys.{list_beq, list_beq_eq}
use go_kitbox.Prelude.Run.{Run, ok, err, panic}
use go_kitbox.Zallocrout.Paths.{Bytes}
use go_kitbox.Zallocrout.Paths.Segments.{segments}
use go_kitbox.Zallocrout.Tree.{Step, to_static, to_param, to_wildcard, Arrived, MatchEnd, Param}
use go_kitbox.Zallocrout.Tree.Places.{step_eq, on_child}
use go_kitbox.Zallocrout.Tree.Adding.{key}
use go_kitbox.Zallocrout.Tree.Walking.{onward, greedy}
use go_kitbox.Zallocrout.Router.{Answer, find_route}
use go_kitbox.Zallocrout.Router.Found.{build, answer_at, view_answer, names_of, Gives}
use go_kitbox.Zallocrout.Router.Registered.{Route, serves}
use go_kitbox.Zallocrout.Router.Registered.Refines.{
  register, is_for, handler_for, view_for, find_route_refines,
}

-- A way fits the names of a path: a static name is met by itself, a parameter by any name, a wildcard by
-- all names that are left, of which there is one.
pub data Covers : List Step → List Bytes → Type 0 where
  at_end : Covers [] []
  by_static :
      {k : List Step} {names : List Bytes} (name : Bytes)
      → Covers k names
      → Covers (to_static name ∷ k) (name ∷ names)
  by_param :
      {k : List Step} {names : List Bytes} (name : Bytes)
      → Covers k names
      → Covers (to_param ∷ k) (name ∷ names)
  by_wildcard : (name : Bytes) (names : List Bytes) → Covers (to_wildcard ∷ []) (name ∷ names)

abbrev Covered : List Bytes → Option (List Step) → Type 0
Covered names none = Unit
Covered names (some k) = Covers k names

static-Covered :
    (name : Bytes) (names : List Bytes) (o : Option (List Step))
    → Covered names o
    → Covered (name ∷ names) (onward (to_static name) o)
static-Covered name names none c = tt
static-Covered name names (some k) c = by_static name c

param-Covered :
    (name : Bytes) (names : List Bytes) (o : Option (List Step))
    → Covered names o
    → Covered (name ∷ names) (onward to_param o)
param-Covered name names none c = tt
param-Covered name names (some k) c = by_param name c

wildcard-Covered :
    (name : Bytes) (names : List Bytes) (there : Bool)
    → Covered (name ∷ names) (if there then some (to_wildcard ∷ []) else none)
wildcard-Covered name names true = by_wildcard name names
wildcard-Covered name names false = tt

greedy-Covered : (names : List Bytes) (at : List Step → Bool) → Covered names (greedy at names)
unfolding greedy
greedy-Covered [] at = at_end
greedy-Covered (name ∷ names) at =
    either_branch (Covered (name ∷ names)) (at (to_static name ∷ []))
      (static-Covered name names (greedy (λ k. at (to_static name ∷ k)) names)
        (greedy-Covered names (λ k. at (to_static name ∷ k))))
      (either_branch (Covered (name ∷ names)) (at (to_param ∷ []))
        (param-Covered name names (greedy (λ k. at (to_param ∷ k)) names)
          (greedy-Covered names (λ k. at (to_param ∷ k))))
        (wildcard-Covered name names (at (to_wildcard ∷ []))))

both_true : (a b : Bool) → (a && b) ≡ true → (a ≡ true) × (b ≡ true)
both_true true true h = (refl, refl)
both_true true false h = cc
both_true false b h = cc

module _ {H M : Type 0} where
  pub data Among (x : Route H M) : List (Route H M) → Type 0 where
    newest : {older : List (Route H M)} → Among x (x ∷ older)
    older_one : {y : Route H M} {older : List (Route H M)} → Among x older → Among x (y ∷ older)

  -- The route of an answer.
  pub record Served (method : Bytes) (routes : List (Route H M)) (names : List Bytes) (h : H)
      (x : Route H M) : Type 0 where
    pub registered : Among x routes
    pub takes : serves x method ≡ true
    pub handles : x.handler ≡ some h
    pub covers : Covers (key (segments x.path)) names

  handler_for_lem :
      (method : Bytes) (names : List Bytes) (h : H) (routes : List (Route H M)) (k : List Step)
      → Covers k names
      → handler_for method routes k ≡ some h
      → (x : Route H M) × Served method routes names h x
  handler_for_lem method names h [] k c e = cc
  handler_for_lem method names h (x ∷ older) k c e = elim (Bool-cases (is_for x method k)) [
    | inl for_it ↦
        let (takes, way) =
          both_true (serves x method) (list_beq k (key (segments x.path))) for_it in
        let its : (if is_for x method k then x.handler else handler_for method older k)
            ≡ x.handler =
          rw for_it refl in
        (
          x,
          record {
            registered = newest;
            takes = takes;
            handles = sym its ∙ e;
            covers = subst (λ way. Covers way names) (list_beq_eq k (key (segments x.path)) way) c;
          },
        )
    | inr other ↦
        let older_way : (if is_for x method k then x.handler else handler_for method older k)
            ≡ handler_for method older k =
          rw other refl in
        let (y, s) = handler_for_lem method names h older k c (sym older_way ∙ e) in
        (
          y,
          record {
            registered = older_one s.registered;
            takes = s.takes;
            handles = s.handles;
            covers = s.covers;
          },
        )
  ]

  abbrev handler_in : Option (Answer H M) → Option H
  handler_in none = none
  handler_in (some a) = some a.handler

  abbrev pub answer_in : Run MatchEnd (Arrived H M × Answer H M) → Option (Answer H M)
  answer_in (ok (there, a)) = some a
  answer_in (err e) = none
  answer_in panic = none

  build_handler :
      (handler : Option H) (chain : List M) (names : List Bytes) (params : List Param)
      (a : Answer H M)
      → build handler chain names params ≡ some a
      → handler ≡ some a.handler
  build_handler none chain names params a e = cc
  build_handler (some h) chain names params a e = ap handler_in e

  answered :
      (method : Bytes) (routes : List (Route H M)) (names : List Bytes) (a : Answer H M)
      (o : Option (List Step))
      → Covered names o
      → on_child none (answer_at (view_for method routes) names) o ≡ some a
      → (x : Route H M) × Served method routes names a.handler x
  answered method routes names a none c e = cc
  answered method routes names a (some k) c e =
      handler_for_lem method names a.handler routes k c (build_handler _ _ _ _ a e)

  gives_ok :
      (o : Option (Answer H M)) (r : Run MatchEnd (Arrived H M × Answer H M)) (there : Arrived H M)
      (a : Answer H M)
      → Gives o r
      → r ≡ ok (there, a)
      → o ≡ some a
  gives_ok none r there a g e = ap answer_in (sym g ∙ e)
  gives_ok (some a') r there a g e = ap answer_in (sym g.1 ∙ e)

  -- A handler that Match finds without its cache is that of a route that was registered for the method
  -- and accepted, and whose segments fit the names of the path: static ones are equal, a parameter
  -- stands for one name, and a wildcard for all that are left, at least one.
  pub find_route_covers :
      (routes : List (Route H M)) (method : Bytes) (b : ℕ) (bs : Bytes) (there : Arrived H M)
      (a : Answer H M)
      → find_route method (b ∷ bs) (register routes).roots ≡ ok (there, a)
      → (x : Route H M) × Served method routes (names_of (b ∷ bs)) a.handler x
  unfolding view_answer
  find_route_covers routes method b bs there a e =
      answered method routes (names_of (b ∷ bs)) a
        (greedy (view_for method routes).nodes (names_of (b ∷ bs)))
        (greedy-Covered (names_of (b ∷ bs)) (view_for method routes).nodes)
        (gives_ok _ _ there a (find_route_refines routes method b bs) e)
