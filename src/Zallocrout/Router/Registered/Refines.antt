-- ===== src/Zallocrout/Router/Registered/Refines.antt =====
-- The router refines the list of its routes: what Match finds is determined by the routes that were
-- registered, the last one first.
use go_kitbox.Prelude.{
  ◌≡◌, refl, ap, ap₂, ◌∙◌, Bool, true, false, not, ◌&&◌, ◌||◌, List, [], ◌∷◌, Option, none, length,
  ltb, if◌then◌else◌, ℕ,
}
use mathlib.Core.Path.{subst}
use go_kitbox.Prelude.Keys.{list_beq, list_eq, nat_eq}
use go_kitbox.Prelude.Maps.{lookup}
use go_kitbox.Zallocrout.Paths.{Bytes}
use go_kitbox.Zallocrout.Paths.Segments.{segments}
use go_kitbox.Zallocrout.Tree.{Step, set_handler_with_params}
use go_kitbox.Zallocrout.Tree.Places.{step_eq, starts}
use go_kitbox.Zallocrout.Tree.Adding.{key}
use go_kitbox.Zallocrout.Tree.Labels.{labels, label_at}
use go_kitbox.Zallocrout.Router.{Router, new_router, param_names_of, find_route}
use go_kitbox.Zallocrout.Router.Found.{
  View, root_field, view_of, view_answer, names_of, Gives, find_route-view,
}
use go_kitbox.Zallocrout.Router.Registered.{
  Route, serves, added, root_field-added, nodes-added, labels-added,
}

module _ {H M : Type 0} where
  unfoldable pub register : List (Route H M) → Router H M
  register [] = new_router
  register (x ∷ older) = added x (register older)

  -- The route is for exactly that way.
  abbrev pub is_for : Route H M → Bytes → List Step → Bool
  is_for x method k = serves x method && list_beq k (key (segments x.path))

  -- Whether some route of the method starts with a way.
  abbrev pub known : Bytes → List (Route H M) → List Step → Bool
  known method [] k = false
  known method (x ∷ older) k =
      (serves x method && starts k (key (segments x.path))) || known method older k

  -- The handler of the last route for a way.
  abbrev pub handler_for : Bytes → List (Route H M) → List Step → Option H
  handler_for method [] k = none
  handler_for method (x ∷ older) k =
      if is_for x method k then x.handler else handler_for method older k

  -- The middlewares and the names of the last route for a way that has some.
  abbrev pub chain_for : Bytes → List (Route H M) → List Step → List M
  chain_for method [] k = []
  chain_for method (x ∷ older) k =
      if is_for x method k
      then (if ltb 0 (length x.middlewares) then x.middlewares else chain_for method older k)
      else chain_for method older k

  abbrev pub names_for : Bytes → List (Route H M) → List Step → List Bytes
  names_for method [] k = []
  names_for method (x ∷ older) k =
      let names = param_names_of (segments x.path) in
      if is_for x method k
      then (if ltb 0 (length names) then names else names_for method older k)
      else names_for method older k

  -- The name that the first route through a node gave to it.
  abbrev pub label_for : Bytes → List (Route H M) → List Step → Bytes
  label_for method [] k = []
  label_for method (x ∷ older) k =
      if serves x method && not (known method older k)
      then label_at (labels (segments x.path)) k
      else label_for method older k

  abbrev pub view_for : Bytes → List (Route H M) → View H M
  view_for method routes = record {
    nodes = known method routes;
    handlers = handler_for method routes;
    chains = chain_for method routes;
    route_names = names_for method routes;
    node_names = label_for method routes;
  }

  module _ (method : Bytes) where
    nodes_lem :
        (routes : List (Route H M)) (k : List Step)
        → root_field (λ _. true) false (lookup method (register routes).roots) k
          ≡ known method routes k
    unfolding register new_router lookup
    nodes_lem [] k = refl
    nodes_lem (x ∷ older) k =
        nodes-added x method k (register older)
        ∙ ap (λ b. (serves x method && starts k (key (segments x.path))) || b) (nodes_lem older k)

    handlers_lem :
        (routes : List (Route H M)) (k : List Step)
        → root_field (λ i. i.handler) none (lookup method (register routes).roots) k
          ≡ handler_for method routes k
    unfolding register new_router lookup set_handler_with_params
    handlers_lem [] k = refl
    handlers_lem (x ∷ older) k =
        root_field-added (λ i. i.handler) none (λ _. x.handler) x (λ i. refl) refl (λ s. refl)
          (λ s. refl) (λ s. refl) method k (register older)
        ∙ ap (λ h. if is_for x method k then x.handler else h) (handlers_lem older k)

    chains_lem :
        (routes : List (Route H M)) (k : List Step)
        → root_field (λ i. i.middlewares) [] (lookup method (register routes).roots) k
          ≡ chain_for method routes k
    unfolding register new_router lookup set_handler_with_params
    chains_lem [] k = refl
    chains_lem (x ∷ older) k =
        root_field-added (λ i. i.middlewares) []
          (λ old. if ltb 0 (length x.middlewares) then x.middlewares else old) x (λ i. refl) refl
          (λ s. refl) (λ s. refl) (λ s. refl) method k (register older)
        ∙ ap
            (λ old.
              if is_for x method k
              then (if ltb 0 (length x.middlewares) then x.middlewares else old)
              else old)
            (chains_lem older k)

    names_lem :
        (routes : List (Route H M)) (k : List Step)
        → root_field (λ i. i.param_names) [] (lookup method (register routes).roots) k
          ≡ names_for method routes k
    unfolding register new_router lookup set_handler_with_params
    names_lem [] k = refl
    names_lem (x ∷ older) k =
        let names = param_names_of (segments x.path) in
        root_field-added (λ i. i.param_names) []
          (λ old. if ltb 0 (length names) then names else old) x (λ i. refl) refl (λ s. refl)
          (λ s. refl) (λ s. refl) method k (register older)
        ∙ ap
            (λ old.
              if is_for x method k then (if ltb 0 (length names) then names else old) else old)
            (names_lem older k)

    labels_lem :
        (routes : List (Route H M)) (k : List Step)
        → root_field (λ i. i.param_name) [] (lookup method (register routes).roots) k
          ≡ label_for method routes k
    unfolding register new_router lookup
    labels_lem [] k = refl
    labels_lem (x ∷ older) k =
        labels-added x method k (register older)
        ∙ ap₂ (λ b l. if serves x method && not b then label_at (labels (segments x.path)) k else l)
            (nodes_lem older k) (labels_lem older k)

    view_lem :
        (routes : List (Route H M))
        → view_of (lookup method (register routes).roots) ≡ view_for method routes
    view_lem routes = λ i. record {
      nodes = λ k. nodes_lem routes k i;
      handlers = λ k. handlers_lem routes k i;
      chains = λ k. chains_lem routes k i;
      route_names = λ k. names_lem routes k i;
      node_names = λ k. labels_lem routes k i;
    }

  -- Whatever routes were registered, accepted or not, and whatever the path that is asked for, except
  -- the empty one: Match without its cache neither panics nor runs on, and finds what the list of the
  -- routes says. The names of the path, with `.` and `..` resolved, are followed by the way that takes at
  -- each name a route with that static name, or else one with a parameter, or else a wildcard, without
  -- taking a choice back; the handler is that of the last route for this way, and the middlewares those
  -- of the last one that gave some. The values are what the parameters and the wildcard of the way stand
  -- for, at most 32. They are named by the last route for the way that has parameters, if it has as many
  -- as there are values; otherwise, so for a parameter followed by a wildcard, each has the name that the
  -- first route through its node gave to it, which may be another route's, and `*` for a wildcard.
  pub find_route_refines :
      (routes : List (Route H M)) (method : Bytes) (b : ℕ) (bs : Bytes)
      → Gives
          (view_answer (view_for method routes) (names_of (b ∷ bs)))
          (find_route method (b ∷ bs) (register routes).roots)
  find_route_refines routes method b bs =
      subst
        (λ v.
          Gives (view_answer v (names_of (b ∷ bs)))
            (find_route method (b ∷ bs) (register routes).roots))
        (view_lem method routes) (find_route-view method b bs (register routes).roots)
