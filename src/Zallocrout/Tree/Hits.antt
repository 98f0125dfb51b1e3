-- ===== src/Zallocrout/Tree/Hits.antt =====
-- A hit that is counted at a node changes its counter, and nothing that Match reads.
use go_kitbox.Prelude.{
  ℕ, ◌≡◌, refl, sym, ap, ◌∙◌, List, [], ◌∷◌, Option, none, some, Option-cases, Bool-cases, inl, inr,
}
use Prim.{Unit, tt}
use mathlib.Core.Path.{subst}
use go_kitbox.Prelude.Run.{Run, ok, err, panic, ◌>>=◌, Run-cases}
use go_kitbox.Zallocrout.Paths.{Bytes}
use go_kitbox.Zallocrout.Tree.{
  Info, Node, node, Step, to_static, to_param, to_wildcard, Param, Arrived, MatchEnd, after_step,
  blank, change_at, walk, slice_from, find_static_child, find_param_child, find_wildcard_child,
}
use go_kitbox.Zallocrout.Tree.Places.{step_beq, step_beq_iff, child_at, node_at, on_child, or_leaf}
use go_kitbox.Zallocrout.Tree.Adding.{field_at, info-grow, grown_child, other_child}

module _ {H M : Type 0} where
  -- A node on a way that there is has a child for the first step.
  first_child :
      (st : Step) (trail : List Step) (n c : Node H M)
      → node_at (st ∷ trail) n ≡ some c
      → (m : Node H M) × (child_at st n ≡ some m) × (node_at trail m ≡ some c)
  first_child st trail n c e = elim (Option-cases (child_at st n)) [
    | inl gone ↦ cc (sym e ∙ ap (on_child none (λ m. node_at trail m)) gone)
    | inr (m, here) ↦ (m, here, sym (ap (on_child none (λ m'. node_at trail m')) here) ∙ e)
  ]

  module _ {X : Type 0} (f : Info H M → X) (d : X) (change : Info H M → Info H M)
      (keeps : (i : Info H M) → f (change i) ≡ f i) where
    unchanged_child :
        (k : List Step) (o : Option (Node H M)) (m : Node H M) (g : Node H M → Node H M)
        → o ≡ some m
        → field_at f d k (g m) ≡ field_at f d k m
        → on_child d (λ c. field_at f d k c) (some (g (or_leaf blank o)))
          ≡ on_child d (λ c. field_at f d k c) o
    unchanged_child k none m g e h = cc
    unchanged_child k (some m') m g e h =
        let same : m ≡ m' = cc e in subst (λ x. field_at f d k (g x) ≡ field_at f d k x) same h

    -- A change of the node at the end of a way that there is shows in no field that the change keeps.
    pub field_at-change_at :
        (trail k : List Step) (n c : Node H M)
        → node_at trail n ≡ some c
        → field_at f d k (change_at trail change n) ≡ field_at f d k n
    unfolding change_at find_static_child find_param_child find_wildcard_child
    field_at-change_at [] [] (node i cs p w) c e = keeps i
    field_at-change_at [] (to_static seg ∷ k) (node i cs p w) c e = refl
    field_at-change_at [] (to_param ∷ k) (node i cs p w) c e = refl
    field_at-change_at [] (to_wildcard ∷ k) (node i cs p w) c e = refl
    field_at-change_at (st ∷ trail) [] n c e = ap f (info-grow st blank (change_at trail change) n)
    field_at-change_at (st ∷ trail) (asked ∷ k) n c e =
        let (m, here, further) = first_child st trail n c e in
        let below = field_at-change_at trail k m c further in
        elim (Bool-cases (step_beq st asked)) [
          | inl same ↦
              let eq : st ≡ asked = (step_beq_iff st asked).0 same in
              ap (on_child d (λ c'. field_at f d k c'))
                (grown_child st asked blank (change_at trail change) n same)
              ∙ unchanged_child k (child_at asked n) m (change_at trail change)
                  (ap (λ s. child_at s n) (sym eq) ∙ here) below
          | inr other ↦
              ap (on_child d (λ c'. field_at f d k c'))
                (other_child st asked blank (change_at trail change) n other)
        ]

  -- The way to the node where the loop of Match ends.
  abbrev pub Leads : Node H M → Run MatchEnd (Arrived H M) → Type 0
  Leads n (ok a) = node_at a.trail n ≡ some a.current
  Leads n (err e) = Unit
  Leads n panic = Unit

  onward_Leads :
      (st : Step) (n c : Node H M) (r : Run MatchEnd (Arrived H M))
      → child_at st n ≡ some c
      → Leads c r
      → Leads n (r >>= λ a. ok (after_step st a))
  onward_Leads st n c (ok a) e h = ap (on_child none (λ m. node_at a.trail m)) e ∙ h
  onward_Leads st n c (err x) e h = tt
  onward_Leads st n c panic e h = tt

  pub walk-Leads :
      (path : Bytes) (segs : List Bytes) (pos : ℕ) (params : List Param) (n : Node H M)
      → Leads n (walk path segs pos params n)
  unfolding walk
  walk-Leads path [] pos params n = refl
  walk-Leads path (seg ∷ segs) pos params n = elim (Option-cases (find_static_child seg n)) [
    | inr (c, e) ↦
        rw (e, walk) (onward_Leads (to_static seg) n c _ e (walk-Leads path segs _ params c))
    | inl no_static ↦ elim (Option-cases (find_param_child n)) [
      | inr (c, e) ↦
          rw (no_static, e, walk) (onward_Leads to_param n c _ e (walk-Leads path segs _ _ c))
      | inl no_param ↦ elim (Option-cases (find_wildcard_child n)) [
        | inr (c, e) ↦ elim (Run-cases (slice_from path pos)) [
          | inl (remaining, s) ↦
              rw (no_static, no_param, e, s, walk) (ap (on_child none (λ m. some m)) e)
          | inr (inl (x, s)) ↦ rw (no_static, no_param, e, s, walk) tt
          | inr (inr s) ↦ rw (no_static, no_param, e, s, walk) tt
        ]
        | inl no_wildcard ↦ rw (no_static, no_param, no_wildcard, walk) tt
      ]
    ]
  ]
