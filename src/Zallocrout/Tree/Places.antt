-- ===== src/Zallocrout/Tree/Places.antt =====
-- The nodes of a tree by the way to them.
use go_kitbox.Prelude.{
  ◌≡◌, refl, ap, Bool, true, false, ◌&&◌, List, [], ◌∷◌, Option, none, some, if◌then◌else◌, ◌↔◌,
  arith,
}
use go_kitbox.Prelude.Keys.{Eq, nat_eq, list_eq, list_beq, list_beq_iff}
use go_kitbox.Zallocrout.Paths.{Bytes}
use go_kitbox.Zallocrout.Tree.{
  Info, Node, node, Children, no_child, child, vacant, filled, Step, to_static, to_param,
  to_wildcard, leaf, find_in, find_static_child, find_param_child, find_wildcard_child, grow_child,
  grow_slot, grow,
}

abbrev pub step_beq : Step → Step → Bool
step_beq (to_static s) (to_static t) = list_eq.beq s t
step_beq (to_static s) to_param = false
step_beq (to_static s) to_wildcard = false
step_beq to_param (to_static t) = false
step_beq to_param to_param = true
step_beq to_param to_wildcard = false
step_beq to_wildcard (to_static t) = false
step_beq to_wildcard to_param = false
step_beq to_wildcard to_wildcard = true

static_seg : Step → Bytes
static_seg (to_static seg) = seg
static_seg to_param = []
static_seg to_wildcard = []

pub step_beq_iff : (a b : Step) → (step_beq a b ≡ true) ↔ (a ≡ b)
unfolding static_seg
step_beq_iff (to_static s) (to_static t) =
    (λ h. ap to_static ((list_eq.beq_iff s t).0 h), λ h. (list_eq.beq_iff s t).1 (ap static_seg h))
step_beq_iff (to_static s) to_param = (λ h. cc, λ h. cc)
step_beq_iff (to_static s) to_wildcard = (λ h. cc, λ h. cc)
step_beq_iff to_param (to_static t) = (λ h. cc, λ h. cc)
step_beq_iff to_param to_param = (λ h. refl, λ h. refl)
step_beq_iff to_param to_wildcard = (λ h. cc, λ h. cc)
step_beq_iff to_wildcard (to_static t) = (λ h. cc, λ h. cc)
step_beq_iff to_wildcard to_param = (λ h. cc, λ h. cc)
step_beq_iff to_wildcard to_wildcard = (λ h. refl, λ h. refl)

instance abbrev pub step_eq : Eq Step
step_eq = record { beq = step_beq; beq_iff = step_beq_iff }

abbrev pub on_child : {A X : Type 0} → X → (A → X) → Option A → X
on_child d h none = d
on_child d h (some c) = h c

-- `p` is the start of `k`.
abbrev pub starts : List Step → List Step → Bool
starts [] k = true
starts (a ∷ p) [] = false
starts (a ∷ p) (b ∷ k) = step_beq b a && starts p k

pub bytes_iff : (a b : Bytes) → (list_beq a b ≡ true) ↔ (a ≡ b)
bytes_iff a b = list_beq_iff a b

module _ {H M : Type 0} where
  abbrev pub child_at : Step → Node H M → Option (Node H M)
  child_at (to_static seg) n = find_static_child seg n
  child_at to_param n = find_param_child n
  child_at to_wildcard n = find_wildcard_child n

  abbrev pub node_at : List Step → Node H M → Option (Node H M)
  node_at [] n = some n
  node_at (st ∷ k) n = on_child none (λ c. node_at k c) (child_at st n)

  abbrev pub or_leaf : Info H M → Option (Node H M) → Node H M
  or_leaf new none = leaf new
  or_leaf new (some n) = n

  pub find_in-grow_child :
      (seg asked : Bytes) (new : Info H M) (g : Node H M → Node H M) (cs : Children H M)
      → find_in asked (grow_child seg new g cs) ≡ (
          if list_eq.beq seg asked
          then some (g (or_leaf new (find_in seg cs)))
          else find_in asked cs)
  unfolding grow_child
  find_in-grow_child seg asked new g no_child = refl
  find_in-grow_child seg asked new g (child at n cs) = ground (
    arith,
    find_in-grow_child seg asked new g cs,
    bytes_iff at seg,
    bytes_iff at asked,
    bytes_iff seg asked,
  )

  pub child_at-grow :
      (st asked : Step) (new : Info H M) (g : Node H M → Node H M) (n : Node H M)
      → child_at asked (grow st new g n)
        ≡ (if step_beq st asked then some (g (or_leaf new (child_at st n))) else child_at asked n)
  unfolding grow grow_slot find_static_child find_param_child find_wildcard_child
  child_at-grow (to_static seg) (to_static t) new g (node i cs p w) =
      find_in-grow_child seg t new g cs
  child_at-grow (to_static seg) to_param new g (node i cs p w) = refl
  child_at-grow (to_static seg) to_wildcard new g (node i cs p w) = refl
  child_at-grow to_param (to_static t) new g (node i cs p w) = refl
  child_at-grow to_param to_param new g (node i cs vacant w) = refl
  child_at-grow to_param to_param new g (node i cs (filled n) w) = refl
  child_at-grow to_param to_wildcard new g (node i cs p w) = refl
  child_at-grow to_wildcard (to_static t) new g (node i cs p w) = refl
  child_at-grow to_wildcard to_param new g (node i cs p w) = refl
  child_at-grow to_wildcard to_wildcard new g (node i cs p vacant) = refl
  child_at-grow to_wildcard to_wildcard new g (node i cs p (filled n)) = refl
