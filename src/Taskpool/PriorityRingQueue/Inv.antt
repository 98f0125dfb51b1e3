-- ===== src/Taskpool/PriorityRingQueue/Inv.antt =====
-- The buckets as queues of tasks, one behind the other.
use go_kitbox.Prelude.{
  ℕ, zero, suc, ◌+◌, ◌<◌, ◌≡◌, refl, sym, ap, List, [], ◌∷◌, length, get_elem?, get_or, set, some,
  arith,
}
use mathlib.Core.Option.{some-injective, none-ne-some}
use go_kitbox.Taskpool.RingQueue.{RingQueue}
use go_kitbox.Taskpool.RingQueue.Spec.{Fifo}
use go_kitbox.Taskpool.RingQueue.Inv.{Holds}
use go_kitbox.Taskpool.PriorityRingQueue.{PriorityRingQueue}

module _ {A : Type 0} where
  -- Each bucket is valid, and holds its queue.
  pub data Each : List (Fifo A) → List (RingQueue A) → Type 0 where
    none_left : Each [] []
    also :
        {f : Fifo A} {b : RingQueue A} {fs : List (Fifo A)} {bs : List (RingQueue A)}
        → Holds f b
        → Each fs bs
        → Each (f ∷ fs) (b ∷ bs)

  abbrev pub total : List (Fifo A) → ℕ
  total [] = 0
  total (f ∷ fs) = length f.items + total fs

  pub record Levels (fs : List (Fifo A)) (pq : PriorityRingQueue A) : Type 0 where
    pub each : Each fs pq.buckets
    pub as_many : pq.bucket_count ≡ length fs
    pub sum : pq.total_size ≡ total fs

  pub length-Each :
      {fs : List (Fifo A)} {bs : List (RingQueue A)} → Each fs bs → length bs ≡ length fs
  length-Each none_left = refl
  length-Each (also h e) = ap suc (length-Each e)

  pub Each-get :
      (i : ℕ) (d : RingQueue A) {fs : List (Fifo A)} {bs : List (RingQueue A)}
      → Each fs bs
      → i < length fs
      → (f : Fifo A) × (get_elem? fs i ≡ some f) × Holds f (get_or bs i d)
  Each-get i d none_left h = absurd (omega arith)
  Each-get zero d (also {f} h e) l = (f, refl, h)
  Each-get (suc i) d (also h e) l = Each-get i d e (omega arith)

  pub Each-set :
      (i : ℕ) {fs : List (Fifo A)} {bs : List (RingQueue A)} {f : Fifo A} {b : RingQueue A}
      → Holds f b
      → Each fs bs
      → Each (set fs i f) (set bs i b)
  Each-set i k none_left = none_left
  Each-set zero k (also h e) = also k e
  Each-set (suc i) k (also h e) = also h (Each-set i k e)

  -- Putting back a queue changes nothing.
  pub set_same :
      (i : ℕ) (fs : List (Fifo A)) (f : Fifo A) → get_elem? fs i ≡ some f → set fs i f ≡ fs
  set_same i [] f h = refl
  set_same zero (g ∷ fs) f h = ap (λ x. x ∷ fs) (sym (some-injective g f h))
  set_same (suc i) (g ∷ fs) f h = ap (◌∷◌ g) (set_same i fs f h)

  -- Another queue in its place changes the sum by the difference.
  pub total-set :
      (i : ℕ) (fs : List (Fifo A)) (f f' : Fifo A)
      → get_elem? fs i ≡ some f
      → total (set fs i f') + length f.items ≡ total fs + length f'.items
  total-set i [] f f' h = absurd (none-ne-some f h)
  total-set zero (g ∷ fs) f f' h =
      let same : length g.items ≡ length f.items =
        ap (λ x. length x.items) (some-injective g f h) in
      omega (arith, same)
  total-set (suc i) (g ∷ fs) f f' h = omega (arith, total-set i fs f f' h)
