-- ===== src/Taskpool/PriorityRingQueue/Order.antt =====
-- Which task Pop takes: the oldest of the highest level that has one, or of the lowest.
use go_kitbox.Prelude.{
  ℕ, suc, ◌+◌, ◌<◌, ◌≡◌, ◌≢◌, ◌⊎◌, ◌%◌, refl, sym, ap, ◌∙◌, Bool, true, false, List, [], ◌∷◌,
  length, get_elem?, get_or, set, length-set, Option, none, some, arith, ◌==◌,
}
use mathlib.Core.Path.{subst}
use mathlib.Core.Option.{some-injective}
use go_kitbox.Prelude.Run.{Run, load_lem, store_lem, Returns, returns, Returns-map, Returns-bind}
use go_kitbox.Taskpool.RingQueue
use go_kitbox.Taskpool.RingQueue.{RingQueue, Reply, popped, none_ready, err_queue_closed, op_pop}
use go_kitbox.Taskpool.RingQueue.Spec
use go_kitbox.Taskpool.RingQueue.Spec.{Fifo, pop_from, nothing}
use go_kitbox.Taskpool.RingQueue.Inv.{Holds}
use go_kitbox.Taskpool.RingQueue.Refine.{Answers, and-false, queue_step_refines}
use go_kitbox.Taskpool.PriorityRingQueue.{
  PriorityRingQueue, upward, downward, scan, no_bucket, found, order, forced_low, pop, popped_from,
}
use go_kitbox.Taskpool.PriorityRingQueue.Inv.{
  Each, total, Levels, length-Each, Each-get, Each-set, set_same, total-set,
}
use go_kitbox.Taskpool.PriorityRingQueue.Indices.{
  Below, below_end, below, Listed, first, later, order_lem,
}

module _ {A : Type 0} where
  -- The first queue in the order of the indices that has a task gives its oldest one.
  pub data Picks : List ℕ → List (Fifo A) → A → List (Fifo A) → Type 0 where
    here :
        {i : ℕ} {is : List ℕ} {fs : List (Fifo A)} {f : Fifo A} {t : A} {rest : List A}
        → get_elem? fs i ≡ some f
        → f.items ≡ t ∷ rest
        → Picks (i ∷ is) fs t (set fs i (record f { items = rest }))
    skip :
        {i : ℕ} {is : List ℕ} {fs fs' : List (Fifo A)} {f : Fifo A} {t : A}
        → get_elem? fs i ≡ some f
        → f.items ≡ []
        → Picks is fs t fs'
        → Picks (i ∷ is) fs t fs'

  data Empty (fs : List (Fifo A)) : List ℕ → Type 0 where
    empty_end : Empty fs []
    empty :
        {i : ℕ} {is : List ℕ} {f : Fifo A}
        → get_elem? fs i ≡ some f
        → f.items ≡ []
        → Empty fs is
        → Empty fs (i ∷ is)

  -- What a scan of the indices ends with.
  data Scanned (is : List ℕ) (fs : List (Fifo A)) : Option A × List (RingQueue A) → Type 0 where
    nothing_found : {bs : List (RingQueue A)} → Empty fs is → Each fs bs → Scanned is fs (none, bs)
    task_found :
        {bs : List (RingQueue A)} {t : A} {fs' : List (Fifo A)}
        → Picks is fs t fs'
        → Each fs' bs
        → Scanned is fs (some t, bs)

  Scanned-skip :
      {i : ℕ} {is : List ℕ} {fs : List (Fifo A)} {f : Fifo A} {out : Option A × List (RingQueue A)}
      → get_elem? fs i ≡ some f
      → f.items ≡ []
      → Scanned is fs out
      → Scanned (i ∷ is) fs out
  Scanned-skip e n (nothing_found m k) = nothing_found (empty e n m) k
  Scanned-skip e n (task_found p k) = task_found (skip e n p) k

  pop_lem :
      (f : Fifo A) (q : RingQueue A)
      → Holds f q
      → Returns (Answers (pop_from f.shut false f f.items)) (RingQueue.pop false q)
  unfolding RingQueue.step Spec.step
  pop_lem f q h = queue_step_refines (op_pop false) f q h

  -- One bucket of the scan, by the tasks that it has.
  found_lem :
      (items : List A) (shut : Bool) (i : ℕ) {is : List ℕ} {fs : List (Fifo A)}
      {bs : List (RingQueue A)} {f : Fifo A} (reply : Reply A) (b : RingQueue A)
      {go : List (RingQueue A) → Run ⊥ (Option A × List (RingQueue A))}
      → Each fs bs
      → get_elem? fs i ≡ some f
      → f.items ≡ items
      → Answers (pop_from shut false f items) (reply, b)
      → ((bs' : List (RingQueue A)) → Each fs bs' → Returns (Scanned is fs) (go bs'))
      → Returns (Scanned (i ∷ is) fs) (found reply (set bs i b) go)
  found_lem [] true i {fs = fs} {bs = bs} {f = f} reply b k e n (r, h) go = rw r (
      Returns-map (λ out s. Scanned-skip e n s)
        (go (set bs i b) (subst (λ gs. Each gs (set bs i b)) (set_same i fs f e) (Each-set i h k))))
  found_lem [] false i {fs = fs} {bs = bs} {f = f} reply b k e n (r, h) go = rw r (
      Returns-map (λ out s. Scanned-skip e n s)
        (go (set bs i b) (subst (λ gs. Each gs (set bs i b)) (set_same i fs f e) (Each-set i h k))))
  found_lem (t ∷ rest) shut i reply b k e n (r, h) go =
      rw r (returns (task_found (here e n) (Each-set i h k)))

  scan_lem :
      (is : List ℕ) (fs : List (Fifo A)) (bs : List (RingQueue A))
      → Below (length fs) is
      → Each fs bs
      → Returns (Scanned is fs) (scan is bs)
  unfolding scan
  scan_lem [] fs bs below_end k = returns (nothing_found empty_end k)
  scan_lem (i ∷ is) fs bs (below lt more) k =
      let (f, e, h) = Each-get i no_bucket k lt in
      let in_range : i < length bs = omega (arith, lt, length-Each k) in
      rw (load_lem no_bucket bs i in_range) (
        Returns-bind (pop_lem f (get_or bs i no_bucket) h) λ (reply, b) answer.
          rw (store_lem bs i b in_range) (
            found_lem f.items f.shut i reply b k e refl answer
              (λ bs' k'. scan_lem is fs bs' more k')))

  total-Picks :
      {is : List ℕ} {fs fs' : List (Fifo A)} {t : A}
      → Picks is fs t fs'
      → (total fs ≡ suc (total fs')) × (length fs' ≡ length fs)
  total-Picks (here {i} {fs = fs} {f} {rest = rest} e n) =
      let shorter : length f.items ≡ suc (length rest) = ap length n in
      (
        omega (arith, total-set i fs f (record f { items = rest }) e, shorter),
        length-set fs i (record f { items = rest }),
      )
  total-Picks (skip e n p) = total-Picks p

  Empty-Listed :
      {i : ℕ} {fs : List (Fifo A)} (f : Fifo A) {is : List ℕ}
      → Empty fs is
      → Listed i is
      → get_elem? fs i ≡ some f
      → f.items ≡ []
  Empty-Listed f empty_end l h = elim l [ ]
  Empty-Listed f (empty {f = g} e n m) first h =
      ap (λ x. x.items) (some-injective f g (sym h ∙ e)) ∙ n
  Empty-Listed f (empty e n m) (later l) h = Empty-Listed f m l h

  total_zero :
      (fs : List (Fifo A))
      → ((i : ℕ) (f : Fifo A) → i < length fs → get_elem? fs i ≡ some f → f.items ≡ [])
      → total fs ≡ 0
  total_zero [] h = refl
  total_zero (f ∷ fs) h =
      let empty_front : length f.items ≡ 0 = ap length (h 0 f (omega arith) refl) in
      omega (arith, empty_front, total_zero fs (λ i g l e. h (suc i) g (omega arith) e))

  order_low :
      (pq : PriorityRingQueue A)
      → 0 < pq.starvation_n
      → (pq.consume_count + 1) % pq.starvation_n ≡ 0
      → order pq ≡ upward 0 pq.bucket_count
  unfolding order
  order_low pq some_n due = ground (arith, some_n, due)

  order_high :
      (pq : PriorityRingQueue A)
      → (pq.starvation_n ≡ 0) ⊎ ((pq.consume_count + 1) % pq.starvation_n ≢ 0)
      → order pq ≡ downward pq.bucket_count
  unfolding order
  order_high pq not_due = ground (arith, not_due)

  -- How a Pop of a queue that has a task ends: with the task, and one less.
  pub record Took (pq : PriorityRingQueue A) (fs : List (Fifo A))
      (out : Reply A × PriorityRingQueue A) : Type 0 where
    pub task : A
    pub left : List (Fifo A)
    pub replied : out.0 ≡ popped (some task)
    pub from_lowest :
        0 < pq.starvation_n
        → (pq.consume_count + 1) % pq.starvation_n ≡ 0
        → Picks (upward 0 (length fs)) fs task left
    pub from_highest :
        (pq.starvation_n ≡ 0) ⊎ ((pq.consume_count + 1) % pq.starvation_n ≢ 0)
        → Picks (downward (length fs)) fs task left
    pub consumed : out.1.consume_count ≡ pq.consume_count + 1
    pub levels : Levels left out.1

  Took-popped_from :
      (blocking : Bool) (pq : PriorityRingQueue A) (fs : List (Fifo A))
      (out : Option A × List (RingQueue A))
      → Levels fs pq
      → 0 < pq.total_size
      → ((i : ℕ) → i < length fs → Listed i (order pq))
      → Scanned (order pq) fs out
      → Took pq fs (popped_from blocking (record pq { consume_count = pq.consume_count + 1 }) out)
  Took-popped_from blocking pq fs _ v p all (nothing_found m k) =
      let zero_total = total_zero fs (λ i f h e. Empty-Listed f m (all i h) e) in
      absurd (omega (arith, zero_total, v.sum))
  Took-popped_from blocking pq fs _ v p all (task_found {t = t} {fs'} picks k) =
      let (less, same) = total-Picks picks in
      record {
        task = t;
        left = fs';
        replied = refl;
        from_lowest = λ some_n due.
            subst (λ is. Picks is fs t fs')
              (order_low pq some_n due ∙ ap (λ n. upward 0 n) v.as_many) picks;
        from_highest = λ not_due.
            subst (λ is. Picks is fs t fs') (order_high pq not_due ∙ ap (λ n. downward n) v.as_many)
              picks;
        consumed = refl;
        levels = record {
          each = k;
          as_many = omega (arith, same, v.as_many);
          sum = omega (arith, less, v.sum);
        };
      }

  -- Pop of a queue that has a task returns one, whether it blocks or not, and counts itself: the
  -- oldest task of the highest level that has any, or of the lowest one if this is an N-th Pop and the
  -- guard against starvation is on. The other levels stay, and one task less is counted.
  pub pop_takes :
      (blocking : Bool) (fs : List (Fifo A)) (pq : PriorityRingQueue A)
      → Levels fs pq
      → 0 < pq.total_size
      → Returns (Took pq fs) (pop blocking pq)
  unfolding pop order
  pop_takes blocking fs pq v p =
      let (under, all) = order_lem (forced_low pq) pq.bucket_count in
      let more : (pq.total_size == 0) ≡ false = ground arith in
      rw (more, and-false pq.closed)
        (Returns-bind
          (scan_lem (order pq) fs pq.buckets (subst (λ n. Below n (order pq)) v.as_many under)
            v.each)
          λ out scanned. returns (
            Took-popped_from blocking pq fs out v p (λ i h. all i (omega (arith, h, v.as_many)))
              scanned))
