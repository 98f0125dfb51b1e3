-- ===== src/Taskpool/RingQueue/Effects.antt =====
-- What one attempt on the bounded queue takes in and gives out.
use go_kitbox.Prelude.{
  ◌≡◌, ◌≢◌, refl, sym, ap, ◌∙◌, Bool, true, false, List, [], ◌∷◌, ◌++◌, append-nil, append_assoc,
  none, some, if◌then◌else◌,
}
use go_kitbox.Taskpool.RingQueue.{
  Reply, pushed, popped, waits, err_queue_closed, err_queue_full, none_ready, batch_waits, Op,
  op_push, op_pop, op_batch, op_batch_resume, op_close,
}
use go_kitbox.Taskpool.RingQueue.Spec
use go_kitbox.Taskpool.RingQueue.Spec.{Fifo, append, is_full, push_with, pop_from, stall}

module _ {A : Type 0} where
  -- The tasks that the Pops of the interleaving returned, in order.
  abbrev pub delivered : List (Reply A) → List A
  delivered [] = []
  delivered (popped (some a) ∷ rs) = a ∷ delivered rs
  delivered (popped none ∷ rs) = delivered rs
  delivered (pushed ∷ rs) = delivered rs
  delivered (none_ready ∷ rs) = delivered rs
  delivered (err_queue_closed ∷ rs) = delivered rs
  delivered (err_queue_full ∷ rs) = delivered rs
  delivered (waits ∷ rs) = delivered rs
  delivered (batch_waits as' ∷ rs) = delivered rs

  -- What a BatchPush has put into the queue, by its reply: all of its tasks; those before the ones that
  -- it waits with; or, if it was woken on a closed queue and filled it, some first part.
  pub data Batched (woken : Bool) (as' : List A) : Reply A → List A → Type 0 where
    whole : Batched woken as' pushed as'
    until : {p : List A} (left : List A) → as' ≡ p ++ left → Batched woken as' (batch_waits left) p
    cut :
        {p : List A} (left : List A)
        → woken ≡ true
        → as' ≡ p ++ left
        → Batched woken as' err_queue_closed p

  -- What an attempt has put into the queue, by its reply: a Push its task if it reports success, and
  -- nothing otherwise.
  pub data Takes : Op A → Reply A → List A → Type 0 where
    task : {a : A} {blocking : Bool} → Takes (op_push a blocking) pushed (a ∷ [])
    refused :
        {a : A} {blocking : Bool} {reply : Reply A}
        → reply ≢ pushed
        → Takes (op_push a blocking) reply []
    pops : {blocking : Bool} {reply : Reply A} → Takes (op_pop blocking) reply []
    batch :
        {as' p : List A} {reply : Reply A}
        → Batched false as' reply p
        → Takes (op_batch as') reply p
    batch_closed : {as' : List A} → Takes (op_batch as') err_queue_closed []
    batch_woken :
        {as' p : List A} {reply : Reply A}
        → Batched true as' reply p
        → Takes (op_batch_resume as') reply p
    closes : {reply : Reply A} → Takes op_close reply []

  -- The tasks that the attempts report as accepted.
  pub data Accepts : List (Op A) → List (Reply A) → List A → Type 0 where
    stop : Accepts [] [] []
    next :
        {op : Op A} {ops : List (Op A)} {reply : Reply A} {replies : List (Reply A)}
        {p acc : List A}
        → Takes op reply p
        → Accepts ops replies acc
        → Accepts (op ∷ ops) (reply ∷ replies) (p ++ acc)

  -- What one attempt adds behind the queue and delivers from its front.
  pub record Effect (op : Op A) (f : Fifo A) (out : Reply A × Fifo A) : Type 0 where
    pub added : List A
    pub gave : List A
    pub taken : Takes op out.0 added
    pub moved : f.items ++ added ≡ gave ++ out.1.items
    pub seen : (rs : List (Reply A)) → delivered (out.0 ∷ rs) ≡ gave ++ delivered rs

  Effect-same :
      {op : Op A} (f : Fifo A) (reply : Reply A)
      → Takes op reply []
      → ((rs : List (Reply A)) → delivered (reply ∷ rs) ≡ delivered rs)
      → Effect op f (reply, f)
  Effect-same f reply t q = record {
    added = [];
    gave = [];
    taken = t;
    moved = append-nil f.items;
    seen = q;
  }

  push_Effect :
      (shut full blocking : Bool) (a : A) (f : Fifo A)
      → Effect (op_push a blocking) f (push_with shut full blocking a f)
  push_Effect true full blocking a f =
      Effect-same f err_queue_closed (refused (λ e. cc e)) (λ rs. refl)
  push_Effect false true true a f = Effect-same f waits (refused (λ e. cc e)) (λ rs. refl)
  push_Effect false true false a f = Effect-same f err_queue_full (refused (λ e. cc e)) (λ rs. refl)
  push_Effect false false blocking a f = record {
    added = a ∷ [];
    gave = [];
    taken = task;
    moved = refl;
    seen = λ rs. refl;
  }

  pop_Effect :
      (shut blocking : Bool) (f : Fifo A) (items : List A)
      → f.items ≡ items
      → Effect (op_pop blocking) f (pop_from shut blocking f items)
  pop_Effect true blocking f [] e = Effect-same f err_queue_closed pops (λ rs. refl)
  pop_Effect false true f [] e = Effect-same f waits pops (λ rs. refl)
  pop_Effect false false f [] e = Effect-same f none_ready pops (λ rs. refl)
  pop_Effect shut blocking f (a ∷ rest) e = record {
    added = [];
    gave = a ∷ [];
    taken = pops;
    moved = append-nil f.items ∙ e;
    seen = λ rs. refl;
  }

  -- The loop of BatchPush adds a first part of its tasks, and delivers nothing.
  pub record Filled (woken : Bool) (as' : List A) (f : Fifo A) (out : Reply A × Fifo A)
      : Type 0 where
    pub first : List A
    pub taken : Batched woken as' out.0 first
    pub grown : out.1.items ≡ f.items ++ first
    pub quiet : (rs : List (Reply A)) → delivered (out.0 ∷ rs) ≡ delivered rs

  Filled-stop :
      (woken : Bool) (as' : List A) (f : Fifo A) (reply : Reply A)
      → Batched woken as' reply []
      → ((rs : List (Reply A)) → delivered (reply ∷ rs) ≡ delivered rs)
      → Filled woken as' f (reply, f)
  Filled-stop woken as' f reply t q = record {
    first = [];
    taken = t;
    grown = sym (append-nil f.items);
    quiet = q;
  }

  Batched-next :
      (woken : Bool) (a : A) (as' : List A) {reply : Reply A} {p : List A}
      → Batched woken as' reply p
      → Batched woken (a ∷ as') reply (a ∷ p)
  Batched-next woken a as' whole = whole
  Batched-next woken a as' (until left e) = until left (ap (◌∷◌ a) e)
  Batched-next woken a as' (cut left w e) = cut left w (ap (◌∷◌ a) e)

  Filled-next :
      (woken full shut : Bool) (a : A) (as' : List A) (f : Fifo A) {out : Reply A × Fifo A}
      → (shut ≡ true → woken ≡ true)
      → Filled woken as' (append f a) out
      → Filled woken (a ∷ as') f (if full then (stall shut (a ∷ as'), f) else out)
  Filled-next woken true true a as' f h r =
      Filled-stop woken (a ∷ as') f err_queue_closed (cut (a ∷ as') (h refl) refl) (λ rs. refl)
  Filled-next woken true false a as' f h r =
      Filled-stop woken (a ∷ as') f (batch_waits (a ∷ as')) (until (a ∷ as') refl) (λ rs. refl)
  Filled-next woken false shut a as' f h r = record {
    first = a ∷ r.first;
    taken = Batched-next woken a as' r.taken;
    grown = r.grown ∙ append_assoc f.items (a ∷ []) r.first;
    quiet = r.quiet;
  }

  fill-Filled :
      (woken : Bool) (as' : List A) (f : Fifo A)
      → (f.shut ≡ true → woken ≡ true)
      → Filled woken as' f (Spec.fill as' f)
  unfolding Spec.fill
  fill-Filled woken [] f h = Filled-stop woken [] f pushed whole (λ rs. refl)
  fill-Filled woken (a ∷ as') f h =
      Filled-next woken (is_full f) f.shut a as' f h (fill-Filled woken as' (append f a) h)

  Filled-Effect :
      (woken : Bool) (op : Op A) (as' : List A) (f : Fifo A) {out : Reply A × Fifo A}
      → ((p : List A) (reply : Reply A) → Batched woken as' reply p → Takes op reply p)
      → Filled woken as' f out
      → Effect op f out
  Filled-Effect woken op as' f takes r = record {
    added = r.first;
    gave = [];
    taken = takes _ _ r.taken;
    moved = sym r.grown;
    seen = r.quiet;
  }

  batch_Effect :
      (shut : Bool) (as' : List A) (f : Fifo A)
      → f.shut ≡ shut
      → Effect (op_batch as') f (if shut then (err_queue_closed, f) else Spec.fill as' f)
  batch_Effect true as' f e = Effect-same f err_queue_closed batch_closed (λ rs. refl)
  batch_Effect false as' f e =
      Filled-Effect false (op_batch as') as' f (λ p reply b. batch b)
        (fill-Filled false as' f (λ h. sym e ∙ h))

  pub step-Effect : (op : Op A) (f : Fifo A) → Effect op f (Spec.step op f)
  unfolding Spec.step
  step-Effect (op_push a blocking) f = push_Effect f.shut (is_full f) blocking a f
  step-Effect (op_pop blocking) f = pop_Effect f.shut blocking f f.items refl
  step-Effect (op_batch as') f = batch_Effect f.shut as' f refl
  step-Effect (op_batch_resume as') f =
      Filled-Effect true (op_batch_resume as') as' f (λ p reply b. batch_woken b)
        (fill-Filled true as' f (λ h. refl))
  step-Effect op_close f = record {
    added = [];
    gave = [];
    taken = closes;
    moved = append-nil f.items;
    seen = λ rs. refl;
  }
