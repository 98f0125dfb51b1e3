-- ===== src/Taskpool/RingQueue/History.antt =====
-- What becomes of the tasks over a whole interleaving: none is lost, doubled or overtaken.
use go_kitbox.Prelude.{
  ◌<◌, length, arith, ◌≡◌, refl, sym, ap, ◌∙◌, true, false, List, [], ◌∷◌, ◌++◌, append-nil,
  append_assoc,
}
use mathlib.Core.Path.{subst}
use go_kitbox.Prelude.Run.{Returns, Returns-map}
use go_kitbox.Taskpool.RingQueue.{RingQueue, Reply, pushed, Op, op_batch_resume, run, step}
use go_kitbox.Taskpool.RingQueue.Spec
use go_kitbox.Taskpool.RingQueue.Spec.{Fifo, append, is_full, push_with, pop_from, stall}
use go_kitbox.Taskpool.RingQueue.Inv.{Holds}
use go_kitbox.Taskpool.RingQueue.Refine.{Answers, queue_run_refines, queue_step_refines}
use go_kitbox.Taskpool.RingQueue.Effects.{delivered, Accepts, stop, next, step-Effect}

module _ {A : Type 0} where
  -- The tasks at the start and those accepted are those delivered and those left, in this order.
  abbrev pub Balanced : List (Op A) → Fifo A → List (Reply A) → Fifo A → Type 0
  Balanced ops f replies f' =
      (acc : List A) × Accepts ops replies acc × (f.items ++ acc ≡ delivered replies ++ f'.items)

  spec_Balanced :
      (ops : List (Op A)) (f : Fifo A) → Balanced ops f (Spec.run ops f).0 (Spec.run ops f).1
  unfolding Spec.run
  spec_Balanced [] f = ([], stop, append-nil f.items)
  spec_Balanced (op ∷ ops) f =
      let s = step-Effect op f in
      let (acc, taken, balance) = spec_Balanced ops (Spec.step op f).1 in
      let rs = (Spec.run ops (Spec.step op f).1).0 in
      let items = (Spec.run ops (Spec.step op f).1).1.items in
      (
        s.added ++ acc,
        next s.taken taken,
        sym (append_assoc f.items s.added acc)
            ∙ ap (λ xs. xs ++ acc) s.moved
            ∙ append_assoc s.gave (Spec.step op f).1.items acc
            ∙ ap (λ xs. s.gave ++ xs) balance
            ∙ sym (append_assoc s.gave (delivered rs) items)
            ∙ ap (λ xs. xs ++ items) (sym (s.seen rs)),
      )

  -- Over any interleaving of attempts on a valid ring, no attempt panics, and the tasks at the start and
  -- those accepted, in the order of the attempts, are those delivered and those still in the ring, in this
  -- order. Accepted, by the replies, are: the task of each Push that reports success, and of no other; all
  -- tasks of a BatchPush that reports success; of one that waits, those before the ones it waits with; and
  -- of one that reports a closed queue none, unless it was woken, and then some first part.
  pub run_conserves :
      (ops : List (Op A)) (f : Fifo A) (q : RingQueue A)
      → Holds f q
      → Returns
          (λ (replies, q'). (f' : Fifo A) × Holds f' q' × Balanced ops f replies f')
          (run ops q)
  run_conserves ops f q h =
      Returns-map
        (λ (replies, q') (e, h'). (
          (Spec.run ops f).1,
          h',
          subst (λ rs. Balanced ops f rs (Spec.run ops f).1) (sym e) (spec_Balanced ops f),
        ))
        (queue_run_refines ops f q h)

  fill_one :
      (a : A) (f : Fifo A)
      → length f.items < f.cap
      → Spec.step (op_batch_resume (a ∷ [])) f ≡ (pushed, append f a)
  unfolding Spec.step Spec.fill
  fill_one a f room = let not_full : is_full f ≡ false = ground arith in rw not_full refl

  -- A BatchPush that was woken after Close, with room for its last task, still puts the task into
  -- the closed queue and reports success.
  pub batch_after_close :
      (a : A) (f : Fifo A) (q : RingQueue A)
      → Holds f q
      → f.shut ≡ true
      → length f.items < f.cap
      → Returns
          (λ out. (out.0 ≡ pushed) × Holds (append f a) out.1 × (out.1.closed ≡ true))
          (step (op_batch_resume (a ∷ [])) q)
  batch_after_close a f q h shut room =
      Returns-map (λ out (e, k). (e, k, k.same_shut ∙ shut))
        (subst (λ want. Returns (Answers want) (step (op_batch_resume (a ∷ [])) q))
          (fill_one a f room) (queue_step_refines (op_batch_resume (a ∷ [])) f q h))
