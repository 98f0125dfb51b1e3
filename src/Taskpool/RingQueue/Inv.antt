-- ===== src/Taskpool/RingQueue/Inv.antt =====
-- The invariant of RingQueue, and what one push and one pop do to the tasks that it holds.
use native.Mathlib.Nat.{mod-add-mod, mod-eq_of_lt}
use native.Mathlib.Numerals.{add-one}
use mathlib.Core.List.{map-append}
use go_kitbox.Prelude.{
  ℕ, suc, ◌+◌, ◌-◌, ◌%◌, ◌≤◌, ◌<◌, ◌≡◌, sym, ap, ◌∙◌, List, [], ◌∷◌, ◌++◌, map, Option, none, some,
  length, length-set, length-map, get_or, set, drop, ◌≢◌, arith,
}
use go_kitbox.Prelude.Run.{Returns, returns, load_lem, store_lem, rem_lem}
use go_kitbox.Prelude.Window.{
  window, length-window, window-push_back, window-set_off, slot_lt, slot_ne, slot_step,
}
use go_kitbox.Taskpool.RingQueue.{RingQueue, Reply, popped, enqueue, dequeue}
use go_kitbox.Taskpool.RingQueue.Spec.{Fifo, append}

pub record IsValid {A : Type 0} (q : RingQueue A) : Type 0 where
  pub positive : 0 < q.capacity
  pub stored : length q.buffer ≡ q.capacity
  pub head_in : q.head < q.capacity
  pub tail_at : q.tail ≡ (q.head + q.size) % q.capacity
  pub size_in : q.size ≤ q.capacity

module _ {A : Type 0} where
  abbrev pub contents : RingQueue A → List (Option A)
  contents q = window none q.capacity q.buffer q.head q.size

  -- The ring is valid, and its live slots hold the items of the queue, none of them nil.
  pub record Holds (f : Fifo A) (q : RingQueue A) : Type 0 where
    pub valid : IsValid q
    pub tasks : contents q ≡ map some f.items
    pub same_cap : q.capacity ≡ f.cap
    pub same_shut : q.closed ≡ f.shut

  pub size_of_Holds : {f : Fifo A} {q : RingQueue A} → Holds f q → q.size ≡ length f.items
  size_of_Holds {f} {q} h =
      sym (length-window none q.capacity q.buffer q.head q.size)
      ∙ ap length h.tasks
      ∙ length-map f.items some

  pub enqueue_lem :
      (f : Fifo A) (q : RingQueue A) (a : A)
      → Holds f q
      → q.size < q.capacity
      → Returns (Holds (append f a)) (enqueue q a)
  unfolding enqueue
  enqueue_lem f q a h r =
      let v = h.valid in
      rw
        (
          store_lem q.buffer q.tail (some a)
              (omega (arith, v, slot_lt (q.head + q.size) q.capacity v.positive)),
          rem_lem (q.tail + 1) q.capacity v.positive,
        )
        (returns (record {
          valid = record {
            positive = v.positive;
            stored = length-set q.buffer q.tail (some a) ∙ v.stored;
            head_in = v.head_in;
            tail_at =
                ap (λ t. (t + 1) % q.capacity) v.tail_at
                ∙ mod-add-mod (q.head + q.size) q.capacity 1
                ∙ ap (λ k. k % q.capacity) (omega arith);
            size_in = omega arith;
          };
          tasks =
              ap (window none q.capacity (set q.buffer q.tail (some a)) q.head) (add-one q.size)
              ∙ ap (λ t. window none q.capacity (set q.buffer t (some a)) q.head (suc q.size))
                  v.tail_at
              ∙ window-push_back none q.capacity q.buffer (some a) q.head q.size v.head_in r
                  (omega (arith, v))
              ∙ ap (λ w. w ++ some a ∷ []) h.tasks
              ∙ sym (map-append some f.items (a ∷ []));
          same_cap = h.same_cap;
          same_shut = h.same_shut;
        }))

  -- The slot at the head lies outside the rest of the window.
  behind :
      (q : RingQueue A) (n : ℕ)
      → IsValid q
      → q.size ≡ suc n
      → (j : ℕ) → j < n
      → q.head ≢ ((q.head + 1) % q.capacity + j) % q.capacity
  behind q n v more j r e = slot_ne 0 (suc j) v.head_in (omega arith) (omega (arith, v)) (
      ap (λ k. k % q.capacity) (omega arith)
      ∙ mod-eq_of_lt v.head_in
      ∙ e
      ∙ slot_step q.head j q.capacity)

  -- What a pop of a non-empty queue returns and leaves.
  abbrev pub Took : Fifo A → A → List A → Reply A × RingQueue A → Type 0
  Took f a rest (reply, q') = (reply ≡ popped (some a)) × Holds (record f { items = rest }) q'

  pub dequeue_lem :
      (f : Fifo A) (q : RingQueue A) (a : A) (rest : List A)
      → Holds f q
      → f.items ≡ a ∷ rest
      → Returns (Took f a rest) (dequeue q)
  unfolding dequeue
  dequeue_lem f q a rest h e =
      let v = h.valid in
      let n = length rest in
      let more : q.size ≡ suc n = size_of_Holds h ∙ ap length e in
      let whole : window none q.capacity q.buffer q.head (suc n) ≡ some a ∷ map some rest =
        ap (window none q.capacity q.buffer q.head) (sym more) ∙ h.tasks ∙ ap (map some) e in
      rw
        (
          load_lem none q.buffer q.head (omega (arith, v)),
          store_lem q.buffer q.head none (omega (arith, v)),
          rem_lem (q.head + 1) q.capacity v.positive,
        )
        (returns (
          ap (λ xs. popped (get_or xs 0 none)) whole,
          record {
            valid = record {
              positive = v.positive;
              stored = length-set q.buffer q.head none ∙ v.stored;
              head_in = slot_lt (q.head + 1) q.capacity v.positive;
              tail_at =
                  v.tail_at
                  ∙ ap (λ k. k % q.capacity) (omega arith)
                  ∙ sym (mod-add-mod (q.head + 1) q.capacity (q.size - 1));
              size_in = omega (arith, v);
            };
            tasks =
                ap (window none q.capacity (set q.buffer q.head none) ((q.head + 1) % q.capacity))
                  (omega arith)
                ∙ window-set_off none q.capacity q.buffer q.head none ((q.head + 1) % q.capacity) n
                    (slot_lt (q.head + 1) q.capacity v.positive) (behind q n v more)
                ∙ ap (drop 1) whole;
            same_cap = h.same_cap;
            same_shut = h.same_shut;
          },
        ))
