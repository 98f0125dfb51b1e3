-- ===== src/Fillp/Retransmission/Lookups.antt =====
-- What the calls of a RetransmissionQueue do to its entries.
use go_kitbox.Prelude.{
  ℕ, ◌+◌, ◌-◌, ◌<◌, ◌≤◌, ◌≡◌, refl, sym, ◌∙◌, true, false, List, [], ◌∷◌, map, length, Option, none,
  some, ltb, ◌==◌, if◌then◌else◌, arith,
}
use go_kitbox.Prelude.Keys.{nat_eq}
use go_kitbox.Prelude.Maps.{
  lookup, insert, delete, lookup-insert, lookup-insert_self, lookup-delete,
}
use go_kitbox.Prelude.Run.{Run, Returns, returns, Returns-map}
use go_kitbox.Fillp.Retransmission.{
  Entry, RetransmissionQueue, Verdict, leave, forget, stop, cut, payload_len, verdict,
  forget_packet, trim_by, trim_found, trim_loop, trim_up_to, sort_onto, add, remove,
}

-- Every payload ends below 2^32, so that no sequence number wraps.
abbrev pub NoWrap : RetransmissionQueue → Type 0
NoWrap q = (s : ℕ) (e : Entry) → lookup s q.packets ≡ some e → s + payload_len e < 4294967296

-- The entries above the acknowledged number are the ones that were there.
abbrev pub Keeps : ℕ → RetransmissionQueue → RetransmissionQueue → Type 0
Keeps ack q q' = (s : ℕ) → ack < s → lookup s q'.packets ≡ lookup s q.packets

forget-le :
    (ack seq : ℕ) (e : Entry)
    → seq + payload_len e < 4294967296
    → verdict ack seq e ≡ forget
    → seq ≤ ack
unfolding verdict
forget-le ack seq e h p = ground (arith, p)

cut-lt :
    (ack seq : ℕ) (e : Entry)
    → seq + payload_len e < 4294967296
    → verdict ack seq e ≡ cut
    → (seq < ack) × (22 + (ack - seq) ≤ length e.frame)
unfolding verdict
cut-lt ack seq e h p = ground (arith, p)

lookup-delete_above :
    {V : Type 0} (ack seq s : ℕ) (m : List (ℕ × V))
    → seq ≤ ack
    → ack < s
    → lookup s (delete seq m) ≡ lookup s m
lookup-delete_above ack seq s m h k = lookup-delete seq s m ∙ ground arith

lookup-delete-some :
    {V : Type 0} (seq s : ℕ) (m : List (ℕ × V)) (v : V)
    → lookup s (delete seq m) ≡ some v
    → lookup s m ≡ some v
lookup-delete-some seq s m v h =
    let h' : (if seq == s then none else lookup s m) ≡ some v = sym (lookup-delete seq s m) ∙ h in
    ground (arith, h')

lookup-insert_above :
    {V : Type 0} (ack s : ℕ) (v : V) (m : List (ℕ × V))
    → ack < s
    → lookup s (insert ack v m) ≡ lookup s m
lookup-insert_above ack s v m k = lookup-insert ack s v m ∙ ground arith

-- The rest of the loop, from a queue that keeps what is above.
abbrev GoesOn : ℕ → RetransmissionQueue → (RetransmissionQueue → Run ⊥ RetransmissionQueue) → Type 0
GoesOn ack q go =
    (q' : RetransmissionQueue) → NoWrap q' → Keeps ack q q' → Returns (Keeps ack q) (go q')

trim_by_lem :
    (v : Verdict) (ack now seq : ℕ) (e : Entry) (q : RetransmissionQueue)
    {go : RetransmissionQueue → Run ⊥ RetransmissionQueue}
    → NoWrap q
    → lookup seq q.packets ≡ some e
    → verdict ack seq e ≡ v
    → GoesOn ack q go
    → Returns (Keeps ack q) (trim_by v ack now seq e q go)
trim_by_lem leave ack now seq e q n l p go = go q n (λ s h. refl)
trim_by_lem forget ack now seq e q n l p go =
    let le = forget-le ack seq e (n seq e l) p in
    go (forget_packet seq q) (λ s e' h. n s e' (lookup-delete-some seq s q.packets e' h))
      (λ s h. lookup-delete_above ack seq s q.packets le h)
trim_by_lem stop ack now seq e q n l p go = returns (λ s h. refl)
trim_by_lem cut ack now seq e q n l p go =
    let (lt, room) = cut-lt ack seq e (n seq e l) p in
    let fits : ltb (length e.frame) (22 + (ack - seq)) ≡ false = ground (arith, room) in
    rw fits (
      returns (λ s h.
        lookup-insert_above ack s _ (delete seq q.packets) h
        ∙ lookup-delete_above ack seq s q.packets (omega (arith, lt)) h))

trim_found_lem :
    (o : Option Entry) (ack now seq : ℕ) (q : RetransmissionQueue)
    {go : RetransmissionQueue → Run ⊥ RetransmissionQueue}
    → NoWrap q
    → lookup seq q.packets ≡ o
    → GoesOn ack q go
    → Returns (Keeps ack q) (trim_found o ack now seq q go)
trim_found_lem none ack now seq q n l go = go q n (λ s h. refl)
trim_found_lem (some e) ack now seq q n l go =
    trim_by_lem (verdict ack seq e) ack now seq e q n l refl go

trim_loop_lem :
    (ack now : ℕ) (keys : List ℕ) (q : RetransmissionQueue)
    → NoWrap q
    → Returns (Keeps ack q) (trim_loop ack now keys q)
unfolding trim_loop
trim_loop_lem ack now [] q n = returns (λ s h. refl)
trim_loop_lem ack now (seq ∷ keys) q n =
    trim_found_lem (lookup seq q.packets) ack now seq q n refl
      (λ q' n' k. Returns-map (λ q'' k' s h. k' s h ∙ k s h) (trim_loop_lem ack now keys q' n'))

-- If no payload wraps around 2^32, TrimUpTo never slices past the end of a frame, and leaves every
-- entry above the acknowledged number as it was, in whatever order the map is iterated.
pub trim_up_to-Keeps :
    (ack now : ℕ) (q : RetransmissionQueue)
    → NoWrap q
    → Returns (Keeps ack q) (trim_up_to ack now q)
unfolding trim_up_to
trim_up_to-Keeps ack now q n = trim_loop_lem ack now (sort_onto [] (map (λ p. p.0) q.packets)) q n

lookup-delete-insert :
    {V : Type 0} (k s : ℕ) (v : V) (m : List (ℕ × V))
    → lookup s (delete k (insert k v m)) ≡ (if k == s then none else lookup s m)
lookup-delete-insert k s v m =
    lookup-delete k s (insert k v m) ∙ ground (arith, lookup-insert k s v m)

-- Remove of a number that was just added finds it, and takes away its packet and its timer; packets
-- and timers under other numbers are as they were before the Add.
pub remove-add :
    (seq : ℕ) (frame : List ℕ) (now s : ℕ) (q : RetransmissionQueue)
    → let (found, q') = remove seq (add seq frame now q) in
      (found ≡ true)
      × (lookup s q'.packets ≡ (if seq == s then none else lookup s q.packets))
      × (lookup s q'.timer ≡ (if seq == s then none else lookup s q.timer))
unfolding remove add
remove-add seq frame now s q =
    rw (lookup-insert_self seq _ q.packets)
      (refl, lookup-delete-insert seq s _ q.packets, lookup-delete-insert seq s _ q.timer)
