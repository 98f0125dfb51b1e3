-- ===== src/Fillp/Retransmission.antt =====
-- RetransmissionQueue of pkg/fillp/buffer.go. A call holds the mutex throughout. Sequence numbers are
-- uint32, times are in ms. The calls that read the clock take it as `now`.
pub mod Lookups
pub mod Earliest
use go_kitbox.Prelude.{
  ℕ, ◌+◌, ◌-◌, ◌%◌, Bool, true, false, not, ◌||◌, List, [], ◌∷◌, ◌++◌, map, length, get_or, take,
  drop, Option, none, some, ltb, leb, ◌==◌, if◌then◌else◌,
}
use go_kitbox.Prelude.Keys.{nat_eq}
use go_kitbox.Prelude.Maps.{lookup, insert, delete}
use go_kitbox.Prelude.Run.{Run, ok, panic}
use go_kitbox.Fillp.Packet.{uint32_to_bytes}

pub record Entry : Type 0 where
  pub sequence : ℕ
  pub frame : List ℕ  -- Data
  pub timestamp : ℕ
  pub attempts : ℕ
  pub next_retrans : ℕ

pub record Timer : Type 0 where
  pub sequence : ℕ
  pub timeout : ℕ
  pub attempts : ℕ

pub record RetransmissionQueue : Type 0 where
  pub packets : List (ℕ × Entry)
  pub timer : List (ℕ × Timer)

unfoldable pub new_retransmission_queue : RetransmissionQueue
new_retransmission_queue = record { packets = []; timer = [] }

unfoldable pub add : ℕ → List ℕ → ℕ → RetransmissionQueue → RetransmissionQueue
add seq frame timestamp q = record {
  packets =
      insert seq
        (record {
          sequence = seq;
          frame = frame;
          timestamp = timestamp;
          attempts = 0;
          next_retrans = timestamp + 200;
        })
        q.packets;
  timer = insert seq (record { sequence = seq; timeout = timestamp + 200; attempts = 0 }) q.timer;
}

-- the two deletes
abbrev pub forget_packet : ℕ → RetransmissionQueue → RetransmissionQueue
forget_packet seq q = record { packets = delete seq q.packets; timer = delete seq q.timer }

abbrev pub exists : {A : Type 0} → Option A → Bool
exists none = false
exists (some a) = true

unfoldable pub remove : ℕ → RetransmissionQueue → Bool × RetransmissionQueue
remove seq q = if exists (lookup seq q.packets) then (true, forget_packet seq q) else (false, q)

-- The loop of RemoveUpTo. The timers stay.
unfoldable pub remove_below : ℕ → List (ℕ × Entry) → List (ℕ × Entry)
remove_below seq [] = []
remove_below seq ((s, e) ∷ rest) =
    if ltb s seq then remove_below seq rest else (s, e) ∷ remove_below seq rest

unfoldable pub remove_up_to : ℕ → RetransmissionQueue → RetransmissionQueue
unfolding remove_below
remove_up_to seq q = record q { packets = remove_below seq q.packets }

unfoldable pub expired_of : ℕ → List (ℕ × Entry) → List Entry
expired_of now [] = []
expired_of now ((s, e) ∷ rest) =
    if leb e.next_retrans now then e ∷ expired_of now rest else expired_of now rest

unfoldable pub get_expired : ℕ → RetransmissionQueue → List Entry
get_expired now q = expired_of now q.packets

unfoldable pub update : Entry → RetransmissionQueue → RetransmissionQueue
update p q = record q { packets = insert p.sequence p q.packets }

-- The loop of PeekEarliest, from the largest uint32 and no entry.
unfoldable pub earliest : ℕ → Option Entry → List (ℕ × Entry) → Option Entry
earliest min_seq min_entry [] = min_entry
earliest min_seq min_entry ((seq, e) ∷ rest) =
    if ltb seq min_seq then earliest seq (some e) rest else earliest min_seq min_entry rest

unfoldable pub peek_earliest : RetransmissionQueue → Option Entry
unfolding earliest
peek_earliest q = earliest 4294967295 none q.packets

-- The insertion sort of TrimUpTo: a key moves left past the larger ones.
unfoldable pub place : ℕ → List ℕ → List ℕ
place k [] = k ∷ []
place k (j ∷ js) = if ltb k j then k ∷ j ∷ js else j ∷ place k js

unfoldable pub sort_onto : List ℕ → List ℕ → List ℕ
unfolding place
sort_onto sorted [] = sorted
sort_onto sorted (k ∷ ks) = sort_onto (place k sorted) ks

-- What the loop of TrimUpTo does with an entry: leave it, delete it, end, or cut it and end.
pub data Verdict : Type 0 where
  leave forget stop cut : Verdict

abbrev pub payload_len : Entry → ℕ
payload_len e = length e.frame - 22

unfoldable pub verdict : ℕ → ℕ → Entry → Verdict
verdict ack seq e =
    if ltb (length e.frame) 22 || not (get_or e.frame 0 0 == 0)
    then (if ltb seq ack then forget else leave)
    else (if payload_len e == 0
        then (if ltb seq ack then forget else leave)
        else (if leb ((seq + payload_len e) % 4294967296) ack
            then forget
            else (if leb ack seq then stop else cut)))

-- the header with the new sequence number, and the bytes from the acknowledged one on
abbrev pub cut_frame : ℕ → ℕ → List ℕ → List ℕ
cut_frame ack seq frame =
    take 2 frame ++ uint32_to_bytes ack ++ drop 6 (take 22 frame) ++ drop (22 + (ack - seq)) frame

abbrev pub retime : ℕ → ℕ → ℕ → Option Timer → List (ℕ × Timer) → List (ℕ × Timer)
retime ack seq now none timer = timer
retime ack seq now (some t) timer =
    insert ack (record { sequence = ack; timeout = now + 200; attempts = 0 }) (delete seq timer)

abbrev pub cut_packet : ℕ → ℕ → ℕ → Entry → RetransmissionQueue → RetransmissionQueue
cut_packet ack seq now e q = record {
  packets =
      insert ack
        (record e {
          sequence = ack;
          frame = cut_frame ack seq e.frame;
          attempts = 0;
          next_retrans = now + 200;
        })
        (delete seq q.packets);
  timer = retime ack seq now (lookup seq q.timer) q.timer;
}

-- The rest of the loop is `go`. A slice that starts past the end panics.
abbrev pub trim_by :
    Verdict
    → ℕ
    → ℕ
    → ℕ
    → Entry
    → RetransmissionQueue
    → (RetransmissionQueue → Run ⊥ RetransmissionQueue)
    → Run ⊥ RetransmissionQueue
trim_by leave ack now seq e q go = go q
trim_by forget ack now seq e q go = go (forget_packet seq q)
trim_by stop ack now seq e q go = ok q
trim_by cut ack now seq e q go =
    if ltb (length e.frame) (22 + (ack - seq)) then panic else ok (cut_packet ack seq now e q)

abbrev pub trim_found :
    Option Entry
    → ℕ
    → ℕ
    → ℕ
    → RetransmissionQueue
    → (RetransmissionQueue → Run ⊥ RetransmissionQueue)
    → Run ⊥ RetransmissionQueue
trim_found none ack now seq q go = go q
trim_found (some e) ack now seq q go = trim_by (verdict ack seq e) ack now seq e q go

unfoldable pub trim_loop : ℕ → ℕ → List ℕ → RetransmissionQueue → Run ⊥ RetransmissionQueue
trim_loop ack now [] q = ok q
trim_loop ack now (seq ∷ keys) q =
    trim_found (lookup seq q.packets) ack now seq q (λ q'. trim_loop ack now keys q')

unfoldable pub trim_up_to : ℕ → ℕ → RetransmissionQueue → Run ⊥ RetransmissionQueue
unfolding trim_loop sort_onto
trim_up_to ack now q = trim_loop ack now (sort_onto [] (map (λ p. p.0) q.packets)) q

unfoldable pub size : RetransmissionQueue → ℕ
size q = length q.packets

unfoldable pub clear : RetransmissionQueue → RetransmissionQueue
clear q = record { packets = []; timer = [] }
