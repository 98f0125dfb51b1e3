-- ===== src/Congestion/Runs.antt =====
-- The four algorithms as Controllers, and what follows for every run of one.
use go_kitbox.Prelude.{ℕ, ◌/◌, ◌≡◌, refl, ◌∙◌, either_branch, List, ◌||◌, ◌==◌, arith}
use go_kitbox.Prelude.Int.{ℤ, pos, ◌-ℤ◌}
use go_kitbox.Prelude.Run.{Run, ok, Returns, returns}
use go_kitbox.Congestion.Float.{Floats}
use go_kitbox.Congestion.Base.{Base, take_ack, settle}
use go_kitbox.Congestion.Bounds.{InBounds, SameConfig, take_ack_lem, settle_lem, on_packet_sent_lem}
use go_kitbox.Congestion.Interface.{
  Signal, sent, ack, lost, Controller, run, run_lem, in_flight_after, in_flight_all,
}
use go_kitbox.Congestion.Reno.{Reno, reno_sent, reno_ack, reno_lost}
use go_kitbox.Congestion.Reno.Windows.{reno_ack_lem, reno_lost_lem}
use go_kitbox.Congestion.Vegas.{Vegas, vegas_sent, vegas_ack, vegas_lost}
use go_kitbox.Congestion.Cubic.{Cubic, cubic_sent, cubic_ack, cubic_lost}
use go_kitbox.Congestion.Bbr.{
  Bbr, BbrState, startup, drain, probe_bw, probe_rtt, bbr_sent, bbr_ack, bbr_lost, advance,
  update_bandwidth,
}

module _ {fl : Floats} where
  -- A step that ends in `settle` on a controller with the configuration and the flight given.
  settled :
      (now w : ℕ) (b b' : Base fl) {f : ℤ}
      → InBounds b
      → SameConfig b b'
      → b'.in_flight ≡ f
      → InBounds (settle fl now w b') × ((settle fl now w b').in_flight ≡ f)
  settled now w b b' v same e =
      let (bounds, same', flight) =
        settle_lem now w b' (omega (arith, v, same)) (omega (arith, v, same)) in
      (bounds, flight ∙ e)

  abbrev pub Good : (S : Type 0) → (S → Base fl) → Signal → S → S → Type 0
  Good S base signal s s' =
      InBounds (base s') × ((base s').in_flight ≡ in_flight_after signal (base s).in_flight)

  pub reno_handle : Signal → Reno fl → Run ⊥ (Reno fl)
  reno_handle (sent n) r = ok (reno_sent fl n r)
  reno_handle (ack n rtt now) r = reno_ack fl n rtt now r
  reno_handle (lost now) r = ok (reno_lost fl now r)

  pub reno_handle_lem :
      (signal : Signal) (r : Reno fl)
      → InBounds r.base
      → Returns (Good (Reno fl) (λ s. s.base) signal r) (reno_handle signal r)
  unfolding reno_handle reno_sent
  reno_handle_lem (sent n) r v =
      let (bounds, window, flight) = on_packet_sent_lem n r.base v in returns (bounds, flight)
  reno_handle_lem (ack n rtt now) r v = reno_ack_lem n rtt now r v
  reno_handle_lem (lost now) r v = returns (reno_lost_lem now r v)

  abbrev pub reno_controller : Controller fl (Reno fl)
  reno_controller = record {
    base = λ r. r.base;
    handle = reno_handle;
    handle_lem = reno_handle_lem;
  }

  pub vegas_handle : Signal → Vegas fl → Run ⊥ (Vegas fl)
  vegas_handle (sent n) s = ok (vegas_sent fl n s)
  vegas_handle (ack n rtt now) s = ok (vegas_ack fl n rtt now s)
  vegas_handle (lost now) s = ok (vegas_lost fl now s)

  -- A base that an acknowledgement has only counted.
  taken :
      (n rtt : ℕ) (b : Base fl)
      → InBounds b
      → let b' = take_ack fl n rtt b in InBounds b' × (b'.in_flight ≡ b.in_flight -ℤ pos n)
  taken n rtt b v =
      let (same, window, _, flight) = take_ack_lem n rtt b in
      (
        record {
          packet_positive = omega (arith, v, same);
          max_positive = omega (arith, v, same);
          high = omega (arith, v, same, window);
          low = ground arith;
        },
        flight,
      )

  pub vegas_handle_lem :
      (signal : Signal) (s : Vegas fl)
      → InBounds s.base
      → Returns (Good (Vegas fl) (λ s. s.base) signal s) (vegas_handle signal s)
  unfolding vegas_handle vegas_sent vegas_ack vegas_lost
  vegas_handle_lem (sent n) s v =
      let (bounds, window, flight) = on_packet_sent_lem n s.base v in returns (bounds, flight)
  vegas_handle_lem (ack n rtt now) s v =
      let b = take_ack fl n rtt s.base in
      let (same, window, _, flight) = take_ack_lem n rtt s.base in
      returns (
        either_branch (Good (Vegas fl) (λ s. s.base) (ack n rtt now) s) (b.min_rtt == 0 || rtt == 0)
          (taken n rtt s.base v) (settled now _ s.base b v same flight))
  vegas_handle_lem (lost now) s v = returns (
      settled now (s.base.cwnd / 2) s.base _ v (record { same_packet = refl; same_max = refl })
        refl)

  abbrev pub vegas_controller : Controller fl (Vegas fl)
  vegas_controller = record {
    base = λ s. s.base;
    handle = vegas_handle;
    handle_lem = vegas_handle_lem;
  }

  pub cubic_handle : Signal → Cubic fl → Run ⊥ (Cubic fl)
  cubic_handle (sent n) s = ok (cubic_sent fl n s)
  cubic_handle (ack n rtt now) s = ok (cubic_ack fl n rtt now s)
  cubic_handle (lost now) s = ok (cubic_lost fl now s)

  pub cubic_handle_lem :
      (signal : Signal) (s : Cubic fl)
      → InBounds s.base
      → Returns (Good (Cubic fl) (λ s. s.base) signal s) (cubic_handle signal s)
  unfolding cubic_handle cubic_sent cubic_ack cubic_lost
  cubic_handle_lem (sent n) s v =
      let (bounds, window, flight) = on_packet_sent_lem n s.base v in returns (bounds, flight)
  cubic_handle_lem (ack n rtt now) s v =
      let (same, window, _, flight) = take_ack_lem n rtt s.base in
      returns (settled now _ s.base (take_ack fl n rtt s.base) v same flight)
  cubic_handle_lem (lost now) s v =
      returns (settled now _ s.base _ v (record { same_packet = refl; same_max = refl }) refl)

  abbrev pub cubic_controller : Controller fl (Cubic fl)
  cubic_controller = record {
    base = λ s. s.base;
    handle = cubic_handle;
    handle_lem = cubic_handle_lem;
  }

  pub bbr_handle : Signal → Bbr fl → Run ⊥ (Bbr fl)
  bbr_handle (sent n) s = ok (bbr_sent fl n s)
  bbr_handle (ack n rtt now) s = ok (bbr_ack fl n rtt now s)
  bbr_handle (lost now) s = ok (bbr_lost fl now s)

  abbrev Same : Bbr fl → Bbr fl → Type 0
  Same s s' = SameConfig s.base s'.base × (s'.base.in_flight ≡ s.base.in_flight)

  unchanged : (s : Bbr fl) → Same s s
  unchanged s = (record { same_packet = refl; same_max = refl }, refl)

  -- The switch changes neither the configuration nor the bytes in flight.
  advance_lem :
      (state : BbrState) (current : ℤ) (now : ℕ) (s : Bbr fl)
      → Same s (advance fl state current now s)
  advance_lem startup current now s = ground arith
  advance_lem drain current now s = ground arith
  advance_lem probe_bw current now s = ground arith
  advance_lem probe_rtt current now s = ground arith

  pub bbr_handle_lem :
      (signal : Signal) (s : Bbr fl)
      → InBounds s.base
      → Returns (Good (Bbr fl) (λ s. s.base) signal s) (bbr_handle signal s)
  unfolding bbr_handle bbr_sent bbr_ack bbr_lost update_bandwidth
  bbr_handle_lem (sent n) s v =
      let (bounds, window, flight) = on_packet_sent_lem n s.base v in returns (bounds, flight)
  bbr_handle_lem (ack n rtt now) s v =
      let (same, window, _, flight) = take_ack_lem n rtt s.base in
      let current = fl.to_int (fl.over (fl.of_int (pos n)) (fl.seconds rtt)) in
      let s1 = update_bandwidth fl current (record s { base = take_ack fl n rtt s.base }) in
      let (same', flight') = advance_lem s1.state current now s1 in
      returns (
        settled now _ s.base _ v
          (record {
            same_packet = same'.same_packet ∙ same.same_packet;
            same_max = same'.same_max ∙ same.same_max;
          })
          (flight' ∙ flight))
  bbr_handle_lem (lost now) s v =
      returns (settled now _ s.base _ v (record { same_packet = refl; same_max = refl }) refl)

  abbrev pub bbr_controller : Controller fl (Bbr fl)
  bbr_controller = record { base = λ s. s.base; handle = bbr_handle; handle_lem = bbr_handle_lem }

  -- A run of a controller from a state within its bounds.
  abbrev pub RunKeeps : {S : Type 0} → Controller fl S → List Signal → S → Type 0
  RunKeeps c signals s =
      Returns
        (λ s'.
          InBounds (c.base s')
          × ((c.base s').in_flight ≡ in_flight_all signals (c.base s).in_flight))
        (run c signals s)

  -- Whatever is sent, acknowledged and lost, and whatever the floats round to: for each of the four
  -- algorithms, the window of a controller that starts within its bounds stays within them (at most the
  -- maximum, and two packets at least unless it is the maximum), no division panics, and the bytes in
  -- flight are those at the start, plus the bytes sent, less the bytes acknowledged.
  pub controllers_run_bounds :
      (signals : List Signal) (r : Reno fl) (v : Vegas fl) (c : Cubic fl) (b : Bbr fl)
      → InBounds r.base
      → InBounds v.base
      → InBounds c.base
      → InBounds b.base
      → RunKeeps reno_controller signals r
        × RunKeeps vegas_controller signals v
        × RunKeeps cubic_controller signals c
        × RunKeeps bbr_controller signals b
  controllers_run_bounds signals r v c b hr hv hc hb = (
    run_lem reno_controller signals r hr,
    run_lem vegas_controller signals v hv,
    run_lem cubic_controller signals c hc,
    run_lem bbr_controller signals b hb,
  )
