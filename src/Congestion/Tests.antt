-- ===== src/Congestion/Tests.antt =====
-- The controllers on concrete inputs, with whole numbers for the floats.
use go_kitbox.Prelude.{◌/◌, ◌≡◌, List, [], ◌∷◌, arith}
use go_kitbox.Prelude.Int.{pos}
use go_kitbox.Congestion.Whole.{whole}
use go_kitbox.Congestion.Base.{Base, new_base, clamp_window, take_ack}
use go_kitbox.Congestion.Bounds.{InBounds}
use go_kitbox.Congestion.Interface.{Signal, sent, ack, lost}
use go_kitbox.Congestion.Reno.{Reno}
use go_kitbox.Congestion.Vegas.{Vegas, new_vegas}
use go_kitbox.Congestion.Cubic.{Cubic, new_cubic_with_config, default_cubic_config}
use go_kitbox.Congestion.Bbr.{Bbr, new_bbr, bbr_ack, bbr_target, update_bandwidth}
use go_kitbox.Congestion.Runs.{
  reno_controller, vegas_controller, cubic_controller, bbr_controller, RunKeeps,
  controllers_run_bounds,
}
use go_kitbox.Congestion.Growth.{bbr_ack_window}

abbrev start : Base whole
start = new_base whole 14600 1048576 1460 5

start-InBounds : InBounds start
unfolding new_base
start-InBounds = record {
  packet_positive = omega arith;
  max_positive = omega arith;
  high = omega arith;
  low = ground arith;
}

abbrev signals : List Signal
signals =
    sent 1460
    ∷ sent 1460
    ∷ ack 1460 20000000 30000000
    ∷ ack 0 20000000 40000000
    ∷ lost 60000000
    ∷ []

abbrev reno : Reno whole
reno = record { base = start; dup_ack_count = 2 }

abbrev vegas : Vegas whole
vegas = new_vegas whole 14600 1048576 1460 5

abbrev cubic : Cubic whole
cubic = new_cubic_with_config whole (default_cubic_config whole) 14600 1048576 1460 5

abbrev bbr : Bbr whole
bbr = new_bbr whole 14600 1048576 1460 5

controllers_run_bounds_example :
    RunKeeps reno_controller signals reno
    × RunKeeps vegas_controller signals vegas
    × RunKeeps cubic_controller signals cubic
    × RunKeeps bbr_controller signals bbr
unfolding new_vegas new_cubic_with_config new_bbr new_base
controllers_run_bounds_example =
    controllers_run_bounds signals reno vegas cubic bbr start-InBounds start-InBounds start-InBounds
      start-InBounds

bbr_ack_window_example :
    let s1 =
      update_bandwidth whole
        (pos (1460 / 2))
        (record bbr { base = take_ack whole 1460 2000000000 bbr.base }) in
    (bbr_ack whole 1460 2000000000 30 bbr).base.cwnd
    ≡ clamp_window whole 1460 1048576 (bbr_target whole s1)
unfolding new_bbr new_base
bbr_ack_window_example = bbr_ack_window 1460 2000000000 30 bbr
