-- ===== src/Congestion/Interface.antt =====
-- The interface Controller of pkg/congestion/controller.go, with what its users may rely on.
use go_kitbox.Prelude.{ℕ, ◌≡◌, refl, ap, ◌∙◌, List, [], ◌∷◌}
use go_kitbox.Prelude.Int.{ℤ, pos, ◌+ℤ◌, ◌-ℤ◌}
use go_kitbox.Prelude.Run.{Run, ok, ◌>>=◌, Returns, returns, Returns-bind, Returns-map}
use go_kitbox.Congestion.Float.{Floats}
use go_kitbox.Congestion.Base.{Base}
use go_kitbox.Congestion.Bounds.{InBounds}

-- OnPacketSent, OnAckReceived and OnPacketLost; the last two read the clock.
pub data Signal : Type 0 where
  sent : ℕ → Signal
  ack : ℕ → ℕ → ℕ → Signal  -- size, RTT, time
  lost : ℕ → Signal

-- What a signal does to the bytes in flight: a loss leaves them alone.
abbrev pub in_flight_after : Signal → ℤ → ℤ
in_flight_after (sent n) f = f +ℤ pos n
in_flight_after (ack n rtt now) f = f -ℤ pos n
in_flight_after (lost now) f = f

pub record Controller (fl : Floats) (S : Type 0) : Type 0 where
  pub base : S → Base fl
  pub handle : Signal → S → Run ⊥ S
  pub handle_lem :
      (signal : Signal) (s : S)
      → InBounds (base s)
      → Returns
          (λ s'.
            InBounds (base s') × ((base s').in_flight ≡ in_flight_after signal (base s).in_flight))
          (handle signal s)

module _ {fl : Floats} {S : Type 0} (c : Controller fl S) where
  pub run : List Signal → S → Run ⊥ S
  run [] s = ok s
  run (signal ∷ signals) s = c.handle signal s >>= λ s'. run signals s'

abbrev pub in_flight_all : List Signal → ℤ → ℤ
in_flight_all [] f = f
in_flight_all (signal ∷ signals) f = in_flight_all signals (in_flight_after signal f)

module _ {fl : Floats} {S : Type 0} (c : Controller fl S) where
  pub run_lem :
      (signals : List Signal) (s : S)
      → InBounds (c.base s)
      → Returns
          (λ s'.
            InBounds (c.base s')
            × ((c.base s').in_flight ≡ in_flight_all signals (c.base s).in_flight))
          (run c signals s)
  unfolding run
  run_lem [] s v = returns (v, refl)
  run_lem (signal ∷ signals) s v = Returns-bind (c.handle_lem signal s v) λ s' (v', e).
      Returns-map (λ s'' (v'', e''). (v'', e'' ∙ ap (in_flight_all signals) e))
        (run_lem signals s' v')
