-- ===== src/Lifecycle/Manager/Shutdown.antt =====
-- What a shutdown finds, after any interleaving of calls and goroutines.
use go_kitbox.Prelude.{
  ℕ, ◌≤◌, ◌≡◌, ap, Bool, false, List, [], ◌∷◌, none, some, Bool-cases, inl, inr, arith,
}
use go_kitbox.Prelude.Keys.{nat_eq, string_eq}
use go_kitbox.Prelude.Maps.{lookup}
use go_kitbox.Prelude.Run.{Run, ok, returns, Returns}
use go_kitbox.Lifecycle.Hooks.{Hooks}
use go_kitbox.Lifecycle.Manager.{Routine, new_manager, stop_all, finish_shutdown}
use go_kitbox.Lifecycle.Manager.Names.{counts, counts_of, pending}
use go_kitbox.Lifecycle.Manager.Inv.{IsValid}
use go_kitbox.Lifecycle.Manager.Roster.{Roster, roster, stop_in_turn, HasRoster, stop_all-HasRoster}
use go_kitbox.Lifecycle.Manager.Roster.Steps.{run-HasRoster, new_manager-HasRoster}
use go_kitbox.Lifecycle.Manager.Runs.{Op, State, run, run-IsValid, new_manager-IsValid}

counts-pending :
    (c : ℕ) (r : Routine) (routines : List (ℕ × Routine))
    → lookup c routines ≡ some r
    → counts r.phase ≤ pending routines
unfolding lookup
counts-pending c r [] h = cc
counts-pending c r ((at, here) ∷ rest) h = elim (Bool-cases (nat_eq.beq at c)) [
  | inl same ↦
      let e : some here ≡ some r = ground (arith, h, same) in
      let as_many : counts here.phase ≡ counts r.phase = ap counts_of e in omega (arith, as_many)
  | inr other ↦ ground (arith, counts-pending c r rest (ground (arith, h, other)))
]

module _ {W E : Type 0} where
  -- What shutdown does in a state: the stop functions of a roster of workers are called, and it waits for
  -- every goroutine.
  pub record StopsAll (ros : Roster W E) (s : State W E) : Type 0 where
    pub order : stop_all s.0 s.1 ≡ ok (stop_in_turn ros s.1)
    pub waits :
        (c : ℕ) (r : Routine)
        → lookup c s.0.routines ≡ some r
        → counts r.phase ≡ 1
        → finish_shutdown false s.0 s.1 ≡ none

  valid-StopsAll :
      (ros : Roster W E) (s : State W E) → IsValid s.0 → HasRoster ros s.0 → StopsAll ros s
  unfolding finish_shutdown
  valid-StopsAll ros (m, w) i v = record {
    order = stop_all-HasRoster ros m w v;
    waits = λ c r h one. ground (arith, one, i.counted, counts-pending c r m.routines h);
  }

  both-StopsAll :
      (ros : Roster W E) {r : Run ⊥ (State W E)}
      → Returns (λ s. IsValid s.0) r
      → Returns (λ s. HasRoster ros s.0) r
      → Returns (StopsAll ros) r
  both-StopsAll ros (returns i) (returns v) = returns (valid-StopsAll ros _ i v)

  pub run-StopsAll :
      (is_canceled : E → Bool) (hooks : Hooks W E) (ops : List (Op W E)) (w : W)
      → Returns
          (StopsAll (roster is_canceled ops (ok (new_manager hooks, w)) []))
          (run is_canceled ops (new_manager hooks, w))
  run-StopsAll is_canceled hooks ops w =
      both-StopsAll (roster is_canceled ops (ok (new_manager hooks, w)) [])
        (run-IsValid is_canceled ops (new_manager hooks, w) (new_manager-IsValid is_canceled hooks))
        (run-HasRoster is_canceled ops [] (returns (new_manager-IsValid is_canceled hooks))
          (returns (new_manager-HasRoster hooks)))
