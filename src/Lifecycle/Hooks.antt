-- ===== src/Lifecycle/Hooks.antt =====
-- pkg/lifecycle/hook.go and worker.go. A hook is a function on the outside world. What a worker runs is
-- not here: a step of the manager says how it ended. Worker.err, which the manager does not read, is left
-- out.
use Prim.Native.String.{String}
use go_kitbox.Prelude.{List, [], ◌∷◌, Option, none, some}

abbrev pub HookFunc : Type 0 → Type 0 → Type 0
HookFunc W E = W → Option E × W

abbrev pub WorkerHookFunc : Type 0 → Type 0 → Type 0
WorkerHookFunc W E = String → Option E → W → W

pub record Hooks (W E : Type 0) : Type 0 where
  pub on_startup : List (HookFunc W E)
  pub on_worker_start : List (WorkerHookFunc W E)
  pub on_worker_exit : List (WorkerHookFunc W E)
  pub on_shutdown : List (HookFunc W E)
  pub on_timeout : List (HookFunc W E)

pub record Worker (W E : Type 0) : Type 0 where
  pub name : String
  pub stop_func : Option (HookFunc W E)

module _ {W E : Type 0} where
  abbrev pub new_hooks : Hooks W E
  new_hooks = record {
    on_startup = [];
    on_worker_start = [];
    on_worker_exit = [];
    on_shutdown = [];
    on_timeout = [];
  }

  -- callStartup, callShutdown and callTimeout: up to the first error.
  unfoldable pub call_hooks : List (HookFunc W E) → W → Option E × W
  call_hooks [] w = (none, w)
  call_hooks (fn ∷ fns) w =
      let (e, w') = fn w in elim e [ none ↦ call_hooks fns w' | some failure ↦ (some failure, w') ]

  -- callWorkerStart and callWorkerExit
  unfoldable pub call_worker_hooks : List (WorkerHookFunc W E) → String → Option E → W → W
  call_worker_hooks [] name e w = w
  call_worker_hooks (fn ∷ fns) name e w = call_worker_hooks fns name e (fn name e w)

  -- Worker.Stop
  abbrev pub stop : Worker W E → W → Option E × W
  stop worker w = elim worker.stop_func [ none ↦ (none, w) | some fn ↦ fn w ]
