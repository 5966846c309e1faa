-- ===== src/Admin/Async.antt =====
-- `useAsyncData`: the effect of a component that loads data, with the cleanup that React runs before
-- the next effect and at the end.
-- Code: apps/admin-ui/src/App.tsx
-- An effect that has run is a `Run`, the newest first; its promise settles at most once. The time when
-- events happen is that of the list of events.
pub mod Laws
use pgapp.Common.{
  ℕ, zero, suc, ◌+◌, String, Bool, true, false, List, [], ◌∷◌, map, length, ◌==◌, if◌then◌else◌,
  ◌&&◌, not,
}
use pgapp.Common.Result.{Thrown, error, message_like, value, textless, nullish, Result, ok, throw}

pub data LoadState (T : Type 0) : Type 0 where
  loading : LoadState T
  failed : (message : String) → LoadState T
  ready : T → LoadState T

-- `error instanceof Error ? error.message : "Unknown error"`
unfoldable pub error_message : Thrown → String
error_message (error name message code) = message
error_message (message_like message code) = "Unknown error"
error_message (value text) = "Unknown error"
error_message (textless reason) = "Unknown error"
error_message (nullish text) = "Unknown error"

-- What the handlers of a promise set.
unfoldable pub settled : {T : Type 0} → Result T → LoadState T
unfolding error_message
settled (ok loaded) = ready loaded
settled (throw e) = failed (error_message e)

pub record Run : Type 0 where
  pub id : ℕ
  pub pending : Bool
  pub cancelled : Bool

pub record Hook (T : Type 0) : Type 0 where
  pub state : LoadState T
  pub runs : List Run

abbrev pub initial : {T : Type 0} → Hook T
initial = record { state = loading; runs = [] }

pub data Event (T : Type 0) : Type 0 where
  -- The dependencies have changed, or the component has mounted.
  effect : (enabled : Bool) → Event T
  -- The promise of a run has settled.
  settle : (id : ℕ) → Result T → Event T
  unmount : Event T

-- The cleanup of the newest run.
unfoldable pub cancel_newest : List Run → List Run
cancel_newest [] = []
cancel_newest (run ∷ runs) = record run { cancelled = true } ∷ runs

-- Whether the run has a promise that has not settled, and is not cancelled.
unfoldable pub is_live : ℕ → List Run → Bool
is_live id [] = false
is_live id (run ∷ runs) = if run.id == id then run.pending && not run.cancelled else is_live id runs

abbrev pub settle_run : ℕ → Run → Run
settle_run id run = record run { pending = if run.id == id then false else run.pending }

unfoldable pub settle_runs : ℕ → List Run → List Run
settle_runs id [] = []
settle_runs id (run ∷ runs) = settle_run id run ∷ settle_runs id runs

unfoldable pub step : {T : Type 0} → Event T → Hook T → Hook T
unfolding cancel_newest is_live settle_runs settled
step (effect enabled) hook = record {
  state = if enabled then loading else failed "Admin token required";
  runs =
      record { id = length hook.runs; pending = enabled; cancelled = false }
      ∷ cancel_newest hook.runs;
}
step (settle id outcome) hook = record {
  state = if is_live id hook.runs then settled outcome else hook.state;
  runs = settle_runs id hook.runs;
}
step unmount hook = record { state = hook.state; runs = cancel_newest hook.runs }

unfoldable pub run_events : {T : Type 0} → List (Event T) → Hook T → Hook T
unfolding step
run_events [] hook = hook
run_events (event ∷ events) hook = run_events events (step event hook)
