-- ===== src/Kube/Watch.antt =====
-- The `select` loops that wait for an object to become ready: `waitForPod`, `waitForDisk` and
-- `waitForDeployment` in actions/ share this loop, and differ in the object's type, its readiness
-- test and their messages. The list of signals is what the `select` statement receives, in order:
-- events of the watch, or the timer. A list that ends leaves the loop waiting.
pub mod Laws
use kubernetes_cpi.Base.{String, Bool, true, false, List, [], ◌∷◌}
use kubernetes_cpi.Exec.{Outcome, returns, fails, panics, waits, errorf}

pub data Object (Obj : Type 0) : Type 0 where
  this : Obj → Object Obj
  -- an object of another type, by the type's name
  another : String → Object Obj

pub data EventType : Type 0 where
  added modified deleted error : EventType
  -- also the empty type that a closed channel gives
  other_type : String → EventType

pub record Event (Obj : Type 0) : Type 0 where
  pub kind : EventType
  pub object : Object Obj

pub data Signal (Obj : Type 0) : Type 0 where
  event : Event Obj → Signal Obj
  timer : Signal Obj

abbrev pub event_name : EventType → String
event_name added = "ADDED"
event_name modified = "MODIFIED"
event_name deleted = "DELETED"
event_name error = "ERROR"
event_name (other_type t) = t

-- `if ready { return nil }`, else the loop goes on.
abbrev if_ready : Outcome Bool → Outcome (Unit {0}) → Outcome (Unit {0})
if_ready (returns true) again = returns tt
if_ready (returns false) again = again
if_ready (fails e) again = fails e
if_ready (panics p) again = panics p
if_ready waits again = waits

module _ {Obj : Type 0} (ready : Obj → Outcome Bool) (unexpected timed_out : String) where
  -- The body of the loop for one event; `again` is the next round.
  abbrev on_event : EventType → Object Obj → Outcome (Unit {0}) → Outcome (Unit {0})
  on_event modified (this o) again = if_ready (ready o) again
  on_event modified (another t) again = fails (errorf "Unexpected object type: %v" (t ∷ []))
  on_event kind o again = fails (errorf unexpected (event_name kind ∷ []))

  unfoldable pub watch_loop : List (Signal Obj) → Outcome (Unit {0})
  watch_loop [] = waits
  watch_loop (timer ∷ signals) = fails (errorf timed_out [])
  watch_loop (event e ∷ signals) = let again = watch_loop signals in on_event e.kind e.object again
