-- ===== src/Kube/Watch/Laws.antt =====
-- When a wait ends, and how.
use kubernetes_cpi.Base.{
  String, ◌≡◌, refl, ap, ◌∙◌, ◌≢◌, ◌↔◌, Bool, true, false, List, [], ◌∷◌, ◌++◌,
}
use kubernetes_cpi.Exec.{Outcome, returns, fails, panics, waits, errorf}
use kubernetes_cpi.Exec.Safe.{NoPanic}
use kubernetes_cpi.Kube.Watch.{
  Object, this, another, EventType, modified, Event, Signal, event, timer, watch_loop, on_event,
  if_ready,
}

module _ {Obj : Type 0} (ready : Obj → Outcome Bool) (unexpected timed_out : String) where
  -- An event that shows the object, not ready yet.
  abbrev pub IsIdle : Signal Obj → Type 0
  IsIdle timer = ⊥
  IsIdle (event e) =
      (o : Obj) × (e.kind ≡ modified) × (e.object ≡ this o) × (ready o ≡ returns false)

  abbrev pub AllIdle : List (Signal Obj) → Type 0
  AllIdle [] = Unit {0}
  AllIdle (s ∷ rest) = IsIdle s × AllIdle rest

  -- An event that shows the object ready.
  abbrev pub IsReady : Signal Obj → Type 0
  IsReady timer = ⊥
  IsReady (event e) =
      (o : Obj) × (e.kind ≡ modified) × (e.object ≡ this o) × (ready o ≡ returns true)

  abbrev pub Succeeds : List (Signal Obj) → Type 0
  Succeeds signals =
      (before : List (Signal Obj)) × (s : Signal Obj) × (after : List (Signal Obj)) × (signals
        ≡ before ++ (s ∷ after))
      × AllIdle before
      × IsReady s

  abbrev loop : List (Signal Obj) → Outcome (Unit {0})
  loop = watch_loop ready unexpected timed_out

  idle_step : (s : Signal Obj) (rest : List (Signal Obj)) → IsIdle s → loop (s ∷ rest) ≡ loop rest
  unfolding watch_loop
  idle_step timer rest h = absurd h
  idle_step (event e) rest (o, k, p, r) = rw (k, p) (rw r)

  ready_step :
      (s : Signal Obj) (rest : List (Signal Obj)) → IsReady s → loop (s ∷ rest) ≡ returns tt
  unfolding watch_loop
  ready_step timer rest h = absurd h
  ready_step (event e) rest (o, k, p, r) = rw (k, p) (rw r)

  success_by :
      (before after : List (Signal Obj)) (s : Signal Obj)
      → AllIdle before
      → IsReady s
      → loop (before ++ (s ∷ after)) ≡ returns tt
  success_by [] after s h r = ready_step s after r
  success_by (i ∷ before) after s (hi, h) r = idle_step i _ hi ∙ success_by before after s h r

  -- The three ways in which one event with readiness `r` decides the round.
  success_event :
      (e : Event Obj) (rest : List (Signal Obj)) (kind : EventType) (object : Object Obj)
      → e.kind ≡ kind
      → e.object ≡ object
      → on_event ready unexpected timed_out kind object (loop rest) ≡ returns tt
      → (loop rest ≡ returns tt → Succeeds rest)
      → Succeeds (event e ∷ rest)
  success_event e rest modified (this o) k p h ih = go (ready o) refl h
    where
      go :
          (r : Outcome Bool)
          → ready o ≡ r
          → if_ready r (loop rest) ≡ returns tt
          → Succeeds (event e ∷ rest)
      go (returns true) q h = ([], event e, rest, refl, tt, (o, k, p, q))
      go (returns false) q h =
          let (before, s, after, split, idle, is_ready) = ih h in
          (
            event e ∷ before,
            s,
            after,
            ap (λ (l : List (Signal Obj)). event e ∷ l) split,
            ((o, k, p, q), idle),
            is_ready,
          )
      go _ q h = cc
  success_event e rest modified (another t) k p h ih = cc
  success_event e rest _ o k p h ih = cc

  success_of : (signals : List (Signal Obj)) → loop signals ≡ returns tt → Succeeds signals
  unfolding watch_loop
  success_of [] h = cc
  success_of (timer ∷ rest) h = cc
  success_of (event e ∷ rest) h = success_event e rest e.kind e.object refl refl h (success_of rest)

  -- A wait succeeds exactly if the object is shown ready after events that each show it not ready
  -- yet: no timer and no other event comes before.
  pub watch_loop-success :
      (signals : List (Signal Obj))
      → (watch_loop ready unexpected timed_out signals ≡ returns tt) ↔ Succeeds signals
  watch_loop-success signals = (
    success_of signals,
    λ (before, s, after, split, idle, is_ready). rw split (success_by before after s idle is_ready),
  )

  waiting_event :
      (e : Event Obj) (rest : List (Signal Obj)) (kind : EventType) (object : Object Obj)
      → ((o : Obj) → ready o ≢ waits)
      → e.kind ≡ kind
      → e.object ≡ object
      → on_event ready unexpected timed_out kind object (loop rest) ≡ waits
      → IsIdle (event e) × (loop rest ≡ waits)
  waiting_event e rest modified (this o) settled k p h = go (ready o) refl h
    where
      go :
          (r : Outcome Bool)
          → ready o ≡ r
          → if_ready r (loop rest) ≡ waits
          → IsIdle (event e) × (loop rest ≡ waits)
      go (returns false) q h = ((o, k, p, q), h)
      go waits q h = absurd (settled o q)
      go _ q h = cc
  waiting_event e rest modified (another t) settled k p h = cc
  waiting_event e rest _ o settled k p h = cc

  waiting_of :
      (signals : List (Signal Obj))
      → ((o : Obj) → ready o ≢ waits)
      → loop signals ≡ waits
      → AllIdle signals
  unfolding watch_loop
  waiting_of [] settled h = tt
  waiting_of (timer ∷ rest) settled h = cc
  waiting_of (event e ∷ rest) settled h =
      let (idle, more) = waiting_event e rest e.kind e.object settled refl refl h in
      (idle, waiting_of rest settled more)

  waiting_by : (signals : List (Signal Obj)) → AllIdle signals → loop signals ≡ waits
  unfolding watch_loop
  waiting_by [] h = refl
  waiting_by (s ∷ rest) (i, h) = idle_step s rest i ∙ waiting_by rest h

  -- A wait goes on exactly while every signal shows the object not ready yet, if the readiness test
  -- itself does not wait.
  pub watch_loop-waiting :
      (signals : List (Signal Obj))
      → ((o : Obj) → ready o ≢ waits)
      → (watch_loop ready unexpected timed_out signals ≡ waits) ↔ AllIdle signals
  watch_loop-waiting signals settled = (waiting_of signals settled, waiting_by signals)

  idle_no_timer : (before after : List (Signal Obj)) → AllIdle (before ++ (timer ∷ after)) → ⊥
  idle_no_timer [] after (i, h) = i
  idle_no_timer (s ∷ before) after (i, h) = idle_no_timer before after h

  -- Once the timer has fired, the wait is over.
  pub watch_loop-timer :
      (before after : List (Signal Obj))
      → ((o : Obj) → ready o ≢ waits)
      → watch_loop ready unexpected timed_out (before ++ (timer ∷ after)) ≢ waits
  watch_loop-timer before after settled h = idle_no_timer before after (waiting_of _ settled h)

  -- A timer that fires while the object is not ready fails the wait with the time-out's message.
  pub watch_loop-time_out :
      (before after : List (Signal Obj))
      → AllIdle before
      → watch_loop ready unexpected timed_out (before ++ (timer ∷ after))
        ≡ fails (errorf timed_out [])
  unfolding watch_loop
  watch_loop-time_out [] after h = refl
  watch_loop-time_out (s ∷ before) after (i, h) =
      idle_step s _ i ∙ watch_loop-time_out before after h

  if_ready-NoPanic :
      (r : Outcome Bool) (again : Outcome (Unit {0}))
      → NoPanic r
      → NoPanic again
      → NoPanic (if_ready r again)
  if_ready-NoPanic (returns true) again h g = tt
  if_ready-NoPanic (returns false) again h g = g
  if_ready-NoPanic (fails e) again h g = tt
  if_ready-NoPanic (panics p) again h g = h
  if_ready-NoPanic waits again h g = tt

  on_event-NoPanic :
      (kind : EventType) (object : Object Obj) (again : Outcome (Unit {0}))
      → ((o : Obj) → NoPanic (ready o))
      → NoPanic again
      → NoPanic (on_event ready unexpected timed_out kind object again)
  on_event-NoPanic modified (this o) again h g = if_ready-NoPanic (ready o) again (h o) g
  on_event-NoPanic modified (another t) again h g = tt
  on_event-NoPanic _ o again h g = tt

  -- A wait does not panic if the readiness test does not.
  pub watch_loop-NoPanic :
      (signals : List (Signal Obj))
      → ((o : Obj) → NoPanic (ready o))
      → NoPanic (watch_loop ready unexpected timed_out signals)
  unfolding watch_loop
  watch_loop-NoPanic [] h = tt
  watch_loop-NoPanic (timer ∷ signals) h = tt
  watch_loop-NoPanic (event e ∷ signals) h =
      on_event-NoPanic e.kind e.object _ h (watch_loop-NoPanic signals h)
