-- ===== src/Actions/VolumeManager/Waiting.antt =====
-- When the wait for a recreated pod ends.
use kubernetes_cpi.Base.{
  ℕ, String, ◌<>◌, ◌≡◌, refl, ap, ◌≢◌, ◌↔◌, Bool, true, false, ◌&&◌, List, [], ◌∷◌, ◌++◌, ◌==◌,
  eq_iff, arith, Bool-cases, inl, inr,
}
use kubernetes_cpi.Exec.{Outcome, returns, waits, ok, ◌>>=◌}
use kubernetes_cpi.Kube.Objects.{Pod, ContainerStatus}
use kubernetes_cpi.Kube.Watch.{Signal, timer, watch_loop}
use kubernetes_cpi.Kube.Watch.Laws.{Succeeds, watch_loop-success, watch_loop-timer}
use kubernetes_cpi.Kube.World.{World, Client}
use kubernetes_cpi.Actions.Names.{agent_id_label, bosh_job}
use kubernetes_cpi.Actions.VolumeManager.{job_running, is_agent_container_running, wait_for_pod}

abbrev pub NoneNamedJob : List ContainerStatus → Type 0
NoneNamedJob [] = Unit {0}
NoneNamedJob (c ∷ statuses) = ((c.name == bosh_job) ≡ false) × NoneNamedJob statuses

-- The first status of the agent's container says that it is ready and running.
abbrev pub JobRuns : List ContainerStatus → Type 0
JobRuns statuses =
    (before : List ContainerStatus) × (c : ContainerStatus) × (after : List ContainerStatus)
    × (statuses ≡ before ++ (c ∷ after))
    × NoneNamedJob before
    × ((c.name == bosh_job) ≡ true)
    × (c.ready ≡ true)
    × (c.running ≡ true)

job_running-of : (statuses : List ContainerStatus) → job_running statuses ≡ true → JobRuns statuses
unfolding job_running
job_running-of [] h = cc
job_running-of (c ∷ statuses) h = elim (Bool-cases (c.name == bosh_job)) [
  | inl job ↦
      let both : (c.ready && c.running) ≡ true = rw job at h in
      ([], c, statuses, refl, tt, job, ground arith, ground arith)
  | inr other ↦
      let (before, d, after, split, none_named, job, ready, running) =
        job_running-of statuses (rw other at h) in
      (
        c ∷ before,
        d,
        after,
        ap (λ (l : List ContainerStatus). c ∷ l) split,
        (other, none_named),
        job,
        ready,
        running,
      )
]

job_running-by :
    (before after : List ContainerStatus) (c : ContainerStatus)
    → NoneNamedJob before
    → (c.name == bosh_job) ≡ true
    → c.ready ≡ true
    → c.running ≡ true
    → job_running (before ++ (c ∷ after)) ≡ true
unfolding job_running
job_running-by [] after c h job ready running = rw job (rw (ready, running))
job_running-by (b ∷ before) after c (other, h) job ready running =
    rw other (job_running-by before after c h job ready running)

-- The agent runs in a pod exactly if the pod's phase is "Running" and the first status of the
-- agent's container says that it is ready and running.
pub is_agent_container_running_iff :
    (pod : Pod)
    → (is_agent_container_running pod ≡ true)
      ↔ ((pod.status.phase ≡ "Running") × JobRuns pod.status.container_statuses)
unfolding is_agent_container_running
is_agent_container_running_iff pod = (
  λ h. elim (Bool-cases (pod.status.phase == "Running")) [
    | inl phase ↦ ((eq_iff _ _).0 phase, job_running-of _ (rw phase at h))
    | inr other ↦ cc (rw other at h)
  ],
  λ (phase, (before, c, after, split, named, job, ready, running)).
      rw ((eq_iff _ _).1 phase) (rw split (job_running-by before after c named job ready running)),
)

abbrev pub running : Pod → Outcome Bool
running pod = returns (is_agent_container_running pod)

module _ (W : World) (timeout : ℕ) (client : Client) (agent_id resource_version : String)
    (s s' : W.State) (selector : String) (signals : List (Signal Pod))
    (parsed : W.parse_selector (agent_id_label <> "=" <> agent_id) ≡ ok selector)
    (watched : W.pods.watch client
        (record { label_selector = selector; resource_version = resource_version })
        timeout
        s
      ≡ (ok signals, s')) where
  wait_for_pod-eq : wait_for_pod W timeout client agent_id resource_version s ≡ (
    watch_loop running "Unexpected pod watch event: %s" "Pod create failed with a timeout" signals,
    s',
  )
  unfolding wait_for_pod ◌>>=◌
  wait_for_pod-eq = rw (parsed) (rw watched)

  -- Given a selector and a watch, the wait for the pod succeeds exactly if an event shows the agent
  -- running after events that each show the pod without it.
  pub wait_for_pod-success :
      ((wait_for_pod W timeout client agent_id resource_version s).0 ≡ returns tt)
      ↔ Succeeds running "Unexpected pod watch event: %s" "Pod create failed with a timeout" signals
  wait_for_pod-success = rw wait_for_pod-eq (watch_loop-success running _ _ signals)

  -- Given a selector and a watch, the wait for the pod is over once the timer fires.
  pub wait_for_pod-timer :
      (before after : List (Signal Pod))
      → signals ≡ before ++ (timer ∷ after)
      → (wait_for_pod W timeout client agent_id resource_version s).0 ≢ waits
  wait_for_pod-timer before after split =
      rw (wait_for_pod-eq, split) (watch_loop-timer running _ _ before after (λ o h. cc))
