-- ===== src/Examples/Watches.antt =====
-- Waiting for a pod.
use kubernetes_cpi.Base.{◌≡◌, ◌≢◌, ◌↔◌, refl, true, false, [], ◌∷◌}
use kubernetes_cpi.Exec.{returns, waits}
use kubernetes_cpi.Kube.Objects.{Pod}
use kubernetes_cpi.Kube.Watch.{this, modified, Signal, event, timer, watch_loop}
use kubernetes_cpi.Kube.Watch.Laws.{Succeeds, watch_loop-success, watch_loop-timer}
use kubernetes_cpi.Actions.VolumeManager.{is_agent_container_running}
use kubernetes_cpi.Actions.VolumeManager.Waiting.{JobRuns, is_agent_container_running_iff, running}
use kubernetes_cpi.Examples.Fixtures.{pod, ready_pod, pod_signals}

abbrev idle : Signal Pod
idle = event (record { kind = modified; object = this pod })

abbrev shown : Signal Pod
shown = event (record { kind = modified; object = this ready_pod })

watch_loop-success_example :
    (watch_loop running "unexpected" "timed out" pod_signals ≡ returns tt)
    ↔ Succeeds running "unexpected" "timed out" pod_signals
watch_loop-success_example = watch_loop-success running "unexpected" "timed out" pod_signals

settled : (p : Pod) → running p ≢ waits
settled p h = cc

watch_loop-timer_example : watch_loop running "unexpected" "timed out" (idle ∷ timer ∷ []) ≢ waits
watch_loop-timer_example = watch_loop-timer running "unexpected" "timed out" (idle ∷ []) [] settled

pod_is_idle : running pod ≡ returns false
unfolding is_agent_container_running
pod_is_idle = refl

is_agent_container_running_iff_example :
    (is_agent_container_running ready_pod ≡ true)
    ↔ ((ready_pod.status.phase ≡ "Running") × JobRuns ready_pod.status.container_statuses)
is_agent_container_running_iff_example = is_agent_container_running_iff ready_pod
