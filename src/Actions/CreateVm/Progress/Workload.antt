-- ===== src/Actions/CreateVm/Progress/Workload.antt =====
-- When the pod of a VM is created, or its deployment.
use kubernetes_cpi.Base.{
  ℕ, zero, suc, Bool, false, String, ◌<>◌, ◌≡◌, refl, ◌↔◌, true, Option, none, some, List,
  Bool-cases, inl, inr,
}
use kubernetes_cpi.Exec.{returns, ok, lift, call}
use kubernetes_cpi.Exec.Returns.{
  Runs, call-step, result-step, lift-step, wrapped-step, pure-Runs, pure-value, fail-Runs,
  Runs-called, Runs-bind, Runs-pure, Runs-wrapped, Runs-result, Runs-lift, of_result-returns,
}
use kubernetes_cpi.Cpi
use kubernetes_cpi.Kube.Objects.{ℤ, pos, negsuc, Pod, Deployment, ResourceRequirements}
use kubernetes_cpi.Kube.Watch.{Signal}
use kubernetes_cpi.Kube.Watch.Laws.{Succeeds, watch_loop-success}
use kubernetes_cpi.Kube.World.{World, Client}
use kubernetes_cpi.Actions.Names.{agent_id_label}
use kubernetes_cpi.Actions.CreateVm.{VmCreator, create_workload, at_least_one}
use kubernetes_cpi.Actions.CreateVm.Props.{VmCloudProperties, Resources}
use kubernetes_cpi.Actions.CreateVm.Resources.{get_pod_resource_requirements}
use kubernetes_cpi.Actions.CreateVm.Pods.{
  agent_pod, create_pod, agent_deployment, is_deployment_ready, wait_for_deployment,
  create_deployment,
}

-- The number is positive.
abbrev pub Positive : ℤ → Type 0
Positive n = (k : ℕ) × (n ≡ pos (suc k))

pub at_least_one-Positive : (n : ℤ) → at_least_one n ≡ true → Positive n
at_least_one-Positive (pos zero) h = cc
at_least_one-Positive (pos (suc k)) h = (k, refl)
at_least_one-Positive (negsuc k) h = cc

Positive-at_least_one : (n : ℤ) → Positive n → at_least_one n ≡ true
Positive-at_least_one n (k, same) = rw same refl

module _ (W : World) (client : Client) (agent_id image : String) where
  -- The pod was created with the requirements that the cloud properties ask for.
  abbrev pub PodMade : Cpi.Network → Resources → W.State → Pod → W.State → Type 0
  PodMade nw resources s pod t =
      (reqs : ResourceRequirements) × (get_pod_resource_requirements W.parse_quantity resources
        ≡ returns reqs)
      × (let asked = W.pods.create client (agent_pod client.namespace agent_id image nw reqs) s in
          (asked.0 ≡ ok pod) × (asked.1 ≡ t))

  create_pod-PodMade :
      (nw : Cpi.Network) (resources : Resources) (s t : W.State) {pod : Pod}
      → Runs (create_pod W client client.namespace agent_id image nw resources) s pod t
        ↔ PodMade nw resources s pod t
  unfolding create_pod call lift
  create_pod-PodMade nw resources s t = (
    λ h.
        wrapped-step _ _ _ _ h
          λ reqs required h1. (reqs, required, (of_result-returns _ h1.0, h1.1)),
    λ (reqs, required, (asked, end)).
        Runs-wrapped _ _ _ (Runs-lift _ s required) (rw asked refl, end),
  )

  -- The watch over the agent's deployments has shown one with all its replicas available.
  abbrev pub SeenReady : ℕ → String → W.State → W.State → Type 0
  SeenReady timeout version s t =
      (selector : String) × (signals : List (Signal Deployment)) × (W.parse_selector
          (agent_id_label <> "=" <> agent_id)
        ≡ ok selector)
      × (let watched =
            W.deployments.watch client
              (record { label_selector = selector; resource_version = version }) timeout s in
          (watched.0 ≡ ok signals) × (watched.1 ≡ t))
      × Succeeds is_deployment_ready "Unexpected deployment watch event: %s"
          "Deployment creation failed with a timeout." signals

  wait_for_deployment-SeenReady :
      (timeout : ℕ) (version : String) (s t : W.State)
      → Runs (wait_for_deployment W timeout client agent_id version) s tt t
        ↔ SeenReady timeout version s t
  unfolding wait_for_deployment lift
  wait_for_deployment-SeenReady timeout version s t = (
    λ h. result-step _ _ _ _ h λ selector parsed h1. call-step _ _ _ _ h1 λ signals watched h2.
        (selector, signals, parsed, (watched, h2.1), (watch_loop-success _ _ _ signals).0 h2.0),
    λ (selector, signals, parsed, (watched, end), seen).
        Runs-result _ _ _ parsed
          (Runs-called _ _ _ watched ((watch_loop-success _ _ _ signals).1 seen, end)),
  )

  -- The deployment was created with the requirements, and was seen ready.
  abbrev pub DeploymentMade : ℕ → VmCloudProperties → W.State → Deployment → W.State → Type 0
  DeploymentMade timeout props s deployment t =
      (reqs : ResourceRequirements) × (get_pod_resource_requirements W.parse_quantity
          props.resources
        ≡ returns reqs)
      × (let asked =
            W.deployments.create client
              (agent_deployment client.namespace agent_id image props.replicas reqs) s in
          (asked.0 ≡ ok deployment) × SeenReady timeout deployment.meta.resource_version asked.1 t)

  create_deployment-DeploymentMade :
      (timeout : ℕ) (props : VmCloudProperties) (s t : W.State) {deployment : Deployment}
      → Runs
          (create_deployment W timeout client client.namespace agent_id image props)
          s
          deployment
          t
        ↔ DeploymentMade timeout props s deployment t
  unfolding create_deployment
  create_deployment-DeploymentMade timeout props s t = (
    λ h. lift-step _ _ _ h λ reqs required h1. call-step _ _ _ _ h1 λ made asked h2.
        wrapped-step _ _ _ _ h2 λ u waited h3.
          let here : made ≡ _ = pure-value _ _ h3 in
          rw (← here) (
            reqs,
            required,
            (asked, (wait_for_deployment-SeenReady timeout _ _ _).0 (waited, pure-Runs _ _ h3)),
          ),
    λ (reqs, required, (asked, seen)). Runs-bind _ _ (Runs-lift _ s required) (
        Runs-called _ _ _ asked (
          Runs-wrapped _ _ _ ((wait_for_deployment-SeenReady timeout _ _ t).1 seen)
            (Runs-pure _ refl))),
  )

  -- With no number of replicas, the pod; with a number, which is at least one, the deployment.
  abbrev pub WorkloadMade :
      ℕ → Cpi.Network → VmCloudProperties → Option ℤ → W.State → W.State → Type 0
  WorkloadMade timeout nw props none s t = (pod : Pod) × PodMade nw props.resources s pod t
  WorkloadMade timeout nw props (some replicas) s t =
      Positive replicas × (deployment : Deployment) × DeploymentMade timeout props s deployment t

  pub create_workload-WorkloadMade :
      (v : VmCreator) (nw : Cpi.Network) (props : VmCloudProperties) (replicas : Option ℤ)
      (s t : W.State)
      → Runs (create_workload W v client client.namespace agent_id image nw props replicas) s tt t
        ↔ WorkloadMade v.deployment_ready_timeout nw props replicas s t
  unfolding create_workload
  create_workload-WorkloadMade v nw props none s t = (
    λ h. wrapped-step _ _ _ _ h λ pod made h1.
        (pod, (create_pod-PodMade nw props.resources s t).0 (made, pure-Runs _ _ h1)),
    λ (pod, made).
        Runs-wrapped _ _ _ ((create_pod-PodMade nw props.resources s t).1 made) (Runs-pure _ refl),
  )
  create_workload-WorkloadMade v nw props (some replicas) s t =
      elim (Bool-cases (at_least_one replicas)) [
        | inr invalid ↦ rw invalid (
          λ h. absurd (fail-Runs _ s h),
          λ (positive, deployment, made).
              absurd (differ invalid (Positive-at_least_one replicas positive)),
        )
        | inl valid ↦ rw valid (
          λ h. wrapped-step _ _ _ _ h λ deployment made h1. (
            at_least_one-Positive replicas valid,
            deployment,
            (create_deployment-DeploymentMade v.deployment_ready_timeout props s t).0
                (made, pure-Runs _ _ h1),
          ),
          λ (here, deployment, made).
              Runs-wrapped _ _ _
                ((create_deployment-DeploymentMade v.deployment_ready_timeout props s t).1 made)
                (Runs-pure _ refl),
        )
      ]
    where
      differ : {b : Bool} → b ≡ false → b ≡ true → ⊥
      differ h k = cc
