-- ===== src/Actions/CreateVm/Agreed.antt =====
-- `Create` makes a VM whose settings and whose pod agree on its disks: there are none.
use Prim.Native.Char.{code}
use text.Mathlib.TextLemmas.{cons-append}
use kubernetes_cpi.Base.{
  ℕ, String, ◌≡◌, refl, sym, ap, ◌∙◌, false, Option, none, some, List, [], ◌∷◌, lookup, dict_of,
  ◌==◌, eq_refl, eq_iff, arith, Bool-cases, inl, inr,
}
use kubernetes_cpi.Exec.{returns, ok}
use kubernetes_cpi.Exec.Returns.{Runs, and_then-returns}
use kubernetes_cpi.Agent.{Settings}
use kubernetes_cpi.Cpi
use kubernetes_cpi.Cpi.{Networks}
use kubernetes_cpi.Cid.{new_disk_cid}
use kubernetes_cpi.Kube.Objects.{ℤ, Pod, ResourceRequirements}
use kubernetes_cpi.Kube.World.{World, Client}
use kubernetes_cpi.Kube.Server.{Server}
use kubernetes_cpi.Actions.Names.{agent_name, disk_name}
use kubernetes_cpi.Actions.Agreement.{count_named, count_of, Agrees}
use kubernetes_cpi.Actions.Agreement.Steps.{ReadsBack}
use kubernetes_cpi.Actions.CreateVm.Props.{VmCloudProperties}
use kubernetes_cpi.Actions.CreateVm.{
  AgentConfig, VmCreator, agent_networks, instance_settings, agent_config_map, create,
}
use kubernetes_cpi.Actions.CreateVm.Pods.{agent_pod, agent_pod_spec}
use kubernetes_cpi.Actions.CreateVm.Progress.{create_iff}
use kubernetes_cpi.Actions.CreateVm.Progress.Workload.{PodMade, WorkloadMade}
use kubernetes_cpi.Actions.CreateVm.Kept.{Beside, AllExposed-kept, AllSecret-kept}

abbrev first_code : String → ℕ
first_code String.[] = 0
first_code (String.◌∷◌ c s) = code c

-- A name that starts with a "b" is that of no disk.
not_disk : (name j : String) → first_code name ≡ 98 → (name == disk_name j) ≡ false
not_disk name j b = elim (Bool-cases (name == disk_name j)) [
  | inl same ↦ absurd (differ (ap first_code ((eq_iff _ _).0 same ∙ cons-append "d" "isk-" j)) refl)
  | inr other ↦ other
]
  where
    differ : {m : ℕ} → first_code name ≡ m → m ≡ 100 → ⊥
    differ same d = omega arith

no_disks :
    (agent_id image j : String) (reqs : ResourceRequirements)
    → count_named (disk_name j) (agent_pod_spec agent_id image reqs).volumes ≡ 0
unfolding agent_pod_spec
no_disks agent_id image j reqs =
    rw (not_disk "bosh-config" j refl, not_disk "bosh-ephemeral" j refl) refl

empty_settings :
    (conf : AgentConfig) (agent_id : String) (networks : Networks) (env : String)
    {settings : Settings}
    → instance_settings conf agent_id networks env ≡ returns settings
    → settings.disks.persistent ≡ none
unfolding instance_settings
empty_settings conf agent_id networks env h =
    let (nws, made, same) = and_then-returns (agent_networks networks []) _ h in
    ap (λ (x : Settings). x.disks.persistent) (sym (answered same))
  where
    answered : {x y : Settings} → returns x ≡ returns y → x ≡ y
    answered e = cc

WorkloadMade-PodMade :
    (W : World) (client : Client) (agent_id image : String) (timeout : ℕ) (nw : Cpi.Network)
    (props : VmCloudProperties) (replicas : Option ℤ) (s t : W.State)
    → replicas ≡ none
    → WorkloadMade W client agent_id image timeout nw props replicas s t
    → (pod : Pod) × PodMade W client agent_id image nw props.resources s pod t
WorkloadMade-PodMade W client agent_id image timeout nw props none s t single made = made
WorkloadMade-PodMade W client agent_id image timeout nw props (some n) s t single made = cc

module _ (W : World) (K : Server W) (B : Beside W K) (reads_back : ReadsBack W) where
  -- So it is for a pod as it is made and settings without disks.
  bare-Agrees :
      (client : Client) (agent_id image json : String) (reqs : ResourceRequirements)
      (settings : Settings) (t : W.State)
      → K.specs t client (agent_name agent_id) ≡ some (agent_pod_spec agent_id image reqs)
      → K.configs t client (agent_name agent_id) ≡ some (("instance_settings", json) ∷ [])
      → W.marshal_settings settings ≡ ok json
      → settings.disks.persistent ≡ none
      → Agrees W K client agent_id t
  unfolding lookup
  bare-Agrees client agent_id image json reqs settings t has_pod has_config written bare =
      let (settings', back, same_disks) = reads_back settings json written in
      (
        agent_pod_spec agent_id image reqs,
        settings',
        has_pod,
        (("instance_settings", json) ∷ [], has_config, back),
        λ j.
            no_disks agent_id image j reqs
            ∙ sym (
                ap count_of (
                  same_disks (new_disk_cid client.context j)
                  ∙ ap (λ m. lookup (new_disk_cid client.context j) (dict_of m)) bare)),
      )

  -- On a server on which nobody else writes, with settings whose disks read back as they were
  -- written: after a VM was created with no number of replicas, in the namespace of the context that
  -- was asked for its pod has exactly one volume for each disk of the context that its settings list,
  -- and none for any other disk.
  pub create-Agrees :
      (v : VmCreator) (agent_id image : String) (props : VmCloudProperties) (networks : Networks)
      (disk_cids : List String) (env cid : String) (s t : W.State)
      → props.replicas ≡ none
      → Runs (create W v agent_id image props networks disk_cids env) s cid t
      → (client : Client) × ((W.new_client props.context s).0 ≡ ok client)
        × Agrees W K client agent_id t
  unfolding agent_pod agent_config_map
  create-Agrees v agent_id image props networks disk_cids env cid s t single runs =
      let (
        nw,
        client,
        u,
        (
          name,
          settings,
          s1,
          s2,
          s3,
          only,
          found,
          reached,
          made,
          (json, cm, written, (asked, stored)),
          exposed,
          secrets,
        ),
        workload,
        cid_is,
      ) =
        (create_iff W v agent_id image props networks disk_cids env s cid t).0 runs in
      let (pod, (reqs, required, (created, at))) =
        WorkloadMade-PodMade W client agent_id image _ nw props props.replicas u t single
          workload in
      let configs_kept : K.configs t ≡ K.configs s2 =
        ap K.configs (sym at)
        ∙ K.create_pod_configs client (agent_pod client.namespace agent_id image nw reqs) u
        ∙ AllSecret-kept W K B client agent_id props.secrets s3 u secrets
        ∙ AllExposed-kept W K B client agent_id props.services s2 s3 exposed in
      (
        client,
        found,
        bare-Agrees client agent_id image json reqs settings t
            (ap (λ x. K.specs x client (agent_name agent_id)) (sym at)
              ∙ K.create_pod client (agent_pod client.namespace agent_id image nw reqs) u created
                  (agent_name agent_id)
              ∙ rw (eq_refl (agent_name agent_id)) refl)
            (ap (λ g. g client (agent_name agent_id)) configs_kept
              ∙ ap (λ x. K.configs x client (agent_name agent_id)) (sym stored)
              ∙ B.create_config client (agent_config_map client.namespace agent_id json) s1 asked)
            written (empty_settings v.agent_config agent_id networks env made),
      )
