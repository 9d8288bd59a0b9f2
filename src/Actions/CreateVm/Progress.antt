-- ===== src/Actions/CreateVm/Progress.antt =====
-- When `Create` succeeds.
pub mod Namespaces
pub mod Services
pub mod Secrets
pub mod Workload
use kubernetes_cpi.Base.{ℕ, String, ◌≡◌, refl, sym, ap, ◌∙◌, ◌↔◌, ◌⊎◌, inl, inr, List, [], ◌∷◌}
use kubernetes_cpi.Exec.{
  Error, status, errorf, wrap, foreign, not_found, other_reason, already_exists, Result, ok, err,
  Outcome, returns, fails, Exec, lift, pure, call, ◌>>=◌, ◌>>◌,
}
use kubernetes_cpi.Exec.Returns.{
  Runs, call-step, result-step, plain-step, wrapped-step, pure-Runs, pure-value, Runs-called,
  Runs-bind, Runs-pure, Runs-wrapped, Runs-result, wrapped-Runs, Runs-call, Runs-lift,
  of_result-returns,
}
use kubernetes_cpi.Agent
use kubernetes_cpi.Cpi
use kubernetes_cpi.Cpi.{Networks}
use kubernetes_cpi.Cid.{new_vmcid}
use kubernetes_cpi.Kube.Objects.{Namespace, ConfigMap}
use kubernetes_cpi.Kube.World.{World, Client}
use kubernetes_cpi.Actions.CreateVm.{
  VmCreator, get_network, namespace_object, namespace_if_absent, created, create_namespace,
  instance_settings, agent_config_map, create_config_map, create_workload, create,
}
use kubernetes_cpi.Actions.CreateVm.Props.{VmCloudProperties}
use kubernetes_cpi.Actions.CreateVm.Services.{create_services}
use kubernetes_cpi.Actions.CreateVm.Secrets.{create_secret}
use Namespaces.{Reached, namespace_if_absent-Reached, Configured, create_config_map-Configured}
use Services.{AllExposed, create_services-AllExposed}
use Secrets.{AllSecret, create_secret-AllSecret}
use Workload.{WorkloadMade, create_workload-WorkloadMade}

get_network-returns :
    (networks : Networks) {nw : Cpi.Network}
    → (get_network networks ≡ returns nw) ↔ ((name : String) × (networks ≡ (name, nw) ∷ []))
unfolding get_network
get_network-returns [] = (λ h. cc, λ (name, h). cc)
get_network-returns ((n, nw) ∷ []) = (λ h. (n, cc), λ (name, h). cc)
get_network-returns (a ∷ b ∷ rest) = (λ h. cc, λ (name, h). cc)

module _ (W : World) (v : VmCreator) (agent_id image : String) (props : VmCloudProperties)
    (networks : Networks) (disk_cids : List String) (env : String) where
  -- The states in order: with the namespace, the config map, the services and ingresses, and the
  -- secrets.
  abbrev pub Prepared : W.State → Cpi.Network → Client → W.State → Type 0
  Prepared s nw client t =
      (name : String) × (settings : Agent.Settings) × (s1 : W.State) × (s2 : W.State)
      × (s3 : W.State) × (networks ≡ (name, nw) ∷ [])
      × ((W.new_client props.context s).0 ≡ ok client)
      × (let got = W.namespaces.get client client.namespace (W.new_client props.context s).1 in
          Reached W client got.0 got.1 s1)
      × (instance_settings v.agent_config agent_id networks env ≡ returns settings)
      × Configured W client agent_id settings s1 s2
      × AllExposed W client agent_id props.services s2 s3
      × AllSecret W client agent_id props.secrets s3 t

  -- Then the pod or the deployment, and the id.
  abbrev pub VmMade : W.State → String → W.State → Type 0
  VmMade s cid t =
      (nw : Cpi.Network) × (client : Client) × (u : W.State) × Prepared s nw client u
      × WorkloadMade W client agent_id image v.deployment_ready_timeout nw props props.replicas u t
      × (cid ≡ new_vmcid client.context agent_id)

  create-VmMade :
      (s t : W.State) {cid : String}
      → Runs (create W v agent_id image props networks disk_cids env) s cid t
      → VmMade s cid t
  unfolding create create_namespace lift
  create-VmMade s t h = wrapped-step _ _ _ _ h λ nw one h1. call-step _ _ _ _ h1 λ client found h2.
      wrapped-step _ _ _ _ h2 λ u named h3. wrapped-step _ _ _ _ h3 λ settings made h4.
        wrapped-step _ _ _ _ h4 λ cm configured h5. wrapped-step _ _ _ _ h5 λ u' served h6.
          wrapped-step _ _ _ _ h6 λ u'' kept h7. plain-step _ _ _ h7 λ w worked h8.
            let (name, only) = (get_network-returns networks).0 one in
            let prepared : Prepared s nw client _ = (
              name,
              settings,
              _,
              _,
              _,
              only,
              found,
              (namespace_if_absent-Reached W client _ _ _).0 (named, refl),
              made,
              (create_config_map-Configured W client agent_id settings _ _).0
                  (cm, (configured, refl)),
              (create_services-AllExposed W client agent_id props.services _ _).0 (served, refl),
              (create_secret-AllSecret W client agent_id props.secrets _ _).0 (kept, refl),
            ) in
            (
              nw,
              client,
              _,
              prepared,
              (create_workload-WorkloadMade W client agent_id image v nw props props.replicas _ t).0
                  (worked, pure-Runs _ _ h8),
              sym (pure-value _ _ h8),
            )

  -- What is left to do once all is prepared.
  abbrev workload : Cpi.Network → Client → Exec W.State String
  workload nw client = do
    create_workload W v client client.namespace agent_id image nw props props.replicas
    pure (new_vmcid client.context agent_id)

  pub create-Prepared :
      (s u : W.State) (nw : Cpi.Network) (client : Client)
      → Prepared s nw client u
      → create W v agent_id image props networks disk_cids env s ≡ workload nw client u
  unfolding create create_namespace
  create-Prepared s u nw client
        (name, settings, s1, s2, s3, only, found, reached, made, configured, exposed, secrets) =
      let (cm, map_made) =
        (create_config_map-Configured W client agent_id settings s1 s2).1 configured in
      wrapped-Runs _ _ _ (Runs-lift _ s ((get_network-returns networks).1 (name, only)))
      ∙ wrapped-Runs _ _ _ (Runs-call (W.new_client props.context) s found)
      ∙ wrapped-Runs _ _ _ ((namespace_if_absent-Reached W client _ _ s1).1 reached)
      ∙ wrapped-Runs _ _ _ (Runs-lift _ s1 made)
      ∙ wrapped-Runs _ _ _ map_made
      ∙ wrapped-Runs _ _ _
          ((create_services-AllExposed W client agent_id props.services s2 s3).1 exposed)
      ∙ wrapped-Runs _ _ _
          ((create_secret-AllSecret W client agent_id props.secrets s3 u).1 secrets)

  VmMade-create :
      (s t : W.State) {cid : String}
      → VmMade s cid t
      → Runs (create W v agent_id image props networks disk_cids env) s cid t
  VmMade-create s t (nw, client, u, prepared, workload_made, cid_is) =
      let same = create-Prepared s u nw client prepared in
      let (done, end) =
        Runs-bind _ _
          ((create_workload-WorkloadMade W client agent_id image v nw props props.replicas u t).1
            workload_made)
          (Runs-pure (new_vmcid client.context agent_id) refl) in
      rw cid_is (ap (λ r. r.0) same ∙ done, ap (λ r. r.1) same ∙ end)

  -- Creating a VM succeeds, with the given id and in the given state, exactly if one network is given;
  -- the context has a client; its namespace can be read, or is created, or turns out to exist when it is
  -- created; then the config map with the settings of the agent is created; then in turn each
  -- ingress is created, and each other service is there or is created; then in turn each secret
  -- cannot be read, and is created with its values, files read in; then the pod is created if there
  -- is no number of replicas, and else, with a number of at least one, the deployment, which is seen
  -- ready before the timer; these calls end in the given state; and the id is that of the client's
  -- context and the agent.
  pub create_iff :
      (s : W.State) (cid : String) (t : W.State)
      → Runs (create W v agent_id image props networks disk_cids env) s cid t ↔ VmMade s cid t
  create_iff s cid t = (create-VmMade s t, VmMade-create s t)
