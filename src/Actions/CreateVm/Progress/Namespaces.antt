-- ===== src/Actions/CreateVm/Progress/Namespaces.antt =====
-- When the namespace is there, and the config map is created.
use kubernetes_cpi.Base.{ℕ, String, ◌≡◌, refl, ◌↔◌, ◌⊎◌, inl, inr}
use kubernetes_cpi.Exec.{
  status, errorf, wrap, foreign, not_found, other_reason, already_exists, Result, ok, err, returns,
  call,
}
use kubernetes_cpi.Exec.Returns.{
  Runs, result-step, pure-Runs, Runs-pure, Runs-result, of_result-returns,
}
use kubernetes_cpi.Agent
use kubernetes_cpi.Kube.Objects.{Namespace, ConfigMap}
use kubernetes_cpi.Kube.World.{World, Client}
use kubernetes_cpi.Actions.CreateVm.{
  namespace_object, namespace_if_absent, created, agent_config_map, create_config_map,
}

-- The namespace was created, or is there by now.
abbrev pub Settled : Result Namespace → Type 0
Settled r =
    ((made : Namespace) × (r ≡ ok made))
    ⊎ ((code : ℕ) × (message : String) × (r ≡ err (status already_exists code message)))

created-Settled : (r : Result Namespace) → (created r ≡ returns tt) ↔ Settled r
created-Settled (ok made) = (λ h. inl (made, refl), λ h. refl)
created-Settled (err (status already_exists code message)) =
    (λ h. inr (code, message, refl), λ h. refl)
created-Settled (err (status not_found code message)) =
    (λ h. cc, λ s. elim s [ inl (made, h) ↦ cc | inr (c, m, h) ↦ cc ])
created-Settled (err (status (other_reason t) code message)) =
    (λ h. cc, λ s. elim s [ inl (made, h) ↦ cc | inr (c, m, h) ↦ cc ])
created-Settled (err (errorf format args)) =
    (λ h. cc, λ s. elim s [ inl (made, h) ↦ cc | inr (c, m, h) ↦ cc ])
created-Settled (err (wrap message e)) =
    (λ h. cc, λ s. elim s [ inl (made, h) ↦ cc | inr (c, m, h) ↦ cc ])
created-Settled (err (foreign t)) =
    (λ h. cc, λ s. elim s [ inl (made, h) ↦ cc | inr (c, m, h) ↦ cc ])

module _ (W : World) (client : Client) where
  -- The namespace could be read; or not, and it was created or has come to be there meanwhile.
  abbrev pub Reached : Result Namespace → W.State → W.State → Type 0
  Reached (ok found) s t = s ≡ t
  Reached (err e) s t =
      let asked = W.namespaces.create client (namespace_object client.namespace) s in
      Settled asked.0 × (asked.1 ≡ t)

  pub namespace_if_absent-Reached :
      (r : Result Namespace) (s t : W.State)
      → Runs (namespace_if_absent W client client.namespace r) s tt t ↔ Reached r s t
  namespace_if_absent-Reached (ok found) s t = (pure-Runs _ _, Runs-pure _)
  namespace_if_absent-Reached (err e) s t = (
    λ (done, end). ((created-Settled _).0 done, end),
    λ (done, end). ((created-Settled _).1 done, end),
  )

  -- The agent's config map was created in the namespace with the text of the settings.
  abbrev pub Configured : String → Agent.Settings → W.State → W.State → Type 0
  Configured agent_id settings s t =
      (json : String) × (cm : ConfigMap) × (W.marshal_settings settings ≡ ok json)
      × (let asked =
            W.config_maps.create client (agent_config_map client.namespace agent_id json) s in
          (asked.0 ≡ ok cm) × (asked.1 ≡ t))

  pub create_config_map-Configured :
      (agent_id : String) (settings : Agent.Settings) (s t : W.State)
      → ((cm : ConfigMap) × Runs
            (create_config_map W client client.namespace agent_id settings)
            s
            cm
            t)
        ↔ Configured agent_id settings s t
  unfolding create_config_map call
  create_config_map-Configured agent_id settings s t = (
    λ (cm, h).
        result-step _ _ _ _ h
          λ json written h1. (json, cm, written, (of_result-returns _ h1.0, h1.1)),
    λ (json, cm, written, (asked, end)). (cm, Runs-result _ _ _ written (rw asked refl, end)),
  )
