-- ===== src/Actions/CreateVm/Found.antt =====
-- `HasVM` of a VM that `Create` has made.
use kubernetes_cpi.Base.{
  String, ◌<>◌, ◌≡◌, refl, sym, ap, ◌∙◌, Bool, true, false, Option, none, some, List, [], ◌∷◌,
  lookup, dict_of,
}
use kubernetes_cpi.Exec.{returns, ok, lift, call, ◌>>=◌}
use kubernetes_cpi.Exec.Keeps.{Leaves}
use kubernetes_cpi.Exec.Returns.{
  Runs, of_result-returns, call-step, wrapped-step, plain-step, pure-value, pure-Runs,
}
use kubernetes_cpi.Text.{is_empty}
use kubernetes_cpi.Cpi
use kubernetes_cpi.Cpi.{Networks}
use kubernetes_cpi.Cid.{new_vmcid}
use kubernetes_cpi.Cid.Laws.{has_colon, parse-new_vmcid}
use kubernetes_cpi.Kube.Objects.{Pod}
use kubernetes_cpi.Kube.World.{World, Client}
use kubernetes_cpi.Actions.Names.{agent_id_label}
use kubernetes_cpi.Actions.CreateVm.Props.{Resources, VmCloudProperties}
use kubernetes_cpi.Actions.CreateVm.{VmCreator, create_workload, create}
use kubernetes_cpi.Actions.CreateVm.Pods.{agent_pod, create_pod}
use kubernetes_cpi.Actions.Vms.{has_vm}

-- What the API server does with pods while nobody else writes: a listing by a label answers with the
-- pods that carry it, and a pod that was created is among them; a new client leaves the pods. The
-- context of a client names the same client at any time.
pub record ListsPods (W : World) : Type 0 where
  -- The pods with an agent's label.
  pub labelled : W.State → Client → String → List Pod
  pub list :
      (c : Client) (agent_id selector : String) (s : W.State)
      → W.parse_selector (agent_id_label <> "=" <> agent_id) ≡ ok selector
      → (W.pods.list c selector s).0 ≡ ok (labelled s c agent_id)
  pub create :
      (c : Client) (pod : Pod) (agent_id : String) (s : W.State) (q : Pod)
      → (W.pods.create c pod s).0 ≡ ok q
      → lookup agent_id_label (dict_of pod.meta.labels) ≡ some agent_id
      → is_empty (labelled (W.pods.create c pod s).1 c agent_id) ≡ false
  pub new_client_leaves : (x : String) → Leaves labelled (W.new_client x)
  pub new_client :
      (x : String) (c : Client) (s t : W.State)
      → (W.new_client x s).0 ≡ ok c
      → (W.new_client c.context t).0 ≡ ok c

module _ (W : World) (L : ListsPods W) where
  first_found :
      (items : List Pod) (context : String)
      → is_empty items ≡ false
      → (elim (elim items as (λ _. String × Option Pod) [
        | [] ↦ ("", none)
        | pod ∷ rest ↦ (context, some pod)
      ]).1
          as (λ _. Bool) [ none ↦ false | some pod ↦ true ])
        ≡ true
  first_found [] context h = cc
  first_found (pod ∷ rest) context h = refl

  has_vm-labelled :
      (client : Client) (agent_id selector : String) (t : W.State)
      → has_colon client.context ≡ false
      → W.parse_selector (agent_id_label <> "=" <> agent_id) ≡ ok selector
      → (W.new_client client.context t).0 ≡ ok client
      → is_empty (L.labelled t client agent_id) ≡ false
      → (has_vm W (new_vmcid client.context agent_id) t).0 ≡ returns true
  unfolding has_vm ◌>>=◌
  has_vm-labelled client agent_id selector t no_colon parsed found there =
      rw (parse-new_vmcid client.context agent_id no_colon) (
        rw parsed (
          rw found (
            rw
              (
                L.list client agent_id selector (W.new_client client.context t).1 parsed,
                (L.new_client_leaves client.context).at t,
              )
              (ap (λ b. returns b) (first_found _ client.context there)))))

  created_pod :
      (client : Client) (agent_id image : String) (nw : Cpi.Network) (resources : Resources)
      (s t : W.State) {pod : Pod}
      → Runs (create_pod W client client.namespace agent_id image nw resources) s pod t
      → is_empty (L.labelled t client agent_id) ≡ false
  unfolding create_pod agent_pod lift call lookup
  created_pod client agent_id image nw resources s t h = wrapped-step _ _ _ _ h λ reqs required h1.
      ap (λ x. is_empty (L.labelled x client agent_id)) (sym (h1.1))
      ∙ L.create client _ agent_id _ _ (of_result-returns _ (h1.0)) refl

  -- On a server on which nobody else writes, where the agent's label can be selected, and in whose
  -- configuration no name of a context has a colon: `HasVM` finds a VM that was created with no number
  -- of replicas.
  pub create-has_vm :
      (v : VmCreator) (agent_id image selector : String) (props : VmCloudProperties)
      (networks : Networks) (disk_cids : List String) (env cid : String) (s t : W.State)
      → props.replicas ≡ none
      → W.parse_selector (agent_id_label <> "=" <> agent_id) ≡ ok selector
      → ((c : Client) → (W.new_client props.context s).0 ≡ ok c → has_colon c.context ≡ false)
      → (create W v agent_id image props networks disk_cids env s).0 ≡ returns cid
      → (create W v agent_id image props networks disk_cids env s).1 ≡ t
      → (has_vm W cid t).0 ≡ returns true
  unfolding create lift create_workload
  create-has_vm v agent_id image selector props networks disk_cids env cid s t single selected
        no_colon done end =
      wrapped-step _ _ _ _ (done, end)
        λ nw one h1. call-step _ _ _ _ h1 λ client found h2. wrapped-step _ _ _ _ h2 λ u named h3.
          wrapped-step _ _ _ _ h3 λ settings made h4. wrapped-step _ _ _ _ h4 λ cm configured h5.
            wrapped-step _ _ _ _ h5 λ u' served h6. wrapped-step _ _ _ _ h6 λ u'' kept h7.
              plain-step _ _ _ (rw single at h7) λ w worked h8.
                wrapped-step _ _ _ _ (worked, refl)
                  λ pod created h9.
                    ap (λ c. (has_vm W c t).0) (sym (pure-value _ _ h8))
                    ∙ has_vm-labelled client agent_id selector t (no_colon client found) selected
                        (L.new_client props.context client _ t found)
                        (ap (λ x. is_empty (L.labelled x client agent_id))
                            (sym (pure-Runs _ _ h9 ∙ pure-Runs _ _ h8))
                          ∙ created_pod client agent_id image nw props.resources _ _
                              (created, refl))
