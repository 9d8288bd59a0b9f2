-- ===== src/Actions/CreateVm/Leftover.antt =====
-- What `Create` leaves once its last step is tried.
use kubernetes_cpi.Base.{String, ◌≡◌, refl, ap, ◌∙◌, false, some, List, [], Bool-cases, inl, inr}
use kubernetes_cpi.Exec.{errorf, fails, fail, pure, ◌>>=◌, ◌>>◌}
use kubernetes_cpi.Exec.Keeps.{Keeps, Keeps-bind, Keeps-pure}
use kubernetes_cpi.Cid.{new_vmcid}
use kubernetes_cpi.Cpi
use kubernetes_cpi.Cpi.{Networks}
use kubernetes_cpi.Kube.Objects.{ℤ}
use kubernetes_cpi.Kube.World.{World, Client}
use kubernetes_cpi.Actions.CreateVm.{VmCreator, create_workload, at_least_one, create}
use kubernetes_cpi.Actions.CreateVm.Props.{VmCloudProperties}
use kubernetes_cpi.Actions.CreateVm.Views.{Starts, create_workload-Keeps}
use kubernetes_cpi.Actions.CreateVm.Progress.Workload.{Positive, at_least_one-Positive}
use kubernetes_cpi.Actions.CreateVm.Progress.{Prepared, create-Prepared}

module _ (W : World) (v : VmCreator) (agent_id image : String) (props : VmCloudProperties)
    (networks : Networks) (disk_cids : List String) (env : String) where
  -- If the namespace, the config map, the services and the secrets of a VM are made, then whatever
  -- becomes of its pod or its deployment, and with whatever result, `Create` removes none of what
  -- was made: at its end, all that creating a pod, creating a deployment and watching deployments
  -- leave alone is as it was before the pod or the deployment was tried.
  pub create-leftover :
      {X : Type 0} (view : W.State → X) (s u : W.State) (nw : Cpi.Network) (client : Client)
      → Starts W view client
      → Prepared W v agent_id image props networks disk_cids env s nw client u
      → view (create W v agent_id image props networks disk_cids env s).1 ≡ view u
  create-leftover view s u nw client starts prepared =
      ap (λ r. view r.1)
        (create-Prepared W v agent_id image props networks disk_cids env s u nw client prepared)
      ∙ (workload-Keeps).at u
    where
      workload-Keeps : Keeps view (do
        create_workload W v client client.namespace agent_id image nw props props.replicas
        pure (new_vmcid client.context agent_id))
      workload-Keeps =
          Keeps-bind _ _
            (create_workload-Keeps W view client starts v client.namespace agent_id image nw props
              props.replicas)
            λ w. Keeps-pure _

  -- A number of replicas below one is refused only here.
  pub create-invalid_replicas :
      (s u : W.State) (nw : Cpi.Network) (client : Client) (replicas : ℤ)
      → Prepared W v agent_id image props networks disk_cids env s nw client u
      → props.replicas ≡ some replicas
      → ¬ Positive replicas
      → create W v agent_id image props networks disk_cids env s
        ≡ (fails (errorf "Invalid number of Replicas specified in Cloud Properties" []), u)
  unfolding create_workload fail ◌>>=◌
  create-invalid_replicas s u nw client replicas prepared given invalid =
      create-Prepared W v agent_id image props networks disk_cids env s u nw client prepared
      ∙ rw (given, not_positive) refl
    where
      not_positive : at_least_one replicas ≡ false
      not_positive = elim (Bool-cases (at_least_one replicas)) [
        | inl valid ↦ absurd (invalid (at_least_one-Positive replicas valid))
        | inr other ↦ other
      ]
