-- ===== src/Actions/Vms/Deletion.antt =====
-- What `Delete` removes, and what it leaves.
use kubernetes_cpi.Base.{ℕ, String, ◌≡◌, List, [], ◌∷◌}
use kubernetes_cpi.Exec.{returns, ok}
use kubernetes_cpi.Exec.Keeps.{
  Keeps, Leaves, keeps_rules, Keeps-then, Keeps-wrapping, Keeps-call-bind, Keeps-lift-bind,
}
use kubernetes_cpi.Cid.{parse_vmcid}
use kubernetes_cpi.Kube.Objects.{Service}
use kubernetes_cpi.Kube.World.{World, Client}
use kubernetes_cpi.Kube.Spares.{Ambient}
use kubernetes_cpi.Actions.Vms.{
  delete_pod, delete_config_map, delete_each, delete_services, delete_vm,
}

-- A view of the cluster that is left alone by the calls of a client that delete a VM.
pub record Outside (W : World) {X : Type 0} (view : W.State → X) (c : Client) : Type 0 where
  pub delete_pod : (n : String) (g : ℕ) → Leaves view (W.pods.delete c n g)
  pub list_services : (l : String) → Leaves view (W.services.list c l)
  pub delete_service : (n : String) (g : ℕ) → Leaves view (W.services.delete c n g)
  pub delete_config : (n : String) (g : ℕ) → Leaves view (W.config_maps.delete c n g)

-- `delete_vm` asks only for pods, services and config maps: a view of anything else, which the calls
-- on those leave alone, is the same after it, whether it succeeds or fails.
module _ (W : World) {X : Type 0} (view : W.State → X) (M : Ambient W view) where
  module _ (c : Client) (O : Outside W view c) where
    delete_pod-Keeps : (agent_id : String) → Keeps view (delete_pod W c agent_id)
    unfolding delete_pod
    delete_pod-Keeps agent_id = record { at = λ s. (O.delete_pod _ 0).at s }

    delete_config_map-Keeps : (agent_id : String) → Keeps view (delete_config_map W c agent_id)
    unfolding delete_config_map
    delete_config_map-Keeps agent_id = record { at = λ s. (O.delete_config _ 0).at s }

    delete_each-Keeps : (services : List Service) → Keeps view (delete_each W c services)
    unfolding delete_each
    delete_each-Keeps [] = search keeps_rules
    delete_each-Keeps (service ∷ services) =
        Keeps-then _ _ (search (keeps_rules, O.delete_service)) (delete_each-Keeps services)

    delete_services-Keeps : (agent_id : String) → Keeps view (delete_services W c agent_id)
    unfolding delete_services
    delete_services-Keeps agent_id =
        search (keeps_rules, O.list_services, delete_each-Keeps) depth 12

  -- Deleting a VM, with whatever result, leaves every view of the cluster that deleting pods, listing
  -- and deleting services, and deleting config maps, by clients of the VM's context, leave. A
  -- deployment of the agent is such a view: it is not removed.
  pub delete_vm-Keeps :
      (vmcid : String) (s : W.State)
      → ((context agent_id : String) (t : W.State) (c : Client)
          → parse_vmcid vmcid ≡ returns (context, agent_id)
          → (W.new_client context t).0 ≡ ok c
          → Outside W view c)
      → view (delete_vm W vmcid s).1 ≡ view s
  unfolding delete_vm
  delete_vm-Keeps vmcid s outside =
      let whole : Keeps view (delete_vm W vmcid) = Keeps-lift-bind _ _ λ vm parsed.
        Keeps-call-bind _ _ _ (M.new_client vm.0) λ t c found.
          let O = outside vm.0 vm.1 t c parsed found in
          Keeps-then _ _ (Keeps-wrapping _ _ (delete_pod-Keeps c O vm.1)) (
            Keeps-then _ _ (Keeps-wrapping _ _ (delete_services-Keeps c O vm.1))
              (Keeps-wrapping _ _ (delete_config_map-Keeps c O vm.1))) in
      whole.at s
