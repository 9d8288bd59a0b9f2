-- ===== src/Actions/Vms/Views.antt =====
-- What finding and labelling VMs and listing their disks leave alone.
use kubernetes_cpi.Base.{String, ◌≡◌, refl, Option, none, some, List, [], ◌∷◌, Dict}
use kubernetes_cpi.Exec.{returns, pure}
use kubernetes_cpi.Exec.Keeps.{
  Keeps, Leaves, keeps_rules, Keeps-bind, Keeps-call-bind, Keeps-lift-bind,
}
use kubernetes_cpi.Cid.{parse_vmcid}
use kubernetes_cpi.Kube.Objects.{Pod, Volume, VolumeSource, persistent_volume_claim}
use kubernetes_cpi.Kube.World.{World, Client}
use kubernetes_cpi.Kube.Spares.{Ambient, Spares, SparesContext}
use kubernetes_cpi.Actions.Names.{agent_name}
use kubernetes_cpi.Actions.Vms.{
  get_pv_claim, find_vm, has_vm, set_vm_metadata, collect_disks, get_disks,
}

module _ (W : World) {X : Type 0} (view : W.State → X) (M : Ambient W view) where
  module _ (c : Client) (P : Spares W view c) where
    get_pv_claim-Leaves : (source : VolumeSource) → Leaves view (get_pv_claim W c source)
    unfolding get_pv_claim
    get_pv_claim-Leaves (persistent_volume_claim n) = record { at = λ s. (P.claims.get n).at s }
    get_pv_claim-Leaves _ = record { at = λ s. refl }

    collect_disks-Keeps :
        (context : String) (volumes : List Volume) → Keeps view (collect_disks W c context volumes)
    unfolding collect_disks
    collect_disks-Keeps context [] = search keeps_rules
    collect_disks-Keeps context (v ∷ volumes) =
        Keeps-bind _ _ (record { at = λ s. (get_pv_claim-Leaves v.source).at s })
          λ claim. Keeps-bind _ _ (collect_disks-Keeps context volumes) λ rest. search keeps_rules

  module _ (vmcid : String)
      (spares : (context agent_id : String)
        → parse_vmcid vmcid ≡ returns (context, agent_id)
        → SparesContext W view context) where
    find_vm-Keeps : Keeps view (find_vm W vmcid)
    unfolding find_vm
    find_vm-Keeps = Keeps-lift-bind _ _ λ vm parsed. Keeps-bind _ _ (search keeps_rules) λ selector.
        Keeps-call-bind _ _ _ (M.new_client vm.0) λ t c found.
          let P = spares vm.0 vm.1 parsed t c found in search (keeps_rules, P.pods.list) depth 12

    pub has_vm-Keeps : Keeps view (has_vm W vmcid)
    unfolding has_vm
    has_vm-Keeps = search (keeps_rules, find_vm-Keeps)

    pub set_vm_metadata-Keeps :
        (metadata : Dict String) → Keeps view (set_vm_metadata W vmcid metadata)
    unfolding set_vm_metadata
    set_vm_metadata-Keeps metadata = Keeps-lift-bind _ _ λ vm parsed.
        Keeps-call-bind _ _ _ (M.new_client vm.0) λ t c found.
          let P = spares vm.0 vm.1 parsed t c found in
          search (keeps_rules, P.pods.get, P.patch_pod) depth 20

    pub get_disks-Keeps : Keeps view (get_disks W vmcid)
    unfolding get_disks
    get_disks-Keeps = Keeps-lift-bind _ _ λ vm parsed.
        Keeps-call-bind _ _ _ (M.new_client vm.0) λ t c found.
          let P = spares vm.0 vm.1 parsed t c found in
          Keeps-bind _ _ (record { at = λ s. (P.pods.get (agent_name vm.1)).at s })
            λ pod. listed c P vm.0 pod
      where
        listed :
            (c : Client) (P : Spares W view c) (context : String) (pod : Option Pod)
            → Keeps {A = List String} view
                (elim pod [ none ↦ pure [] | some p ↦ collect_disks W c context p.spec.volumes ])
        listed c P context none = search keeps_rules
        listed c P context (some p) = collect_disks-Keeps c P context p.spec.volumes
