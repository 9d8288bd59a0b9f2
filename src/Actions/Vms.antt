-- ===== src/Actions/Vms.antt =====
-- actions/delete_vm.go, has_vm.go, set_vm_metadata.go and get_disks.go.
pub mod Deletion
pub mod Missing
pub mod Gone
pub mod Progress
pub mod GetDisks
pub mod Labels
pub mod Listing
pub mod Views
pub mod Metadata
use kubernetes_cpi.Base.{
  ℕ, String, ◌<>◌, Bool, true, false, not, ◌&&◌, Option, none, some, List, [], ◌∷◌, ◌++◌, Dict,
  insert, dict_of, lookup, ◌==◌, nat_eq, if◌then◌else◌,
}
use kubernetes_cpi.Exec.{
  Error, status, StatusReason, not_found, Outcome, returns, fails, Result, ok, err, wrap, of_result,
  errorf, Call, Exec, pure, lift, call, wrapping, assign, and_then, ◌>>=◌, ◌>>◌,
}
use kubernetes_cpi.Text.{to_lower, is_empty}
use kubernetes_cpi.Cid.{parse_vmcid, new_disk_cid}
use kubernetes_cpi.Kube.Objects.{
  Pod, PersistentVolumeClaim, Service, Volume, VolumeSource, persistent_volume_claim,
}
use kubernetes_cpi.Kube.World.{World, Client}
use kubernetes_cpi.Actions.Names.{agent_id_label, disk_id_label, agent_name}

-- A status error with the reason "not found" counts as done.
unfoldable pub unless_not_found : Result (Unit {0}) → Result (Unit {0})
unless_not_found (err (status not_found code message)) = ok tt
unless_not_found r = r

-- A status error with the code 404.
unfoldable pub is_not_found_status_error : Error → Bool
is_not_found_status_error (status reason code message) = nat_eq code 404
is_not_found_status_error _ = false

abbrev pub prefixed_key : (W : World) → String → String
prefixed_key W k = "bosh.cloudfoundry.org/" <> to_lower W.lower_unicode k

-- if err != nil && !isNotFoundStatusError(err) { return … }, and then the claim, if any. The object
-- that client-go hands out beside the error is empty or nil, and has no labels either way.
abbrev pub found_claim :
    Result (Option PersistentVolumeClaim) → Outcome (Option PersistentVolumeClaim)
found_claim (ok claim) = returns claim
found_claim (err e) =
    if not (is_not_found_status_error e) then fails (wrap "Getting PVC" e) else returns none

abbrev pub cid_if_labelled : String → Option String → List String
cid_if_labelled context none = []
cid_if_labelled context (some disk_id) = new_disk_cid context disk_id ∷ []

-- pvc.Labels["bosh.cloudfoundry.org/disk-id"], as the id of the disk
unfoldable pub disk_cids_of : String → Option PersistentVolumeClaim → List String
disk_cids_of context none = []
disk_cids_of context (some pvc) =
    cid_if_labelled context (lookup disk_id_label (dict_of pvc.meta.labels))

abbrev pub claimed : Result PersistentVolumeClaim → Result (Option PersistentVolumeClaim)
claimed (ok claim) = ok (some claim)
claimed (err e) = err e

abbrev pub found_pod : Result Pod → Outcome (Option Pod)
found_pod (ok pod) = returns (some pod)
found_pod (err e) =
    if is_not_found_status_error e then returns none else fails (wrap "Getting pod" e)

module _ (W : World) where
  unfoldable pub delete_pod : Client → String → Exec W.State (Unit {0})
  unfolding unless_not_found
  delete_pod client agent_id s =
      let (r, s') = W.pods.delete client (agent_name agent_id) 0 s in
      (of_result (unless_not_found r), s')

  unfoldable pub delete_config_map : Client → String → Exec W.State (Unit {0})
  unfolding unless_not_found
  delete_config_map client agent_id s =
      let (r, s') = W.config_maps.delete client (agent_name agent_id) 0 s in
      (of_result (unless_not_found r), s')

  unfoldable pub delete_each : Client → List Service → Exec W.State (Unit {0})
  delete_each client [] = pure tt
  delete_each client (service ∷ services) = do
    wrapping ("Deleting service " <> service.meta.name)
        (call (W.services.delete client service.meta.name 0))
    delete_each client services

  unfoldable pub delete_services : Client → String → Exec W.State (Unit {0})
  unfolding delete_each
  delete_services client agent_id = do
    selector ←
        wrapping "Parsing agent selector"
          (lift (of_result (W.parse_selector (agent_id_label <> "=" <> agent_id))))
    services ← wrapping "Listing service" (call (W.services.list client selector))
    delete_each client services

  unfoldable pub delete_vm : String → Exec W.State (Unit {0})
  unfolding parse_vmcid delete_pod delete_services delete_config_map
  delete_vm vmcid = do
    vm ← lift (parse_vmcid vmcid)
    client ← wrapping "Creating client" (call (W.new_client vm.0))
    wrapping "Deleting pod" (delete_pod client vm.1)
    wrapping "Deleting services" (delete_services client vm.1)
    wrapping "Deleting configmaps" (delete_config_map client vm.1)

  -- The context of the id and the first pod of the agent, or "" and none.
  unfoldable pub find_vm : String → Exec W.State (String × Option Pod)
  unfolding parse_vmcid
  find_vm vmcid = do
    vm ← lift (parse_vmcid vmcid)
    selector ←
        wrapping "Parsing agent selector"
          (lift (of_result (W.parse_selector (agent_id_label <> "=" <> vm.1))))
    client ← wrapping "Creating client" (call (W.new_client vm.0))
    items ← wrapping "Listing pod" (call (W.pods.list client selector))
    pure (elim items [ [] ↦ ("", none) | pod ∷ rest ↦ (vm.0, some pod) ])

  unfoldable pub has_vm : String → Exec W.State Bool
  unfolding find_vm
  has_vm vmcid = do found ← find_vm vmcid; pure (elim (found.1) [ none ↦ false | some pod ↦ true ])

  -- The loop over the metadata: a pair that is no valid label is left out. A write to a pod that has
  -- no labels at all, a nil map, panics.
  unfoldable pub set_vm_labels : Dict String → Option (Dict String) → Outcome (Option (Dict String))
  set_vm_labels [] labels = returns labels
  set_vm_labels ((k, v) ∷ metadata) labels =
      let key = prefixed_key W k in
      let valid = is_empty (W.is_qualified_name key) && is_empty (W.is_valid_label_value v) in
      and_then (if valid then assign key v labels else returns labels) (set_vm_labels metadata)

  unfoldable pub set_vm_metadata : String → Dict String → Exec W.State (Unit {0})
  unfolding parse_vmcid set_vm_labels
  set_vm_metadata vmcid metadata = do
    vm ← lift (parse_vmcid vmcid)
    client ← wrapping "Creating a client" (call (W.new_client vm.0))
    pod ← wrapping "Getting pod" (call (W.pods.get client (agent_name vm.1)))
    old ← wrapping "Marshalling old pod" (lift (of_result (W.marshal_pod pod)))
    labels ← lift (set_vm_labels metadata pod.meta.labels)
    let labelled = record pod { meta = record (pod.meta) { labels = labels } }
    new ← wrapping "Marshalling new pod" (lift (of_result (W.marshal_pod labelled)))
    patch ←
        wrapping "Creating TwoWayMergePatch" (lift (of_result (W.create_patch old new labelled)))
    wrapping "Patching pod" (call (W.patch_pod client pod.meta.name patch))
    pure tt

  unfoldable pub get_pv_claim : Client → VolumeSource → Call W.State (Option PersistentVolumeClaim)
  get_pv_claim client (persistent_volume_claim claim_name) s =
      let (r, s') = W.claims.get client claim_name s in (claimed r, s')
  get_pv_claim client _ s = (ok none, s)

  unfoldable pub collect_disks : Client → String → List Volume → Exec W.State (List String)
  unfolding get_pv_claim is_not_found_status_error disk_cids_of
  collect_disks client context [] = pure []
  collect_disks client context (v ∷ volumes) = do
    claim ← λ s. let (r, s') = get_pv_claim client v.source s in (found_claim r, s')
    rest ← collect_disks client context volumes
    pure (disk_cids_of context claim ++ rest)

  unfoldable pub get_disks : String → Exec W.State (List String)
  unfolding parse_vmcid collect_disks
  get_disks vmcid = do
    vm ← lift (parse_vmcid vmcid)
    client ← wrapping "Creating client" (call (W.new_client vm.0))
    pod ← λ s. let (r, s') = W.pods.get client (agent_name vm.1) s in (found_pod r, s')
    elim pod [ none ↦ pure [] | some p ↦ collect_disks client vm.0 p.spec.volumes ]
