-- ===== src/Actions/Disks.antt =====
-- actions/create_disk.go, delete_disk.go, has_disk.go and set_disk_metadata.go. A disk is a
-- persistent volume claim.
pub mod Labels
pub mod Create
pub mod Found
pub mod Views
pub mod Gone
pub mod Progress
use kubernetes_cpi.Base.{
  ℕ, String, ◌<>◌, Bool, true, false, not, Option, none, some, List, [], ◌∷◌, Dict, insert, dict_of,
  ◌==◌, if◌then◌else◌,
}
use kubernetes_cpi.Exec.{
  Error, Outcome, returns, fails, Result, of_result, errorf, Call, Exec, pure, lift, call, wrapping,
  ◌>>=◌, ◌>>◌,
}
use kubernetes_cpi.Text.{replace_colons, join, decimal, is_empty}
use kubernetes_cpi.Cid.{parse_disk_cid, new_disk_cid}
use kubernetes_cpi.Kube.Objects.{Foreign, ObjectMeta, PersistentVolumeClaim}
use kubernetes_cpi.Kube.Watch.{watch_loop}
use kubernetes_cpi.Kube.World.{World, Client}
use kubernetes_cpi.Actions.Names.{disk_id_label, disk_name}

pub record CreateDiskCloudProperties : Type 0 where
  pub context : String
  pub storage_class : String
  pub storage_provisioner : String

-- The claim that `CreateDisk` asks for.
unfoldable pub disk_claim :
    CreateDiskCloudProperties → String → String → Foreign → PersistentVolumeClaim
disk_claim cloud_props namespace disk_id volume_size = record {
  meta = record {
    name = disk_name disk_id;
    namespace = namespace;
    annotations = some (
        ("volume.beta.kubernetes.io/storage-class", cloud_props.storage_class)
        ∷ ("volume.beta.kubernetes.io/storage-provisioner", cloud_props.storage_provisioner)
        ∷ []);
    labels = some ((disk_id_label, disk_id) ∷ []);
    resource_version = "";
    generation = 0;
    rest = "";
  };
  access_modes = "ReadWriteMany" ∷ [];
  resources = record { limits = none; requests = some (("storage", volume_size) ∷ []) };
  phase = "";
}

unfoldable pub is_disk_ready : PersistentVolumeClaim → Bool
is_disk_ready pvc = if not (pvc.phase == "Bound") then false else true

-- One pair of the metadata, as a label: the prefixed key and the value.
abbrev pub label_key : String → String
label_key k = "bosh.cloudfoundry.org/" <> k

unfoldable pub label_value : String → String → String
label_value k v = if k == "attached_at" then replace_colons v else v

abbrev pub disk_error : String → String → List String → Error
disk_error k v errs =
    errorf "Error setting disk metadata: \"%s\": \"%s\": %s" (k ∷ v ∷ join ": " errs ∷ [])

module _ (W : World) where
  -- The loop over the metadata: the labels of the claim, or the first complaint.
  unfoldable pub set_disk_labels : Dict String → Dict String → Outcome (Dict String)
  unfolding label_value
  set_disk_labels [] labels = returns labels
  set_disk_labels ((k, v) ∷ metadata) labels =
      let value = label_value k v in
      let key = label_key k in
      let rest = set_disk_labels metadata (insert key value labels) in
      let key_errs = W.is_qualified_name key in
      let value_errs = W.is_valid_label_value value in
      if not (is_empty key_errs)
      then fails (disk_error key value key_errs)
      else if not (is_empty value_errs)
      then fails (disk_error key value value_errs)
      else rest

  unfoldable pub wait_for_disk : ℕ → Client → String → String → Exec W.State (Unit {0})
  unfolding watch_loop is_disk_ready
  wait_for_disk timeout client disk_id resource_version = do
    selector ←
        wrapping "Parsing disk selector"
          (lift (of_result (W.parse_selector (disk_id_label <> "=" <> disk_id))))
    signals ← wrapping "Watching PVC" (
        call (
          W.claims.watch client
            (record { label_selector = selector; resource_version = resource_version }) timeout))
    lift (
        watch_loop (λ pvc. returns (is_disk_ready pvc)) "Unexpected pvc watch event: %s"
          "Pod recreate failed with a timeout" signals)

  unfoldable pub create_disk :
      Call W.State String → ℕ → ℕ → CreateDiskCloudProperties → String → Exec W.State String
  unfolding disk_claim wait_for_disk decimal new_disk_cid
  create_disk guid_generator disk_ready_timeout size cloud_props vmcid = do
    disk_id ← wrapping "Creating disk" (call guid_generator)
    volume_size ←
        wrapping "Parsing quantity" (lift (of_result (W.parse_quantity (decimal size <> "Gi"))))
    client ← wrapping "Creating client" (call (W.new_client cloud_props.context))
    pvc ← wrapping "Creating PVC" (
        call (W.claims.create client (disk_claim cloud_props client.namespace disk_id volume_size)))
    wrapping "Waiting for disk"
        (wait_for_disk disk_ready_timeout client disk_id pvc.meta.resource_version)
    pure (new_disk_cid client.context disk_id)

  unfoldable pub delete_disk : String → Exec W.State (Unit {0})
  unfolding parse_disk_cid
  delete_disk disk_cid = do
    disk ← lift (parse_disk_cid disk_cid)
    client ← wrapping "Creating client" (call (W.new_client disk.0))
    call (W.claims.delete client (disk_name disk.1) 0)

  unfoldable pub has_disk : String → Exec W.State Bool
  unfolding parse_disk_cid
  has_disk disk_cid = do
    disk ← lift (parse_disk_cid disk_cid)
    selector ←
        wrapping "Parsing disk selector"
          (lift (of_result (W.parse_selector (disk_id_label <> "=" <> disk.1))))
    client ← wrapping "Creating client" (call (W.new_client disk.0))
    items ← wrapping "Listing PVC options" (call (W.claims.list client selector))
    pure (not (is_empty items))

  unfoldable pub set_disk_metadata : String → Dict String → Exec W.State (Unit {0})
  unfolding parse_disk_cid set_disk_labels
  set_disk_metadata disk_cid metadata = do
    disk ← lift (parse_disk_cid disk_cid)
    client ← wrapping "Creating client" (call (W.new_client disk.0))
    pvc ← wrapping "Getting PVC" (call (W.claims.get client (disk_name disk.1)))
    labels ← lift (set_disk_labels metadata (dict_of pvc.meta.labels))
    wrapping "Updating PVC" (
        call (
          W.claims.update client
            (record pvc { meta = record (pvc.meta) { labels = some labels } })))
    pure tt
