-- ===== src/Actions/VolumeManager.antt =====
-- actions/volume_manager.go: a disk is attached or detached by rewriting the agent's config map and
-- recreating its pod.
pub mod Reference
pub mod Rebuild
pub mod Waiting
pub mod Effect
pub mod Attach
pub mod Failure
pub mod Progress
pub mod Views
pub mod Safety
use kubernetes_cpi.Base.{
  ℕ, String, ◌<>◌, Bool, true, false, ◌&&◌, not, Option, none, some, List, [], ◌∷◌, Dict, lookup,
  insert, erase, dict_of, ◌==◌, if◌then◌else◌,
}
use kubernetes_cpi.Exec.{
  Outcome, returns, fails, of_result, errorf, Exec, pure, fail, lift, call, wrapping, assign, ◌>>=◌,
  ◌>>◌,
}
use kubernetes_cpi.Agent
use kubernetes_cpi.Cid.{parse_vmcid, parse_disk_cid, new_disk_cid}
use kubernetes_cpi.Kube.Objects.{ObjectMeta, Pod, PodStatus, ContainerStatus, ConfigMap}
use kubernetes_cpi.Kube.Watch.{watch_loop}
use kubernetes_cpi.Kube.World.{World, Client}
use kubernetes_cpi.Actions.Names.{agent_id_label, agent_name, bosh_job, ip_address, mount_path_of}
use kubernetes_cpi.Actions.Volumes.{Operation, add, remove, update_volumes}

-- The map's text at a key, "" if the map is nil or lacks it.
abbrev pub text_of : Option String → String
text_of none = ""
text_of (some v) = v

abbrev pub text_at : String → Option (Dict String) → String
text_at k m = text_of (lookup k (dict_of m))

abbrev pub no_status : PodStatus
no_status = record { phase = ""; pod_ip = ""; container_statuses = []; rest = "" }

-- The annotations of the pod that is created again: the pod keeps its address.
unfoldable pub keep_address : Option (Dict String) → String → Dict String
keep_address annotations pod_ip =
    let kept = dict_of annotations in
    if text_at ip_address annotations == "" then insert ip_address pod_ip kept else kept

unfoldable pub rebuild : Operation → String → Pod → Pod
unfolding update_volumes keep_address
rebuild op disk_id pod = record {
  meta = record {
    name = pod.meta.name;
    namespace = pod.meta.namespace;
    annotations = some (keep_address pod.meta.annotations pod.status.pod_ip);
    labels = pod.meta.labels;
    resource_version = "";
    generation = 0;
    rest = "";
  };
  spec = update_volumes op pod.spec disk_id;
  status = no_status;
}

-- The persistent disks of the agent's settings.
unfoldable pub update_disks : Operation → String → String → Agent.Settings → Agent.Settings
update_disks op disk_cid disk_id settings =
    let disks = dict_of settings.disks.persistent in
    record settings {
      disks = record {
        persistent = some (elim op [
          | add ↦ insert disk_cid (mount_path_of disk_id) disks
          | remove ↦ erase disk_cid disks
        ]);
      };
    }

-- The first status of the agent's container counts.
unfoldable pub job_running : List ContainerStatus → Bool
job_running [] = false
job_running (c ∷ statuses) =
    let rest = job_running statuses in if c.name == bosh_job then c.ready && c.running else rest

unfoldable pub is_agent_container_running : Pod → Bool
unfolding job_running
is_agent_container_running pod =
    if pod.status.phase == "Running" then job_running pod.status.container_statuses else false

pub record VolumeManager : Type 0 where
  pub pod_ready_timeout : ℕ
  pub post_recreate_delay : ℕ

module _ (W : World) where
  unfoldable pub update_config_map_disks :
      Client → Operation → String → String → Exec W.State (Unit {0})
  unfolding update_disks
  update_config_map_disks client op agent_id disk_id = do
    cm ← wrapping "Getting configMaps" (call (W.config_maps.get client (agent_name agent_id)))
    settings ←
        wrapping "Unmarshalling instance settings"
          (lift (of_result (W.unmarshal_settings (text_at "instance_settings" cm.contents))))
    let disk_cid = new_disk_cid client.context disk_id
    settings_json ←
        wrapping "instance settings"
          (lift (of_result (W.marshal_settings (update_disks op disk_cid disk_id settings))))
    contents ← lift (assign "instance_settings" settings_json cm.contents)
    wrapping "Updating configMap"
        (call (W.config_maps.update client (record cm { contents = contents })))
    pure tt

  unfoldable pub wait_for_pod : ℕ → Client → String → String → Exec W.State (Unit {0})
  unfolding watch_loop is_agent_container_running
  wait_for_pod timeout client agent_id resource_version = do
    selector ←
        wrapping "Parsing agent selector"
          (lift (of_result (W.parse_selector (agent_id_label <> "=" <> agent_id))))
    signals ← wrapping "Watching pod" (
        call (
          W.pods.watch client
            (record { label_selector = selector; resource_version = resource_version }) timeout))
    lift (
        watch_loop (λ pod. returns (is_agent_container_running pod))
          "Unexpected pod watch event: %s" "Pod create failed with a timeout" signals)

  unfoldable pub recreate_pod :
      VolumeManager → Client → Operation → String → String → Exec W.State (Unit {0})
  unfolding update_config_map_disks rebuild wait_for_pod
  recreate_pod v client op agent_id disk_id = do
    pod ← wrapping "Getting pod" (call (W.pods.get client (agent_name agent_id)))
    wrapping "Updating disk configMap" (update_config_map_disks client op agent_id disk_id)
    wrapping "Deleting pod" (call (W.pods.delete client (agent_name agent_id) 0))
    updated ← wrapping "Recreating pod" (call (W.pods.create client (rebuild op disk_id pod)))
    wrapping "Waiting for pod recreate"
        (wait_for_pod v.pod_ready_timeout client agent_id updated.meta.resource_version)
    λ s. (returns tt, W.sleep v.post_recreate_delay s)

  -- `AttachDisk` and `DetachDisk` differ in the operation and in one message.
  unfoldable pub change_disk :
      VolumeManager → Operation → String → String → String → Exec W.State (Unit {0})
  unfolding recreate_pod parse_vmcid parse_disk_cid
  change_disk v op message vmcid disk_cid = do
    vm ← lift (parse_vmcid vmcid)
    disk ← lift (parse_disk_cid disk_cid)
    if not (disk.0 == vm.0)
        then fail (
            errorf
              "Kubernetes disk and resource pool contexts must be the same: disk: %q, resource pool: %q"
              (disk.0 ∷ vm.0 ∷ []))
        else (do
          client ← wrapping "Creating client" (call (W.new_client disk.0))
          wrapping message (recreate_pod v client op vm.1 disk.1))

  unfoldable pub attach_disk : VolumeManager → String → String → Exec W.State (Unit {0})
  unfolding change_disk
  attach_disk v = change_disk v add "Recreating pod to attach disk"

  unfoldable pub detach_disk : VolumeManager → String → String → Exec W.State (Unit {0})
  unfolding change_disk
  detach_disk v = change_disk v remove "Recreating pod to detach disk"
