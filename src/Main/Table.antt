-- ===== src/Main/Table.antt =====
-- cmd/cpi/main.go: the functions that the switch over the method dispatches to, with their parameter
-- types and their settings.
use kubernetes_cpi.Base.{ℕ, ◌*◌, String, false, none, some, List, [], ◌∷◌}
use kubernetes_cpi.Exec.{Outcome, returns, fails, panics, waits, Exec, Call, pure}
use kubernetes_cpi.Cid.{create_guid}
use kubernetes_cpi.Kube.World.{World}
use kubernetes_cpi.Actions.Stemcell
use kubernetes_cpi.Actions.VolumeManager.{VolumeManager}
use kubernetes_cpi.Actions.VolumeManager
use kubernetes_cpi.Actions.Disks
use kubernetes_cpi.Actions.Vms
use kubernetes_cpi.Actions.CreateVm.{AgentConfig, VmCreator, create}
use kubernetes_cpi.Dispatch.{Returned, plain, error_value}
use kubernetes_cpi.Main.{
  Action, info, create_stemcell, delete_stemcell, create_vm, delete_vm, has_vm, set_vm_metadata,
  create_disk, attach_disk, set_disk_metadata, has_disk, delete_disk, detach_disk, get_disks,
}
use kubernetes_cpi.Main.Types.{
  GoType, GoValue, Value, Func, text, stemcell_cid, vmcid, disk_cid, size, disk_cids, networks,
  environment, metadata, stemcell_properties, vm_properties, disk_properties, flag, texts,
}

-- time.Second, in nanoseconds
abbrev pub second : ℕ
second = 1000000000

abbrev pub default_disk_ready_timeout : ℕ
default_disk_ready_timeout = 600 * second

abbrev pub default_post_recreate_delay : ℕ
default_post_recreate_delay = 15 * second

abbrev pub default_pod_ready_timeout : ℕ
default_pod_ready_timeout = 300 * second

abbrev pub default_deployment_ready_timeout : ℕ
default_deployment_ready_timeout = 300 * second

-- The parameters of the function for an action.
abbrev pub parameters : Action → List GoType
parameters info = []
parameters create_stemcell = text ∷ stemcell_properties ∷ []
parameters delete_stemcell = stemcell_cid ∷ []
parameters create_vm = text ∷ stemcell_cid ∷ vm_properties ∷ networks ∷ disk_cids ∷ environment ∷ []
parameters delete_vm = vmcid ∷ []
parameters has_vm = vmcid ∷ []
parameters set_vm_metadata = vmcid ∷ metadata ∷ []
parameters create_disk = size ∷ disk_properties ∷ vmcid ∷ []
parameters attach_disk = vmcid ∷ disk_cid ∷ []
parameters set_disk_metadata = disk_cid ∷ metadata ∷ []
parameters has_disk = disk_cid ∷ []
parameters delete_disk = disk_cid ∷ []
parameters detach_disk = vmcid ∷ disk_cid ∷ []
parameters get_disks = vmcid ∷ []

abbrev pub Results : Type 0
Results = List (Returned Value)

-- What a function returns as (T, error): beside an error, the zero value.
abbrev pub value_results : (t : GoType) → GoValue t → Outcome (GoValue t) → Outcome Results
value_results t zero_value (returns v) = returns (plain (t, v) ∷ error_value none ∷ [])
value_results t zero_value (fails e) = returns (plain (t, zero_value) ∷ error_value (some e) ∷ [])
value_results t zero_value (panics p) = panics p
value_results t zero_value waits = waits

-- What a function returns as error.
abbrev pub error_results : Outcome (Unit {0}) → Outcome Results
error_results (returns u) = returns (error_value none ∷ [])
error_results (fails e) = returns (error_value (some e) ∷ [])
error_results (panics p) = panics p
error_results waits = waits

abbrev pub with_value : {S : Type 0} (t : GoType) → GoValue t → Exec S (GoValue t) → Exec S Results
with_value t zero_value m s = let (o, s') = m s in (value_results t zero_value o, s')

abbrev pub only_error : {S : Type 0} → Exec S (Unit {0}) → Exec S Results
only_error m s = let (o, s') = m s in (error_results o, s')

abbrev pub volume_manager : VolumeManager
volume_manager = record {
  pod_ready_timeout = default_pod_ready_timeout;
  post_recreate_delay = default_post_recreate_delay;
}

-- The generator of ids draws from the state of the world.
module _ (W : World) (agent_config : AgentConfig) (new_uuid : Call W.State String) where
  abbrev pub guid_generator : Call W.State String
  guid_generator s = let (r, s') = new_uuid s in (create_guid r, s')

  abbrev pub vm_creator : VmCreator
  vm_creator = record {
    agent_config = agent_config;
    deployment_ready_timeout = default_deployment_ready_timeout;
  }

  -- The function for an action, applied by reflection to the arguments of a request.
  unfoldable pub function : (action : Action) → Func (Exec W.State Results) (parameters action)
  function info = pure (plain (texts, Stemcell.info) ∷ [])
  function create_stemcell =
      λ image cloud_props. with_value stemcell_cid "" (Stemcell.create_stemcell image cloud_props)
  function delete_stemcell = λ cid. only_error (Stemcell.delete_stemcell cid)
  function create_vm = λ agent_id stemcell cloud_props nws disks env.
      with_value vmcid "" (create W vm_creator agent_id stemcell cloud_props nws disks env)
  function delete_vm = λ vm. only_error (Vms.delete_vm W vm)
  function has_vm = λ vm. with_value flag false (Vms.has_vm W vm)
  function set_vm_metadata = λ vm pairs. only_error (Vms.set_vm_metadata W vm pairs)
  function create_disk = λ gigabytes cloud_props vm.
      with_value disk_cid ""
        (Disks.create_disk W guid_generator default_disk_ready_timeout gigabytes cloud_props vm)
  function attach_disk = λ vm disk. only_error (VolumeManager.attach_disk W volume_manager vm disk)
  function set_disk_metadata = λ disk pairs. only_error (Disks.set_disk_metadata W disk pairs)
  function has_disk = λ disk. with_value flag false (Disks.has_disk W disk)
  function delete_disk = λ disk. only_error (Disks.delete_disk W disk)
  function detach_disk = λ vm disk. only_error (VolumeManager.detach_disk W volume_manager vm disk)
  function get_disks = λ vm. with_value disk_cids [] (Vms.get_disks W vm)
