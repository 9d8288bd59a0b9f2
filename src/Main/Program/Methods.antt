-- ===== src/Main/Program/Methods.antt =====
-- What each method of a request asks for: the types of its arguments and the action with its settings.
use kubernetes_cpi.Base.{ℕ, ◌*◌, String, ◌≡◌, refl, false, none, some, List, [], ◌∷◌}
use kubernetes_cpi.Exec.{
  Error, Outcome, returns, fails, panics, waits, Exec, Call, lift, ◌>>=◌, continue,
}
use kubernetes_cpi.Cid.{create_guid}
use kubernetes_cpi.Kube.World.{World}
use kubernetes_cpi.Actions.Stemcell
use kubernetes_cpi.Actions.VolumeManager.{VolumeManager}
use kubernetes_cpi.Actions.VolumeManager
use kubernetes_cpi.Actions.Disks
use kubernetes_cpi.Actions.Vms
use kubernetes_cpi.Actions.CreateVm.{AgentConfig, create}
use kubernetes_cpi.Dispatch.{Response, plain, new_response}
use kubernetes_cpi.Main.{
  Action, info, create_stemcell, delete_stemcell, create_vm, delete_vm, has_vm, set_vm_metadata,
  create_disk, attach_disk, set_disk_metadata, has_disk, delete_disk, detach_disk, get_disks,
  method_name,
}
use kubernetes_cpi.Main.Types.{
  GoType, GoValue, Value, Args, apply, text, stemcell_cid, vmcid, disk_cid, size, disk_cids,
  networks, environment, metadata, stemcell_properties, vm_properties, disk_properties, flag, texts,
}
use kubernetes_cpi.Main.Table.{
  parameters, function, value_results, error_results, with_value, only_error,
}

-- The response to an action that returns an error alone, and to one that returns a value and an
-- error: beside an error, the zero value.
module _ (message : Error → String) where
  abbrev error_response : Outcome (Unit {0}) → Outcome (Response Value)
  error_response (returns u) = returns (record { result = none; error = none })
  error_response (fails e) = returns (record { result = none; error = some (message e) })
  error_response (panics p) = panics p
  error_response waits = waits

  abbrev value_response : (t : GoType) → GoValue t → Outcome (GoValue t) → Outcome (Response Value)
  value_response t zero_value (returns v) =
      returns (record { result = some (plain (t, v)); error = none })
  value_response t zero_value (fails e) =
      returns (record { result = some (plain (t, zero_value)); error = some (message e) })
  value_response t zero_value (panics p) = panics p
  value_response t zero_value waits = waits

  abbrev answering_error : {S : Type 0} → Exec S (Unit {0}) → Exec S (Response Value)
  answering_error m s = (error_response (m s).0, (m s).1)

  abbrev answering_value :
      {S : Type 0} (t : GoType) → GoValue t → Exec S (GoValue t) → Exec S (Response Value)
  answering_value t zero_value m s = (value_response t zero_value (m s).0, (m s).1)

  only_error-answering_error :
      {S : Type 0} (m : Exec S (Unit {0})) (s : S)
      → (only_error m >>= λ results. lift (new_response message results)) s ≡ answering_error m s
  unfolding ◌>>=◌ lift new_response
  only_error-answering_error {S} m s = by (m s).0 (m s).1
    where
      by :
          (o : Outcome (Unit {0})) (t : S)
          → continue (error_results o) (λ results. lift (new_response message results)) t
            ≡ (error_response o, t)
      by (returns u) t = refl
      by (fails e) t = refl
      by (panics p) t = refl
      by waits t = refl

  with_value-answering_value :
      {S : Type 0} (type : GoType) (zero_value : GoValue type) (m : Exec S (GoValue type)) (s : S)
      → (with_value type zero_value m >>= λ results. lift (new_response message results)) s
        ≡ answering_value type zero_value m s
  unfolding ◌>>=◌ lift new_response
  with_value-answering_value {S} type zero_value m s = by (m s).0 (m s).1
    where
      by :
          (o : Outcome (GoValue type)) (t : S)
          → continue
              (value_results type zero_value o)
              (λ results. lift (new_response message results))
              t
            ≡ (value_response type zero_value o, t)
      by (returns v) t = refl
      by (fails e) t = refl
      by (panics p) t = refl
      by waits t = refl

module _ (W : World) (agent_config : AgentConfig) (new_uuid : Call W.State String)
    (message : Error → String) where
  abbrev manager : VolumeManager
  manager = record { pod_ready_timeout = 300 * 1000000000; post_recreate_delay = 15 * 1000000000 }

  -- The method, the types of its arguments, the arguments, and what is run for them; times are in
  -- nanoseconds.
  pub data Calls
      : String → (types : List GoType) → Args types → Exec W.State (Response Value) → Type 0 where
    calls_info :
        Calls "info" [] tt (λ s.
          (returns (record { result = some (plain (texts, Stemcell.info)); error = none }), s))
    calls_create_stemcell :
        {image : String} {props : GoValue stemcell_properties}
        → Calls "create_stemcell"
            (text ∷ stemcell_properties ∷ [])
            (image, (props, tt))
            (answering_value message stemcell_cid "" (Stemcell.create_stemcell image props))
    calls_delete_stemcell :
        {cid : String}
        → Calls "delete_stemcell"
            (stemcell_cid ∷ [])
            (cid, tt)
            (answering_error message (Stemcell.delete_stemcell cid))
    calls_create_vm :
        {agent_id stemcell : String} {props : GoValue vm_properties} {nws : GoValue networks}
        {disks : List String} {env : String}
        → Calls "create_vm"
            (text ∷ stemcell_cid ∷ vm_properties ∷ networks ∷ disk_cids ∷ environment ∷ [])
            (agent_id, (stemcell, (props, (nws, (disks, (env, tt))))))
            (answering_value message vmcid "" (
              create W
                (record {
                  agent_config = agent_config;
                  deployment_ready_timeout = 300 * 1000000000;
                })
                agent_id
                stemcell
                props
                nws
                disks
                env))
    calls_delete_vm :
        {vm : String}
        → Calls "delete_vm" (vmcid ∷ []) (vm, tt) (answering_error message (Vms.delete_vm W vm))
    calls_has_vm :
        {vm : String}
        → Calls "has_vm"
            (vmcid ∷ [])
            (vm, tt)
            (answering_value message flag false (Vms.has_vm W vm))
    calls_set_vm_metadata :
        {vm : String} {pairs : GoValue metadata}
        → Calls "set_vm_metadata"
            (vmcid ∷ metadata ∷ [])
            (vm, (pairs, tt))
            (answering_error message (Vms.set_vm_metadata W vm pairs))
    calls_create_disk :
        {gigabytes : ℕ} {props : GoValue disk_properties} {vm : String}
        → Calls "create_disk"
            (size ∷ disk_properties ∷ vmcid ∷ [])
            (gigabytes, (props, (vm, tt)))
            (answering_value message disk_cid "" (
              Disks.create_disk W
                (λ s. (create_guid (new_uuid s).0, (new_uuid s).1))
                (600 * 1000000000)
                gigabytes
                props
                vm))
    calls_attach_disk :
        {vm disk : String}
        → Calls "attach_disk"
            (vmcid ∷ disk_cid ∷ [])
            (vm, (disk, tt))
            (answering_error message (VolumeManager.attach_disk W manager vm disk))
    calls_set_disk_metadata :
        {disk : String} {pairs : GoValue metadata}
        → Calls "set_disk_metadata"
            (disk_cid ∷ metadata ∷ [])
            (disk, (pairs, tt))
            (answering_error message (Disks.set_disk_metadata W disk pairs))
    calls_has_disk :
        {disk : String}
        → Calls "has_disk"
            (disk_cid ∷ [])
            (disk, tt)
            (answering_value message flag false (Disks.has_disk W disk))
    calls_delete_disk :
        {disk : String}
        → Calls "delete_disk"
            (disk_cid ∷ [])
            (disk, tt)
            (answering_error message (Disks.delete_disk W disk))
    calls_detach_disk :
        {vm disk : String}
        → Calls "detach_disk"
            (vmcid ∷ disk_cid ∷ [])
            (vm, (disk, tt))
            (answering_error message (VolumeManager.detach_disk W manager vm disk))
    calls_get_disks :
        {vm : String}
        → Calls "get_disks"
            (vmcid ∷ [])
            (vm, tt)
            (answering_value message disk_cids [] (Vms.get_disks W vm))

  info_response :
      (s : W.State)
      → (function W agent_config new_uuid info >>= λ results. lift (new_response message results)) s
        ≡ (returns (record { result = some (plain (texts, Stemcell.info)); error = none }), s)
  unfolding ◌>>=◌ lift new_response function
  info_response s = refl

  -- The function for an action does what its method asks for.
  pub function-Calls :
      (action : Action) (args : Args (parameters action))
      → (run : Exec W.State (Response Value)) × Calls
          (method_name action)
          (parameters action)
          args
          run
        × ((s : W.State)
            → (apply (parameters action) (function W agent_config new_uuid action) args
                  >>= λ results. lift (new_response message results))
                s
              ≡ run s)
  unfolding function
  function-Calls info args = (_, calls_info, info_response)
  function-Calls create_stemcell (image, (props, u)) =
      (_, calls_create_stemcell, with_value-answering_value message stemcell_cid "" _)
  function-Calls delete_stemcell (cid, u) =
      (_, calls_delete_stemcell, only_error-answering_error message _)
  function-Calls create_vm (agent_id, (stemcell, (props, (nws, (disks, (env, u)))))) =
      (_, calls_create_vm, with_value-answering_value message vmcid "" _)
  function-Calls delete_vm (vm, u) = (_, calls_delete_vm, only_error-answering_error message _)
  function-Calls has_vm (vm, u) = (_, calls_has_vm, with_value-answering_value message flag false _)
  function-Calls set_vm_metadata (vm, (pairs, u)) =
      (_, calls_set_vm_metadata, only_error-answering_error message _)
  function-Calls create_disk (gigabytes, (props, (vm, u))) =
      (_, calls_create_disk, with_value-answering_value message disk_cid "" _)
  function-Calls attach_disk (vm, (disk, u)) =
      (_, calls_attach_disk, only_error-answering_error message _)
  function-Calls set_disk_metadata (disk, (pairs, u)) =
      (_, calls_set_disk_metadata, only_error-answering_error message _)
  function-Calls has_disk (disk, u) =
      (_, calls_has_disk, with_value-answering_value message flag false _)
  function-Calls delete_disk (disk, u) =
      (_, calls_delete_disk, only_error-answering_error message _)
  function-Calls detach_disk (vm, (disk, u)) =
      (_, calls_detach_disk, only_error-answering_error message _)
  function-Calls get_disks (vm, u) =
      (_, calls_get_disks, with_value-answering_value message disk_cids [] _)
