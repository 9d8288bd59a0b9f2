-- ===== src/Main/Isolation.antt =====
-- What a request leaves alone: everything that clients of the contexts that its arguments name do.
pub mod Served
use kubernetes_cpi.Base.{ℕ, String, ◌≡◌, refl, List, Dict}
use kubernetes_cpi.Exec.{returns, Call, Exec, Outcome, pure}
use kubernetes_cpi.Exec.Keeps.{Keeps, Leaves}
use kubernetes_cpi.Cid.{parse_vmcid, parse_disk_cid}
use kubernetes_cpi.Kube.Objects.{Pod}
use kubernetes_cpi.Kube.World.{World, Client}
use kubernetes_cpi.Kube.Spares.{Ambient, Spares, SparesContext}
use kubernetes_cpi.Actions.VolumeManager.Views.{Apart, attach_detach-Keeps}
use kubernetes_cpi.Actions.Vms.Deletion.{Outside, delete_vm-Keeps}
use kubernetes_cpi.Actions.Vms.Views.{has_vm-Keeps, set_vm_metadata-Keeps, get_disks-Keeps}
use kubernetes_cpi.Actions.Disks.Views.{
  create_disk-Keeps, delete_disk-Keeps, has_disk-Keeps, set_disk_metadata-Keeps,
}
use kubernetes_cpi.Actions.Stemcell
use kubernetes_cpi.Actions.CreateVm.{AgentConfig}
use kubernetes_cpi.Actions.CreateVm.Views.{Aside, create-Keeps}
use kubernetes_cpi.Main.{
  Action, info, create_stemcell, delete_stemcell, create_vm, delete_vm, has_vm, set_vm_metadata,
  create_disk, attach_disk, set_disk_metadata, has_disk, delete_disk, detach_disk, get_disks,
}
use kubernetes_cpi.Main.Types.{Args, apply}
use kubernetes_cpi.Main.Table.{parameters, function, vm_creator, guid_generator}

-- The context that the arguments of an action name, in its cloud properties or before the colon of a
-- VM's id or a disk's. Attaching and detaching go by the VM's.
abbrev pub Names : (action : Action) → Args (parameters action) → String → Type 0
Names info args x = ⊥
Names create_stemcell args x = ⊥
Names delete_stemcell args x = ⊥
Names create_vm (agent_id, (stemcell, (cloud_props, rest))) x = cloud_props.context ≡ x
Names delete_vm (vm, rest) x = (agent_id : String) × (parse_vmcid vm ≡ returns (x, agent_id))
Names has_vm (vm, rest) x = (agent_id : String) × (parse_vmcid vm ≡ returns (x, agent_id))
Names set_vm_metadata (vm, rest) x = (agent_id : String) × (parse_vmcid vm ≡ returns (x, agent_id))
Names create_disk (gigabytes, (cloud_props, rest)) x = cloud_props.context ≡ x
Names attach_disk (vm, rest) x = (agent_id : String) × (parse_vmcid vm ≡ returns (x, agent_id))
Names set_disk_metadata (disk, rest) x =
    (disk_id : String) × (parse_disk_cid disk ≡ returns (x, disk_id))
Names has_disk (disk, rest) x = (disk_id : String) × (parse_disk_cid disk ≡ returns (x, disk_id))
Names delete_disk (disk, rest) x = (disk_id : String) × (parse_disk_cid disk ≡ returns (x, disk_id))
Names detach_disk (vm, rest) x = (agent_id : String) × (parse_vmcid vm ≡ returns (x, agent_id))
Names get_disks (vm, rest) x = (agent_id : String) × (parse_vmcid vm ≡ returns (x, agent_id))

module _ {W : World} {X : Type 0} {view : W.State → X} {c : Client} (P : Spares W view c) where
  Spares-Apart : Apart W view c
  Spares-Apart = record {
    get_pod = P.pods.get;
    delete_pod = P.pods.delete;
    create_pod = P.pods.create;
    watch_pod = P.pods.watch;
    get_config = P.config_maps.get;
    update_config = P.config_maps.update;
  }

  Spares-Outside : Outside W view c
  Spares-Outside = record {
    delete_pod = P.pods.delete;
    list_services = P.services.list;
    delete_service = P.services.delete;
    delete_config = P.config_maps.delete;
  }

  Spares-Aside : Aside W view c
  Spares-Aside = record {
    get_namespace = P.namespaces.get;
    create_namespace = P.namespaces.create;
    create_config = P.config_maps.create;
    get_service = P.services.get;
    create_service = P.services.create;
    create_ingress = P.ingresses.create;
    get_secret = P.secrets.get;
    create_secret = P.secrets.create;
    create_pod = P.pods.create;
    create_deployment = P.deployments.create;
    watch_deployment = P.deployments.watch;
  }

module _ (W : World) {X : Type 0} (view : W.State → X) (M : Ambient W view)
    (agent_config : AgentConfig) (new_uuid : Call W.State String) (U : Leaves view new_uuid) where
  -- The function for an action leaves what the clients of the contexts that it names leave.
  pub function-Keeps :
      (action : Action) (args : Args (parameters action))
      → ((x : String) → Names action args x → SparesContext W view x)
      → Keeps view (apply (parameters action) (function W agent_config new_uuid action) args)
  unfolding function pure Stemcell.create_stemcell Stemcell.delete_stemcell
  function-Keeps info args P = record { at = λ s. refl }
  function-Keeps create_stemcell args P = record { at = λ s. refl }
  function-Keeps delete_stemcell args P = record { at = λ s. refl }
  function-Keeps create_vm (agent_id, (stemcell, (props, (nws, (disks, (env, u)))))) P = record {
    at = λ s.
        create-Keeps W view M (vm_creator W agent_config new_uuid) agent_id stemcell props nws disks
          env s λ t c h. Spares-Aside (P props.context refl t c h);
  }
  function-Keeps delete_vm (vm, u) P = record {
    at =
        λ s. delete_vm-Keeps W view M vm s λ x a t c h found. Spares-Outside (P x (a, h) t c found);
  }
  function-Keeps has_vm (vm, u) P = record {
    at = λ s. (has_vm-Keeps W view M vm λ x a h. P x (a, h)).at s;
  }
  function-Keeps set_vm_metadata (vm, (pairs, u)) P = record {
    at = λ s. (set_vm_metadata-Keeps W view M vm (λ x a h. P x (a, h)) pairs).at s;
  }
  function-Keeps create_disk (gigabytes, (props, (vm, u))) P = record {
    at = λ s.
        (create_disk-Keeps W view M (guid_generator W agent_config new_uuid) (record { at = U.at })
            _ gigabytes props vm (P props.context refl)).at
          s;
  }
  function-Keeps attach_disk (vm, (disk, u)) P = record {
    at = λ s.
        (attach_detach-Keeps W view M _ vm disk
          (λ x a t c h found. Spares-Apart (P x (a, h) t c found)) s).0;
  }
  function-Keeps set_disk_metadata (disk, (pairs, u)) P = record {
    at = λ s. (set_disk_metadata-Keeps W view M disk (λ x a h. P x (a, h)) pairs).at s;
  }
  function-Keeps has_disk (disk, u) P = record {
    at = λ s. (has_disk-Keeps W view M disk λ x a h. P x (a, h)).at s;
  }
  function-Keeps delete_disk (disk, u) P = record {
    at = λ s. (delete_disk-Keeps W view M disk λ x a h. P x (a, h)).at s;
  }
  function-Keeps detach_disk (vm, (disk, u)) P = record {
    at = λ s.
        (attach_detach-Keeps W view M _ vm disk
          (λ x a t c h found. Spares-Apart (P x (a, h) t c found)) s).1;
  }
  function-Keeps get_disks (vm, u) P = record {
    at = λ s. (get_disks-Keeps W view M vm λ x a h. P x (a, h)).at s;
  }
