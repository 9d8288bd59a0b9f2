-- ===== src/Actions/Disks/Views.antt =====
-- What creating, deleting, finding and labelling disks leave alone.
use kubernetes_cpi.Base.{ℕ, String, ◌≡◌, Dict}
use kubernetes_cpi.Exec.{returns, Call}
use kubernetes_cpi.Exec.Keeps.{
  Keeps, Leaves, keeps_rules, Keeps-bind, Keeps-call-bind, Keeps-lift-bind, Keeps-wrapping,
}
use kubernetes_cpi.Cid.{parse_disk_cid}
use kubernetes_cpi.Kube.World.{World, Client}
use kubernetes_cpi.Kube.Spares.{Ambient, Spares, SparesContext}
use kubernetes_cpi.Actions.Disks.{
  CreateDiskCloudProperties, wait_for_disk, create_disk, delete_disk, has_disk, set_disk_metadata,
}

module _ (W : World) {X : Type 0} (view : W.State → X) (M : Ambient W view) where
  wait_for_disk-Keeps :
      (timeout : ℕ) (c : Client) (disk_id resource_version : String)
      → Spares W view c
      → Keeps view (wait_for_disk W timeout c disk_id resource_version)
  unfolding wait_for_disk
  wait_for_disk-Keeps timeout c disk_id resource_version P =
      search (keeps_rules, P.claims.watch) depth 12

  pub create_disk-Keeps :
      (guid_generator : Call W.State String)
      → Leaves view guid_generator
      → (timeout size : ℕ) (cloud_props : CreateDiskCloudProperties) (vmcid : String)
      → SparesContext W view cloud_props.context
      → Keeps view (create_disk W guid_generator timeout size cloud_props vmcid)
  unfolding create_disk
  create_disk-Keeps guid_generator L timeout size cloud_props vmcid spares =
      Keeps-bind _ _ (search (keeps_rules, L) depth 12) λ disk_id.
        Keeps-bind _ _ (search keeps_rules) λ volume_size.
          Keeps-call-bind _ _ _ (M.new_client cloud_props.context) λ t c found.
            let P = spares t c found in
            Keeps-bind _ _ (search (keeps_rules, P.claims.create) depth 12) λ pvc.
              Keeps-bind _ _
                (Keeps-wrapping _ _
                  (wait_for_disk-Keeps timeout c disk_id pvc.meta.resource_version P))
                λ u. search keeps_rules

  module _ (disk_cid : String)
      (spares : (context disk_id : String)
        → parse_disk_cid disk_cid ≡ returns (context, disk_id)
        → SparesContext W view context) where
    pub delete_disk-Keeps : Keeps view (delete_disk W disk_cid)
    unfolding delete_disk
    delete_disk-Keeps = Keeps-lift-bind _ _ λ disk parsed.
        Keeps-call-bind _ _ _ (M.new_client disk.0) λ t c found.
          let P = spares disk.0 disk.1 parsed t c found in
          search (keeps_rules, P.claims.delete) depth 12

    pub has_disk-Keeps : Keeps view (has_disk W disk_cid)
    unfolding has_disk
    has_disk-Keeps = Keeps-lift-bind _ _ λ disk parsed.
        Keeps-bind _ _ (search keeps_rules) λ selector.
          Keeps-call-bind _ _ _ (M.new_client disk.0) λ t c found.
            let P = spares disk.0 disk.1 parsed t c found in
            search (keeps_rules, P.claims.list) depth 12

    pub set_disk_metadata-Keeps :
        (metadata : Dict String) → Keeps view (set_disk_metadata W disk_cid metadata)
    unfolding set_disk_metadata
    set_disk_metadata-Keeps metadata = Keeps-lift-bind _ _ λ disk parsed.
        Keeps-call-bind _ _ _ (M.new_client disk.0) λ t c found.
          let P = spares disk.0 disk.1 parsed t c found in
          search (keeps_rules, P.claims.get, P.claims.update) depth 20
