-- ===== src/Actions/Vms/GetDisks.antt =====
-- Which disks `GetDisks` returns.
use kubernetes_cpi.Base.{
  String, ◌≡◌, refl, ap, ◌∙◌, true, Option, none, some, List, [], ◌∷◌, ◌++◌, lookup, dict_of,
}
use kubernetes_cpi.Exec.{Outcome, returns, Result, ok, err, ◌>>=◌}
use kubernetes_cpi.Cid.{new_disk_cid, parse_vmcid}
use kubernetes_cpi.Kube.Objects.{
  PersistentVolumeClaim, Volume, Pod, VolumeSource, persistent_volume_claim, PodSpec,
}
use kubernetes_cpi.Kube.World.{World, Client}
use kubernetes_cpi.Actions.Names.{disk_id_label, disk_name, agent_name}
use kubernetes_cpi.Actions.Volumes.{add_volume, disk_volume}
use kubernetes_cpi.Actions.Vms.{
  is_not_found_status_error, disk_cids_of, collect_disks, get_pv_claim, found_claim, claimed,
  get_disks,
}

-- Claims are read from `claim`, which reading does not change.
module _ (W : World) (client : Client) (s : W.State) (claim : String → Result PersistentVolumeClaim)
    (reads : (name : String) → W.claims.get client name s ≡ (claim name, s)) where
  -- The claim is there or is not found.
  abbrev Readable : Result PersistentVolumeClaim → Type 0
  Readable (ok pvc) = Unit {0}
  Readable (err e) = is_not_found_status_error e ≡ true

  abbrev pub SourceReadable : VolumeSource → Type 0
  SourceReadable (persistent_volume_claim name) = Readable (claim name)
  SourceReadable _ = Unit {0}

  abbrev pub AllReadable : List Volume → Type 0
  AllReadable [] = Unit {0}
  AllReadable (v ∷ volumes) = SourceReadable v.source × AllReadable volumes

  abbrev id_of : Result PersistentVolumeClaim → Option String
  id_of (ok pvc) = lookup disk_id_label (dict_of pvc.meta.labels)
  id_of (err e) = none

  -- The disk id that the volume's claim is labelled with.
  abbrev pub source_id : VolumeSource → Option String
  source_id (persistent_volume_claim name) = id_of (claim name)
  source_id _ = none

  abbrev cids : String → Option String → List String → List String
  cids context none rest = rest
  cids context (some disk_id) rest = new_disk_cid context disk_id ∷ rest

  -- The disk ids of the volumes whose claims carry one, in the order of the volumes.
  abbrev pub disks_of : String → List Volume → List String
  disks_of context [] = []
  disks_of context (v ∷ volumes) = cids context (source_id v.source) (disks_of context volumes)

  abbrev Reads :
      String → Option String → List String → Outcome (Option PersistentVolumeClaim) → Type 0
  Reads context id rest found =
      (o : Option PersistentVolumeClaim) × (found ≡ returns o)
      × (disk_cids_of context o ++ rest ≡ cids context id rest)

  labelled :
      (context : String) (pvc : PersistentVolumeClaim) (rest : List String) (id : Option String)
      → lookup disk_id_label (dict_of pvc.meta.labels) ≡ id
      → disk_cids_of context (some pvc) ++ rest ≡ cids context id rest
  unfolding disk_cids_of
  labelled context pvc rest none e = rw e
  labelled context pvc rest (some disk_id) e = rw e

  read_result :
      (context : String) (rest : List String) (r : Result PersistentVolumeClaim)
      → Readable r
      → Reads context (id_of r) rest (found_claim (claimed r))
  unfolding disk_cids_of
  read_result context rest (ok pvc) h = (some pvc, refl, labelled context pvc rest _ refl)
  read_result context rest (err e) h = (none, rw h, refl)

  read_source :
      (context : String) (source : VolumeSource) (rest : List String)
      → SourceReadable source
      → Reads context (source_id source) rest (found_claim (get_pv_claim W client source s).0)
        × ((get_pv_claim W client source s).1 ≡ s)
  unfolding get_pv_claim disk_cids_of
  read_source context (persistent_volume_claim name) rest h =
      rw (reads name) (read_result context rest (claim name) h, refl)
  read_source context _ rest h = ((none, refl, refl), refl)

  collect_disks-eq :
      (context : String) (volumes : List Volume)
      → AllReadable volumes
      → collect_disks W client context volumes s ≡ (returns (disks_of context volumes), s)
  unfolding collect_disks ◌>>=◌
  collect_disks-eq context [] h = refl
  collect_disks-eq context (v ∷ volumes) (hv, h) =
      let ((o, found, listed), same) = read_source context v.source (disks_of context volumes) hv in
      rw (found, same) (rw (collect_disks-eq context volumes h) (rw listed))

  disks_of-append :
      (context : String) (volumes : List Volume) (v : Volume)
      → disks_of context (volumes ++ (v ∷ []))
        ≡ disks_of context volumes ++ cids context (source_id v.source) []
  disks_of-append context [] v = refl
  disks_of-append context (u ∷ volumes) v =
      ap (cids context (source_id u.source)) (disks_of-append context volumes v)
      ∙ cids-append context (source_id u.source) (disks_of context volumes) _
    where
      cids-append :
          (context : String) (o : Option String) (xs ys : List String)
          → cids context o (xs ++ ys) ≡ cids context o xs ++ ys
      cids-append context none xs ys = refl
      cids-append context (some d) xs ys = refl

  -- A disk whose volume is added to a pod is listed last, after the disks that were listed before, if
  -- its claim carries its label.
  pub disks_of-add_volume :
      (context disk_id : String) (spec : PodSpec) (pvc : PersistentVolumeClaim)
      → claim (disk_name disk_id) ≡ ok pvc
      → lookup disk_id_label (dict_of pvc.meta.labels) ≡ some disk_id
      → disks_of context (add_volume spec disk_id).volumes
        ≡ disks_of context spec.volumes ++ (new_disk_cid context disk_id ∷ [])
  unfolding add_volume
  disks_of-add_volume context disk_id spec pvc found label =
      disks_of-append context spec.volumes (disk_volume disk_id) ∙ rw (found) (rw label)

-- If reading claims changes nothing, and each claim that the volumes of the agent's pod name is
-- there or not found, `GetDisks` returns the ids of the disks of these claims, in the order of the
-- volumes and with the VM's context, and leaves the state in which the pod was read; a claim that
-- is not found or has no disk label is passed over.
pub get_disks-eq :
    (W : World) (vmcid : String) (s s1 s2 : W.State) (claim : String → Result PersistentVolumeClaim)
    {context agent_id : String} {client : Client} {pod : Pod}
    (reads : (name : String) → W.claims.get client name s2 ≡ (claim name, s2))
    → parse_vmcid vmcid ≡ returns (context, agent_id)
    → W.new_client context s ≡ (ok client, s1)
    → W.pods.get client (agent_name agent_id) s1 ≡ (ok pod, s2)
    → AllReadable W client s2 claim reads pod.spec.volumes
    → get_disks W vmcid s
      ≡ (returns (disks_of W client s2 claim reads context pod.spec.volumes), s2)
unfolding get_disks ◌>>=◌
get_disks-eq W vmcid s s1 s2 claim {context} {client} {pod} reads parsed found got h =
    rw parsed
      (rw found (rw got (collect_disks-eq W client s2 claim reads context pod.spec.volumes h)))
