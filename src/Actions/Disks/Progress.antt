-- ===== src/Actions/Disks/Progress.antt =====
-- When `SetDiskMetadata` and `DeleteDisk` succeed.
use kubernetes_cpi.Base.{String, ◌≡◌, refl, ◌↔◌, some, Dict, dict_of}
use kubernetes_cpi.Exec.{returns, ok}
use kubernetes_cpi.Exec.Returns.{
  Runs, call-step, lift-step, pure-Runs, Runs-lift, Runs-bind, Runs-called, Runs-pure,
}
use kubernetes_cpi.Cid.{parse_disk_cid}
use kubernetes_cpi.Kube.Objects.{PersistentVolumeClaim}
use kubernetes_cpi.Kube.World.{World, Client}
use kubernetes_cpi.Actions.Names.{disk_name}
use kubernetes_cpi.Actions.Disks.{set_disk_metadata}
use kubernetes_cpi.Actions.Disks.Labels.{AllLabels, relabelled, set_disk_labels_iff}

module _ (W : World) where
  -- The claim of the disk with the pairs of the metadata among its labels.
  abbrev pub with_labels : Dict String → PersistentVolumeClaim → PersistentVolumeClaim
  with_labels metadata pvc = record pvc {
    meta = record (pvc.meta) { labels = some (relabelled W metadata (dict_of pvc.meta.labels)) };
  }

  -- The claim was read and stored with its new labels, all of which are labels for Kubernetes.
  abbrev pub Relabelled : String → Dict String → W.State → W.State → Type 0
  Relabelled disk_cid metadata s t =
      (context : String) × (disk_id : String) × (client : Client) × (pvc : PersistentVolumeClaim)
      × (stored : PersistentVolumeClaim) × (parse_disk_cid disk_cid ≡ returns (context, disk_id))
      × ((W.new_client context s).0 ≡ ok client)
      × AllLabels W metadata
      × (let got = W.claims.get client (disk_name disk_id) (W.new_client context s).1 in
          let asked = W.claims.update client (with_labels metadata pvc) got.1 in
          (got.0 ≡ ok pvc) × (asked.0 ≡ ok stored) × (asked.1 ≡ t))

  set_disk_metadata-Relabelled :
      (disk_cid : String) (metadata : Dict String) (s t : W.State)
      → Runs (set_disk_metadata W disk_cid metadata) s tt t
      → Relabelled disk_cid metadata s t
  unfolding set_disk_metadata
  set_disk_metadata-Relabelled disk_cid metadata s t h = lift-step _ _ _ h λ disk parsed h1.
      call-step _ _ _ _ h1 λ client found h2. call-step _ _ _ _ h2 λ pvc got h3.
        lift-step _ _ _ h3 λ labels accepted h4. call-step _ _ _ _ h4 λ stored updated h5.
          let (valid, written) = (set_disk_labels_iff W metadata _ labels).0 accepted in
          (
            disk.0,
            disk.1,
            client,
            pvc,
            stored,
            parsed,
            found,
            valid,
            (got, rw written updated, rw written (pure-Runs _ _ h5)),
          )

  Relabelled-set_disk_metadata :
      (disk_cid : String) (metadata : Dict String) (s t : W.State)
      → Relabelled disk_cid metadata s t
      → Runs (set_disk_metadata W disk_cid metadata) s tt t
  unfolding set_disk_metadata
  Relabelled-set_disk_metadata disk_cid metadata s t
        (context, disk_id, client, pvc, stored, parsed, found, valid, (got, updated, end)) =
      Runs-bind _ _ (Runs-lift _ s parsed) (
        Runs-called _ _ _ found (
          Runs-called _ _ _ got (
            Runs-bind _ _ (Runs-lift _ _ ((set_disk_labels_iff W metadata _ _).1 (valid, refl)))
              (Runs-called _ _ _ updated (Runs-pure _ end)))))

  -- Setting the metadata of a disk succeeds, and ends in the given state, exactly if its id names a
  -- context with a client and a disk, every pair of the metadata is a label for Kubernetes once its
  -- key has the prefix "bosh.cloudfoundry.org/" and, in the value of "attached_at", each colon is
  -- replaced, the disk's claim is read, and it is stored with the pairs in this form written over its
  -- labels in order.
  pub set_disk_metadata_iff :
      (disk_cid : String) (metadata : Dict String) (s t : W.State)
      → Runs (set_disk_metadata W disk_cid metadata) s tt t ↔ Relabelled disk_cid metadata s t
  set_disk_metadata_iff disk_cid metadata s t = (
    set_disk_metadata-Relabelled disk_cid metadata s t,
    Relabelled-set_disk_metadata disk_cid metadata s t,
  )
