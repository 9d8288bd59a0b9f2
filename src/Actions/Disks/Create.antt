-- ===== src/Actions/Disks/Create.antt =====
-- What a successful `CreateDisk` has done.
use kubernetes_cpi.Base.{
  ℕ, String, some, none, [], ◌∷◌, fun_ext, subst, arith, ◌<>◌, ◌≡◌, refl, sym, ap, ◌∙◌, ◌↔◌, Bool,
  true, List, ◌==◌, eq_iff, Bool-cases, inl, inr,
}
use kubernetes_cpi.Exec.{Outcome, returns, ok, Call, lift, ◌>>=◌}
use kubernetes_cpi.Exec.Returns.{Runs, call-step, result-step, wrapped-step, pure-value}
use kubernetes_cpi.Text.{decimal}
use kubernetes_cpi.Cid.{new_disk_cid}
use kubernetes_cpi.Kube.Objects.{Foreign, PersistentVolumeClaim}
use kubernetes_cpi.Kube.Watch.{Signal, watch_loop}
use kubernetes_cpi.Kube.Watch.Laws.{Succeeds, watch_loop-success}
use kubernetes_cpi.Kube.World.{World, Client}
use kubernetes_cpi.Actions.Disks.{
  CreateDiskCloudProperties, disk_claim, is_disk_ready, wait_for_disk, create_disk,
}

-- A disk is ready exactly if its claim is bound.
pub is_disk_ready_iff :
    (pvc : PersistentVolumeClaim) → (is_disk_ready pvc ≡ true) ↔ (pvc.phase ≡ "Bound")
unfolding is_disk_ready
is_disk_ready_iff pvc = elim (Bool-cases (pvc.phase == "Bound")) [
  | inl bound ↦ (λ h. (eq_iff _ _).0 bound, λ h. rw bound)
  | inr other ↦ (λ h. cc (rw other at h), λ h. cc (sym other ∙ (eq_iff _ _).1 h))
]

abbrev pub bound : PersistentVolumeClaim → Outcome Bool
bound pvc = returns (pvc.phase == "Bound")

-- The claim for a disk: its name, its label, its annotations, its mode and its size.
abbrev pub asked_claim : String → String → String → String → Foreign → PersistentVolumeClaim
asked_claim storage_class provisioner namespace disk_id quantity = record {
  meta = record {
    name = "disk-" <> disk_id;
    namespace = namespace;
    labels = some (("bosh.cloudfoundry.org/disk-id", disk_id) ∷ []);
    annotations = some (
        ("volume.beta.kubernetes.io/storage-class", storage_class)
        ∷ ("volume.beta.kubernetes.io/storage-provisioner", provisioner)
        ∷ []);
    resource_version = "";
    generation = 0;
    rest = "";
  };
  access_modes = "ReadWriteMany" ∷ [];
  resources = record { limits = none; requests = some (("storage", quantity) ∷ []) };
  phase = "";
}

abbrev ready : PersistentVolumeClaim → Outcome Bool
ready pvc = returns (is_disk_ready pvc)

ready-bound : ready ≡ bound
unfolding is_disk_ready
ready-bound = fun_ext λ pvc. ap (λ (b : Bool). returns b) (ground arith)

watch_loop-bound :
    (unexpected timed_out : String) (signals : List (Signal PersistentVolumeClaim))
    → (watch_loop ready unexpected timed_out signals ≡ returns tt)
      ↔ Succeeds bound unexpected timed_out signals
watch_loop-bound unexpected timed_out signals =
    subst
      (λ f.
        (watch_loop ready unexpected timed_out signals ≡ returns tt)
        ↔ Succeeds f unexpected timed_out signals)
      ready-bound (watch_loop-success ready unexpected timed_out signals)

module _ (W : World) where
  -- The watch over the disk's claim has shown it bound.
  abbrev pub SeenBound : ℕ → Client → String → String → W.State → Type 0
  SeenBound timeout client disk_id version s =
      (selector : String) × (signals : List (Signal PersistentVolumeClaim)) × (W.parse_selector
          ("bosh.cloudfoundry.org/disk-id" <> "=" <> disk_id)
        ≡ ok selector)
      × ((W.claims.watch client (record { label_selector = selector; resource_version = version })
            timeout s).0
          ≡ ok signals)
      × Succeeds bound "Unexpected pvc watch event: %s" "Pod recreate failed with a timeout" signals

  pub wait_for_disk-success :
      (timeout : ℕ) (client : Client) (disk_id version : String) (s t : W.State)
      → Runs (wait_for_disk W timeout client disk_id version) s tt t
      → SeenBound timeout client disk_id version s
  unfolding wait_for_disk lift
  wait_for_disk-success timeout client disk_id version s t h =
      result-step _ _ _ _ h λ selector parsed h1. call-step _ _ _ _ h1 λ signals watched h2.
        (selector, signals, parsed, watched, (watch_loop-bound _ _ signals).0 h2.0)

  -- What was asked of the generator and the cluster, what the cluster answered, and the id.
  abbrev pub DiskCreated :
      Call W.State String → ℕ → ℕ → CreateDiskCloudProperties → W.State → String → Type 0
  DiskCreated guid timeout size props s cid =
      (disk_id : String) × (quantity : Foreign) × (client : Client) × (pvc : PersistentVolumeClaim)
      × ((guid s).0 ≡ ok disk_id)
      × (W.parse_quantity (decimal size <> "Gi") ≡ ok quantity)
      × ((W.new_client props.context (guid s).1).0 ≡ ok client)
      × (let asked =
            W.claims.create client
              (asked_claim props.storage_class props.storage_provisioner client.namespace disk_id
                quantity)
              (W.new_client props.context (guid s).1).1 in
          (asked.0 ≡ ok pvc) × SeenBound timeout client disk_id pvc.meta.resource_version asked.1)
      × (cid ≡ client.context <> (":" <> disk_id))

  created_disk :
      (guid : Call W.State String) (timeout size : ℕ) (props : CreateDiskCloudProperties)
      (vmcid : String) (s : W.State) {cid : String}
      → (create_disk W guid timeout size props vmcid s).0 ≡ returns cid
      → DiskCreated guid timeout size props s cid
  unfolding create_disk disk_claim new_disk_cid
  created_disk guid timeout size props vmcid s {cid} h =
      call-step _ _ _ _ (h, refl)
        λ disk_id generated h1. result-step _ _ _ _ h1 λ quantity parsed h2.
          call-step _ _ _ _ h2 λ client found h3. call-step _ _ _ _ h3 λ pvc asked h4.
            wrapped-step _ _ _ _ h4 λ u waited h5.
              let named = pure-value _ _ h5 in
              (
                disk_id,
                quantity,
                client,
                pvc,
                generated,
                parsed,
                found,
                (asked, wait_for_disk-success timeout client disk_id _ _ _ (waited, refl)),
                sym named,
              )

  create_disk_by :
      (guid : Call W.State String) (timeout size : ℕ) (props : CreateDiskCloudProperties)
      (vmcid : String) (s : W.State) {cid : String}
      → DiskCreated guid timeout size props s cid
      → (create_disk W guid timeout size props vmcid s).0 ≡ returns cid
  unfolding create_disk wait_for_disk disk_claim new_disk_cid ◌>>=◌
  create_disk_by guid timeout size props vmcid s
        (
          disk_id,
          quantity,
          client,
          pvc,
          generated,
          parsed,
          found,
          (asked, (selector, signals, selected, watched, shown)),
          named,
        ) =
      rw (generated) (
        rw (parsed) (
          rw (found) (
            rw (asked) (
              rw (selected) (
                rw (watched) (
                  rw ((watch_loop-bound _ _ signals).1 shown)
                    (ap (λ c. returns c) (sym named))))))))

  -- A disk is created, with the given id, exactly if its claim was created in the cluster, with the
  -- name and the label of a generated id, with the size in Gi and with the storage class and the
  -- provisioner of the cloud properties; then the watch for the label showed it bound before the
  -- timer and before anything unexpected; and the id is the client's context and the generated id.
  pub create_disk_iff :
      (guid : Call W.State String) (timeout size : ℕ) (props : CreateDiskCloudProperties)
      (vmcid : String) (s : W.State) (cid : String)
      → ((create_disk W guid timeout size props vmcid s).0 ≡ returns cid)
        ↔ DiskCreated guid timeout size props s cid
  create_disk_iff guid timeout size props vmcid s cid =
      (created_disk guid timeout size props vmcid s, create_disk_by guid timeout size props vmcid s)
