-- ===== src/Actions/Attached.antt =====
-- Attaching, detaching and listing together: `AttachDisk`, `DetachDisk` and `GetDisks` work on a VM's
-- list of disks, which the volumes of its pod and the labels of the claims stand for.
pub mod Attach
pub mod Detach
pub mod RoundTrip
use kubernetes_cpi.Base.{
  String, ◌≡◌, refl, sym, ap, subst, ◌∙◌, Bool, true, Option, none, some, List, [], ◌∷◌, ◌++◌, Dict,
  lookup, dict_of, ◌==◌, if◌then◌else◌, eq_refl, eq_iff, Bool-cases, inl, inr,
}
use kubernetes_cpi.Exec.{Outcome, returns, fails, panics, waits, Result, ok, and_then, ◌>>=◌}
use kubernetes_cpi.Exec.Keeps.{Leaves}
use kubernetes_cpi.Cid.{parse_vmcid, parse_disk_cid, new_disk_cid}
use kubernetes_cpi.Cid.Laws.{new-parse_vmcid, parse_disk_cid-eq, new_disk_cid-eq}
use kubernetes_cpi.Kube.Objects.{PodSpec, Pod, PersistentVolumeClaim, Volume}
use kubernetes_cpi.Kube.World.{World, Client}
use kubernetes_cpi.Kube.Server.{Server}
use kubernetes_cpi.Kube.Spares.{Ambient}
use kubernetes_cpi.Actions.Names.{agent_name, disk_name, disk_id_label}
use kubernetes_cpi.Actions.Volumes.{
  Operation, add, remove, update_volumes, add_volume, remove_volume, drop_volume, disk_volume,
}
use kubernetes_cpi.Actions.Volumes.Laws.{NoVolume, NoMounts, remove-add_volume}
use kubernetes_cpi.Actions.VolumeManager.{VolumeManager, attach_disk, detach_disk}
use kubernetes_cpi.Actions.VolumeManager.Attach.{DiskChanged, named-Changed}
use kubernetes_cpi.Actions.VolumeManager.Effect.{Changed}
use kubernetes_cpi.Actions.VolumeManager.Views.{Apart}
use kubernetes_cpi.Actions.Vms.{get_disks}
use kubernetes_cpi.Actions.Vms.Listing.{
  listed, joined, listed-append, listed-disk, collect_disks-listed,
}

-- Of a server that answers every reading of what it stores, while nobody else writes: what it
-- answers for claims stays, unless claims are written.
pub record Reads (W : World) (K : Server W) : Type 0 where
  pub claims : W.State → Client → String → Result PersistentVolumeClaim
  pub get_claim : (c : Client) (n : String) (s : W.State) → (W.claims.get c n s).0 ≡ claims s c n
  pub same_claims : (c : Client) (n : String) → Leaves claims (W.claims.get c n)
  pub ambient : Ambient W claims
  pub apart : (c : Client) → Apart W claims c
  pub new_client : (x : String) (s t : W.State) → (W.new_client x s).0 ≡ (W.new_client x t).0
  pub get_stored :
      (c : Client) (n : String) (s : W.State) {spec : PodSpec}
      → K.specs s c n ≡ some spec
      → (p : Pod) × ((W.pods.get c n s).0 ≡ ok p)

some_injective : {A : Type 0} {a b : A} → some a ≡ some b → a ≡ b
some_injective h = cc

pub new-parse_disk_cid :
    (disk_cid : String) {context disk_id : String}
    → parse_disk_cid disk_cid ≡ returns (context, disk_id)
    → new_disk_cid context disk_id ≡ disk_cid
new-parse_disk_cid disk_cid {context} {disk_id} parsed =
    new_disk_cid-eq context disk_id
    ∙ (new-parse_vmcid disk_cid (sym (parse_disk_cid-eq disk_cid) ∙ parsed)).0

module _ (W : World) (K : Server W) (R : Reads W K) (vmcid : String) {context agent_id : String}
    {client : Client} (parsed : parse_vmcid vmcid ≡ returns (context, agent_id)) where
  pub get_disks-listed :
      (s : W.State) {spec : PodSpec}
      → (W.new_client context s).0 ≡ ok client
      → K.specs s client (agent_name agent_id) ≡ some spec
      → (get_disks W vmcid s).0 ≡ listed (R.claims s client) context spec.volumes
  unfolding get_disks ◌>>=◌
  get_disks-listed s {spec} found stored =
      let s1 = (W.new_client context s).1 in
      let (pod, got) =
        R.get_stored client (agent_name agent_id) s1
          (ap (λ g. g client (agent_name agent_id)) (K.new_client_specs context s) ∙ stored) in
      let (here, named) = K.get_pod client (agent_name agent_id) s1 got in
      let same_spec : pod.spec ≡ spec = some_injective (
        sym here
        ∙ ap (λ g. g client (agent_name agent_id)) (K.new_client_specs context s)
        ∙ stored) in
      let s2 = (W.pods.get client (agent_name agent_id) s1).1 in
      rw parsed (
        rw found (
          rw got (
            collect_disks-listed W client (λ t. R.claims t client) (λ n t. R.get_claim client n t)
              (λ n. record { at = λ t. ap (λ g. g client) ((R.same_claims client n).at t) }) context
              pod.spec.volumes s2
            ∙ ap (λ (x : PodSpec). listed (R.claims s2 client) context x.volumes) same_spec
            ∙ ap (λ g. listed (g client) context spec.volumes)
                (((R.apart client).get_pod (agent_name agent_id)).at s1
                  ∙ (R.ambient.new_client context).at s))))

  module _ (v : VolumeManager) (disk_cid : String) {disk_id : String}
      (disk_parsed : parse_disk_cid disk_cid ≡ returns (context, disk_id)) where
    -- The change is that of the agent and the disk that the ids name.
    pub here-Changed :
        (op : Operation) (s t : W.State)
        → (W.new_client context s).0 ≡ ok client
        → DiskChanged W K v vmcid disk_cid op s t
        → Changed W K client op agent_id disk_id s t
    here-Changed op s t found changed =
        named-Changed W K v vmcid disk_cid op s t parsed disk_parsed found changed

    pub spec_after :
        (op : Operation) (s t : W.State) {spec : PodSpec}
        → K.specs s client (agent_name agent_id) ≡ some spec
        → Changed W K client op agent_id disk_id s t
        → (j : String)
        → K.specs t client j ≡ (
            if agent_name agent_id == j
            then some (update_volumes op spec disk_id)
            else K.specs s client j)
    spec_after op s t stored (configs, (spec', here, others)) j =
        let same : spec' ≡ _ = some_injective (sym here ∙ stored) in
        others j
        ∙ ap
            (λ (x : PodSpec).
              if agent_name agent_id == j
              then some (update_volumes op x disk_id)
              else K.specs s client j)
            same

    pub listed_after :
        (op : Operation) (s t : W.State) {spec : PodSpec}
        → (W.new_client context s).0 ≡ ok client
        → K.specs s client (agent_name agent_id) ≡ some spec
        → R.claims t ≡ R.claims s
        → DiskChanged W K v vmcid disk_cid op s t
        → (get_disks W vmcid t).0
          ≡ listed (R.claims s client) context (update_volumes op spec disk_id).volumes
    listed_after op s t {spec} found stored same changed =
        get_disks-listed t {spec = update_volumes op spec disk_id}
          (R.new_client context t s ∙ found)
          (spec_after op s t stored (here-Changed op s t found changed) (agent_name agent_id)
            ∙ rw eq_refl)
        ∙ ap (λ g. listed (g client) context (update_volumes op spec disk_id).volumes) same
