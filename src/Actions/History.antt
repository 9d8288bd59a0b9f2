-- ===== src/Actions/History.antt =====
-- `AttachDisk` and `DetachDisk` against a specification: a map from agents to lists of names of
-- volumes, to which the one appends the name of a disk, and from which the other takes its first
-- occurrence. Nothing else of pods and containers is in it.
use kubernetes_cpi.Base.{
  String, ◌≡◌, refl, sym, ap, ◌∙◌, Bool, true, false, Option, none, some, List, [], ◌∷◌, ◌++◌, map,
  ◌==◌, if◌then◌else◌, Bool-cases, inl, inr,
}
use kubernetes_cpi.Kube.Objects.{PodSpec, Volume}
use kubernetes_cpi.Kube.World.{World, Client}
use kubernetes_cpi.Kube.Server.{Server}
use kubernetes_cpi.Actions.Names.{agent_name, disk_name}
use kubernetes_cpi.Actions.Volumes.{
  Operation, add, remove, update_volumes, add_volume, remove_volume, drop_volume, disk_volume,
}
use kubernetes_cpi.Actions.VolumeManager.Effect.{Changed}
use kubernetes_cpi.Actions.VolumeManager.Attach.{
  named-Changed, attach_disk-effect, detach_disk-effect,
}
use kubernetes_cpi.Actions.Agreement.Counts.{append-eq}
use kubernetes_cpi.Actions.Agreement.Steps.{
  ReadsBack, Step, attaching, detaching, Reach, here, later,
}

-- One successful request, as the director sees it.
pub record Event : Type 0 where
  pub operation : Operation
  pub agent_id : String
  pub disk_id : String

-- The names of the volumes of each agent that has a pod.
abbrev pub Attachments : Type 0
Attachments = String → Option (List String)

unfoldable pub drop_first : String → List String → List String
drop_first name [] = []
drop_first name (n ∷ names) = if n == name then names else n ∷ drop_first name names

abbrev pub changed_names : Operation → String → List String → List String
changed_names add name names = names ++ (name ∷ [])
changed_names remove name names = drop_first name names

abbrev pub entry : String → List String → Attachments → Attachments
entry agent_id names m j = if agent_id == j then some names else m j

abbrev pub apply_to : Event → Attachments → Option (List String) → Option Attachments
apply_to e m none = none
apply_to e m (some names) =
    some (entry e.agent_id (changed_names e.operation (disk_name e.disk_id) names) m)

-- An agent without a pod has no disks to change.
unfoldable pub perform : Event → Attachments → Option Attachments
unfolding drop_first
perform e m = apply_to e m (m e.agent_id)

abbrev pub perform_on : Event → Option Attachments → Option Attachments
perform_on e none = none
perform_on e (some m) = perform e m

-- The events from the last to the first.
unfoldable pub replay : List Event → Attachments → Option Attachments
unfolding perform
replay [] m = some m
replay (e ∷ events) m = perform_on e (replay events m)

abbrev name_of : Volume → String
name_of v = v.name

abbrev pub volume_names : Option PodSpec → Option (List String)
volume_names none = none
volume_names (some spec) = some (map name_of spec.volumes)

names-append :
    (volumes : List Volume) (v : Volume)
    → map name_of (volumes ++ (v ∷ [])) ≡ map name_of volumes ++ (v.name ∷ [])
names-append [] v = refl
names-append (u ∷ volumes) v = ap (λ (l : List String). u.name ∷ l) (names-append volumes v)

names-drop_volume :
    (name : String) (volumes : List Volume)
    → map name_of (drop_volume name volumes) ≡ drop_first name (map name_of volumes)
unfolding drop_volume drop_first
names-drop_volume name [] = refl
names-drop_volume name (v ∷ volumes) = elim (Bool-cases (v.name == name)) [
  | inl same ↦ rw same refl
  | inr other ↦ rw other (ap (λ (l : List String). v.name ∷ l) (names-drop_volume name volumes))
]

names-update_volumes :
    (op : Operation) (spec : PodSpec) (disk_id : String)
    → map name_of (update_volumes op spec disk_id).volumes
      ≡ changed_names op (disk_name disk_id) (map name_of spec.volumes)
unfolding update_volumes add_volume remove_volume
names-update_volumes add spec disk_id = names-append spec.volumes (disk_volume disk_id)
names-update_volumes remove spec disk_id = names-drop_volume (disk_name disk_id) spec.volumes

volume_names-if :
    (b : Bool) (x y : Option PodSpec)
    → volume_names (if b then x else y) ≡ (if b then volume_names x else volume_names y)
volume_names-if true x y = refl
volume_names-if false x y = refl

module _ (W : World) (K : Server W) (reads_back : ReadsBack W) (client : Client) where
  -- What is stored of the agents, as the specification sees it.
  abbrev pub attachments : W.State → Attachments
  attachments s j = volume_names (K.specs s client (agent_name j))

  Changed-perform :
      (op : Operation) (agent_id disk_id : String) (s t : W.State)
      → Changed W K client op agent_id disk_id s t
      → perform (record { operation = op; agent_id = agent_id; disk_id = disk_id }) (attachments s)
        ≡ some (attachments t)
  unfolding perform
  Changed-perform op agent_id disk_id s t (config, (spec, stored, pods)) =
      let names = changed_names op (disk_name disk_id) (map name_of spec.volumes) in
      let same : (j : String) → entry agent_id names (attachments s) j ≡ attachments t j = λ j.
        sym (
          ap volume_names (pods (agent_name j))
          ∙ volume_names-if (agent_name agent_id == agent_name j) _ _
          ∙ rw (append-eq "agent-" agent_id j, names-update_volumes op spec disk_id) refl) in
      rw stored (ap (λ (m : Attachments). some m) (λ i j. same j i))

  abbrev event : {t u : W.State} → Step W K reads_back client t u → Event
  event (attaching v vmcid disk_cid agent_id disk_id vm disk found fresh done end) = record {
    operation = add;
    agent_id = agent_id;
    disk_id = disk_id;
  }
  event (detaching v vmcid disk_cid agent_id disk_id vm disk found done end) = record {
    operation = remove;
    agent_id = agent_id;
    disk_id = disk_id;
  }

  Step-perform :
      {t u : W.State} (step : Step W K reads_back client t u)
      → perform (event step) (attachments t) ≡ some (attachments u)
  Step-perform {t} {u} (attaching v vmcid disk_cid agent_id disk_id vm disk found fresh done end) =
      Changed-perform add agent_id disk_id t u (
        named-Changed W K v vmcid disk_cid add t u vm disk found
          (attach_disk-effect W K v vmcid disk_cid t u done end))
  Step-perform {t} {u} (detaching v vmcid disk_cid agent_id disk_id vm disk found done end) =
      Changed-perform remove agent_id disk_id t u (
        named-Changed W K v vmcid disk_cid remove t u vm disk found
          (detach_disk-effect W K v vmcid disk_cid t u done end))

  module _ {s : W.State} where
    -- What the sequence of requests was.
    abbrev pub history : {t : W.State} → Reach W K reads_back client s t → List Event
    history here = []
    history (later reach step) = event step ∷ history reach

    -- On a server on which nobody else writes, any sequence of successful `AttachDisk` and
    -- `DetachDisk` of the context, on any VMs, in which no disk is attached where it is listed
    -- already, refines the specification: its requests, replayed on the lists of names of volumes
    -- that the agents had, all apply, and give the lists that the agents have.
    pub Reach-replay :
        {t : W.State} (reach : Reach W K reads_back client s t)
        → replay (history reach) (attachments s) ≡ some (attachments t)
    unfolding replay
    Reach-replay here = refl
    Reach-replay (later reach step) = rw (Reach-replay reach) (Step-perform step)
