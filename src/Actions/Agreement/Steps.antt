-- ===== src/Actions/Agreement/Steps.antt =====
-- Attaching and detaching, step by step.
use kubernetes_cpi.Base.{
  false, String, ◌≡◌, refl, sym, ap, subst, ◌∙◌, none, some, Dict, lookup, insert, lookup-insert,
  dict_of, ◌==◌, eq_iff, eq_refl, Bool-cases, inl, inr,
}
use kubernetes_cpi.Exec.{ok, returns}
use kubernetes_cpi.Agent.{Settings}
use kubernetes_cpi.Cid.{parse_vmcid, parse_disk_cid, new_disk_cid}
use kubernetes_cpi.Kube.Objects.{PodSpec}
use kubernetes_cpi.Kube.World.{World, Client}
use kubernetes_cpi.Kube.Server.{Server}
use kubernetes_cpi.Actions.Names.{agent_name, disk_name}
use kubernetes_cpi.Actions.Volumes.{
  Operation, add, remove, update_volumes, add_volume, remove_volume,
}
use kubernetes_cpi.Actions.VolumeManager.{
  text_at, update_disks, VolumeManager, attach_disk, detach_disk,
}
use kubernetes_cpi.Actions.VolumeManager.Effect.{Changed}
use kubernetes_cpi.Actions.VolumeManager.Attach.{
  named-Changed, attach_disk-effect, detach_disk-effect,
}
use kubernetes_cpi.Actions.Agreement.{count_named, count_of, Holds, disk_of, Agrees}
use kubernetes_cpi.Actions.Agreement.Counts.{append-eq, attached-count, detached-count}

present : {A : Type 0} {a b : A} → some a ≡ some b → a ≡ b
present h = cc

answered : {A : Type 0} {a b : A} → ok a ≡ ok b → a ≡ b
answered h = cc

text_at-insert : (k v : String) (m : Dict String) → text_at k (some (insert k v m)) ≡ v
text_at-insert k v m = rw (lookup-insert k k v m, eq_refl k) refl

-- What JSON is written for settings reads back as settings with the same persistent disks.
abbrev pub ReadsBack : World → Type 0
ReadsBack W =
    (x : Settings) (json : String)
    → W.marshal_settings x ≡ ok json
    → (y : Settings) × (W.unmarshal_settings json ≡ ok y)
      × ((k : String)
          → lookup k (dict_of y.disks.persistent) ≡ lookup k (dict_of x.disks.persistent))

module _ (W : World) (K : Server W) (reads_back : ReadsBack W) (client : Client) where
  -- A disk is attached only where the settings do not list it.
  abbrev pub Fresh : Operation → String → String → W.State → Type 0
  Fresh op agent_id disk_id s = elim op [
    | add ↦
        (settings : Settings)
        → Holds W K client agent_id s settings
        → disk_of W K client agent_id settings disk_id ≡ none
    | remove ↦ Unit {0}
  ]

  module _ (agent_id : String) where
    count_after :
        (op : Operation) (disk_id : String) (s : W.State) (spec : PodSpec) (settings : Settings)
        → Fresh op agent_id disk_id s
        → Holds W K client agent_id s settings
        → (j : String)
        → count_named (disk_name j) spec.volumes ≡ count_of (disk_of W K client agent_id settings j)
        → count_named (disk_name j) (update_volumes op spec disk_id).volumes
          ≡ count_of (
              disk_of W K client agent_id
                (update_disks op (new_disk_cid client.context disk_id) disk_id settings)
                j)
    unfolding update_volumes add_volume remove_volume
    count_after add disk_id s spec settings fresh holds j agree =
        attached-count client.context disk_id j spec.volumes settings (fresh settings holds) agree
    count_after remove disk_id s spec settings fresh holds j agree =
        detached-count client.context disk_id j spec.volumes settings agree

    own-Agrees :
        (op : Operation) (disk_id : String) (s t : W.State)
        → Changed W K client op agent_id disk_id s t
        → Fresh op agent_id disk_id s
        → Agrees W K client agent_id s
        → Agrees W K client agent_id t
    own-Agrees op disk_id s t
          ((before, settings', json, stored, read, written, others), (spec', here, pods)) fresh
          (spec, settings, at_pod, (contents, at_config, reads), agree) =
        let same_spec : spec' ≡ spec = present (sym here ∙ at_pod) in
        let same_contents : before ≡ contents = present (sym stored ∙ at_config) in
        let same_settings : settings' ≡ settings = answered (
          sym read
          ∙ ap (λ m. W.unmarshal_settings (text_at "instance_settings" (some m))) same_contents
          ∙ reads) in
        let (y, back, same_disks) =
          reads_back (update_disks op (new_disk_cid client.context disk_id) disk_id settings') json
            written in
        (
          update_volumes op spec' disk_id,
          y,
          pods (agent_name agent_id) ∙ rw (eq_refl (agent_name agent_id)) refl,
          (
            insert "instance_settings" json before,
            others (agent_name agent_id) ∙ rw (eq_refl (agent_name agent_id)) refl,
            ap W.unmarshal_settings (text_at-insert "instance_settings" json before) ∙ back,
          ),
          λ j.
              count_after op disk_id s spec' settings' fresh (before, stored, read) j
                (ap (λ (x : PodSpec). count_named (disk_name j) x.volumes) same_spec
                  ∙ agree j
                  ∙ ap (λ x. count_of (disk_of W K client agent_id x j)) (sym same_settings))
              ∙ ap count_of (sym (same_disks (new_disk_cid client.context j))),
        )

    others-Agrees :
        (op : Operation) (agent' disk_id : String) (s t : W.State)
        → (agent_name agent' == agent_name agent_id) ≡ false
        → Changed W K client op agent' disk_id s t
        → Agrees W K client agent_id s
        → Agrees W K client agent_id t
    others-Agrees op agent' disk_id s t other
          ((before, settings', json, stored, read, written, others), (spec', here, pods))
          (spec, settings, at_pod, (contents, at_config, reads), agree) =
        (
          spec,
          settings,
          pods (agent_name agent_id) ∙ rw other at_pod,
          (contents, others (agent_name agent_id) ∙ rw other at_config, reads),
          agree,
        )

    Changed-Agrees :
        (op : Operation) (agent' disk_id : String) (s t : W.State)
        → Changed W K client op agent' disk_id s t
        → Fresh op agent' disk_id s
        → Agrees W K client agent_id s
        → Agrees W K client agent_id t
    Changed-Agrees op agent' disk_id s t changed fresh agree =
        elim (Bool-cases (agent_name agent' == agent_name agent_id)) [
          | inr other ↦ others-Agrees op agent' disk_id s t other changed agree
          | inl same ↦
              let here : agent' ≡ agent_id =
                (eq_iff agent' agent_id).0 (sym (append-eq "agent-" agent' agent_id) ∙ same) in
              own-Agrees op disk_id s t
                (subst (λ a. Changed W K client op a disk_id s t) here changed)
                (subst (λ a. Fresh op a disk_id s) here fresh) agree
        ]

  -- One of the two actions succeeds, from the state `s` to the state `t`; a disk that is attached is
  -- not listed yet.
  pub data Step (s t : W.State) : Type 0 where
    attaching :
        (v : VolumeManager) (vmcid disk_cid agent_id disk_id : String)
        → parse_vmcid vmcid ≡ returns (client.context, agent_id)
        → parse_disk_cid disk_cid ≡ returns (client.context, disk_id)
        → (W.new_client client.context s).0 ≡ ok client
        → Fresh add agent_id disk_id s
        → (attach_disk W v vmcid disk_cid s).0 ≡ returns tt
        → (attach_disk W v vmcid disk_cid s).1 ≡ t
        → Step s t
    detaching :
        (v : VolumeManager) (vmcid disk_cid agent_id disk_id : String)
        → parse_vmcid vmcid ≡ returns (client.context, agent_id)
        → parse_disk_cid disk_cid ≡ returns (client.context, disk_id)
        → (W.new_client client.context s).0 ≡ ok client
        → (detach_disk W v vmcid disk_cid s).0 ≡ returns tt
        → (detach_disk W v vmcid disk_cid s).1 ≡ t
        → Step s t

  -- The states that a sequence of these actions, on any agents and disks of the context, leads to.
  pub data Reach (s : W.State) : W.State → Type 0 where
    here : Reach s s
    later : {t u : W.State} → Reach s t → Step t u → Reach s u

  Step-Agrees :
      (agent_id : String) {s t : W.State}
      → Step s t
      → Agrees W K client agent_id s
      → Agrees W K client agent_id t
  Step-Agrees agent_id {s} {t}
        (attaching v vmcid disk_cid agent' disk_id vm disk found fresh done end) agree =
      Changed-Agrees agent_id add agent' disk_id s t
        (named-Changed W K v vmcid disk_cid add s t vm disk found
          (attach_disk-effect W K v vmcid disk_cid s t done end))
        fresh agree
  Step-Agrees agent_id {s} {t} (detaching v vmcid disk_cid agent' disk_id vm disk found done end)
        agree =
      Changed-Agrees agent_id remove agent' disk_id s t
        (named-Changed W K v vmcid disk_cid remove s t vm disk found
          (detach_disk-effect W K v vmcid disk_cid s t done end))
        tt agree

  -- On a server on which nobody else writes, with settings whose disks read back as they were
  -- written: an agent whose pod has exactly one volume for each disk of the context that its
  -- settings list, and none for any other disk, is still such an agent after any sequence of
  -- successful `AttachDisk` and `DetachDisk` of the context, on its VM or on others, in which no
  -- disk is attached where it is listed already.
  pub Reach-Agrees :
      (agent_id : String) {s t : W.State}
      → Reach s t
      → Agrees W K client agent_id s
      → Agrees W K client agent_id t
  Reach-Agrees agent_id here agree = agree
  Reach-Agrees agent_id (later reach step) agree =
      Step-Agrees agent_id step (Reach-Agrees agent_id reach agree)
