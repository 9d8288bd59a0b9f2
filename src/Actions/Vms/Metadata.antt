-- ===== src/Actions/Vms/Metadata.antt =====
-- When `SetVMMetadata` succeeds.
use kubernetes_cpi.Base.{
  String, ◌≡◌, sym, ap, ◌∙◌, ◌↔◌, Option, none, some, Dict, false, Bool-cases, inl, inr,
}
use kubernetes_cpi.Exec.{returns, ok}
use kubernetes_cpi.Exec.Returns.{
  Runs, call-step, lift-step, result-step, pure-Runs, Runs-lift, Runs-bind, Runs-result,
  Runs-called, Runs-pure,
}
use kubernetes_cpi.Cid.{parse_vmcid}
use kubernetes_cpi.Kube.Objects.{Foreign, Pod}
use kubernetes_cpi.Kube.World.{World, Client}
use kubernetes_cpi.Actions.Names.{agent_name}
use kubernetes_cpi.Actions.Vms.{set_vm_labels, set_vm_metadata}
use kubernetes_cpi.Actions.Vms.Labels.{
  has_label, relabelled, set_vm_labels-some, set_vm_labels-none,
}

returned : {A : Type 0} {a b : A} → returns a ≡ returns b → a ≡ b
returned h = cc

module _ (W : World) where
  -- The labels after the loop: with a pair that is a label, there must have been labels.
  abbrev pub LabelsSet : Dict String → Option (Dict String) → Option (Dict String) → Type 0
  LabelsSet metadata none labels = (has_label W metadata ≡ false) × (none ≡ labels)
  LabelsSet metadata (some old) labels = some (relabelled W metadata old) ≡ labels

  set_vm_labels-LabelsSet :
      (metadata : Dict String) (old labels : Option (Dict String))
      → (set_vm_labels W metadata old ≡ returns labels) ↔ LabelsSet metadata old labels
  set_vm_labels-LabelsSet metadata (some old) labels = (
    λ h. returned (sym (set_vm_labels-some W metadata old) ∙ h),
    λ h. set_vm_labels-some W metadata old ∙ ap (λ (l : Option (Dict String)). returns l) h,
  )
  set_vm_labels-LabelsSet metadata none labels = elim (Bool-cases (has_label W metadata)) [
    | inl some_label ↦ (
      λ h. cc (rw (set_vm_labels-none W metadata, some_label) at h),
      λ (no_label, same). cc (some_label, no_label),
    )
    | inr no_label ↦ (
      λ h. (no_label, returned (rw (set_vm_labels-none W metadata, no_label) at h)),
      λ (h, same).
          set_vm_labels-none W metadata
          ∙ rw no_label (ap (λ (l : Option (Dict String)). returns l) same),
    )
  ]

  abbrev pub with_labels : Option (Dict String) → Pod → Pod
  with_labels labels pod = record pod { meta = record (pod.meta) { labels = labels } }

  -- The pod was patched with the difference that the labels make.
  abbrev pub Patched : String → Dict String → W.State → W.State → Type 0
  Patched vmcid metadata s t =
      (context : String) × (agent_id : String) × (client : Client) × (pod : Pod) × (labels : Option
        (Dict String))
      × (old : String) × (new : String) × (patch : Foreign) × (patched : Pod) × (parse_vmcid vmcid
          ≡ returns (context, agent_id))
      × ((W.new_client context s).0 ≡ ok client)
      × LabelsSet metadata pod.meta.labels labels
      × (W.marshal_pod pod ≡ ok old)
      × (W.marshal_pod (with_labels labels pod) ≡ ok new)
      × (W.create_patch old new (with_labels labels pod) ≡ ok patch)
      × (let got = W.pods.get client (agent_name agent_id) (W.new_client context s).1 in
          let asked = W.patch_pod client pod.meta.name patch got.1 in
          (got.0 ≡ ok pod) × (asked.0 ≡ ok patched) × (asked.1 ≡ t))

  set_vm_metadata-Patched :
      (vmcid : String) (metadata : Dict String) (s t : W.State)
      → Runs (set_vm_metadata W vmcid metadata) s tt t
      → Patched vmcid metadata s t
  unfolding set_vm_metadata
  set_vm_metadata-Patched vmcid metadata s t h = lift-step _ _ _ h λ vm parsed h1.
      call-step _ _ _ _ h1 λ client found h2. call-step _ _ _ _ h2 λ pod got h3.
        result-step _ _ _ _ h3 λ old marshalled h4. lift-step _ _ _ h4 λ labels set h5.
          result-step _ _ _ _ h5 λ new written h6. result-step _ _ _ _ h6 λ patch made h7.
            call-step _ _ _ _ h7 λ patched asked h8. (
              vm.0,
              vm.1,
              client,
              pod,
              labels,
              old,
              new,
              patch,
              patched,
              parsed,
              found,
              (set_vm_labels-LabelsSet metadata pod.meta.labels labels).0 set,
              marshalled,
              written,
              made,
              (got, asked, pure-Runs _ _ h8),
            )

  Patched-set_vm_metadata :
      (vmcid : String) (metadata : Dict String) (s t : W.State)
      → Patched vmcid metadata s t
      → Runs (set_vm_metadata W vmcid metadata) s tt t
  unfolding set_vm_metadata
  Patched-set_vm_metadata vmcid metadata s t
        (
          context,
          agent_id,
          client,
          pod,
          labels,
          old,
          new,
          patch,
          patched,
          parsed,
          found,
          set,
          marshalled,
          written,
          made,
          (got, asked, end),
        ) =
      Runs-bind _ _ (Runs-lift _ s parsed) (
        Runs-called _ _ _ found (
          Runs-called _ _ _ got (
            Runs-result _ _ _ marshalled (
              Runs-bind _ _
                (Runs-lift _ _ ((set_vm_labels-LabelsSet metadata pod.meta.labels labels).1 set))
                (Runs-result _ _ _ written
                  (Runs-result _ _ _ made (Runs-called _ _ _ asked (Runs-pure _ end))))))))

  -- Setting the metadata of a VM succeeds, and ends in the given state, exactly if its id names a
  -- context with a client and an agent, the agent's pod is read and marshalled, it has labels or no
  -- pair of the metadata is one, it is marshalled again with the pairs written over its labels that
  -- are labels for Kubernetes, each under its key in lower case after the prefix
  -- "bosh.cloudfoundry.org/", and it is patched with the difference of the two texts.
  pub set_vm_metadata_iff :
      (vmcid : String) (metadata : Dict String) (s t : W.State)
      → Runs (set_vm_metadata W vmcid metadata) s tt t ↔ Patched vmcid metadata s t
  set_vm_metadata_iff vmcid metadata s t =
      (set_vm_metadata-Patched vmcid metadata s t, Patched-set_vm_metadata vmcid metadata s t)
