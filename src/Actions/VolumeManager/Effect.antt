-- ===== src/Actions/VolumeManager/Effect.antt =====
-- What a successful attachment or removal leaves in the cluster.
use kubernetes_cpi.Base.{
  Bool-cases, inl, inr, ℕ, String, ◌≡◌, refl, sym, ap, subst, ◌∙◌, ◌==◌, Bool-cases, inl, inr,
  if◌then◌else◌, Option, none, some, Dict, insert,
}
use kubernetes_cpi.Exec.{returns, ok, assign, lift}
use kubernetes_cpi.Exec.Returns.{Runs, call-step, result-step, lift-step, wrapped-step, pure-Runs}
use kubernetes_cpi.Agent.{Settings}
use kubernetes_cpi.Cid.{new_disk_cid}
use kubernetes_cpi.Kube.Objects.{Pod, PodSpec}
use kubernetes_cpi.Kube.World.{World, Client}
use kubernetes_cpi.Kube.Server.{Server}
use kubernetes_cpi.Actions.Names.{agent_name}
use kubernetes_cpi.Actions.Volumes.{Operation, update_volumes}
use kubernetes_cpi.Actions.VolumeManager.{
  text_at, update_disks, update_config_map_disks, wait_for_pod, recreate_pod, rebuild,
  VolumeManager,
}

assign-returns :
    (k v : String) (m m' : Option (Dict String))
    → assign k v m ≡ returns m'
    → (before : Dict String) × (m ≡ some before) × (m' ≡ some (insert k v before))
assign-returns k v none m' h = cc
assign-returns k v (some m) m' h = (m, refl, cc)

module _ (W : World) (K : Server W) (client : Client) (op : Operation)
    (agent_id disk_id : String) where
  abbrev name : String
  name = agent_name agent_id

  -- The settings in the agent's config map are rewritten for the disk; its other entries and all
  -- other config maps stay.
  abbrev pub ConfigChanged : W.State → W.State → Type 0
  ConfigChanged s t =
      (before : Dict String) × (settings : Settings) × (json : String) × (K.configs s client name
        ≡ some before)
      × (W.unmarshal_settings (text_at "instance_settings" (some before)) ≡ ok settings)
      × (W.marshal_settings (update_disks op (new_disk_cid client.context disk_id) disk_id settings)
          ≡ ok json)
      × ((j : String)
          → K.configs t client j ≡ (
              if name == j
              then some (insert "instance_settings" json before)
              else K.configs s client j))

  pub update_config-effect :
      (s t : W.State)
      → Runs (update_config_map_disks W client op agent_id disk_id) s tt t
      → ConfigChanged s t × (K.specs t ≡ K.specs s)
  unfolding update_config_map_disks
  update_config-effect s t h = call-step _ _ _ _ h λ cm got h1.
      result-step _ _ _ _ h1 λ settings read h2. result-step _ _ _ _ h2 λ json written h3.
        lift-step _ _ _ h3 λ contents assigned h4. call-step _ _ _ _ h4 λ cm' updated h5.
          let (stored, named) = K.get_config client name s got in
          let s1 = (W.config_maps.get client name s).1 in
          let at_name = K.update_config client (record cm { contents = contents }) s1 updated in
          let (before, old, new) =
            assign-returns "instance_settings" json cm.contents contents assigned in
          subst (λ x. ConfigChanged s x × (K.specs x ≡ K.specs s)) (pure-Runs _ _ h5)
            (
              (
                before,
                settings,
                json,
                stored ∙ old,
                rw (← old) read,
                written,
                λ j.
                    at_name j
                    ∙ rw (named, new)
                        (ap
                          (λ g.
                            if name == j
                            then some (insert "instance_settings" json before)
                            else g client j)
                          (K.get_config_configs client name s)),
              ),
              K.update_config_specs client _ s1 ∙ K.get_config_specs client name s,
            )

  -- Nothing that the server stores differs.
  abbrev SameStore : W.State → W.State → Type 0
  SameStore s t = (K.specs t ≡ K.specs s) × (K.configs t ≡ K.configs s)

  wait_for_pod-effect :
      (timeout : ℕ) (resource_version : String) (s t : W.State)
      → Runs (wait_for_pod W timeout client agent_id resource_version) s tt t
      → SameStore s t
  unfolding wait_for_pod lift
  wait_for_pod-effect timeout resource_version s t h = result-step _ _ _ _ h λ selector parsed h1.
      call-step _ _ _ _ h1 λ signals watched h2.
        subst (SameStore s) (h2.1)
          (K.watch_specs client _ timeout s, K.watch_configs client _ timeout s)

  -- The pod is stored with the changed volumes and the config map with the changed settings, and
  -- no other pod or config map differs.
  abbrev pub Changed : W.State → W.State → Type 0
  Changed s t =
      ConfigChanged s t
      × ((spec : PodSpec) × (K.specs s client name ≡ some spec)
          × ((j : String)
              → K.specs t client j ≡ (
                  if name == j then some (update_volumes op spec disk_id) else K.specs s client j)))

  pub from_configs :
      (s s1 s2 t : W.State)
      → ConfigChanged s1 s2
      → K.configs s1 ≡ K.configs s
      → K.configs t ≡ K.configs s2
      → ConfigChanged s t
  from_configs s s1 s2 t (before, settings, json, stored, read, written, others) e f =
      (before, settings, json, rw (← e) stored, read, written, λ j. rw (f, ← e) (others j))

  -- The states that a recreation goes through, from reading the pod to creating it.
  module _ (s : W.State) {pod : Pod} (got : (W.pods.get client name s).0 ≡ ok pod) where
    abbrev pub read : W.State
    read = (W.pods.get client name s).1

    abbrev pub written : W.State
    written = (update_config_map_disks W client op agent_id disk_id read).1

    abbrev pub gone : W.State
    gone = (W.pods.delete client name 0 written).1

    abbrev pub made : W.State
    made = (W.pods.create client (rebuild op disk_id pod) gone).1

    module _
        (changed : (update_config_map_disks W client op agent_id disk_id read).0 ≡ returns tt) where
      pub written-ConfigChanged :
          (t : W.State) → K.configs t ≡ K.configs written → ConfigChanged s t
      written-ConfigChanged t e =
          from_configs s read written t (update_config-effect read written (changed, refl)).0
            (K.get_pod_configs client name s) e

      pub written-specs : K.specs written ≡ K.specs s
      written-specs =
          (update_config-effect read written (changed, refl)).1 ∙ K.get_pod_specs client name s

      pub gone-specs :
          (W.pods.delete client name 0 written).0 ≡ ok tt
          → (j : String) → K.specs gone client j ≡ (if name == j then none else K.specs s client j)
      gone-specs deleted j =
          K.delete_pod client name 0 written deleted j
          ∙ ap (λ x. if name == j then none else x) (ap (λ g. g client j) written-specs)

      pub made-Changed :
          {q : Pod}
          → (W.pods.delete client name 0 written).0 ≡ ok tt
          → (W.pods.create client (rebuild op disk_id pod) gone).0 ≡ ok q
          → (t : W.State) → SameStore made t
          → Changed s t
      unfolding rebuild
      made-Changed deleted created t (same_specs, same_configs) =
          let (stored, named) = K.get_pod client name s got in
          (
            written-ConfigChanged t (
                same_configs
                ∙ K.create_pod_configs client (rebuild op disk_id pod) gone
                ∙ K.delete_pod_configs client name 0 written),
            (
              pod.spec,
              stored,
              λ j.
                  ap (λ g. g client j) same_specs
                  ∙ K.create_pod client (rebuild op disk_id pod) gone created j
                  ∙ elim (Bool-cases (name == j)) [
                    | inl same ↦ rw (named, same)
                    | inr other ↦ rw (named, other) (gone-specs deleted j ∙ rw other)
                  ],
            ),
          )

  pub recreate_pod-effect :
      (v : VolumeManager) (s t : W.State)
      → Runs (recreate_pod W v client op agent_id disk_id) s tt t
      → Changed s t
  unfolding recreate_pod
  recreate_pod-effect v s t h = call-step _ _ _ _ h λ pod got h1.
      wrapped-step _ _ _ _ h1 λ u changed h2. call-step _ _ _ _ h2 λ u' deleted h3.
        call-step _ _ _ _ h3 λ updated created h4. wrapped-step _ _ _ _ h4 λ u'' waited h5.
          let s4 = made s got in
          let s5 =
            (wait_for_pod W v.pod_ready_timeout client agent_id updated.meta.resource_version
              s4).1 in
          let (same_specs, same_configs) =
            wait_for_pod-effect v.pod_ready_timeout _ s4 s5 (waited, refl) in
          let slept : W.sleep v.post_recreate_delay s5 ≡ t = h5.1 in
          made-Changed s got changed deleted created t (
            ap K.specs (sym slept) ∙ K.sleep_specs v.post_recreate_delay s5 ∙ same_specs,
            ap K.configs (sym slept) ∙ K.sleep_configs v.post_recreate_delay s5 ∙ same_configs,
          )
