-- ===== src/Examples/Agreement.antt =====
-- A disk is attached and detached again, and the agent's two lists stay in step.
use kubernetes_cpi.Base.{
  ◌≡◌, refl, ap, sym, ◌∙◌, some, List, [], ◌∷◌, lookup, insert, erase, dict_of,
}
use kubernetes_cpi.Exec.{ok, ◌>>=◌}
use kubernetes_cpi.Agent.{Settings}
use kubernetes_cpi.Cid.{split_n, new_disk_cid}
use kubernetes_cpi.Kube.Memory.Serves.{serves}
use kubernetes_cpi.Kube.Memory.{Cluster, settings_of}
use kubernetes_cpi.Actions.Volumes.{add, remove}
use kubernetes_cpi.Actions.VolumeManager.{text_at, attach_disk, detach_disk}
use kubernetes_cpi.Actions.Agreement.{Agrees}
use kubernetes_cpi.Actions.Agreement.Steps.{
  Fresh, Step, attaching, detaching, here, later, Reach-Agrees,
}
use kubernetes_cpi.Actions.History.{Event, replay, attachments, Reach-replay}
use kubernetes_cpi.Examples.Fixtures.{spec, start, manager, client}
use kubernetes_cpi.Examples.Codec.{coding, read_text, coding_serves, reads_back}

abbrev attached_here : Cluster
attached_here = (attach_disk coding manager "ctx:a" "ctx:d" start).1

abbrev detached_here : Cluster
detached_here = (detach_disk coding manager "ctx:a" "ctx:d" attached_here).1

start-Agrees : Agrees coding coding_serves client "a" start
unfolding lookup serves new_disk_cid
start-Agrees =
    (spec [], settings_of "a", refl, (("instance_settings", "a") ∷ [], refl, refl), λ j. refl)

present : {A : Type 0} {a b : A} → some a ≡ some b → a ≡ b
present h = cc

answered : {A : Type 0} {a b : A} → ok a ≡ ok b → a ≡ b
answered h = cc

add-Fresh : Fresh coding coding_serves reads_back client add "a" "d" start
unfolding lookup serves new_disk_cid
add-Fresh settings (contents, at, reads) =
    let same_contents : ("instance_settings", "a") ∷ [] ≡ contents = present at in
    let same_settings : settings_of "a" ≡ settings =
      answered (ap (λ m. read_text (text_at "instance_settings" (some m))) same_contents ∙ reads) in
    ap (λ (x : Settings). lookup "ctx:d" (dict_of x.disks.persistent)) (sym same_settings)

attach-Step : Step coding coding_serves reads_back client start attached_here
unfolding attach_disk ◌>>=◌ lookup insert erase split_n new_disk_cid
attach-Step = attaching manager "ctx:a" "ctx:d" "a" "d" refl refl refl add-Fresh refl refl

detach-Step : Step coding coding_serves reads_back client attached_here detached_here
unfolding attach_disk detach_disk ◌>>=◌ lookup insert erase split_n new_disk_cid
detach-Step = detaching manager "ctx:a" "ctx:d" "a" "d" refl refl refl refl refl

Reach-Agrees_example : Agrees coding coding_serves client "a" detached_here
Reach-Agrees_example =
    Reach-Agrees coding coding_serves reads_back client "a"
      (later (later here attach-Step) detach-Step) start-Agrees

-- The two requests, the later one first.
abbrev requests : List Event
requests =
    record { operation = remove; agent_id = "a"; disk_id = "d" }
    ∷ record { operation = add; agent_id = "a"; disk_id = "d" }
    ∷ []

Reach-replay_example :
    replay requests (attachments coding coding_serves reads_back client start)
    ≡ some (attachments coding coding_serves reads_back client detached_here)
unfolding attach-Step detach-Step
Reach-replay_example =
    Reach-replay coding coding_serves reads_back client (later (later here attach-Step) detach-Step)
