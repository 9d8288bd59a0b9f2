-- ===== src/Examples/Volumes.antt =====
-- Volumes of a pod, and the settings that list them.
use kubernetes_cpi.Base.{String, ◌≡◌, refl, none, some, [], ◌∷◌, lookup}
use kubernetes_cpi.Agent
use kubernetes_cpi.Kube.Objects.{PodSpec}
use kubernetes_cpi.Actions.Volumes.{disk_volume, add_volume, remove_volume}
use kubernetes_cpi.Actions.Volumes.Laws.{remove-add_volume}
use kubernetes_cpi.Actions.Volumes.Removal.{remove_volume-eq}
use kubernetes_cpi.Examples.Fixtures.{spec}

remove-add_volume_example : remove_volume (add_volume (spec []) "d") "d" ≡ spec []
remove-add_volume_example = remove-add_volume (spec []) "d" tt (λ _. tt, (λ _. tt, tt))

abbrev two_volumes : PodSpec
two_volumes = spec (disk_volume "d" ∷ disk_volume "e" ∷ [])

remove_volume-eq_example : remove_volume two_volumes "d" ≡ spec (disk_volume "e" ∷ [])
remove_volume-eq_example =
    remove_volume-eq two_volumes "d" (λ _. (refl, tt), (λ _. tt, tt)) (tt, (tt, tt))

abbrev settings : Agent.Settings
settings = record {
  agent_id = "a";
  disks = record { persistent = some (("ctx:e", "/mnt/e") ∷ []) };
  networks = none;
  message_bus = "";
  ntp_servers = [];
  vm = record { name = "a" };
  blobstore = "";
  env = "";
}

fresh : lookup {V = String} "ctx:d" (("ctx:e", "/mnt/e") ∷ []) ≡ none
unfolding lookup
fresh = refl
