-- ===== src/Actions/Agreement.antt =====
-- The settings of an agent list its persistent disks, and its pod has a volume for each: `AttachDisk`
-- and `DetachDisk` keep the two lists in step.
pub mod Counts
pub mod Steps
use kubernetes_cpi.Base.{
  ℕ, ◌+◌, ◌-◌, String, ◌≡◌, refl, sym, ap, ◌∙◌, Option, none, some, List, [], ◌∷◌, Dict, lookup,
  dict_of, ◌==◌, if◌then◌else◌,
}
use kubernetes_cpi.Exec.{Result, ok}
use kubernetes_cpi.Agent.{Settings}
use kubernetes_cpi.Cid.{new_disk_cid}
use kubernetes_cpi.Kube.Objects.{PodSpec, Volume}
use kubernetes_cpi.Kube.World.{World, Client}
use kubernetes_cpi.Kube.Server.{Server}
use kubernetes_cpi.Actions.Names.{agent_name, disk_name}
use kubernetes_cpi.Actions.VolumeManager.{text_at}

-- How many volumes of the list have the name.
abbrev pub count_named : String → List Volume → ℕ
count_named name [] = 0
count_named name (v ∷ volumes) = (if v.name == name then 1 else 0) + count_named name volumes

abbrev pub count_of {ℓ} : {A : Type ℓ} → Option A → ℕ
count_of none = 0
count_of (some a) = 1

module _ (W : World) (K : Server W) (client : Client) (agent_id : String) where
  -- The settings that the agent's config map holds.
  abbrev pub Holds : W.State → Settings → Type 0
  Holds s settings =
      (contents : Dict String) × (K.configs s client (agent_name agent_id) ≡ some contents)
      × (W.unmarshal_settings (text_at "instance_settings" (some contents)) ≡ ok settings)

  abbrev pub disk_of : Settings → String → Option String
  disk_of settings disk_id =
      lookup (new_disk_cid client.context disk_id) (dict_of settings.disks.persistent)

  -- The agent's pod has one volume for each disk of the context that its settings list, and none for
  -- any other disk.
  abbrev pub Agrees : W.State → Type 0
  Agrees s =
      (spec : PodSpec) × (settings : Settings) × (K.specs s client (agent_name agent_id)
        ≡ some spec)
      × Holds s settings
      × ((disk_id : String)
          → count_named (disk_name disk_id) spec.volumes ≡ count_of (disk_of settings disk_id))
