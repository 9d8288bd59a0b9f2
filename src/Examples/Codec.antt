-- ===== src/Examples/Codec.antt =====
-- The small cluster, with settings that list at most one disk written as one of two texts.
use kubernetes_cpi.Base.{
  String, ◌≡◌, refl, sym, ap, Bool, true, false, ◌&&◌, some, [], ◌∷◌, Dict, lookup, dict_of, ◌==◌,
  eq_iff, Bool-cases, inl, inr, if◌then◌else◌,
}
use kubernetes_cpi.Exec.{foreign, Result, ok, err}
use kubernetes_cpi.Agent.{Settings}
use kubernetes_cpi.Kube.World.{World}
use kubernetes_cpi.Kube.Server.{Server}
use kubernetes_cpi.Kube.Memory.{settings_of}
use kubernetes_cpi.Kube.Memory.Serves.{serves}
use kubernetes_cpi.Actions.Agreement.Steps.{ReadsBack}
use kubernetes_cpi.Examples.Fixtures.{pod_signals, claim_signals, world}

abbrev one_disk : Dict String
one_disk = ("ctx:d", "/mnt/d") ∷ []

abbrev one_disk_settings : Settings
one_disk_settings = record (settings_of "a") { disks = record { persistent = some one_disk } }

abbrev pub read_text : String → Result Settings
read_text text =
    if text == "a"
    then ok (settings_of "a")
    else if text == "b"
    then ok one_disk_settings
    else err (foreign "invalid character")

abbrev write_disks : Dict String → Result String
write_disks [] = ok "a"
write_disks ((k, v) ∷ []) =
    if (k == "ctx:d") && (v == "/mnt/d") then ok "b" else err (foreign "unsupported value")
write_disks (p ∷ q ∷ m) = err (foreign "unsupported value")

abbrev pub coding : World
coding = record world {
  marshal_settings = λ settings. write_disks (dict_of settings.disks.persistent);
  unmarshal_settings = read_text;
}

abbrev pub coding_serves : Server coding
coding_serves =
    let K = serves pod_signals claim_signals [] in
    record {
      specs = K.specs;
      configs = K.configs;
      new_client_specs = K.new_client_specs;
      new_client_configs = K.new_client_configs;
      get_pod = K.get_pod;
      get_pod_specs = K.get_pod_specs;
      get_pod_configs = K.get_pod_configs;
      get_config = K.get_config;
      get_config_specs = K.get_config_specs;
      get_config_configs = K.get_config_configs;
      update_config = K.update_config;
      update_config_specs = K.update_config_specs;
      delete_pod = K.delete_pod;
      delete_pod_configs = K.delete_pod_configs;
      create_pod = K.create_pod;
      create_pod_configs = K.create_pod_configs;
      watch_specs = K.watch_specs;
      watch_configs = K.watch_configs;
      sleep_specs = K.sleep_specs;
      sleep_configs = K.sleep_configs;
    }

both : (x y : Bool) → (x && y) ≡ true → (x ≡ true) × (y ≡ true)
both true y h = (refl, h)
both false y h = cc

answered : {A : Type 0} {a b : A} → ok a ≡ ok b → a ≡ b
answered h = cc

written-read :
    (disks : Dict String) (json : String)
    → write_disks disks ≡ ok json
    → (y : Settings) × (read_text json ≡ ok y)
      × ((k : String) → lookup k (dict_of y.disks.persistent) ≡ lookup k disks)
written-read [] json h = (settings_of "a", ap read_text (answered (sym h)), λ k. refl)
written-read ((k, v) ∷ []) json h = elim (Bool-cases ((k == "ctx:d") && (v == "/mnt/d"))) [
  | inr other ↦ cc (rw other at h)
  | inl same ↦
      let (key, value) = both _ _ same in
      (
        one_disk_settings,
        ap read_text (answered (sym (rw same at h))),
        λ j. rw ((eq_iff k "ctx:d").0 key, (eq_iff v "/mnt/d").0 value) refl,
      )
]
written-read (p ∷ q ∷ m) json h = cc

pub reads_back : ReadsBack coding
reads_back x json h = written-read (dict_of x.disks.persistent) json h
