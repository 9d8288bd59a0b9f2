-- ===== src/Kube/Server.antt =====
-- What the API server is documented to do, as far as the theorems on whole actions use it, while no
-- other client writes: an object that was created or updated is stored as it was sent, reading and
-- watching leave what is stored, and a call on one kind of object leaves the others.
use kubernetes_cpi.Base.{ℕ, String, ◌≡◌, none, some, Option, Dict, ◌==◌, if◌then◌else◌}
use kubernetes_cpi.Exec.{ok}
use kubernetes_cpi.Kube.Objects.{PodSpec, Pod, ConfigMap}
use kubernetes_cpi.Kube.World.{World, Client, WatchOptions}

pub record Server (W : World) : Type 0 where
  -- The stored specs of pods, and the stored contents of config maps.
  pub specs : W.State → Client → String → Option PodSpec
  pub configs : W.State → Client → String → Option (Dict String)
  pub new_client_specs : (x : String) (s : W.State) → specs (W.new_client x s).1 ≡ specs s
  pub new_client_configs : (x : String) (s : W.State) → configs (W.new_client x s).1 ≡ configs s
  pub get_pod :
      (c : Client) (n : String) (s : W.State) {p : Pod}
      → (W.pods.get c n s).0 ≡ ok p
      → (specs s c n ≡ some p.spec) × (p.meta.name ≡ n)
  pub get_pod_specs : (c : Client) (n : String) (s : W.State) → specs (W.pods.get c n s).1 ≡ specs s
  pub get_pod_configs :
      (c : Client) (n : String) (s : W.State) → configs (W.pods.get c n s).1 ≡ configs s
  pub get_config :
      (c : Client) (n : String) (s : W.State) {m : ConfigMap}
      → (W.config_maps.get c n s).0 ≡ ok m
      → (configs s c n ≡ m.contents) × (m.meta.name ≡ n)
  pub get_config_specs :
      (c : Client) (n : String) (s : W.State) → specs (W.config_maps.get c n s).1 ≡ specs s
  pub get_config_configs :
      (c : Client) (n : String) (s : W.State) → configs (W.config_maps.get c n s).1 ≡ configs s
  pub update_config :
      (c : Client) (m : ConfigMap) (s : W.State) {m' : ConfigMap}
      → (W.config_maps.update c m s).0 ≡ ok m'
      → (j : String)
      → configs (W.config_maps.update c m s).1 c j
        ≡ (if m.meta.name == j then m.contents else configs s c j)
  pub update_config_specs :
      (c : Client) (m : ConfigMap) (s : W.State) → specs (W.config_maps.update c m s).1 ≡ specs s
  pub delete_pod :
      (c : Client) (n : String) (g : ℕ) (s : W.State)
      → (W.pods.delete c n g s).0 ≡ ok tt
      → (j : String) → specs (W.pods.delete c n g s).1 c j ≡ (if n == j then none else specs s c j)
  pub delete_pod_configs :
      (c : Client) (n : String) (g : ℕ) (s : W.State)
      → configs (W.pods.delete c n g s).1 ≡ configs s
  pub create_pod :
      (c : Client) (p : Pod) (s : W.State) {q : Pod}
      → (W.pods.create c p s).0 ≡ ok q
      → (j : String)
      → specs (W.pods.create c p s).1 c j ≡ (if p.meta.name == j then some p.spec else specs s c j)
  pub create_pod_configs :
      (c : Client) (p : Pod) (s : W.State) → configs (W.pods.create c p s).1 ≡ configs s
  pub watch_specs :
      (c : Client) (o : WatchOptions) (t : ℕ) (s : W.State)
      → specs (W.pods.watch c o t s).1 ≡ specs s
  pub watch_configs :
      (c : Client) (o : WatchOptions) (t : ℕ) (s : W.State)
      → configs (W.pods.watch c o t s).1 ≡ configs s
  pub sleep_specs : (n : ℕ) (s : W.State) → specs (W.sleep n s) ≡ specs s
  pub sleep_configs : (n : ℕ) (s : W.State) → configs (W.sleep n s) ≡ configs s
