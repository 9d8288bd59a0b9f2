-- ===== src/Kube/Spares.antt =====
-- Views of the world that the calls of one client leave alone, such as what another cluster holds.
use kubernetes_cpi.Base.{ℕ, String, ◌≡◌}
use kubernetes_cpi.Exec.{ok}
use kubernetes_cpi.Exec.Keeps.{Leaves}
use kubernetes_cpi.Kube.Objects.{Foreign}
use kubernetes_cpi.Kube.World.{World, Client, Resource, WatchOptions}

-- A view that is left alone by what goes to no cluster.
pub record Ambient (W : World) {X : Type 0} (view : W.State → X) : Type 0 where
  pub new_client : (x : String) → Leaves view (W.new_client x)
  pub read_file : (path : String) → Leaves view (W.read_file path)
  pub sleep : (n : ℕ) (s : W.State) → view (W.sleep n s) ≡ view s

-- A view that is left alone by all calls of a client on one kind of objects.
pub record Spared {S Obj X : Type 0} (R : Resource S Obj) (view : S → X) (c : Client) : Type 0 where
  pub get : (n : String) → Leaves view (R.get c n)
  pub create : (o : Obj) → Leaves view (R.create c o)
  pub update : (o : Obj) → Leaves view (R.update c o)
  pub delete : (n : String) (g : ℕ) → Leaves view (R.delete c n g)
  pub list : (l : String) → Leaves view (R.list c l)
  pub watch : (o : WatchOptions) (t : ℕ) → Leaves view (R.watch c o t)

-- A view that is left alone by all calls of a client.
pub record Spares (W : World) {X : Type 0} (view : W.State → X) (c : Client) : Type 0 where
  pub pods : Spared W.pods view c
  pub config_maps : Spared W.config_maps view c
  pub claims : Spared W.claims view c
  pub services : Spared W.services view c
  pub ingresses : Spared W.ingresses view c
  pub secrets : Spared W.secrets view c
  pub namespaces : Spared W.namespaces view c
  pub deployments : Spared W.deployments view c
  pub patch_pod : (n : String) (p : Foreign) → Leaves view (W.patch_pod c n p)

-- So it is for every client that is made for a context.
abbrev pub SparesContext : (W : World) {X : Type 0} (view : W.State → X) → String → Type 0
SparesContext W view context =
    (s : W.State) (c : Client) → (W.new_client context s).0 ≡ ok c → Spares W view c
