-- ===== src/Lib.antt =====
-- The Kubernetes CPI: a program that a BOSH director runs once per request, to keep VMs and disks in
-- a Kubernetes cluster. A VM is a pod (or a deployment) with a config map that holds the settings of
-- its agent, and services; a disk is a persistent volume claim. The ids that the director is given
-- name a context of the cluster's configuration and the agent or the disk in it.
--
-- The actions are functions from the state of the world to an outcome and the next state
-- (Exec: a value, an error, a panic, or an endless wait). `Exec.◌>>=◌` is the chain of
-- `if err != nil { return … }` steps, `wrapping` is `bosherr.WrapError`.
--
--   Base, Base/Tests, Base/Maps   Boolean tests, Go maps as association lists
--   Exec, Exec/...                outcomes, and rules for panics, untouched views, successful and
--                                 failed runs
--   Text                          what the program uses of Go's strings and fmt
--   Agent, Cpi                    agent/settings.go, cpi/types.go, cpi/remarshal.go, cpi/errors.go
--   Cid                           actions/util.go: NewVMCID, ParseVMCID, NewDiskCID, ParseDiskCID
--   Kube/Objects                  the fields of API objects that the program reads or builds
--   Kube/World                    the calls of the API server, the clock and the vendored libraries
--   Kube/Watch                    the select loops of waitForPod, waitForDisk, waitForDeployment
--   Kube/Server                   what the server does with pods and config maps, as hypotheses
--   Kube/Client                   kubecluster/client.go: the accessors, and the world through them
--   Kube/Spares                   views of the world that the calls of a client leave alone
--   Kube/Memory                   a cluster in memory that meets the hypotheses
--   Actions/Volumes               actions/volume_manager.go: addVolume, removeVolume, updateVolumes
--   Actions/VolumeManager         actions/volume_manager.go: AttachDisk, DetachDisk, recreatePod, ...
--   Actions/Disks                 actions/create_disk.go, delete_disk.go, has_disk.go,
--                                 set_disk_metadata.go
--   Actions/Vms                   actions/delete_vm.go, has_vm.go, set_vm_metadata.go, get_disks.go
--   Actions/CreateVm              actions/create_vm.go
--   Actions/Stemcell              actions/info.go, actions/stemcell.go
--   Actions/Attached              AttachDisk, DetachDisk and GetDisks together: the list of disks
--   Actions/Agreement             the settings of an agent and the volumes of its pod, in step
--                                 (from the creation on: Actions/CreateVm/Agreed)
--   Actions/History               sequences of AttachDisk and DetachDisk against a specification
--   Dispatch                      cpi/dispatch.go
--   Main                          cmd/cpi/main.go: the choice of the action, and errors as panics
--   Main/Types, Main/Typed        the Go types that cross cpi.Dispatch, and reflect's call
--   Main/Table                    cmd/cpi/main.go: the function behind each method, its settings
--   Main/Program                  cmd/cpi/main.go: main, loadKubeConfig, loadAgentConfig, debugJSON
--   Main/Program/Methods          the methods with their arguments and actions, as a relation
--   Main/Isolation                what a request leaves alone
--   Config                        config/kubernetes.go, kubecluster/provider.go
--   Fakes                         kubecluster/fakes: client.go, client_provider.go, client_context.go
--   Examples                      runs on a small cluster
--
-- The state of the world is the parameter `World`: each call of client-go takes the client, the
-- arguments and the state, and gives a result and a state, so that other clients may write between
-- two calls. Theorems on what is stored (by the laws of Kube/Server, Vms/Gone, Attached, Disks/Found,
-- Disks/Gone, CreateVm/Found and CreateVm/Kept) assume that nobody else writes. A watch is the list
-- of what the `select` statement receives, events and the timer, in order; a list that ends leaves the
-- loop waiting. Loops over lists are structural recursions; a `range` over a map takes the pairs in
-- the order of the association list, and theorems hold for each order.
-- `Text.decimal` runs on fuel n + 1 for the number n, one round for each digit.
--
-- The actions work with a `World` in which `new_client` is a parameter; `main` gives them the world
-- whose `new_client` is the one of kubecluster/provider.go, on the configuration that it has read, and
-- whose calls on objects go where the accessors of kubecluster/client.go say. What the vendored client
-- does with a clientset and a namespace is a parameter, `Clientset`. The system around the process is
-- the parameter `Host`: files, standard input and output, JSON text. A nil slice and an empty one are
-- both the empty list.
--
-- Not modelled: JSON text, which the parameters `marshal_...` and `unmarshal_...` stand for; the lock
-- of createServices, which is fresh in each round and orders nothing, and the locks of the fakes, whose
-- calls are in sequence; and integration/test_assets/integration_helpers.go, test code that runs the
-- command lines of other programs and decodes what they print.
mod Base
pub mod Exec
pub mod Text
pub mod Agent
pub mod Cpi
pub mod Kube
pub mod Actions
pub mod Cid
pub mod Dispatch
pub mod Main
pub mod Config
pub mod Fakes
mod Examples
