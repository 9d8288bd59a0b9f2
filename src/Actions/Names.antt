-- ===== src/Actions/Names.antt =====
-- The names and labels under which the actions keep their objects in the cluster.
use kubernetes_cpi.Base.{String, ◌<>◌}

abbrev pub agent_id_label : String
agent_id_label = "bosh.cloudfoundry.org/agent-id"

abbrev pub disk_id_label : String
disk_id_label = "bosh.cloudfoundry.org/disk-id"

abbrev pub ip_address : String
ip_address = "bosh.cloudfoundry.org/ip-address"

-- The container that runs the agent.
abbrev pub bosh_job : String
bosh_job = "bosh-job"

-- The pod, the config map and the deployment of an agent.
abbrev pub agent_name : String → String
agent_name agent_id = "agent-" <> agent_id

-- The claim of a disk, and its volume in a pod.
abbrev pub disk_name : String → String
disk_name disk_id = "disk-" <> disk_id

abbrev pub mount_path_of : String → String
mount_path_of disk_id = "/mnt/" <> disk_id
