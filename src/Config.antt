-- ===== src/Config.antt =====
-- cluster-api/Config.h: the constants of the system and the commands of its protocol.
use computing_cluster.Base.{ℕ, List, [], ◌∷◌, ◌++◌}
use Prim.Native.Char.{code}
use Prim.Native.String.{String}

abbrev pub discovery_server_port : ℕ
discovery_server_port = 9798

abbrev pub discovery_client_port : ℕ
discovery_client_port = 9799

abbrev pub discovery_repeat_interval : ℕ
discovery_repeat_interval = 1

abbrev codes : String → List ℕ
codes String.[] = []
codes (String.◌∷◌ c s) = code c ∷ codes s

-- The array of a C string literal ends with a zero byte.
abbrev pub clients_discovery_datagram : List ℕ
clients_discovery_datagram = codes "Where are you, CLUSTER-SERVER!" ++ 0 ∷ []

-- sizeof of the array
abbrev pub clients_discovery_datagram_size : ℕ
clients_discovery_datagram_size = 31

abbrev pub servers_discovery_datagram : List ℕ
servers_discovery_datagram = codes "I am here, CLUSTER-CLIENT!" ++ 0 ∷ []

abbrev pub servers_discovery_datagram_size : ℕ
servers_discovery_datagram_size = 27

abbrev pub connection_port : ℕ
connection_port = 9798

abbrev pub max_simultaneous_connections : ℕ
max_simultaneous_connections = 100

abbrev pub listen_connection_backlog : ℕ
listen_connection_backlog = 10

abbrev pub tcp_keepalive_idle_time : ℕ
tcp_keepalive_idle_time = 1

abbrev pub tcp_keepalive_interval : ℕ
tcp_keepalive_interval = 1

abbrev pub tcp_keepalive_num_probes : ℕ
tcp_keepalive_num_probes = 4

abbrev pub tcp_no_send_acks_timeout : ℕ
tcp_no_send_acks_timeout = 5000

abbrev pub max_tasks_per_client : ℕ
max_tasks_per_client = 16

-- The values of the enumeration of commands. The first two never travel: they are results of the
-- functions that read and write a connection.
abbrev pub err_conn_broken : ℕ
err_conn_broken = 0

abbrev pub err_not_ready : ℕ
err_not_ready = 1

abbrev pub cmd_request_for_data : ℕ
cmd_request_for_data = 2

abbrev pub cmd_result : ℕ
cmd_result = 3

abbrev pub cmd_task : ℕ
cmd_task = 4

-- (uint32_t) -1, which stands for "no task" wherever a task number is stored.
abbrev pub no_task : ℕ
no_task = 4294967295

pub record RequestHeader : Type 0 where
  pub cmd : ℕ
  pub task_id : ℕ

-- sizeof(struct RequestHeader): the structure is packed.
abbrev pub sizeof_header : ℕ
sizeof_header = 5
