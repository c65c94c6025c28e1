-- ===== src/Server/Types.antt =====
-- The data of the server: ClusterServer.h.
use computing_cluster.Base.{ℕ, Bool, true, false, List, Option, none, some, ◌==◌}
use computing_cluster.Wire.{ByteOrder}

pub record Connection : Type 0 where
  -- `none` is -1, a free cell of the table.
  pub socket_fd : Option ℕ
  pub recv_buffer : List ℕ
  pub bytes_recieved : ℕ
  pub now_sending_task_i : ℕ
  pub requested_tasks : ℕ
  pub task_list : List ℕ

pub data Status : Type 0 where
  not_resolved resolving completed : Status

-- `task` and `ret` point into the two arrays of the user: they are offsets in bytes.
pub record TaskInfo : Type 0 where
  pub task : ℕ
  pub ret : ℕ
  pub status : Status

-- The fields of ClusterServerHandle under "Task management", with num_tasks.
pub record TaskPool : Type 0 where
  pub task_manager : List TaskInfo
  pub num_not_resolved : ℕ
  pub num_completed : ℕ
  pub min_not_resolved_task : ℕ
  pub num_tasks : ℕ

-- The descriptors are written by init_cluster_server() before anything reads them. The thread's
-- number and the two addresses are left out: they only travel to system calls.
pub record ClusterServerHandle : Type 0 where
  pub host : ByteOrder
  pub epoll_fd : Option ℕ
  pub discovery_socket_fd : ℕ
  pub accept_socket_fd : ℕ
  pub client_conns : List Connection
  pub num_clients : ℕ
  pub max_clients : ℕ
  pub pool : TaskPool
  pub open pool use *
  pub user_tasks : List ℕ
  pub user_rets : List ℕ
  pub task_size : ℕ
  pub ret_size : ℕ

-- socket_fd == fd
abbrev pub is_fd : Option ℕ → ℕ → Bool
is_fd none fd = false
is_fd (some s) fd = s == fd

abbrev pub is_free : Option ℕ → Bool
is_free none = true
is_free (some s) = false

abbrev pub is_not_resolved : Status → Bool
is_not_resolved not_resolved = true
is_not_resolved _ = false
