-- ===== src/Client/Types.antt =====
-- The data of the client: cluster-api/ClusterClient.h.
use computing_cluster.Base.{ℕ, Bool, List}
use computing_cluster.Wire.{ByteOrder}

pub record Connection : Type 0 where
  pub socket_fd : ℕ
  pub recv_buffer : List ℕ
  pub bytes_recieved : ℕ

-- in_args: the two packs are places in the task buffer and in the result buffer.
pub record ComputeInfo : Type 0 where
  pub data_pack : ℕ
  pub ret_pack : ℕ

-- `alive` stands for thread_id: whether the thread that pthread_create() made for the entry has not
-- returned yet. The function of the user is a parameter of the model.
pub record ThreadInfo : Type 0 where
  pub empty : Bool
  pub in_args : ComputeInfo
  pub open in_args use *
  pub alive : Bool
  pub cpu : ℕ
  pub task_id : ℕ
  pub event_fd : ℕ
  pub waiting_to_be_sent : Bool

-- The host's name is left out: it only travels to getaddrinfo(). A field that is read before it is
-- written is what the stack held. cache_line_size is the size_t that the int is converted to.
pub record ClusterClientHandle : Type 0 where
  pub host : ByteOrder
  pub epoll_fd : ℕ
  pub local_discovery : Bool
  pub discovery_socket_fd : ℕ
  pub discovery_timer_fd : ℕ
  pub server_conn : Connection
  pub server_addr : ℕ
  pub initial_requests : ℕ
  pub thread_manager : List ThreadInfo
  pub max_threads : ℕ
  pub task_buffer : List ℕ
  pub task_size : ℕ
  pub ret_buffer : List ℕ
  pub ret_size : ℕ
  pub max_cpu : ℕ
  pub cache_line_size : ℕ
