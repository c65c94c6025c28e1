-- ===== src/Server/Setup.antt =====
-- "Initialization and deinitialization" of cluster-api/cluster-server.c, with the init and free
-- functions of the connection table, and compute_task(), the entry point of the library.
pub mod Fresh
pub mod Stages
pub mod Establishes
pub mod Run
pub mod Account
use computing_cluster.Base.{
  ℕ, zero, suc, ◌+◌, ◌*◌, Bool, true, false, List, [], ◌∷◌, ◌++◌, Option, none, some, ◌==◌,
  replicate,
}
use computing_cluster.Config.{
  RequestHeader, no_task, sizeof_header, max_tasks_per_client, max_simultaneous_connections,
  connection_port, listen_connection_backlog,
}
use computing_cluster.System.Outcome.{bug, failure, bug_on}
use computing_cluster.System.Kernel.{
  Kernel, socket, stream_nonblocking, bind, any, setsockopt, so_reuseaddr, listen, shutdown, close,
  malloc, epoll_create1, pthread_create, pthread_join,
}
use computing_cluster.System.Action.{
  Action, exit, pure, ◌>>=◌, ◌>>◌, get, put, lift, syscall_input, or_exit, require, valid_fd,
}
use computing_cluster.Server.Types.{Connection, ClusterServerHandle}
use computing_cluster.Server.Tasks.{init_task_management_routine}
use computing_cluster.Server.Connections.{Server, start_connection_management_routine}
use computing_cluster.Server.Discovery.{
  init_discovery_routine, start_discovery_routine, free_discovery_routine,
}
use computing_cluster.Server.Eventloop.{server_eventloop}

-- A new entry of the table. The two counters of a free cell are not written before it is used.
abbrev pub new_connection : Connection → (recv_buffer : List ℕ) → Connection
new_connection uninitialised recv_buffer = record uninitialised {
  socket_fd = none;
  recv_buffer = recv_buffer;
  bytes_recieved = 0;
  task_list = replicate max_tasks_per_client no_task;
}

-- A pointer that is NULL stops the program through BUG_ON.
abbrev pub not_null : {A : Type 0} → Option A → Action ClusterServerHandle A
not_null none = exit bug
not_null (some a) = pure a

abbrev pub with_arguments :
    ClusterServerHandle
    → (num_tasks : ℕ) (tasks : List ℕ) (task_size : ℕ) (rets : List ℕ) (ret_size : ℕ)
    → ClusterServerHandle
with_arguments h num_tasks tasks task_size rets ret_size = record h {
  pool = record (h.pool) { num_tasks = num_tasks };
  user_tasks = tasks;
  task_size = task_size;
  user_rets = rets;
  ret_size = ret_size;
}

module _ (os : Kernel) where
  -- The loop that allocates the buffers of the table's entries. The contents of a new block are what
  -- the kernel answers to malloc().
  unfoldable pub allocate_connections : (n : ℕ) → Connection → Server os (List Connection)
  allocate_connections zero uninitialised = pure []
  allocate_connections (suc n) uninitialised = do
    h ← get
    r ← syscall_input os (malloc (sizeof_header + h.ret_size))
    buffer ← or_exit r
    require os (malloc (max_tasks_per_client * 4))
    rest ← allocate_connections n uninitialised
    pure (new_connection uninitialised buffer ∷ rest)

  unfoldable pub init_connection_management_routine : Connection → Server os (Unit {0})
  unfolding allocate_connections
  init_connection_management_routine uninitialised = do
    require os (malloc (max_simultaneous_connections * 48))
    conns ← allocate_connections max_simultaneous_connections uninitialised
    h ← get
    put (record h {
      client_conns = conns;
      num_clients = 0;
      max_clients = max_simultaneous_connections;
    })
    sock_fd ← require os (socket stream_nonblocking)
    require os (bind sock_fd (any connection_port))
    require os (setsockopt sock_fd so_reuseaddr 1)
    require os (listen sock_fd listen_connection_backlog)
    h' ← get
    put (record h' { accept_socket_fd = sock_fd })

  unfoldable pub init_tasks_of_handle : Server os (Unit {0})
  init_tasks_of_handle = do
    h ← get
    require os (malloc (h.num_tasks * 24))
    put (record h { pool = init_task_management_routine h.num_tasks h.task_size h.ret_size })

  -- A connection that is still open is shut down and closed.
  unfoldable pub free_connections : List Connection → Server os (Unit {0})
  free_connections [] = pure tt
  free_connections (c ∷ cs) = do
    elim c.socket_fd [
      | none ↦ pure tt
      | some fd ↦ do require os (shutdown fd); require os (close fd); pure tt
    ]
    free_connections cs

  unfoldable pub free_connection_management_routine : Server os (Unit {0})
  unfolding free_connections
  free_connection_management_routine = do
    h ← get
    require os (close h.accept_socket_fd)
    free_connections h.client_conns

  unfoldable pub init_cluster_server : Connection → Server os (Unit {0})
  unfolding init_discovery_routine init_connection_management_routine init_tasks_of_handle
  init_cluster_server uninitialised = do
    init_discovery_routine os
    init_connection_management_routine uninitialised
    init_tasks_of_handle
    epoll_fd ← require os epoll_create1
    h ← get
    put (record h { epoll_fd = some epoll_fd })
    require os pthread_create
    start_connection_management_routine os
    start_discovery_routine os

  -- The thread of the event loop has ended when pthread_join() returns.
  unfoldable pub stop_cluster_server : Server os (Unit {0})
  unfolding free_connection_management_routine free_discovery_routine
  stop_cluster_server = do
    require os pthread_join
    h ← get
    epoll_fd ← valid_fd h.epoll_fd failure
    require os (close epoll_fd)
    put (record h { epoll_fd = none })
    free_discovery_routine os
    free_connection_management_routine

  -- What the caller passes, with the pointers that may be NULL.
  unfoldable pub check_arguments :
      (num_tasks : ℕ) (tasks : Option (List ℕ)) (task_size : ℕ) (rets : Option (List ℕ))
      (ret_size : ℕ)
      → Server os (List ℕ × List ℕ)
  check_arguments num_tasks tasks task_size rets ret_size = do
    lift (bug_on (num_tasks == 0))
    user_tasks ← not_null tasks
    lift (bug_on (task_size == 0))
    user_rets ← not_null rets
    lift (bug_on (ret_size == 0))
    pure (user_tasks, user_rets)

  -- The server's whole run. The main thread makes only calls of epoll_ctl() and pthread_join() while
  -- the event loop runs, so the loop stands behind them here.
  unfoldable pub compute_task :
      (rounds fuel : ℕ)
      → Connection
      → RequestHeader
      → (num_tasks : ℕ) (tasks : Option (List ℕ)) (task_size : ℕ) (rets : Option (List ℕ))
        (ret_size : ℕ)
      → Server os (Unit {0})
  unfolding check_arguments init_cluster_server stop_cluster_server
  compute_task rounds fuel conn header num_tasks tasks task_size rets ret_size = do
    (user_tasks, user_rets) ← check_arguments num_tasks tasks task_size rets ret_size
    h ← get
    put (with_arguments h num_tasks user_tasks task_size user_rets ret_size)
    init_cluster_server conn
    server_eventloop os rounds fuel header
    stop_cluster_server
