-- ===== src/Client/Setup.antt =====
-- "Initialization and deinitialization" of cluster-api/cluster-client.c, with client_compute(), the
-- entry point of the library.
pub mod Threads
pub mod Asked
pub mod Places
pub mod Establishes
pub mod Run
use computing_cluster.Base.{ℕ, Bool, true, not, List, Option, none, some, ◌==◌}
use computing_cluster.Config.{RequestHeader}
use computing_cluster.System.Outcome.{bug_on}
use computing_cluster.System.Kernel.{
  Kernel, Trace, close, epoll_create1, pthread_create, pthread_join,
}
use computing_cluster.System.Action.{◌>>=◌, ◌>>◌, get, put, lift, when, require}
use computing_cluster.Client.Types.{ClusterClientHandle}
use computing_cluster.Client.Tasks.{
  Client, init_task_management_routine, start_task_management_routine, free_task_management_routine,
}
use computing_cluster.Client.Connections.{
  init_connection_management_routine, start_connection_management_routine,
  free_connection_management_routine,
}
use computing_cluster.Client.Discovery.{
  init_discovery_routine, start_discovery_routine, free_discovery_routine,
}
use computing_cluster.Client.Eventloop.{client_eventloop}

abbrev pub with_arguments :
    ClusterClientHandle
    → (num_threads task_size ret_size : ℕ) (local_discovery : Bool) → ClusterClientHandle
with_arguments h num_threads task_size ret_size local_discovery = record h {
  local_discovery = local_discovery;
  max_threads = num_threads;
  ret_size = ret_size;
  task_size = task_size;
}

module _ (os : Kernel) where
  -- The event loop starts here, but before its first event there is nothing that it could do.
  unfoldable pub init_cluster_client : (fuel : ℕ) → Client (Unit {0})
  init_cluster_client fuel = do
    init_discovery_routine os
    init_connection_management_routine os
    init_task_management_routine os
    epoll_fd ← require os epoll_create1
    h ← get
    put (record h { epoll_fd = epoll_fd })
    require os pthread_create
    start_task_management_routine os
    start_discovery_routine os
    h' ← get
    when (not h'.local_discovery) (start_connection_management_routine os fuel)

  unfoldable pub stop_cluster_client : Client (Unit {0})
  stop_cluster_client = do
    require os pthread_join
    h ← get
    require os (close h.epoll_fd)
    free_discovery_routine os
    free_connection_management_routine os
    free_task_management_routine os

  -- The client's whole run. `local_discovery` is master_host == NULL, and `compute` is `none` where
  -- thread_func is NULL.
  unfoldable pub client_compute :
      (schedule : Trace → List ℕ)
      → (rounds fuel : ℕ) (stack : List ℕ) → RequestHeader
      → (num_threads task_size ret_size : ℕ) → (thread_func : Option (List ℕ → List ℕ))
      → (local_discovery : Bool) → Client (Unit {0})
  client_compute schedule rounds fuel stack header num_threads task_size ret_size none
        local_discovery =
      do
        lift (bug_on (num_threads == 0))
        lift (bug_on (task_size == 0))
        lift (bug_on (ret_size == 0))
        lift (bug_on true)
  client_compute schedule rounds fuel stack header num_threads task_size ret_size (some compute)
        local_discovery =
      do
        lift (bug_on (num_threads == 0))
        lift (bug_on (task_size == 0))
        lift (bug_on (ret_size == 0))
        h ← get
        put (with_arguments h num_threads task_size ret_size local_discovery)
        init_cluster_client fuel
        client_eventloop os schedule compute rounds fuel stack header
        stop_cluster_client
