-- ===== src/Server/Setup/Run.antt =====
-- The server's whole run: what the init functions establish is what the event loop needs.
use computing_cluster.Base.{
  ℕ, ◌+◌, ◌*◌, ◌≤◌, ◌<◌, ◌≡◌, refl, List, [], ◌∷◌, Option, none, some, length, ◌==◌,
}
use computing_cluster.Config.{RequestHeader, sizeof_header}
use computing_cluster.System.Outcome.{bug_on}
use computing_cluster.System.Kernel.{Kernel, pthread_join, shutdown, close}
use computing_cluster.System.Action.{World, pure, ◌>>◌, lift, require}
use computing_cluster.System.Rules.{
  Leads, Keeps, Leads-bind, Keeps-bind, require_lead, require_then, valid_fd_lead, bug_on-Keeps,
}
use computing_cluster.Server.Types.{Connection, ClusterServerHandle}
use computing_cluster.Server.Invariant.{ServerInv}
use computing_cluster.Server.Discovery.{free_discovery_routine}
use computing_cluster.Server.Eventloop.{server_eventloop}
use computing_cluster.Server.Eventloop.Finish.{IsFinished, server_eventloop-IsFinished}
use computing_cluster.Server.Setup.{
  with_arguments, free_connections, free_connection_management_routine, init_cluster_server,
  stop_cluster_server, check_arguments, compute_task,
}
use computing_cluster.Server.Setup.Stages.{ServerInv-epoll, AllocatesInFull, IsGiven}
use computing_cluster.Server.Setup.Establishes.{init_cluster_server-ServerInv}

module _ (os : Kernel) where
  close_open-Keeps :
      (P : ClusterServerHandle → Type 0) (o : Option ℕ)
      → Keeps P (elim o [
        | none ↦ pure tt
        | some fd ↦ do require os (shutdown fd); require os (close fd); pure tt
      ])
  close_open-Keeps P none w p = p
  close_open-Keeps P (some fd) w p =
      require_then P os _ _ (require_then P os _ (pure tt) (λ _ q. q)) w p

  free_connections-Keeps :
      (P : ClusterServerHandle → Type 0) (conns : List Connection)
      → Keeps P (free_connections os conns)
  unfolding free_connections
  free_connections-Keeps P [] w p = p
  free_connections-Keeps P (c ∷ conns) w p =
      Keeps-bind P
        (elim c.socket_fd [
          | none ↦ pure tt
          | some fd ↦ do require os (shutdown fd); require os (close fd); pure tt
        ])
        (λ _. free_connections os conns) (close_open-Keeps P c.socket_fd)
        (λ _. free_connections-Keeps P conns) w p

  -- Nothing but the descriptor of epoll is changed.
  pub stop_cluster_server-Keeps :
      (P : ClusterServerHandle → Type 0)
      → ((h : ClusterServerHandle) → P h → P (record h { epoll_fd = none }))
      → Keeps P (stop_cluster_server os)
  unfolding stop_cluster_server free_discovery_routine free_connection_management_routine
  stop_cluster_server-Keeps P closed = require_then P os pthread_join _ λ w p.
      valid_fd_lead (λ _. P) w.handle.epoll_fd _ _ w
        λ fd _.
          require_lead (λ _. P) os (close fd) _ w
            λ w'.
              Keeps-bind P (free_discovery_routine os) (λ _. free_connection_management_routine os)
                (λ w₁. require_then P os (close w₁.handle.discovery_socket_fd) _ (λ _ q. q) w₁)
                (λ _ w₂.
                  require_then P os (close w₂.handle.accept_socket_fd) _
                    (free_connections-Keeps P w₂.handle.client_conns) w₂)
                (record w' { handle = record (w.handle) { epoll_fd = none } }) (closed w.handle p)

  IsFinished-epoll :
      (h : ClusterServerHandle) → IsFinished h → IsFinished (record h { epoll_fd = none })
  IsFinished-epoll h p = record {
    inv = ServerInv-epoll none p.inv;
    all_done = p.all_done;
    none_given = p.none_given;
  }

  -- Where the checks let the arguments pass, they leave the handle alone.
  pub check_arguments_lem :
      (num_tasks : ℕ) (tasks : List ℕ) (task_size : ℕ) (rets : List ℕ) (ret_size : ℕ)
      (w : World ClusterServerHandle)
      → Leads
          (check_arguments os num_tasks (some tasks) task_size (some rets) ret_size)
          w
          (λ args _. args ≡ (tasks, rets))
  unfolding check_arguments
  check_arguments_lem num_tasks tasks task_size rets ret_size w =
      let P : List ℕ × List ℕ → ClusterServerHandle → Type 0 = λ args _. args ≡ (tasks, rets) in
      let U : Unit {0} → ClusterServerHandle → Type 0 = λ _ _. Unit in
      Leads-bind U P (lift (bug_on (num_tasks == 0))) _ w
        (bug_on-Keeps (λ _. Unit) (num_tasks == 0) w tt)
        λ _ w₁ _.
          Leads-bind U P (lift (bug_on (task_size == 0))) _ w₁
            (bug_on-Keeps (λ _. Unit) (task_size == 0) w₁ tt)
            λ _ w₂ _.
              Leads-bind U P (lift (bug_on (ret_size == 0))) _ w₂
                (bug_on-Keeps (λ _. Unit) (ret_size == 0) w₂ tt) λ _ w₃ _. refl

  run_lem :
      (rounds fuel : ℕ) (conn : Connection) (header : RequestHeader) (w : World ClusterServerHandle)
      → AllocatesInFull os
      → IsGiven w.handle
      → Leads
          (init_cluster_server os conn
            >> (server_eventloop os rounds fuel header >> stop_cluster_server os))
          w
          (λ _. IsFinished)
  run_lem rounds fuel conn header w mem given =
      Leads-bind (λ _. ServerInv) (λ _. IsFinished) (init_cluster_server os conn) _ w
        (init_cluster_server-ServerInv os conn w mem given)
        λ _ w₁ v.
          Leads-bind (λ _. IsFinished) (λ _. IsFinished) (server_eventloop os rounds fuel header) _
            w₁ (server_eventloop-IsFinished os rounds fuel header w₁ v)
            λ _. stop_cluster_server-Keeps IsFinished IsFinished-epoll

  -- The server's whole run, with a kernel whose malloc() answers with blocks of the size that was
  -- asked for, arrays of the user with an entry for each of at most 2^31 tasks, and a frame size below
  -- 2^64: whatever the network does, where compute_task() returns, every task is COMPLETED, no
  -- connection holds a task, and the handle satisfies the invariant.
  pub compute_task-IsFinished :
      (rounds fuel : ℕ) (conn : Connection) (header : RequestHeader) (num_tasks : ℕ)
      (tasks : List ℕ) (task_size : ℕ) (rets : List ℕ) (ret_size : ℕ)
      (w : World ClusterServerHandle)
      → AllocatesInFull os
      → num_tasks ≤ 2147483648
      → sizeof_header + ret_size < 18446744073709551616
      → length tasks ≡ num_tasks * task_size
      → length rets ≡ num_tasks * ret_size
      → Leads
          (compute_task os rounds fuel conn header num_tasks
            (some tasks)
            task_size
            (some rets)
            ret_size)
          w
          (λ _. IsFinished)
  unfolding compute_task
  compute_task-IsFinished rounds fuel conn header num_tasks tasks task_size rets ret_size w mem few
        frame user_bytes room =
      Leads-bind (λ args _. args ≡ (tasks, rets)) (λ _. IsFinished)
        (check_arguments os num_tasks (some tasks) task_size (some rets) ret_size) _ w
        (check_arguments_lem num_tasks tasks task_size rets ret_size w)
        λ args w₁ e.
          run_lem rounds fuel conn header
            (record w₁ {
              handle = with_arguments w₁.handle num_tasks args.0 task_size args.1 ret_size;
            })
            mem
            (record { few = few; frame = frame; user_bytes = rw e user_bytes; room = rw e room })
