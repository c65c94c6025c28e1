-- ===== src/Server/Setup/Account.antt =====
-- The server's whole run, seen as the account of its tasks.
use computing_cluster.Base.{
  ℕ, zero, suc, ◌+◌, ◌*◌, ◌≤◌, ◌<◌, ◌≡◌, refl, ap, ◌∙◌, List, some, arith, length, get_elem?,
  get_elem?-lt, get_elem?-none, inl, inr, ltb, true, false, Option-cases,
}
use mathlib.Core.Path.{fun_ext}
use computing_cluster.Config.{
  RequestHeader, sizeof_header, max_tasks_per_client, max_simultaneous_connections,
}
use computing_cluster.System.Kernel.{
  Kernel, malloc, socket, stream_nonblocking, datagram_nonblocking, epoll_create1, pthread_create,
}
use computing_cluster.System.Action.{World, ◌>>=◌, ◌>>◌, get, put, require, or_exit}
use computing_cluster.System.Rules.{
  Leads, Keeps, Leads-bind, Leads-both, Keeps-bind, require_lead, require_then, require-Keeps,
  or_exit-Keeps,
}
use computing_cluster.Server.Types.{
  Connection, Status, not_resolved, resolving, completed, ClusterServerHandle,
}
use computing_cluster.Server.Invariant.{ServerInv}
use computing_cluster.Server.Tasks.{init_task_management_routine}
use computing_cluster.Server.Tasks.Statuses.{agree, status_at-eq, tally_full}
use computing_cluster.Server.Connections.{start_connection_management_routine}
use computing_cluster.Server.Discovery.{init_discovery_routine, start_discovery_routine}
use computing_cluster.Server.Eventloop.{server_eventloop}
use computing_cluster.Server.Eventloop.Finish.{IsFinished, server_eventloop-Keeps}
use computing_cluster.Server.Ledger.{waiting, here, all_waiting}
use computing_cluster.Server.Ledger.View.{by_status, stored_value, ledger}
use computing_cluster.Server.Ledger.Loop.{Follows, Follows-Stable, AllDone, all_waiting-AllDone}
use computing_cluster.Server.Setup.{
  allocate_connections, init_connection_management_routine, init_tasks_of_handle,
  init_cluster_server, stop_cluster_server, with_arguments, check_arguments, compute_task,
}
use computing_cluster.Server.Setup.Stages.{AllocatesInFull, IsGiven}
use computing_cluster.Server.Setup.Establishes.{
  start_connections-Keeps, start_discovery-Keeps, init_cluster_server-ServerInv,
}
use computing_cluster.Server.Setup.Run.{stop_cluster_server-Keeps, check_arguments_lem}

-- Where all tasks are NOT_RESOLVED, all of them wait in the account.
waiting_of : (v : List ℕ) (s : Status) → agree not_resolved s ≡ 1 → by_status v s ≡ waiting
waiting_of v not_resolved e = refl
waiting_of v resolving e = absurd (omega arith)
waiting_of v completed e = absurd (omega arith)

all_left-all_waiting :
    {h : ClusterServerHandle}
    → ServerInv h
    → h.num_not_resolved ≡ h.num_tasks
    → ledger h ≡ all_waiting h.num_tasks
all_left-all_waiting {h} v all = fun_ext λ j. elim (Option-cases (get_elem? h.task_manager j)) [
  | inl out ↦
      let over : ltb j h.num_tasks ≡ false =
        ground (arith, get_elem?-none h.task_manager j out, v.tasks.sized) in
      rw (out, over) refl
  | inr (t, e) ↦
      let bound = get_elem?-lt h.task_manager j e in
      let below : ltb j h.num_tasks ≡ true = ground (arith, bound, v.tasks.sized) in
      let full =
        tally_full not_resolved h.task_manager j
          (omega (arith, all, v.tasks.unresolved, v.tasks.sized)) bound in
      rw (e, below)
        (waiting_of (stored_value h j) t.status
          (omega (arith, full, status_at-eq not_resolved h.task_manager j t e)))
]

-- The number of tasks, and that none was given yet.
abbrev Untouched : (n : ℕ) → ClusterServerHandle → Type 0
Untouched n h = (h.num_not_resolved ≡ h.num_tasks) × (h.num_tasks ≡ n)

abbrev Sized : (n : ℕ) → ClusterServerHandle → Type 0
Sized n h = h.num_tasks ≡ n

module _ (os : Kernel) (n : ℕ) where
  discovery-Sized : Keeps (Sized n) (init_discovery_routine os)
  unfolding init_discovery_routine
  discovery-Sized =
      Keeps-bind (Sized n) (require os (socket datagram_nonblocking)) _
        (require-Keeps (Sized n) os _)
        λ fd.
          require_then (Sized n) os _ _
            (require_then (Sized n) os _ _ (require_then (Sized n) os _ _ (λ _ q. q)))

  allocate-Sized :
      (count : ℕ) (conn : Connection) → Keeps (Sized n) (allocate_connections os count conn)
  unfolding allocate_connections
  allocate-Sized zero conn w q = q
  allocate-Sized (suc count) conn w q =
      Leads-bind (λ _. Sized n) (λ _. Sized n)
        (or_exit (os.input w.trace (malloc (sizeof_header + w.handle.ret_size)))) _ _
        (or_exit-Keeps (Sized n) (os.input w.trace (malloc (sizeof_header + w.handle.ret_size))) _
          q)
        λ buffer. require_then (Sized n) os (malloc (max_tasks_per_client * 4)) _ (
          Keeps-bind (Sized n) (allocate_connections os count conn) _ (allocate-Sized count conn)
            (λ _ _ q. q))

  connections-Sized :
      (conn : Connection) → Keeps (Sized n) (init_connection_management_routine os conn)
  unfolding init_connection_management_routine
  connections-Sized conn =
      require_then (Sized n) os (malloc (max_simultaneous_connections * 48)) _ (
        Keeps-bind (Sized n) (allocate_connections os max_simultaneous_connections conn) _
          (allocate-Sized max_simultaneous_connections conn)
          λ conns w q.
            Leads-bind (λ _. Sized n) (λ _. Sized n) (require os (socket stream_nonblocking)) _ _
              (require-Keeps (Sized n) os (socket stream_nonblocking) _ q)
              λ fd.
                require_then (Sized n) os _ _
                  (require_then (Sized n) os _ _ (require_then (Sized n) os _ _ (λ _ q. q))))

  tasks-Untouched :
      (w : World ClusterServerHandle)
      → Sized n w.handle
      → Leads (init_tasks_of_handle os) w (λ _. Untouched n)
  unfolding init_tasks_of_handle init_task_management_routine
  tasks-Untouched w q =
      require_lead (λ _. Untouched n) os (malloc (w.handle.num_tasks * 24)) (put _) w
        (λ _. (refl, q))

  start-Untouched : Keeps (Untouched n) (do
    epoll_fd ← require os epoll_create1
    h ← get
    put (record h { epoll_fd = some epoll_fd })
    require os pthread_create
    start_connection_management_routine os
    start_discovery_routine os)
  start-Untouched =
      Keeps-bind (Untouched n) (require os epoll_create1) _ (require-Keeps (Untouched n) os _)
        λ fd w v.
          require_then (Untouched n) os pthread_create _
            (Keeps-bind (Untouched n) (start_connection_management_routine os) _
              (start_connections-Keeps os (Untouched n))
              (λ _. start_discovery-Keeps os (Untouched n)))
            (record w { handle = record (w.handle) { epoll_fd = some fd } }) v

  init-Untouched :
      (conn : Connection) (w : World ClusterServerHandle)
      → Sized n w.handle
      → Leads (init_cluster_server os conn) w (λ _. Untouched n)
  unfolding init_cluster_server
  init-Untouched conn w q =
      Leads-bind (λ _. Sized n) (λ _. Untouched n) (init_discovery_routine os) _ w
        (discovery-Sized w q)
        λ _ w₁ q₁.
          Leads-bind (λ _. Sized n) (λ _. Untouched n) (init_connection_management_routine os conn)
            _ w₁ (connections-Sized conn w₁ q₁)
            λ _ w₂ q₂.
              Leads-bind (λ _. Untouched n) (λ _. Untouched n) (init_tasks_of_handle os) _ w₂
                (tasks-Untouched w₂ q₂) λ _. start-Untouched

-- What the run leaves behind: each of the n tasks has a value.
abbrev pub Served : (n : ℕ) → ClusterServerHandle → Type 0
Served n h = AllDone n (ledger h)

module _ (os : Kernel) where
  run-AllDone :
      (rounds fuel : ℕ) (conn : Connection) (header : RequestHeader) (w : World ClusterServerHandle)
      → AllocatesInFull os
      → IsGiven w.handle
      → Leads
          (init_cluster_server os conn
            >> (server_eventloop os rounds fuel header >> stop_cluster_server os))
          w
          (λ _. Served w.handle.num_tasks)
  run-AllDone rounds fuel conn header w mem given =
      let n = w.handle.num_tasks in
      Leads-bind (λ _ h. ServerInv h × Untouched n h) (λ _. Served n) (init_cluster_server os conn)
        _ w
        (Leads-both (λ _. ServerInv) (λ _. Untouched n) (init_cluster_server os conn) w
          (init_cluster_server-ServerInv os conn w mem given) (init-Untouched os n conn w refl))
        λ _ w₁ (v, (left, total)).
          let begun : ledger w₁.handle ≡ all_waiting n =
            all_left-all_waiting v left ∙ ap all_waiting total in
          Leads-bind (λ _ h. Follows (all_waiting n) h × IsFinished h) (λ _. Served n)
            (server_eventloop os rounds fuel header) _ w₁
            (server_eventloop-Keeps os (Follows-Stable (all_waiting n)) rounds fuel header w₁
              (record { inv = v; reach = rw begun here }))
            λ _ w₂ (p, f).
              stop_cluster_server-Keeps os (Served n) (λ h q. q) w₂ (all_waiting-AllDone p.reach f)

  -- The server's whole run, with a kernel whose malloc() answers with blocks of the size that was
  -- asked for, arrays of the user with an entry for each of at most 2^31 tasks, and a frame size below
  -- 2^64: whatever the network does, where compute_task() returns, each of the tasks that it was called
  -- with has a value.
  pub compute_task-AllDone :
      (rounds fuel : ℕ) (conn : Connection) (header : RequestHeader) (num_tasks : ℕ)
      (tasks : List ℕ) (task_size : ℕ) (rets : List ℕ) (ret_size : ℕ)
      (w : World ClusterServerHandle)
      → AllocatesInFull os
      → num_tasks ≤ 2147483648
      → sizeof_header + ret_size < 18446744073709551616
      → length tasks ≡ num_tasks * task_size
      → length rets ≡ num_tasks * ret_size
      → Leads
          (compute_task os rounds fuel conn header num_tasks
            (some tasks)
            task_size
            (some rets)
            ret_size)
          w
          (λ _ h. AllDone num_tasks (ledger h))
  unfolding compute_task
  compute_task-AllDone rounds fuel conn header num_tasks tasks task_size rets ret_size w mem few
        frame user_bytes room =
      Leads-bind (λ args _. args ≡ (tasks, rets)) (λ _. Served num_tasks)
        (check_arguments os num_tasks (some tasks) task_size (some rets) ret_size) _ w
        (check_arguments_lem os num_tasks tasks task_size rets ret_size w)
        λ args w₁ e.
          run-AllDone rounds fuel conn header
            (record w₁ {
              handle = with_arguments w₁.handle num_tasks args.0 task_size args.1 ret_size;
            })
            mem
            (record { few = few; frame = frame; user_bytes = rw e user_bytes; room = rw e room })
