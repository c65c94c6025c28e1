-- ===== src/Server/Eventloop/Preserves.antt =====
-- The event loop of the server keeps the invariant, whatever the kernel answers.
use computing_cluster.Base.{
  ℕ, zero, suc, ◌≡◌, refl, Bool, true, false, not, none, some, get_elem?, set, inl, inr, ◌==◌,
  Bool-cases, Option-cases, if◌then◌else◌, get_elem?-set_self, get_elem?-lt, inc64,
}
use computing_cluster.Config.{
  RequestHeader, err_conn_broken, err_not_ready, cmd_request_for_data, cmd_result,
}
use computing_cluster.System.Outcome.{success, Ensures-of_eq}
use computing_cluster.System.Kernel.{Kernel, epoll_mod}
use computing_cluster.System.Action.{World, pure, ◌>>◌, exit, put}
use computing_cluster.System.Rules.{
  Leads, Keeps, Leads-bind, Leads-weaken, Keeps-bind, require_then, lift_lead, index_lead,
  valid_fd_lead, bug_on-Keeps, when-Keeps,
}
use computing_cluster.Server.Types.{Connection, ClusterServerHandle}
use computing_cluster.Server.Invariant.{ServerInv, IsConnection, ServerInv-touch}
use computing_cluster.Server.Tasks.{push_return_value, drop_resolving_tasks, cleared}
use computing_cluster.Server.Tasks.Release.{drop_resolving_tasks_lem}
use computing_cluster.Server.Tasks.Collect.{Collected, push_return_value-Collected}
use computing_cluster.Server.Tasks.Cells.{count-cleared}
use computing_cluster.Server.Connections.{
  interest, update_connection_management, accept_incoming_connection_request, delete_connection,
}
use computing_cluster.Server.Stable.{Stable, accept-Keeps, read_data-Keeps}
use computing_cluster.Server.Connections.Delete.{closed-ServerInv, delete_connection_lem}
use computing_cluster.Server.Transfer.{read_data_on_connection}
use computing_cluster.Server.Eventloop.{
  drop_connection, hang_up, request_task, enable_write, store_result, handle_command, receive,
  accept_all,
}

-- A counter of a connection is no part of the invariant.
recount :
    {ret_size : ℕ} (conn : Connection) (now requested : ℕ)
    → IsConnection ret_size conn
    → IsConnection ret_size (record conn { now_sending_task_i = now; requested_tasks = requested })
recount conn now requested c = record {
  buffer = c.buffer;
  partial = c.partial;
  cells = c.cells;
  idle = c.idle;
}

pub recount-ServerInv :
    {h : ClusterServerHandle} (conn_i : ℕ) (conn : Connection) (now requested : ℕ)
    → ServerInv h
    → get_elem? h.client_conns conn_i ≡ some conn
    → ServerInv (record h {
      client_conns =
          set h.client_conns conn_i
            (record conn { now_sending_task_i = now; requested_tasks = requested });
    })
recount-ServerInv conn_i conn now requested v there =
    ServerInv-touch conn_i conn _ v there refl
      (recount conn now requested (v.connections conn_i conn there)) refl

module _ (os : Kernel) where
  pub update-Keeps :
      (P : ClusterServerHandle → Type 0) (conn_i : ℕ) (can_write : Bool)
      → Keeps P (update_connection_management os conn_i can_write)
  unfolding update_connection_management
  update-Keeps P conn_i can_write w p =
      index_lead (λ _. P) w.handle.client_conns conn_i _ w
        λ conn _.
          valid_fd_lead (λ _. P) conn.socket_fd _ _ w
            λ fd _. require_then P os (epoll_mod fd (interest can_write)) (pure tt) (λ _ q. q) w p

  enable_write-Keeps :
      (P : ClusterServerHandle → Type 0) (conn_i : ℕ) → Keeps P (enable_write os conn_i)
  unfolding enable_write
  enable_write-Keeps P conn_i w p = when-Keeps P _ _ (update-Keeps P conn_i true) w p

module _ (os : Kernel) {P : ClusterServerHandle → Type 0} (s : Stable P) where
  -- Nor does a counter of a connection count for any other stable property.
  pub recount-Stable :
      {h : ClusterServerHandle} (conn_i : ℕ) (conn : Connection) (now requested : ℕ)
      → P h
      → get_elem? h.client_conns conn_i ≡ some conn
      → P (record h {
        client_conns =
            set h.client_conns conn_i
              (record conn { now_sending_task_i = now; requested_tasks = requested });
      })
  recount-Stable conn_i conn now requested v there =
      s.untouched v (recount-ServerInv conn_i conn now requested (s.inv v) there)
        (record { tasks = refl; rets = refl; ret_size = refl })

  request_task-Keeps : (conn_i : ℕ) → Keeps P (request_task os conn_i)
  unfolding request_task
  request_task-Keeps conn_i w v =
      index_lead (λ _. P) w.handle.client_conns conn_i _ w
        λ conn there.
          recount-Stable conn_i conn conn.now_sending_task_i (inc64 conn.requested_tasks) v there

  drop_absent :
      (conn_i : ℕ) (w : World ClusterServerHandle)
      → get_elem? w.handle.client_conns conn_i ≡ none
      → Leads (drop_connection os conn_i) w (λ _ h. P h)
  unfolding drop_connection drop_resolving_tasks
  drop_absent conn_i w e = rw e tt

  -- Losing a connection: its tasks are put back first, so the cell that becomes free holds none.
  pub drop_connection_lem :
      (conn_i : ℕ) (conn : Connection) (w : World ClusterServerHandle)
      → P w.handle
      → get_elem? w.handle.client_conns conn_i ≡ some conn
      → Leads (drop_connection os conn_i) w (λ _ h.
        P h
        × (conn' : Connection) × (get_elem? h.client_conns conn_i ≡ some conn')
        × (conn'.now_sending_task_i ≡ conn.now_sending_task_i))
  unfolding drop_connection
  drop_connection_lem conn_i conn w v there =
      let (h', e, (rel, v')) = drop_resolving_tasks_lem conn_i conn (s.inv v) there in
      let there' : get_elem? h'.client_conns conn_i
          ≡ some (record conn { task_list = cleared conn.task_list }) =
        rw rel.result (
          get_elem?-set_self w.handle.client_conns conn_i _
            (get_elem?-lt w.handle.client_conns conn_i there)) in
      rw e (
        Leads-weaken _ _ (delete_connection os conn_i) (record w { handle = h' })
          (λ _ h (same, opened). rw same (
            s.untouched (s.releases conn_i conn v there rel v')
                (closed-ServerInv conn_i _ v' there' opened
                  (λ j n. count-cleared j conn.task_list n))
                (record { tasks = refl; rets = refl; ret_size = refl }),
            record conn { task_list = cleared conn.task_list; socket_fd = none },
            get_elem?-set_self h'.client_conns conn_i _
                (get_elem?-lt h'.client_conns conn_i there'),
            refl,
          ))
          (delete_connection_lem os conn_i (record conn { task_list = cleared conn.task_list })
            (record w { handle = h' }) there'))

  drop_connection-Keeps : (conn_i : ℕ) → Keeps P (drop_connection os conn_i)
  drop_connection-Keeps conn_i w v = elim (Option-cases (get_elem? w.handle.client_conns conn_i)) [
    | inl absent ↦ drop_absent conn_i w absent
    | inr (conn, there) ↦
        Leads-weaken _ (λ _ h. P h) (drop_connection os conn_i) w (λ _ h q. q.0)
          (drop_connection_lem conn_i conn w v there)
  ]

  store_result-Keeps :
      (conn_i : ℕ) (header : RequestHeader) → Keeps P (store_result os conn_i header)
  unfolding store_result
  store_result-Keeps conn_i header w v =
      lift_lead (λ _. P) (push_return_value w.handle conn_i header) put w
        λ h e. s.collects conn_i header.task_id v (
          Ensures-of_eq (Collected w.handle conn_i header.task_id) _
            (push_return_value-Collected conn_i header (s.inv v)) e)

  handle_command-Keeps :
      (conn_i : ℕ) (header : RequestHeader) → Keeps P (handle_command os conn_i header)
  unfolding handle_command
  handle_command-Keeps conn_i header w v = elim (Bool-cases (header.cmd == cmd_request_for_data)) [
    | inl request ↦ rw request (
        Keeps-bind P (request_task os conn_i) (λ _. enable_write os conn_i)
          (request_task-Keeps conn_i) (λ _. enable_write-Keeps os P conn_i) w v)
    | inr e ↦ rw e (elim (Bool-cases (header.cmd == cmd_result)) [
      | inl result ↦ rw result (
          Keeps-bind P (store_result os conn_i header)
            (λ _. request_task os conn_i >> enable_write os conn_i)
            (store_result-Keeps conn_i header)
            (λ _ w' v'.
              Keeps-bind P (request_task os conn_i) (λ _. enable_write os conn_i)
                (request_task-Keeps conn_i) (λ _. enable_write-Keeps os P conn_i) w' v')
            w v)
      | inr e' ↦ rw e' (elim (Bool-cases (header.cmd == err_conn_broken)) [
        | inl broken ↦ rw broken (drop_connection-Keeps conn_i w v)
        | inr e'' ↦ rw e'' (bug_on-Keeps P (not (header.cmd == err_not_ready)) w v)
      ])
    ])
  ]

  pub receive-Keeps : (conn_i : ℕ) (header : RequestHeader) → Keeps P (receive os conn_i header)
  unfolding receive
  receive-Keeps conn_i header w v =
      Keeps-bind P (read_data_on_connection os conn_i header) (handle_command os conn_i)
        (read_data-Keeps os s conn_i header) (handle_command-Keeps conn_i) w v

  pub hang_up-Keeps : (conn_i : ℕ) → Keeps P (hang_up os conn_i)
  unfolding hang_up
  hang_up-Keeps conn_i w v =
      Leads-bind (λ _. P) (λ _. P) (drop_connection os conn_i) _ w
        (drop_connection-Keeps conn_i w v)
        (λ _ w' v'. when-Keeps P (w'.handle.num_clients == 0) (exit success) (λ _ _. tt) w' v')

  accept_again :
      (accepted : Bool) (fuel : ℕ)
      → Keeps P (accept_all os fuel)
      → Keeps P (if accepted then accept_all os fuel else pure tt)
  accept_again true fuel k w v = k w v
  accept_again false fuel k w v = v

  pub accept_all-Keeps : (fuel : ℕ) → Keeps P (accept_all os fuel)
  unfolding accept_all
  accept_all-Keeps zero w v = tt
  accept_all-Keeps (suc fuel) w v =
      Keeps-bind P (accept_incoming_connection_request os)
        (λ accepted. if accepted then accept_all os fuel else pure tt) (accept-Keeps os s)
        (λ accepted. accept_again accepted fuel (accept_all-Keeps fuel)) w v
