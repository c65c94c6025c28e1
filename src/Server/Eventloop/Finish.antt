-- ===== src/Server/Eventloop/Finish.antt =====
-- The whole event loop: it keeps the invariant, and ends only when every task is done.
use computing_cluster.Base.{
  ℕ, zero, suc, ◌<◌, ◌≡◌, ◌≢◌, refl, ◌∙◌, ==_iff, Bool, true, false, ◌&&◌, ◌||◌, List, [], ◌∷◌,
  Option, none, some, arith, get_elem?, length, inl, inr, ◌==◌, Bool-cases, if◌then◌else◌,
}
use computing_cluster.Config.{RequestHeader, no_task}
use computing_cluster.System.Kernel.{Kernel, EpollEvent, epoll_wait}
use computing_cluster.System.Action.{World, pure, ◌>>◌, when, or_exit}
use computing_cluster.System.Rules.{
  Leads, Keeps, Leads-bind, Leads-weaken, Keeps-bind, index_lead, when-Keeps, for_range-Keeps,
  or_exit-Keeps,
}
use computing_cluster.Server.Types.{Connection, ClusterServerHandle, completed, resolving, is_fd}
use computing_cluster.Server.Invariant.{ServerInv}
use computing_cluster.Server.Stable.{Stable, ServerInv-Stable}
use computing_cluster.Server.Tasks.Statuses.{
  status_at, tally, tally_full, status_at-le-tally, tally_partition,
}
use computing_cluster.Server.Tasks.Owners.{held}
use computing_cluster.Base.Count.{count}
use computing_cluster.Server.Connections.{Server}
use computing_cluster.Server.Discovery.{answer_clients_discovery_datagram}
use computing_cluster.Server.Discovery.Keep.{answer_clients-Keeps}
use computing_cluster.Server.Eventloop.{
  hang_up, receive, send_tasks, accept_all, for_connections_of, handle_event, handle_events,
  server_eventloop,
}
use computing_cluster.Server.Eventloop.Preserves.{receive-Keeps, hang_up-Keeps, accept_all-Keeps}
use computing_cluster.Server.Eventloop.Sends.{send_tasks-Keeps}

-- What the server has when its loop ends by itself.
pub record IsFinished (h : ClusterServerHandle) : Type 0 where
  pub inv : ServerInv h
  pub all_done : (i : ℕ) → i < h.num_tasks → status_at completed h.task_manager i ≡ 1
  pub none_given : (j : ℕ) → j ≢ no_task → count j (held h.client_conns) ≡ 0

is_fd-open : (o : Option ℕ) (fd : ℕ) → is_fd o fd ≡ true → o ≢ none
is_fd-open none fd e = cc
is_fd-open (some s) fd e = cc

finished : {h : ClusterServerHandle} → ServerInv h → h.num_completed ≡ h.num_tasks → IsFinished h
finished {h} v e =
    let full : tally completed h.task_manager ≡ length h.task_manager =
      omega (arith, v.tasks.done, v.tasks.sized) in
    record {
      inv = v;
      all_done = λ i b. tally_full completed h.task_manager i full (omega (arith, v.tasks.sized));
      none_given = λ j n.
          v.tasks.owned j n
          ∙ omega (
            arith,
            status_at-le-tally resolving h.task_manager j,
            tally_partition h.task_manager,
            full,
          );
    }

module _ (os : Kernel) {P : ClusterServerHandle → Type 0} (s : Stable P) where
  for_connections-Keeps :
      (ev : EpollEvent) (body : ℕ → Server os (Unit {0}))
      → ((conn_i : ℕ) (w : World ClusterServerHandle) (conn : Connection)
          → P w.handle
          → get_elem? w.handle.client_conns conn_i ≡ some conn
          → conn.socket_fd ≢ none
          → Leads (body conn_i) w (λ _ h. P h))
      → Keeps P (for_connections_of os ev body)
  unfolding for_connections_of
  for_connections-Keeps ev body k w v =
      for_range-Keeps P w.handle.max_clients 0 _
        (λ conn_i w' v'.
          index_lead (λ _. P) w'.handle.client_conns conn_i _ w'
            λ conn there. elim (Bool-cases (is_fd conn.socket_fd ev.fd)) [
              | inl e ↦ rw e (k conn_i w' conn v' there (is_fd-open conn.socket_fd ev.fd e))
              | inr e ↦ rw e v'
            ])
        w v

  pub handle_event-Keeps :
      (fuel : ℕ) (header : RequestHeader) (ev : EpollEvent)
      → Keeps P (handle_event os fuel header ev)
  unfolding handle_event
  handle_event-Keeps fuel header ev w v =
      let sends = when ev.epollout (for_connections_of os ev (send_tasks os fuel)) in
      let receives =
        when ev.epollin (for_connections_of os ev (λ conn_i. receive os conn_i header)) in
      let accepts =
        when (ev.fd == w.handle.accept_socket_fd) (accept_all os (suc w.handle.max_clients)) in
      let deaths = when (ev.epollhup || ev.epollerr) (for_connections_of os ev (hang_up os)) in
      let discovery =
        when (ev.fd == w.handle.discovery_socket_fd && ev.epollin)
          (answer_clients_discovery_datagram os fuel) in
      Keeps-bind P discovery (λ _. deaths >> (accepts >> (receives >> sends)))
        (when-Keeps P _ _ (answer_clients-Keeps os P fuel))
        (λ _.
          Keeps-bind P deaths (λ _. accepts >> (receives >> sends))
            (when-Keeps P _ _
              (for_connections-Keeps ev _ (λ i w' c v' _ _. hang_up-Keeps os s i w' v')))
            (λ _.
              Keeps-bind P accepts (λ _. receives >> sends)
                (when-Keeps P _ _ (accept_all-Keeps os s _))
                (λ _.
                  Keeps-bind P receives (λ _. sends)
                    (when-Keeps P _ _ (
                      for_connections-Keeps ev _
                        (λ i w' c v' _ _. receive-Keeps os s i header w' v')))
                    (λ _. when-Keeps P _ _ (
                      for_connections-Keeps ev _ (λ i w' c v' there opened.
                        send_tasks-Keeps os s fuel i w' v' there opened))))))
        w v

  handle_events-Keeps :
      (fuel : ℕ) (header : RequestHeader) (evs : List EpollEvent)
      → Keeps P (handle_events os fuel header evs)
  unfolding handle_events
  handle_events-Keeps fuel header [] w v = v
  handle_events-Keeps fuel header (ev ∷ evs) w v =
      Keeps-bind P (handle_event os fuel header ev) (λ _. handle_events os fuel header evs)
        (handle_event-Keeps fuel header ev) (λ _. handle_events-Keeps fuel header evs) w v

  turn :
      (b : Bool) (rounds fuel : ℕ) (header : RequestHeader) (w : World ClusterServerHandle)
      → ((w' : World ClusterServerHandle)
          → P w'.handle
          → Leads (server_eventloop os rounds fuel header) w' (λ _ h. P h × IsFinished h))
      → P w.handle
      → (b ≡ true → w.handle.num_completed ≡ w.handle.num_tasks)
      → Leads
          (if b then pure tt else server_eventloop os rounds fuel header)
          w
          (λ _ h. P h × IsFinished h)
  turn true rounds fuel header w k v e = (v, finished (s.inv v) (e refl))
  turn false rounds fuel header w k v e = k w v

  pub server_eventloop-Keeps :
      (rounds fuel : ℕ) (header : RequestHeader) (w : World ClusterServerHandle)
      → P w.handle
      → Leads (server_eventloop os rounds fuel header) w (λ _ h. P h × IsFinished h)
  unfolding server_eventloop
  server_eventloop-Keeps zero fuel header w v = tt
  server_eventloop-Keeps (suc rounds) fuel header w v =
      let R : Unit {0} → ClusterServerHandle → Type 0 = λ _ h. P h × IsFinished h in
      Leads-bind (λ _. P) R (or_exit (os.events w.trace (epoll_wait 16))) _ _
        (or_exit-Keeps P (os.events w.trace (epoll_wait 16))
          (record w { trace = epoll_wait 16 ∷ w.trace }) v)
        λ evs w' v'.
          Leads-bind (λ _. P) R (handle_events os fuel header evs) _ w'
            (handle_events-Keeps fuel header evs w' v')
            λ _ w'' v''.
              turn (w''.handle.num_completed == w''.handle.num_tasks) rounds fuel header w''
                (server_eventloop-Keeps rounds fuel header) v'' (λ e. (==_iff _ _).0 e)

module _ (os : Kernel) where
  -- From a handle with the invariant, whatever the event says and the kernel answers: where the body
  -- of the loop over the events ends normally, the handle has the invariant.
  pub handle_event-ServerInv :
      (fuel : ℕ) (header : RequestHeader) (ev : EpollEvent) (w : World ClusterServerHandle)
      → ServerInv w.handle
      → Leads (handle_event os fuel header ev) w (λ _ h. ServerInv h)
  handle_event-ServerInv fuel header ev w v =
      handle_event-Keeps os ServerInv-Stable fuel header ev w v

  -- From a handle with the invariant, whatever the kernel answers and however many turns it takes:
  -- where the loop ends normally, every task is COMPLETED, no cell of a connection holds a task, and
  -- the handle has the invariant.
  pub server_eventloop-IsFinished :
      (rounds fuel : ℕ) (header : RequestHeader) (w : World ClusterServerHandle)
      → ServerInv w.handle
      → Leads (server_eventloop os rounds fuel header) w (λ _. IsFinished)
  server_eventloop-IsFinished rounds fuel header w v =
      Leads-weaken _ (λ _. IsFinished) (server_eventloop os rounds fuel header) w (λ _ h p. p.1)
        (server_eventloop-Keeps os ServerInv-Stable rounds fuel header w v)
