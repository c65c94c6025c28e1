-- ===== src/Client/Eventloop/Preserves.antt =====
-- Every event keeps the client's invariant, and the client stays within its buffers.
use computing_cluster.Base.{
  ℕ, zero, suc, ◌<◌, ◌≡◌, refl, ◌∙◌, Bool, true, false, not, ◌&&◌, ◌||◌, List, [], ◌∷◌, arith,
  length, ◌==◌, get_elem?_total,
}
use computing_cluster.Config.{
  RequestHeader, sizeof_header, cmd_task, err_conn_broken, err_not_ready,
}
use computing_cluster.System.Kernel.{Kernel, Trace, EpollEvent, epoll_wait}
use computing_cluster.System.Action.{World, pure, ◌>>◌, when}
use computing_cluster.System.Traced.{
  Brings, Holds, Brings-bind, Holds-bind, after, or_exit_brings, bug_on_brings, index_brings,
  when-Holds, for_range-Holds,
}
use computing_cluster.Client.Types.{ClusterClientHandle}
use computing_cluster.Client.Tasks.{Client, start_computation, mark_computation_as_ready}
use computing_cluster.Client.Transfer.{read_data_on_connection}
use computing_cluster.Client.Transfer.Keep.{ReadsAtMost, read_data-Holds}
use computing_cluster.Client.Connections.{update_connection_management}
use computing_cluster.Client.Connections.Keep.{
  update-Holds, perform_discovery_send-Holds, catch_servers-Holds,
}
use computing_cluster.Client.Discovery.{perform_discovery_send, catch_servers_discovery_datagram}
use computing_cluster.Client.Invariant.{pending, CountsEvents, ClientInv, ClientInv-calls}
use computing_cluster.Client.Workers.{start_computation-Holds, mark_lem, end_workers-Holds}
use computing_cluster.Client.Eventloop.{
  Progress, on, skip, lost, when_on, handle_command, receive, mark_finished, send_all, handle_event,
  end_workers, handle_events, handle_pending, client_eventloop, write_enabled,
}
use computing_cluster.Client.Eventloop.Steps.{if_on-Holds, when_on-Holds, if-Holds, M, forget}
use computing_cluster.Client.Eventloop.Sends.{send_all-Holds}

module _ (os : Kernel) (compute : List ℕ → List ℕ) (stack : List ℕ) (counts : CountsEvents os)
    (reads : ReadsAtMost os) (room : length stack ≡ 256) where
  abbrev P : World ClusterClientHandle → Type 0
  P = ClientInv compute

  command-Holds : (header : RequestHeader) → Holds P (handle_command os header)
  unfolding handle_command
  command-Holds header =
      if-Holds compute (header.cmd == cmd_task) _ _
        (Holds-bind P (start_computation os header.task_id sizeof_header) (λ _. pure on)
          (start_computation-Holds os compute header.task_id) (λ _ _ q. q))
        (if-Holds compute (header.cmd == err_conn_broken) (pure lost) _ (λ _ q. q)
          (λ w v. bug_on_brings (λ _. P) (not (header.cmd == err_not_ready)) (pure on) w (λ _. v)))

  receive-Holds : (header : RequestHeader) → Holds P (receive os header)
  unfolding receive
  receive-Holds header =
      Holds-bind P (read_data_on_connection os header) (handle_command os)
        (read_data-Holds os compute reads header) command-Holds

  mark_one :
      (m : ℕ) (b : Bool) (i : ℕ)
      → i < m
      → Holds (M compute m) (
          when b (do mark_computation_as_ready os i; update_connection_management os write_enabled))
  mark_one m true i lt w (v, same) =
      Brings-bind (λ _ w'. P w' × (w'.handle.max_threads ≡ w.handle.max_threads)) (λ _. M compute m)
        (mark_computation_as_ready os i) (λ _. update_connection_management os write_enabled) w
        (mark_lem os compute i w counts v (omega (arith, same)))
        (λ _ w' (v', same').
          update-Holds os compute (λ h. h.max_threads ≡ m) write_enabled w' (v', same' ∙ same))
  mark_one m false i lt w v = v

  mark_finished-Holds : (first ev : EpollEvent) → Holds P (mark_finished os first ev)
  unfolding mark_finished
  mark_finished-Holds first ev w v =
      forget compute w.handle.max_threads (mark_finished os first ev) w (
        for_range-Holds (M compute w.handle.max_threads) w.handle.max_threads 0 _
          (λ i lt w' (v', same').
            let (t, there) =
              get_elem?_total w'.handle.thread_manager i
                (omega (arith, v'.layout.entries, same')) in
            index_brings (λ _. M compute w.handle.max_threads) w'.handle.thread_manager i _ w' there
              (mark_one w.handle.max_threads (first.fd == t.event_fd && ev.epollin) i (omega arith)
                w' (v', same')))
          w (v, refl))

  -- With a kernel that counts events and stores no more bytes than it is asked for, with a send buffer
  -- of 256 bytes, and from a world with the invariant: whatever the event says, its handling makes no
  -- access outside the client's arrays and buffers, and where it ends normally, the invariant holds.
  pub handle_event-ClientInv :
      (fuel : ℕ) (header : RequestHeader) (first ev : EpollEvent) (w : World ClusterClientHandle)
      → ClientInv compute w
      → Brings (handle_event os fuel stack header first ev) w (λ _ w'. ClientInv compute w')
  unfolding handle_event
  handle_event-ClientInv fuel header first ev w v =
      Holds-bind P (when (ev.fd == w.handle.discovery_timer_fd) (perform_discovery_send os)) _
        (when-Holds P _ _ (perform_discovery_send-Holds os compute))
        (λ _.
          Holds-bind P
            (when (ev.fd == w.handle.discovery_socket_fd && ev.epollin)
              (catch_servers_discovery_datagram os fuel))
            _ (when-Holds P _ _ (catch_servers-Holds os compute fuel))
            (λ _ w' v'.
              if_on-Holds compute
                (when_on (ev.fd == w'.handle.server_conn.socket_fd && (ev.epollhup || ev.epollerr))
                  (pure lost))
                _ (when_on-Holds compute _ (pure lost) (λ _ q. q))
                (if_on-Holds compute
                  (when_on (ev.fd == w'.handle.server_conn.socket_fd && ev.epollin)
                    (receive os header))
                  _ (when_on-Holds compute _ (receive os header) (receive-Holds header))
                  (Holds-bind P (mark_finished os first ev) _ (mark_finished-Holds first ev) (λ _.
                    when_on-Holds compute _ (send_all os stack)
                      (send_all-Holds os compute stack room))))
                w' v'))
        w v

  events-Holds :
      (schedule : Trace → List ℕ) (fuel : ℕ) (header : RequestHeader) (first : EpollEvent)
      (evs : List EpollEvent)
      → Holds P (handle_events os schedule compute fuel stack header first evs)
  unfolding handle_events
  events-Holds schedule fuel header first [] w v = v
  events-Holds schedule fuel header first (ev ∷ evs) w v =
      Holds-bind P (end_workers os compute (schedule w.trace)) _
        (end_workers-Holds os compute (schedule w.trace))
        (λ _.
          Holds-bind P (handle_event os fuel stack header first ev) _
            (handle_event-ClientInv fuel header first ev)
            (λ p.
              on_or_skip p (handle_events os schedule compute fuel stack header first evs)
                (events-Holds schedule fuel header first evs)))
        w v
    where
      on_or_skip :
          (p : Progress) (k : Client Progress)
          → Holds (ClientInv compute) k
          → Holds (ClientInv compute) (elim p [ on ↦ k | skip ↦ k | lost ↦ pure lost ])
      on_or_skip on k h w v = h w v
      on_or_skip skip k h w v = h w v
      on_or_skip lost k h w v = v

  pending-Holds :
      (schedule : Trace → List ℕ) (fuel : ℕ) (header : RequestHeader) (evs : List EpollEvent)
      → Holds P (handle_pending os schedule compute fuel stack header evs)
  pending-Holds schedule fuel header [] w v = v
  pending-Holds schedule fuel header (ev ∷ evs) w v =
      events-Holds schedule fuel header ev (ev ∷ evs) w v

  next_turn :
      (p : Progress) (k : Client (Unit {0}))
      → Holds P k
      → Holds P (elim p [ on ↦ k | skip ↦ k | lost ↦ pure tt ])
  next_turn on k h w v = h w v
  next_turn skip k h w v = h w v
  next_turn lost k h w v = v

  -- With a kernel that counts events and stores no more bytes than it is asked for, with a send buffer
  -- of 256 bytes, from a world with the invariant, for every order in which workers end and for any
  -- number of turns: the event loop makes no access outside the client's arrays and buffers, and
  -- where it ends normally, the invariant holds.
  pub client_eventloop-ClientInv :
      (schedule : Trace → List ℕ) (rounds fuel : ℕ) (header : RequestHeader)
      (w : World ClusterClientHandle)
      → ClientInv compute w
      → Brings
          (client_eventloop os schedule compute rounds fuel stack header)
          w
          (λ _ w'. ClientInv compute w')
  unfolding client_eventloop pending
  client_eventloop-ClientInv schedule zero fuel header w v = tt
  client_eventloop-ClientInv schedule (suc rounds) fuel header w v =
      Holds-bind P (end_workers os compute (schedule w.trace)) _
        (end_workers-Holds os compute (schedule w.trace))
        (λ _ w' v'.
          or_exit_brings (λ _. P) (os.events w'.trace (epoll_wait 16)) _ _
            λ evs _.
              Holds-bind P (handle_pending os schedule compute fuel stack header evs) _
                (pending-Holds schedule fuel header evs)
                (λ p.
                  next_turn p (client_eventloop os schedule compute rounds fuel stack header)
                    (client_eventloop-ClientInv schedule rounds fuel header))
                (after w' (epoll_wait 16))
                (ClientInv-calls compute (epoll_wait 16 ∷ w'.trace) v' (λ fd. refl)))
        w v
