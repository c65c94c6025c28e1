-- ===== src/Client/Connections/Keep.antt =====
-- Connecting and discovering change the connection's socket and the server's address, and nothing
-- that the invariant speaks of.
use computing_cluster.Base.{
  ℕ, zero, suc, ◌≡◌, refl, Bool, true, false, not, List, [], ◌∷◌, Option, none, some, ◌==◌,
  if◌then◌else◌,
}
use computing_cluster.Config.{
  clients_discovery_datagram, clients_discovery_datagram_size, servers_discovery_datagram_size,
  discovery_server_port,
}
use computing_cluster.System.Outcome.{failure}
use computing_cluster.System.Kernel.{
  Kernel, Trace, Call, Answer, done, failed, eagain, ewouldblock, econnrefused, connect, peer,
  socket, stream, nanosleep, close, getaddrinfo, recvfrom, sendto, broadcast, epoll_add, epoll_mod,
  read_timer, getnameinfo,
}
use computing_cluster.System.Action.{
  World, pure, ◌>>=◌, ◌>>◌, get, put, when, require, valid_fd, exit,
}
use computing_cluster.System.Traced.{
  Holds, Holds-bind, after, call_brings, call_then, or_exit_brings, bug_on_brings, when-Holds,
}
use computing_cluster.Client.Types.{ClusterClientHandle}
use computing_cluster.Client.Tasks.{Client}
use computing_cluster.Client.Connections.{
  interest, with_socket, connect_answer, connect_to, try_address, acquire_socket, connect_local,
  connect_distant, configure_connection, connect_to_peer, start_connection_management_routine,
  update_connection_management,
}
use computing_cluster.Client.Discovery.{
  is_reply, pause_discovery_routine, perform_discovery_send, save_address, found_server,
  catch_datagram, catch_datagrams, catch_servers_discovery_datagram,
}
use computing_cluster.Client.Invariant.{pending, ClientInv, ClientInv-conn, ClientInv-calls}

module _ (os : Kernel) (compute : List ℕ → List ℕ) where
  abbrev P : World ClusterClientHandle → Type 0
  P = ClientInv compute

  -- A call that is no event descriptor's.
  abbrev Silent : Call → Type 0
  Silent c = (fd : ℕ) (trace : Trace) → pending fd (c ∷ trace) ≡ pending fd trace

  Silent-call : (c : Call) → Silent c → (w : World ClusterClientHandle) → P w → P (after w c)
  Silent-call c s w v = ClientInv-calls compute (c ∷ w.trace) v (λ fd. s fd w.trace)

  pub Silent-then :
      {B : Type 0} (c : Call) (k : Client B) → Silent c → Holds P k → Holds P (require os c >> k)
  Silent-then c k s h w v = call_then P (λ _. P) os c k (Silent-call c s) h w v

  -- The handle is left alone, whatever else is known of it.
  pub update-Holds :
      (Q : ClusterClientHandle → Type 0) (can_write : Bool)
      → Holds (λ w. P w × Q w.handle) (update_connection_management os can_write)
  unfolding update_connection_management pending
  update-Holds Q can_write w (v, q) =
      let c = epoll_mod w.handle.server_conn.socket_fd (interest can_write) in
      call_brings (λ _ w. P w × Q w.handle) os c (λ _. pure tt) w
        (λ _ _. (Silent-call c (λ _ _. refl) w v, q))

  configure-Holds : (fd : ℕ) → Holds P (configure_connection os fd)
  unfolding configure_connection pending
  configure-Holds fd =
      let go = Silent-then in
      go _ _ (λ _ _. refl)
        (go _ _ (λ _ _. refl)
          (go _ _ (λ _ _. refl)
            (go _ _ (λ _ _. refl)
              (go _ _ (λ _ _. refl)
                (go _ _ (λ _ _. refl)
                  (go _ _ (λ _ _. refl)
                    (go _ _ (λ _ _. refl)
                      (go _ _ (λ _ _. refl) (go _ _ (λ _ _. refl) (λ _ q. q))))))))))

  with_socket-ClientInv :
      (fd : ℕ) (w : World ClusterClientHandle)
      → P w
      → P (record w { handle = with_socket w.handle fd })
  with_socket-ClientInv fd w v =
      ClientInv-conn compute (record (w.handle.server_conn) { socket_fd = fd }) w.handle.server_addr
        w.handle.initial_requests v v.conn.buffer v.conn.partial

  connect_answer-Holds :
      (fd : ℕ) (again : Client (Option ℕ)) (r : Answer ℕ)
      → Holds P again
      → Holds P (connect_answer os fd again r)
  unfolding connect_answer pending
  connect_answer-Holds fd again (done n) k w v = v
  connect_answer-Holds fd again (failed econnrefused) k w v =
      k _ (Silent-call (nanosleep 1) (λ _ _. refl) w v)
  connect_answer-Holds fd again (failed e) k w v = Silent-call (close fd) (λ _ _. refl) w v

  connect_to-Holds : (fuel fd addr : ℕ) → Holds P (connect_to os fuel fd addr)
  unfolding connect_to pending
  connect_to-Holds zero fd addr w v = tt
  connect_to-Holds (suc fuel) fd addr w v =
      connect_answer-Holds fd (connect_to os fuel fd addr)
        (os.status w.trace (connect fd (peer addr))) (connect_to-Holds fuel fd addr) _
        (Silent-call (connect fd (peer addr)) (λ _ _. refl) w v)

  after_connect :
      (connected : Option ℕ) (others : Client (Option ℕ))
      → Holds P others
      → Holds P (elim connected [ none ↦ others | some fd' ↦ pure (some fd') ])
  after_connect none others k w v = k w v
  after_connect (some fd) others k w v = v

  try_address-Holds :
      (fuel addr : ℕ) (others : Client (Option ℕ)) (r : Answer ℕ)
      → Holds P others
      → Holds P (try_address os fuel addr others r)
  try_address-Holds fuel addr others (failed e) k w v = k w v
  try_address-Holds fuel addr others (done fd) k w v =
      Holds-bind P (connect_to os fuel fd addr)
        (λ connected. elim connected [ none ↦ others | some fd' ↦ pure (some fd') ])
        (connect_to-Holds fuel fd addr) (λ connected. after_connect connected others k) w v

  acquire_socket-Holds : (fuel : ℕ) (addrs : List ℕ) → Holds P (acquire_socket os fuel addrs)
  unfolding acquire_socket pending
  acquire_socket-Holds fuel [] w v = v
  acquire_socket-Holds fuel (addr ∷ addrs) w v =
      try_address-Holds fuel addr (acquire_socket os fuel addrs) (os.status w.trace (socket stream))
        (acquire_socket-Holds fuel addrs) _ (Silent-call (socket stream) (λ _ _. refl) w v)

  take_socket-Holds :
      (acquired : Option ℕ)
      → Holds P (do sock_fd ← valid_fd acquired failure; h ← get; put (with_socket h sock_fd))
  take_socket-Holds none w v = tt
  take_socket-Holds (some fd) w v = with_socket-ClientInv fd w v

  connect_to_peer-Holds : (fuel : ℕ) (b : Bool) → Holds P (connect_to_peer os fuel b)
  unfolding connect_local connect_distant pending
  connect_to_peer-Holds fuel true w v =
      call_brings (λ _. P) os (socket stream) _ w
        λ fd _.
          call_brings (λ _. P) os (connect fd (peer w.handle.server_addr)) _ _
            λ _ _. with_socket-ClientInv fd _ (
              Silent-call (connect fd (peer w.handle.server_addr)) (λ _ _. refl) _
                (Silent-call (socket stream) (λ _ _. refl) w v))
  connect_to_peer-Holds fuel false w v =
      or_exit_brings (λ _. P) (os.input w.trace getaddrinfo) _ _
        λ addrs _.
          Holds-bind P (acquire_socket os fuel addrs) _ (acquire_socket-Holds fuel addrs)
            take_socket-Holds _ (Silent-call getaddrinfo (λ _ _. refl) w v)

  finish_connect-Holds : Holds P (do
    h' ← get
    configure_connection os h'.server_conn.socket_fd
    require os (epoll_add h'.server_conn.socket_fd (interest true))
    pure tt)
  unfolding pending
  finish_connect-Holds w v =
      Holds-bind P (configure_connection os w.handle.server_conn.socket_fd) _
        (configure-Holds w.handle.server_conn.socket_fd)
        (λ _.
          Silent-then (epoll_add w.handle.server_conn.socket_fd (interest true)) (pure tt)
            (λ _ _. refl) (λ _ q. q))
        w v

  pub start_connection-Holds : (fuel : ℕ) → Holds P (start_connection_management_routine os fuel)
  unfolding start_connection_management_routine
  start_connection-Holds fuel w v =
      Holds-bind P (connect_to_peer os fuel w.handle.local_discovery) _
        (connect_to_peer-Holds fuel w.handle.local_discovery) (λ _. finish_connect-Holds) w v

  pause-Holds : Holds P (pause_discovery_routine os)
  unfolding pause_discovery_routine pending
  pause-Holds w v =
      bug_on_brings (λ _. P) (not w.handle.local_discovery) _ w
        λ _.
          Silent-then _ _ (λ _ _. refl)
            (Silent-then _ _ (λ _ _. refl) (Silent-then _ _ (λ _ _. refl) (λ _ q. q))) w v

  pub perform_discovery_send-Holds : Holds P (perform_discovery_send os)
  unfolding perform_discovery_send pending
  perform_discovery_send-Holds w v =
      let c =
        sendto w.handle.discovery_socket_fd clients_discovery_datagram
          (broadcast discovery_server_port) in
      bug_on_brings (λ _. P) (not w.handle.local_discovery) _ w
        λ _.
          call_brings (λ _. P) os c _ w
            λ n _.
              Holds-bind P (when (not (n == clients_discovery_datagram_size)) (exit failure)) _
                (when-Holds P (not (n == clients_discovery_datagram_size)) (exit failure)
                  (λ _ _. tt))
                (λ _.
                  Silent-then (read_timer w.handle.discovery_timer_fd) (pure tt) (λ _ _. refl)
                    (λ _ q. q))
                _ (Silent-call c (λ _ _. refl) w v)

  found-Holds : (fuel : ℕ) → Holds P (found_server os fuel)
  unfolding found_server save_address pending
  found-Holds fuel w v =
      Silent-then (getnameinfo (os.sender w.trace)) _ (λ _ _. refl)
        (Holds-bind P (start_connection_management_routine os fuel)
          (λ _. pause_discovery_routine os) (start_connection-Holds fuel) (λ _. pause-Holds))
        (record w { handle = record (w.handle) { server_addr = os.sender w.trace } })
        (ClientInv-conn compute w.handle.server_conn (os.sender w.trace) w.handle.initial_requests v
          v.conn.buffer v.conn.partial)

  found_if-Holds :
      (fuel : ℕ) (b : Bool)
      → Holds P (if b then (do found_server os fuel; pure true) else pure false)
  found_if-Holds fuel true w v =
      Holds-bind P (found_server os fuel) (λ _. pure true) (found-Holds fuel) (λ _ _ q. q) w v
  found_if-Holds fuel false w v = v

  catch_datagram-Holds : (fuel : ℕ) (r : Answer (List ℕ)) → Holds P (catch_datagram os fuel r)
  unfolding catch_datagram
  catch_datagram-Holds fuel (failed eagain) w v = v
  catch_datagram-Holds fuel (failed ewouldblock) w v = v
  catch_datagram-Holds fuel (failed e) w v = tt
  catch_datagram-Holds fuel (done bytes) w v = found_if-Holds fuel (is_reply bytes) w v

  again-Holds :
      (finished : Bool) (fuel : ℕ)
      → Holds P (catch_datagrams os fuel)
      → Holds P (if finished then pure tt else catch_datagrams os fuel)
  again-Holds true fuel k w v = v
  again-Holds false fuel k w v = k w v

  catch_datagrams-Holds : (fuel : ℕ) → Holds P (catch_datagrams os fuel)
  unfolding catch_datagrams pending
  catch_datagrams-Holds zero w v = tt
  catch_datagrams-Holds (suc fuel) w v =
      let c = recvfrom w.handle.discovery_socket_fd servers_discovery_datagram_size in
      Holds-bind P (catch_datagram os fuel (os.input w.trace c))
        (λ finished. if finished then pure tt else catch_datagrams os fuel)
        (catch_datagram-Holds fuel (os.input w.trace c))
        (λ finished. again-Holds finished fuel (catch_datagrams-Holds fuel)) _
        (Silent-call c (λ _ _. refl) w v)

  pub catch_servers-Holds : (fuel : ℕ) → Holds P (catch_servers_discovery_datagram os fuel)
  unfolding catch_servers_discovery_datagram
  catch_servers-Holds fuel w v =
      bug_on_brings (λ _. P) (not w.handle.local_discovery) _ w λ _. catch_datagrams-Holds fuel w v
