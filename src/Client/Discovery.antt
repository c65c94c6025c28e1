-- ===== src/Client/Discovery.antt =====
-- "Discovery Routine" of cluster-api/cluster-client.c: the client broadcasts its request once a
-- second, until a server's reply tells it where to connect.
pub mod Reply
use computing_cluster.Base.{
  ℕ, zero, suc, Bool, true, false, not, ◌&&◌, List, set, ◌==◌, if◌then◌else◌, length,
}
use computing_cluster.Config.{
  clients_discovery_datagram, clients_discovery_datagram_size, servers_discovery_datagram,
  servers_discovery_datagram_size, discovery_client_port, discovery_server_port,
  discovery_repeat_interval,
}
use computing_cluster.System.Outcome.{failure, bug_on}
use computing_cluster.System.Kernel.{
  Kernel, Answer, done, failed, eagain, ewouldblock, Interest, recvfrom, sendto, socket,
  datagram_nonblocking, setsockopt, so_broadcast, bind, broadcast, epoll_add, epoll_del, close,
  timerfd_create, timerfd_settime, read_timer, getnameinfo,
}
use computing_cluster.System.Action.{
  pure, ◌>>=◌, ◌>>◌, exit, spin, get, put, lift, when, syscall_input, require,
}
use computing_cluster.Server.Discovery.{c_string, same_bytes}
use computing_cluster.Client.Tasks.{Client}
use computing_cluster.Client.Connections.{start_connection_management_routine}

abbrev pub interest_in : Interest
interest_in = record { epollin = true; epollout = false; epollhup = false; epollrdhup = false }

-- bytes_read == …_SIZE && strcmp(buffer, …) == 0, after the last byte of the buffer was cleared.
unfoldable pub is_reply : List ℕ → Bool
unfolding c_string same_bytes
is_reply bytes =
    length bytes == servers_discovery_datagram_size
    && same_bytes (c_string (set bytes 26 0)) (c_string servers_discovery_datagram)

module _ (os : Kernel) where
  unfoldable pub open_discovery : Client (Unit {0})
  open_discovery = do
    sock_fd ← require os (socket datagram_nonblocking)
    require os (setsockopt sock_fd so_broadcast 1)
    require os (bind sock_fd (broadcast discovery_client_port))
    h ← get
    put (record h { discovery_socket_fd = sock_fd })
    timer_fd ← require os timerfd_create
    require os (timerfd_settime timer_fd 0 0)
    h' ← get
    put (record h' { discovery_timer_fd = timer_fd })

  unfoldable pub init_discovery_routine : Client (Unit {0})
  unfolding open_discovery
  init_discovery_routine = do h ← get; when h.local_discovery open_discovery

  unfoldable pub free_discovery_routine : Client (Unit {0})
  free_discovery_routine = do
    h ← get
    when h.local_discovery (do
      require os (close h.discovery_socket_fd)
      require os (close h.discovery_timer_fd)
      pure tt)

  unfoldable pub start_discovery_routine : Client (Unit {0})
  start_discovery_routine = do
    h ← get
    when h.local_discovery (do
      require os (epoll_add h.discovery_socket_fd interest_in)
      require os (epoll_add h.discovery_timer_fd interest_in)
      require os (timerfd_settime h.discovery_timer_fd discovery_repeat_interval 1)
      pure tt)

  unfoldable pub pause_discovery_routine : Client (Unit {0})
  pause_discovery_routine = do
    h ← get
    lift (bug_on (not h.local_discovery))
    require os (epoll_del h.discovery_socket_fd)
    require os (epoll_del h.discovery_timer_fd)
    require os (timerfd_settime h.discovery_timer_fd 0 0)
    pure tt

  unfoldable pub perform_discovery_send : Client (Unit {0})
  perform_discovery_send = do
    h ← get
    lift (bug_on (not h.local_discovery))
    n ←
        require os (
          sendto h.discovery_socket_fd clients_discovery_datagram (broadcast discovery_server_port))
    when (not (n == clients_discovery_datagram_size)) (exit failure)
    require os (read_timer h.discovery_timer_fd)
    pure tt

  -- The address that recvfrom() stored is taken for the server's.
  unfoldable pub save_address : Client (Unit {0})
  save_address w = ◌>>=◌ get (λ h. put (record h { server_addr = os.sender w.trace })) w

  unfoldable pub found_server : (fuel : ℕ) → Client (Unit {0})
  unfolding save_address pause_discovery_routine
  found_server fuel = do
    save_address
    h ← get
    require os (getnameinfo h.server_addr)
    start_connection_management_routine os fuel
    pause_discovery_routine

  -- What a round of the loop does with a datagram: `true` ends the function.
  unfoldable pub catch_datagram : (fuel : ℕ) → Answer (List ℕ) → Client Bool
  unfolding is_reply found_server
  catch_datagram fuel (failed eagain) = pure true
  catch_datagram fuel (failed ewouldblock) = pure true
  catch_datagram fuel (failed _) = exit failure
  catch_datagram fuel (done bytes) =
      if is_reply bytes then (do found_server fuel; pure true) else pure false

  unfoldable pub catch_datagrams : (fuel : ℕ) → Client (Unit {0})
  unfolding catch_datagram
  catch_datagrams zero = spin
  catch_datagrams (suc fuel) =
      let again = catch_datagrams fuel in
      do
        h ← get
        r ← syscall_input os (recvfrom h.discovery_socket_fd servers_discovery_datagram_size)
        finished ← catch_datagram fuel r
        if finished then pure tt else again

  unfoldable pub catch_servers_discovery_datagram : (fuel : ℕ) → Client (Unit {0})
  unfolding catch_datagrams
  catch_servers_discovery_datagram fuel = do
    h ← get
    lift (bug_on (not h.local_discovery))
    catch_datagrams fuel
