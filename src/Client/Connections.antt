-- ===== src/Client/Connections.antt =====
-- "Connection Management Routine" of cluster-api/cluster-client.c: how the client connects to its
-- server, and what epoll watches the connection for.
pub mod Keep
use computing_cluster.Base.{ℕ, zero, suc, ◌+◌, Bool, true, false, List, [], ◌∷◌, Option, none, some}
use computing_cluster.Config.{
  sizeof_header, tcp_keepalive_idle_time, tcp_keepalive_interval, tcp_keepalive_num_probes,
  tcp_no_send_acks_timeout,
}
use computing_cluster.System.Outcome.{failure}
use computing_cluster.System.Kernel.{
  Kernel, Answer, done, failed, econnrefused, Interest, so_keepalive, so_linger, tcp_keepidle,
  tcp_keepintvl, tcp_keepcnt, tcp_user_timeout, tcp_linger2, tcp_nodelay, tcp_cork, setsockopt,
  socket, stream, connect, peer, getaddrinfo, nanosleep, fcntl_setfd, close, epoll_add, epoll_mod,
  malloc,
}
use computing_cluster.System.Action.{
  pure, ◌>>=◌, ◌>>◌, exit, spin, get, put, syscall, syscall_input, or_exit, require, valid_fd,
}
use computing_cluster.Client.Types.{Connection, ClusterClientHandle}
use computing_cluster.Client.Tasks.{Client}

-- EPOLLHUP|EPOLLIN|(can_write ? EPOLLOUT : 0)
abbrev pub interest : (can_write : Bool) → Interest
interest can_write = record {
  epollin = true;
  epollout = can_write;
  epollhup = true;
  epollrdhup = false;
}

abbrev pub with_socket : ClusterClientHandle → (fd : ℕ) → ClusterClientHandle
with_socket h fd = record h { server_conn = record (h.server_conn) { socket_fd = fd } }

module _ (os : Kernel) where
  unfoldable pub init_connection_management_routine : Client (Unit {0})
  init_connection_management_routine = do
    h ← get
    r ← syscall_input os (malloc (h.task_size + sizeof_header))
    recv_buffer ← or_exit r
    put (record h {
      server_conn = record (h.server_conn) { recv_buffer = recv_buffer; bytes_recieved = 0 };
    })

  unfoldable pub free_connection_management_routine : Client (Unit {0})
  free_connection_management_routine = do
    h ← get
    require os (close h.server_conn.socket_fd)
    pure tt

  -- What follows a connect() to one of the addresses: `again` is the next turn of `while (1)`.
  unfoldable pub connect_answer : (fd : ℕ) → Client (Option ℕ) → Answer ℕ → Client (Option ℕ)
  connect_answer fd again (done n) = pure (some fd)
  connect_answer fd again (failed econnrefused) = do syscall os (nanosleep 1); again
  connect_answer fd again (failed _) = do syscall os (close fd); pure none

  -- The loop that waits until the server listens.
  unfoldable pub connect_to : (fuel fd addr : ℕ) → Client (Option ℕ)
  unfolding connect_answer
  connect_to zero fd addr = spin
  connect_to (suc fuel) fd addr =
      let again = connect_to fuel fd addr in
      do r ← syscall os (connect fd (peer addr)); connect_answer fd again r

  -- One address: the socket that was connected, if any. `others` is the rest of the loop.
  abbrev pub try_address : (fuel addr : ℕ) → Client (Option ℕ) → Answer ℕ → Client (Option ℕ)
  try_address fuel addr others (failed e) = others
  try_address fuel addr others (done fd) = do
    connected ← connect_to fuel fd addr
    elim connected [ none ↦ others | some fd' ↦ pure (some fd') ]

  -- The loop over the addresses.
  unfoldable pub acquire_socket : (fuel : ℕ) → (addrs : List ℕ) → Client (Option ℕ)
  unfolding connect_to
  acquire_socket fuel [] = pure none
  acquire_socket fuel (addr ∷ addrs) =
      let others = acquire_socket fuel addrs in
      do r ← syscall os (socket stream); try_address fuel addr others r

  -- "Connect to peer", for a server that was discovered, and for one whose name is given.
  unfoldable pub connect_local : Client (Unit {0})
  connect_local = do
    sock_fd ← require os (socket stream)
    h ← get
    require os (connect sock_fd (peer h.server_addr))
    put (with_socket h sock_fd)

  unfoldable pub connect_distant : (fuel : ℕ) → Client (Unit {0})
  unfolding acquire_socket
  connect_distant fuel = do
    r ← syscall_input os getaddrinfo
    addrs ← or_exit r
    acquired ← acquire_socket fuel addrs
    sock_fd ← valid_fd acquired failure
    h ← get
    put (with_socket h sock_fd)

  -- fcntl() and the socket options of the connection.
  unfoldable pub configure_connection : (fd : ℕ) → Client (Unit {0})
  configure_connection fd = do
    require os (fcntl_setfd fd)
    require os (setsockopt fd so_keepalive 1)
    require os (setsockopt fd tcp_keepidle tcp_keepalive_idle_time)
    require os (setsockopt fd tcp_keepintvl tcp_keepalive_interval)
    require os (setsockopt fd tcp_keepcnt tcp_keepalive_num_probes)
    require os (setsockopt fd tcp_user_timeout tcp_no_send_acks_timeout)
    require os (setsockopt fd so_linger 0)
    require os (setsockopt fd tcp_linger2 0)
    require os (setsockopt fd tcp_nodelay 0)
    require os (setsockopt fd tcp_cork 0)
    pure tt

  abbrev pub connect_to_peer : (fuel : ℕ) (local_discovery : Bool) → Client (Unit {0})
  connect_to_peer fuel true = connect_local
  connect_to_peer fuel false = connect_distant fuel

  unfoldable pub start_connection_management_routine : (fuel : ℕ) → Client (Unit {0})
  unfolding connect_local connect_distant configure_connection
  start_connection_management_routine fuel = do
    h ← get
    connect_to_peer fuel h.local_discovery
    h' ← get
    configure_connection h'.server_conn.socket_fd
    require os (epoll_add h'.server_conn.socket_fd (interest true))
    pure tt

  unfoldable pub update_connection_management : (can_write : Bool) → Client (Unit {0})
  update_connection_management can_write = do
    h ← get
    require os (epoll_mod h.server_conn.socket_fd (interest can_write))
    pure tt
