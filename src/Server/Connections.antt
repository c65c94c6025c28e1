-- ===== src/Server/Connections.antt =====
-- "Connection Management" of cluster-api/cluster-server.c: the accept socket, the table of
-- connections, and what epoll watches for each of them.
pub mod Accept
pub mod Delete
use computing_cluster.Base.{
  ℕ, zero, suc, Bool, true, false, List, [], ◌∷◌, Option, none, some, set, ◌==◌, if◌then◌else◌,
  inc64, dec64,
}
use mathlib.Core.Option
use computing_cluster.Config.{
  no_task, tcp_keepalive_idle_time, tcp_keepalive_interval, tcp_keepalive_num_probes,
  tcp_no_send_acks_timeout,
}
use computing_cluster.System.Outcome.{bug, failure, index}
use computing_cluster.System.Kernel.{
  Kernel, Answer, done, failed, eagain, Interest, so_keepalive, so_linger, tcp_keepidle,
  tcp_keepintvl, tcp_keepcnt, tcp_user_timeout, tcp_linger2, tcp_nodelay, tcp_cork, setsockopt,
  accept4, close, epoll_add, epoll_mod, epoll_del,
}
use computing_cluster.System.Action.{
  Action, pure, ◌>>=◌, ◌>>◌, exit, get, put, lift, when, syscall, require, valid_fd,
}
use computing_cluster.Server.Types.{Connection, ClusterServerHandle, is_free}

-- EPOLLHUP|EPOLLIN|(can_write ? EPOLLOUT : 0)
abbrev pub interest : (can_write : Bool) → Interest
interest can_write = record {
  epollin = true;
  epollout = can_write;
  epollhup = true;
  epollrdhup = false;
}

-- What a connection is watched for when it is new.
abbrev pub interest_new : Interest
interest_new = record { epollin = true; epollout = true; epollhup = true; epollrdhup = true }

abbrev pub interest_in : Interest
interest_in = record { epollin = true; epollout = false; epollhup = false; epollrdhup = false }

-- The first cell of the table with socket_fd == -1.
unfoldable pub free_conn : List Connection → Option ℕ
free_conn [] = none
free_conn (c ∷ cs) = if is_free c.socket_fd then some 0 else Option.map suc (free_conn cs)

-- num_clients += 1, where a free cell was found.
abbrev pub count_client : Option ℕ → (num_clients : ℕ) → ℕ
count_client none n = n
count_client (some conn_i) n = inc64 n

-- The fields that accept_incoming_connection_request() sets.
abbrev pub fresh : Connection → (fd : ℕ) → Connection
fresh conn fd = record conn {
  socket_fd = some fd;
  bytes_recieved = 0;
  now_sending_task_i = no_task;
  requested_tasks = 0;
}

module _ (os : Kernel) where
  abbrev pub Server : Type 0 → Type 0
  Server A = Action ClusterServerHandle A

  unfoldable pub start_connection_management_routine : Server (Unit {0})
  start_connection_management_routine = do
    h ← get
    require os (epoll_add h.accept_socket_fd interest_in)
    pure tt

  unfoldable pub pause_connection_management_routine : Server (Unit {0})
  pause_connection_management_routine = do
    h ← get
    require os (epoll_del h.accept_socket_fd)
    pure tt

  unfoldable pub update_connection_management :
      (client_index : ℕ) (can_write : Bool) → Server (Unit {0})
  update_connection_management client_index can_write = do
    h ← get
    conn ← lift (index h.client_conns client_index)
    fd ← valid_fd conn.socket_fd failure
    require os (epoll_mod fd (interest can_write))
    pure tt

  -- The socket options of a new connection.
  unfoldable pub configure_connection : (fd : ℕ) → Server (Unit {0})
  configure_connection fd = do
    require os (setsockopt fd so_keepalive 1)
    require os (setsockopt fd tcp_keepidle tcp_keepalive_idle_time)
    require os (setsockopt fd tcp_keepintvl tcp_keepalive_interval)
    require os (setsockopt fd tcp_keepcnt tcp_keepalive_num_probes)
    require os (setsockopt fd tcp_user_timeout tcp_no_send_acks_timeout)
    require os (setsockopt fd so_linger 0)
    require os (setsockopt fd tcp_linger2 0)
    require os (setsockopt fd tcp_nodelay 0)
    require os (setsockopt fd tcp_cork 0)
    pure tt

  -- The new connection takes the cell that was found.
  unfoldable pub fill_cell :
      ClusterServerHandle → (num_clients' fd : ℕ) → (cell : Option ℕ) → Server (Unit {0})
  fill_cell h num_clients' fd none = exit bug
  fill_cell h num_clients' fd (some conn_i) = do
    conn ← lift (index h.client_conns conn_i)
    put (record h {
      num_clients = num_clients';
      client_conns = set h.client_conns conn_i (fresh conn fd);
    })
    require os (epoll_add fd interest_new)
    pure tt

  -- The search for a free cell, and what depends on its result. The counter is compared with the
  -- size of the table before the case of no free cell is looked at.
  unfoldable pub admit_connection : (fd : ℕ) → Server (Unit {0})
  admit_connection fd = do
    h ← get
    let num_clients' = count_client (free_conn h.client_conns) h.num_clients
    put (record h { num_clients = num_clients' })
    when (num_clients' == h.max_clients) pause_connection_management_routine
    fill_cell h num_clients' fd (free_conn h.client_conns)

  -- `true` is the result 0, `false` is -1.
  abbrev pub accept_answer : Answer ℕ → Server Bool
  accept_answer (failed eagain) = pure false
  accept_answer (failed _) = exit failure
  accept_answer (done fd) = do configure_connection fd; admit_connection fd; pure true

  unfoldable pub accept_incoming_connection_request : Server Bool
  accept_incoming_connection_request = do
    h ← get
    r ← syscall os (accept4 h.accept_socket_fd)
    accept_answer r

  -- The rest of delete_connection(): the socket leaves epoll and is closed, and its cell is free.
  unfoldable pub close_connection : ClusterServerHandle → (conn_i : ℕ) → Server (Unit {0})
  close_connection h conn_i = do
    conn ← lift (index h.client_conns conn_i)
    fd ← valid_fd conn.socket_fd failure
    require os (epoll_del fd)
    require os (close fd)
    put (record h {
      client_conns = set h.client_conns conn_i (record conn { socket_fd = none });
      num_clients = dec64 h.num_clients;
    })

  unfoldable pub delete_connection : (conn_i : ℕ) → Server (Unit {0})
  delete_connection conn_i = do
    h ← get
    when (h.num_clients == h.max_clients) start_connection_management_routine
    close_connection h conn_i
