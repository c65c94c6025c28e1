-- ===== src/Server/Eventloop.antt =====
-- "Server Eventloop" of cluster-api/cluster-server.c.
pub mod Preserves
pub mod Sends
pub mod Accepts
pub mod Finish
pub mod Loss
use computing_cluster.Base.{
  ℕ, zero, suc, ◌+◌, Bool, true, false, not, ◌&&◌, ◌||◌, List, [], ◌∷◌, Option, set, ◌==◌,
  if◌then◌else◌, inc64, dec64,
}
use computing_cluster.Config.{
  RequestHeader, no_task, err_conn_broken, err_not_ready, cmd_request_for_data, cmd_result,
  cmd_task,
}
use computing_cluster.Wire.{htobe32}
use computing_cluster.System.Outcome.{bug, failure, success, bug_on, index}
use computing_cluster.System.Kernel.{Kernel, Answer, EpollEvent, epoll_wait}
use computing_cluster.System.Action.{
  pure, ◌>>=◌, ◌>>◌, exit, spin, get, put, lift, when, syscall_events, or_exit, for_range,
}
use computing_cluster.Server.Types.{Connection, ClusterServerHandle, is_fd}
use computing_cluster.Server.Tasks.{get_task_to_send, push_return_value, drop_resolving_tasks}
use computing_cluster.Server.Connections.{
  Server, update_connection_management, accept_incoming_connection_request, delete_connection,
}
use computing_cluster.Server.Transfer.{read_data_on_connection, put_data_to_connection}
use computing_cluster.Server.Discovery.{answer_clients_discovery_datagram}

abbrev pub write_disabled : Bool
write_disabled = false

abbrev pub write_enabled : Bool
write_enabled = true

-- requested_tasks += 1
abbrev pub request_more : ClusterServerHandle → (conn_i : ℕ) → Connection → ClusterServerHandle
request_more h conn_i conn = record h {
  client_conns =
      set h.client_conns conn_i (record conn { requested_tasks = inc64 conn.requested_tasks });
}

-- `task_list_i` becomes the task that the connection is sending.
abbrev pub now_sending :
    ClusterServerHandle → (conn_i : ℕ) → Connection → (task_list_i : ℕ) → ClusterServerHandle
now_sending h conn_i conn task_list_i = record h {
  client_conns = set h.client_conns conn_i (record conn { now_sending_task_i = task_list_i });
}

-- now_sending_task_i = -1 and requested_tasks -= 1.
abbrev pub task_sent : ClusterServerHandle → (conn_i : ℕ) → Connection → ClusterServerHandle
task_sent h conn_i conn = record h {
  client_conns =
      set h.client_conns conn_i (record conn {
        now_sending_task_i = no_task;
        requested_tasks = dec64 conn.requested_tasks;
      });
}

module _ (os : Kernel) where
  -- drop_resolving_tasks(handle, conn_i); delete_connection(handle, conn_i);
  unfoldable pub drop_connection : (conn_i : ℕ) → Server os (Unit {0})
  drop_connection conn_i = do
    h ← get
    h' ← lift (drop_resolving_tasks h conn_i)
    put h'
    delete_connection os conn_i

  -- "Manage connection deaths", for one connection with the event's descriptor.
  unfoldable pub hang_up : (conn_i : ℕ) → Server os (Unit {0})
  hang_up conn_i = do drop_connection conn_i; h ← get; when (h.num_clients == 0) (exit success)

  unfoldable pub request_task : (conn_i : ℕ) → Server os (Unit {0})
  request_task conn_i = do
    h ← get
    conn ← lift (index h.client_conns conn_i)
    put (request_more h conn_i conn)

  -- "Allow write when CMD_TASK can be sent".
  unfoldable pub enable_write : (conn_i : ℕ) → Server os (Unit {0})
  enable_write conn_i = do
    h ← get
    when (not (h.num_not_resolved == 0)) (update_connection_management os conn_i write_enabled)

  unfoldable pub store_result : (conn_i : ℕ) → RequestHeader → Server os (Unit {0})
  store_result conn_i header = do h ← get; h' ← lift (push_return_value h conn_i header); put h'

  -- The switch on the command that read_data_on_connection() left.
  unfoldable pub handle_command : (conn_i : ℕ) → RequestHeader → Server os (Unit {0})
  handle_command conn_i header =
      if header.cmd == cmd_request_for_data
      then (do request_task conn_i; enable_write conn_i)
      else (if header.cmd == cmd_result
          then (do store_result conn_i header; request_task conn_i; enable_write conn_i)
          else (if header.cmd == err_conn_broken
              then drop_connection conn_i
              else lift (bug_on (not (header.cmd == err_not_ready)))))

  -- "Manage recieves", for one connection with the event's descriptor.
  unfoldable pub receive : (conn_i : ℕ) → RequestHeader → Server os (Unit {0})
  receive conn_i uninitialised = do
    header ← read_data_on_connection os conn_i uninitialised
    handle_command conn_i header

  -- The task to send is chosen, unless one is being sent already.
  unfoldable pub choose_task : (conn_i : ℕ) → Server os (Unit {0})
  choose_task conn_i = do
    h ← get
    conn ← lift (index h.client_conns conn_i)
    when (conn.now_sending_task_i == no_task) (do
      (task_list_i, h') ← lift (get_task_to_send h conn_i)
      conn' ← lift (index h'.client_conns conn_i)
      put (now_sending h' conn_i conn' task_list_i))

  -- The switch on the command that put_data_to_connection() left.
  unfoldable pub handle_sent : (conn_i : ℕ) → RequestHeader → Server os (Unit {0})
  handle_sent conn_i header =
      if header.cmd == cmd_task
      then (do
        h ← get
        conn ← lift (index h.client_conns conn_i)
        put (task_sent h conn_i conn)
        update_connection_management os conn_i write_disabled)
      else (if header.cmd == err_conn_broken
          then drop_connection conn_i
          else lift (bug_on (not (header.cmd == err_not_ready))))

  -- The body of the `while` loop: one attempt to send one task.
  unfoldable pub send_task : (conn_i : ℕ) → Server os (Unit {0})
  send_task conn_i = do
    choose_task conn_i
    h ← get
    conn ← lift (index h.client_conns conn_i)
    task ← lift (index conn.task_list conn.now_sending_task_i)
    header ←
        put_data_to_connection os conn_i conn.now_sending_task_i
          (record { cmd = cmd_task; task_id = htobe32 h.host task })
    handle_sent conn_i header

  -- "Send all requested tasks of one connection". Every way through the body ends in `continue` of
  -- this loop, so the test is made again also after the connection was lost.
  unfoldable pub send_tasks : (fuel conn_i : ℕ) → Server os (Unit {0})
  send_tasks zero conn_i = spin
  send_tasks (suc fuel) conn_i =
      let again = send_tasks fuel conn_i in
      do
        h ← get
        conn ← lift (index h.client_conns conn_i)
        if conn.requested_tasks == 0 then pure tt else (do send_task conn_i; again)

  -- while (accept_incoming_connection_request(handle) == 0);
  unfoldable pub accept_all : (fuel : ℕ) → Server os (Unit {0})
  accept_all zero = spin
  accept_all (suc fuel) =
      let again = accept_all fuel in
      do accepted ← accept_incoming_connection_request os; if accepted then again else pure tt

  -- A loop over the table that does something for the connections with the event's descriptor.
  unfoldable pub for_connections_of : EpollEvent → (ℕ → Server os (Unit {0})) → Server os (Unit {0})
  for_connections_of ev body = do
    h ← get
    for_range h.max_clients 0 λ conn_i. do
      now ← get
      conn ← lift (index now.client_conns conn_i)
      when (is_fd conn.socket_fd ev.fd) (body conn_i)

  -- The body of the loop over the pending events.
  unfoldable pub handle_event : (fuel : ℕ) → RequestHeader → EpollEvent → Server os (Unit {0})
  handle_event fuel uninitialised ev = do
    h ← get
    when (ev.fd == h.discovery_socket_fd && ev.epollin) (answer_clients_discovery_datagram os fuel)
    when (ev.epollhup || ev.epollerr) (for_connections_of ev hang_up)
    when (ev.fd == h.accept_socket_fd) (accept_all (suc h.max_clients))
    when ev.epollin (for_connections_of ev (λ conn_i. receive conn_i uninitialised))
    when ev.epollout (for_connections_of ev (send_tasks fuel))

  unfoldable pub handle_events : (fuel : ℕ) → RequestHeader → List EpollEvent → Server os (Unit {0})
  handle_events fuel uninitialised [] = pure tt
  handle_events fuel uninitialised (ev ∷ evs) = do
    handle_event fuel uninitialised ev
    handle_events fuel uninitialised evs

  -- `rounds` bounds the turns of `while (1)`, `fuel` those of the loops inside a turn.
  unfoldable pub server_eventloop : (rounds fuel : ℕ) → RequestHeader → Server os (Unit {0})
  server_eventloop zero fuel uninitialised = spin
  server_eventloop (suc rounds) fuel uninitialised =
      let again = server_eventloop rounds fuel uninitialised in
      do
        r ← syscall_events os (epoll_wait 16)
        evs ← or_exit r
        handle_events fuel uninitialised evs
        h ← get
        if h.num_completed == h.num_tasks then pure tt else again
