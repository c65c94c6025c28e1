-- ===== src/Server/Tests/Script.antt =====
-- A kernel that plays one client through a whole run: it connects, asks for a task, and sends back
-- the result. And handles to start from.
use computing_cluster.Base.{ℕ, zero, suc, Bool, true, false, List, [], ◌∷◌, none, length, replicate}
use computing_cluster.Config.{RequestHeader, no_task}
use computing_cluster.Wire.{little}
use computing_cluster.System.Outcome.{Outcome, ok}
use computing_cluster.System.Kernel.{
  Kernel, Trace, Call, Answer, done, failed, eagain, EpollEvent, socket, accept4, recv, send,
  malloc, epoll_wait, datagram_nonblocking, stream_nonblocking,
}
use computing_cluster.System.Action.{World}
use computing_cluster.Server.Types.{
  Connection, ClusterServerHandle, TaskPool, resolving, not_resolved,
}
use computing_cluster.Server.Connections.{fresh}
use computing_cluster.Server.Tasks.{init_tasks}
use computing_cluster.Server.Setup.{new_connection}

abbrev pub accepts : Trace → ℕ
accepts [] = 0
accepts (accept4 _ ∷ t) = suc (accepts t)
accepts (_ ∷ t) = accepts t

abbrev pub receives : Trace → ℕ
receives [] = 0
receives (recv _ _ ∷ t) = suc (receives t)
receives (_ ∷ t) = receives t

abbrev pub waits : Trace → ℕ
waits [] = 0
waits (epoll_wait _ ∷ t) = suc (waits t)
waits (_ ∷ t) = waits t

abbrev one_client : ℕ → Answer ℕ
one_client zero = done 9
one_client _ = failed eagain

-- A frame: the command, the number of the task in big-endian, one byte of result.
abbrev frames : ℕ → Answer (List ℕ)
frames zero = done (2 ∷ 0 ∷ 0 ∷ 0 ∷ 0 ∷ 0 ∷ [])
frames (suc zero) = done (3 ∷ 0 ∷ 0 ∷ 0 ∷ 0 ∷ 42 ∷ [])
frames _ = failed eagain

abbrev pub event : (fd : ℕ) (epollin epollout : Bool) → EpollEvent
event fd epollin epollout = record {
  fd = fd;
  epollin = epollin;
  epollout = epollout;
  epollhup = false;
  epollerr = false;
}

abbrev turns : ℕ → Answer (List EpollEvent)
turns zero = done (event 4 true false ∷ [])
turns (suc zero) = done (event 9 true true ∷ [])
turns (suc (suc zero)) = done (event 9 true false ∷ [])
turns _ = done []

abbrev status : Trace → Call → Answer ℕ
status t (socket datagram_nonblocking) = done 3
status t (socket stream_nonblocking) = done 4
status t (accept4 _) = one_client (accepts t)
status t (send _ bytes) = done (length bytes)
status t _ = done 0

abbrev input : Trace → Call → Answer (List ℕ)
input t (malloc n) = done (replicate n 0)
input t (recv _ _) = frames (receives t)
input t _ = done []

abbrev events : Trace → Call → Answer (List EpollEvent)
events t _ = turns (waits t)

abbrev pub script : Kernel
script = record { status = status; input = input; sender = λ t. 0; events = events }

abbrev pub blank : Connection
blank = record {
  socket_fd = none;
  recv_buffer = [];
  bytes_recieved = 0;
  now_sending_task_i = 0;
  requested_tasks = 0;
  task_list = [];
}

abbrev pub blank_header : RequestHeader
blank_header = record { cmd = 0; task_id = 0 }

abbrev pub blank_handle : ClusterServerHandle
blank_handle = record {
  host = little;
  epoll_fd = none;
  discovery_socket_fd = 0;
  accept_socket_fd = 0;
  client_conns = [];
  num_clients = 0;
  max_clients = 0;
  pool = record {
    task_manager = [];
    num_not_resolved = 0;
    num_completed = 0;
    min_not_resolved_task = 0;
    num_tasks = 0;
  };
  user_tasks = [];
  user_rets = [];
  task_size = 0;
  ret_size = 0;
}

-- The results of a run that returns.
abbrev pub results : {A : Type 0} → Outcome (A × World ClusterServerHandle) → List ℕ
results (ok (_, w)) = w.handle.user_rets
results _ = []

-- A server with two tasks of one byte and a table of one cell, before its event loop starts. What is
-- in the receive buffer is a result for task 0.
abbrev pub result_frame : List ℕ
result_frame = 3 ∷ 0 ∷ 0 ∷ 0 ∷ 0 ∷ 42 ∷ []

abbrev pub idle_conn : Connection
idle_conn = new_connection blank result_frame

abbrev pub pool_of : (num_tasks : ℕ) → TaskPool
pool_of num_tasks = record {
  task_manager = init_tasks num_tasks 0 1 1;
  num_not_resolved = num_tasks;
  num_completed = 0;
  min_not_resolved_task = 0;
  num_tasks = num_tasks;
}

abbrev pub small_handle : ClusterServerHandle
small_handle = record blank_handle {
  discovery_socket_fd = 3;
  accept_socket_fd = 4;
  client_conns = idle_conn ∷ [];
  num_clients = 0;
  max_clients = 1;
  pool = pool_of 2;
  user_tasks = 7 ∷ 8 ∷ [];
  user_rets = 0 ∷ 0 ∷ [];
  task_size = 1;
  ret_size = 1;
}

-- The same with its client connected, and with the first task given to it.
abbrev pub open_conn : Connection
open_conn = fresh idle_conn 9

abbrev pub open_handle : ClusterServerHandle
open_handle = record small_handle { client_conns = open_conn ∷ []; num_clients = 1 }

abbrev pub busy_conn : Connection
busy_conn = record open_conn { task_list = 0 ∷ replicate 15 no_task }

abbrev pub busy_handle : ClusterServerHandle
busy_handle = record open_handle {
  client_conns = busy_conn ∷ [];
  pool = record (pool_of 2) {
    task_manager =
        record { task = 0; ret = 0; status = resolving }
        ∷ record { task = 1; ret = 1; status = not_resolved }
        ∷ [];
    num_not_resolved = 1;
    min_not_resolved_task = 1;
  };
}

-- A server without tasks.
abbrev pub empty_handle : ClusterServerHandle
empty_handle = record small_handle { pool = pool_of 0; user_tasks = []; user_rets = [] }

abbrev pub with_no_calls : ClusterServerHandle → World ClusterServerHandle
with_no_calls h = record { handle = h; trace = [] }
