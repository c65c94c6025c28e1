-- ===== src/Server/Tests.antt =====
-- The server at concrete inputs.
pub mod Script
pub mod Handles
use computing_cluster.Base.{
  inr, ◌↔◌, take, ℕ, zero, suc, ◌+◌, ◌*◌, ◌≤◌, ◌<◌, ◌≡◌, ◌≢◌, refl, sym, ap, ◌∙◌, subst, inl, Bool,
  true, false, List, [], ◌∷◌, ◌++◌, Option, none, some, arith, length, replicate, length-replicate,
}
use computing_cluster.System.Outcome.{Outcome, ok, exits, fault, hang, bug, Returns, ok-injective}
use computing_cluster.System.Action.{World}
use computing_cluster.System.Rules.{Leads}
use computing_cluster.Wire.{little, big}
use computing_cluster.Wire.RoundTrip.{be32toh-htobe32}
use mathlib.Core.List.{flatten}
use computing_cluster.Base.Each.{Each}
use computing_cluster.Server.Transfer.{grown}
use computing_cluster.Server.Transfer.Reassembly.{
  moved, receive_pieces, receive_pieces-header_bytes,
}
use computing_cluster.Base.Count.{count}
use computing_cluster.Server.Discovery.{is_request}
use computing_cluster.Server.Discovery.Request.{is_request_iff}
use computing_cluster.Config.{clients_discovery_datagram, clients_discovery_datagram_size, no_task}
use computing_cluster.Server.Invariant.{ServerInv, IsConnection, ServerInv-reopen}
use computing_cluster.Server.Tasks.{drop_resolving_tasks}
use computing_cluster.Server.Tasks.Give.{Gives, get_task_to_send_lem, get_task_to_send_refuses}
use computing_cluster.Server.Tasks.Collect.{
  Collects, push_return_value_lem, push_return_value-stranger, push_return_value-outside,
}
use computing_cluster.Server.Tasks.Release.{Releases, drop_resolving_tasks_lem}
use computing_cluster.Server.Connections.{delete_connection}
use computing_cluster.Server.Connections.Accept.{Accepted, full_table-exits}
use computing_cluster.Server.Connections.Accept.Room.{Welcomes, accept_lem}
use computing_cluster.Server.Connections.Delete.{closed, delete_connection_lem}
use computing_cluster.Server.Eventloop.Finish.{handle_event-ServerInv, server_eventloop-IsFinished}
use computing_cluster.Server.Eventloop.Sends.{send_tasks-ServerInv}
use computing_cluster.Server.Eventloop.Loss.{send_task-lost}
use computing_cluster.Server.Eventloop.Accepts.{accept_all-ne-hang}
use computing_cluster.Server.Setup.Fresh.{IsFreshTable-nil, IsFreshTable-cons}
use computing_cluster.Server.Types.{Connection, ClusterServerHandle}
use computing_cluster.Server.Connections.{
  start_connection_management_routine, update_connection_management,
  accept_incoming_connection_request, configure_connection, admit_connection, free_conn, fill_cell,
  pause_connection_management_routine,
}
use computing_cluster.Server.Discovery.{
  init_discovery_routine, start_discovery_routine, free_discovery_routine,
}
use computing_cluster.Server.Eventloop.{
  server_eventloop, handle_events, handle_event, for_connections_of, receive, handle_command,
  request_task, enable_write, store_result, accept_all, send_tasks, send_task, choose_task,
  handle_sent,
}
use computing_cluster.Server.Setup.{
  compute_task, check_arguments, init_cluster_server, init_connection_management_routine,
  allocate_connections, init_tasks_of_handle, stop_cluster_server,
  free_connection_management_routine, free_connections,
}
use computing_cluster.Server.Tasks.{
  take_task, list_task, find_task, place_task, free_cell, init_task_management_routine, init_tasks,
  push_return_value, get_task_to_send,
}
use computing_cluster.Server.Transfer.{
  read_data_on_connection, take_bytes, frame_result, parse_header, put_data_to_connection,
}
use computing_cluster.System.Action.{for_range}
use computing_cluster.Wire.{htobe32, be32toh, load32, store32, header_bytes}
use computing_cluster.Server.Eventloop.Finish.{IsFinished}
use computing_cluster.Server.Setup.Stages.{AllocatesInFull, HasTable, init_tasks-ServerInv}
use computing_cluster.Server.Setup.Establishes.{init_cluster_server-ServerInv}
use computing_cluster.Server.Setup.Run.{compute_task-IsFinished}
use computing_cluster.Server.Tests.Script.{
  script, blank, blank_header, blank_handle, small_handle, open_conn, open_handle, busy_conn,
  busy_handle, empty_handle, idle_conn, result_frame, pool_of, with_no_calls, event, results,
}
use computing_cluster.Server.Types.{not_resolved, completed}
use computing_cluster.Server.Ledger
use computing_cluster.Server.Ledger.{Reach, done}
use computing_cluster.Server.Ledger.View.{ledger}
use computing_cluster.Server.Ledger.Loop.{AllDone, handle_event-done}
use computing_cluster.Server.Tests.Handles.{
  allocates, small-HasTable, small-ServerInv, empty-ServerInv, open-IsConnection, open-ServerInv,
  give_task, has_room, some_left, busy-ServerInv, listed, not_listed, none_left, one_lt, le_five,
}
use computing_cluster.Server.Tasks.Collect.{value}
use computing_cluster.Server.Ledger.Operations.{gives, operate, Changes, operate-Changes}

-- The run returns, with the client's byte among the results.
run_returns :
    results (
      handle_events script 20 blank_header
        (event 4 true false ∷ event 9 true true ∷ event 9 true false ∷ [])
        (with_no_calls small_handle))
    ≡ 42 ∷ 0 ∷ []
unfolding take_task list_task find_task place_task free_cell check_arguments init_cluster_server
    init_discovery_routine init_connection_management_routine allocate_connections
    init_tasks_of_handle init_task_management_routine init_tasks start_connection_management_routine
    start_discovery_routine server_eventloop handle_events handle_event for_connections_of for_range
    receive read_data_on_connection take_bytes frame_result parse_header handle_command request_task
    enable_write update_connection_management store_result push_return_value accept_all
    accept_incoming_connection_request configure_connection admit_connection free_conn fill_cell
    pause_connection_management_routine send_tasks send_task choose_task get_task_to_send
    put_data_to_connection handle_sent htobe32 be32toh load32 store32 header_bytes
    stop_cluster_server free_discovery_routine free_connection_management_routine free_connections
run_returns = refl

-- The properties.
compute_task-IsFinished_example :
    Leads
      (compute_task script 3 20 blank blank_header 1 (some (7 ∷ [])) 1 (some (0 ∷ [])) 1)
      (with_no_calls blank_handle)
      (λ _. IsFinished)
compute_task-IsFinished_example =
    compute_task-IsFinished script 3 20 blank blank_header 1 (7 ∷ []) 1 (0 ∷ []) 1
      (with_no_calls blank_handle) allocates (omega arith) (omega arith) refl refl

-- The server after the client's result of the first task.
abbrev served_handle : ClusterServerHandle
served_handle = record busy_handle {
  client_conns = record busy_conn { task_list = replicate 16 no_task } ∷ [];
  pool = record (busy_handle.pool) {
    task_manager =
        record { task = 0; ret = 0; status = completed }
        ∷ record { task = 1; ret = 1; status = not_resolved }
        ∷ [];
    num_completed = 1;
  };
  user_rets = 42 ∷ 0 ∷ [];
}

collect_result :
    push_return_value busy_handle 0 (record { cmd = 3; task_id = 0 }) ≡ ok served_handle
unfolding push_return_value find_task free_cell
collect_result = refl

served-ServerInv : ServerInv served_handle
served-ServerInv =
    let (h, e, (_, inv)) =
      push_return_value_lem 0 busy_conn (record { cmd = 3; task_id = 0 }) busy-ServerInv refl
        (λ e. omega arith) listed in
    subst ServerInv (ok-injective (sym e ∙ collect_result)) inv

handle_event-done_example :
    Leads
      (handle_event script 20 blank_header (event 9 true true))
      (with_no_calls served_handle)
      (λ _ h. ledger h 0 ≡ done (42 ∷ []))
handle_event-done_example =
    handle_event-done script 20 blank_header (event 9 true true) (with_no_calls served_handle) 0
      (42 ∷ []) served-ServerInv refl

push_return_value_lem_example :
    Returns
      (λ h'. Collects busy_handle 0 busy_conn 0 h' × ServerInv h')
      (push_return_value busy_handle 0 (record { cmd = 3; task_id = 0 }))
push_return_value_lem_example =
    push_return_value_lem 0 busy_conn (record { cmd = 3; task_id = 0 }) busy-ServerInv refl
      (λ e. omega arith) listed

get_task_to_send_lem_example :
    Returns
      (λ r. Gives open_handle 0 open_conn r.0 r.1 × ServerInv r.1)
      (get_task_to_send open_handle 0)
get_task_to_send_lem_example =
    get_task_to_send_lem 0 open_conn open-ServerInv refl (λ e. cc) some_left has_room

operate-Changes_example :
    Returns
      (λ h'.
        Changes (ledger open_handle) open_conn (value open_handle open_conn) gives (ledger h')
        × ServerInv h')
      (operate open_handle 0 gives)
unfolding init_tasks
operate-Changes_example =
    operate-Changes 0 open_conn gives open-ServerInv refl ((0, refl), (λ e. cc), has_room)

drop_resolving_tasks_lem_example :
    Returns
      (λ h'. Releases busy_handle 0 busy_conn h' × ServerInv h')
      (drop_resolving_tasks busy_handle 0)
drop_resolving_tasks_lem_example = drop_resolving_tasks_lem 0 busy_conn busy-ServerInv refl

server_eventloop-IsFinished_example :
    Leads (server_eventloop script 3 20 blank_header) (with_no_calls small_handle) (λ _. IsFinished)
server_eventloop-IsFinished_example =
    server_eventloop-IsFinished script 3 20 blank_header (with_no_calls small_handle)
      small-ServerInv

handle_event-ServerInv_example :
    Leads
      (handle_event script 20 blank_header (event 9 true true))
      (with_no_calls open_handle)
      (λ _ h. ServerInv h)
handle_event-ServerInv_example =
    handle_event-ServerInv script 20 blank_header (event 9 true true) (with_no_calls open_handle)
      open-ServerInv

send_tasks-ServerInv_example :
    Leads (send_tasks script 20 0) (with_no_calls open_handle) (λ _ h. ServerInv h)
send_tasks-ServerInv_example =
    send_tasks-ServerInv script 20 0 (with_no_calls open_handle) {conn = open_conn} open-ServerInv
      refl (λ e. cc)

accept_all-ne-hang_example : accept_all script 2 (with_no_calls small_handle) ≢ hang
accept_all-ne-hang_example =
    accept_all-ne-hang script 2 (with_no_calls small_handle) small-ServerInv (omega arith)

get_task_to_send_refuses_example : get_task_to_send empty_handle 0 ≡ exits bug
get_task_to_send_refuses_example =
    get_task_to_send_refuses 0 idle_conn empty-ServerInv refl (inl none_left)

push_return_value-stranger_example :
    push_return_value open_handle 0 (record { cmd = 3; task_id = 1 }) ≡ exits bug
push_return_value-stranger_example =
    push_return_value-stranger 0 open_conn (record { cmd = 3; task_id = 1 }) open-ServerInv refl
      one_lt not_listed

push_return_value-outside_example :
    push_return_value open_handle 0 (record { cmd = 3; task_id = 5 }) ≡ fault
push_return_value-outside_example =
    push_return_value-outside 0 (record { cmd = 3; task_id = 5 }) open-ServerInv le_five

full_table-exits_example : Leads (admit_connection script 10) (with_no_calls open_handle) (λ _ _. ⊥)
full_table-exits_example =
    full_table-exits script 10 (with_no_calls open_handle) open-ServerInv refl

welcomes : Welcomes script 4 9
welcomes = record {
  options = λ o value before. (0, refl);
  watched = λ before. (0, refl);
  paused = λ before. (0, refl);
}

accept_lem_example :
    Returns
      (λ r. (r.0 ≡ true) × Accepted script small_handle r.0 r.1.handle)
      (accept_incoming_connection_request script (with_no_calls small_handle))
accept_lem_example =
    accept_lem script 9 (with_no_calls small_handle) small-ServerInv
      (inr (refl, omega arith, welcomes))

delete_connection_lem_example :
    Leads
      (delete_connection script 0)
      (with_no_calls open_handle)
      (λ _ h. (h ≡ closed open_handle 0 open_conn) × (open_conn.socket_fd ≢ none))
delete_connection_lem_example =
    delete_connection_lem script 0 open_conn (with_no_calls open_handle) refl

init_cluster_server-ServerInv_example :
    Leads (init_cluster_server script blank) (with_no_calls small_handle) (λ _ h. ServerInv h)
init_cluster_server-ServerInv_example =
    init_cluster_server-ServerInv script blank (with_no_calls small_handle) allocates
      small-HasTable.given

abbrev three_pieces : List (List ℕ)
three_pieces = (3 ∷ 0 ∷ []) ∷ (0 ∷ 0 ∷ []) ∷ (0 ∷ 42 ∷ []) ∷ []

pieces_of_frame :
    flatten three_pieces
    ≡ header_bytes little (record { cmd = 3; task_id = htobe32 little 0 }) ++ (42 ∷ [])
unfolding flatten header_bytes store32 htobe32 load32
pieces_of_frame = refl

pieces_not_empty : Each (λ _ p. 0 < length p) three_pieces
pieces_not_empty zero p e = ground arith
pieces_not_empty (suc zero) p e = ground arith
pieces_not_empty (suc (suc zero)) p e = ground arith
pieces_not_empty (suc (suc (suc i))) p e = cc

receive_pieces-header_bytes_example :
    receive_pieces script 0 three_pieces blank_header (with_no_calls open_handle)
    ≡ ok (
      record { cmd = 3; task_id = 0 },
      moved (with_no_calls open_handle) 0 (
          grown open_conn
            (header_bytes little (record { cmd = 3; task_id = htobe32 little 0 }) ++ (42 ∷ []))
            0),
    )
receive_pieces-header_bytes_example =
    receive_pieces-header_bytes script 0 open_conn blank_header (with_no_calls open_handle) little 3
      0 (42 ∷ []) three_pieces open-ServerInv refl refl (omega arith) (omega arith) refl
      pieces_of_frame pieces_not_empty

-- A connection that was lost while it was sending from cell 0.
abbrev lost_conn : Connection
lost_conn = record idle_conn { now_sending_task_i = 0; requested_tasks = 1 }

abbrev lost_handle : ClusterServerHandle
lost_handle = record small_handle { client_conns = lost_conn ∷ [] }

lost-ServerInv : ServerInv lost_handle
lost-ServerInv =
    let c = small-ServerInv.connections 0 idle_conn refl in
    ServerInv-reopen 0 idle_conn lost_conn 0 small-ServerInv refl refl
      (record { buffer = c.buffer; partial = c.partial; cells = c.cells; idle = c.idle }) refl

send_task-lost_example : send_task script 0 (with_no_calls lost_handle) ≡ fault
send_task-lost_example =
    send_task-lost script 0 lost_conn (with_no_calls lost_handle) lost-ServerInv refl refl
      (omega arith) (omega arith) (omega arith)

is_request_iff_example : (is_request clients_discovery_datagram ≡ true) ↔ (
    (length clients_discovery_datagram ≡ clients_discovery_datagram_size)
    × (take 30 clients_discovery_datagram ≡ take 30 clients_discovery_datagram))
is_request_iff_example = is_request_iff clients_discovery_datagram
