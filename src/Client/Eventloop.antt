-- ===== src/Client/Eventloop.antt =====
-- "Client Eventloop" of cluster-api/cluster-client.c.
pub mod Steps
pub mod Sends
pub mod Preserves
use computing_cluster.Base.{
  ℕ, zero, suc, ◌+◌, Bool, true, false, not, ◌&&◌, ◌||◌, List, [], ◌∷◌, Option, none, some, set,
  ◌==◌, if◌then◌else◌, dec64, get_elem?,
}
use computing_cluster.Config.{
  RequestHeader, no_task, sizeof_header, err_conn_broken, err_not_ready, cmd_request_for_data,
  cmd_result, cmd_task,
}
use computing_cluster.Wire.{htobe32}
use computing_cluster.System.Outcome.{bug_on, index}
use computing_cluster.System.Kernel.{Kernel, Trace, Answer, EpollEvent, epoll_wait}
use computing_cluster.System.Action.{
  World, pure, ◌>>=◌, ◌>>◌, spin, get, put, lift, when, syscall_events, or_exit, for_range,
}
use computing_cluster.Client.Types.{ThreadInfo, ClusterClientHandle}
use computing_cluster.Client.Tasks.{
  Client, with_thread, computation_wrapper, start_computation, mark_computation_as_ready,
}
use computing_cluster.Client.Transfer.{read_data_on_connection, put_data_to_connection}
use computing_cluster.Client.Connections.{update_connection_management}
use computing_cluster.Client.Discovery.{perform_discovery_send, catch_servers_discovery_datagram}

abbrev pub write_disabled : Bool
write_disabled = false

abbrev pub write_enabled : Bool
write_enabled = true

-- How a part of the body of the event loop ends: it goes on, it goes to skip_connection_management,
-- or the connection is lost and the function returns.
pub data Progress : Type 0 where
  on skip lost : Progress

-- What follows only if the part before has not left.
abbrev pub if_on : Client Progress → Client Progress → Client Progress
if_on m k = m >>= λ p. elim p [ on ↦ k | skip ↦ pure skip | lost ↦ pure lost ]

abbrev pub when_on : Bool → Client Progress → Client Progress
when_on true m = m
when_on false m = pure on

-- "Free thread entry": waiting_to_be_sent = 0 and empty = 1.
abbrev pub sent : ThreadInfo → ThreadInfo
sent t = record t { waiting_to_be_sent = false; empty = true }

-- What put_data_to_connection() left: `freed` follows a frame that was sent.
unfoldable pub handle_sent : RequestHeader → Client (Unit {0}) → Client Progress
handle_sent header freed =
    if header.cmd == err_conn_broken
    then pure lost
    else (if header.cmd == err_not_ready then pure skip else (do freed; pure on))

module _ (os : Kernel) where
  -- The switch on the command that read_data_on_connection() left.
  unfoldable pub handle_command : RequestHeader → Client Progress
  handle_command header =
      if header.cmd == cmd_task
      then (do start_computation os header.task_id sizeof_header; pure on)
      else (if header.cmd == err_conn_broken
          then pure lost
          else (do lift (bug_on (not (header.cmd == err_not_ready))); pure on))

  unfoldable pub receive : RequestHeader → Client Progress
  unfolding handle_command
  receive uninitialised = do
    header ← read_data_on_connection os uninitialised
    handle_command header

  -- "Handle computation finished events". The descriptor that is looked at is that of the first of
  -- the pending events, whichever event is handled.
  unfoldable pub mark_finished : (first ev : EpollEvent) → Client (Unit {0})
  mark_finished first ev = do
    h ← get
    for_range h.max_threads 0 λ computation_i. do
      now ← get
      info ← lift (index now.thread_manager computation_i)
      when (first.fd == info.event_fd && ev.epollin) (do
        mark_computation_as_ready os computation_i
        update_connection_management os write_enabled)

  -- One entry of the loop that sends results.
  unfoldable pub send_result : (stack : List ℕ) (computation_i : ℕ) → Client Progress
  unfolding handle_sent
  send_result stack computation_i = do
    h ← get
    info ← lift (index h.thread_manager computation_i)
    if info.waiting_to_be_sent
        then (do
          header ←
              put_data_to_connection os stack (some computation_i)
                (record { cmd = cmd_result; task_id = htobe32 h.host info.task_id })
          handle_sent header (put (with_thread h computation_i (sent info))))
        else pure on

  unfoldable pub send_results : (stack : List ℕ) (rounds computation_i : ℕ) → Client Progress
  unfolding send_result
  send_results stack zero computation_i = pure on
  send_results stack (suc rounds) computation_i =
      let rest = send_results stack rounds (computation_i + 1) in
      if_on (send_result stack computation_i) rest

  -- One request of the loop that sends requests.
  unfoldable pub send_request : (stack : List ℕ) → Client Progress
  unfolding handle_sent
  send_request stack = do
    h ← get
    header ←
        put_data_to_connection os stack none
          (record { cmd = cmd_request_for_data; task_id = htobe32 h.host no_task })
    handle_sent header (put (record h { initial_requests = dec64 h.initial_requests }))

  unfoldable pub send_requests : (stack : List ℕ) (fuel : ℕ) → Client Progress
  unfolding send_request
  send_requests stack zero = spin
  send_requests stack (suc fuel) =
      let again = send_requests stack fuel in
      do h ← get; if h.initial_requests == 0 then pure on else if_on (send_request stack) again

  -- "Handle event can send request to server".
  unfoldable pub send_all : (stack : List ℕ) → Client Progress
  unfolding send_results send_requests
  send_all stack = do
    h ← get
    if_on (send_results stack h.max_threads 0) (do
      h' ← get
      if_on (send_requests stack (suc h'.initial_requests))
          (do update_connection_management os write_disabled; pure on))

  -- The body of the loop over the pending events.
  unfoldable pub handle_event :
      (fuel : ℕ) (stack : List ℕ) → RequestHeader → (first ev : EpollEvent) → Client Progress
  unfolding receive mark_finished send_all
  handle_event fuel stack uninitialised first ev = do
    h ← get
    when (ev.fd == h.discovery_timer_fd) (perform_discovery_send os)
    when (ev.fd == h.discovery_socket_fd && ev.epollin) (catch_servers_discovery_datagram os fuel)
    h' ← get
    if_on (when_on (ev.fd == h'.server_conn.socket_fd && (ev.epollhup || ev.epollerr)) (pure lost))
        (if_on (when_on (ev.fd == h'.server_conn.socket_fd && ev.epollin) (receive uninitialised))
          (do
            mark_finished first ev
            when_on (ev.fd == h'.server_conn.socket_fd && ev.epollout) (send_all stack)))

  -- The workers run beside the loop. `schedule` says which of them end before an event is handled,
  -- as any function of the calls made so far; one that is not running is passed over.
  abbrev pub end_alive :
      (compute : List ℕ → List ℕ) → (thread_i : ℕ) → Option ThreadInfo → Client (Unit {0})
  end_alive compute thread_i none = pure tt
  end_alive compute thread_i (some info) = when info.alive (computation_wrapper os compute thread_i)

  unfoldable pub end_worker : (compute : List ℕ → List ℕ) → (thread_i : ℕ) → Client (Unit {0})
  end_worker compute thread_i = do
    h ← get
    end_alive compute thread_i (get_elem? h.thread_manager thread_i)

  unfoldable pub end_workers : (compute : List ℕ → List ℕ) → List ℕ → Client (Unit {0})
  unfolding end_worker
  end_workers compute [] = pure tt
  end_workers compute (i ∷ is) = do end_worker compute i; end_workers compute is

  module _ (schedule : Trace → List ℕ) (compute : List ℕ → List ℕ) where
    abbrev pub run_workers : Client (Unit {0})
    run_workers w = end_workers compute (schedule w.trace) w

    unfoldable pub handle_events :
        (fuel : ℕ) (stack : List ℕ)
        → RequestHeader
        → (first : EpollEvent) → List EpollEvent
        → Client Progress
    unfolding handle_event end_workers
    handle_events fuel stack uninitialised first [] = pure on
    handle_events fuel stack uninitialised first (ev ∷ evs) =
        let rest = handle_events fuel stack uninitialised first evs in
        do
          run_workers
          p ← handle_event fuel stack uninitialised first ev
          elim p [ on ↦ rest | skip ↦ rest | lost ↦ pure lost ]

    abbrev pub handle_pending :
        (fuel : ℕ) (stack : List ℕ) → RequestHeader → List EpollEvent → Client Progress
    handle_pending fuel stack uninitialised [] = pure on
    handle_pending fuel stack uninitialised (ev ∷ evs) =
        handle_events fuel stack uninitialised ev (ev ∷ evs)

    -- `rounds` bounds the turns of `while (1)`, `fuel` the loops of discovery inside a turn.
    unfoldable pub client_eventloop :
        (rounds fuel : ℕ) (stack : List ℕ) → RequestHeader → Client (Unit {0})
    unfolding handle_events
    client_eventloop zero fuel stack uninitialised = spin
    client_eventloop (suc rounds) fuel stack uninitialised =
        let again = client_eventloop rounds fuel stack uninitialised in
        do
          run_workers
          r ← syscall_events os (epoll_wait 16)
          evs ← or_exit r
          p ← handle_pending fuel stack uninitialised evs
          elim p [ on ↦ again | skip ↦ again | lost ↦ pure tt ]
