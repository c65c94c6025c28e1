-- ===== src/Client/Setup/Run.antt =====
-- The whole run of the client, from init_cluster_client() to client_compute().
use computing_cluster.Base.{ℕ, ◌≡◌, ◌≢◌, refl, Bool, not, List, [], ◌∷◌, some, ◌==◌, length}
use computing_cluster.Config.{RequestHeader, discovery_repeat_interval}
use computing_cluster.System.Outcome.{Outcome, ok, exits, fault, hang}
use computing_cluster.System.Kernel.{
  Kernel, Trace, close, epoll_add, epoll_create1, pthread_create, pthread_join, timerfd_settime,
}
use computing_cluster.System.Action.{World, ◌>>=◌, ◌>>◌, get, when, require}
use computing_cluster.System.Traced.{
  Safely, Brings, Holds, Brings-bind, Holds-bind, call_brings, call_then, bug_on_brings, when-Holds,
  after,
}
use computing_cluster.Server.Setup.Stages.{AllocatesInFull}
use computing_cluster.Client.Types.{ThreadInfo, ClusterClientHandle}
use computing_cluster.Client.Tasks.{
  init_task_management_routine, watch_events, start_task_management_routine, close_events,
  free_task_management_routine,
}
use computing_cluster.Client.Transfer.Keep.{ReadsAtMost}
use computing_cluster.Client.Connections.{
  init_connection_management_routine, start_connection_management_routine,
  free_connection_management_routine,
}
use computing_cluster.Client.Connections.Keep.{Silent-then, start_connection-Holds}
use computing_cluster.Client.Discovery.{
  init_discovery_routine, start_discovery_routine, free_discovery_routine, interest_in,
}
use computing_cluster.Client.Eventloop.{client_eventloop}
use computing_cluster.Client.Eventloop.Preserves.{client_eventloop-ClientInv}
use computing_cluster.Client.Invariant.{
  pending, CountsEvents, ClientInv, ClientInv-calls, Phase-keep,
}
use computing_cluster.Client.Setup.{
  with_arguments, init_cluster_client, stop_cluster_client, client_compute,
}
use computing_cluster.Client.Setup.Threads.{OpensApart}
use computing_cluster.Client.Setup.Asked.{IsAsked, IsStarting, IsConnectable, Quiet}
use computing_cluster.Client.Setup.Establishes.{
  init_discovery-Holds, init_connection-brings, init_task_management-brings,
}

module _ (os : Kernel) (compute : List ℕ → List ℕ) where
  abbrev P : World ClusterClientHandle → Type 0
  P = ClientInv compute

  watch-Holds : (ts : List ThreadInfo) → Holds P (watch_events os ts)
  unfolding watch_events pending
  watch-Holds [] w v = v
  watch-Holds (t ∷ ts) w v =
      Silent-then os compute (epoll_add t.event_fd interest_in) (watch_events os ts) (λ _ _. refl)
        (watch-Holds ts) w v

  start_tasks-Holds : Holds P (start_task_management_routine os)
  unfolding start_task_management_routine
  start_tasks-Holds w v = watch-Holds w.handle.thread_manager w v

  start_discovery-Holds : Holds P (start_discovery_routine os)
  unfolding start_discovery_routine pending
  start_discovery-Holds w v =
      when-Holds P w.handle.local_discovery _
        (Silent-then os compute (epoll_add w.handle.discovery_socket_fd interest_in) _ (λ _ _. refl)
          (Silent-then os compute (epoll_add w.handle.discovery_timer_fd interest_in) _
            (λ _ _. refl)
            (Silent-then os compute
              (timerfd_settime w.handle.discovery_timer_fd discovery_repeat_interval 1) _
              (λ _ _. refl) (λ _ q. q))))
        w v

  -- What follows the creation of the thread of the event loop.
  started-Holds :
      (fuel : ℕ)
      → Holds P (do
        require os pthread_create
        start_task_management_routine os
        start_discovery_routine os
        h' ← get
        when (not h'.local_discovery) (start_connection_management_routine os fuel))
  unfolding pending
  started-Holds fuel =
      Silent-then os compute pthread_create _ (λ _ _. refl)
        (Holds-bind P (start_task_management_routine os) _ start_tasks-Holds λ _.
          Holds-bind P (start_discovery_routine os) _ start_discovery-Holds λ _ w v.
            when-Holds P (not w.handle.local_discovery) _ (start_connection-Holds os compute fuel) w
              v)

  epoll-ClientInv :
      (fd : ℕ) (w : World ClusterClientHandle)
      → P w
      → P (record w { handle = record (w.handle) { epoll_fd = fd } })
  epoll-ClientInv fd w v = record {
    fills = v.fills;
    send_room = v.send_room;
    layout = record {
      line = v.layout.line;
      entries = v.layout.entries;
      task_room = v.layout.task_room;
      ret_room = v.layout.ret_room;
      places = λ k t e.
          let p = v.layout.places k t e in record { data_at = p.data_at; ret_at = p.ret_at };
      distinct = v.layout.distinct;
    };
    conn = record {
      buffer = v.conn.buffer;
      partial = v.conn.partial;
      frame_small = v.conn.frame_small;
    };
    phases = λ k t e. Phase-keep compute (v.phases k t e) refl refl refl;
  }

  -- With a kernel whose malloc() gives blocks of the size that is asked for and which opens different
  -- event descriptors, and from a handle that fits the arguments, with no event descriptor written
  -- to: init_cluster_client() makes no access outside its arrays and buffers and divides by no zero,
  -- and where it ends normally, the client's invariant holds.
  pub init_cluster_client-ClientInv :
      (fuel : ℕ) (w : World ClusterClientHandle)
      → AllocatesInFull os
      → OpensApart os
      → IsAsked compute w.handle
      → Quiet w.trace
      → Brings (init_cluster_client os fuel) w (λ _ w'. ClientInv compute w')
  unfolding init_cluster_client pending
  init_cluster_client-ClientInv fuel w mem apart asked quiet =
      let R : Unit {0} → World ClusterClientHandle → Type 0 = λ _. ClientInv compute in
      Brings-bind (λ _. IsStarting compute) R (init_discovery_routine os) _ w
        (init_discovery-Holds os compute w (record { asked = asked; quiet = quiet }))
        λ _ w1 v1.
          Brings-bind (λ _. IsConnectable compute) R (init_connection_management_routine os) _ w1
            (init_connection-brings os compute w1 mem v1)
            λ _ w2 v2.
              Brings-bind R R (init_task_management_routine os) _ w2
                (init_task_management-brings os compute w2 mem apart v2)
                λ _ w3 v3. call_brings R os epoll_create1 _ w3 λ fd _. started-Holds fuel _ (
                  epoll-ClientInv fd (after w3 epoll_create1)
                    (ClientInv-calls compute (epoll_create1 ∷ w3.trace) v3 (λ _. refl)))

-- Statements of which nothing is known but that they stay within bounds.
abbrev Anything : World ClusterClientHandle → Type 0
Anything w = Unit {0}

module _ (os : Kernel) where
  close_events-Holds : (ts : List ThreadInfo) → Holds Anything (close_events os ts)
  unfolding close_events
  close_events-Holds [] w v = tt
  close_events-Holds (t ∷ ts) w v =
      call_then Anything (λ _. Anything) os (close t.event_fd) _ (λ _ _. tt) (close_events-Holds ts)
        w v

  free_discovery-Holds : Holds Anything (free_discovery_routine os)
  unfolding free_discovery_routine
  free_discovery-Holds w v =
      when-Holds Anything w.handle.local_discovery _
        (call_then Anything (λ _. Anything) os (close w.handle.discovery_socket_fd) _ (λ _ _. tt)
          (call_then Anything (λ _. Anything) os (close w.handle.discovery_timer_fd) _ (λ _ _. tt)
            (λ _ _. tt)))
        w v

  free_connection-Holds : Holds Anything (free_connection_management_routine os)
  unfolding free_connection_management_routine
  free_connection-Holds w v =
      call_then Anything (λ _. Anything) os (close w.handle.server_conn.socket_fd) _ (λ _ _. tt)
        (λ _ _. tt) w v

  free_tasks-Holds : Holds Anything (free_task_management_routine os)
  unfolding free_task_management_routine
  free_tasks-Holds w v = close_events-Holds w.handle.thread_manager w v

  stop-Holds : Holds Anything (stop_cluster_client os)
  unfolding stop_cluster_client
  stop-Holds =
      call_then Anything (λ _. Anything) os pthread_join _ (λ _ _. tt)
        λ w _.
          call_brings (λ _. Anything) os (close w.handle.epoll_fd) _ w
            λ _ _.
              Holds-bind Anything (free_discovery_routine os) _ free_discovery-Holds
                (λ _.
                  Holds-bind Anything (free_connection_management_routine os) _
                    free_connection-Holds (λ _. free_tasks-Holds))
                _ tt

ne-fault : {A : Type 0} (Q : A → Type 0) (r : Outcome A) → Safely Q r → r ≢ fault
ne-fault Q (ok a) h e = cc
ne-fault Q (exits s) h e = cc
ne-fault Q fault h e = h
ne-fault Q hang h e = cc

-- With a kernel whose malloc() gives blocks of the size that is asked for, which opens different event
-- descriptors, counts events and stores no more bytes than it is asked for, with a send buffer of 256
-- bytes, from a handle that fits the arguments, and with no event descriptor written to: whatever the
-- server sends, in whatever order the workers end and for any number of turns, client_compute() makes
-- no access outside its arrays and buffers and divides by no zero.
pub client_compute-ne-fault :
    (os : Kernel) (compute : List ℕ → List ℕ) (stack : List ℕ) (schedule : Trace → List ℕ)
    (rounds fuel : ℕ) (header : RequestHeader) (num_threads task_size ret_size : ℕ)
    (local_discovery : Bool) (w : World ClusterClientHandle)
    → AllocatesInFull os
    → OpensApart os
    → CountsEvents os
    → ReadsAtMost os
    → length stack ≡ 256
    → IsAsked compute (with_arguments w.handle num_threads task_size ret_size local_discovery)
    → Quiet w.trace
    → client_compute os schedule rounds fuel stack header num_threads task_size ret_size
        (some compute)
        local_discovery
        w
      ≢ fault
unfolding client_compute
client_compute-ne-fault os compute stack schedule rounds fuel header num_threads task_size ret_size
      local_discovery w mem apart counts reads room asked quiet =
    let R : Unit {0} → World ClusterClientHandle → Type 0 = λ _. Anything in
    ne-fault _ _ (
      bug_on_brings R (num_threads == 0) _ w λ _. bug_on_brings R (task_size == 0) _ w λ _.
        bug_on_brings R (ret_size == 0) _ w λ _.
          Brings-bind (λ _. ClientInv compute) R (init_cluster_client os fuel) _ _
            (init_cluster_client-ClientInv os compute fuel _ mem apart asked quiet)
            λ _ w1 v1.
              Brings-bind (λ _. ClientInv compute) R
                (client_eventloop os schedule compute rounds fuel stack header) _ w1
                (client_eventloop-ClientInv os compute stack counts reads room schedule rounds fuel
                  header w1 v1)
                λ _ w2 _. stop-Holds os w2 tt)
