-- ===== src/Client/Setup/Establishes.antt =====
-- The init functions of the client establish its invariant.
use computing_cluster.Base.{
  ℕ, ◌+◌, ◌*◌, ◌<◌, ◌≡◌, refl, sym, ap, ◌∙◌, subst, List, ◌∷◌, arith, length, get_elem?-lt,
}
use computing_cluster.Base.Each.{Each}
use computing_cluster.Config.{sizeof_header, discovery_client_port}
use computing_cluster.System.Kernel.{
  Kernel, Trace, Call, malloc, fopen, fscanf, fclose, get_nprocs, socket, datagram_nonblocking,
  setsockopt, so_broadcast, bind, broadcast, timerfd_create, timerfd_settime,
}
use computing_cluster.System.Action.{World, ◌>>◌, require}
use computing_cluster.System.Traced.{
  Brings, Holds, Brings-bind, after, call_brings, call_then, or_exit_brings, when-Holds,
}
use computing_cluster.Server.Setup.Stages.{AllocatesInFull}
use computing_cluster.Client.Types.{ThreadInfo, ClusterClientHandle}
use computing_cluster.Client.Tasks.{
  Client, add64, mul64, init_threads, cache_line_size, init_task_management_routine,
}
use computing_cluster.Client.Connections.{init_connection_management_routine}
use computing_cluster.Client.Discovery.{open_discovery, init_discovery_routine}
use computing_cluster.Client.Invariant.{pending, free, ClientInv}
use computing_cluster.Client.Setup.Threads.{
  OpensApart, IsNew, IsNew-distinct, Made, init_threads_lem,
}
use computing_cluster.Client.Setup.Asked.{
  Quiet, IsStarting, IsConnectable, mul64-eq, place-eq, Quiet-opened,
}

module _ (os : Kernel) (compute : List ℕ → List ℕ) where
  -- A call that writes to no event descriptor keeps them quiet.
  IsStarting-call :
      (c : Call) (w : World ClusterClientHandle)
      → ((fd : ℕ) (trace : Trace) → pending fd (c ∷ trace) ≡ pending fd trace)
      → IsStarting compute w
      → IsStarting compute (after w c)
  IsStarting-call c w silent v = record {
    asked = v.asked;
    quiet = λ fd. silent fd w.trace ∙ v.quiet fd;
  }

  IsStarting-then :
      {B : Type 0} (c : Call) (k : Client B)
      → ((fd : ℕ) (trace : Trace) → pending fd (c ∷ trace) ≡ pending fd trace)
      → Holds (IsStarting compute) k
      → Holds (IsStarting compute) (require os c >> k)
  IsStarting-then c k silent h w v =
      call_then (IsStarting compute) (λ _. IsStarting compute) os c k
        (λ w v. IsStarting-call c w silent v) h w v

  -- The descriptors of discovery are not looked at.
  rediscovered :
      (w : World ClusterClientHandle) (socket_fd timer_fd : ℕ)
      → IsStarting compute w
      → IsStarting compute (record w {
        handle = record (w.handle) {
          discovery_socket_fd = socket_fd;
          discovery_timer_fd = timer_fd;
        };
      })
  rediscovered w socket_fd timer_fd v = record {
    asked = record {
      fills = v.asked.fills;
      send_room = v.asked.send_room;
      frame_small = v.asked.frame_small;
      some_threads = v.asked.some_threads;
      tasks_small = v.asked.tasks_small;
      rets_small = v.asked.rets_small;
      cpus = v.asked.cpus;
    };
    quiet = v.quiet;
  }

  open_discovery-Holds : Holds (IsStarting compute) (open_discovery os)
  unfolding open_discovery pending
  open_discovery-Holds w v =
      call_brings (λ _. IsStarting compute) os (socket datagram_nonblocking) _ w
        λ sock_fd _.
          IsStarting-then (setsockopt sock_fd so_broadcast 1) _ (λ _ _. refl)
            (IsStarting-then (bind sock_fd (broadcast discovery_client_port)) _ (λ _ _. refl)
              (λ w1 v1.
                call_brings (λ _. IsStarting compute) os timerfd_create _ _
                  λ timer_fd _.
                    IsStarting-then (timerfd_settime timer_fd 0 0) _ (λ _ _. refl)
                      (λ w2 v2. rediscovered w2 w2.handle.discovery_socket_fd timer_fd v2) _
                      (IsStarting-call timerfd_create _ (λ _ _. refl)
                        (rediscovered w1 sock_fd w1.handle.discovery_timer_fd v1))))
            _ (IsStarting-call (socket datagram_nonblocking) w (λ _ _. refl) v)

  pub init_discovery-Holds : Holds (IsStarting compute) (init_discovery_routine os)
  unfolding init_discovery_routine
  init_discovery-Holds w v =
      when-Holds (IsStarting compute) w.handle.local_discovery (open_discovery os)
        open_discovery-Holds w v

  -- The receive buffer is there, and nothing has arrived.
  pub init_connection-brings :
      (w : World ClusterClientHandle)
      → AllocatesInFull os
      → IsStarting compute w
      → Brings (init_connection_management_routine os) w (λ _. IsConnectable compute)
  unfolding init_connection_management_routine pending
  init_connection-brings w mem v =
      or_exit_brings (λ _. IsConnectable compute)
        (os.input w.trace (malloc (w.handle.task_size + sizeof_header))) _ _
        λ block e. record {
          starting = record {
            asked = record {
              fills = v.asked.fills;
              send_room = v.asked.send_room;
              frame_small = v.asked.frame_small;
              some_threads = v.asked.some_threads;
              tasks_small = v.asked.tasks_small;
              rets_small = v.asked.rets_small;
              cpus = v.asked.cpus;
            };
            quiet = v.quiet;
          };
          conn = record {
            buffer = omega (arith, mem w.trace (w.handle.task_size + sizeof_header) block e);
            partial = omega arith;
            frame_small = v.asked.frame_small;
          };
        }

  -- The handle and the event descriptors are as before.
  abbrev Unnoticed : World ClusterClientHandle → World ClusterClientHandle → Type 0
  Unnoticed w w' = (w'.handle ≡ w.handle) × ((fd : ℕ) → pending fd w'.trace ≡ pending fd w.trace)

  cache_line-brings :
      (w : World ClusterClientHandle) → Brings (cache_line_size os) w (λ _. Unnoticed w)
  unfolding cache_line_size pending
  cache_line-brings w =
      call_brings (λ _. Unnoticed w) os fopen _ w
        λ _ _.
          call_brings (λ _. Unnoticed w) os fscanf _ _
            λ _ _. call_brings (λ _. Unnoticed w) os fclose _ _ λ _ _. (refl, λ fd. refl)

  -- What init_task_management_routine() leaves: the buffers, the entries, and then two fields more.
  abbrev with_buffers : ClusterClientHandle → (tasks rets : List ℕ) → ClusterClientHandle
  with_buffers h tasks rets = record h {
    initial_requests = h.max_threads;
    task_buffer = tasks;
    ret_buffer = rets;
  }

  abbrev with_entries :
      ClusterClientHandle → List ThreadInfo → (line cpus : ℕ) → ClusterClientHandle
  with_entries h ts line cpus = record h {
    thread_manager = ts;
    cache_line_size = line;
    max_cpu = cpus;
  }

  made-ClientInv :
      (w : World ClusterClientHandle) (tasks rets : List ℕ) (ts : List ThreadInfo) (line cpus : ℕ)
      (before after_them : Trace)
      → OpensApart os
      → IsConnectable compute w
      → length tasks ≡ w.handle.max_threads * (w.handle.task_size + w.handle.cache_line_size)
      → length rets ≡ w.handle.max_threads * (w.handle.ret_size + w.handle.cache_line_size)
      → length ts ≡ w.handle.max_threads
      → Each (IsNew os (with_buffers w.handle tasks rets) 0 before) ts
      → Quiet after_them
      → ClientInv compute (record {
        handle = with_entries (with_buffers w.handle tasks rets) ts line cpus;
        trace = after_them;
      })
  made-ClientInv w tasks rets ts line cpus before after_them apart v task_len ret_len len new
        quiet =
      let a = v.starting.asked in
      let h = w.handle in
      record {
        fills = a.fills;
        send_room = a.send_room;
        layout = record {
          line = h.cache_line_size;
          entries = len;
          task_room = task_len;
          ret_room = ret_len;
          places = λ k t e.
              let lt : k < h.max_threads = omega (arith, get_elem?-lt ts k e, len) in
              record {
                data_at =
                    (new k t e).data_at
                    ∙ place-eq h.max_threads h.task_size h.cache_line_size a.some_threads
                        a.tasks_small k lt;
                ret_at =
                    (new k t e).ret_at
                    ∙ place-eq h.max_threads h.ret_size h.cache_line_size a.some_threads
                        a.rets_small k lt;
              };
          distinct =
              λ i j s t es et same. IsNew-distinct os i j s t apart (new i s es) (new j t et) same;
        };
        conn = record {
          buffer = v.conn.buffer;
          partial = v.conn.partial;
          frame_small = v.conn.frame_small;
        };
        phases = λ k t e. let n = new k t e in free n.is_empty n.unsent n.idle (quiet t.event_fd);
      }

  pub init_task_management-brings :
      (w : World ClusterClientHandle)
      → AllocatesInFull os
      → OpensApart os
      → IsConnectable compute w
      → Brings (init_task_management_routine os) w (λ _. ClientInv compute)
  unfolding init_task_management_routine pending
  init_task_management-brings w mem apart v =
      let R : Unit {0} → World ClusterClientHandle → Type 0 = λ _. ClientInv compute in
      let h = w.handle in
      let a = v.starting.asked in
      call_brings R os (malloc (h.max_threads * 184)) _ w λ _ _.
        or_exit_brings R
          (os.input _ (malloc (mul64 h.max_threads (add64 h.task_size h.cache_line_size)))) _ _
          λ tasks e1.
            or_exit_brings R
              (os.input _ (malloc (mul64 h.max_threads (add64 h.ret_size h.cache_line_size)))) _ _
              λ rets e2.
                let w3 : World ClusterClientHandle = record {
                  handle = with_buffers h tasks rets;
                  trace =
                      malloc (mul64 h.max_threads (add64 h.ret_size h.cache_line_size))
                      ∷ malloc (mul64 h.max_threads (add64 h.task_size h.cache_line_size))
                      ∷ malloc (h.max_threads * 184)
                      ∷ w.trace;
                } in
                Brings-bind (Made os w3 h.max_threads 0) R (init_threads os h.max_threads 0) _ w3
                  (init_threads_lem os h.max_threads 0 w3 a.cpus)
                  λ ts w4 made.
                    Brings-bind (λ _. Unnoticed w4) R (cache_line_size os) _ w4
                      (cache_line-brings w4)
                      λ line w5 (same, silent). call_brings R os get_nprocs _ w5 λ cpus _.
                        subst
                          (λ h'. ClientInv compute (record {
                            handle = with_entries h' ts line cpus;
                            trace = get_nprocs ∷ w5.trace;
                          }))
                          (sym (same ∙ made.handle))
                          (made-ClientInv w tasks rets ts line cpus w3.trace (get_nprocs ∷ w5.trace)
                            apart v
                            (mem _ _ tasks e1
                              ∙ mul64-eq h.max_threads h.task_size h.cache_line_size a.some_threads
                                  a.tasks_small)
                            (mem _ _ rets e2
                              ∙ mul64-eq h.max_threads h.ret_size h.cache_line_size a.some_threads
                                  a.rets_small)
                            made.sized made.entries
                            (λ fd.
                              silent fd
                              ∙ ap (pending fd) made.trace
                              ∙ Quiet-opened h.max_threads w3.trace v.starting.quiet fd))
