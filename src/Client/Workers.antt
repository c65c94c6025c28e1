-- ===== src/Client/Workers.antt =====
-- The functions that change entries: they stay within the buffers, and keep the invariant.
pub mod Entry
use computing_cluster.Base.{
  ℕ, zero, suc, ◌+◌, ◌≤◌, ◌<◌, ◌≡◌, refl, Bool, true, false, List, [], ◌∷◌, Option, none, some,
  arith, length, get_elem?, set, inl, inr, get_elem?-set_self, set-set, get_elem?-lt,
  get_elem?_total, Option-cases, Bool-cases,
}
use computing_cluster.Config.{sizeof_header}
use computing_cluster.System.Outcome.{exits, bug}
use computing_cluster.System.Kernel.{
  Kernel, read_event, write_event, thread_create, pthread_attr_init, pthread_attr_setdetachstate,
  pthread_attr_setaffinity,
}
use computing_cluster.System.Action.{World, pure}
use computing_cluster.System.Traced.{
  Brings, Holds, Brings-weaken, Holds-bind, call_brings, index_brings,
}
use computing_cluster.System.Packs.{pack, splice, read_at-pack, write_at-splice, length-pack}
use computing_cluster.Client.Types.{ThreadInfo, ClusterClientHandle}
use computing_cluster.Client.Tasks.{
  free_thread, computation_wrapper, run_on, start_computation, mark_computation_as_ready,
}
use computing_cluster.Client.Eventloop.{end_alive, end_worker, end_workers}
use computing_cluster.Client.Invariant.{
  pending, CountsEvents, Phase, free, computing, signalled, finished, IsStored, ClientInv,
  ClientInv-calls, updated,
}
use computing_cluster.Client.Entries.{
  data_inside, ret_inside, outcome, length-outcome, computed-ClientInv, marked-ClientInv,
  started-ClientInv,
}

module _ {compute : List ℕ → List ℕ} {w : World ClusterClientHandle} {t : ThreadInfo} where
  alive-computing :
      Phase compute w.handle w.trace t
      → t.alive ≡ true
      → (t.empty ≡ false) × (t.waiting_to_be_sent ≡ false)
  alive-computing (free e s a p) h = cc
  alive-computing (computing e s a p) h = (e, s)
  alive-computing (signalled e s a p st) h = cc
  alive-computing (finished e s a p st) h = cc

  pending-signalled :
      Phase compute w.handle w.trace t
      → pending t.event_fd w.trace ≡ true
      → (t.empty ≡ false) × (t.alive ≡ false) × IsStored compute w.handle t
  pending-signalled (free e s a p) h = cc
  pending-signalled (computing e s a p) h = cc
  pending-signalled (signalled e s a p st) h = (e, a, st)
  pending-signalled (finished e s a p st) h = cc

  pub waiting-finished :
      Phase compute w.handle w.trace t
      → t.waiting_to_be_sent ≡ true
      → (t.alive ≡ false) × (pending t.event_fd w.trace ≡ false) × IsStored compute w.handle t
  waiting-finished (free e s a p) h = cc
  waiting-finished (computing e s a p) h = cc
  waiting-finished (signalled e s a p st) h = cc
  waiting-finished (finished e s a p st) h = (a, p, st)

  pub empty-free :
      Phase compute w.handle w.trace t
      → t.empty ≡ true
      → (t.waiting_to_be_sent ≡ false) × (pending t.event_fd w.trace ≡ false)
  empty-free (free e s a p) h = (s, p)
  empty-free (computing e s a p) h = cc
  empty-free (signalled e s a p st) h = cc
  empty-free (finished e s a p st) h = cc

-- The entry that the search finds is the first that is empty.
pub free_thread-first :
    (ts : List ThreadInfo) (i : ℕ)
    → free_thread ts ≡ some i
    → (t : ThreadInfo) × (get_elem? ts i ≡ some t) × (t.empty ≡ true)
unfolding free_thread
free_thread-first [] i e = cc
free_thread-first (t ∷ ts) zero e = (t, refl, ground (arith, Option-cases (free_thread ts)))
free_thread-first (t ∷ ts) (suc i) e = elim (Option-cases (free_thread ts)) [
  | inl rest ↦ absurd (ground arith)
  | inr (j, rest) ↦ free_thread-first ts i (ground arith)
]

-- A free entry has taken the task, and its worker runs; the rest of the handle is as it was.
pub record Starts (w : World ClusterClientHandle) (task_id : ℕ) (task : List ℕ)
    (w' : World ClusterClientHandle) : Type 0 where
  pub entry : ℕ
  pub info : ThreadInfo
  pub there : get_elem? w.handle.thread_manager entry ≡ some info
  pub was_empty : info.empty ≡ true
  pub result :
      w'.handle
      ≡ (updated w entry
          (record info { empty = false; task_id = task_id; alive = true })
          (splice w.handle.task_buffer info.data_pack task)
          w.handle.ret_buffer
          w.trace).handle

-- The task of a frame in the receive buffer.
abbrev pub arrived : ClusterClientHandle → List ℕ
arrived h = pack h.server_conn.recv_buffer sizeof_header h.task_size

module _ (os : Kernel) (compute : List ℕ → List ℕ) where
  abbrev P : World ClusterClientHandle → Type 0
  P = ClientInv compute

  -- A worker reads and writes the packs of its entry only.
  computation_wrapper-brings :
      (i : ℕ) (t : ThreadInfo) (w : World ClusterClientHandle)
      → ClientInv compute w
      → get_elem? w.handle.thread_manager i ≡ some t
      → t.alive ≡ true
      → Brings (computation_wrapper os compute i) w (λ _. P)
  unfolding computation_wrapper
  computation_wrapper-brings i t w v there running =
      let (busy, unsent) = alive-computing (v.phases i t there) running in
      rw
        (
          there,
          read_at-pack w.handle.task_buffer t.data_pack w.handle.task_size
              (data_inside v i t there),
          write_at-splice w.handle.ret_buffer t.ret_pack (outcome v i t there)
              (rw (length-outcome v i t there) (ret_inside v i t there)),
        )
        (call_brings (λ _. P) os (write_event t.event_fd) (λ _. pure tt) _
          (λ _ _. computed-ClientInv v i t there busy unsent))

  end_alive-brings :
      (i : ℕ) (o : Option ThreadInfo) (w : World ClusterClientHandle)
      → ClientInv compute w
      → get_elem? w.handle.thread_manager i ≡ o
      → Brings (end_alive os compute i o) w (λ _. P)
  end_alive-brings i none w v there = v
  end_alive-brings i (some t) w v there = elim (Bool-cases t.alive) [
    | inl running ↦ rw running (computation_wrapper-brings i t w v there running)
    | inr gone ↦ rw gone v
  ]

  end_worker-Holds : (i : ℕ) → Holds P (end_worker os compute i)
  unfolding end_worker
  end_worker-Holds i w v = end_alive-brings i (get_elem? w.handle.thread_manager i) w v refl

  pub end_workers-Holds : (is : List ℕ) → Holds P (end_workers os compute is)
  unfolding end_workers
  end_workers-Holds [] w v = v
  end_workers-Holds (i ∷ is) w v =
      Holds-bind P (end_worker os compute i) (λ _. end_workers os compute is) (end_worker-Holds i)
        (λ _. end_workers-Holds is) w v

  -- A signal is taken once: without one, the read ends the program.
  mark_brings :
      (b : Bool) (i : ℕ) (t : ThreadInfo) (w : World ClusterClientHandle)
      → CountsEvents os
      → ClientInv compute w
      → get_elem? w.handle.thread_manager i ≡ some t
      → pending t.event_fd w.trace ≡ b
      → Brings
          (mark_computation_as_ready os i)
          w
          (λ _ w'. P w' × (w'.handle.max_threads ≡ w.handle.max_threads))
  unfolding mark_computation_as_ready
  mark_brings true i t w counts v there p =
      let (busy, gone, stored) = pending-signalled (v.phases i t there) p in
      rw there (
        call_brings (λ _ w'. P w' × (w'.handle.max_threads ≡ w.handle.max_threads)) os
          (read_event t.event_fd) (λ _. pure tt) _
          (λ _ _. (marked-ClientInv v i t there busy gone stored, refl)))
  mark_brings false i t w counts v there p = rw (there, counts w.trace t.event_fd p) tt

  pub mark_lem :
      (i : ℕ) (w : World ClusterClientHandle)
      → CountsEvents os
      → ClientInv compute w
      → i < w.handle.max_threads
      → Brings
          (mark_computation_as_ready os i)
          w
          (λ _ w'. P w' × (w'.handle.max_threads ≡ w.handle.max_threads))
  mark_lem i w counts v bound =
      let (t, there) =
        get_elem?_total w.handle.thread_manager i (omega (arith, v.layout.entries)) in
      mark_brings (pending t.event_fd w.trace) i t w counts v there refl

  -- From an entry that is free to one whose worker runs on the task.
  run_on-brings :
      (task_id : ℕ) (task : List ℕ) (found : Option ℕ) (w : World ClusterClientHandle)
      → ClientInv compute w
      → length task ≡ w.handle.task_size
      → free_thread w.handle.thread_manager ≡ found
      → Brings (run_on os task_id task found) w (λ _ w'. P w' × Starts w task_id task w')
  unfolding run_on pending
  run_on-brings task_id task none w v len e = tt
  run_on-brings task_id task (some i) w v len e =
      let (t, there, is_empty) = free_thread-first w.handle.thread_manager i e in
      let (unsent, quiet) = empty-free (v.phases i t there) is_empty in
      let busy : ThreadInfo = record t { empty = false; task_id = task_id } in
      let here =
        get_elem?-set_self w.handle.thread_manager i busy
          (get_elem?-lt w.handle.thread_manager i there) in
      let Q : Unit {0} → World ClusterClientHandle → Type 0 =
        λ _ w'. P w' × Starts w task_id task w' in
      let running = set-set w.handle.thread_manager i busy (record busy { alive = true }) in
      rw
        (
          there,
          write_at-splice w.handle.task_buffer t.data_pack task (rw len (data_inside v i t there)),
        )
        (call_brings Q os pthread_attr_init _ _ λ _ _.
          call_brings Q os pthread_attr_setdetachstate _ _ λ _ _.
            call_brings Q os (pthread_attr_setaffinity t.cpu) _ _ λ _ _.
              call_brings Q os (thread_create i) _ _ λ _ _.
                index_brings Q (set w.handle.thread_manager i busy) i _ _ here (
                  rw running (
                    ClientInv-calls compute _
                        (started-ClientInv v i t there task_id task len unsent quiet) (λ fd. refl),
                    record {
                      entry = i;
                      info = t;
                      there = there;
                      was_empty = is_empty;
                      result = refl;
                    },
                  )))

  -- From a world with the invariant: the call makes no access outside the client's arrays and buffers.
  -- Where it returns, an entry that was empty has the task number, its data pack holds the task of the
  -- frame, its worker runs, no other entry and no other byte of the buffers is changed, and the
  -- invariant holds.
  pub start_computation_lem :
      (task_id : ℕ) (w : World ClusterClientHandle)
      → ClientInv compute w
      → Brings
          (start_computation os task_id sizeof_header)
          w
          (λ _ w'. ClientInv compute w' × Starts w task_id (arrived w.handle) w')
  unfolding start_computation
  start_computation_lem task_id w v =
      let fits : sizeof_header + w.handle.task_size ≤ length w.handle.server_conn.recv_buffer =
        omega (arith, v.conn.buffer) in
      rw (read_at-pack w.handle.server_conn.recv_buffer sizeof_header w.handle.task_size fits) (
        run_on-brings task_id (arrived w.handle) (free_thread w.handle.thread_manager) w v
          (length-pack w.handle.server_conn.recv_buffer sizeof_header w.handle.task_size fits) refl)

  pub start_computation-Holds : (task_id : ℕ) → Holds P (start_computation os task_id sizeof_header)
  start_computation-Holds task_id w v =
      Brings-weaken (λ _ w'. P w' × Starts w task_id (arrived w.handle) w') (λ _. P)
        (start_computation os task_id sizeof_header) w (λ _ _ q. q.0)
        (start_computation_lem task_id w v)
