-- ===== src/Client/Tasks.antt =====
-- "Task Management Routine" and "Computation Routine" of cluster-api/cluster-client.c: the entries of
-- the thread manager, the worker that runs for an entry, and how its result is signalled.
use computing_cluster.Base.{
  ℕ, zero, suc, ◌+◌, ◌*◌, ◌%◌, true, false, List, [], ◌∷◌, Option, none, some, set, if◌then◌else◌,
}
use mathlib.Core.Option
use computing_cluster.Config.{no_task}
use computing_cluster.System.Outcome.{Outcome, ok, fault, bug, index, read_at, write_at}
use computing_cluster.System.Kernel.{
  Kernel, close, epoll_add, malloc, eventfd, read_event, write_event, pthread_attr_init,
  pthread_attr_setdetachstate, pthread_attr_setaffinity, thread_create, get_nprocs, fopen, fscanf,
  fclose,
}
use computing_cluster.System.Action.{
  Action, pure, ◌>>=◌, ◌>>◌, exit, get, put, lift, syscall_input, or_exit, require,
}
use computing_cluster.Client.Types.{ThreadInfo, ClusterClientHandle}

abbrev pub Client : Type 0 → Type 0
Client A = Action ClusterClientHandle A

-- The operators of size_t.
abbrev pub add64 : ℕ → ℕ → ℕ
add64 a b = (a + b) % 18446744073709551616

abbrev pub mul64 : ℕ → ℕ → ℕ
mul64 a b = (a * b) % 18446744073709551616

-- i % handle->max_cpu
abbrev pub cpu_of : (i max_cpu : ℕ) → Outcome ℕ
cpu_of i zero = fault
cpu_of i (suc n) = ok (i % suc n)

-- A new entry of the thread manager.
abbrev pub new_thread : ClusterClientHandle → (i cpu event_fd : ℕ) → ThreadInfo
new_thread h i cpu event_fd = record {
  empty = true;
  in_args = record {
    data_pack = mul64 i (add64 h.task_size h.cache_line_size);
    ret_pack = mul64 i (add64 h.ret_size h.cache_line_size);
  };
  alive = false;
  cpu = cpu;
  task_id = no_task;
  event_fd = event_fd;
  waiting_to_be_sent = false;
}

-- The first entry with empty == 1.
unfoldable pub free_thread : List ThreadInfo → Option ℕ
free_thread [] = none
free_thread (t ∷ ts) = if t.empty then some 0 else Option.map suc (free_thread ts)

-- One entry of the thread manager replaced.
abbrev pub with_thread : ClusterClientHandle → (i : ℕ) → ThreadInfo → ClusterClientHandle
with_thread h i t = record h { thread_manager = set h.thread_manager i t }

-- The entry takes a task: it is not empty, and its data lie in the task buffer.
abbrev pub loaded :
    ClusterClientHandle
    → (i : ℕ) → ThreadInfo
    → (task_id : ℕ) → (task_buffer : List ℕ) → ClusterClientHandle
loaded h i t task_id task_buffer = record h {
  thread_manager = set h.thread_manager i (record t { empty = false; task_id = task_id });
  task_buffer = task_buffer;
}

-- The result of an entry's worker lies in the result buffer, and the worker is gone.
abbrev pub computed :
    ClusterClientHandle → (i : ℕ) → ThreadInfo → (ret_buffer : List ℕ) → ClusterClientHandle
computed h i t ret_buffer = record h {
  thread_manager = set h.thread_manager i (record t { alive = false });
  ret_buffer = ret_buffer;
}

module _ (os : Kernel) where
  unfoldable pub cache_line_size : Client ℕ
  cache_line_size = do
    require os fopen
    line_size ← require os fscanf
    require os fclose
    pure line_size

  -- The loop over the entries i, i + 1, … of `n`.
  unfoldable pub init_threads : (n i : ℕ) → Client (List ThreadInfo)
  init_threads zero i = pure []
  init_threads (suc n) i = do
    h ← get
    cpu ← lift (cpu_of i h.max_cpu)
    event_fd ← require os eventfd
    rest ← init_threads n (i + 1)
    pure (new_thread h i cpu event_fd ∷ rest)

  -- The buffers are as large as the cache line that the field holds before it is queried.
  unfoldable pub init_task_management_routine : Client (Unit {0})
  unfolding init_threads cache_line_size
  init_task_management_routine = do
    h ← get
    require os (malloc (h.max_threads * 184))
    tasks ← syscall_input os (malloc (mul64 h.max_threads (add64 h.task_size h.cache_line_size)))
    task_buffer ← or_exit tasks
    rets ← syscall_input os (malloc (mul64 h.max_threads (add64 h.ret_size h.cache_line_size)))
    ret_buffer ← or_exit rets
    put (record h {
      initial_requests = h.max_threads;
      task_buffer = task_buffer;
      ret_buffer = ret_buffer;
    })
    threads ← init_threads h.max_threads 0
    line_size ← cache_line_size
    nprocs ← require os get_nprocs
    h' ← get
    put (record h' { thread_manager = threads; cache_line_size = line_size; max_cpu = nprocs })

  unfoldable pub close_events : List ThreadInfo → Client (Unit {0})
  close_events [] = pure tt
  close_events (t ∷ ts) = do require os (close t.event_fd); close_events ts

  unfoldable pub free_task_management_routine : Client (Unit {0})
  unfolding close_events
  free_task_management_routine = do h ← get; close_events h.thread_manager

  unfoldable pub watch_events : List ThreadInfo → Client (Unit {0})
  watch_events [] = pure tt
  watch_events (t ∷ ts) = do
    require os (
        epoll_add t.event_fd
          (record { epollin = true; epollout = false; epollhup = false; epollrdhup = false }))
    watch_events ts

  unfoldable pub start_task_management_routine : Client (Unit {0})
  unfolding watch_events
  start_task_management_routine = do h ← get; watch_events h.thread_manager

  -- `compute` is what the user's function leaves in the result pack for what is in the data pack.
  unfoldable pub computation_wrapper :
      (compute : List ℕ → List ℕ) → (thread_i : ℕ) → Client (Unit {0})
  computation_wrapper compute thread_i = do
    h ← get
    info ← lift (index h.thread_manager thread_i)
    pack ← lift (read_at h.task_buffer info.data_pack h.task_size)
    ret_buffer ← lift (write_at h.ret_buffer info.ret_pack (compute pack))
    put (computed h thread_i info ret_buffer)
    require os (write_event info.event_fd)
    pure tt

  -- The rest of start_computation(), with the entry that was found.
  unfoldable pub run_on : (task_id : ℕ) (task : List ℕ) → (thread_i : Option ℕ) → Client (Unit {0})
  run_on task_id task none = exit bug
  run_on task_id task (some thread_i) = do
    h ← get
    info ← lift (index h.thread_manager thread_i)
    task_buffer ← lift (write_at h.task_buffer info.data_pack task)
    put (loaded h thread_i info task_id task_buffer)
    require os pthread_attr_init
    require os pthread_attr_setdetachstate
    require os (pthread_attr_setaffinity info.cpu)
    require os (thread_create thread_i)
    h' ← get
    info' ← lift (index h'.thread_manager thread_i)
    put (with_thread h' thread_i (record info' { alive = true }))

  -- task_ptr is a place in the receive buffer.
  unfoldable pub start_computation : (task_id task_ptr : ℕ) → Client (Unit {0})
  unfolding run_on
  start_computation task_id task_ptr = do
    h ← get
    task ← lift (read_at h.server_conn.recv_buffer task_ptr h.task_size)
    run_on task_id task (free_thread h.thread_manager)

  unfoldable pub mark_computation_as_ready : (computation_i : ℕ) → Client (Unit {0})
  mark_computation_as_ready computation_i = do
    h ← get
    info ← lift (index h.thread_manager computation_i)
    put (with_thread h computation_i (record info { waiting_to_be_sent = true }))
    require os (read_event info.event_fd)
    pure tt
