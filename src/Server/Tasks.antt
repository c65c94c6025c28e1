-- ===== src/Server/Tasks.antt =====
-- "Task Management Routine" of cluster-api/cluster-server.c. None of these functions makes a system
-- call. A task is in the pool, or with a client, in a cell of its connection's task_list, or done.
pub mod Cells
pub mod Statuses
pub mod Owners
pub mod Give
pub mod Collect
pub mod Release
use computing_cluster.Base.{
  ℕ, zero, suc, ◌+◌, ◌-◌, ◌*◌, ◌%◌, ◌^◌, ◌≡◌, Bool, true, false, ◌||◌, ◌&&◌, not, List, [], ◌∷◌,
  Option, none, some, map, max, ltb, leb, ◌==◌, inc64, dec64, if◌then◌else◌, set, get_elem?, drop,
  take,
}
use mathlib.Core.Option
use computing_cluster.Config.{no_task, sizeof_header, max_tasks_per_client, RequestHeader}
use computing_cluster.System.Outcome.{
  Outcome, ok, exits, fault, bug, ◌>>=◌, ◌>>◌, bug_on, index, read_at, write_at,
}
use computing_cluster.Server.Types.{
  Connection, Status, not_resolved, resolving, completed, TaskInfo, TaskPool, ClusterServerHandle,
  is_not_resolved,
}

-- The `for` loop of init_task_management_routine: the entries i, i + 1, … of `n` tasks.
unfoldable pub init_tasks : (n i task_size ret_size : ℕ) → List TaskInfo
init_tasks zero i task_size ret_size = []
init_tasks (suc n) i task_size ret_size =
    record { task = i * task_size; ret = i * ret_size; status = not_resolved }
    ∷ init_tasks n (i + 1) task_size ret_size

unfoldable pub init_task_management_routine : (num_tasks task_size ret_size : ℕ) → TaskPool
unfolding init_tasks
init_task_management_routine num_tasks task_size ret_size = record {
  task_manager = init_tasks num_tasks 0 task_size ret_size;
  num_not_resolved = num_tasks;
  num_completed = 0;
  min_not_resolved_task = 0;
  num_tasks = num_tasks;
}

-- The first task from number `task_i` on that is NOT_RESOLVED.
unfoldable pub find_task : List TaskInfo → (task_i : ℕ) → Option ℕ
find_task [] task_i = none
find_task (t ∷ ts) zero =
    if is_not_resolved t.status then some 0 else Option.map suc (find_task ts zero)
find_task (t ∷ ts) (suc task_i) = Option.map suc (find_task ts task_i)

-- The first free cell of a task list is given the task: the cell's number, and the new list.
unfoldable pub place_task : List ℕ → (task_i : ℕ) → Option (ℕ × List ℕ)
place_task [] task_i = none
place_task (c ∷ cs) task_i =
    if c == no_task
    then some (0, (task_i % 2 ^ 32) ∷ cs)
    else Option.map (λ r. (suc r.0, c ∷ r.1)) (place_task cs task_i)

abbrev pub with_status : TaskInfo → Status → TaskInfo
with_status t s = record t { status = s }

-- The first loop of get_task_to_send: a task is taken from the pool, or the server gives up. Where
-- the loop finds none, it has counted up to num_tasks, unless it began above that.
unfoldable pub take_task : TaskPool → Outcome (ℕ × TaskPool)
unfolding find_task
take_task p = elim (find_task p.task_manager p.min_not_resolved_task) [
  | none ↦
      if leb p.min_not_resolved_task p.num_tasks then exits bug else ok (p.min_not_resolved_task, p)
  | some task_i ↦ do
    t ← index p.task_manager task_i
    ok (
      task_i,
      record p {
        task_manager = set p.task_manager task_i (with_status t resolving);
        num_not_resolved = dec64 p.num_not_resolved;
        min_not_resolved_task = task_i + 1;
      },
    )
]

-- The second loop: the client's list takes the task's number.
unfoldable pub list_task : Connection → (task_i : ℕ) → Outcome (ℕ × Connection)
unfolding place_task
list_task conn task_i = elim (place_task conn.task_list task_i) [
  | none ↦ exits bug
  | some (task_list_i, cells) ↦ ok (task_list_i, record conn { task_list = cells })
]

unfoldable pub get_task_to_send :
    ClusterServerHandle → (conn_i : ℕ) → Outcome (ℕ × ClusterServerHandle)
get_task_to_send h conn_i = do
  (task_i, p) ← take_task h.pool
  conn ← index h.client_conns conn_i
  (task_list_i, conn') ← list_task conn task_i
  ok (task_list_i, record h { pool = p; client_conns = set h.client_conns conn_i conn' })

-- The loop of push_return_value that frees the task's cell. After the last cell it gives up.
unfoldable pub free_cell : List ℕ → (task_index : ℕ) → Outcome (List ℕ)
free_cell [] task_index = exits bug
free_cell (c ∷ cs) task_index =
    if c == task_index then ok (no_task ∷ cs) else do cs' ← free_cell cs task_index; ok (c ∷ cs')

abbrev pub complete : TaskPool → (task_index : ℕ) → TaskInfo → TaskPool
complete p task_index t = record p {
  task_manager = set p.task_manager task_index (with_status t completed);
  num_completed = inc64 p.num_completed;
}

-- The value that arrived behind the header is copied before the task list is looked at.
unfoldable pub push_return_value :
    ClusterServerHandle → (conn_i : ℕ) → RequestHeader → Outcome ClusterServerHandle
push_return_value h conn_i header = do
  t ← index h.task_manager header.task_id
  conn ← index h.client_conns conn_i
  value ← read_at conn.recv_buffer sizeof_header h.ret_size
  rets ← write_at h.user_rets t.ret value
  cells ← free_cell conn.task_list header.task_id
  ok (record h {
    user_rets = rets;
    client_conns = set h.client_conns conn_i (record conn { task_list = cells });
    pool = complete h.pool header.task_id t;
  })

-- One round of drop_resolving_tasks. `int task_i` is negative from 2^31 on, so task_manager[task_i]
-- lies outside the array there.
unfoldable pub drop_task : TaskPool → (cell : ℕ) → Outcome TaskPool
drop_task p cell = if cell == no_task then ok p else do
  t ← if leb (2 ^ 31) cell then fault else index p.task_manager cell
  ok (record p {
    task_manager = set p.task_manager cell (with_status t not_resolved);
    num_not_resolved = inc64 p.num_not_resolved;
    min_not_resolved_task =
        if ltb cell p.min_not_resolved_task then cell else p.min_not_resolved_task;
  })

unfoldable pub drop_tasks : List ℕ → TaskPool → Outcome TaskPool
drop_tasks [] p = ok p
drop_tasks (cell ∷ cells) p = do p' ← drop_task p cell; drop_tasks cells p'

-- What the loop leaves in the cells.
abbrev pub cleared : List ℕ → List ℕ
cleared cells = map (λ _. no_task) cells

unfoldable pub drop_resolving_tasks :
    ClusterServerHandle → (conn_i : ℕ) → Outcome ClusterServerHandle
drop_resolving_tasks h conn_i = do
  conn ← index h.client_conns conn_i
  p ← drop_tasks conn.task_list h.pool
  ok (record h {
    pool = p;
    client_conns = set h.client_conns conn_i (record conn { task_list = cleared conn.task_list });
  })
