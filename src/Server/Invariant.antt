-- ===== src/Server/Invariant.antt =====
-- The invariant of the server's handle.
use computing_cluster.Base.{
  ℕ, zero, suc, ◌+◌, ◌*◌, ◌≤◌, ◌<◌, ◌≡◌, ◌≢◌, ap, List, [], ◌∷◌, none, some, arith, length,
  get_elem?, set, if◌then◌else◌, length-set,
}
use computing_cluster.Base.Count.{count}
use computing_cluster.Base.Each.{Each, Each-set}
use computing_cluster.Config.{no_task, sizeof_header, max_tasks_per_client}
use computing_cluster.Server.Tasks.{with_status}
use computing_cluster.Server.Types.{
  Connection, Status, TaskInfo, TaskPool, ClusterServerHandle, is_free,
}
use computing_cluster.Server.Tasks.Owners.{PoolInv, PoolInv-congr, held, count-held-set}

-- How many cells of the connection table are in use.
unfoldable pub active : List Connection → ℕ
active [] = 0
active (c ∷ cs) = (if is_free c.socket_fd then 0 else 1) + active cs

pub active-le-length : (conns : List Connection) → active conns ≤ length conns
unfolding active
active-le-length [] = omega arith
active-le-length (c ∷ conns) = ground (arith, active-le-length conns)

pub active-set :
    (conns : List Connection) (i : ℕ) (old new : Connection)
    → get_elem? conns i ≡ some old
    → active (set conns i new) + (if is_free old.socket_fd then 0 else 1)
      ≡ active conns + (if is_free new.socket_fd then 0 else 1)
unfolding active
active-set [] i old new e = cc
active-set (c ∷ conns) zero old new e = ground arith
active-set (c ∷ conns) (suc i) old new e = omega (arith, active-set conns i old new e)

-- The receive buffer has room for one frame and is never full between two calls; a free cell of the
-- table holds no task.
pub record IsConnection (ret_size : ℕ) (c : Connection) : Type 0 where
  pub buffer : length c.recv_buffer ≡ sizeof_header + ret_size
  pub partial : c.bytes_recieved < sizeof_header + ret_size
  pub cells : length c.task_list ≡ max_tasks_per_client
  pub idle : c.socket_fd ≡ none → (j : ℕ) → j ≢ no_task → count j c.task_list ≡ 0

-- The pointers of a task lie at its place in the two arrays of the user.
pub record IsLaidOut (task_size ret_size i : ℕ) (t : TaskInfo) : Type 0 where
  pub task_at : t.task ≡ i * task_size
  pub ret_at : t.ret ≡ i * ret_size

pub record ServerInv (h : ClusterServerHandle) : Type 0 where
  pub tasks : PoolInv h.pool (λ j. count j (held h.client_conns))
  pub laid_out : Each (IsLaidOut h.task_size h.ret_size) h.task_manager
  pub task_bytes : length h.user_tasks ≡ h.num_tasks * h.task_size
  pub ret_bytes : length h.user_rets ≡ h.num_tasks * h.ret_size
  pub table : length h.client_conns ≡ h.max_clients
  pub table_small : h.max_clients < 18446744073709551616
  pub frame_small : sizeof_header + h.ret_size < 18446744073709551616
  pub clients : h.num_clients ≡ active h.client_conns
  pub connections : Each (λ _. IsConnection h.ret_size) h.client_conns

-- A change of one connection, of the pool and of the results keeps the invariant, where the parts of
-- it that speak of the change hold.
pub ServerInv-update :
    {h : ClusterServerHandle} (conn_i : ℕ) (old new : Connection) (p : TaskPool) (rets : List ℕ)
    → ServerInv h
    → get_elem? h.client_conns conn_i ≡ some old
    → is_free new.socket_fd ≡ is_free old.socket_fd
    → IsConnection h.ret_size new
    → PoolInv p (λ j. count j (held (set h.client_conns conn_i new)))
    → p.num_tasks ≡ h.num_tasks
    → Each (IsLaidOut h.task_size h.ret_size) p.task_manager
    → length rets ≡ length h.user_rets
    → ServerInv
        (record h { client_conns = set h.client_conns conn_i new; pool = p; user_rets = rets })
ServerInv-update {h} conn_i old new p rets v there same conn inv num laid len = record {
  tasks = inv;
  laid_out = laid;
  task_bytes = rw num v.task_bytes;
  ret_bytes = rw num (omega (arith, v.ret_bytes));
  table = omega (arith, length-set h.client_conns conn_i new, v.table);
  table_small = v.table_small;
  frame_small = v.frame_small;
  clients = ground (arith, active-set h.client_conns conn_i old new there, v.clients);
  connections =
      Each-set (λ _. IsConnection h.ret_size) h.client_conns conn_i new v.connections conn;
}

-- A change of a task's status leaves its pointers alone.
pub IsLaidOut-set :
    (task_size ret_size : ℕ) (ts : List TaskInfo) (i : ℕ) (t : TaskInfo) (s : Status)
    → Each (IsLaidOut task_size ret_size) ts
    → get_elem? ts i ≡ some t
    → Each (IsLaidOut task_size ret_size) (set ts i (with_status t s))
IsLaidOut-set task_size ret_size ts i t s all there =
    let l = all i t there in
    Each-set (IsLaidOut task_size ret_size) ts i (with_status t s) all
      (record { task_at = l.task_at; ret_at = l.ret_at })

-- A change of one connection that may open or close it, with the number of clients that goes with it.
pub ServerInv-reopen :
    {h : ClusterServerHandle} (conn_i : ℕ) (old new : Connection) (num_clients' : ℕ)
    → ServerInv h
    → get_elem? h.client_conns conn_i ≡ some old
    → num_clients' + (if is_free old.socket_fd then 0 else 1)
      ≡ h.num_clients + (if is_free new.socket_fd then 0 else 1)
    → IsConnection h.ret_size new
    → new.task_list ≡ old.task_list
    → ServerInv
        (record h { client_conns = set h.client_conns conn_i new; num_clients = num_clients' })
ServerInv-reopen {h} conn_i old new num_clients' v there num conn same = record {
  tasks =
      PoolInv-congr _ _
        (λ j n.
          omega (arith, count-held-set j h.client_conns conn_i old new there, ap (count j) same))
        v.tasks;
  laid_out = v.laid_out;
  task_bytes = v.task_bytes;
  ret_bytes = v.ret_bytes;
  table = omega (arith, length-set h.client_conns conn_i new, v.table);
  table_small = v.table_small;
  frame_small = v.frame_small;
  clients = omega (arith, active-set h.client_conns conn_i old new there, v.clients, num);
  connections =
      Each-set (λ _. IsConnection h.ret_size) h.client_conns conn_i new v.connections conn;
}

-- A change of one connection that leaves its socket and its tasks alone.
pub ServerInv-touch :
    {h : ClusterServerHandle} (conn_i : ℕ) (old new : Connection)
    → ServerInv h
    → get_elem? h.client_conns conn_i ≡ some old
    → new.socket_fd ≡ old.socket_fd
    → IsConnection h.ret_size new
    → new.task_list ≡ old.task_list
    → ServerInv (record h { client_conns = set h.client_conns conn_i new })
ServerInv-touch {h} conn_i old new v there socket conn same =
    ServerInv-reopen conn_i old new h.num_clients v there (rw socket) conn same

-- The table as a whole is as large as its length, and no larger than the counter can say.
pub num_clients-le : {h : ClusterServerHandle} → ServerInv h → h.num_clients ≤ h.max_clients
num_clients-le {h} v = omega (arith, v.clients, active-le-length h.client_conns, v.table)
