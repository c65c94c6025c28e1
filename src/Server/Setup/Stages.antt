-- ===== src/Server/Setup/Stages.antt =====
-- What the handle is while the server starts: with its arguments, then with its connection table,
-- then with its tasks, which is the invariant.
use computing_cluster.Base.{ℕ, ◌+◌, ◌*◌, ◌≤◌, ◌<◌, ◌≡◌, List, Option, arith, length}
use computing_cluster.Base.Count.{count}
use computing_cluster.Config.{sizeof_header}
use computing_cluster.System.Kernel.{Kernel, Trace, done, malloc}
use computing_cluster.Server.Types.{ClusterServerHandle}
use computing_cluster.Server.Tasks.{init_task_management_routine}
use computing_cluster.Server.Tasks.Owners.{held}
use computing_cluster.Server.Invariant.{ServerInv}
use computing_cluster.Server.Setup.Fresh.{
  IsFreshTable, init_task_management-PoolInv, init_task_management-IsLaidOut,
}

-- The descriptor of epoll is no part of the invariant.
pub ServerInv-epoll :
    {h : ClusterServerHandle} (fd : Option ℕ) → ServerInv h → ServerInv (record h { epoll_fd = fd })
ServerInv-epoll fd v = record {
  tasks = v.tasks;
  laid_out = v.laid_out;
  task_bytes = v.task_bytes;
  ret_bytes = v.ret_bytes;
  table = v.table;
  table_small = v.table_small;
  frame_small = v.frame_small;
  clients = v.clients;
  connections = v.connections;
}

-- malloc(n) answers with a block of n bytes, or fails.
abbrev pub AllocatesInFull : Kernel → Type 0
AllocatesInFull os =
    (before : Trace) (n : ℕ) (block : List ℕ)
    → os.input before (malloc n) ≡ done block
    → length block ≡ n

-- The arrays of the user hold num_tasks entries, there are at most 2^31 tasks, and a frame's size is
-- a size_t.
pub record IsGiven (h : ClusterServerHandle) : Type 0 where
  pub few : h.num_tasks ≤ 2147483648
  pub frame : sizeof_header + h.ret_size < 18446744073709551616
  pub user_bytes : length h.user_tasks ≡ h.num_tasks * h.task_size
  pub room : length h.user_rets ≡ h.num_tasks * h.ret_size

-- With the table of free cells in place.
pub record HasTable (h : ClusterServerHandle) : Type 0 where
  pub given : IsGiven h
  pub free : IsFreshTable h.ret_size h.max_clients h.client_conns
  pub none_yet : h.num_clients ≡ 0
  pub size : h.max_clients < 18446744073709551616

pub init_tasks-ServerInv :
    (h : ClusterServerHandle)
    → HasTable h
    → ServerInv
        (record h { pool = init_task_management_routine h.num_tasks h.task_size h.ret_size })
unfolding init_task_management_routine
init_tasks-ServerInv h v = record {
  tasks =
      init_task_management-PoolInv h.num_tasks h.task_size h.ret_size
        (λ j. count j (held h.client_conns)) v.given.few v.free.empty;
  laid_out = init_task_management-IsLaidOut h.num_tasks h.task_size h.ret_size;
  task_bytes = v.given.user_bytes;
  ret_bytes = v.given.room;
  table = omega (arith, v.free.sized, v.size);
  table_small = omega (arith, v.size);
  frame_small = v.given.frame;
  clients = omega (arith, v.free.idle, v.none_yet);
  connections = v.free.connections;
}
