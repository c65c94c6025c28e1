-- ===== src/Server/Tasks/Give.antt =====
-- get_task_to_send: which task a client is given, and when the server refuses.
use computing_cluster.Base.{
  ℕ, ◌+◌, ◌<◌, ◌≡◌, ◌≢◌, refl, List, none, some, arith, get_elem?, set, inl, inr, ◌⊎◌, Option-cases,
}
use native.Mathlib.Decide.{dec_lt}
use computing_cluster.Base.Count.{count, hit}
use computing_cluster.Config.{no_task}
use computing_cluster.System.Outcome.{ok, exits, bug, Returns}
use computing_cluster.Server.Types.{Connection, TaskInfo, resolving, ClusterServerHandle}
use computing_cluster.Server.Tasks.{take_task, place_task, list_task, get_task_to_send}
use computing_cluster.Server.Tasks.Cells.{
  count-place_task, place_task_cell, place_task-none, place_task_full,
}
use computing_cluster.Server.Tasks.Statuses.{IsFirst}
use computing_cluster.Server.Tasks.Owners.{PoolInv, PoolInv-congr, held, count-held-set}
use computing_cluster.Server.Tasks.Owners.Taken.{taken, take_task_lem, take_task_greedy}
use computing_cluster.Server.Invariant.{ServerInv, ServerInv-update, IsLaidOut-set}

-- The handle after task `i` went into the list of a connection, which became `cells`.
abbrev pub given :
    ClusterServerHandle
    → (conn_i : ℕ) → Connection
    → (i : ℕ) → TaskInfo
    → List ℕ
    → ClusterServerHandle
given h conn_i conn i t cells = record h {
  pool = taken h.pool i t;
  client_conns = set h.client_conns conn_i (record conn { task_list = cells });
}

-- What a call that gives a task does: the first task that is NOT_RESOLVED becomes RESOLVING, its
-- number goes into a cell of the connection that was free, and nothing else changes.
pub record Gives (h : ClusterServerHandle) (conn_i : ℕ) (conn : Connection) (task_list_i : ℕ)
    (h' : ClusterServerHandle) : Type 0 where
  pub task : ℕ
  pub first : IsFirst h.task_manager 0 task
  pub cells : List ℕ
  pub was_free : get_elem? conn.task_list task_list_i ≡ some no_task
  pub listed : get_elem? cells task_list_i ≡ some task
  pub result : h' ≡ given h conn_i conn task first.info cells

get_task_to_send-eq :
    (h : ClusterServerHandle) (conn_i : ℕ) (conn : Connection) (i k : ℕ) (t : TaskInfo)
    (cells : List ℕ)
    → take_task h.pool ≡ ok (i, taken h.pool i t)
    → get_elem? h.client_conns conn_i ≡ some conn
    → place_task conn.task_list i ≡ some (k, cells)
    → get_task_to_send h conn_i ≡ ok (k, given h conn_i conn i t cells)
unfolding get_task_to_send list_task
get_task_to_send-eq h conn_i conn i k t cells took there placed =
    rw (took, there, list_task, placed)

module _ {h : ClusterServerHandle} (conn_i : ℕ) (conn : Connection) (v : ServerInv h)
    (there : get_elem? h.client_conns conn_i ≡ some conn) where
  given-ServerInv :
      (i k : ℕ) (t : TaskInfo) (cells : List ℕ)
      → PoolInv (taken h.pool i t) (λ j. hit j i + count j (held h.client_conns))
      → get_elem? h.task_manager i ≡ some t
      → i < h.num_tasks
      → conn.socket_fd ≢ none
      → place_task conn.task_list i ≡ some (k, cells)
      → ServerInv (given h conn_i conn i t cells)
  given-ServerInv i k t cells inv t_there bound active placed =
      ServerInv-update conn_i conn (record conn { task_list = cells }) (taken h.pool i t)
        h.user_rets v there refl
        (let c = v.connections conn_i conn there in
          record {
            buffer = c.buffer;
            partial = c.partial;
            cells =
                omega (arith, c.cells, (place_task_cell conn.task_list i k cells placed small).2);
            idle = λ e. absurd (active e);
          })
        (PoolInv-congr _ _
          (λ j n. omega (
            arith,
            count-held-set j h.client_conns conn_i conn (record conn { task_list = cells }) there,
            count-place_task conn.task_list i k cells placed small j n,
          ))
          inv)
        refl (IsLaidOut-set h.task_size h.ret_size h.task_manager i t resolving v.laid_out t_there)
        refl
    where
      small : i < 4294967296
      small = omega (arith, v.tasks.small, bound)

-- With the invariant, an open connection of the table that has a free cell, and a pool that is not
-- empty: the call returns, the first task that is NOT_RESOLVED becomes RESOLVING, its number goes into
-- a cell that was free, nothing else changes, and the new handle has the invariant.
pub get_task_to_send_lem :
    {h : ClusterServerHandle} (conn_i : ℕ) (conn : Connection)
    → ServerInv h
    → get_elem? h.client_conns conn_i ≡ some conn
    → conn.socket_fd ≢ none
    → 0 < h.num_not_resolved
    → 0 < count no_task conn.task_list
    → Returns (λ r. Gives h conn_i conn r.0 r.1 × ServerInv r.1) (get_task_to_send h conn_i)
get_task_to_send_lem {h} conn_i conn v there active some_left room =
    let (i, f, took, bound, inv) =
      take_task_lem (λ j. count j (held h.client_conns)) v.tasks some_left in
    let small : i < 4294967296 = omega (arith, v.tasks.small, bound) in
    elim (Option-cases (place_task conn.task_list i)) [
      | inl full ↦ absurd (omega (arith, place_task-none conn.task_list i full))
      | inr ((k, cells), placed) ↦
          let (was, now, _) = place_task_cell conn.task_list i k cells placed small in
          (
            (k, given h conn_i conn i f.info cells),
            get_task_to_send-eq h conn_i conn i k f.info cells took there placed,
            (
              record {
                task = i;
                first = f;
                cells = cells;
                was_free = was;
                listed = now;
                result = refl;
              },
              given-ServerInv conn_i conn v there i k f.info cells inv f.there bound active placed,
            ),
          )
    ]

list_task_full :
    (conn : Connection) (i : ℕ) → count no_task conn.task_list ≡ 0 → list_task conn i ≡ exits bug
unfolding list_task
list_task_full conn i full = rw (place_task_full conn.task_list i full, list_task)

-- With the invariant and a connection of the table: where the pool is empty or the connection has no
-- free cell, the call ends the server through BUG_ON.
pub get_task_to_send_refuses :
    {h : ClusterServerHandle} (conn_i : ℕ) (conn : Connection)
    → ServerInv h
    → get_elem? h.client_conns conn_i ≡ some conn
    → (h.num_not_resolved ≡ 0) ⊎ (count no_task conn.task_list ≡ 0)
    → get_task_to_send h conn_i ≡ exits bug
unfolding get_task_to_send
get_task_to_send_refuses {h} conn_i conn v there (inl empty) = rw (take_task_greedy _ v.tasks empty)
get_task_to_send_refuses {h} conn_i conn v there (inr full) = elim (dec_lt 0 h.num_not_resolved) [
  | yes some_left ↦
      let (i, f, took, bound, inv) =
        take_task_lem (λ j. count j (held h.client_conns)) v.tasks some_left in
      rw (took, there, list_task_full conn i full)
  | no empty ↦ rw (take_task_greedy _ v.tasks (omega arith))
]
