-- ===== src/Server/Ledger/Operations.antt =====
-- get_task_to_send(), push_return_value() and drop_resolving_tasks() of cluster-api/cluster-server.c,
-- seen through the account of the tasks: when each of them returns, and what it then does to the
-- account.
use computing_cluster.Base.{
  ℕ, ◌<◌, ◌≡◌, ◌≢◌, refl, true, List, none, some, arith, inl, inr, get_elem?, Option-cases,
}
use computing_cluster.Base.Count.{count}
use computing_cluster.Config.{RequestHeader, no_task}
use computing_cluster.System.Outcome.{Outcome, ok, Returns, ◌>>=◌}
use computing_cluster.Server.Types.{Connection, not_resolved, ClusterServerHandle}
use computing_cluster.Server.Invariant.{ServerInv}
use computing_cluster.Server.Tasks.{get_task_to_send, push_return_value, drop_resolving_tasks}
use computing_cluster.Server.Tasks.Statuses.{status_at-eq, status_at-le-tally}
use computing_cluster.Server.Tasks.Give.{get_task_to_send_lem}
use computing_cluster.Server.Tasks.Collect.{Collected, value, push_return_value_lem}
use computing_cluster.Server.Tasks.Release.{drop_resolving_tasks_lem}
use computing_cluster.Server.Ledger.{absent, waiting, given, done, Ledger, update, give_back}
use computing_cluster.Server.Ledger.View.{stored_value, ledger}
use computing_cluster.Server.Ledger.Refines.{
  named, waiting-inv, Gives-first, Collected-value, Releases-named,
}

pub data Operation : Type 0 where
  gives releases : Operation
  collects : RequestHeader → Operation

-- The operation, for the connection in cell conn_i of the table.
abbrev pub operate : ClusterServerHandle → (conn_i : ℕ) → Operation → Outcome ClusterServerHandle
operate h conn_i gives = get_task_to_send h conn_i >>= λ r. ok r.1
operate h conn_i releases = drop_resolving_tasks h conn_i
operate h conn_i (collects header) = push_return_value h conn_i header

-- When the account and the connection allow it: to give, a task waits, and the connection is open and
-- has a free cell; to collect, the connection's cells name the task; to release, always.
abbrev pub Allows : Ledger → Connection → Operation → Type 0
Allows l conn gives =
    ((t : ℕ) × (l t ≡ waiting)) × (conn.socket_fd ≢ none) × (0 < count no_task conn.task_list)
Allows l conn releases = Unit
Allows l conn (collects header) =
    (header.task_id ≢ no_task) × (0 < count header.task_id conn.task_list)

-- What it does to the account: the first task that waits is given; the value, which lies behind the
-- header in the connection's buffer, becomes that of a task that was given; the tasks that the
-- connection's cells name, all of which were given, wait again.
abbrev pub Changes : Ledger → Connection → (value : List ℕ) → Operation → Ledger → Type 0
Changes l conn value gives l' =
    (t : ℕ) × (l t ≡ waiting) × ((j : ℕ) → j < t → l j ≢ waiting) × (l' ≡ update l t given)
Changes l conn value releases l' =
    ((j : ℕ) → named conn.task_list j ≡ true → l j ≡ given)
    × (l' ≡ give_back l (named conn.task_list))
Changes l conn value (collects header) l' =
    (l header.task_id ≡ given) × (l' ≡ update l header.task_id (done value))

-- A task that waits is counted.
some_left :
    {h : ClusterServerHandle} (t : ℕ) → ServerInv h → ledger h t ≡ waiting → 0 < h.num_not_resolved
some_left {h} t v w = elim (Option-cases (get_elem? h.task_manager t)) [
  | inl out ↦ absurd (let x : absent ≡ waiting = rw out at w in cc)
  | inr (info, e) ↦ omega (
    arith,
    v.tasks.unresolved,
    status_at-le-tally not_resolved h.task_manager t,
    status_at-eq not_resolved h.task_manager t info e,
    waiting-inv (stored_value h t) info.status (rw e at w),
  )
]

-- With the invariant and a connection of the table, each of the three operations returns where the
-- account and the connection allow it; the account of what it leaves is that of before, changed as the
-- operation says and for no other task, and the invariant holds.
pub operate-Changes :
    {h : ClusterServerHandle} (conn_i : ℕ) (conn : Connection) (operation : Operation)
    → ServerInv h
    → get_elem? h.client_conns conn_i ≡ some conn
    → Allows (ledger h) conn operation
    → Returns
        (λ h'. Changes (ledger h) conn (value h conn) operation (ledger h') × ServerInv h')
        (operate h conn_i operation)
operate-Changes {h} conn_i conn gives v there ((t, w), active, room) =
    let (r, e, (g, inv)) = get_task_to_send_lem conn_i conn v there active (some_left t v w) room in
    let (waits, first, given_now) = Gives-first h conn_i conn r.0 g in
    rw e (r.1, refl, ((g.task, waits, first, given_now), inv))
operate-Changes {h} conn_i conn releases v there _ =
    let (h', e, (r, inv)) = drop_resolving_tasks_lem conn_i conn v there in
    (h', e, (Releases-named conn_i conn v inv r, inv))
operate-Changes {h} conn_i conn (collects header) v there (valid, listed) =
    let (h', e, (c, inv)) = push_return_value_lem conn_i conn header v there valid listed in
    let collected : Collected h conn_i header.task_id h' = record {
      conn = conn;
      there = there;
      valid = valid;
      listed = listed;
      collects = c;
      inv = inv;
    } in
    (h', e, (Collected-value conn_i header.task_id v collected, inv))
