-- ===== src/Server/Tasks/Release.antt =====
-- drop_resolving_tasks: the tasks of a lost client go back to the pool.
use computing_cluster.Base.{
  ℕ, ◌+◌, ◌≡◌, ◌≢◌, refl, ◌∙◌, List, [], ◌∷◌, some, arith, ◌==◌, leb, get_elem?, set, inl, inr,
  false, Bool-cases, length-map,
}
use computing_cluster.Base.Count.{count, hit}
use computing_cluster.Base.Each.{Each}
use computing_cluster.Config.{no_task}
use computing_cluster.System.Outcome.{Returns}
use computing_cluster.Server.Types.{
  Connection, TaskPool, not_resolved, completed, ClusterServerHandle,
}
use computing_cluster.Server.Tasks.{drop_task, drop_tasks, drop_resolving_tasks, cleared}
use computing_cluster.Server.Tasks.Cells.{count-cleared}
use computing_cluster.Server.Tasks.Statuses.{status_at, status_at-move}
use computing_cluster.Server.Tasks.Owners.{
  PoolInv, PoolInv-congr, PoolInv-IsHeld, IsHeld, held, count-held-set, dropped, dropped-PoolInv,
}
use computing_cluster.Server.Invariant.{ServerInv, IsLaidOut, ServerInv-update, IsLaidOut-set}

-- `cells` go back to the pool: a task that stands in them becomes NOT_RESOLVED, and no other task
-- changes its status.
pub record PutsBack (p : TaskPool) (cells : List ℕ) (p' : TaskPool) : Type 0 where
  pub num : p'.num_tasks ≡ p.num_tasks
  pub returned :
      (j : ℕ)
      → j ≢ no_task
      → status_at not_resolved p'.task_manager j
        ≡ count j cells + status_at not_resolved p.task_manager j
  pub kept :
      (j : ℕ)
      → j ≢ no_task
      → status_at completed p'.task_manager j ≡ status_at completed p.task_manager j
  pub num_completed : p'.num_completed ≡ p.num_completed
  pub pointers :
      (task_size ret_size : ℕ)
      → Each (IsLaidOut task_size ret_size) p.task_manager
      → Each (IsLaidOut task_size ret_size) p'.task_manager

dropped-PutsBack :
    {p : TaskPool} (cell : ℕ) (h : IsHeld p cell) → PutsBack p (cell ∷ []) (dropped p cell h.info)
unfolding count
dropped-PutsBack {p} cell h = record {
  num = refl;
  returned = λ j n. moved_to j;
  kept = λ j n. unmoved j;
  num_completed = refl;
  pointers = λ task_size ret_size all.
      IsLaidOut-set task_size ret_size p.task_manager cell h.info not_resolved all h.there;
}
  where
    moved_to :
        (j : ℕ)
        → status_at not_resolved (dropped p cell h.info).task_manager j
          ≡ hit j cell + 0 + status_at not_resolved p.task_manager j
    moved_to j = ground (
      arith,
      status_at-move not_resolved not_resolved p.task_manager cell j h.info h.there,
      h.busy,
    )

    unmoved :
        (j : ℕ)
        → status_at completed (dropped p cell h.info).task_manager j
          ≡ status_at completed p.task_manager j
    unmoved j =
        ground (
          arith,
          status_at-move completed not_resolved p.task_manager cell j h.info h.there,
          h.busy,
        )

drop_task_lem :
    {p : TaskPool} (owners : ℕ → ℕ) (cell : ℕ)
    → PoolInv p (λ j. hit j cell + owners j)
    → Returns (λ p'. PoolInv p' owners × PutsBack p (cell ∷ []) p') (drop_task p cell)
unfolding drop_task count
drop_task_lem {p} owners cell v = elim (Bool-cases (cell == no_task)) [
  | inl free ↦ rw free (
    p,
    refl,
    (
      PoolInv-congr _ owners (λ j n. ground arith) v,
      record {
        num = refl;
        returned = λ j n. ground arith;
        kept = λ j n. refl;
        num_completed = refl;
        pointers = λ task_size ret_size all. all;
      },
    ),
  )
  | inr busy ↦
      let n : cell ≢ no_task = (λ e. ground arith) in
      let h = PoolInv-IsHeld (λ j. hit j cell + owners j) cell v n (ground arith) in
      let in_range : leb 2147483648 cell ≡ false = ground (arith, h.bound, v.small) in
      rw (busy, in_range, h.there)
        (dropped p cell h.info, refl, (dropped-PoolInv owners cell v h, dropped-PutsBack cell h))
]

PutsBack-trans :
    {p p' p'' : TaskPool} (cell : ℕ) (cells : List ℕ)
    → PutsBack p (cell ∷ []) p'
    → PutsBack p' cells p''
    → PutsBack p (cell ∷ cells) p''
unfolding count
PutsBack-trans cell cells a b = record {
  num = b.num ∙ a.num;
  returned = λ j n. omega (arith, a.returned j n, b.returned j n);
  kept = λ j n. b.kept j n ∙ a.kept j n;
  num_completed = b.num_completed ∙ a.num_completed;
  pointers =
      λ task_size ret_size all. b.pointers task_size ret_size (a.pointers task_size ret_size all);
}

drop_tasks_lem :
    (cells : List ℕ) {p : TaskPool} (owners : ℕ → ℕ)
    → PoolInv p (λ j. count j cells + owners j)
    → Returns (λ p'. PoolInv p' owners × PutsBack p cells p') (drop_tasks cells p)
unfolding drop_tasks count
drop_tasks_lem [] {p} owners v = (
  p,
  refl,
  (
    PoolInv-congr _ owners (λ j n. omega arith) v,
    record {
      num = refl;
      returned = λ j n. omega arith;
      kept = λ j n. refl;
      num_completed = refl;
      pointers = λ task_size ret_size all. all;
    },
  ),
)
drop_tasks_lem (cell ∷ cells) {p} owners v =
    let (p', e, (v', back)) =
      drop_task_lem (λ j. count j cells + owners j) cell
        (PoolInv-congr _ _ (λ j n. omega arith) v) in
    let (p'', e', (v'', rest)) = drop_tasks_lem cells owners v' in
    (p'', rw e e', (v'', PutsBack-trans cell cells back rest))

-- What dropping the tasks of a connection does.
pub record Releases (h : ClusterServerHandle) (conn_i : ℕ) (conn : Connection)
    (h' : ClusterServerHandle) : Type 0 where
  pub pool : TaskPool
  pub result : h' ≡ record h {
    pool = pool;
    client_conns = set h.client_conns conn_i (record conn { task_list = cleared conn.task_list });
  }
  pub put_back : PutsBack h.pool conn.task_list pool

-- With the invariant and a connection of the table: the call returns, the tasks that stood in the
-- connection's cells are NOT_RESOLVED again and no other task changes its status, the cells are free,
-- and the new handle has the invariant.
pub drop_resolving_tasks_lem :
    {h : ClusterServerHandle} (conn_i : ℕ) (conn : Connection)
    → ServerInv h
    → get_elem? h.client_conns conn_i ≡ some conn
    → Returns (λ h'. Releases h conn_i conn h' × ServerInv h') (drop_resolving_tasks h conn_i)
unfolding drop_resolving_tasks
drop_resolving_tasks_lem {h} conn_i conn v there =
    let new : Connection = record conn { task_list = cleared conn.task_list } in
    let (p, e, (inv, back)) =
      drop_tasks_lem conn.task_list (λ j. count j (held (set h.client_conns conn_i new)))
        (PoolInv-congr _ _
          (λ j n. omega (
            arith,
            count-held-set j h.client_conns conn_i conn new there,
            count-cleared j conn.task_list n,
          ))
          v.tasks) in
    rw (there, e)
      (
        _,
        refl,
        (
          record { pool = p; result = refl; put_back = back },
          ServerInv-update conn_i conn new p h.user_rets v there refl
              (let c = v.connections conn_i conn there in
                record {
                  buffer = c.buffer;
                  partial = c.partial;
                  cells = omega (arith, c.cells, length-map conn.task_list (λ _. no_task));
                  idle = λ _ j n. count-cleared j conn.task_list n;
                })
              inv back.num (back.pointers h.task_size h.ret_size v.laid_out) refl,
        ),
      )
