-- ===== src/Server/Setup/Fresh.antt =====
-- The task pool and the connection table as the init functions leave them.
use computing_cluster.Base.{
  ℕ, zero, suc, ◌+◌, ◌*◌, ◌≤◌, ◌≡◌, ◌≢◌, refl, List, [], ◌∷◌, some, arith, length, get_elem?,
  replicate, length-replicate, ap, subst,
}
use mathlib.Core.Option.{some-injective}
use computing_cluster.Base.Count.{count, count-append}
use computing_cluster.Base.Each.{Each}
use computing_cluster.Config.{no_task, sizeof_header, max_tasks_per_client}
use computing_cluster.Server.Types.{
  Connection, Status, not_resolved, resolving, completed, TaskInfo,
}
use computing_cluster.Server.Tasks.{init_tasks, init_task_management_routine}
use computing_cluster.Server.Tasks.Statuses.{agree, tally, status_at}
use computing_cluster.Server.Tasks.Owners.{held, PoolInv}
use computing_cluster.Server.Invariant.{active, IsConnection, IsLaidOut}
use computing_cluster.Server.Setup.{new_connection}

length-init_tasks : (n i task_size ret_size : ℕ) → length (init_tasks n i task_size ret_size) ≡ n
unfolding init_tasks
length-init_tasks zero i task_size ret_size = refl
length-init_tasks (suc n) i task_size ret_size =
    ap suc (length-init_tasks n (i + 1) task_size ret_size)

tally-init_tasks :
    (s : Status) (n i task_size ret_size : ℕ)
    → tally s (init_tasks n i task_size ret_size) ≡ n * agree s not_resolved
unfolding init_tasks tally
tally-init_tasks s zero i task_size ret_size = omega arith
tally-init_tasks not_resolved (suc n) i task_size ret_size =
    omega (arith, tally-init_tasks not_resolved n (i + 1) task_size ret_size)
tally-init_tasks resolving (suc n) i task_size ret_size =
    omega (arith, tally-init_tasks resolving n (i + 1) task_size ret_size)
tally-init_tasks completed (suc n) i task_size ret_size =
    omega (arith, tally-init_tasks completed n (i + 1) task_size ret_size)

none_given :
    (n i task_size ret_size j : ℕ) → status_at resolving (init_tasks n i task_size ret_size) j ≡ 0
unfolding init_tasks status_at
none_given zero i task_size ret_size j = refl
none_given (suc n) i task_size ret_size zero = refl
none_given (suc n) i task_size ret_size (suc j) = none_given n (i + 1) task_size ret_size j

IsLaidOut-from :
    (n i task_size ret_size j k : ℕ) (t : TaskInfo)
    → get_elem? (init_tasks n i task_size ret_size) j ≡ some t
    → k ≡ i + j
    → IsLaidOut task_size ret_size k t
unfolding init_tasks
IsLaidOut-from zero i task_size ret_size j k t e p = cc
IsLaidOut-from (suc n) i task_size ret_size zero k t e p =
    let same : k ≡ i = omega arith in
    rw same (
      subst (IsLaidOut task_size ret_size i) (some-injective _ _ e)
        (record { task_at = refl; ret_at = refl }))
IsLaidOut-from (suc n) i task_size ret_size (suc j) k t e p =
    IsLaidOut-from n (i + 1) task_size ret_size j k t e (omega arith)

pub init_task_management-IsLaidOut :
    (num_tasks task_size ret_size : ℕ)
    → Each
        (IsLaidOut task_size ret_size)
        (init_task_management_routine num_tasks task_size ret_size).task_manager
unfolding init_task_management_routine
init_task_management-IsLaidOut num_tasks task_size ret_size j t e =
    IsLaidOut-from num_tasks 0 task_size ret_size j j t e (omega arith)

pub init_task_management-PoolInv :
    (num_tasks task_size ret_size : ℕ) (owners : ℕ → ℕ)
    → num_tasks ≤ 2147483648
    → ((j : ℕ) → j ≢ no_task → owners j ≡ 0)
    → PoolInv (init_task_management_routine num_tasks task_size ret_size) owners
unfolding init_task_management_routine
init_task_management-PoolInv num_tasks task_size ret_size owners small free = record {
  sized = length-init_tasks num_tasks 0 task_size ret_size;
  small = small;
  unresolved = omega (arith, tally-init_tasks not_resolved num_tasks 0 task_size ret_size);
  done = omega (arith, tally-init_tasks completed num_tasks 0 task_size ret_size);
  mark_le = omega arith;
  below = λ j b. absurd (omega arith);
  owned = λ j n. omega (arith, free j n, none_given num_tasks 0 task_size ret_size j);
}

-- A table of free cells.
pub record IsFreshTable (ret_size n : ℕ) (conns : List Connection) : Type 0 where
  pub sized : length conns ≡ n
  pub idle : active conns ≡ 0
  pub connections : Each (λ _. IsConnection ret_size) conns
  pub empty : (j : ℕ) → j ≢ no_task → count j (held conns) ≡ 0

pub IsFreshTable-nil : (ret_size : ℕ) → IsFreshTable ret_size 0 []
unfolding active held count
IsFreshTable-nil ret_size = record {
  sized = refl;
  idle = refl;
  connections = λ i x e. cc;
  empty = λ j n. refl;
}

count-replicate : (j n : ℕ) → j ≢ no_task → count j (replicate n no_task) ≡ 0
unfolding count
count-replicate j zero n = refl
count-replicate j (suc k) n = ground (arith, count-replicate j k n)

pub IsFreshTable-cons :
    {ret_size n : ℕ} (uninitialised : Connection) (buffer : List ℕ) {conns : List Connection}
    → length buffer ≡ sizeof_header + ret_size
    → IsFreshTable ret_size n conns
    → IsFreshTable ret_size (suc n) (new_connection uninitialised buffer ∷ conns)
unfolding active held
IsFreshTable-cons {ret_size} uninitialised buffer {conns} len v = record {
  sized = ap suc v.sized;
  idle = omega (arith, v.idle);
  connections = all;
  empty = λ j n. omega (
    arith,
    count-append j (replicate max_tasks_per_client no_task) (held conns),
    count-replicate j max_tasks_per_client n,
    v.empty j n,
  );
}
  where
    fresh_connection : IsConnection ret_size (new_connection uninitialised buffer)
    fresh_connection = record {
      buffer = len;
      partial = omega arith;
      cells = length-replicate max_tasks_per_client no_task;
      idle = λ _ j n. count-replicate j max_tasks_per_client n;
    }

    all : Each (λ _. IsConnection ret_size) (new_connection uninitialised buffer ∷ conns)
    all zero x e = subst (IsConnection ret_size) (some-injective _ _ e) fresh_connection
    all (suc i) x e = v.connections i x e
