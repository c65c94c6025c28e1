-- ===== src/Server/Tasks/Owners/Taken.antt =====
-- take_task: the first task that is to be given is found from the mark on, and becomes RESOLVING.
use computing_cluster.Base.{
  ℕ, ◌+◌, ◌<◌, ◌≡◌, refl, ap, ◌∙◌, none, some, arith, ◌==◌, inl, inr, get_elem?, Option-cases,
  Bool-cases, dec64, get_elem?-lt,
}
use native.Mathlib.Decide.{dec_le}
use computing_cluster.Base.Count.{hit}
use computing_cluster.System.Outcome.{ok, exits, bug}
use computing_cluster.Server.Types.{not_resolved, resolving, TaskInfo, TaskPool}
use computing_cluster.Server.Tasks.{find_task, take_task}
use computing_cluster.Server.Tasks.Statuses.{
  agree, status_at-eq, status_at-le-tally, tally_none, tally-le-length, IsFirst, find_task-IsFirst,
  find_task-none,
}
use computing_cluster.Server.Tasks.Owners.{owner_at, PoolInv, retag, retag-PoolInv}

-- The state that take_task leaves when it finds task `i`.
abbrev pub taken : TaskPool → (i : ℕ) → TaskInfo → TaskPool
taken p i t = retag p i t resolving (dec64 p.num_not_resolved) p.num_completed (i + 1)

take_task-eq :
    (p : TaskPool) (i : ℕ) (t : TaskInfo)
    → find_task p.task_manager p.min_not_resolved_task ≡ some i
    → get_elem? p.task_manager i ≡ some t
    → take_task p ≡ ok (i, taken p i t)
unfolding take_task
take_task-eq p i t e there = rw (e, take_task, there)

-- The mark loses no task: what is found from it on is the first in the whole pool.
found-IsFirst :
    {p : TaskPool} {owners : ℕ → ℕ} (i : ℕ)
    → PoolInv p owners
    → find_task p.task_manager p.min_not_resolved_task ≡ some i
    → IsFirst p.task_manager 0 i
found-IsFirst {p} i v e =
    let f = find_task-IsFirst p.task_manager p.min_not_resolved_task i e in
    record {
      from = omega arith;
      info = f.info;
      there = f.there;
      free = f.free;
      earlier = λ j a b. elim (dec_le p.min_not_resolved_task j) [
        | yes h ↦ f.earlier j h b
        | no h ↦ v.below j (omega arith)
      ];
    }

found_none :
    {p : TaskPool} {owners : ℕ → ℕ}
    → PoolInv p owners
    → find_task p.task_manager p.min_not_resolved_task ≡ none
    → p.num_not_resolved ≡ 0
found_none {p} v e =
    v.unresolved
    ∙ tally_none not_resolved p.task_manager λ j. elim (dec_le p.min_not_resolved_task j) [
      | yes h ↦ find_task-none p.task_manager p.min_not_resolved_task e j h
      | no h ↦ v.below j (omega arith)
    ]

taken-PoolInv :
    {p : TaskPool} (owners : ℕ → ℕ) (i : ℕ)
    → PoolInv p owners
    → (f : IsFirst p.task_manager 0 i) → PoolInv (taken p i f.info) (λ j. hit j i + owners j)
taken-PoolInv {p} owners i v f =
    retag-PoolInv owners _ i f.info resolving _ _ _ v f.there
      (rw f.free (
        omega (
          arith,
          v.unresolved,
          status_at-le-tally not_resolved p.task_manager i,
          status_at-eq not_resolved p.task_manager i f.info f.there,
          ap (agree not_resolved) f.free,
          tally-le-length not_resolved p.task_manager,
          v.sized,
          v.small,
        )))
      (rw f.free (omega arith)) (omega (arith, get_elem?-lt p.task_manager i f.there, v.sized))
      (λ j a n. f.earlier j (omega arith) (omega arith)) (λ a. refl)
      (λ j n. elim (Bool-cases (i == j)) [
        | inl e ↦ rw e (ground (arith, owner_at owners i j f.info v f.there e n, f.free))
        | inr e ↦ rw e (ground arith)
      ])

-- As long as the counter says that a task is to be given, the first such task is taken.
pub take_task_lem :
    {p : TaskPool} (owners : ℕ → ℕ)
    → PoolInv p owners
    → 0 < p.num_not_resolved
    → (i : ℕ) × (f : IsFirst p.task_manager 0 i) × (take_task p ≡ ok (i, taken p i f.info))
      × (i < p.num_tasks)
      × PoolInv (taken p i f.info) (λ j. hit j i + owners j)
take_task_lem {p} owners v h =
    elim (Option-cases (find_task p.task_manager p.min_not_resolved_task)) [
      | inl e ↦ absurd (omega (arith, found_none v e))
      | inr (i, e) ↦
          let f = found-IsFirst i v e in
          (
            i,
            f,
            take_task-eq p i f.info e f.there,
            omega (arith, get_elem?-lt p.task_manager i f.there, v.sized),
            taken-PoolInv owners i v f,
          )
    ]

-- An empty pool makes the server give up.
pub take_task_greedy :
    {p : TaskPool} (owners : ℕ → ℕ)
    → PoolInv p owners
    → p.num_not_resolved ≡ 0
    → take_task p ≡ exits bug
unfolding take_task
take_task_greedy {p} owners v h =
    elim (Option-cases (find_task p.task_manager p.min_not_resolved_task)) [
      | inl e ↦ rw (e, take_task) (ground (arith, v.mark_le))
      | inr (i, e) ↦
          let f = found-IsFirst i v e in
          absurd (
            omega (
              arith,
              v.unresolved,
              status_at-le-tally not_resolved p.task_manager i,
              status_at-eq not_resolved p.task_manager i f.info f.there,
              ap (agree not_resolved) f.free,
            ))
    ]
