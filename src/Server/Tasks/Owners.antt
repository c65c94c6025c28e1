-- ===== src/Server/Tasks/Owners.antt =====
-- The invariant of the task pool: how the statuses, the counters, the search mark and the task lists
-- of all connections fit together, and what the functions on the pool alone do to it.
pub mod Taken
use computing_cluster.Base.{
  ℕ, zero, suc, ◌+◌, ◌≤◌, ◌<◌, ◌≡◌, ◌≢◌, refl, sym, ◌∙◌, List, [], ◌∷◌, ◌++◌, none, some, arith,
  ◌==◌, inl, inr, ltb, if◌then◌else◌, length, get_elem?, set, Option-cases, Bool-cases, ==_iff,
  true, inc64, length-set, get_elem?-lt,
}
use computing_cluster.Base.Count.{count, count-append, hit}
use computing_cluster.Config.{no_task}
use computing_cluster.Server.Types.{
  Status, not_resolved, resolving, completed, TaskInfo, TaskPool, Connection,
}
use computing_cluster.Server.Tasks.{complete, with_status}
use computing_cluster.Server.Tasks.Statuses.{
  agree, tally, status_at, status_at-eq, status_at-none, tally-le-length, tally-set, status_at-set,
}

-- The cells of all connections in one list.
unfoldable pub held : List Connection → List ℕ
held [] = []
held (c ∷ cs) = c.task_list ++ held cs

pub count-held-set :
    (j : ℕ) (conns : List Connection) (i : ℕ) (old new : Connection)
    → get_elem? conns i ≡ some old
    → count j (held (set conns i new)) + count j old.task_list
      ≡ count j (held conns) + count j new.task_list
unfolding held
count-held-set j [] i old new e = cc
count-held-set j (c ∷ conns) zero old new e =
    ground
      (arith, count-append j c.task_list (held conns), count-append j new.task_list (held conns))
count-held-set j (c ∷ conns) (suc i) old new e = omega (
  arith,
  count-append j c.task_list (held conns),
  count-append j c.task_list (held (set conns i new)),
  count-held-set j conns i old new e,
)

-- `owners j` is how many cells hold task `j`. A task is RESOLVING exactly if one cell holds it, and
-- no cell holds a number that is no task; the counters count; below the mark nothing is to be given.
pub record PoolInv (p : TaskPool) (owners : ℕ → ℕ) : Type 0 where
  pub sized : length p.task_manager ≡ p.num_tasks
  pub small : p.num_tasks ≤ 2147483648
  pub unresolved : p.num_not_resolved ≡ tally not_resolved p.task_manager
  pub done : p.num_completed ≡ tally completed p.task_manager
  pub mark_le : p.min_not_resolved_task ≤ p.num_tasks
  pub below : (j : ℕ) → j < p.min_not_resolved_task → status_at not_resolved p.task_manager j ≡ 0
  pub owned : (j : ℕ) → j ≢ no_task → owners j ≡ status_at resolving p.task_manager j

pub PoolInv-congr :
    {p : TaskPool} (f g : ℕ → ℕ) → ((j : ℕ) → j ≢ no_task → f j ≡ g j) → PoolInv p f → PoolInv p g
PoolInv-congr f g h v = record {
  sized = v.sized;
  small = v.small;
  unresolved = v.unresolved;
  done = v.done;
  mark_le = v.mark_le;
  below = v.below;
  owned = λ j n. sym (h j n) ∙ v.owned j n;
}

-- What a task that some cell holds is.
pub record IsHeld (p : TaskPool) (t : ℕ) : Type 0 where
  pub info : TaskInfo
  pub there : get_elem? p.task_manager t ≡ some info
  pub busy : info.status ≡ resolving
  pub bound : t < p.num_tasks

agree_resolving : (s : Status) → 0 < agree resolving s → s ≡ resolving
agree_resolving not_resolved h = absurd (omega arith)
agree_resolving resolving h = refl
agree_resolving completed h = absurd (omega arith)

pub PoolInv-IsHeld :
    {p : TaskPool} (owners : ℕ → ℕ) (t : ℕ)
    → PoolInv p owners
    → t ≢ no_task
    → 0 < owners t
    → IsHeld p t
PoolInv-IsHeld {p} owners t v n h = elim (Option-cases (get_elem? p.task_manager t)) [
  | inl out ↦ absurd (out_of_range out)
  | inr (info, e) ↦ record {
    info = info;
    there = e;
    busy =
        agree_resolving info.status
          (omega (arith, v.owned t n, status_at-eq resolving p.task_manager t info e));
    bound = omega (arith, v.sized, get_elem?-lt p.task_manager t e);
  }
]
  where
    out_of_range : get_elem? p.task_manager t ≡ none → ⊥
    out_of_range e = omega (arith, v.owned t n, status_at-none resolving p.task_manager t e)

-- A task whose status changes, with the counters and the mark that go with it.
abbrev pub retag :
    TaskPool → (i : ℕ) → TaskInfo → Status → (num_not_resolved num_completed mark : ℕ) → TaskPool
retag p i t s nr nc mark = record p {
  task_manager = set p.task_manager i (with_status t s);
  num_not_resolved = nr;
  num_completed = nc;
  min_not_resolved_task = mark;
}

pub retag-PoolInv :
    {p : TaskPool} (f g : ℕ → ℕ) (i : ℕ) (t : TaskInfo) (s : Status) (nr nc mark : ℕ)
    → PoolInv p f
    → get_elem? p.task_manager i ≡ some t
    → nr + agree not_resolved t.status ≡ p.num_not_resolved + agree not_resolved s
    → nc + agree completed t.status ≡ p.num_completed + agree completed s
    → mark ≤ p.num_tasks
    → ((j : ℕ) → j < mark → j ≢ i → status_at not_resolved p.task_manager j ≡ 0)
    → (i < mark → agree not_resolved s ≡ 0)
    → ((j : ℕ) → j ≢ no_task → g j ≡ (if i == j then agree resolving s else f j))
    → PoolInv (retag p i t s nr nc mark) g
retag-PoolInv {p} f g i t s nr nc mark v there hr hc le low self own = record {
  sized = omega (arith, length-set p.task_manager i (with_status t s), v.sized);
  small = v.small;
  unresolved = omega (arith, tally-set not_resolved s p.task_manager i t there, v.unresolved);
  done = omega (arith, tally-set completed s p.task_manager i t there, v.done);
  mark_le = le;
  below = λ j b. status_at-set not_resolved s p.task_manager i j t bound ∙ lower j b;
  owned = λ j n. own j n ∙ same j n ∙ sym (status_at-set resolving s p.task_manager i j t bound);
}
  where
    bound : i < length p.task_manager
    bound = get_elem?-lt p.task_manager i there

    lower :
        (j : ℕ)
        → j < mark
        → (if i == j then agree not_resolved s else status_at not_resolved p.task_manager j) ≡ 0
    lower j b = elim (Bool-cases (i == j)) [
      | inl e ↦ rw e (self (ground arith))
      | inr n ↦ rw n (low j b (ground arith))
    ]

    same :
        (j : ℕ)
        → j ≢ no_task
        → (if i == j then agree resolving s else f j)
          ≡ (if i == j then agree resolving s else status_at resolving p.task_manager j)
    same j n = rw (v.owned j n)

-- Who holds a task follows from its status.
pub owner_at :
    {p : TaskPool} (owners : ℕ → ℕ) (i j : ℕ) (t : TaskInfo)
    → PoolInv p owners
    → get_elem? p.task_manager i ≡ some t
    → (i == j) ≡ true
    → j ≢ no_task
    → owners j ≡ agree resolving t.status
owner_at {p} owners i j t v there e n =
    v.owned j n ∙ rw (← ((==_iff i j).0 e)) (status_at-eq resolving p.task_manager i t there)

pub complete-PoolInv :
    {p : TaskPool} (owners : ℕ → ℕ) (t : ℕ) (h : IsHeld p t)
    → t ≢ no_task
    → PoolInv p (λ j. hit j t + owners j)
    → PoolInv (complete p t h.info) owners
complete-PoolInv {p} owners t h n v =
    retag-PoolInv _ owners t h.info completed _ _ _ v h.there (rw h.busy (omega arith))
      (rw h.busy
        (omega (arith, v.done, tally-le-length completed p.task_manager, v.sized, v.small)))
      v.mark_le (λ j a e. v.below j a) (λ a. refl)
      (λ j m. elim (Bool-cases (t == j)) [
        | inl e ↦
            rw e
              (ground (arith, owner_at (λ j. hit j t + owners j) t j h.info v h.there e m, h.busy))
        | inr e ↦ rw e (ground arith)
      ])

-- The state that a round of drop_resolving_tasks leaves when the cell holds a task.
abbrev pub dropped : TaskPool → (cell : ℕ) → TaskInfo → TaskPool
dropped p cell t =
    retag p cell t not_resolved (inc64 p.num_not_resolved) p.num_completed
      (if ltb cell p.min_not_resolved_task then cell else p.min_not_resolved_task)

pub dropped-PoolInv :
    {p : TaskPool} (owners : ℕ → ℕ) (cell : ℕ)
    → PoolInv p (λ j. hit j cell + owners j)
    → (h : IsHeld p cell) → PoolInv (dropped p cell h.info) owners
dropped-PoolInv {p} owners cell v h =
    retag-PoolInv _ owners cell h.info not_resolved _ _ _ v h.there
      (rw h.busy (
        omega (arith, v.unresolved, tally-le-length not_resolved p.task_manager, v.sized, v.small)))
      (rw h.busy (omega arith)) (ground (arith, v.mark_le)) (λ j a e. v.below j (ground arith))
      (λ a. absurd (ground arith))
      (λ j m. elim (Bool-cases (cell == j)) [
        | inl e ↦ rw e (
            ground
              (arith, owner_at (λ j. hit j cell + owners j) cell j h.info v h.there e m, h.busy))
        | inr e ↦ rw e (ground arith)
      ])

-- A connection's own cells are among those of all.
pub count-le-held :
    (j : ℕ) (conns : List Connection) (i : ℕ) (c : Connection)
    → get_elem? conns i ≡ some c
    → count j c.task_list ≤ count j (held conns)
unfolding held
count-le-held j [] i c e = cc
count-le-held j (x ∷ conns) zero c e = ground (arith, count-append j x.task_list (held conns))
count-le-held j (x ∷ conns) (suc i) c e =
    omega (arith, count-append j x.task_list (held conns), count-le-held j conns i c e)
