-- ===== src/Server/Tasks/Cells.antt =====
-- The cells of a task list: what placing, freeing and clearing do to the tasks in them.
use computing_cluster.Base.{
  ℕ, ◌+◌, ◌<◌, ◌≡◌, ◌≢◌, refl, ap, suc, List, [], ◌∷◌, none, some, arith, ◌==◌, inl, inr, length,
  get_elem?, Option-cases, Bool-cases, ◌⊎◌,
}
use computing_cluster.Base.Count.{count, hit}
use computing_cluster.Config.{no_task}
use computing_cluster.System.Outcome.{ok, exits, bug, >>=-eq-ok}
use computing_cluster.Server.Tasks.{place_task, free_cell, cleared}

-- The tasks of the new list are those of the old one and the placed one.
pub count-place_task :
    (cells : List ℕ) (task_i k : ℕ) (cells' : List ℕ)
    → place_task cells task_i ≡ some (k, cells')
    → task_i < 4294967296
    → (j : ℕ) → j ≢ no_task
    → count j cells' ≡ hit j task_i + count j cells
unfolding place_task count
count-place_task [] task_i k cells' e h j n = cc
count-place_task (c ∷ cells) task_i k cells' e h j n =
    elim (Option-cases (place_task cells task_i)) [
      | inl rest ↦ ground arith
      | inr ((k', more), rest) ↦ ground (arith, count-place_task cells task_i k' more rest h j n)
    ]

-- The cell that place_task names was free, and holds the task now.
pub place_task_cell :
    (cells : List ℕ) (task_i k : ℕ) (cells' : List ℕ)
    → place_task cells task_i ≡ some (k, cells')
    → task_i < 4294967296
    → (get_elem? cells k ≡ some no_task)
      × (get_elem? cells' k ≡ some task_i)
      × (length cells' ≡ length cells)
unfolding place_task
place_task_cell [] task_i k cells' e h = cc
place_task_cell (c ∷ cells) task_i k cells' e h = elim (Option-cases (place_task cells task_i)) [
  | inl rest ↦ ground arith
  | inr ((k', more), rest) ↦ ground (arith, place_task_cell cells task_i k' more rest h)
]

-- A list without a free cell is the only reason to fail.
pub place_task-none :
    (cells : List ℕ) (task_i : ℕ) → place_task cells task_i ≡ none → count no_task cells ≡ 0
unfolding place_task count
place_task-none [] task_i e = refl
place_task-none (c ∷ cells) task_i e =
    ground (arith, Option-cases (place_task cells task_i), place_task-none cells task_i)

-- Where a call of free_cell that succeeds found the task.
Cell-cases :
    (c t : ℕ) (cells : List ℕ) {cells' : List ℕ}
    → free_cell (c ∷ cells) t ≡ ok cells'
    → (c ≡ t) × (cells' ≡ no_task ∷ cells)
      ⊎ ((c ≢ t) × (more : List ℕ) × (free_cell cells t ≡ ok more) × (cells' ≡ c ∷ more))
unfolding free_cell
Cell-cases c t cells e = elim (Bool-cases (c == t)) [
  | inl here ↦ inl (ground arith)
  | inr miss ↦
      let (more, rest, e') = >>=-eq-ok (free_cell cells t) (λ l. ok (c ∷ l)) (rw miss at e) in
      inr (ground arith, more, rest, ground arith)
]

pub place_task_full :
    (cells : List ℕ) (task_i : ℕ) → count no_task cells ≡ 0 → place_task cells task_i ≡ none
unfolding place_task count
place_task_full [] task_i h = refl
place_task_full (c ∷ cells) task_i h = ground (arith, place_task_full cells task_i)

pub count-free_cell :
    (cells : List ℕ) (t : ℕ) (cells' : List ℕ)
    → free_cell cells t ≡ ok cells'
    → (j : ℕ) → j ≢ no_task
    → hit j t + count j cells' ≡ count j cells
unfolding free_cell count
count-free_cell [] t cells' e j n = cc
count-free_cell (c ∷ cells) t cells' e j n = elim (Cell-cases c t cells e) [
  | inl (here, e') ↦ rw e' (ground arith)
  | inr (miss, more, rest, e') ↦ rw e' (omega (arith, count-free_cell cells t more rest j n))
]

-- A task that is in the list is freed; of any other the loop complains.
pub free_cell_total :
    (cells : List ℕ) (t : ℕ)
    → 0 < count t cells
    → (cells' : List ℕ) × (free_cell cells t ≡ ok cells')
unfolding free_cell count
free_cell_total [] t h = absurd (omega arith)
free_cell_total (c ∷ cells) t h = elim (Bool-cases (c == t)) [
  | inl here ↦ (no_task ∷ cells, rw here)
  | inr miss ↦ let (more, e) = free_cell_total cells t (ground arith) in (c ∷ more, rw (miss, e))
]

pub free_cell_stranger :
    (cells : List ℕ) (t : ℕ) → count t cells ≡ 0 → free_cell cells t ≡ exits bug
unfolding free_cell count
free_cell_stranger [] t h = refl
free_cell_stranger (c ∷ cells) t h = ground (arith, free_cell_stranger cells t)

pub count-cleared : (j : ℕ) (cells : List ℕ) → j ≢ no_task → count j (cleared cells) ≡ 0
unfolding count
count-cleared j [] n = refl
count-cleared j (c ∷ cells) n = ground (arith, count-cleared j cells n)

free_cell_empty : (t : ℕ) {cells' : List ℕ} → ¬ (free_cell [] t ≡ ok cells')
unfolding free_cell
free_cell_empty t e = cc

pub length-free_cell :
    (cells : List ℕ) (t : ℕ) (cells' : List ℕ)
    → free_cell cells t ≡ ok cells'
    → length cells' ≡ length cells
length-free_cell [] t cells' e = absurd (free_cell_empty t e)
length-free_cell (c ∷ cells) t cells' e = elim (Cell-cases c t cells e) [
  | inl (here, e') ↦ rw e'
  | inr (miss, more, rest, e') ↦ rw e' (ap suc (length-free_cell cells t more rest))
]
