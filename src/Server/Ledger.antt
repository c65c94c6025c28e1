-- ===== src/Server/Ledger.antt =====
-- What the server promises of the tasks, without its tables, counters and connections: an account of
-- what each task is, and the three ways in which it may change.
pub mod View
pub mod Refines
pub mod Operations
pub mod Loop
use computing_cluster.Base.{
  ℕ, ◌<◌, ◌≡◌, ◌≢◌, refl, sym, ◌∙◌, Bool, true, false, List, arith, inl, inr, ◌==◌, ltb,
  if◌then◌else◌, Bool-cases,
}

-- A number that is no task's is `absent`. A task that is done has a value.
pub data Mark : Type 0 where
  absent waiting given : Mark
  done : List ℕ → Mark

abbrev pub Ledger : Type 0
Ledger = ℕ → Mark

abbrev pub update : Ledger → ℕ → Mark → Ledger
update l t m j = if t == j then m else l j

abbrev pub give_back : Ledger → (lost : ℕ → Bool) → Ledger
give_back l lost j = if lost j then waiting else l j

-- The first task that waits is given; a task that is given gets its value; any of the tasks that are
-- given come back together.
pub data Step (l : Ledger) : Ledger → Type 0 where
  give : (t : ℕ) → l t ≡ waiting → ((j : ℕ) → j < t → l j ≢ waiting) → Step l (update l t given)
  collect : (t : ℕ) (value : List ℕ) → l t ≡ given → Step l (update l t (done value))
  release : (lost : ℕ → Bool) → ((j : ℕ) → lost j ≡ true → l j ≡ given) → Step l (give_back l lost)

pub data Reach (l : Ledger) : Ledger → Type 0 where
  here : Reach l l
  next : {m n : Ledger} → Reach l m → Step m n → Reach l n

-- Before any task was given.
abbrev pub all_waiting : (num_tasks : ℕ) → Ledger
all_waiting num_tasks j = if ltb j num_tasks then waiting else absent

given-ne-done : {value : List ℕ} → given ≢ done value
given-ne-done e = cc

-- A value is final.
Step-done : {l m : Ledger} (j : ℕ) (value : List ℕ) → Step l m → l j ≡ done value → m j ≡ done value
Step-done {l} j value (give t w first) d = elim (Bool-cases (t == j)) [
  | inl e ↦
      let same : t ≡ j = ground arith in
      absurd (let x : waiting ≡ done value = sym w ∙ rw same d in cc)
  | inr e ↦ rw (e, d)
]
Step-done {l} j value (collect t v g) d = elim (Bool-cases (t == j)) [
  | inl e ↦
      let same : t ≡ j = ground arith in absurd (given-ne-done {value = value} (sym g ∙ rw same d))
  | inr e ↦ rw (e, d)
]
Step-done {l} j value (release lost g) d = elim (Bool-cases (lost j)) [
  | inl e ↦ absurd (given-ne-done (sym (g j e) ∙ d))
  | inr e ↦ rw (e, d)
]

pub Reach-done :
    {l m : Ledger} (j : ℕ) (value : List ℕ) → Reach l m → l j ≡ done value → m j ≡ done value
Reach-done j value here d = d
Reach-done j value (next r s) d = Step-done j value s (Reach-done j value r d)

-- A task stays a task.
Step-present : {l m : Ledger} (j : ℕ) → Step l m → l j ≢ absent → m j ≢ absent
Step-present {l} j (give t w first) p = elim (Bool-cases (t == j)) [
  | inl e ↦ rw e (λ x. cc)
  | inr e ↦ rw e p
]
Step-present {l} j (collect t v g) p = elim (Bool-cases (t == j)) [
  | inl e ↦ rw e (λ x. cc)
  | inr e ↦ rw e p
]
Step-present {l} j (release lost g) p = elim (Bool-cases (lost j)) [
  | inl e ↦ rw e (λ x. cc)
  | inr e ↦ rw e p
]

pub Reach-present : {l m : Ledger} (j : ℕ) → Reach l m → l j ≢ absent → m j ≢ absent
Reach-present j here p = p
Reach-present j (next r s) p = Step-present j s (Reach-present j r p)
