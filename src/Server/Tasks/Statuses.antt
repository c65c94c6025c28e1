-- ===== src/Server/Tasks/Statuses.antt =====
-- Tallies of the statuses in the task manager, and the search for a task that is NOT_RESOLVED.
use mathlib.Core.Option
use computing_cluster.Base.{
  ℕ, zero, suc, ◌+◌, ◌≤◌, ◌<◌, ◌≡◌, refl, List, [], ◌∷◌, Option, none, some, arith, ◌==◌, inl, inr,
  if◌then◌else◌, length, get_elem?, set, Option-cases, Bool-cases,
}
use native.Mathlib.Decide.{dec_le}
use computing_cluster.Server.Types.{
  Status, not_resolved, resolving, completed, TaskInfo, is_not_resolved,
}
use computing_cluster.Server.Tasks.{find_task, with_status}

-- 1 where the two agree.
abbrev pub agree : Status → Status → ℕ
agree not_resolved not_resolved = 1
agree resolving resolving = 1
agree completed completed = 1
agree _ _ = 0

agree-le : (s t : Status) → agree s t ≤ 1
agree-le s t = ground arith

-- How many tasks have the status.
unfoldable pub tally : Status → List TaskInfo → ℕ
tally s [] = 0
tally s (t ∷ ts) = agree s t.status + tally s ts

-- 1 where task `i` is there and has the status.
unfoldable pub status_at : Status → List TaskInfo → ℕ → ℕ
status_at s [] i = 0
status_at s (t ∷ ts) zero = agree s t.status
status_at s (t ∷ ts) (suc i) = status_at s ts i

pub status_at-eq :
    (s : Status) (ts : List TaskInfo) (i : ℕ) (t : TaskInfo)
    → get_elem? ts i ≡ some t
    → status_at s ts i ≡ agree s t.status
unfolding status_at
status_at-eq s [] i t e = cc
status_at-eq s (x ∷ ts) zero t e = ground arith
status_at-eq s (x ∷ ts) (suc i) t e = status_at-eq s ts i t e

pub status_at-out : (s : Status) (ts : List TaskInfo) (i : ℕ) → length ts ≤ i → status_at s ts i ≡ 0
unfolding status_at
status_at-out s [] i h = refl
status_at-out s (t ∷ ts) zero h = absurd (omega arith)
status_at-out s (t ∷ ts) (suc i) h = status_at-out s ts i (omega arith)

pub status_at-none :
    (s : Status) (ts : List TaskInfo) (i : ℕ) → get_elem? ts i ≡ none → status_at s ts i ≡ 0
unfolding status_at
status_at-none s [] i e = refl
status_at-none s (t ∷ ts) zero e = cc
status_at-none s (t ∷ ts) (suc i) e = status_at-none s ts i e

pub status_at-le-tally : (s : Status) (ts : List TaskInfo) (i : ℕ) → status_at s ts i ≤ tally s ts
unfolding status_at tally
status_at-le-tally s [] i = omega arith
status_at-le-tally s (t ∷ ts) zero = omega arith
status_at-le-tally s (t ∷ ts) (suc i) = omega (arith, status_at-le-tally s ts i)

pub tally_none :
    (s : Status) (ts : List TaskInfo) → ((i : ℕ) → status_at s ts i ≡ 0) → tally s ts ≡ 0
unfolding status_at tally
tally_none s [] h = refl
tally_none s (t ∷ ts) h = omega (arith, h 0, tally_none s ts (λ i. h (suc i)))

pub tally-le-length : (s : Status) (ts : List TaskInfo) → tally s ts ≤ length ts
unfolding tally
tally-le-length s [] = omega arith
tally-le-length s (t ∷ ts) = ground (arith, tally-le-length s ts)

pub tally_full :
    (s : Status) (ts : List TaskInfo) (i : ℕ)
    → tally s ts ≡ length ts
    → i < length ts
    → status_at s ts i ≡ 1
unfolding status_at tally
tally_full s [] i e h = absurd (omega arith)
tally_full s (t ∷ ts) zero e h = omega (arith, tally-le-length s ts, agree-le s t.status)
tally_full s (t ∷ ts) (suc i) e h =
    tally_full s ts i (omega (arith, tally-le-length s ts, agree-le s t.status)) (omega arith)

-- Every task has one of the three statuses.
pub tally_partition :
    (ts : List TaskInfo)
    → tally not_resolved ts + tally resolving ts + tally completed ts ≡ length ts
unfolding tally
tally_partition [] = omega arith
tally_partition (t ∷ ts) = ground (arith, tally_partition ts)

pub tally-set :
    (s s' : Status) (ts : List TaskInfo) (i : ℕ) (t : TaskInfo)
    → get_elem? ts i ≡ some t
    → tally s (set ts i (with_status t s')) + agree s t.status ≡ tally s ts + agree s s'
unfolding tally
tally-set s s' [] i t e = cc
tally-set s s' (x ∷ ts) zero t e = ground arith
tally-set s s' (x ∷ ts) (suc i) t e = omega (arith, tally-set s s' ts i t e)

pub status_at-set :
    (s s' : Status) (ts : List TaskInfo) (i j : ℕ) (t : TaskInfo)
    → i < length ts
    → status_at s (set ts i (with_status t s')) j
      ≡ (if i == j then agree s s' else status_at s ts j)
unfolding status_at
status_at-set s s' [] i j t h = absurd (omega arith)
status_at-set s s' (x ∷ ts) zero zero t h = refl
status_at-set s s' (x ∷ ts) zero (suc j) t h = ground arith
status_at-set s s' (x ∷ ts) (suc i) zero t h = ground arith
status_at-set s s' (x ∷ ts) (suc i) (suc j) t h = ground (arith, status_at-set s s' ts i j t)

-- The same as a balance.
pub status_at-move :
    (s s' : Status) (ts : List TaskInfo) (i j : ℕ) (t : TaskInfo)
    → get_elem? ts i ≡ some t
    → status_at s (set ts i (with_status t s')) j + (if i == j then agree s t.status else 0)
      ≡ status_at s ts j + (if i == j then agree s s' else 0)
unfolding status_at
status_at-move s s' [] i j t e = cc
status_at-move s s' (x ∷ ts) zero zero t e = ground arith
status_at-move s s' (x ∷ ts) zero (suc j) t e = ground arith
status_at-move s s' (x ∷ ts) (suc i) zero t e = ground arith
status_at-move s s' (x ∷ ts) (suc i) (suc j) t e = ground (arith, status_at-move s s' ts i j t e)

-- What find_task finds: the first NOT_RESOLVED task from `k` on.
pub record IsFirst (ts : List TaskInfo) (k i : ℕ) : Type 0 where
  pub from : k ≤ i
  pub info : TaskInfo
  pub there : get_elem? ts i ≡ some info
  pub free : info.status ≡ not_resolved
  pub earlier : (j : ℕ) → k ≤ j → j < i → status_at not_resolved ts j ≡ 0

map-suc-eq-some : (o : Option ℕ) {i : ℕ} → Option.map suc o ≡ some (suc i) → o ≡ some i
map-suc-eq-some none e = cc
map-suc-eq-some (some j) e = ground arith

map-suc-ne-zero : (o : Option ℕ) → ¬ (Option.map suc o ≡ some 0)
map-suc-ne-zero none e = cc
map-suc-ne-zero (some j) e = ground arith

IsFirst-cons :
    (t : TaskInfo) (ts : List TaskInfo) (k k' i : ℕ)
    → k' ≤ suc k
    → IsFirst ts k i
    → ((j : ℕ) → k' ≤ j → j ≤ k → status_at not_resolved (t ∷ ts) j ≡ 0)
    → IsFirst (t ∷ ts) k' (suc i)
unfolding status_at
IsFirst-cons t ts k k' i h f before = record {
  from = omega (arith, f.from);
  info = f.info;
  there = f.there;
  free = f.free;
  earlier = elim [
    | zero ↦ λ a b. before 0 a (omega arith)
    | suc j ↦ λ a b. elim (dec_le k j) [
      | yes p ↦ f.earlier j p (omega arith)
      | no p ↦ before (suc j) a (omega arith)
    ]
  ];
}

pub find_task-IsFirst : (ts : List TaskInfo) (k i : ℕ) → find_task ts k ≡ some i → IsFirst ts k i
unfolding find_task status_at
find_task-IsFirst [] k i e = cc
find_task-IsFirst (t ∷ ts) (suc k) zero e = absurd (map-suc-ne-zero _ e)
find_task-IsFirst (t ∷ ts) (suc k) (suc i) e =
    IsFirst-cons t ts k (suc k) i (omega arith) (find_task-IsFirst ts k i (map-suc-eq-some _ e))
      (λ j a b. absurd (omega arith))
find_task-IsFirst (t ∷ ts) zero zero e = record {
  from = omega arith;
  info = t;
  there = refl;
  free = ground (arith, map-suc-ne-zero (find_task ts zero));
  earlier = λ j a b. absurd (omega arith);
}
find_task-IsFirst (t ∷ ts) zero (suc i) e = elim (Bool-cases (is_not_resolved t.status)) [
  | inl here ↦ absurd (ground arith)
  | inr busy ↦
      IsFirst-cons t ts zero zero i (omega arith)
        (find_task-IsFirst ts zero i (map-suc-eq-some _ (rw busy at e)))
        (λ j a b. let z : j ≡ 0 = omega arith in rw z (ground arith))
]

pub find_task-none :
    (ts : List TaskInfo) (k : ℕ)
    → find_task ts k ≡ none
    → (j : ℕ) → k ≤ j
    → status_at not_resolved ts j ≡ 0
unfolding find_task status_at
find_task-none [] k e j h = refl
find_task-none (t ∷ ts) zero e zero h = ground arith
find_task-none (t ∷ ts) zero e (suc j) h =
    find_task-none ts zero (ground (arith, Option-cases (find_task ts zero))) j (omega arith)
find_task-none (t ∷ ts) (suc k) e zero h = absurd (omega arith)
find_task-none (t ∷ ts) (suc k) e (suc j) h =
    find_task-none ts k (ground (arith, Option-cases (find_task ts k))) j (omega arith)
