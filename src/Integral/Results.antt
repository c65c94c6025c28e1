-- ===== src/Integral/Results.antt =====
-- The results of the example program: what main() of integral-computation/computation-server.c adds up.
use computing_cluster.Base.{
  ℕ, zero, suc, ◌+◌, ◌*◌, ◌<◌, ◌≡◌, refl, sym, subst, inl, inr, false, List, some, arith, length,
  replicate, length-replicate, leb, ◌==◌, Bool-cases,
}
use native.Mathlib.Decide.{dec_lt}
use computing_cluster.Config.{RequestHeader}
use computing_cluster.Wire.{ByteOrder}
use computing_cluster.System.Outcome.{Ensures}
use computing_cluster.System.Kernel.{Kernel, Answer, done, failed, malloc}
use computing_cluster.System.Action.{World, Action, get, ◌>>=◌, ◌>>◌, lift}
use computing_cluster.System.Packs.{pack}
use computing_cluster.System.Rules.{Leads, Keeps, Leads-bind, Leads-lift}
use computing_cluster.Server.Types.{Connection, ClusterServerHandle}
use computing_cluster.Server.Ledger.View.{ledger}
use computing_cluster.Server.Ledger.Loop.{AllDone}
use computing_cluster.Server.Setup.{compute_task}
use computing_cluster.Server.Setup.Account.{Served, compute_task-AllDone}
use computing_cluster.Server.Setup.Stages.{AllocatesInFull}
use computing_cluster.Integral.Double.{Double, load_double, nought}
use computing_cluster.Integral.ComputationServer.{
  num_tasks, sizeof_task_data, sizeof_ret_data, or_bug, calloc, fill_tasks, sum_results, main,
}
use computing_cluster.Integral.Tasks.{length-fill_tasks}

or_bug-Keeps : (P : ClusterServerHandle → Type 0) (r : Answer ℕ) → Keeps P (or_bug r)
or_bug-Keeps P (done n) w p = p
or_bug-Keeps P (failed e) w p = tt

calloc_then :
    {A : Type 0} (R : A → ClusterServerHandle → Type 0) (os : Kernel) (size : ℕ)
    (k : Action ClusterServerHandle A) (w : World ClusterServerHandle)
    → ((w' : World ClusterServerHandle) → Leads k w' R)
    → Leads (calloc os size >> k) w R
calloc_then R os size k w h =
    Leads-bind (λ _ _. Unit) R (calloc os size) (λ _. k) w
      (or_bug-Keeps (λ _. Unit) (os.status w.trace (malloc size)) _ tt) (λ _ w' _. h w')

module _ (W : Type 0) ⦃d : Double W⦄ where
  -- Result j, as it lies in the array of the user, and the sum of the first n, left to right.
  abbrev pub result_at : ByteOrder → (rets : List ℕ) → (j : ℕ) → W
  result_at host rets j = load_double host (pack rets (j * sizeof_ret_data) sizeof_ret_data)

  abbrev pub total : ByteOrder → (rets : List ℕ) → (n : ℕ) → W
  total host rets zero = nought
  total host rets (suc n) = d.add (total host rets n) (result_at host rets n)

  -- A NaN is the double that is not itself.
  abbrev pub NoneIsNan : ByteOrder → (rets : List ℕ) → (n : ℕ) → Type 0
  NoneIsNan host rets n =
      (j : ℕ) → j < n → d.ne (result_at host rets j) (result_at host rets j) ≡ false

  one_more :
      (host : ByteOrder) (rets : List ℕ) (n : ℕ)
      → NoneIsNan host rets n
      → d.ne (result_at host rets n) (result_at host rets n) ≡ false
      → NoneIsNan host rets (suc n)
  one_more host rets n all fine j bound = elim (dec_lt j n) [
    | yes less ↦ all j less
    | no over ↦
        subst (λ i. d.ne (result_at host rets i) (result_at host rets i) ≡ false) (omega arith) fine
  ]

  sum_results-total :
      (host : ByteOrder) (rets : List ℕ) (n : ℕ) (Q : W → Type 0) (left k : ℕ)
      → (NoneIsNan host rets n → Q (total host rets n))
      → k + left ≡ n
      → NoneIsNan host rets k
      → Ensures Q (sum_results host left k (total host rets k) rets)
  unfolding sum_results
  sum_results-total host rets n Q zero k q sum all =
      let whole : k ≡ n = omega arith in
      subst (λ i. Q (total host rets i)) (sym whole) (q (subst (NoneIsNan host rets) whole all))
  sum_results-total host rets n Q (suc left) k q sum all =
      elim (Bool-cases (leb (k * 8 + 8) (length rets))) [
        | inl fits ↦
            rw fits (elim (Bool-cases (d.ne (result_at host rets k) (result_at host rets k))) [
              | inl nan ↦ rw nan tt
              | inr fine ↦ rw fine (
                  subst (λ i. Ensures Q (sum_results host left i (total host rets (suc k)) rets))
                    (omega arith)
                    (sum_results-total host rets n Q left (suc k) q (omega arith)
                      (one_more host rets k all fine)))
            ])
        | inr over ↦ rw over tt
      ]

  -- What the server's program leaves: every task has a value, and the result is the sum of the values,
  -- read as doubles, in the order of the tasks.
  pub record Sums (result : W) (h : ClusterServerHandle) : Type 0 where
    pub all_done : AllDone num_tasks (ledger h)
    pub sum : result ≡ total h.host h.user_rets num_tasks
    pub numbers : NoneIsNan h.host h.user_rets num_tasks

module _ (W : Type 0) ⦃d : Double W⦄ (os : Kernel) (rounds fuel : ℕ) (conn : Connection)
    (header : RequestHeader) where
  abbrev run_and_sum : Action ClusterServerHandle W
  run_and_sum = do
    h ← get
    compute_task os rounds fuel conn header num_tasks (some (fill_tasks W h.host num_tasks 0))
        sizeof_task_data (some (replicate (num_tasks * sizeof_ret_data) 0)) sizeof_ret_data
    h' ← get
    lift (sum_results {W = W} h'.host num_tasks 0 nought h'.user_rets)

  run_and_sum-Sums :
      AllocatesInFull os → (w : World ClusterServerHandle) → Leads run_and_sum w (Sums W)
  run_and_sum-Sums mem w =
      let tasks = fill_tasks W w.handle.host num_tasks 0 in
      let rets : List ℕ = replicate (num_tasks * sizeof_ret_data) 0 in
      Leads-bind (λ _. Served num_tasks) (Sums W)
        (compute_task os rounds fuel conn header num_tasks (some tasks) sizeof_task_data (some rets)
          sizeof_ret_data)
        _ w
        (compute_task-AllDone os rounds fuel conn header num_tasks tasks sizeof_task_data rets
          sizeof_ret_data w mem (omega arith) (omega arith)
          (length-fill_tasks W w.handle.host num_tasks 0)
          (length-replicate {A = ℕ} (num_tasks * sizeof_ret_data) 0))
        λ _ w' finished.
          Leads-lift (Sums W)
            (sum_results {W = W} w'.handle.host num_tasks 0 nought w'.handle.user_rets) w'
            (sum_results-total W w'.handle.host w'.handle.user_rets num_tasks
              (λ r. Sums W r w'.handle) num_tasks 0
              (λ fine. record { all_done = finished; sum = refl; numbers = fine }) refl
              (λ j none. absurd (omega arith)))

  -- With a kernel whose malloc() answers with blocks of the size that was asked for: whatever the
  -- network does and however often main() was given an argument, where it returns, every one of the
  -- twelve tasks has a value, the result is the sum, from the first to the last, of the doubles that
  -- the values are on the server's host, and none of these is a NaN.
  pub main-Sums :
      (argc : ℕ) (w : World ClusterServerHandle)
      → AllocatesInFull os
      → Leads (main W os rounds fuel conn header argc) w (Sums W)
  unfolding main
  main-Sums argc w mem = elim (Bool-cases (argc == 1)) [
    | inl one ↦ rw one (
        calloc_then (Sums W) os (num_tasks * sizeof_task_data)
          (calloc os (num_tasks * sizeof_ret_data) >> run_and_sum) w
          λ w₁.
            calloc_then (Sums W) os (num_tasks * sizeof_ret_data) run_and_sum w₁
              (run_and_sum-Sums mem))
    | inr other ↦ rw other tt
  ]
