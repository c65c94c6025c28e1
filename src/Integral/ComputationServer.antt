-- ===== src/Integral/ComputationServer.antt =====
-- integral-computation/computation-server.c: the tasks, the run of the server, and the sum of the
-- results.
use computing_cluster.Base.{ℕ, zero, suc, ◌+◌, ◌*◌, not, List, [], ◌++◌, some, ◌==◌, replicate}
use computing_cluster.Config.{RequestHeader}
use computing_cluster.Wire.{ByteOrder}
use computing_cluster.System.Outcome.{Outcome, ok, bug, failure, bug_on, read_at}
use computing_cluster.System.Outcome
use computing_cluster.System.Kernel.{Kernel, Answer, done, failed, malloc}
use computing_cluster.System.Action.{Action, pure, ◌>>=◌, ◌>>◌, exit, get, lift, when, syscall}
use computing_cluster.Server.Types.{Connection, ClusterServerHandle}
use computing_cluster.Server.Setup.{compute_task}
use computing_cluster.Integral.Words.{store64, htobe64}
use computing_cluster.Integral.Double.{Double, load_double, nought}

abbrev pub num_tasks : ℕ
num_tasks = 12

-- sizeof(struct task_data) and sizeof(struct ret_data)
abbrev pub sizeof_task_data : ℕ
sizeof_task_data = 24

abbrev pub sizeof_ret_data : ℕ
sizeof_ret_data = 8

pub record TaskData (W : Type 0) : Type 0 where
  pub start : W
  pub end : W
  pub step : W

-- calloc(), with BUG_ON where it returns NULL.
abbrev pub or_bug : Answer ℕ → Action ClusterServerHandle ℕ
or_bug (done n) = pure n
or_bug (failed e) = exit bug

abbrev pub calloc : Kernel → (size : ℕ) → Action ClusterServerHandle ℕ
calloc os size = do r ← syscall os (malloc size); or_bug r

module _ {W : Type 0} ⦃d : Double W⦄ where
  abbrev pub start_point : W
  start_point = d.literal 10 1

  abbrev pub end_point : W
  end_point = d.literal 810 1

  abbrev pub diff : W
  diff = d.literal 1 8

  abbrev pub diap : W
  diap = d.div (d.sub end_point start_point) (d.of_int num_tasks)

  -- Task i, before its bytes are converted.
  abbrev pub task_of : (i : ℕ) → TaskData W
  task_of i = record {
    start = d.add start_point (d.mul (d.of_int i) diap);
    end = d.add start_point (d.mul (d.of_int (i + 1)) diap);
    step = diff;
  }

  -- A double whose bits were replaced by those that htobe64 makes of them.
  abbrev pub converted_bytes : ByteOrder → W → List ℕ
  converted_bytes host x = store64 host (htobe64 host (d.bits x))

  unfoldable pub task_bytes : ByteOrder → TaskData W → List ℕ
  task_bytes host t =
      converted_bytes host t.start ++ (converted_bytes host t.end ++ converted_bytes host t.step)

  -- The rounds of the loop that adds up the results, from result i on.
  unfoldable pub sum_results :
      ByteOrder → (rounds i : ℕ) → (result : W) → (ret_buff : List ℕ) → Outcome W
  sum_results host zero i result ret_buff = ok result
  sum_results host (suc rounds) i result ret_buff =
      Outcome.◌>>=◌ (read_at ret_buff (i * sizeof_ret_data) sizeof_ret_data) λ bytes.
        let ret_val = load_double host bytes in
        Outcome.◌>>◌ (bug_on (d.ne ret_val ret_val))
          (sum_results host rounds (i + 1) (d.add result ret_val) ret_buff)

module _ (W : Type 0) ⦃d : Double W⦄ where
  -- The rounds of the loop that fills task_buff, from task i on.
  unfoldable pub fill_tasks : ByteOrder → (rounds i : ℕ) → List ℕ
  unfolding task_bytes
  fill_tasks host zero i = []
  fill_tasks host (suc rounds) i =
      task_bytes host (task_of {W = W} i) ++ fill_tasks host rounds (i + 1)

  -- The result that is logged. The host's byte order stands in the handle, as for the library; what
  -- compute_task() returns is 0 wherever it returns.
  unfoldable pub main :
      Kernel
      → (rounds fuel : ℕ) → Connection
      → RequestHeader
      → (argc : ℕ) → Action ClusterServerHandle W
  unfolding fill_tasks sum_results
  main os rounds fuel conn header argc = do
    when (not (argc == 1)) (exit failure)
    calloc os (num_tasks * sizeof_task_data)
    calloc os (num_tasks * sizeof_ret_data)
    h ← get
    compute_task os rounds fuel conn header num_tasks (some (fill_tasks h.host num_tasks 0))
        sizeof_task_data (some (replicate (num_tasks * sizeof_ret_data) 0)) sizeof_ret_data
    h' ← get
    lift (sum_results {W = W} h'.host num_tasks 0 nought h'.user_rets)
