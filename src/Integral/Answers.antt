-- ===== src/Integral/Answers.antt =====
-- A task of the example program, sent by its server, received by its client and given to
-- integral_thread() of integral-computation/computation-client.c.
use computing_cluster.Base.{
  get_elem?, true, ℕ, ◌*◌, ◌<◌, ◌≡◌, refl, sym, ap, ◌∙◌, subst, List, some, length,
}
use mathlib.Core.List.{flatten}
use computing_cluster.Base.Each.{Each}
use computing_cluster.Config.{RequestHeader}
use computing_cluster.System.Outcome.{ok, ok-injective, Returns}
use computing_cluster.System.Kernel.{Kernel}
use computing_cluster.System.Action.{World, ◌>>=◌}
use computing_cluster.Client.Workers.Entry.{StartsThreads}
use computing_cluster.System.Packs.{pack}
use computing_cluster.Server.Types.{ClusterServerHandle}
use computing_cluster.Server.Invariant.{ServerInv}
use computing_cluster.Client.Types.{ThreadInfo, ClusterClientHandle}
use computing_cluster.Client.Eventloop.{handle_command}
use computing_cluster.Client.Invariant.{ClientInv}
use computing_cluster.Client.Transfer.Reassembly.{receive_all}
use computing_cluster.Delivery.Task.{task_data, task_frame, Answers, task_frame-Answers}
use computing_cluster.Integral.Double.{Double, IsDouble, store_double}
use computing_cluster.Integral.ComputationServer.{num_tasks, sizeof_task_data, fill_tasks}
use computing_cluster.Integral.ComputationClient.{integral_thread}
use computing_cluster.Integral.Trapezoid.{integral_of, IsGridded}
use computing_cluster.Integral.Tasks.{integral_thread_lem}

-- The server's handle has the arrays that main() passes to compute_task().
pub record IsFilled (W : Type 0) ⦃d : Double W⦄ (h : ClusterServerHandle) : Type 0 where
  pub tasks : h.user_tasks ≡ fill_tasks W h.host num_tasks 0
  pub size : h.task_size ≡ sizeof_task_data
  pub count : h.num_tasks ≡ num_tasks

module _ (W : Type 0) ⦃d : Double W⦄ where
  task_data-filled :
      {h : ClusterServerHandle} (j : ℕ)
      → IsFilled W h
      → task_data h j
        ≡ pack (fill_tasks W h.host num_tasks 0) (j * sizeof_task_data) sizeof_task_data
  task_data-filled j f = rw (f.tasks, f.size) refl

  -- A server with the invariant and the tasks of the example program; a client with the invariant, an
  -- empty entry, the same size of a task, a connection that has received nothing of a frame, a kernel
  -- that starts every thread that it is asked for, and a function that is what integral_thread() makes
  -- of task j with some number of turns; and a number n of points of the grid before the end of
  -- interval j, which is below that number of turns. The hosts have any byte orders. The frame of the
  -- task arrives in pieces that are not empty. The calls that receive them and handle the command
  -- return; the client then has the invariant, and an entry runs whose result frame has the number of
  -- the task and the bytes of what the trapezoid rule for x * x makes of interval j.
  pub task_frame-trapezoid :
      (os : Kernel) (integral : List ℕ → List ℕ) (server : ClusterServerHandle) (j n fuel : ℕ)
      (client : World ClusterClientHandle) (i : ℕ) (t : ThreadInfo) (header : RequestHeader)
      (pieces : List (List ℕ))
      → IsDouble W
      → StartsThreads os
      → ServerInv server
      → IsFilled W server
      → j < 12
      → ClientInv integral client
      → get_elem? client.handle.thread_manager i ≡ some t
      → t.empty ≡ true
      → server.task_size ≡ client.handle.task_size
      → client.handle.server_conn.bytes_recieved ≡ 0
      → integral_thread W client.handle.host fuel (some (some (task_data server j)))
        ≡ ok (integral (task_data server j))
      → IsGridded W j n
      → n < fuel
      → flatten pieces ≡ task_frame server j
      → Each (λ _ p. 0 < length p) pieces
      → Returns
          (λ r. Answers integral j (store_double client.handle.host (integral_of W j n)) r.1)
          ((receive_all pieces header >>= λ arrived. handle_command os arrived) client)
  task_frame-trapezoid os integral server j n fuel client i t header pieces laws starts sv f bound v
        there is_empty sizes idle runs p more whole cut =
      let value : integral (task_data server j)
          ≡ store_double client.handle.host (integral_of W j n) =
        ok-injective (
          sym runs
          ∙ ap (λ bytes. integral_thread W client.handle.host fuel (some (some bytes)))
              (task_data-filled j f)
          ∙ integral_thread_lem W server.host client.handle.host j n fuel laws bound p more) in
      subst
        (λ result.
          Returns (λ r. Answers integral j result r.1)
            ((receive_all pieces header >>= λ arrived. handle_command os arrived) client))
        value
        (task_frame-Answers os integral server j client i t header pieces starts sv
          (rw f.count bound) v there is_empty sizes idle whole cut)
