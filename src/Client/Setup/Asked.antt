-- ===== src/Client/Setup/Asked.antt =====
-- What the client is started with, and sizes that do not wrap around.
use computing_cluster.Base.{
  ℕ, zero, suc, ◌+◌, ◌*◌, ◌%◌, ◌≤◌, ◌<◌, ◌≡◌, ◌≢◌, refl, ap, false, List, arith,
}
use computing_cluster.Config.{sizeof_header}
use computing_cluster.System.Kernel.{Trace}
use computing_cluster.System.Action.{World}
use computing_cluster.System.Packs.{region_inside}
use computing_cluster.Client.Types.{ClusterClientHandle}
use computing_cluster.Client.Tasks.{add64, mul64}
use computing_cluster.Client.Invariant.{pending, FillsPack, IsReceiving}
use computing_cluster.Client.Setup.Threads.{opened}

-- What is asked of the arguments of client_compute() and of what the handle holds before: a result
-- fits into the send buffer, the sizes are sizes of memory, with the cache_line_size that the handle
-- happens to hold, and the max_cpu that it happens to hold is not 0.
pub record IsAsked (compute : List ℕ → List ℕ) (h : ClusterClientHandle) : Type 0 where
  pub fills : FillsPack compute h.task_size h.ret_size
  pub send_room : sizeof_header + h.ret_size ≤ 256
  pub frame_small : sizeof_header + h.task_size < 18446744073709551616
  pub some_threads : 0 < h.max_threads
  pub tasks_small : h.max_threads * (h.task_size + h.cache_line_size) < 18446744073709551616
  pub rets_small : h.max_threads * (h.ret_size + h.cache_line_size) < 18446744073709551616
  pub cpus : h.max_cpu ≢ 0

-- No event descriptor has been written to.
abbrev pub Quiet : Trace → Type 0
Quiet trace = (fd : ℕ) → pending fd trace ≡ false

-- The handle before the entries are made, and with its receive buffer.
pub record IsStarting (compute : List ℕ → List ℕ) (w : World ClusterClientHandle) : Type 0 where
  pub asked : IsAsked compute w.handle
  pub quiet : Quiet w.trace

pub record IsConnectable (compute : List ℕ → List ℕ) (w : World ClusterClientHandle) : Type 0 where
  pub starting : IsStarting compute w
  pub conn : IsReceiving w.handle

mod_small : (n m : ℕ) → n ≡ m → m < 18446744073709551616 → n % 18446744073709551616 ≡ m
mod_small n m e h = omega arith

-- The sum and the product of size_t do not wrap around.
module _ (count size line : ℕ) (some : 0 < count)
    (small : count * (size + line) < 18446744073709551616) where
  add64-eq : add64 size line ≡ size + line
  add64-eq =
      let le : 0 * (size + line) + (size + line) ≤ count * (size + line) =
        region_inside 0 count (size + line) (size + line) some (omega arith) in
      let below : size + line < 18446744073709551616 = omega arith in omega arith

  pub mul64-eq : mul64 count (add64 size line) ≡ count * (size + line)
  mul64-eq = rw add64-eq (mod_small (count * (size + line)) (count * (size + line)) refl small)

  pub place-eq : (k : ℕ) → k < count → mul64 (0 + k) (add64 size line) ≡ k * (size + line)
  place-eq k lt =
      let le : k * (size + line) + 0 ≤ count * (size + line) =
        region_inside k count (size + line) 0 lt (omega arith) in
      rw add64-eq (
        mod_small ((0 + k) * (size + line)) (k * (size + line))
          (ap (λ n. n * (size + line)) (omega arith)) (omega arith))

pub Quiet-opened : (n : ℕ) (trace : Trace) → Quiet trace → Quiet (opened n trace)
unfolding pending
Quiet-opened zero trace q fd = q fd
Quiet-opened (suc n) trace q fd = Quiet-opened n trace q fd
