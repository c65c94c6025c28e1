-- ===== src/Server/Eventloop/Accepts.antt =====
-- The loop that accepts connections ends: each turn fills a cell of the table.
use computing_cluster.Base.{ℕ, zero, suc, ◌+◌, ◌<◌, ◌≢◌, Bool, true, false, arith, if◌then◌else◌}
use computing_cluster.System.Outcome.{hang}
use computing_cluster.System.Kernel.{Kernel}
use computing_cluster.System.Action.{World, pure}
use computing_cluster.System.Rules.{bind-ne-hang, pure-ne-hang}
use computing_cluster.Server.Types.{ClusterServerHandle}
use computing_cluster.Server.Invariant.{ServerInv, num_clients-le}
use computing_cluster.Server.Connections.{accept_incoming_connection_request}
use computing_cluster.Server.Connections.Accept.{Accepted, accept-Accepted, accept-ne-hang}
use computing_cluster.Server.Eventloop.{accept_all}

module _ (os : Kernel) where
  next_turn :
      (accepted : Bool) (fuel : ℕ) (h : ClusterServerHandle) (w : World ClusterServerHandle)
      → ((w' : World ClusterServerHandle)
          → ServerInv w'.handle
          → w'.handle.max_clients < w'.handle.num_clients + fuel
          → accept_all os fuel w' ≢ hang)
      → Accepted os h accepted w.handle
      → h.max_clients < h.num_clients + suc fuel
      → (if accepted then accept_all os fuel else pure tt) w ≢ hang
  next_turn true fuel h w k (v, more, same) b = k w v (omega (arith, more, same, b))
  next_turn false fuel h w k a b = pure-ne-hang tt w

  -- From a handle with the invariant, with fuel for one turn more than the table has free cells, and
  -- whatever the kernel answers: the loop that accepts connections does not run out of fuel.
  pub accept_all-ne-hang :
      (fuel : ℕ) (w : World ClusterServerHandle)
      → ServerInv w.handle
      → w.handle.max_clients < w.handle.num_clients + fuel
      → accept_all os fuel w ≢ hang
  unfolding accept_all
  accept_all-ne-hang zero w v b = absurd (omega (arith, num_clients-le v, b))
  accept_all-ne-hang (suc fuel) w v b =
      bind-ne-hang (Accepted os w.handle) (accept_incoming_connection_request os)
        (λ accepted. if accepted then accept_all os fuel else pure tt) w (accept-ne-hang os w)
        (accept-Accepted os w v)
        (λ accepted w' a. next_turn accepted fuel w.handle w' (accept_all-ne-hang fuel) a b)
