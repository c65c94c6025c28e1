-- ===== src/Server/Discovery/Keep.antt =====
-- The answer to a discovery leaves the handle alone.
use computing_cluster.Base.{ℕ, zero, suc, Bool, true, false, List, ◌∷◌, if◌then◌else◌}
use computing_cluster.Config.{clients_discovery_datagram_size}
use computing_cluster.System.Kernel.{Kernel, Answer, done, failed, eagain, ewouldblock, recv}
use computing_cluster.System.Action.{pure, ◌>>◌}
use computing_cluster.System.Rules.{Keeps, Keeps-bind, require_then}
use computing_cluster.Server.Types.{ClusterServerHandle}
use computing_cluster.Server.Discovery.{
  is_request, reply_to_discovery, answer_datagram, answer_clients_discovery_datagram,
}

module _ (os : Kernel) (P : ClusterServerHandle → Type 0) where
  reply-Keeps : Keeps P (reply_to_discovery os)
  unfolding reply_to_discovery
  reply-Keeps w p = require_then P os _ _ (λ _ q. q) w p

  reply_if-Keeps :
      (b : Bool) → Keeps P (if b then (do reply_to_discovery os; pure true) else pure false)
  reply_if-Keeps true w p =
      Keeps-bind P (reply_to_discovery os) (λ _. pure true) reply-Keeps (λ _ _ q. q) w p
  reply_if-Keeps false w p = p

  answer_datagram-Keeps : (r : Answer (List ℕ)) → Keeps P (answer_datagram os r)
  unfolding answer_datagram
  answer_datagram-Keeps (failed eagain) w p = p
  answer_datagram-Keeps (failed ewouldblock) w p = p
  answer_datagram-Keeps (failed e) w p = tt
  answer_datagram-Keeps (done bytes) w p = reply_if-Keeps (is_request bytes) w p

  again-Keeps :
      (finished : Bool) (fuel : ℕ)
      → Keeps P (answer_clients_discovery_datagram os fuel)
      → Keeps P (if finished then pure tt else answer_clients_discovery_datagram os fuel)
  again-Keeps true fuel k w p = p
  again-Keeps false fuel k w p = k w p

  pub answer_clients-Keeps : (fuel : ℕ) → Keeps P (answer_clients_discovery_datagram os fuel)
  unfolding answer_clients_discovery_datagram
  answer_clients-Keeps zero w p = tt
  answer_clients-Keeps (suc fuel) w p =
      let c = recv w.handle.discovery_socket_fd clients_discovery_datagram_size in
      Keeps-bind P (answer_datagram os (os.input w.trace c))
        (λ finished. if finished then pure tt else answer_clients_discovery_datagram os fuel)
        (answer_datagram-Keeps (os.input w.trace c))
        (λ finished. again-Keeps finished fuel (answer_clients-Keeps fuel))
        (record w { trace = c ∷ w.trace }) p
