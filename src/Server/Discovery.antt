-- ===== src/Server/Discovery.antt =====
-- "Discovery process" of cluster-api/cluster-server.c: the server answers the broadcast by which
-- clients look for it.
pub mod Keep
pub mod Request
use computing_cluster.Base.{
  ℕ, zero, suc, Bool, true, false, ◌&&◌, ◌||◌, List, [], ◌∷◌, set, ◌==◌, if◌then◌else◌, length,
}
use computing_cluster.Config.{
  clients_discovery_datagram, clients_discovery_datagram_size, servers_discovery_datagram,
  discovery_client_port, discovery_server_port,
}
use computing_cluster.System.Outcome.{failure}
use computing_cluster.System.Kernel.{
  Kernel, Answer, done, failed, eagain, ewouldblock, recv, sendto, socket, datagram_nonblocking,
  setsockopt, so_broadcast, so_reuseaddr, bind, broadcast, epoll_add, close,
}
use computing_cluster.System.Action.{
  pure, ◌>>=◌, ◌>>◌, exit, spin, get, put, syscall_input, require,
}
use computing_cluster.Server.Types.{ClusterServerHandle}
use computing_cluster.Server.Connections.{Server, interest_in}

-- The characters of a C string, up to its zero byte.
unfoldable pub c_string : List ℕ → List ℕ
c_string [] = []
c_string (c ∷ cs) = if c == 0 then [] else c ∷ c_string cs

unfoldable pub same_bytes : List ℕ → List ℕ → Bool
same_bytes [] [] = true
same_bytes (a ∷ as') (b ∷ bs) = a == b && same_bytes as' bs
same_bytes _ _ = false

-- bytes_read == …_SIZE && strcmp(buffer, …) == 0, after the last byte of the buffer was cleared.
unfoldable pub is_request : List ℕ → Bool
unfolding c_string same_bytes
is_request bytes =
    length bytes == clients_discovery_datagram_size
    && same_bytes (c_string (set bytes 30 0)) (c_string clients_discovery_datagram)

module _ (os : Kernel) where
  unfoldable pub init_discovery_routine : Server os (Unit {0})
  init_discovery_routine = do
    sock_fd ← require os (socket datagram_nonblocking)
    require os (setsockopt sock_fd so_broadcast 1)
    require os (setsockopt sock_fd so_reuseaddr 1)
    require os (bind sock_fd (broadcast discovery_server_port))
    h ← get
    put (record h { discovery_socket_fd = sock_fd })

  unfoldable pub free_discovery_routine : Server os (Unit {0})
  free_discovery_routine = do h ← get; require os (close h.discovery_socket_fd); pure tt

  unfoldable pub start_discovery_routine : Server os (Unit {0})
  start_discovery_routine = do
    h ← get
    require os (epoll_add h.discovery_socket_fd interest_in)
    pure tt

  unfoldable pub reply_to_discovery : Server os (Unit {0})
  reply_to_discovery = do
    h ← get
    require os
        (sendto h.discovery_socket_fd servers_discovery_datagram (broadcast discovery_client_port))
    pure tt

  -- What a round of the loop does with a datagram: `true` ends the function.
  unfoldable pub answer_datagram : Answer (List ℕ) → Server os Bool
  unfolding is_request reply_to_discovery
  answer_datagram (failed eagain) = pure true
  answer_datagram (failed ewouldblock) = pure true
  answer_datagram (failed _) = exit failure
  answer_datagram (done bytes) =
      if is_request bytes then (do reply_to_discovery; pure true) else pure false

  -- The loop reads one datagram after the other, as many as have arrived.
  unfoldable pub answer_clients_discovery_datagram : (fuel : ℕ) → Server os (Unit {0})
  unfolding answer_datagram
  answer_clients_discovery_datagram zero = spin
  answer_clients_discovery_datagram (suc fuel) =
      let again = answer_clients_discovery_datagram fuel in
      do
        h ← get
        r ← syscall_input os (recv h.discovery_socket_fd clients_discovery_datagram_size)
        finished ← answer_datagram r
        if finished then pure tt else again
