-- ===== src/Server/Connections/Accept/Room.antt =====
-- When accept_incoming_connection_request() of cluster-api/cluster-server.c returns.
use computing_cluster.Base.{
  ℕ, ◌<◌, ◌≡◌, ◌⊎◌, refl, Bool, true, false, some, arith, inl, inr, get_elem?, ◌==◌, Option-cases,
}
use computing_cluster.System.Outcome.{Returns}
use computing_cluster.System.Kernel.{
  Kernel, Answer, done, failed, eagain, SockOpt, accept4, setsockopt, epoll_add, epoll_del,
}
use computing_cluster.System.Action.{World, pure, ◌>>◌, when}
use computing_cluster.System.Traced.{after}
use computing_cluster.System.Ends.{
  Succeeds, Ends, require-Ends, Ends-bind, Ends-lead, when-Ends, Leads-Returns,
}
use computing_cluster.System.Rules.{Leads, Leads-bind, Leads-both, any_outcome}
use computing_cluster.Server.Types.{Connection, ClusterServerHandle}
use computing_cluster.Server.Invariant.{ServerInv}
use computing_cluster.Server.Connections.{
  free_conn, count_client, interest_new, pause_connection_management_routine, fill_cell,
  configure_connection, admit_connection, accept_incoming_connection_request, accept_answer,
}
use computing_cluster.Server.Connections.Accept.{
  free_conn-some, free_conn-none, Accepted, answer_lem, configure-Keeps,
}

-- The kernel sets every option of a socket, watches it, and stops watching the socket that accepts.
pub record Welcomes (os : Kernel) (accept_fd fd : ℕ) : Type 0 where
  pub options : (o : SockOpt) (value : ℕ) → Succeeds os (setsockopt fd o value)
  pub watched : Succeeds os (epoll_add fd interest_new)
  pub paused : Succeeds os (epoll_del accept_fd)

module _ (os : Kernel) where
  configure-Ends :
      (accept_fd fd : ℕ) (w : World ClusterServerHandle)
      → Welcomes os accept_fd fd
      → Ends (configure_connection os fd) w
  unfolding configure_connection
  configure-Ends accept_fd fd w k =
      let go = λ (o : SockOpt) (value : ℕ). k.options o value in
      require-Ends os _ _ _ (go _ _) (
        require-Ends os _ _ _ (go _ _) (
          require-Ends os _ _ _ (go _ _) (
            require-Ends os _ _ _ (go _ _) (
              require-Ends os _ _ _ (go _ _) (
                require-Ends os _ _ _ (go _ _) (
                  require-Ends os _ _ _ (go _ _) (
                    require-Ends os _ _ _ (go _ _) (require-Ends os _ _ _ (go _ _) (_, refl)))))))))

  pause-Ends :
      (fd : ℕ) (w : World ClusterServerHandle)
      → Welcomes os w.handle.accept_socket_fd fd
      → Ends (pause_connection_management_routine os) w
  unfolding pause_connection_management_routine
  pause-Ends fd w k = require-Ends os (epoll_del w.handle.accept_socket_fd) _ w k.paused (_, refl)

  fill-Ends :
      (h : ClusterServerHandle) (n fd i : ℕ) (conn : Connection) (w : World ClusterServerHandle)
      → get_elem? h.client_conns i ≡ some conn
      → Succeeds os (epoll_add fd interest_new)
      → Ends (fill_cell os h n fd (some i)) w
  unfolding fill_cell
  fill-Ends h n fd i conn w there watched =
      rw there (require-Ends os (epoll_add fd interest_new) _ _ watched (_, refl))

  admit-Ends :
      (fd : ℕ) (w : World ClusterServerHandle)
      → ServerInv w.handle
      → w.handle.num_clients < w.handle.max_clients
      → Welcomes os w.handle.accept_socket_fd fd
      → Ends (admit_connection os fd) w
  unfolding admit_connection
  admit-Ends fd w v room k = elim (Option-cases (free_conn w.handle.client_conns)) [
    | inl full ↦
        absurd (omega (arith, room, free_conn-none w.handle.client_conns full, v.clients, v.table))
    | inr (i, found) ↦
        let (conn, there, _) = free_conn-some w.handle.client_conns i found in
        let n = count_client (some i) w.handle.num_clients in
        let w' : World ClusterServerHandle = record w {
          handle = record (w.handle) { num_clients = n };
        } in
        rw found (
          Ends-bind (when (n == w.handle.max_clients) (pause_connection_management_routine os))
            (λ _. fill_cell os w.handle n fd (some i)) w'
            (when-Ends (n == w.handle.max_clients) (pause_connection_management_routine os) w'
              (pause-Ends fd w' k))
            (λ a w'' e. fill-Ends w.handle n fd i conn w'' there k.watched))
  ]

  -- accept4() found a connection or none.
  abbrev pub found_connection : Answer ℕ → Bool
  found_connection (done fd) = true
  found_connection (failed e) = false

  answer-Ends :
      (fd : ℕ) (w : World ClusterServerHandle)
      → ServerInv w.handle
      → w.handle.num_clients < w.handle.max_clients
      → Welcomes os w.handle.accept_socket_fd fd
      → Ends (accept_answer os (done fd)) w
  answer-Ends fd w v room k =
      Ends-lead (λ _ h. h ≡ w.handle) (configure_connection os fd)
        (λ _. do admit_connection os fd; pure true) w
        (configure-Ends w.handle.accept_socket_fd fd w k)
        (configure-Keeps os (λ h. h ≡ w.handle) fd w refl)
        (λ _ w' same.
          Ends-bind (admit_connection os fd) (λ _. pure true) w'
            (admit-Ends fd w' (rw same v) (rw same room) (rw same k)) (λ _ w'' _. (_, refl)))

  answer_true :
      (fd : ℕ) (w : World ClusterServerHandle)
      → Leads (accept_answer os (done fd)) w (λ b _. b ≡ true)
  answer_true fd w =
      Leads-bind (λ _ _. Unit) (λ b _. b ≡ true) (configure_connection os fd)
        (λ _. do admit_connection os fd; pure true) w (any_outcome (configure_connection os fd w))
        (λ _ w' _.
          Leads-bind (λ _ _. Unit) (λ b _. b ≡ true) (admit_connection os fd) (λ _. pure true) w'
            (any_outcome (admit_connection os fd w')) (λ _ w'' _. refl))

  answer-Returns :
      (fd : ℕ) (w : World ClusterServerHandle)
      → ServerInv w.handle
      → w.handle.num_clients < w.handle.max_clients
      → Welcomes os w.handle.accept_socket_fd fd
      → Returns
          (λ r. Accepted os w.handle r.0 r.1.handle × (r.0 ≡ true))
          (accept_answer os (done fd) w)
  answer-Returns fd w v room k =
      Leads-Returns (λ b h. Accepted os w.handle b h × (b ≡ true)) (accept_answer os (done fd)) w
        (answer-Ends fd w v room k)
        (Leads-both (Accepted os w.handle) (λ b _. b ≡ true) (accept_answer os (done fd)) w
          (answer_lem os (done fd) w v) (answer_true fd w))

  -- From a handle with the invariant: where accept4() finds no connection, or where it finds one, the
  -- table has a free cell, and the kernel sets the options of the socket and lets it be watched, the
  -- call returns. It says whether there was a connection; if so, the handle has the invariant and one
  -- client more in a table of the same size, and otherwise it is as before.
  pub accept_lem :
      (fd : ℕ) (w : World ClusterServerHandle)
      → ServerInv w.handle
      → (os.status w.trace (accept4 w.handle.accept_socket_fd) ≡ failed eagain)
        ⊎ ((os.status w.trace (accept4 w.handle.accept_socket_fd) ≡ done fd)
            × (w.handle.num_clients < w.handle.max_clients)
            × Welcomes os w.handle.accept_socket_fd fd)
      → Returns
          (λ r.
            (r.0 ≡ found_connection (os.status w.trace (accept4 w.handle.accept_socket_fd)))
            × Accepted os w.handle r.0 r.1.handle)
          (accept_incoming_connection_request os w)
  unfolding accept_incoming_connection_request
  accept_lem fd w v (inl nobody) = rw nobody (_, refl, (refl, refl))
  accept_lem fd w v (inr (somebody, room, k)) =
      let (r, e, (accepted, told)) =
        answer-Returns fd (after w (accept4 w.handle.accept_socket_fd)) v room k in
      rw somebody (r, e, (told, accepted))
