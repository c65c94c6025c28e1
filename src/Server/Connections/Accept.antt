-- ===== src/Server/Connections/Accept.antt =====
-- Accepting a connection: the invariant, a full table, and the end of the loop that accepts.
pub mod Room
use computing_cluster.Base.{
  ℕ, zero, suc, ◌+◌, ◌≡◌, ◌≢◌, refl, Bool, true, false, List, [], ◌∷◌, Option, none, some, arith,
  length, get_elem?, set, inl, inr, if◌then◌else◌, ◌==◌, inc64, Option-cases, length-set,
}
use computing_cluster.System.Outcome.{hang}
use computing_cluster.System.Kernel.{Kernel, Answer, done, failed, eagain, accept4, epoll_add}
use computing_cluster.System.Action.{World, pure, ◌>>◌, when}
use computing_cluster.System.Rules.{
  Leads, Keeps, Leads-bind, Leads-weaken, pure-ne-hang, any_outcome, require-ne-hang, when-ne-hang,
  bind-ne-hang, require_then, when-Keeps,
}
use computing_cluster.Server.Types.{Connection, ClusterServerHandle, is_free}
use computing_cluster.Server.Invariant.{
  ServerInv, IsConnection, active, active-set, ServerInv-reopen, num_clients-le, active-le-length,
}
use computing_cluster.Server.Connections.{
  free_conn, fresh, count_client, interest_new, pause_connection_management_routine, fill_cell,
  configure_connection, admit_connection, accept_incoming_connection_request, accept_answer,
}

-- The cell that is found is free, and there is none only where all are in use.
pub free_conn-some :
    (conns : List Connection) (i : ℕ)
    → free_conn conns ≡ some i
    → (c : Connection) × (get_elem? conns i ≡ some c) × (c.socket_fd ≡ none)
unfolding free_conn
free_conn-some [] i e = cc
free_conn-some (c ∷ conns) zero e = (c, refl, ground (arith, Option-cases (free_conn conns)))
free_conn-some (c ∷ conns) (suc i) e = elim (Option-cases (free_conn conns)) [
  | inl rest ↦ absurd (ground arith)
  | inr (j, rest) ↦ free_conn-some conns i (ground arith)
]

pub free_conn-none :
    (conns : List Connection) → free_conn conns ≡ none → active conns ≡ length conns
unfolding free_conn active
free_conn-none [] e = refl
free_conn-none (c ∷ conns) e = ground (arith, Option-cases (free_conn conns), free_conn-none conns)

fresh-IsConnection :
    {ret_size : ℕ} (conn : Connection) (fd : ℕ)
    → IsConnection ret_size conn
    → IsConnection ret_size (fresh conn fd)
fresh-IsConnection conn fd c = record {
  buffer = c.buffer;
  partial = omega (arith, c.partial);
  cells = c.cells;
  idle = λ e. cc;
}

module _ (os : Kernel) where
  pub pause-Keeps :
      (P : ClusterServerHandle → Type 0) → Keeps P (pause_connection_management_routine os)
  unfolding pause_connection_management_routine
  pause-Keeps P w p = require_then P os _ _ (λ _ q. q) w p

  pub configure-Keeps :
      (P : ClusterServerHandle → Type 0) (fd : ℕ) → Keeps P (configure_connection os fd)
  unfolding configure_connection
  configure-Keeps P fd w p =
      (let go = require_then P os in
          go _ _ (go _ _ (go _ _ (go _ _ (go _ _ (go _ _ (go _ _ (go _ _ (go _ _ (λ _ q. q))))))))))
        w p

  -- One more client, in the same table.
  abbrev pub OneMore : ClusterServerHandle → ClusterServerHandle → Type 0
  OneMore h h' =
      ServerInv h' × (h'.num_clients ≡ h.num_clients + 1) × (h'.max_clients ≡ h.max_clients)

  fill_none :
      (h : ClusterServerHandle) (fd : ℕ) (w : World ClusterServerHandle)
      → Leads (fill_cell os h h.num_clients fd none) w (λ _ h'. OneMore h h')
  unfolding fill_cell
  fill_none h fd w = tt

  fill_found :
      (h : ClusterServerHandle) (fd conn_i : ℕ) (conn : Connection) (w : World ClusterServerHandle)
      → ServerInv h
      → get_elem? h.client_conns conn_i ≡ some conn
      → conn.socket_fd ≡ none
      → Leads (fill_cell os h (inc64 h.num_clients) fd (some conn_i)) w (λ _ h'. OneMore h h')
  unfolding fill_cell
  fill_found h fd conn_i conn w v there free = rw there (
      require_then (OneMore h) os (epoll_add fd interest_new) (pure tt) (λ _ q. q) _
        (
          ServerInv-reopen conn_i conn (fresh conn fd) (inc64 h.num_clients) v there num
              (fresh-IsConnection conn fd (v.connections conn_i conn there)) refl,
          ground (arith, num, free),
          refl,
        ))
    where
      num : inc64 h.num_clients + (if is_free conn.socket_fd then 0 else 1) ≡ h.num_clients + 1
      num = rw free (
          omega (
            arith,
            rw free at (active-set h.client_conns conn_i conn (fresh conn fd) there),
            active-le-length (set h.client_conns conn_i (fresh conn fd)),
            length-set h.client_conns conn_i (fresh conn fd),
            v.clients,
            v.table,
            v.table_small,
          ))

  fill_cell-ServerInv :
      (h : ClusterServerHandle) (fd : ℕ) (w : World ClusterServerHandle)
      → ServerInv h
      → Leads
          (fill_cell os h
            (count_client (free_conn h.client_conns) h.num_clients)
            fd
            (free_conn h.client_conns))
          w
          (λ _ h'. OneMore h h')
  fill_cell-ServerInv h fd w v = elim (Option-cases (free_conn h.client_conns)) [
    | inl full ↦ rw full (fill_none h fd w)
    | inr (conn_i, found) ↦
        let (conn, there, free) = free_conn-some h.client_conns conn_i found in
        rw found (fill_found h fd conn_i conn w v there free)
  ]

  admit_lem :
      (fd : ℕ) (w : World ClusterServerHandle)
      → ServerInv w.handle
      → Leads (admit_connection os fd) w (λ _. OneMore w.handle)
  unfolding admit_connection
  admit_lem fd w v =
      let num_clients' = count_client (free_conn w.handle.client_conns) w.handle.num_clients in
      Leads-bind (λ _ _. Unit) (λ _. OneMore w.handle)
        (when (num_clients' == w.handle.max_clients) (pause_connection_management_routine os))
        (λ _. fill_cell os w.handle num_clients' fd (free_conn w.handle.client_conns)) _
        (when-Keeps (λ _. Unit) _ _ (pause-Keeps (λ _. Unit)) _ tt)
        (λ a w' _. fill_cell-ServerInv w.handle fd w' v)

  -- The invariant, and if a connection was accepted, one client more.
  abbrev pub Accepted : ClusterServerHandle → Bool → ClusterServerHandle → Type 0
  Accepted h true h' = OneMore h h'
  Accepted h false h' = h' ≡ h

  pub answer_lem :
      (r : Answer ℕ) (w : World ClusterServerHandle)
      → ServerInv w.handle
      → Leads (accept_answer os r) w (Accepted w.handle)
  answer_lem (failed eagain) w v = refl
  answer_lem (failed e) w v = tt
  answer_lem (done fd) w v =
      Leads-bind (λ _ h. h ≡ w.handle) (Accepted w.handle) (configure_connection os fd)
        (λ _. do admit_connection os fd; pure true) w
        (configure-Keeps (λ h. h ≡ w.handle) fd w refl)
        (λ _ w' same. rw (← same) (
          Leads-bind (λ _. OneMore w'.handle) (Accepted w'.handle) (admit_connection os fd)
            (λ _. pure true) w' (admit_lem fd w' (rw same v)) (λ _ _ p. p)))

  -- From a handle with the invariant, where the call returns: if it accepted a connection, the handle
  -- has the invariant and one client more in a table of the same size; if it did not, the handle is as
  -- before.
  pub accept-Accepted :
      (w : World ClusterServerHandle)
      → ServerInv w.handle
      → Leads (accept_incoming_connection_request os) w (Accepted w.handle)
  unfolding accept_incoming_connection_request
  accept-Accepted w v = answer_lem (os.status w.trace (accept4 w.handle.accept_socket_fd)) _ v

  after_accept :
      (h : ClusterServerHandle) (b : Bool) (h' : ClusterServerHandle)
      → ServerInv h
      → Accepted h b h'
      → ServerInv h'
  after_accept h true h' v a = a.0
  after_accept h false h' v a = rw a v

  pub accept-ServerInv : Keeps ServerInv (accept_incoming_connection_request os)
  accept-ServerInv w v =
      Leads-weaken (Accepted w.handle) (λ _. ServerInv) (accept_incoming_connection_request os) w
        (λ b h a. after_accept w.handle b h v a) (accept-Accepted w v)

  fill_cell-ne-hang :
      (h : ClusterServerHandle) (n fd : ℕ) (cell : Option ℕ) (w : World ClusterServerHandle)
      → fill_cell os h n fd cell w ≢ hang
  unfolding fill_cell
  fill_cell-ne-hang h n fd none w = λ e. cc
  fill_cell-ne-hang h n fd (some conn_i) w = elim (Option-cases (get_elem? h.client_conns conn_i)) [
    | inl e ↦ rw e (λ x. cc)
    | inr (conn, e) ↦
        rw e (require-ne-hang os (epoll_add fd interest_new) (pure tt) (pure-ne-hang tt) _)
  ]

  pause-ne-hang : (w : World ClusterServerHandle) → pause_connection_management_routine os w ≢ hang
  unfolding pause_connection_management_routine
  pause-ne-hang w = require-ne-hang os _ _ (pure-ne-hang tt) w

  configure-ne-hang : (fd : ℕ) (w : World ClusterServerHandle) → configure_connection os fd w ≢ hang
  unfolding configure_connection
  configure-ne-hang fd w =
      (let go = require-ne-hang os in
          go _ _ (
            go _ _
              (go _ _ (go _ _ (go _ _ (go _ _ (go _ _ (go _ _ (go _ _ (pure-ne-hang tt))))))))))
        w

  admit-ne-hang : (fd : ℕ) (w : World ClusterServerHandle) → admit_connection os fd w ≢ hang
  unfolding admit_connection
  admit-ne-hang fd w =
      let num_clients' = count_client (free_conn w.handle.client_conns) w.handle.num_clients in
      let pausing =
        when (num_clients' == w.handle.max_clients) (pause_connection_management_routine os) in
      bind-ne-hang (λ _ _. Unit) pausing
        (λ _. fill_cell os w.handle num_clients' fd (free_conn w.handle.client_conns)) _
        (when-ne-hang _ _ pause-ne-hang _)
        (when-Keeps (λ _. Unit) _ _ (pause-Keeps (λ _. Unit)) _ tt)
        (λ _ w' _. fill_cell-ne-hang w.handle num_clients' fd (free_conn w.handle.client_conns) w')

  answer-ne-hang : (r : Answer ℕ) (w : World ClusterServerHandle) → accept_answer os r w ≢ hang
  answer-ne-hang (failed eagain) w = pure-ne-hang false w
  answer-ne-hang (failed e) w = λ x. cc
  answer-ne-hang (done fd) w =
      bind-ne-hang (λ _ _. Unit) (configure_connection os fd)
        (λ _. do admit_connection os fd; pure true) w (configure-ne-hang fd w)
        (configure-Keeps (λ _. Unit) fd w tt)
        (λ _ w' _.
          bind-ne-hang (λ _ _. Unit) (admit_connection os fd) (λ _. pure true) w'
            (admit-ne-hang fd w') (any_outcome (admit_connection os fd w'))
            (λ _ w'' _. pure-ne-hang true w''))

  pub accept-ne-hang :
      (w : World ClusterServerHandle) → accept_incoming_connection_request os w ≢ hang
  unfolding accept_incoming_connection_request
  accept-ne-hang w = answer-ne-hang (os.status w.trace (accept4 w.handle.accept_socket_fd)) _

-- From a handle with the invariant and as many clients as the table has cells: what follows the
-- accept4() of a further connection never returns.
pub full_table-exits :
    (os : Kernel) (fd : ℕ) (w : World ClusterServerHandle)
    → ServerInv w.handle
    → w.handle.num_clients ≡ w.handle.max_clients
    → Leads (admit_connection os fd) w (λ _ _. ⊥)
full_table-exits os fd w v full =
    Leads-weaken (λ _. OneMore os w.handle) (λ _ _. ⊥) (admit_connection os fd) w
      (λ _ h (v', more, same). omega (arith, num_clients-le v', more, same, full))
      (admit_lem os fd w v)
