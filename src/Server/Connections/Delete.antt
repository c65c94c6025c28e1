-- ===== src/Server/Connections/Delete.antt =====
-- delete_connection keeps the invariant when the connection holds no task any more.
use computing_cluster.Base.{
  ℕ, ◌+◌, ◌≡◌, ◌≢◌, refl, false, Option, none, some, arith, get_elem?, set, ◌==◌, dec64,
  if◌then◌else◌,
}
use computing_cluster.Base.Count.{count}
use computing_cluster.Config.{no_task}
use computing_cluster.System.Kernel.{Kernel}
use computing_cluster.System.Action.{World, when}
use computing_cluster.System.Rules.{
  Leads, Keeps, Leads-bind, require_lead, require_then, when-Keeps,
}
use computing_cluster.Server.Types.{Connection, ClusterServerHandle, is_free}
use computing_cluster.Server.Invariant.{ServerInv, active-set, active-le-length, ServerInv-reopen}
use computing_cluster.Server.Connections.{
  start_connection_management_routine, close_connection, delete_connection,
}

-- The connection holds no task.
abbrev pub HoldsNone : Connection → Type 0
HoldsNone conn = (j : ℕ) → j ≢ no_task → count j conn.task_list ≡ 0

-- The table with the cell of the connection free again.
abbrev pub closed : ClusterServerHandle → (conn_i : ℕ) → Connection → ClusterServerHandle
closed h conn_i conn = record h {
  client_conns = set h.client_conns conn_i (record conn { socket_fd = none });
  num_clients = dec64 h.num_clients;
}

module _ (os : Kernel) where
  start-Keeps :
      (P : ClusterServerHandle → Type 0) → Keeps P (start_connection_management_routine os)
  unfolding start_connection_management_routine
  start-Keeps P w p = require_then P os _ _ (λ _ q. q) w p

  close_lem :
      (h : ClusterServerHandle) (conn_i : ℕ) (conn : Connection) (socket : Option ℕ)
      (w : World ClusterServerHandle)
      → get_elem? h.client_conns conn_i ≡ some conn
      → conn.socket_fd ≡ socket
      → Leads
          (close_connection os h conn_i)
          w
          (λ _ h'. (h' ≡ closed h conn_i conn) × (conn.socket_fd ≢ none))
  unfolding close_connection
  close_lem h conn_i conn none w there e = rw (there, e) tt
  close_lem h conn_i conn (some fd) w there e =
      rw (there, e)
        (require_lead (λ _ h'. (h' ≡ closed h conn_i conn) × (some fd ≢ none)) os _ _ w
          (λ w'. require_lead _ os _ _ w' (λ w''. (refl, cc))))

  -- For a connection of the table, where the call returns: the connection was open, its cell is free
  -- and there is one client less, modulo 2^64, and nothing else changed.
  pub delete_connection_lem :
      (conn_i : ℕ) (conn : Connection) (w : World ClusterServerHandle)
      → get_elem? w.handle.client_conns conn_i ≡ some conn
      → Leads
          (delete_connection os conn_i)
          w
          (λ _ h. (h ≡ closed w.handle conn_i conn) × (conn.socket_fd ≢ none))
  unfolding delete_connection
  delete_connection_lem conn_i conn w there =
      Leads-bind (λ _ _. Unit) (λ _ h. (h ≡ closed w.handle conn_i conn) × (conn.socket_fd ≢ none))
        (when (w.handle.num_clients == w.handle.max_clients)
          (start_connection_management_routine os))
        (λ _. close_connection os w.handle conn_i) w
        (when-Keeps (λ _. Unit) _ _ (start-Keeps (λ _. Unit)) w tt)
        (λ a w' _. close_lem w.handle conn_i conn conn.socket_fd w' there refl)

pub closed-ServerInv :
    {h : ClusterServerHandle} (conn_i : ℕ) (conn : Connection)
    → ServerInv h
    → get_elem? h.client_conns conn_i ≡ some conn
    → conn.socket_fd ≢ none
    → HoldsNone conn
    → ServerInv (closed h conn_i conn)
closed-ServerInv {h} conn_i conn v there opened empty =
    ServerInv-reopen conn_i conn (record conn { socket_fd = none }) (dec64 h.num_clients) v there
      num
      (let c = v.connections conn_i conn there in
        record { buffer = c.buffer; partial = c.partial; cells = c.cells; idle = λ _. empty })
      refl
  where
    busy : is_free conn.socket_fd ≡ false
    busy = ground arith

    num : dec64 h.num_clients + (if is_free conn.socket_fd then 0 else 1) ≡ h.num_clients + 0
    num = rw busy (
        omega (
          arith,
          rw busy at
              (active-set h.client_conns conn_i conn (record conn { socket_fd = none }) there),
          active-le-length h.client_conns,
          v.clients,
          v.table,
          v.table_small,
        ))
