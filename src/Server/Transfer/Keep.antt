-- ===== src/Server/Transfer/Keep.antt =====
-- Reading from a connection keeps the invariant, and writing to it leaves the handle alone.
use computing_cluster.Base.{
  ℕ, ◌+◌, ◌*◌, ◌%◌, ◌^◌, ◌≤◌, ◌<◌, ◌≡◌, ◌≢◌, refl, Bool, true, false, not, List, [], ◌∷◌, ◌++◌,
  none, some, arith, get_elem?, length, inl, inr, ◌==◌, leb, leb→le, Bool-cases, if◌then◌else◌,
}
use computing_cluster.Base.Bytes.{length-splice}
use computing_cluster.Config.{RequestHeader, sizeof_header, cmd_task}
use computing_cluster.Wire.{ByteOrder, header_bytes}
use computing_cluster.System.Outcome.{ok, ok-injective, fault-ne-ok, bug, bug_on, read_at, write_at}
use computing_cluster.System.Kernel.{
  Kernel, Answer, done, failed, eagain, ewouldblock, econnreset, epipe, send,
}
use computing_cluster.System.Action.{World}
use computing_cluster.System.Rules.{Leads, Keeps, lift_lead, index_lead, valid_fd_lead}
use computing_cluster.Server.Types.{Connection, ClusterServerHandle}
use computing_cluster.Server.Invariant.{ServerInv, IsConnection, ServerInv-touch}
use computing_cluster.Server.Transfer.{
  grown, frame_result, take_bytes, recv_answer, read_data_on_connection, send_answer,
  put_data_to_connection,
}

-- A write that stays inside an object does not change its size.
pub length-write_at :
    (dst : List ℕ) (off : ℕ) (bytes result : List ℕ)
    → write_at dst off bytes ≡ ok result
    → (off + length bytes ≤ length dst) × (length result ≡ length dst)
length-write_at dst off bytes result e = elim (Bool-cases (leb (off + length bytes) (length dst))) [
  | inl fits ↦
      let le = leb→le _ _ fits in
      (le, rw (← (ok-injective (rw fits at e))) (length-splice dst bytes off le))
  | inr over ↦ absurd (fault-ne-ok (rw over at e))
]

grown-IsConnection :
    {ret_size : ℕ} (conn : Connection) (buffer : List ℕ) (n : ℕ)
    → IsConnection ret_size conn
    → sizeof_header + ret_size < 18446744073709551616
    → conn.bytes_recieved + n ≤ length conn.recv_buffer
    → length buffer ≡ length conn.recv_buffer
    → IsConnection ret_size (
        grown conn buffer (
          if (conn.bytes_recieved + n) % 2 ^ 64 == sizeof_header + ret_size
          then 0
          else (conn.bytes_recieved + n) % 2 ^ 64))
grown-IsConnection conn buffer n c small fits len = record {
  buffer = omega (arith, len, c.buffer);
  partial = ground (arith, c.buffer);
  cells = c.cells;
  idle = c.idle;
}

module _ (os : Kernel) where
  pub frame_result-Keeps :
      (P : ClusterServerHandle → Type 0) (host : ByteOrder) (buffer : List ℕ)
      (header : RequestHeader) (full : Bool)
      → Keeps P (frame_result os host buffer header full)
  unfolding frame_result
  frame_result-Keeps P host buffer header true w p = index_lead (λ _. P) buffer 0 _ w (λ cmd e. p)
  frame_result-Keeps P host buffer header false w p = p

  take_bytes-ServerInv :
      (conn_i : ℕ) (conn : Connection) (bytes : List ℕ) (header : RequestHeader)
      (w : World ClusterServerHandle)
      → ServerInv w.handle
      → get_elem? w.handle.client_conns conn_i ≡ some conn
      → Leads (take_bytes os conn_i conn bytes header) w (λ _ h. ServerInv h)
  unfolding take_bytes
  take_bytes-ServerInv conn_i conn bytes header w v there =
      lift_lead (λ _ h. ServerInv h) (write_at conn.recv_buffer conn.bytes_recieved bytes) _ w
        λ buffer e.
          let (fits, len) = length-write_at conn.recv_buffer conn.bytes_recieved bytes buffer e in
          let conn' =
            grown-IsConnection conn buffer (length bytes) (v.connections conn_i conn there)
              v.frame_small fits len in
          frame_result-Keeps ServerInv _ _ _ _ _
            (ServerInv-touch conn_i conn _ v there refl conn' refl)

  answer-ServerInv :
      (conn_i : ℕ) (conn : Connection) (header : RequestHeader) (r : Answer (List ℕ))
      (w : World ClusterServerHandle)
      → ServerInv w.handle
      → get_elem? w.handle.client_conns conn_i ≡ some conn
      → Leads (recv_answer os conn_i conn header r) w (λ _ h. ServerInv h)
  answer-ServerInv conn_i conn header (failed eagain) w v there = v
  answer-ServerInv conn_i conn header (failed ewouldblock) w v there = v
  answer-ServerInv conn_i conn header (failed econnreset) w v there = v
  answer-ServerInv conn_i conn header (failed e) w v there = tt
  answer-ServerInv conn_i conn header (done []) w v there = v
  answer-ServerInv conn_i conn header (done (b ∷ bytes)) w v there =
      take_bytes-ServerInv conn_i conn (b ∷ bytes) header w v there

  -- Whatever arrives on a connection, the invariant stays.
  pub read_data-ServerInv :
      (conn_i : ℕ) (header : RequestHeader)
      → Keeps ServerInv (read_data_on_connection os conn_i header)
  unfolding read_data_on_connection
  read_data-ServerInv conn_i header w v =
      index_lead (λ _ h. ServerInv h) w.handle.client_conns conn_i _ w
        λ conn there.
          valid_fd_lead (λ _ h. ServerInv h) conn.socket_fd bug _ w
            λ fd e. answer-ServerInv conn_i conn header _ _ v there

  send_answer-Keeps :
      (P : ClusterServerHandle → Type 0) (header : RequestHeader) (expected : ℕ) (r : Answer ℕ)
      → Keeps P (send_answer os header expected r)
  send_answer-Keeps P header expected (failed eagain) w p = p
  send_answer-Keeps P header expected (failed ewouldblock) w p = p
  send_answer-Keeps P header expected (failed epipe) w p = p
  send_answer-Keeps P header expected (failed e) w p = tt
  send_answer-Keeps P header expected (done n) w p = elim (Bool-cases (n == expected)) [
    | inl e ↦ rw e p
    | inr e ↦ rw e tt
  ]

  -- Where put_data_to_connection() returns, the handle is as before and the connection was open.
  pub put_data_lem :
      (conn_i task_list_i : ℕ) (header : RequestHeader) (w : World ClusterServerHandle)
      (conn : Connection)
      → get_elem? w.handle.client_conns conn_i ≡ some conn
      → Leads
          (put_data_to_connection os conn_i task_list_i header)
          w
          (λ _ h. (h ≡ w.handle) × (conn.socket_fd ≢ none))
  unfolding put_data_to_connection
  put_data_lem conn_i task_list_i header w conn there =
      let R =
        λ (_ : RequestHeader) (h : ClusterServerHandle). (h ≡ w.handle) × (conn.socket_fd ≢ none) in
      lift_lead R (bug_on (not (header.cmd == cmd_task))) _ w λ _ _.
        lift_lead R (bug_on (leb 256 (sizeof_header + w.handle.task_size))) _ w λ _ _.
          lift_lead R (bug_on (task_list_i == 18446744073709551615)) _ w λ _ _.
            index_lead R w.handle.client_conns conn_i _ w λ conn' there'.
              index_lead R conn'.task_list task_list_i _ w λ task _.
                lift_lead R
                  (read_at w.handle.user_tasks (task * w.handle.task_size) w.handle.task_size) _ w
                  λ bytes _. valid_fd_lead R conn'.socket_fd bug _ w λ fd e.
                    let c = send fd (header_bytes w.handle.host header ++ bytes) in
                    send_answer-Keeps (λ h. (h ≡ w.handle) × (conn.socket_fd ≢ none)) header
                      (sizeof_header + w.handle.task_size) (os.status w.trace c)
                      (record w { trace = c ∷ w.trace })
                      (refl, λ n. open_socket conn' fd there' e n)
    where
      open_socket :
          (conn' : Connection) (fd : ℕ)
          → get_elem? w.handle.client_conns conn_i ≡ some conn'
          → conn'.socket_fd ≡ some fd
          → conn.socket_fd ≢ none
      open_socket conn' fd there' e n = ground arith
