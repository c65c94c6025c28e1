-- ===== src/Server/Transfer.antt =====
-- The two functions of cluster-api/cluster-server.c that move a frame over a connection. Both tell
-- what happened by the command that they leave in the header.
pub mod Reassembly
pub mod Keep
use computing_cluster.Base.{
  ℕ, ◌+◌, ◌*◌, ◌%◌, ◌^◌, ◌≡◌, Bool, true, false, not, List, [], ◌∷◌, ◌++◌, set, leb, ◌==◌,
  if◌then◌else◌, length, drop, sub64, get_elem?,
}
use computing_cluster.Config.{
  RequestHeader, sizeof_header, err_conn_broken, err_not_ready, cmd_task,
}
use computing_cluster.Wire.{ByteOrder, load32, be32toh, header_bytes}
use computing_cluster.System.Outcome.{bug, bug_on, index, read_at, write_at}
use computing_cluster.System.Kernel.{
  Kernel, Answer, done, failed, eagain, ewouldblock, econnreset, epipe, recv, send,
}
use computing_cluster.System.Action.{
  pure, ◌>>=◌, ◌>>◌, exit, get, put, lift, syscall, syscall_input, valid_fd,
}
use computing_cluster.Server.Types.{Connection, ClusterServerHandle}
use computing_cluster.Server.Connections.{Server}

abbrev pub with_cmd : RequestHeader → (cmd : ℕ) → RequestHeader
with_cmd header cmd = record header { cmd = cmd }

-- The header at the start of a full buffer.
unfoldable pub parse_header : ByteOrder → (recv_buffer : List ℕ) → (cmd : ℕ) → RequestHeader
parse_header host recv_buffer cmd = record {
  cmd = cmd;
  task_id = be32toh host (load32 host (drop 1 recv_buffer));
}

-- The connection after `bytes` arrived behind those that it had.
abbrev pub grown : Connection → (recv_buffer : List ℕ) → (bytes_recieved : ℕ) → Connection
grown conn recv_buffer bytes_recieved = record conn {
  recv_buffer = recv_buffer;
  bytes_recieved = bytes_recieved;
}

module _ (os : Kernel) where
  -- What the caller is told: the header, if the frame is complete.
  unfoldable pub frame_result :
      ByteOrder → (recv_buffer : List ℕ) → RequestHeader → (full : Bool) → Server os RequestHeader
  unfolding parse_header
  frame_result host recv_buffer header true = do
    cmd ← lift (index recv_buffer 0)
    pure (parse_header host recv_buffer cmd)
  frame_result host recv_buffer header false = pure (with_cmd header err_not_ready)

  -- What follows a recv() that returned at least one byte.
  unfoldable pub take_bytes :
      (conn_i : ℕ) → Connection → (bytes : List ℕ) → RequestHeader → Server os RequestHeader
  take_bytes conn_i conn bytes header = do
    h ← get
    buffer ← lift (write_at conn.recv_buffer conn.bytes_recieved bytes)
    let bytes_recieved' = (conn.bytes_recieved + length bytes) % 2 ^ 64
    let full = bytes_recieved' == sizeof_header + h.ret_size
    put (record h {
      client_conns =
          set h.client_conns conn_i (grown conn buffer (if full then 0 else bytes_recieved'));
    })
    frame_result h.host buffer header full

  abbrev pub recv_answer :
      (conn_i : ℕ) → Connection → RequestHeader → Answer (List ℕ) → Server os RequestHeader
  recv_answer conn_i conn header (failed eagain) = pure (with_cmd header err_not_ready)
  recv_answer conn_i conn header (failed ewouldblock) = pure (with_cmd header err_not_ready)
  recv_answer conn_i conn header (failed econnreset) = pure (with_cmd header err_conn_broken)
  recv_answer conn_i conn header (failed _) = exit bug
  recv_answer conn_i conn header (done []) = pure (with_cmd header err_conn_broken)
  recv_answer conn_i conn header (done (b ∷ bytes)) = take_bytes conn_i conn (b ∷ bytes) header

  -- `header` is what the caller's variable holds before, which is not initialised.
  unfoldable pub read_data_on_connection : (conn_i : ℕ) → RequestHeader → Server os RequestHeader
  read_data_on_connection conn_i header = do
    h ← get
    conn ← lift (index h.client_conns conn_i)
    fd ← valid_fd conn.socket_fd bug
    r ← syscall_input os (recv fd (sub64 (sizeof_header + h.ret_size) conn.bytes_recieved))
    recv_answer conn_i conn header r

  abbrev pub send_answer : RequestHeader → (expected : ℕ) → Answer ℕ → Server os RequestHeader
  send_answer header expected (failed eagain) = pure (with_cmd header err_not_ready)
  send_answer header expected (failed ewouldblock) = pure (with_cmd header err_not_ready)
  send_answer header expected (failed epipe) = pure (with_cmd header err_conn_broken)
  send_answer header expected (failed _) = exit bug
  send_answer header expected (done n) = if n == expected then pure header else exit bug

  -- The send buffer has 256 bytes; `task_list_i == -1` compares numbers of 64 bits.
  unfoldable pub put_data_to_connection :
      (conn_i task_list_i : ℕ) → RequestHeader → Server os RequestHeader
  put_data_to_connection conn_i task_list_i header = do
    h ← get
    lift (bug_on (not (header.cmd == cmd_task)))
    lift (bug_on (leb 256 (sizeof_header + h.task_size)))
    lift (bug_on (task_list_i == 18446744073709551615))
    conn ← lift (index h.client_conns conn_i)
    task_global_i ← lift (index conn.task_list task_list_i)
    data_to_send ← lift (read_at h.user_tasks (task_global_i * h.task_size) h.task_size)
    fd ← valid_fd conn.socket_fd bug
    r ← syscall os (send fd (header_bytes h.host header ++ data_to_send))
    send_answer header (sizeof_header + h.task_size) r
