-- ===== src/Client/Transfer.antt =====
-- The two functions of cluster-api/cluster-client.c that move a frame over the connection.
pub mod Frames
pub mod Keep
pub mod Reassembly
use computing_cluster.Base.{
  ℕ, ◌+◌, ◌%◌, ◌^◌, Bool, true, false, not, ◌&&◌, List, [], ◌∷◌, ◌++◌, Option, none, some, leb,
  ◌==◌, if◌then◌else◌, length, drop, sub64,
}
use computing_cluster.Config.{
  RequestHeader, sizeof_header, err_conn_broken, err_not_ready, cmd_request_for_data, cmd_result,
}
use computing_cluster.Wire.{ByteOrder, load32, be32toh, header_bytes}
use computing_cluster.System.Outcome.{bug, failure, bug_on, index, read_at, write_at}
use computing_cluster.System.Kernel.{
  Kernel, Answer, done, failed, eagain, ewouldblock, epipe, recv, send,
}
use computing_cluster.System.Action.{
  pure, ◌>>=◌, ◌>>◌, exit, get, put, lift, syscall, syscall_input,
}
use computing_cluster.Client.Types.{Connection, ClusterClientHandle}
use computing_cluster.Client.Tasks.{Client}

abbrev pub with_cmd : RequestHeader → (cmd : ℕ) → RequestHeader
with_cmd header cmd = record header { cmd = cmd }

unfoldable pub parse_header : ByteOrder → (recv_buffer : List ℕ) → (cmd : ℕ) → RequestHeader
parse_header host recv_buffer cmd = record {
  cmd = cmd;
  task_id = be32toh host (load32 host (drop 1 recv_buffer));
}

-- The handle after `bytes` arrived behind those that it had.
abbrev pub grown :
    ClusterClientHandle → (recv_buffer : List ℕ) → (bytes_recieved : ℕ) → ClusterClientHandle
grown h recv_buffer bytes_recieved = record h {
  server_conn = record (h.server_conn) {
    recv_buffer = recv_buffer;
    bytes_recieved = bytes_recieved;
  };
}

-- What the caller is told: the header, if the frame is complete.
unfoldable pub frame_result :
    ByteOrder → (recv_buffer : List ℕ) → RequestHeader → (full : Bool) → Client RequestHeader
unfolding parse_header
frame_result host recv_buffer header true = do
  cmd ← lift (index recv_buffer 0)
  pure (parse_header host recv_buffer cmd)
frame_result host recv_buffer header false = pure (with_cmd header err_not_ready)

-- What follows a recv() that returned at least one byte.
unfoldable pub take_bytes : (bytes : List ℕ) → RequestHeader → Client RequestHeader
take_bytes bytes header = do
  h ← get
  buffer ← lift (write_at h.server_conn.recv_buffer h.server_conn.bytes_recieved bytes)
  let bytes_recieved' = (h.server_conn.bytes_recieved + length bytes) % 2 ^ 64
  let full = bytes_recieved' == sizeof_header + h.task_size
  put (grown h buffer (if full then 0 else bytes_recieved'))
  frame_result h.host buffer header full

abbrev pub recv_answer : RequestHeader → Answer (List ℕ) → Client RequestHeader
recv_answer header (failed eagain) = pure (with_cmd header err_not_ready)
recv_answer header (failed ewouldblock) = pure (with_cmd header err_not_ready)
recv_answer header (failed _) = exit failure
recv_answer header (done []) = pure (with_cmd header err_conn_broken)
recv_answer header (done (b ∷ bytes)) = take_bytes (b ∷ bytes) header

abbrev pub send_answer : RequestHeader → (expected : ℕ) → Answer ℕ → Client RequestHeader
send_answer header expected (failed eagain) = pure (with_cmd header err_not_ready)
send_answer header expected (failed ewouldblock) = pure (with_cmd header err_not_ready)
send_answer header expected (failed epipe) = pure (with_cmd header err_conn_broken)
send_answer header expected (failed _) = exit failure
send_answer header expected (done n) = if n == expected then pure header else exit failure

module _ (os : Kernel) where
  -- `header` is what the caller's variable holds before, which is not initialised.
  unfoldable pub read_data_on_connection : RequestHeader → Client RequestHeader
  read_data_on_connection header = do
    h ← get
    r ← syscall_input os (
        recv h.server_conn.socket_fd
          (sub64 (sizeof_header + h.task_size) h.server_conn.bytes_recieved))
    recv_answer header r

  -- The 256 bytes of the send buffer after the header, and after the result of an entry, if there is
  -- one: `none` is PUT_NO_DATA_TO_CONNECTION.
  unfoldable pub fill_send_buffer :
      (send_buffer : List ℕ) → (computation_i : Option ℕ) → Client (List ℕ)
  fill_send_buffer send_buffer none = pure send_buffer
  fill_send_buffer send_buffer (some computation_i) = do
    h ← get
    info ← lift (index h.thread_manager computation_i)
    data_to_send ← lift (read_at h.ret_buffer info.ret_pack h.ret_size)
    lift (write_at send_buffer sizeof_header data_to_send)

  -- `stack` is what the send buffer holds before anything is written to it.
  unfoldable pub put_data_to_connection :
      (stack : List ℕ) → (computation_i : Option ℕ) → RequestHeader → Client RequestHeader
  unfolding fill_send_buffer
  put_data_to_connection stack computation_i header = do
    h ← get
    lift (bug_on (not (header.cmd == cmd_request_for_data) && not (header.cmd == cmd_result)))
    lift (bug_on (leb 256 (sizeof_header + h.task_size)))
    with_header ← lift (write_at stack 0 (header_bytes h.host header))
    send_buffer ← fill_send_buffer with_header computation_i
    bytes ← lift (read_at send_buffer 0 (sizeof_header + h.ret_size))
    r ← syscall os (send h.server_conn.socket_fd bytes)
    send_answer header (sizeof_header + h.ret_size) r
