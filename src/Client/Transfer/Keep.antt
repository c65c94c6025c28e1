-- ===== src/Client/Transfer/Keep.antt =====
-- Reading from the connection stays within the receive buffer and keeps the invariant.
use computing_cluster.Base.{
  ℕ, ◌+◌, ◌%◌, ◌≤◌, ◌<◌, ◌≡◌, refl, Bool, true, false, List, [], ◌∷◌, arith, length, ◌==◌, sub64,
  if◌then◌else◌, get_elem?_total,
}
use computing_cluster.Base.Bytes.{length-splice}
use computing_cluster.Config.{RequestHeader, sizeof_header}
use computing_cluster.Wire.{ByteOrder}
use computing_cluster.System.Kernel.{Kernel, Trace, Answer, done, failed, eagain, ewouldblock, recv}
use computing_cluster.System.Action.{World}
use computing_cluster.System.Traced.{Brings, Holds, after, index_brings}
use computing_cluster.System.Packs.{splice, write_at-splice}
use computing_cluster.Client.Types.{ClusterClientHandle}
use computing_cluster.Client.Transfer.{
  grown, frame_result, take_bytes, recv_answer, read_data_on_connection,
}
use computing_cluster.Client.Invariant.{pending, ClientInv, ClientInv-conn, ClientInv-calls}

-- recv() stores at most as many bytes as it was asked for.
abbrev pub ReadsAtMost : Kernel → Type 0
ReadsAtMost os =
    (before : Trace) (fd n : ℕ) (bytes : List ℕ)
    → os.input before (recv fd n) ≡ done bytes
    → length bytes ≤ n

module _ (os : Kernel) (compute : List ℕ → List ℕ) where
  abbrev P : World ClusterClientHandle → Type 0
  P = ClientInv compute

  frame_result-Holds :
      (host : ByteOrder) (buffer : List ℕ) (header : RequestHeader) (full : Bool)
      → 0 < length buffer
      → Holds P (frame_result host buffer header full)
  unfolding frame_result
  frame_result-Holds host buffer header true some_bytes w v =
      let (cmd, first) = get_elem?_total buffer 0 some_bytes in
      index_brings (λ _. P) buffer 0 _ w first v
  frame_result-Holds host buffer header false some_bytes w v = v

  take_bytes-brings :
      (bytes : List ℕ) (header : RequestHeader) (w : World ClusterClientHandle)
      → ClientInv compute w
      → w.handle.server_conn.bytes_recieved + length bytes ≤ sizeof_header + w.handle.task_size
      → Brings (take_bytes bytes header) w (λ _. P)
  unfolding take_bytes
  take_bytes-brings bytes header w v fits =
      let conn = w.handle.server_conn in
      let full =
        (conn.bytes_recieved + length bytes) % 18446744073709551616
        == sizeof_header + w.handle.task_size in
      let now = if full then 0 else (conn.bytes_recieved + length bytes) % 18446744073709551616 in
      let buffer = splice conn.recv_buffer conn.bytes_recieved bytes in
      let len : length buffer ≡ sizeof_header + w.handle.task_size = omega (
        arith,
        length-splice conn.recv_buffer bytes conn.bytes_recieved (omega (arith, v.conn.buffer)),
        v.conn.buffer,
      ) in
      let part : now < sizeof_header + w.handle.task_size = ground (arith, v.conn.frame_small) in
      rw (write_at-splice conn.recv_buffer conn.bytes_recieved bytes (omega (arith, v.conn.buffer)))
        (frame_result-Holds w.handle.host buffer header full (omega arith)
          (record w { handle = grown w.handle buffer now })
          (ClientInv-conn compute (record conn { recv_buffer = buffer; bytes_recieved = now })
            w.handle.server_addr w.handle.initial_requests v len part))

  answer-brings :
      (header : RequestHeader) (r : Answer (List ℕ)) (w : World ClusterClientHandle)
      → ClientInv compute w
      → ((bytes : List ℕ)
          → r ≡ done bytes
          → w.handle.server_conn.bytes_recieved + length bytes ≤ sizeof_header + w.handle.task_size)
      → Brings (recv_answer header r) w (λ _. P)
  answer-brings header (failed eagain) w v fits = v
  answer-brings header (failed ewouldblock) w v fits = v
  answer-brings header (failed e) w v fits = tt
  answer-brings header (done []) w v fits = v
  answer-brings header (done (b ∷ bytes)) w v fits =
      take_bytes-brings (b ∷ bytes) header w v (fits (b ∷ bytes) refl)

  pub read_data-Holds :
      ReadsAtMost os → (header : RequestHeader) → Holds P (read_data_on_connection os header)
  unfolding read_data_on_connection pending
  read_data-Holds reads header w v =
      let n = sub64 (sizeof_header + w.handle.task_size) w.handle.server_conn.bytes_recieved in
      let c = recv w.handle.server_conn.socket_fd n in
      answer-brings header (os.input w.trace c) (after w c)
        (ClientInv-calls compute (c ∷ w.trace) v (λ fd. refl))
        (λ bytes e. omega (
          arith,
          reads w.trace w.handle.server_conn.socket_fd n bytes e,
          v.conn.partial,
          v.conn.frame_small,
        ))
