-- ===== src/Client/Requests.antt =====
-- The requests for tasks: one for each entry, and what a large size of a result does to them.
use computing_cluster.Base.{
  ℕ, zero, suc, ◌+◌, ◌≤◌, ◌<◌, ◌≡◌, refl, ap, ◌∙◌, false, List, ◌∷◌, ◌++◌, arith, leb, ◌==◌, length,
  replicate, dec64, ==_refl, ne→==,
}
use computing_cluster.Base.Bytes.{length-splice}
use computing_cluster.Config.{RequestHeader, no_task, sizeof_header, cmd_request_for_data}
use computing_cluster.Wire.{htobe32, header_bytes}
use computing_cluster.Wire.RoundTrip.{length-header_bytes}
use computing_cluster.System.Outcome.{ok, fault}
use computing_cluster.System.Kernel.{Kernel, Trace, Call, done, send}
use computing_cluster.System.Action.{World}
use computing_cluster.System.Packs.{splice, write_at-splice}
use computing_cluster.Client.Types.{ClusterClientHandle}
use computing_cluster.Client.Transfer.{put_data_to_connection, fill_send_buffer}
use computing_cluster.Client.Transfer.Frames.{request_frame, put_request-eq}
use computing_cluster.Client.Eventloop.{on, handle_sent, send_request, send_requests}
use computing_cluster.Client.Invariant.{ClientInv, ClientInv-calls, ClientInv-conn, pending}

replicate-more :
    {A : Type 0} (n : ℕ) (x : A) (xs : List A)
    → replicate n x ++ (x ∷ xs) ≡ x ∷ (replicate n x ++ xs)
replicate-more zero x xs = refl
replicate-more (suc n) x xs = ap (◌∷◌ x) (replicate-more n x xs)

abbrev pub request_header : ClusterClientHandle → RequestHeader
request_header h = record { cmd = cmd_request_for_data; task_id = htobe32 h.host no_task }

-- The call that sends one request.
abbrev pub sends_request : ClusterClientHandle → (stack : List ℕ) → Call
sends_request h stack = send h.server_conn.socket_fd (request_frame h (request_header h) stack)

-- After `n` requests were sent: `left` are still to be sent.
abbrev pub requested :
    World ClusterClientHandle → (stack : List ℕ) → (n left : ℕ) → World ClusterClientHandle
requested w stack n left = record {
  handle = record (w.handle) { initial_requests = left };
  trace = replicate n (sends_request w.handle stack) ++ w.trace;
}

module _ (os : Kernel) (compute : List ℕ → List ℕ) (stack : List ℕ)
    (room : length stack ≡ 256) where
  request_sent :
      (w : World ClusterClientHandle)
      → ClientInv compute w
      → leb 256 (sizeof_header + w.handle.task_size) ≡ false
      → os.status w.trace (sends_request w.handle stack) ≡ done (sizeof_header + w.handle.ret_size)
      → send_request os stack w ≡ ok (on, requested w stack 1 (dec64 w.handle.initial_requests))
  unfolding send_request handle_sent
  request_sent w v small accepted =
      rw
        (
          put_request-eq os v stack room (request_header w.handle) refl small,
          accepted,
          ==_refl (sizeof_header + w.handle.ret_size),
        )
        refl

  requested-ClientInv :
      (w : World ClusterClientHandle) (left : ℕ)
      → ClientInv compute w
      → ClientInv compute (requested w stack 1 left)
  unfolding pending
  requested-ClientInv w left v =
      ClientInv-conn compute w.handle.server_conn w.handle.server_addr left
        (ClientInv-calls compute (sends_request w.handle stack ∷ w.trace) v (λ fd. refl))
        v.conn.buffer v.conn.partial

  -- From a world with the invariant, where a frame of a task fits into the send buffer, which has
  -- 256 bytes, and the kernel takes each request whole: the loop that sends the requests ends,
  -- having sent as many frames with CMD_REQUEST_FOR_DATA as the counter says, and the counter is 0;
  -- nothing else has changed.
  pub send_requests-all :
      (n : ℕ) (w : World ClusterClientHandle)
      → ClientInv compute w
      → leb 256 (sizeof_header + w.handle.task_size) ≡ false
      → w.handle.initial_requests ≡ n
      → n < 18446744073709551616
      → ((before : Trace)
          → os.status before (sends_request w.handle stack)
            ≡ done (sizeof_header + w.handle.ret_size))
      → send_requests os stack (suc n) w ≡ ok (on, requested w stack n 0)
  unfolding send_requests
  send_requests-all zero w v small count bound accepts = rw count
  send_requests-all (suc n) w v small count bound accepts =
      let more : (w.handle.initial_requests == 0) ≡ false =
        ne→== w.handle.initial_requests 0 (λ e. omega (arith, e, count)) in
      let less : dec64 w.handle.initial_requests ≡ n = omega (arith, count) in
      let w' = requested w stack 1 n in
      let rest : send_requests os stack (suc n) w' ≡ ok (on, requested w' stack n 0) =
        send_requests-all n w' (requested-ClientInv w n v) small refl (omega arith) accepts in
      rw (more, request_sent w v small (accepts w.trace), less, rest)
        (ap
          (λ t. ok (on, record { handle = record (w.handle) { initial_requests = 0 }; trace = t }))
          (replicate-more n (sends_request w.handle stack) w.trace))

-- With a send buffer of 256 bytes, where a task fits into it and the result of a task does not: the
-- first request that the client sends, whatever it holds, reads beyond the send buffer, because the
-- check is of the size of a task and the length of the frame is that of a result.
pub send_request-overread :
    (os : Kernel) (stack : List ℕ) (w : World ClusterClientHandle)
    → length stack ≡ 256
    → leb 256 (sizeof_header + w.handle.task_size) ≡ false
    → 251 < w.handle.ret_size
    → send_request os stack w ≡ fault
unfolding send_request put_data_to_connection fill_send_buffer
send_request-overread os stack w room small large =
    let head = header_bytes w.handle.host (request_header w.handle) in
    let head_len : length head ≡ 5 = length-header_bytes w.handle.host (request_header w.handle) in
    let fits : 0 + length head ≤ length stack = omega (arith, room, head_len) in
    let len : length (splice stack 0 head) ≡ 256 = length-splice stack head 0 fits ∙ room in
    let over : leb (0 + (sizeof_header + w.handle.ret_size)) (length (splice stack 0 head))
        ≡ false =
      rw len (ground arith) in
    rw (small, write_at-splice stack 0 head fits, over) refl
