-- ===== src/Client/Eventloop/Sends.antt =====
-- What the client sends keeps its invariant, and stays within the buffers.
use computing_cluster.Base.{
  ℕ, zero, suc, ◌+◌, ◌≤◌, ◌<◌, ◌≡◌, refl, Bool, true, false, List, ◌∷◌, none, some, arith, length,
  leb, ◌==◌, if◌then◌else◌, get_elem?, get_elem?_total, Bool-cases, inl, inr, dec64,
}
use computing_cluster.Config.{
  RequestHeader, no_task, sizeof_header, cmd_result, cmd_request_for_data, err_conn_broken,
  err_not_ready,
}
use computing_cluster.Wire.{htobe32}
use computing_cluster.System.Kernel.{Kernel, Answer, done, failed, eagain, ewouldblock, epipe, send}
use computing_cluster.System.Action.{World, pure, ◌>>=◌, ◌>>◌, get, put}
use computing_cluster.System.Traced.{Brings, Holds, Brings-bind, Holds-bind, after, index_brings}
use computing_cluster.Client.Types.{ThreadInfo, ClusterClientHandle}
use computing_cluster.Client.Tasks.{Client, with_thread}
use computing_cluster.Client.Transfer.{put_data_to_connection, send_answer}
use computing_cluster.Client.Transfer.Frames.{
  result_frame, request_frame, put_data-big, put_result-eq, put_request-eq,
}
use computing_cluster.Client.Connections.{update_connection_management}
use computing_cluster.Client.Connections.Keep.{update-Holds}
use computing_cluster.Client.Invariant.{pending, ClientInv, ClientInv-calls, ClientInv-conn}
use computing_cluster.Client.Entries.{sent-ClientInv}
use computing_cluster.Client.Workers.{waiting-finished}
use computing_cluster.Client.Eventloop.{
  on, skip, lost, if_on, sent, handle_sent, send_result, send_results, send_request, send_requests,
  send_all, write_disabled,
}
use computing_cluster.Client.Eventloop.Steps.{after_on, if_on-Holds, if-Holds, M, forget}

module _ (os : Kernel) (compute : List ℕ → List ℕ) (stack : List ℕ)
    (room : length stack ≡ 256) where
  abbrev P : World ClusterClientHandle → Type 0
  P = ClientInv compute

  -- The four ways in which a send can end.
  sent-brings :
      (Q : World ClusterClientHandle → Type 0) (header : RequestHeader) (freed : Client (Unit {0}))
      (expected : ℕ) (r : Answer ℕ) (w : World ClusterClientHandle)
      → (header.cmd == err_conn_broken) ≡ false
      → (header.cmd == err_not_ready) ≡ false
      → Q w
      → Brings freed w (λ _. Q)
      → Brings (send_answer header expected r >>= λ header'. handle_sent header' freed) w (λ _. Q)
  unfolding handle_sent
  sent-brings Q header freed expected (failed eagain) w b n v f = v
  sent-brings Q header freed expected (failed ewouldblock) w b n v f = v
  sent-brings Q header freed expected (failed epipe) w b n v f = v
  sent-brings Q header freed expected (failed e) w b n v f = tt
  sent-brings Q header freed expected (done k) w b n v f = elim (Bool-cases (k == expected)) [
    | inl all ↦ rw (all, b, n) (Brings-bind (λ _. Q) (λ _. Q) freed (λ _. pure on) w f (λ _ _ q. q))
    | inr part ↦ rw part tt
  ]

  send_waiting :
      (m i : ℕ) (t : ThreadInfo) (w : World ClusterClientHandle)
      → M compute m w
      → get_elem? w.handle.thread_manager i ≡ some t
      → t.waiting_to_be_sent ≡ true
      → Brings
          (do
            header ←
                put_data_to_connection os stack
                  (some i)
                  (record { cmd = cmd_result; task_id = htobe32 w.handle.host t.task_id })
            handle_sent header (put (with_thread w.handle i (sent t))))
          w
          (λ _. M compute m)
  unfolding pending
  send_waiting m i t w (v, same) there waits =
      let header : RequestHeader = record {
        cmd = cmd_result;
        task_id = htobe32 w.handle.host t.task_id;
      } in
      let c = send w.handle.server_conn.socket_fd (result_frame w.handle header t) in
      let v' : P (after w c) = ClientInv-calls compute (c ∷ w.trace) v (λ fd. refl) in
      let (gone, quiet, _) = waiting-finished (v.phases i t there) waits in
      elim (Bool-cases (leb 256 (sizeof_header + w.handle.task_size))) [
        | inl big ↦ rw (put_data-big os w stack (some i) header refl big) tt
        | inr small ↦ rw (put_result-eq os v stack room header refl small i t there) (
            sent-brings (M compute m) header (put (with_thread w.handle i (sent t)))
              (sizeof_header + w.handle.ret_size) (os.status w.trace c) (after w c) refl refl
              (v', same) (sent-ClientInv v' i t there gone quiet, same))
      ]

  send_if :
      (b : Bool) (m i : ℕ) (t : ThreadInfo) (w : World ClusterClientHandle)
      → M compute m w
      → get_elem? w.handle.thread_manager i ≡ some t
      → t.waiting_to_be_sent ≡ b
      → Brings
          (if b
            then (do
              header ←
                  put_data_to_connection os stack
                    (some i)
                    (record { cmd = cmd_result; task_id = htobe32 w.handle.host t.task_id })
              handle_sent header (put (with_thread w.handle i (sent t))))
            else pure on)
          w
          (λ _. M compute m)
  send_if true m i t w p there waits = send_waiting m i t w p there waits
  send_if false m i t w p there waits = p

  send_result-Holds : (m i : ℕ) → i < m → Holds (M compute m) (send_result os stack i)
  unfolding send_result
  send_result-Holds m i lt w (v, same) =
      let (t, there) =
        get_elem?_total w.handle.thread_manager i (omega (arith, v.layout.entries, same)) in
      index_brings (λ _. M compute m) w.handle.thread_manager i _ w there
        (send_if t.waiting_to_be_sent m i t w (v, same) there refl)

  send_results-Holds :
      (m rounds i : ℕ) → i + rounds ≤ m → Holds (M compute m) (send_results os stack rounds i)
  unfolding send_results
  send_results-Holds m zero i le w v = v
  send_results-Holds m (suc rounds) i le w v =
      Holds-bind (M compute m) (send_result os stack i)
        (λ p. elim p [
          | on ↦ send_results os stack rounds (i + 1)
          | skip ↦ pure skip
          | lost ↦ pure lost
        ])
        (send_result-Holds m i (omega arith))
        (λ p.
          after_on compute (M compute m) p (send_results os stack rounds (i + 1))
            (send_results-Holds m rounds (i + 1) (omega arith)))
        w v

  send_request-Holds : Holds P (send_request os stack)
  unfolding send_request pending
  send_request-Holds w v =
      let header : RequestHeader = record {
        cmd = cmd_request_for_data;
        task_id = htobe32 w.handle.host no_task;
      } in
      let c = send w.handle.server_conn.socket_fd (request_frame w.handle header stack) in
      let v' : P (after w c) = ClientInv-calls compute (c ∷ w.trace) v (λ fd. refl) in
      elim (Bool-cases (leb 256 (sizeof_header + w.handle.task_size))) [
        | inl big ↦ rw (put_data-big os w stack none header refl big) tt
        | inr small ↦ rw (put_request-eq os v stack room header refl small) (
            sent-brings P header
              (put (record (w.handle) { initial_requests = dec64 w.handle.initial_requests }))
              (sizeof_header + w.handle.ret_size) (os.status w.trace c) (after w c) refl refl v'
              (ClientInv-conn compute w.handle.server_conn w.handle.server_addr
                (dec64 w.handle.initial_requests) v' v.conn.buffer v.conn.partial))
      ]

  send_requests-Holds : (fuel : ℕ) → Holds P (send_requests os stack fuel)
  unfolding send_requests
  send_requests-Holds zero w v = tt
  send_requests-Holds (suc fuel) w v =
      if-Holds compute (w.handle.initial_requests == 0) (pure on)
        (if_on (send_request os stack) (send_requests os stack fuel)) (λ _ q. q)
        (if_on-Holds compute (send_request os stack) (send_requests os stack fuel)
          send_request-Holds (send_requests-Holds fuel))
        w v

  disable_write : Holds P (do update_connection_management os write_disabled; pure on)
  disable_write w v =
      Brings-bind (λ _ w'. P w' × Unit {0}) (λ _. P)
        (update_connection_management os write_disabled) (λ _. pure on) w
        (update-Holds os compute (λ _. Unit) write_disabled w (v, tt)) (λ _ _ q. q.0)

  requests-Holds : Holds P (do
    h' ← get
    if_on
        (send_requests os stack (suc h'.initial_requests))
        (do update_connection_management os write_disabled; pure on))
  requests-Holds w v =
      if_on-Holds compute (send_requests os stack (suc w.handle.initial_requests)) _
        (send_requests-Holds (suc w.handle.initial_requests)) disable_write w v

  pub send_all-Holds : Holds P (send_all os stack)
  unfolding send_all
  send_all-Holds w v =
      Brings-bind (λ _. P) (λ _. P) (send_results os stack w.handle.max_threads 0) _ w
        (forget compute w.handle.max_threads (send_results os stack w.handle.max_threads 0) w (
          send_results-Holds w.handle.max_threads w.handle.max_threads 0 (omega arith) w (v, refl)))
        (λ p w' v'. after_on compute P p _ requests-Holds w' v')
