-- ===== src/Client/Transfer/Frames.antt =====
-- What the client sends: the bytes of a frame, for a result and for a request.
use computing_cluster.Base.{
  ℕ, ◌+◌, ◌≤◌, ◌≡◌, ap, ◌∙◌, subst, Bool, true, false, not, ◌&&◌, List, [], ◌∷◌, ◌++◌, Option, none,
  some, arith, leb, ◌==◌, length, get_elem?, take, drop, length-append, length-drop,
  take-length-append,
}
use native.Mathlib.Nat.{zero-add, suc-add}
use computing_cluster.Config.{RequestHeader, sizeof_header, cmd_request_for_data, cmd_result}
use computing_cluster.Wire.{header_bytes}
use computing_cluster.Wire.RoundTrip.{length-header_bytes}
use computing_cluster.System.Outcome.{ok, exits, bug, read_at, write_at}
use computing_cluster.System.Kernel.{Kernel, send}
use computing_cluster.System.Action.{World}
use computing_cluster.System.Traced.{after}
use computing_cluster.System.Packs.{pack, splice, read_at-pack, write_at-splice, length-pack}
use computing_cluster.Client.Types.{ThreadInfo, ClusterClientHandle}
use computing_cluster.Client.Transfer.{fill_send_buffer, put_data_to_connection, send_answer}
use computing_cluster.Client.Invariant.{ClientInv}
use computing_cluster.Client.Entries.{ret_inside}

take-append_more : (xs ys : List ℕ) (n : ℕ) → take (length xs + n) (xs ++ ys) ≡ xs ++ take n ys
take-append_more [] ys n = rw zero-add
take-append_more (x ∷ xs) ys n = rw suc-add (ap (◌∷◌ x) (take-append_more xs ys n))

-- A frame in the send buffer, behind which the old bytes stand.
splice-splice :
    (stack header data_to_send : List ℕ)
    → splice (splice stack 0 header) (length header) data_to_send
      ≡ header
        ++ (data_to_send ++ drop (length header + length data_to_send) (splice stack 0 header))
splice-splice stack header data_to_send =
    ap
      (λ l.
        l ++ (data_to_send ++ drop (length header + length data_to_send) (splice stack 0 header)))
      (take-length-append header (drop (0 + length header) stack))

take-frame :
    (header data_to_send rest : List ℕ)
    → take (length header + length data_to_send) (header ++ (data_to_send ++ rest))
      ≡ header ++ data_to_send
take-frame header data_to_send rest =
    take-append_more header (data_to_send ++ rest) (length data_to_send)
    ∙ ap (◌++◌ header) (take-length-append data_to_send rest)

read_frame :
    (stack header data_to_send : List ℕ)
    → length header + length data_to_send ≤ length stack
    → read_at
        (splice (splice stack 0 header) (length header) data_to_send)
        0
        (length header + length data_to_send)
      ≡ ok (header ++ data_to_send)
read_frame stack header data_to_send h =
    let whole = splice-splice stack header data_to_send in
    let rest = drop (length header + length data_to_send) (splice stack 0 header) in
    rw whole (
      read_at-pack (header ++ (data_to_send ++ rest)) 0 (length header + length data_to_send) (
        omega (arith, length-append header (data_to_send ++ rest), length-append data_to_send rest))
      ∙ ap ok (take-frame header data_to_send rest))

-- The same with the lengths given.
read_frame_of :
    (stack header data_to_send : List ℕ) (k n : ℕ)
    → length header ≡ k
    → length data_to_send ≡ n
    → k + n ≤ length stack
    → read_at (splice (splice stack 0 header) k data_to_send) 0 (k + n)
      ≡ ok (header ++ data_to_send)
read_frame_of stack header data_to_send k n ek en h =
    subst
      (λ n.
        read_at (splice (splice stack 0 header) k data_to_send) 0 (k + n)
        ≡ ok (header ++ data_to_send))
      en
      (subst
        (λ k.
          read_at (splice (splice stack 0 header) k data_to_send) 0 (k + length data_to_send)
          ≡ ok (header ++ data_to_send))
        ek (read_frame stack header data_to_send (omega arith)))

abbrev pub is_command : RequestHeader → Bool
is_command header = not (header.cmd == cmd_request_for_data) && not (header.cmd == cmd_result)

-- The frame of a result: the header, and the result pack of the entry.
abbrev pub result_frame : ClusterClientHandle → RequestHeader → ThreadInfo → List ℕ
result_frame h header t = header_bytes h.host header ++ pack h.ret_buffer t.ret_pack h.ret_size

-- The frame of a request: behind the header stands what the stack held.
abbrev pub request_frame : ClusterClientHandle → RequestHeader → (stack : List ℕ) → List ℕ
request_frame h header stack = header_bytes h.host header ++ pack stack sizeof_header h.ret_size

-- A frame that is too large for the send buffer ends the client.
pub put_data-big :
    (os : Kernel) (w : World ClusterClientHandle) (stack : List ℕ) (computation_i : Option ℕ)
    (header : RequestHeader)
    → is_command header ≡ false
    → leb 256 (sizeof_header + w.handle.task_size) ≡ true
    → put_data_to_connection os stack computation_i header w ≡ exits bug
unfolding put_data_to_connection
put_data-big os w stack computation_i header known big = rw (known, big)

module _ (os : Kernel) {compute : List ℕ → List ℕ} {w : World ClusterClientHandle}
    (v : ClientInv compute w) (stack : List ℕ) (room : length stack ≡ 256) (header : RequestHeader)
    (known : is_command header ≡ false)
    (small_task : leb 256 (sizeof_header + w.handle.task_size) ≡ false) where
  frame_length : length (header_bytes w.handle.host header) ≡ 5
  frame_length = length-header_bytes w.handle.host header

  abbrev filled : List ℕ
  filled = splice stack 0 (header_bytes w.handle.host header)

  length-filled : length filled ≡ 256
  length-filled = omega (
    arith,
    room,
    frame_length,
    length-append (header_bytes w.handle.host header)
        (drop (0 + length (header_bytes w.handle.host header)) stack),
    length-drop (0 + length (header_bytes w.handle.host header)) stack,
  )

  wrote : write_at stack 0 (header_bytes w.handle.host header) ≡ ok filled
  wrote =
      write_at-splice stack 0 (header_bytes w.handle.host header)
        (omega (arith, frame_length, room))

  -- The result of an entry goes out behind the header, and what the kernel answers is looked at.
  pub put_result-eq :
      (i : ℕ) (t : ThreadInfo)
      → get_elem? w.handle.thread_manager i ≡ some t
      → put_data_to_connection os stack (some i) header w
        ≡ send_answer header
            (sizeof_header + w.handle.ret_size)
            (os.status w.trace
              (send w.handle.server_conn.socket_fd (result_frame w.handle header t)))
            (after w (send w.handle.server_conn.socket_fd (result_frame w.handle header t)))
  unfolding put_data_to_connection fill_send_buffer
  put_result-eq i t there =
      let value = pack w.handle.ret_buffer t.ret_pack w.handle.ret_size in
      let len : length value ≡ w.handle.ret_size =
        length-pack w.handle.ret_buffer t.ret_pack w.handle.ret_size (ret_inside v i t there) in
      let both : write_at filled sizeof_header value ≡ ok (splice filled sizeof_header value) =
        write_at-splice filled sizeof_header value
          (omega (arith, length-filled, v.send_room, len)) in
      let frame : read_at (splice filled sizeof_header value) 0 (sizeof_header + w.handle.ret_size)
          ≡ ok (result_frame w.handle header t) =
        read_frame_of stack (header_bytes w.handle.host header) value sizeof_header
          w.handle.ret_size frame_length len (omega (arith, room, v.send_room)) in
      rw (
        known,
        small_task,
        wrote,
        there,
        read_at-pack w.handle.ret_buffer t.ret_pack w.handle.ret_size (ret_inside v i t there),
        both,
        frame,
      )

  -- A request goes out as long as a result.
  pub put_request-eq :
      put_data_to_connection os stack none header w
      ≡ send_answer header
          (sizeof_header + w.handle.ret_size)
          (os.status w.trace
            (send w.handle.server_conn.socket_fd (request_frame w.handle header stack)))
          (after w (send w.handle.server_conn.socket_fd (request_frame w.handle header stack)))
  unfolding put_data_to_connection fill_send_buffer
  put_request-eq =
      let frame : read_at filled 0 (sizeof_header + w.handle.ret_size)
          ≡ ok (request_frame w.handle header stack) =
        read_at-pack filled 0 (sizeof_header + w.handle.ret_size)
          (omega (arith, length-filled, v.send_room))
        ∙ ap ok (
            subst
              (λ k.
                take (k + w.handle.ret_size) filled
                ≡ header_bytes w.handle.host header ++ take w.handle.ret_size (drop k stack))
              frame_length
              (take-append_more (header_bytes w.handle.host header)
                  (drop (0 + length (header_bytes w.handle.host header)) stack) w.handle.ret_size
                ∙ ap
                    (λ k.
                      header_bytes w.handle.host header ++ take w.handle.ret_size (drop k stack))
                    (omega arith))) in
      rw (known, small_task, wrote, frame)
