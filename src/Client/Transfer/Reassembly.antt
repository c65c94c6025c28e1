-- ===== src/Client/Transfer/Reassembly.antt =====
-- A frame that TCP delivers to the client in pieces, through read_data_on_connection().
use computing_cluster.Base.{
  ℕ, suc, ◌+◌, ◌-◌, ◌%◌, ◌<◌, ◌≡◌, refl, sym, ap, ◌∙◌, true, List, [], ◌∷◌, ◌++◌, some, arith, ◌==◌,
  length, get_elem?, drop, length-append, length-drop, subst, ne→==,
}
use mathlib.Core.List.{append-nil, append_assoc, flatten}
use computing_cluster.Base.Each.{Each}
use computing_cluster.Config.{RequestHeader, sizeof_header, err_not_ready}
use computing_cluster.Wire.{ByteOrder, htobe32, header_bytes}
use computing_cluster.Wire.RoundTrip.{be32toh-htobe32, length-header_bytes}
use computing_cluster.System.Outcome.{ok}
use computing_cluster.System.Pieces.{write_at-append, drop_all}
use computing_cluster.System.Action.{World, pure, ◌>>=◌}
use computing_cluster.Client.Types.{ClusterClientHandle}
use computing_cluster.Client.Tasks.{Client}
use computing_cluster.Client.Transfer.{with_cmd, parse_header, grown, frame_result, take_bytes}
use computing_cluster.Client.Invariant.{ClientInv}

-- The connection's buffer and the number of bytes in it, changed.
abbrev pub moved :
    World ClusterClientHandle
    → (recv_buffer : List ℕ) (bytes_recieved : ℕ) → World ClusterClientHandle
moved w recv_buffer bytes_recieved = record w { handle = grown w.handle recv_buffer bytes_recieved }

-- The pieces arrive one after the other, and the header is left by the last call.
unfoldable pub receive_all : (pieces : List (List ℕ)) → RequestHeader → Client RequestHeader
receive_all [] header = pure header
receive_all (p ∷ ps) header = take_bytes p header >>= λ header'. receive_all ps header'

module _ (w : World ClusterClientHandle) (got rest : List ℕ)
    (buffer : w.handle.server_conn.recv_buffer ≡ got ++ rest)
    (n : w.handle.server_conn.bytes_recieved ≡ length got)
    (total : length got + length rest ≡ sizeof_header + w.handle.task_size)
    (small : sizeof_header + w.handle.task_size < 18446744073709551616) where
  -- A piece that does not complete the frame.
  client_partial :
      (bytes : List ℕ) (header : RequestHeader)
      → length bytes < length rest
      → take_bytes bytes header w
        ≡ ok (
          with_cmd header err_not_ready,
          moved w (got ++ (bytes ++ drop (length bytes) rest)) (length got + length bytes),
        )
  unfolding take_bytes frame_result
  client_partial bytes header less =
      let fits : (length got + length bytes) % 18446744073709551616 ≡ length got + length bytes =
        omega arith in
      rw (
        buffer,
        n,
        write_at-append got rest bytes (omega arith),
        fits,
        ne→== (length got + length bytes) (sizeof_header + w.handle.task_size) (λ e. omega arith),
      )

  -- The piece that does.
  client_full :
      (bytes : List ℕ) (header : RequestHeader) (cmd : ℕ)
      → length bytes ≡ length rest
      → get_elem? (got ++ bytes) 0 ≡ some cmd
      → take_bytes bytes header w
        ≡ ok (parse_header w.handle.host (got ++ bytes) cmd, moved w (got ++ bytes) 0)
  unfolding take_bytes frame_result
  client_full bytes header cmd all first =
      let fits : (length got + length bytes) % 18446744073709551616 ≡ length got + length bytes =
        omega arith in
      let full : (length got + length bytes == sizeof_header + w.handle.task_size) ≡ true =
        ground arith in
      let nothing : got ++ (bytes ++ drop (length bytes) rest) ≡ got ++ bytes =
        rw (all, drop_all rest, append-nil bytes) in
      rw (buffer, n, write_at-append got rest bytes (omega arith), nothing, fits, full, first)

receive_step :
    (p : List ℕ) (ps : List (List ℕ)) (header result : RequestHeader)
    (w w' : World ClusterClientHandle)
    → take_bytes p header w ≡ ok (result, w')
    → receive_all (p ∷ ps) header w ≡ receive_all ps result w'
unfolding receive_all
receive_step p ps header result w w' e = rw e

receive_last :
    (p : List ℕ) (header result : RequestHeader) (w w' : World ClusterClientHandle)
    → take_bytes p header w ≡ ok (result, w')
    → receive_all (p ∷ []) header w ≡ ok (result, w')
unfolding receive_all
receive_last p header result w w' e = rw e

receive_rest :
    (pieces : List (List ℕ)) (header : RequestHeader) (w : World ClusterClientHandle)
    (got rest : List ℕ) (cmd : ℕ)
    → w.handle.server_conn.recv_buffer ≡ got ++ rest
    → w.handle.server_conn.bytes_recieved ≡ length got
    → length got + length rest ≡ sizeof_header + w.handle.task_size
    → sizeof_header + w.handle.task_size < 18446744073709551616
    → length (flatten pieces) ≡ length rest
    → 0 < length rest
    → Each (λ _ p. 0 < length p) pieces
    → get_elem? (got ++ flatten pieces) 0 ≡ some cmd
    → receive_all pieces header w
      ≡ ok (
        parse_header w.handle.host (got ++ flatten pieces) cmd,
        moved w (got ++ flatten pieces) 0,
      )
unfolding flatten
receive_rest [] header w got rest cmd buffer n total small same some_left cut first =
    absurd (omega (arith, same, some_left))
receive_rest (p ∷ []) header w got rest cmd buffer n total small same some_left cut first =
    let e : p ++ [] ≡ p = append-nil p in
    let all : length p ≡ length rest = ap length (sym e) ∙ same in
    rw e (
      receive_last p header _ w _ (
        client_full w got rest buffer n total small p header cmd all
          (subst (λ l. get_elem? (got ++ l) 0 ≡ some cmd) e first)))
receive_rest (p ∷ q ∷ ps) header w got rest cmd buffer n total small same some_left cut first =
    let others = flatten (q ∷ ps) in
    let left = drop (length p) rest in
    let joined : length (p ++ others) ≡ length p + length others = length-append p others in
    let further : length others ≡ length q + length (flatten ps) = length-append q (flatten ps) in
    let whole : length (p ++ others) ≡ length rest = same in
    let some_more : 0 < length q = cut 1 q refl in
    let less : length p < length rest = omega arith in
    let remaining : length left ≡ length rest - length p = length-drop (length p) rest in
    let assoc : (got ++ p) ++ others ≡ got ++ (p ++ others) = append_assoc got p others in
    receive_step p (q ∷ ps) header (with_cmd header err_not_ready) w _
      (client_partial w got rest buffer n total small p header less)
    ∙ receive_rest (q ∷ ps) (with_cmd header err_not_ready)
        (moved w (got ++ (p ++ left)) (length got + length p)) (got ++ p) left cmd
        (sym (append_assoc got p left)) (sym (length-append got p))
        (omega (arith, length-append got p)) small (omega arith) (omega arith)
        (λ i x e. cut (suc i) x e) (subst (λ l. get_elem? l 0 ≡ some cmd) (sym assoc) first)
    ∙ ap (λ l. ok (parse_header w.handle.host l cmd, moved w l 0)) assoc

-- What the client reads out of the frame that a sender has written.
parse_frame :
    (sender host : ByteOrder) (cmd task : ℕ) (value : List ℕ)
    → cmd < 256
    → task < 4294967296
    → let frame =
        header_bytes sender (record { cmd = cmd; task_id = htobe32 sender task }) ++ value in
      (get_elem? frame 0 ≡ some cmd)
      × (parse_header host frame cmd ≡ record { cmd = cmd; task_id = task })
unfolding header_bytes parse_header
parse_frame sender host cmd task value low small = (
  let whole : cmd % 256 ≡ cmd = omega arith in rw whole,
  ap (λ t. record { cmd = cmd; task_id = t }) (be32toh-htobe32 sender host task value small),
)

-- From a world with the invariant and a connection that has received nothing of a frame: a frame with a
-- command below 256, a task number below 2^32, converted and stored by a host of either byte order, and
-- data of the size of a task arrives in pieces that are not empty. The calls for all the pieces return,
-- the last with the command and the task number of the frame; the buffer then holds the frame, the
-- connection has received nothing of the next one, and nothing else changed.
pub receive_all-header_bytes :
    {compute : List ℕ → List ℕ} (header : RequestHeader) (w : World ClusterClientHandle)
    (sender : ByteOrder) (cmd task : ℕ) (value : List ℕ) (pieces : List (List ℕ))
    → ClientInv compute w
    → w.handle.server_conn.bytes_recieved ≡ 0
    → cmd < 256
    → task < 4294967296
    → length value ≡ w.handle.task_size
    → flatten pieces
      ≡ header_bytes sender (record { cmd = cmd; task_id = htobe32 sender task }) ++ value
    → Each (λ _ p. 0 < length p) pieces
    → receive_all pieces header w
      ≡ ok (
        record { cmd = cmd; task_id = task },
        moved w
            (header_bytes sender (record { cmd = cmd; task_id = htobe32 sender task }) ++ value)
            0,
      )
receive_all-header_bytes header w sender cmd task value pieces v idle low small sized whole cut =
    let sent = header_bytes sender (record { cmd = cmd; task_id = htobe32 sender task }) in
    let (first, parsed) = parse_frame sender w.handle.host cmd task value low small in
    let all : length (flatten pieces) ≡ length w.handle.server_conn.recv_buffer =
      ap length whole
      ∙ omega (
        arith,
        v.conn.buffer,
        length-append sent value,
        length-header_bytes sender (record { cmd = cmd; task_id = htobe32 sender task }),
      ) in
    receive_rest pieces header w [] w.handle.server_conn.recv_buffer cmd refl idle
      (omega (arith, v.conn.buffer)) v.conn.frame_small all (omega (arith, v.conn.buffer)) cut
      (rw whole first)
    ∙ rw (whole, parsed)
