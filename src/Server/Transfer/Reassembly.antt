-- ===== src/Server/Transfer/Reassembly.antt =====
-- A frame that TCP delivers in pieces, through read_data_on_connection().
use computing_cluster.Base.{
  ℕ, suc, ◌+◌, ◌-◌, ◌%◌, ◌<◌, ◌≡◌, refl, sym, ap, ◌∙◌, true, List, [], ◌∷◌, ◌++◌, some, arith, ◌==◌,
  length, get_elem?, set, drop, length-append, length-drop, subst, get_elem?-set_self, set-set,
  get_elem?-lt, ne→==,
}
use mathlib.Core.List.{append-nil, append_assoc, flatten}
use computing_cluster.Base.Each.{Each}
use computing_cluster.Config.{RequestHeader, sizeof_header, err_not_ready}
use computing_cluster.Wire.{ByteOrder, htobe32, header_bytes}
use computing_cluster.Wire.RoundTrip.{be32toh-htobe32, length-header_bytes}
use computing_cluster.System.Outcome.{ok, index}
use computing_cluster.System.Kernel.{Kernel}
use computing_cluster.System.Pieces.{write_at-append, drop_all}
use computing_cluster.System.Action.{World, pure, ◌>>=◌, get, lift}
use computing_cluster.Server.Types.{Connection, ClusterServerHandle}
use computing_cluster.Server.Invariant.{ServerInv}
use computing_cluster.Server.Connections.{Server}
use computing_cluster.Server.Transfer.{with_cmd, parse_header, grown, frame_result, take_bytes}

-- One connection of the table replaced.
abbrev pub moved : World ClusterServerHandle → (conn_i : ℕ) → Connection → World ClusterServerHandle
moved w conn_i conn = record w {
  handle = record (w.handle) { client_conns = set w.handle.client_conns conn_i conn };
}

mod_eq_of_lt : (n : ℕ) → n < 256 → n % 256 ≡ n
mod_eq_of_lt n h = omega arith

module _ (os : Kernel) where
  -- A piece that does not complete the frame.
  piece_partial :
      (conn_i : ℕ) (conn : Connection) (bytes : List ℕ) (header : RequestHeader)
      (w : World ClusterServerHandle) (got rest : List ℕ)
      → conn.recv_buffer ≡ got ++ rest
      → conn.bytes_recieved ≡ length got
      → length got + length rest ≡ sizeof_header + w.handle.ret_size
      → sizeof_header + w.handle.ret_size < 18446744073709551616
      → length bytes < length rest
      → take_bytes os conn_i conn bytes header w
        ≡ ok (
          with_cmd header err_not_ready,
          moved w conn_i
              (grown conn (got ++ (bytes ++ drop (length bytes) rest)) (length got + length bytes)),
        )
  unfolding take_bytes frame_result
  piece_partial conn_i conn bytes header w got rest buffer n total small less =
      let fits : (length got + length bytes) % 18446744073709551616 ≡ length got + length bytes =
        omega arith in
      rw (
        buffer,
        n,
        write_at-append got rest bytes (omega arith),
        fits,
        ne→== (length got + length bytes) (sizeof_header + w.handle.ret_size) (λ e. omega arith),
      )

  -- The piece that does.
  piece_full :
      (conn_i : ℕ) (conn : Connection) (bytes : List ℕ) (header : RequestHeader)
      (w : World ClusterServerHandle) (got rest : List ℕ) (cmd : ℕ)
      → conn.recv_buffer ≡ got ++ rest
      → conn.bytes_recieved ≡ length got
      → length got + length rest ≡ sizeof_header + w.handle.ret_size
      → sizeof_header + w.handle.ret_size < 18446744073709551616
      → length bytes ≡ length rest
      → get_elem? (got ++ bytes) 0 ≡ some cmd
      → take_bytes os conn_i conn bytes header w
        ≡ ok (
          parse_header w.handle.host (got ++ bytes) cmd,
          moved w conn_i (grown conn (got ++ bytes) 0),
        )
  unfolding take_bytes frame_result
  piece_full conn_i conn bytes header w got rest cmd buffer n total small all first =
      let fits : (length got + length bytes) % 18446744073709551616 ≡ length got + length bytes =
        omega arith in
      let full : (length got + length bytes == sizeof_header + w.handle.ret_size) ≡ true =
        ground arith in
      let nothing : got ++ (bytes ++ drop (length bytes) rest) ≡ got ++ bytes =
        rw (all, drop_all rest, append-nil bytes) in
      rw (buffer, n, write_at-append got rest bytes (omega arith), nothing, fits, full, first)

  -- The pieces arrive one after the other, and the header is left by the last call.
  unfoldable pub receive_pieces :
      (conn_i : ℕ) → (pieces : List (List ℕ)) → RequestHeader → Server os RequestHeader
  receive_pieces conn_i [] header = pure header
  receive_pieces conn_i (p ∷ ps) header = do
    h ← get
    conn ← lift (index h.client_conns conn_i)
    header' ← take_bytes os conn_i conn p header
    receive_pieces conn_i ps header'

  receive_step :
      (conn_i : ℕ) (p : List ℕ) (ps : List (List ℕ)) (header result : RequestHeader)
      (w w' : World ClusterServerHandle) (conn : Connection)
      → get_elem? w.handle.client_conns conn_i ≡ some conn
      → take_bytes os conn_i conn p header w ≡ ok (result, w')
      → receive_pieces conn_i (p ∷ ps) header w ≡ receive_pieces conn_i ps result w'
  unfolding receive_pieces
  receive_step conn_i p ps header result w w' conn there e = rw (there, e)

  receive_last :
      (conn_i : ℕ) (p : List ℕ) (header result : RequestHeader) (w w' : World ClusterServerHandle)
      (conn : Connection)
      → get_elem? w.handle.client_conns conn_i ≡ some conn
      → take_bytes os conn_i conn p header w ≡ ok (result, w')
      → receive_pieces conn_i (p ∷ []) header w ≡ ok (result, w')
  unfolding receive_pieces
  receive_last conn_i p header result w w' conn there e = rw (there, e)

  receive_rest :
      (pieces : List (List ℕ)) (conn_i : ℕ) (conn : Connection) (header : RequestHeader)
      (w : World ClusterServerHandle) (got rest : List ℕ) (cmd : ℕ)
      → get_elem? w.handle.client_conns conn_i ≡ some conn
      → conn.recv_buffer ≡ got ++ rest
      → conn.bytes_recieved ≡ length got
      → length got + length rest ≡ sizeof_header + w.handle.ret_size
      → sizeof_header + w.handle.ret_size < 18446744073709551616
      → length (flatten pieces) ≡ length rest
      → 0 < length rest
      → Each (λ _ p. 0 < length p) pieces
      → get_elem? (got ++ flatten pieces) 0 ≡ some cmd
      → receive_pieces conn_i pieces header w
        ≡ ok (
          parse_header w.handle.host (got ++ flatten pieces) cmd,
          moved w conn_i (grown conn (got ++ flatten pieces) 0),
        )
  unfolding flatten
  receive_rest [] conn_i conn header w got rest cmd there buffer n total small same some_left cut
        first =
      absurd (omega (arith, same, some_left))
  receive_rest (p ∷ []) conn_i conn header w got rest cmd there buffer n total small same some_left
        cut first =
      let e : p ++ [] ≡ p = append-nil p in
      let all : length p ≡ length rest = ap length (sym e) ∙ same in
      rw e (
        receive_last conn_i p header _ w _ conn there (
          piece_full conn_i conn p header w got rest cmd buffer n total small all
            (subst (λ l. get_elem? (got ++ l) 0 ≡ some cmd) e first)))
  receive_rest (p ∷ q ∷ ps) conn_i conn header w got rest cmd there buffer n total small same
        some_left cut first =
      let others = flatten (q ∷ ps) in
      let left = drop (length p) rest in
      let conn' = grown conn (got ++ (p ++ left)) (length got + length p) in
      let joined : length (p ++ others) ≡ length p + length others = length-append p others in
      let further : length others ≡ length q + length (flatten ps) = length-append q (flatten ps) in
      let whole : length (p ++ others) ≡ length rest = same in
      let some_more : 0 < length q = cut 1 q refl in
      let less : length p < length rest = omega arith in
      let remaining : length left ≡ length rest - length p = length-drop (length p) rest in
      let assoc : (got ++ p) ++ others ≡ got ++ (p ++ others) = append_assoc got p others in
      let again : set (set w.handle.client_conns conn_i conn') conn_i
            (grown conn (got ++ (p ++ others)) 0)
          ≡ set w.handle.client_conns conn_i (grown conn (got ++ (p ++ others)) 0) =
        set-set w.handle.client_conns conn_i conn' (grown conn (got ++ (p ++ others)) 0) in
      let rec =
        receive_rest (q ∷ ps) conn_i conn' (with_cmd header err_not_ready) (moved w conn_i conn')
          (got ++ p) left cmd
          (get_elem?-set_self w.handle.client_conns conn_i conn'
            (get_elem?-lt w.handle.client_conns conn_i there))
          (sym (append_assoc got p left)) (sym (length-append got p))
          (omega (arith, length-append got p)) small (omega arith) (omega arith)
          (λ i x e. cut (suc i) x e) (subst (λ l. get_elem? l 0 ≡ some cmd) (sym assoc) first) in
      receive_step conn_i p (q ∷ ps) header (with_cmd header err_not_ready) w (moved w conn_i conn')
        conn there (piece_partial conn_i conn p header w got rest buffer n total small less)
      ∙ rec
      ∙ ap
          (λ l. ok (
            parse_header w.handle.host l cmd,
            moved (moved w conn_i conn') conn_i (grown conn l 0),
          ))
          assoc
      ∙ ap
          (λ conns. ok (
            parse_header w.handle.host (got ++ (p ++ others)) cmd,
            record w { handle = record (w.handle) { client_conns = conns } },
          ))
          again

  -- What the receiver reads out of the frame that a sender has written.
  parse_frame :
      (sender host : ByteOrder) (cmd task : ℕ) (value : List ℕ)
      → cmd < 256
      → task < 4294967296
      → let frame =
          header_bytes sender (record { cmd = cmd; task_id = htobe32 sender task }) ++ value in
        (get_elem? frame 0 ≡ some cmd)
        × (parse_header host frame cmd ≡ record { cmd = cmd; task_id = task })
  unfolding header_bytes parse_header
  parse_frame sender host cmd task value low small = (
    rw (mod_eq_of_lt cmd low),
    ap (λ t. record { cmd = cmd; task_id = t }) (be32toh-htobe32 sender host task value small),
  )

  -- From a handle with the invariant and a connection of the table that has received nothing of a
  -- frame: a frame with a command below 256, a task number below 2^32, converted and stored by a host of
  -- either byte order, and a value of the size of a result arrives in pieces that are not empty. The
  -- calls for all the pieces return, the last with the command and the task number of the frame; the
  -- buffer then holds the frame, the connection has received nothing of the next one, and nothing else
  -- changed.
  pub receive_pieces-header_bytes :
      (conn_i : ℕ) (conn : Connection) (header : RequestHeader) (w : World ClusterServerHandle)
      (sender : ByteOrder) (cmd task : ℕ) (value : List ℕ) (pieces : List (List ℕ))
      → ServerInv w.handle
      → get_elem? w.handle.client_conns conn_i ≡ some conn
      → conn.bytes_recieved ≡ 0
      → cmd < 256
      → task < 4294967296
      → length value ≡ w.handle.ret_size
      → flatten pieces
        ≡ header_bytes sender (record { cmd = cmd; task_id = htobe32 sender task }) ++ value
      → Each (λ _ p. 0 < length p) pieces
      → receive_pieces conn_i pieces header w
        ≡ ok (
          record { cmd = cmd; task_id = task },
          moved w conn_i (
              grown conn
                (header_bytes sender (record { cmd = cmd; task_id = htobe32 sender task }) ++ value)
                0),
        )
  receive_pieces-header_bytes conn_i conn header w sender cmd task value pieces v there idle low
        small sized whole cut =
      let sent = header_bytes sender (record { cmd = cmd; task_id = htobe32 sender task }) in
      let (first, parsed) = parse_frame sender w.handle.host cmd task value low small in
      let buffer : length conn.recv_buffer ≡ sizeof_header + w.handle.ret_size =
        (v.connections conn_i conn there).buffer in
      let all : length (flatten pieces) ≡ length conn.recv_buffer =
        ap length whole
        ∙ omega (
          arith,
          length-append sent value,
          length-header_bytes sender (record { cmd = cmd; task_id = htobe32 sender task }),
        ) in
      receive_rest pieces conn_i conn header w [] conn.recv_buffer cmd there refl idle (omega arith)
        v.frame_small all (omega arith) cut (rw whole first)
      ∙ rw (whole, parsed)
