-- ===== src/Delivery.antt =====
-- From the client to the server: the frame that send_all() of cluster-api/cluster-client.c sends
-- for an entry, received by read_data_on_connection() and push_return_value() of
-- cluster-api/cluster-server.c.
pub mod Task
use computing_cluster.Base.{
  ℕ, ◌+◌, ◌*◌, ◌<◌, ◌≡◌, ◌≢◌, refl, sym, ap, ◌∙◌, subst, List, [], ◌∷◌, ◌++◌, some, arith, length,
  get_elem?, length-append, get_elem?-set_self, get_elem?-lt,
}
use native.Mathlib.Nat.{zero-add, suc-add}
use mathlib.Core.List.{flatten}
use computing_cluster.Base.Each.{Each}
use computing_cluster.Base.Count.{count}
use computing_cluster.Config.{RequestHeader, no_task, sizeof_header, cmd_result}
use computing_cluster.Wire.{htobe32, header_bytes}
use computing_cluster.Wire.RoundTrip.{length-header_bytes}
use computing_cluster.System.Outcome.{Returns}
use computing_cluster.System.Kernel.{Kernel}
use computing_cluster.System.Action.{World, ◌>>=◌}
use computing_cluster.System.Packs.{pack, length-pack}
use computing_cluster.Server.Types
use computing_cluster.Server.Types.{ClusterServerHandle}
use computing_cluster.Server.Invariant.{ServerInv, ServerInv-touch}
use computing_cluster.Server.Tasks.Collect.{push_return_value_lem}
use computing_cluster.Server.Transfer.{grown}
use computing_cluster.Server.Transfer.Reassembly.{
  moved, receive_pieces, receive_pieces-header_bytes,
}
use computing_cluster.Server.Eventloop.{store_result}
use computing_cluster.Client.Types.{ThreadInfo, ClusterClientHandle}
use computing_cluster.Client.Invariant.{ClientInv}
use computing_cluster.Client.Entries.{data_inside}
use computing_cluster.Client.Results.{computed_frame}

get_elem?-append_more :
    (xs ys : List ℕ) (k : ℕ) → get_elem? (xs ++ ys) (length xs + k) ≡ get_elem? ys k
get_elem?-append_more [] ys k = rw zero-add
get_elem?-append_more (x ∷ xs) ys k = rw suc-add (get_elem?-append_more xs ys k)

-- The bytes of one task among the results of the server are those of a value.
abbrev pub Delivered : (value : List ℕ) (task_id : ℕ) → World ClusterServerHandle → Type 0
Delivered value task_id w =
    (k : ℕ)
    → k < w.handle.ret_size
    → get_elem? w.handle.user_rets (task_id * w.handle.ret_size + k) ≡ get_elem? value k

module _ (os : Kernel) where
  stored_value :
      (conn_i : ℕ) (conn : Types.Connection) (buffer : List ℕ) (header : RequestHeader)
      (w : World ClusterServerHandle)
      → ServerInv w.handle
      → get_elem? w.handle.client_conns conn_i ≡ some conn
      → length buffer ≡ sizeof_header + w.handle.ret_size
      → header.task_id ≢ no_task
      → 0 < count header.task_id conn.task_list
      → Returns
          (λ r.
            ServerInv r.1.handle
            × ((k : ℕ)
                → k < r.1.handle.ret_size
                → get_elem? r.1.handle.user_rets (header.task_id * r.1.handle.ret_size + k)
                  ≡ get_elem? buffer (sizeof_header + k)))
          (store_result os conn_i header (moved w conn_i (grown conn buffer 0)))
  unfolding store_result
  stored_value conn_i conn buffer header w v there len task listed =
      let c = v.connections conn_i conn there in
      let conn' = grown conn buffer 0 in
      let v' : ServerInv (moved w conn_i conn').handle =
        ServerInv-touch conn_i conn conn' v there refl
          (record { buffer = len; partial = omega arith; cells = c.cells; idle = c.idle }) refl in
      let there' =
        get_elem?-set_self w.handle.client_conns conn_i conn'
          (get_elem?-lt w.handle.client_conns conn_i there) in
      let (h', e, (collects, inv)) =
        push_return_value_lem conn_i conn' header v' there' task listed in
      let sized : h'.ret_size ≡ w.handle.ret_size = ap (λ h. h.ret_size) collects.result in
      (
        (tt, record { handle = h'; trace = w.trace }),
        rw e,
        (inv, λ k lt. rw sized (collects.stored k (subst (λ n. k < n) sized lt))),
      )

  -- For a client with the invariant, an entry of its table, and a server with
  -- the invariant and the same size of a result: the frame of the entry arrives, in pieces that are not
  -- empty, on a connection of the server's table that has received nothing of a frame and whose list
  -- holds the number of the task, a number below 2^32 other than that of no task. The calls that
  -- receive the pieces and the one that stores the result return, the server's invariant holds, and
  -- the bytes of that task among the server's results are what the function of the client's user
  -- makes of the entry's data.
  pub computed_frame-Delivered :
      (compute : List ℕ → List ℕ) (client : World ClusterClientHandle) (i : ℕ) (t : ThreadInfo)
      (server : World ClusterServerHandle) (conn_i : ℕ) (conn : Types.Connection)
      (header : RequestHeader) (pieces : List (List ℕ))
      → ClientInv compute client
      → get_elem? client.handle.thread_manager i ≡ some t
      → ServerInv server.handle
      → get_elem? server.handle.client_conns conn_i ≡ some conn
      → client.handle.ret_size ≡ server.handle.ret_size
      → conn.bytes_recieved ≡ 0
      → t.task_id < 4294967296
      → t.task_id ≢ no_task
      → 0 < count t.task_id conn.task_list
      → flatten pieces ≡ computed_frame compute client.handle t
      → Each (λ _ p. 0 < length p) pieces
      → Returns
          (λ r.
            ServerInv r.1.handle
            × Delivered
                (compute (pack client.handle.task_buffer t.data_pack client.handle.task_size))
                t.task_id
                r.1)
          ((receive_pieces os conn_i pieces header >>= λ arrived. store_result os conn_i arrived)
            server)
  computed_frame-Delivered compute client i t server conn_i conn header pieces cv entry sv there
        sizes idle small task listed whole cut =
      let value = compute (pack client.handle.task_buffer t.data_pack client.handle.task_size) in
      let sized : length value ≡ server.handle.ret_size =
        cv.fills _ (
          length-pack client.handle.task_buffer t.data_pack client.handle.task_size
            (data_inside cv i t entry))
        ∙ sizes in
      let head =
        header_bytes client.handle.host
          (record { cmd = cmd_result; task_id = htobe32 client.handle.host t.task_id }) in
      let head_len : length head ≡ 5 = length-header_bytes client.handle.host _ in
      let (r, e, (inv, stored)) =
        stored_value conn_i conn (head ++ value) (record { cmd = cmd_result; task_id = t.task_id })
          server sv there (omega (arith, length-append head value, head_len, sized)) task listed in
      (
        r,
        rw
            (receive_pieces-header_bytes os conn_i conn header server client.handle.host cmd_result
              t.task_id value pieces sv there idle (omega arith) small sized whole cut)
            e,
        (
          inv,
          λ k lt.
              stored k lt
              ∙ ap (λ n. get_elem? (head ++ value) (n + k)) (sym head_len)
              ∙ get_elem?-append_more head value k,
        ),
      )
