-- ===== src/Delivery/Task.antt =====
-- From the server to the client: the frame that send_tasks() of cluster-api/cluster-server.c sends for
-- a task, received by read_data_on_connection() and given to start_computation() of
-- cluster-api/cluster-client.c.
use computing_cluster.Base.{
  ℕ, ◌+◌, ◌*◌, ◌<◌, ◌≤◌, ◌≡◌, refl, sym, ap, ◌∙◌, subst, true, false, List, [], ◌∷◌, ◌++◌, some,
  arith, length, get_elem?, leb, ◌==◌, take, drop, length-append, take-length-append,
  drop-length-append, get_elem?-set_self, get_elem?-lt, ne→==,
}
use mathlib.Core.List.{flatten, append-nil}
use computing_cluster.Base.Each.{Each}
use computing_cluster.Config.{RequestHeader, sizeof_header, cmd_task, cmd_result}
use computing_cluster.Wire.{htobe32, header_bytes}
use computing_cluster.Wire.RoundTrip.{length-header_bytes}
use computing_cluster.System.Outcome.{Returns}
use computing_cluster.System.Kernel.{Kernel, send}
use computing_cluster.System.Action.{World, ◌>>=◌}
use computing_cluster.System.Packs.{
  pack, splice, length-pack, pack-splice_same, region_inside, read_at-pack,
}
use computing_cluster.Server.Types
use computing_cluster.Server.Types.{ClusterServerHandle}
use computing_cluster.Server.Invariant.{ServerInv}
use computing_cluster.Server.Transfer.{put_data_to_connection, send_answer}
use computing_cluster.Client.Types.{ThreadInfo, ClusterClientHandle}
use computing_cluster.Client.Eventloop.{on, handle_command}
use computing_cluster.Client.Invariant.{ClientInv, ClientInv-conn}
use computing_cluster.Client.Entries.{data_inside}
use computing_cluster.Client.Workers.{Starts, arrived}
use computing_cluster.Client.Workers.Entry.{StartsThreads, start_computation-Returns}
use computing_cluster.Client.Transfer.Reassembly.{moved, receive_all, receive_all-header_bytes}
use computing_cluster.Client.Results.{computed_frame}

-- The bytes of a task among those of the user, and the frame that carries them.
abbrev pub task_data : ClusterServerHandle → (j : ℕ) → List ℕ
task_data h j = pack h.user_tasks (j * h.task_size) h.task_size

abbrev pub task_header : ClusterServerHandle → (j : ℕ) → RequestHeader
task_header h j = record { cmd = cmd_task; task_id = htobe32 h.host j }

abbrev pub task_frame : ClusterServerHandle → (j : ℕ) → List ℕ
task_frame h j = header_bytes h.host (task_header h j) ++ task_data h j

task_inside :
    {h : ClusterServerHandle} (j : ℕ)
    → ServerInv h
    → j < h.num_tasks
    → j * h.task_size + h.task_size ≤ length h.user_tasks
task_inside {h} j v bound =
    rw v.task_bytes (region_inside j h.num_tasks h.task_size h.task_size bound (omega arith))

-- With the invariant, an open connection whose list holds the number of a task in a cell, and a frame
-- of a task that fits into the send buffer of 256 bytes: what goes out over the connection's socket is
-- a header with CMD_TASK and the number of the task, followed by the bytes of that task among those of
-- the user, and the caller is told what the kernel makes of it.
pub put_data-task_frame :
    (os : Kernel) (conn_i k j fd : ℕ) (conn : Types.Connection) (w : World ClusterServerHandle)
    → ServerInv w.handle
    → get_elem? w.handle.client_conns conn_i ≡ some conn
    → conn.socket_fd ≡ some fd
    → get_elem? conn.task_list k ≡ some j
    → j < w.handle.num_tasks
    → leb 256 (sizeof_header + w.handle.task_size) ≡ false
    → put_data_to_connection os conn_i k (task_header w.handle j) w
      ≡ send_answer os
          (task_header w.handle j)
          (sizeof_header + w.handle.task_size)
          (os.status w.trace (send fd (task_frame w.handle j)))
          (record w { trace = send fd (task_frame w.handle j) ∷ w.trace })
unfolding put_data_to_connection
put_data-task_frame os conn_i k j fd conn w v there opened listed bound small =
    let cell : (k == 18446744073709551615) ≡ false = ne→== k 18446744073709551615 (λ e.
      omega (
        arith,
        e,
        get_elem?-lt conn.task_list k listed,
        (v.connections conn_i conn there).cells,
      )) in
    rw (
      small,
      cell,
      there,
      listed,
      read_at-pack w.handle.user_tasks (j * w.handle.task_size) w.handle.task_size
          (task_inside j v bound),
      opened,
    )

-- What follows a header of five bytes.
pack_behind :
    (head bytes : List ℕ) (n : ℕ)
    → length head ≡ sizeof_header
    → length bytes ≡ n
    → pack (head ++ bytes) sizeof_header n ≡ bytes
pack_behind head bytes n five len =
    subst (λ k. take n (drop k (head ++ bytes)) ≡ bytes) five
      (rw (drop-length-append head bytes) (
        subst (λ k. take k bytes ≡ bytes) len
          (ap (take (length bytes)) (sym (append-nil bytes)) ∙ take-length-append bytes [])))

-- An entry runs on a task, and the frame of its result will carry the task's number and a value.
pub record Answers (compute : List ℕ → List ℕ) (j : ℕ) (value : List ℕ)
    (w : World ClusterClientHandle) : Type 0 where
  pub inv : ClientInv compute w
  pub entry : ℕ
  pub info : ThreadInfo
  pub there : get_elem? w.handle.thread_manager entry ≡ some info
  pub running : info.alive ≡ true
  pub task : info.task_id ≡ j
  pub frame :
      computed_frame compute w.handle info
      ≡ header_bytes w.handle.host (record { cmd = cmd_result; task_id = htobe32 w.handle.host j })
        ++ value

Starts-Answers :
    {compute : List ℕ → List ℕ} {w w' : World ClusterClientHandle} (j : ℕ) (bytes : List ℕ)
    → ClientInv compute w
    → ClientInv compute w'
    → length bytes ≡ w.handle.task_size
    → Starts w j bytes w'
    → Answers compute j (compute bytes) w'
Starts-Answers {compute} {w} {w'} j bytes v v' len s =
    let i = s.entry in
    let info : ThreadInfo = record (s.info) { empty = false; task_id = j; alive = true } in
    let there : get_elem? w'.handle.thread_manager i ≡ some info = rw s.result (
      get_elem?-set_self w.handle.thread_manager i info
        (get_elem?-lt w.handle.thread_manager i s.there)) in
    let fits : s.info.data_pack + length bytes ≤ length w.handle.task_buffer =
      rw len (data_inside v i s.info s.there) in
    let kept : pack w'.handle.task_buffer s.info.data_pack w'.handle.task_size ≡ bytes =
      rw s.result (
        subst
          (λ n.
            pack (splice w.handle.task_buffer s.info.data_pack bytes) s.info.data_pack n ≡ bytes)
          len (pack-splice_same w.handle.task_buffer s.info.data_pack bytes fits)) in
    record {
      inv = v';
      entry = i;
      info = info;
      there = there;
      running = refl;
      task = refl;
      frame =
          ap
            (λ d.
              header_bytes w'.handle.host
                (record { cmd = cmd_result; task_id = htobe32 w'.handle.host j })
              ++ compute d)
            kept;
    }

-- For a server with the invariant and a number of its tasks, and a client with the invariant, the same
-- size of a task, an empty entry, a connection that has received nothing of a frame, and a kernel that
-- starts every thread that it is asked for: the frame of the task arrives in pieces that are not empty.
-- The calls that receive the pieces and the one that handles the command return; the client then has
-- the invariant, an entry runs, and the frame of its result has the number of that task and what the
-- function of the client's user makes of the bytes of that task among those of the server's user.
pub task_frame-Answers :
    (os : Kernel) (compute : List ℕ → List ℕ) (server : ClusterServerHandle) (j : ℕ)
    (client : World ClusterClientHandle) (i : ℕ) (t : ThreadInfo) (header : RequestHeader)
    (pieces : List (List ℕ))
    → StartsThreads os
    → ServerInv server
    → j < server.num_tasks
    → ClientInv compute client
    → get_elem? client.handle.thread_manager i ≡ some t
    → t.empty ≡ true
    → server.task_size ≡ client.handle.task_size
    → client.handle.server_conn.bytes_recieved ≡ 0
    → flatten pieces ≡ task_frame server j
    → Each (λ _ p. 0 < length p) pieces
    → Returns
        (λ r. Answers compute j (compute (task_data server j)) r.1)
        ((receive_all pieces header >>= λ arrived. handle_command os arrived) client)
unfolding handle_command
task_frame-Answers os compute server j client i t header pieces starts sv bound v there is_empty
      sizes idle whole cut =
    let bytes = task_data server j in
    let head = header_bytes server.host (task_header server j) in
    let len : length bytes ≡ client.handle.task_size =
      length-pack server.user_tasks (j * server.task_size) server.task_size (task_inside j sv bound)
      ∙ sizes in
    let head_len : length head ≡ 5 = length-header_bytes server.host (task_header server j) in
    let w = moved client (head ++ bytes) 0 in
    let v' : ClientInv compute w =
      ClientInv-conn compute
        (record (client.handle.server_conn) { recv_buffer = head ++ bytes; bytes_recieved = 0 })
        client.handle.server_addr client.handle.initial_requests v
        (omega (arith, length-append head bytes, head_len, len)) (omega arith) in
    let task : arrived w.handle ≡ bytes =
      pack_behind head bytes client.handle.task_size head_len len in
    let (r, e, (inv, s)) = start_computation-Returns os compute j w i t starts v' there is_empty in
    let answers : Answers compute j (compute bytes) r.1 =
      Starts-Answers j bytes v' inv len (subst (λ d. Starts w j d r.1) task s) in
    rw
      (receive_all-header_bytes header client server.host cmd_task j bytes pieces v idle
        (omega arith) (omega (arith, bound, sv.tasks.small)) len whole cut)
      (rw e ((on, r.1), refl, answers))
