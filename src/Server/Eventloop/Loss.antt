-- ===== src/Server/Eventloop/Loss.antt =====
-- What the send loop does after the connection was lost: its `continue` tests requested_tasks again.
use computing_cluster.Base.{
  ℕ, zero, suc, ◌+◌, ◌*◌, ◌≤◌, ◌<◌, ◌≡◌, ◌≢◌, ap, ◌∙◌, false, List, [], ◌∷◌, none, some, arith, leb,
  ◌==◌, length, get_elem?, get_elem?_total, inl, inr, Bool-cases,
}
use native.Mathlib.Nat.{mul-le-mul_right}
use computing_cluster.Base.Count.{count}
use computing_cluster.Config.{no_task, sizeof_header, max_tasks_per_client, cmd_task}
use computing_cluster.System.Outcome.{fault, read_at}
use computing_cluster.System.Kernel.{Kernel}
use computing_cluster.System.Action.{World}
use computing_cluster.Server.Types.{Connection, ClusterServerHandle}
use computing_cluster.Server.Invariant.{ServerInv}
use computing_cluster.Server.Transfer.{put_data_to_connection}
use computing_cluster.Server.Eventloop.{choose_task, send_task}

count-get_elem? : (cells : List ℕ) (k c : ℕ) → get_elem? cells k ≡ some c → 0 < count c cells
unfolding count
count-get_elem? [] k c e = cc
count-get_elem? (x ∷ cells) zero c e = ground arith
count-get_elem? (x ∷ cells) (suc k) c e = omega (arith, count-get_elem? cells k c e)

-- Each cell of a list that holds no task says so.
cell_empty :
    (cells : List ℕ) (k c : ℕ)
    → ((j : ℕ) → j ≢ no_task → count j cells ≡ 0)
    → get_elem? cells k ≡ some c
    → c ≡ no_task
cell_empty cells k c none_there e = elim (Bool-cases (c == no_task)) [
  | inl same ↦ ground arith
  | inr other ↦
      absurd (omega (arith, none_there c (λ s. ground arith), count-get_elem? cells k c e))
]

-- The place of task 2^32 - 1 lies behind the array of the user.
beyond :
    (tasks : List ℕ) (num_tasks task_size : ℕ)
    → length tasks ≡ num_tasks * task_size
    → num_tasks ≤ 2147483648
    → 0 < task_size
    → read_at tasks (no_task * task_size) task_size ≡ fault
beyond tasks num_tasks task_size len few some_size =
    let most : num_tasks * task_size ≤ 2147483648 * task_size = mul-le-mul_right task_size few in
    let over : leb (no_task * task_size + task_size) (length tasks) ≡ false = ground arith in
    rw over

module _ (os : Kernel) where
  put_data-fault :
      (conn_i : ℕ) (conn : Connection) (k task_id : ℕ) (w : World ClusterServerHandle)
      → get_elem? w.handle.client_conns conn_i ≡ some conn
      → get_elem? conn.task_list k ≡ some no_task
      → k < max_tasks_per_client
      → sizeof_header + w.handle.task_size < 256
      → read_at w.handle.user_tasks (no_task * w.handle.task_size) w.handle.task_size ≡ fault
      → put_data_to_connection os conn_i k (record { cmd = cmd_task; task_id = task_id }) w ≡ fault
  unfolding put_data_to_connection
  put_data-fault conn_i conn k task_id w there cell low fits out =
      let room : leb 256 (sizeof_header + w.handle.task_size) ≡ false = ground arith in
      let known : (k == 18446744073709551615) ≡ false = ground arith in
      rw (room, known, there, cell, out)

  -- With the invariant, a connection of the table that was lost while it was sending, so its socket is
  -- closed and its cell number is still set, and tasks of at least one byte that fit into the send
  -- buffer: a further turn of the send loop reads the user's tasks outside their array.
  pub send_task-lost :
      (conn_i : ℕ) (conn : Connection) (w : World ClusterServerHandle)
      → ServerInv w.handle
      → get_elem? w.handle.client_conns conn_i ≡ some conn
      → conn.socket_fd ≡ none
      → conn.now_sending_task_i < max_tasks_per_client
      → 0 < w.handle.task_size
      → sizeof_header + w.handle.task_size < 256
      → send_task os conn_i w ≡ fault
  unfolding send_task choose_task
  send_task-lost conn_i conn w v there closed low some_size fits =
      let c = v.connections conn_i conn there in
      let (cell, at) =
        get_elem?_total conn.task_list conn.now_sending_task_i (omega (arith, c.cells)) in
      let empty : cell ≡ no_task =
        cell_empty conn.task_list conn.now_sending_task_i cell (c.idle closed) at in
      let sending : (conn.now_sending_task_i == no_task) ≡ false = ground arith in
      let at' : get_elem? conn.task_list conn.now_sending_task_i ≡ some no_task =
        at ∙ ap some empty in
      rw (
        there,
        sending,
        there,
        at',
        put_data-fault conn_i conn conn.now_sending_task_i _ w there at' low fits (
            beyond w.handle.user_tasks w.handle.num_tasks w.handle.task_size v.task_bytes
              v.tasks.small some_size),
      )
