-- ===== src/Server/Tasks/Collect.antt =====
-- push_return_value: what becomes of a result that a client sends.
use computing_cluster.Base.{
  ℕ, ◌+◌, ◌*◌, ◌≤◌, ◌<◌, ◌≡◌, ◌≢◌, refl, ◌∙◌, List, ◌++◌, some, arith, length, get_elem?, set, inl,
  inr, ◌⊎◌, take, drop, length-take, length-drop, Option-cases, le→leb, get_elem?_out,
  get_elem?_total,
}
use native.Mathlib.Decide.{dec_lt}
use computing_cluster.Base.Count.{count}
use computing_cluster.Base.Bytes.{get_elem?-splice, get_elem?-take, get_elem?-drop, length-splice}
use computing_cluster.Config.{no_task, sizeof_header, RequestHeader}
use computing_cluster.System.Outcome.{
  ok, exits, fault, bug, Ensures, Returns, ◌>>=◌, read_at, write_at,
}
use computing_cluster.Server.Types.{Connection, TaskInfo, resolving, completed, ClusterServerHandle}
use computing_cluster.Server.Tasks.{free_cell, complete, push_return_value}
use computing_cluster.Server.Tasks.Cells.{
  count-free_cell, free_cell_total, free_cell_stranger, length-free_cell,
}
use computing_cluster.Server.Tasks.Owners.{
  PoolInv-congr, PoolInv-IsHeld, held, count-held-set, count-le-held, complete-PoolInv,
}
use computing_cluster.Server.Invariant.{ServerInv, ServerInv-update, IsLaidOut-set}

-- The bytes behind the header in a connection's buffer.
abbrev pub value : ClusterServerHandle → Connection → List ℕ
value h conn = take h.ret_size (drop sizeof_header conn.recv_buffer)

-- The results after `bytes` were copied to an offset.
abbrev pub spliced : List ℕ → ℕ → List ℕ → List ℕ
spliced rets off bytes = take off rets ++ (bytes ++ drop (off + length bytes) rets)

abbrev pub collected :
    ClusterServerHandle
    → (conn_i : ℕ) → Connection
    → (t : ℕ) → TaskInfo
    → List ℕ
    → ClusterServerHandle
collected h conn_i conn t info cells = record h {
  user_rets = spliced h.user_rets info.ret (value h conn);
  client_conns = set h.client_conns conn_i (record conn { task_list = cells });
  pool = complete h.pool t info;
}

-- What a call that accepts a result does: the bytes behind the header become the task's part of the
-- result array and no other byte of that array changes; the task is COMPLETED.
pub record Collects (h : ClusterServerHandle) (conn_i : ℕ) (conn : Connection) (t : ℕ)
    (h' : ClusterServerHandle) : Type 0 where
  pub info : TaskInfo
  pub there : get_elem? h.task_manager t ≡ some info
  pub cells : List ℕ
  pub freed : free_cell conn.task_list t ≡ ok cells
  pub result : h' ≡ collected h conn_i conn t info cells
  pub stored :
      (k : ℕ)
      → k < h.ret_size
      → get_elem? h'.user_rets (t * h.ret_size + k) ≡ get_elem? conn.recv_buffer (sizeof_header + k)
  pub kept :
      (k : ℕ)
      → (k < t * h.ret_size) ⊎ (t * h.ret_size + h.ret_size ≤ k)
      → get_elem? h'.user_rets k ≡ get_elem? h.user_rets k

module _ {h : ClusterServerHandle} (conn_i : ℕ) (conn : Connection) (header : RequestHeader)
    (v : ServerInv h) (there : get_elem? h.client_conns conn_i ≡ some conn) where
  length-value : length (value h conn) ≡ h.ret_size
  length-value = omega (
    arith,
    length-take h.ret_size (drop sizeof_header conn.recv_buffer),
    length-drop sizeof_header conn.recv_buffer,
    (v.connections conn_i conn there).buffer,
  )

  -- The part of a task lies inside the array.
  part_fits :
      header.task_id < h.num_tasks → header.task_id * h.ret_size + h.ret_size ≤ length h.user_rets
  part_fits b = rw v.ret_bytes (grind arith)

  module _ (info : TaskInfo) (t_there : get_elem? h.task_manager header.task_id ≡ some info)
      (bound : header.task_id < h.num_tasks) where
    ret_at : info.ret ≡ header.task_id * h.ret_size
    ret_at = (v.laid_out header.task_id info t_there).ret_at

    fits : info.ret + length (value h conn) ≤ length h.user_rets
    fits = omega (arith, ret_at, length-value, part_fits bound)

    read_value : read_at conn.recv_buffer sizeof_header h.ret_size ≡ ok (value h conn)
    read_value = rw (
        le→leb (sizeof_header + h.ret_size) (length conn.recv_buffer)
          (omega (arith, (v.connections conn_i conn there).buffer)))

    write_value :
        write_at h.user_rets info.ret (value h conn)
        ≡ ok (spliced h.user_rets info.ret (value h conn))
    write_value = rw (le→leb (info.ret + length (value h conn)) (length h.user_rets) fits)

    length-spliced : length (spliced h.user_rets info.ret (value h conn)) ≡ length h.user_rets
    length-spliced = length-splice h.user_rets (value h conn) info.ret fits

    -- Up to the loop over the task list nothing goes wrong.
    push_return_value-eq : push_return_value h conn_i header ≡ (
        free_cell conn.task_list header.task_id >>= λ cells.
        ok (collected h conn_i conn header.task_id info cells))
    unfolding push_return_value
    push_return_value-eq = rw (t_there, there, read_value, write_value)

    value_stored :
        (k : ℕ)
        → k < h.ret_size
        → get_elem? (spliced h.user_rets info.ret (value h conn)) (header.task_id * h.ret_size + k)
          ≡ get_elem? conn.recv_buffer (sizeof_header + k)
    value_stored k b = rw (← ret_at) (
        rw (get_elem?-splice h.user_rets (value h conn) info.ret (info.ret + k) fits) (
          ground (
            arith,
            length-value,
            get_elem?-take h.ret_size (drop sizeof_header conn.recv_buffer) k,
            get_elem?-drop sizeof_header conn.recv_buffer k,
          )))

    others_kept :
        (k : ℕ)
        → (k < header.task_id * h.ret_size) ⊎ (header.task_id * h.ret_size + h.ret_size ≤ k)
        → get_elem? (spliced h.user_rets info.ret (value h conn)) k ≡ get_elem? h.user_rets k
    others_kept k out =
        ground
          (arith, get_elem?-splice h.user_rets (value h conn) info.ret k fits, ret_at, length-value)

    collected-ServerInv :
        (cells : List ℕ)
        → free_cell conn.task_list header.task_id ≡ ok cells
        → header.task_id ≢ no_task
        → info.status ≡ resolving
        → ServerInv (collected h conn_i conn header.task_id info cells)
    collected-ServerInv cells freed task busy =
        ServerInv-update conn_i conn (record conn { task_list = cells }) _ _ v there refl
          (let c = v.connections conn_i conn there in
            record {
              buffer = c.buffer;
              partial = c.partial;
              cells =
                  omega
                    (arith, c.cells, length-free_cell conn.task_list header.task_id cells freed);
              idle = λ e j n. omega (
                arith,
                c.idle e j n,
                count-free_cell conn.task_list header.task_id cells freed j n,
              );
            })
          (complete-PoolInv _ header.task_id
            (record { info = info; there = t_there; busy = busy; bound = bound }) task
            (PoolInv-congr _ _
              (λ j n. omega (
                arith,
                count-held-set j h.client_conns conn_i conn (record conn { task_list = cells })
                    there,
                count-free_cell conn.task_list header.task_id cells freed j n,
              ))
              v.tasks))
          refl
          (IsLaidOut-set h.task_size h.ret_size h.task_manager header.task_id info completed
            v.laid_out t_there)
          length-spliced

-- With the invariant, a connection of the table and a task number that is in the connection's list:
-- the call returns, the task is COMPLETED and counted, its cell is free, the value behind the header
-- stands at the task's place among the results, every other byte of them is as before, and the new
-- handle has the invariant.
pub push_return_value_lem :
    {h : ClusterServerHandle} (conn_i : ℕ) (conn : Connection) (header : RequestHeader)
    → ServerInv h
    → get_elem? h.client_conns conn_i ≡ some conn
    → header.task_id ≢ no_task
    → 0 < count header.task_id conn.task_list
    → Returns
        (λ h'. Collects h conn_i conn header.task_id h' × ServerInv h')
        (push_return_value h conn_i header)
push_return_value_lem {h} conn_i conn header v there task listed =
    let t =
      PoolInv-IsHeld (λ j. count j (held h.client_conns)) header.task_id v.tasks task
        (omega (arith, count-le-held header.task_id h.client_conns conn_i conn there, listed)) in
    let (cells, freed) = free_cell_total conn.task_list header.task_id listed in
    (
      collected h conn_i conn header.task_id t.info cells,
      push_return_value-eq conn_i conn header v there t.info t.there t.bound ∙ rw freed,
      (
        record {
          info = t.info;
          there = t.there;
          cells = cells;
          freed = freed;
          result = refl;
          stored = value_stored conn_i conn header v there t.info t.there t.bound;
          kept = others_kept conn_i conn header v there t.info t.there t.bound;
        },
        collected-ServerInv conn_i conn header v there t.info t.there t.bound cells freed task
            t.busy,
      ),
    )

-- With the invariant, a connection of the table and a result whose task number is a task's, but not
-- one in the connection's list: the call ends the server through BUG_ON.
pub push_return_value-stranger :
    {h : ClusterServerHandle} (conn_i : ℕ) (conn : Connection) (header : RequestHeader)
    → ServerInv h
    → get_elem? h.client_conns conn_i ≡ some conn
    → header.task_id < h.num_tasks
    → count header.task_id conn.task_list ≡ 0
    → push_return_value h conn_i header ≡ exits bug
push_return_value-stranger {h} conn_i conn header v there bound none_listed =
    let (info, t_there) =
      get_elem?_total h.task_manager header.task_id (omega (arith, v.tasks.sized)) in
    push_return_value-eq conn_i conn header v there info t_there bound
    ∙ rw (free_cell_stranger conn.task_list header.task_id none_listed)

-- With the invariant, a result whose task number is not below the number of tasks makes the call
-- access memory outside the array of tasks, before anything has looked at the connection's list.
pub push_return_value-outside :
    {h : ClusterServerHandle} (conn_i : ℕ) (header : RequestHeader)
    → ServerInv h
    → h.num_tasks ≤ header.task_id
    → push_return_value h conn_i header ≡ fault
unfolding push_return_value
push_return_value-outside {h} conn_i header v out =
    rw (get_elem?_out h.task_manager header.task_id (omega (arith, v.tasks.sized)))

-- What a call that returned has done, whatever header arrived.
pub record Collected (h : ClusterServerHandle) (conn_i task_id : ℕ) (h' : ClusterServerHandle)
    : Type 0 where
  pub conn : Connection
  pub there : get_elem? h.client_conns conn_i ≡ some conn
  pub valid : task_id ≢ no_task
  pub listed : 0 < count task_id conn.task_list
  pub collects : Collects h conn_i conn task_id h'
  pub inv : ServerInv h'

pub push_return_value-Collected :
    {h : ClusterServerHandle} (conn_i : ℕ) (header : RequestHeader)
    → ServerInv h
    → Ensures (Collected h conn_i header.task_id) (push_return_value h conn_i header)
unfolding push_return_value
push_return_value-Collected {h} conn_i header v =
    elim (Option-cases (get_elem? h.client_conns conn_i)) [
      | inl absent ↦ elim (Option-cases (get_elem? h.task_manager header.task_id)) [
        | inl out ↦ rw out tt
        | inr (info, t_there) ↦ rw (t_there, absent) tt
      ]
      | inr (conn, there) ↦ elim (dec_lt header.task_id h.num_tasks) [
        | yes bound ↦ elim (dec_lt 0 (count header.task_id conn.task_list)) [
          | yes listed ↦
              let valid : header.task_id ≢ no_task =
                λ e. absurd (omega (arith, v.tasks.small, e)) in
              let (h', e, (collects, v')) =
                push_return_value_lem conn_i conn header v there valid listed in
              rw e (record {
                conn = conn;
                there = there;
                valid = valid;
                listed = listed;
                collects = collects;
                inv = v';
              })
          | no stranger ↦
              rw (push_return_value-stranger conn_i conn header v there bound (omega arith)) tt
        ]
        | no out ↦ rw (push_return_value-outside conn_i header v (omega arith)) tt
      ]
    ]
