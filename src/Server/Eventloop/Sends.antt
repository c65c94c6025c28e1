-- ===== src/Server/Eventloop/Sends.antt =====
-- Sending tasks keeps the invariant, also after the connection was lost while they were sent.
use computing_cluster.Base.{
  ℕ, zero, suc, ◌≡◌, ◌≢◌, sym, subst, List, Bool, true, false, not, none, some, arith, get_elem?,
  set, inl, inr, ◌==◌, Bool-cases, if◌then◌else◌, get_elem?-set_self, get_elem?-lt, dec64,
}
use native.Mathlib.Decide.{dec_lt}
use computing_cluster.Base.Count.{count}
use computing_cluster.Config.{RequestHeader, no_task, err_conn_broken, err_not_ready, cmd_task}
use computing_cluster.Wire.{htobe32}
use computing_cluster.System.Outcome.{Ensures, Ensures-of_eq}
use computing_cluster.System.Kernel.{Kernel}
use computing_cluster.System.Action.{World, pure, ◌>>◌}
use computing_cluster.System.Rules.{
  Leads, Leads-bind, Leads-weaken, lift_lead, index_lead, bug_on-Keeps,
}
use computing_cluster.Server.Types.{Connection, ClusterServerHandle}
use computing_cluster.Server.Invariant.{ServerInv}
use computing_cluster.Server.Stable.{Stable, ServerInv-Stable}
use computing_cluster.Server.Tasks.{get_task_to_send}
use computing_cluster.Server.Tasks.Give.{get_task_to_send_lem, get_task_to_send_refuses}
use computing_cluster.Server.Transfer.{put_data_to_connection}
use computing_cluster.Server.Transfer.Keep.{put_data_lem}
use computing_cluster.Server.Eventloop.{
  task_sent, drop_connection, choose_task, handle_sent, send_task, send_tasks,
}
use computing_cluster.Server.Eventloop.Preserves.{recount-Stable, update-Keeps, drop_connection_lem}

-- A free cell of the table is not asked for a new task: it still names the task that it was sending
-- when the connection was lost.
pub record IsReady (P : ClusterServerHandle → Type 0) (conn_i : ℕ) (h : ClusterServerHandle)
    : Type 0 where
  pub inv : P h
  pub ready :
      (conn : Connection)
      → get_elem? h.client_conns conn_i ≡ some conn
      → conn.socket_fd ≡ none
      → conn.now_sending_task_i ≢ no_task

-- A task has been chosen.
pub record IsChosen (P : ClusterServerHandle → Type 0) (conn_i : ℕ) (h : ClusterServerHandle)
    : Type 0 where
  pub inv : P h
  pub chosen :
      (conn : Connection)
      → get_elem? h.client_conns conn_i ≡ some conn
      → conn.now_sending_task_i ≢ no_task

-- What a cell holds that has just been written.
written :
    (conns : List Connection) (i : ℕ) {old : Connection} (new c : Connection)
    → get_elem? conns i ≡ some old
    → get_elem? (set conns i new) i ≡ some c
    → c ≡ new
written conns i new c there e =
    let self = get_elem?-set_self conns i new (get_elem?-lt conns i there) in cc

-- An open connection that is asked for a task either gets one, in a cell that exists, or the server
-- ends.
given-IsChosen :
    {P : ClusterServerHandle → Type 0} (s : Stable P) {h : ClusterServerHandle} (conn_i : ℕ)
    (conn : Connection)
    → P h
    → get_elem? h.client_conns conn_i ≡ some conn
    → conn.socket_fd ≢ none
    → Ensures (λ r. P r.1 × (r.0 ≢ no_task)) (get_task_to_send h conn_i)
given-IsChosen s {h} conn_i conn p there opened =
    let v = s.inv p in
    elim (dec_lt 0 h.num_not_resolved) [
      | no empty ↦ rw (get_task_to_send_refuses conn_i conn v there (inl (omega arith))) tt
      | yes some_left ↦ elim (dec_lt 0 (count no_task conn.task_list)) [
        | no full ↦ rw (get_task_to_send_refuses conn_i conn v there (inr (omega arith))) tt
        | yes room ↦
            let (r, e, (gives, v')) =
              get_task_to_send_lem conn_i conn v there opened some_left room in
            rw e (
              s.gives conn_i r.0 conn p gives v',
              λ same. absurd (
                  omega (
                    arith,
                    same,
                    get_elem?-lt conn.task_list r.0 gives.was_free,
                    (v.connections conn_i conn there).cells,
                  )),
            )
      ]
    ]

module _ (os : Kernel) {P : ClusterServerHandle → Type 0} (s : Stable P) where
  choose_lem :
      (conn_i : ℕ) (w : World ClusterServerHandle)
      → IsReady P conn_i w.handle
      → Leads (choose_task os conn_i) w (λ _. IsChosen P conn_i)
  unfolding choose_task
  choose_lem conn_i w r =
      index_lead (λ _. IsChosen P conn_i) w.handle.client_conns conn_i _ w
        λ conn there. elim (Bool-cases (conn.now_sending_task_i == no_task)) [
          | inl needed ↦
              let opened : conn.socket_fd ≢ none =
                (λ closed. r.ready conn there closed (ground arith)) in
              rw needed (
                lift_lead (λ _. IsChosen P conn_i) (get_task_to_send w.handle conn_i) _ w
                  λ g e.
                    let (v', slot) =
                      Ensures-of_eq _ _ (given-IsChosen s conn_i conn r.inv there opened) e in
                    index_lead (λ _. IsChosen P conn_i) g.1.client_conns conn_i _ w
                      λ conn' there'. record {
                        inv = recount-Stable os s conn_i conn' g.0 conn'.requested_tasks v' there';
                        chosen = λ c at same. slot (
                            ground (
                              arith,
                              written g.1.client_conns conn_i
                                  (record conn' { now_sending_task_i = g.0 }) c there' at,
                            ));
                      })
          | inr busy ↦
              rw busy (record { inv = r.inv; chosen = λ c at same. ground (arith, there, at) })
        ]

  sent_by :
      (conn_i : ℕ) (conn : Connection) (w : World ClusterServerHandle)
      → P w.handle
      → get_elem? w.handle.client_conns conn_i ≡ some conn
      → conn.socket_fd ≢ none
      → IsReady P conn_i (task_sent w.handle conn_i conn)
  sent_by conn_i conn w v there opened = record {
    inv = recount-Stable os s conn_i conn no_task (dec64 conn.requested_tasks) v there;
    ready = λ c at closed. absurd (
        opened (
          ground (
            arith,
            written w.handle.client_conns conn_i
                (record conn {
                  now_sending_task_i = no_task;
                  requested_tasks = dec64 conn.requested_tasks;
                })
                c there at,
          )));
  }

  -- Whatever became of the frame, the next turn of the loop finds the connection ready.
  handle_sent_lem :
      (conn_i : ℕ) (conn : Connection) (header : RequestHeader) (w : World ClusterServerHandle)
      → IsChosen P conn_i w.handle
      → get_elem? w.handle.client_conns conn_i ≡ some conn
      → conn.socket_fd ≢ none
      → Leads (handle_sent os conn_i header) w (λ _. IsReady P conn_i)
  unfolding handle_sent
  handle_sent_lem conn_i conn header w c there opened = elim (Bool-cases (header.cmd == cmd_task)) [
    | inl sent ↦
        rw (sent, there)
          (update-Keeps os (IsReady P conn_i) conn_i false _
            (sent_by conn_i conn w c.inv there opened))
    | inr e ↦ rw e (elim (Bool-cases (header.cmd == err_conn_broken)) [
      | inl broken ↦ rw broken (
          Leads-weaken _ (λ _. IsReady P conn_i) (drop_connection os conn_i) w
            (λ _ h (v', conn', there', same). record {
              inv = v';
              ready = λ k at closed none_now.
                  c.chosen conn there (ground (arith, at, there', same, none_now));
            })
            (drop_connection_lem os s conn_i conn w c.inv there))
      | inr e' ↦ rw e' (
          bug_on-Keeps (IsReady P conn_i) (not (header.cmd == err_not_ready)) w
            (record { inv = c.inv; ready = λ k at closed. c.chosen k at }))
    ])
  ]

  send_task_lem :
      (conn_i : ℕ) (w : World ClusterServerHandle)
      → IsReady P conn_i w.handle
      → Leads (send_task os conn_i) w (λ _. IsReady P conn_i)
  unfolding send_task
  send_task_lem conn_i w r =
      Leads-bind (λ _. IsChosen P conn_i) (λ _. IsReady P conn_i) (choose_task os conn_i) _ w
        (choose_lem conn_i w r)
        λ _ w' c.
          index_lead (λ _. IsReady P conn_i) w'.handle.client_conns conn_i _ w'
            λ conn there.
              index_lead (λ _. IsReady P conn_i) conn.task_list conn.now_sending_task_i _ w'
                λ task _.
                  Leads-bind (λ _ h. (h ≡ w'.handle) × (conn.socket_fd ≢ none))
                    (λ _. IsReady P conn_i)
                    (put_data_to_connection os conn_i conn.now_sending_task_i
                      (record { cmd = cmd_task; task_id = htobe32 w'.handle.host task }))
                    (handle_sent os conn_i) w'
                    (put_data_lem os conn_i conn.now_sending_task_i _ w' conn there)
                    λ header w'' (same, opened).
                      handle_sent_lem conn_i conn header w''
                        (subst (IsChosen P conn_i) (sym same) c) (rw same there) opened

  send_again :
      (finished : Bool) (fuel conn_i : ℕ) (w : World ClusterServerHandle)
      → ((w' : World ClusterServerHandle)
          → IsReady P conn_i w'.handle
          → Leads (send_tasks os fuel conn_i) w' (λ _. IsReady P conn_i))
      → IsReady P conn_i w.handle
      → Leads
          (if finished then pure tt else (do send_task os conn_i; send_tasks os fuel conn_i))
          w
          (λ _. IsReady P conn_i)
  send_again true fuel conn_i w k r = r
  send_again false fuel conn_i w k r =
      Leads-bind (λ _. IsReady P conn_i) (λ _. IsReady P conn_i) (send_task os conn_i)
        (λ _. send_tasks os fuel conn_i) w (send_task_lem conn_i w r) (λ _ w' r'. k w' r')

  send_tasks_lem :
      (fuel conn_i : ℕ) (w : World ClusterServerHandle)
      → IsReady P conn_i w.handle
      → Leads (send_tasks os fuel conn_i) w (λ _. IsReady P conn_i)
  unfolding send_tasks
  send_tasks_lem zero conn_i w r = tt
  send_tasks_lem (suc fuel) conn_i w r =
      index_lead (λ _. IsReady P conn_i) w.handle.client_conns conn_i _ w
        λ conn there.
          send_again (conn.requested_tasks == 0) fuel conn_i w (send_tasks_lem fuel conn_i) r

  -- Of an open connection of the table.
  pub send_tasks-Keeps :
      (fuel conn_i : ℕ) (w : World ClusterServerHandle) {conn : Connection}
      → P w.handle
      → get_elem? w.handle.client_conns conn_i ≡ some conn
      → conn.socket_fd ≢ none
      → Leads (send_tasks os fuel conn_i) w (λ _ h. P h)
  send_tasks-Keeps fuel conn_i w v there opened =
      Leads-weaken _ (λ _ h. P h) (send_tasks os fuel conn_i) w (λ _ h r. r.inv)
        (send_tasks_lem fuel conn_i w (record {
          inv = v;
          ready = λ c at closed. absurd (opened (ground (arith, at, there, closed)));
        }))

module _ (os : Kernel) where
  -- From a handle with the invariant and for an open connection of the table: where the loop that sends
  -- the requested tasks ends normally, the handle has the invariant.
  pub send_tasks-ServerInv :
      (fuel conn_i : ℕ) (w : World ClusterServerHandle) {conn : Connection}
      → ServerInv w.handle
      → get_elem? w.handle.client_conns conn_i ≡ some conn
      → conn.socket_fd ≢ none
      → Leads (send_tasks os fuel conn_i) w (λ _ h. ServerInv h)
  send_tasks-ServerInv fuel conn_i w v there opened =
      send_tasks-Keeps os ServerInv-Stable fuel conn_i w v there opened
