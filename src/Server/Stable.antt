-- ===== src/Server/Stable.antt =====
-- Properties of the handle that survive whatever the event loop does: the interface between the proofs
-- about single functions and those about the loop.
use computing_cluster.Base.{ℕ, ◌≡◌, refl, true, List, [], ◌∷◌, Option, none, some, get_elem?, ◌==◌}
use computing_cluster.Config.{RequestHeader}
use computing_cluster.System.Outcome.{bug, write_at}
use computing_cluster.System.Kernel.{
  Kernel, Answer, done, failed, eagain, ewouldblock, econnreset, accept4, epoll_add,
}
use computing_cluster.System.Action.{World, Action, pure, ◌>>◌, when}
use computing_cluster.System.Rules.{
  Leads, Keeps, Leads-bind, Leads-both, Leads-weaken, Keeps-bind, require_then, when-Keeps,
  lift_lead, index_lead, valid_fd_lead,
}
use computing_cluster.Server.Types.{Connection, ClusterServerHandle}
use computing_cluster.Server.Invariant.{ServerInv}
use computing_cluster.Server.Tasks.Give.{Gives}
use computing_cluster.Server.Tasks.Collect.{Collected}
use computing_cluster.Server.Tasks.Release.{Releases}
use computing_cluster.Server.Connections.{
  fill_cell, free_conn, count_client, interest_new, configure_connection, admit_connection,
  accept_answer, accept_incoming_connection_request, pause_connection_management_routine,
}
use computing_cluster.Server.Connections.Accept.{pause-Keeps, configure-Keeps, accept-ServerInv}
use computing_cluster.Server.Transfer.{take_bytes, recv_answer, read_data_on_connection}
use computing_cluster.Server.Transfer.Keep.{frame_result-Keeps, read_data-ServerInv}

-- The statuses of the tasks and the results that are stored.
pub record SameBooks (h h' : ClusterServerHandle) : Type 0 where
  pub tasks : h'.task_manager ≡ h.task_manager
  pub rets : h'.user_rets ≡ h.user_rets
  pub ret_size : h'.ret_size ≡ h.ret_size

-- A property that only the three functions on tasks can affect, and that survives each of them.
pub record Stable (P : ClusterServerHandle → Type 0) : Type 0 where
  pub inv : {h : ClusterServerHandle} → P h → ServerInv h
  pub untouched : {h h' : ClusterServerHandle} → P h → ServerInv h' → SameBooks h h' → P h'
  pub gives :
      {h h' : ClusterServerHandle} (conn_i task_list_i : ℕ) (conn : Connection)
      → P h
      → Gives h conn_i conn task_list_i h'
      → ServerInv h'
      → P h'
  pub collects :
      {h h' : ClusterServerHandle} (conn_i task_id : ℕ) → P h → Collected h conn_i task_id h' → P h'
  pub releases :
      {h h' : ClusterServerHandle} (conn_i : ℕ) (conn : Connection)
      → P h
      → get_elem? h.client_conns conn_i ≡ some conn
      → Releases h conn_i conn h'
      → ServerInv h'
      → P h'

-- The invariant alone.
pub ServerInv-Stable : Stable ServerInv
ServerInv-Stable = record {
  inv = λ v. v;
  untouched = λ v v' same. v';
  gives = λ conn_i k conn v g v'. v';
  collects = λ conn_i t v c. c.inv;
  releases = λ conn_i conn v there r v'. v';
}

module _ (os : Kernel) (h₀ : ClusterServerHandle) where
  fill_cell-SameBooks :
      (h : ClusterServerHandle) (n fd : ℕ) (cell : Option ℕ) (w : World ClusterServerHandle)
      → SameBooks h₀ h
      → Leads (fill_cell os h n fd cell) w (λ _. SameBooks h₀)
  unfolding fill_cell
  fill_cell-SameBooks h n fd none w same = tt
  fill_cell-SameBooks h n fd (some conn_i) w same =
      index_lead (λ _. SameBooks h₀) h.client_conns conn_i _ w
        λ conn there.
          require_then (SameBooks h₀) os (epoll_add fd interest_new) (pure tt) (λ _ q. q) _
            (record { tasks = same.tasks; rets = same.rets; ret_size = same.ret_size })

  admit-SameBooks : (fd : ℕ) → Keeps (SameBooks h₀) (admit_connection os fd)
  unfolding admit_connection
  admit-SameBooks fd w same =
      let num_clients' = count_client (free_conn w.handle.client_conns) w.handle.num_clients in
      Leads-bind (λ _ _. Unit) (λ _. SameBooks h₀)
        (when (num_clients' == w.handle.max_clients) (pause_connection_management_routine os))
        (λ _. fill_cell os w.handle num_clients' fd (free_conn w.handle.client_conns)) _
        (when-Keeps (λ _. Unit) _ _ (pause-Keeps os (λ _. Unit)) _ tt)
        (λ a w' _.
          fill_cell-SameBooks w.handle num_clients' fd (free_conn w.handle.client_conns) w' same)

  answer-SameBooks : (r : Answer ℕ) → Keeps (SameBooks h₀) (accept_answer os r)
  answer-SameBooks (failed eagain) w same = same
  answer-SameBooks (failed e) w same = tt
  answer-SameBooks (done fd) w same =
      Keeps-bind (SameBooks h₀) (configure_connection os fd)
        (λ _. do admit_connection os fd; pure true) (configure-Keeps os (SameBooks h₀) fd)
        (λ _.
          Keeps-bind (SameBooks h₀) (admit_connection os fd) (λ _. pure true) (admit-SameBooks fd)
            (λ _ _ q. q))
        w same

  accept-SameBooks : Keeps (SameBooks h₀) (accept_incoming_connection_request os)
  unfolding accept_incoming_connection_request
  accept-SameBooks w same =
      answer-SameBooks (os.status w.trace (accept4 w.handle.accept_socket_fd)) _ same

  take_bytes-SameBooks :
      (conn_i : ℕ) (conn : Connection) (bytes : List ℕ) (header : RequestHeader)
      → Keeps (SameBooks h₀) (take_bytes os conn_i conn bytes header)
  unfolding take_bytes
  take_bytes-SameBooks conn_i conn bytes header w same =
      lift_lead (λ _. SameBooks h₀) (write_at conn.recv_buffer conn.bytes_recieved bytes) _ w
        λ buffer e.
          frame_result-Keeps os (SameBooks h₀) _ _ _ _ _
            (record { tasks = same.tasks; rets = same.rets; ret_size = same.ret_size })

  recv_answer-SameBooks :
      (conn_i : ℕ) (conn : Connection) (header : RequestHeader) (r : Answer (List ℕ))
      → Keeps (SameBooks h₀) (recv_answer os conn_i conn header r)
  recv_answer-SameBooks conn_i conn header (failed eagain) w same = same
  recv_answer-SameBooks conn_i conn header (failed ewouldblock) w same = same
  recv_answer-SameBooks conn_i conn header (failed econnreset) w same = same
  recv_answer-SameBooks conn_i conn header (failed e) w same = tt
  recv_answer-SameBooks conn_i conn header (done []) w same = same
  recv_answer-SameBooks conn_i conn header (done (b ∷ bytes)) w same =
      take_bytes-SameBooks conn_i conn (b ∷ bytes) header w same

  read_data-SameBooks :
      (conn_i : ℕ) (header : RequestHeader)
      → Keeps (SameBooks h₀) (read_data_on_connection os conn_i header)
  unfolding read_data_on_connection
  read_data-SameBooks conn_i header w same =
      index_lead (λ _. SameBooks h₀) w.handle.client_conns conn_i _ w
        λ conn there.
          valid_fd_lead (λ _. SameBooks h₀) conn.socket_fd bug _ w
            λ fd e. recv_answer-SameBooks conn_i conn header _ _ same

pub SameBooks-refl : (h : ClusterServerHandle) → SameBooks h h
SameBooks-refl h = record { tasks = refl; rets = refl; ret_size = refl }

module _ (os : Kernel) {P : ClusterServerHandle → Type 0} (s : Stable P) where
  -- A statement that keeps the invariant and the books keeps every stable property.
  untouched-Keeps :
      {A : Type 0} (m : Action ClusterServerHandle A)
      → Keeps ServerInv m
      → ((h₀ : ClusterServerHandle) → Keeps (SameBooks h₀) m)
      → Keeps P m
  untouched-Keeps m k same w p =
      Leads-weaken _ (λ _. P) m w (λ a h (v, b). s.untouched p v b)
        (Leads-both (λ _. ServerInv) (λ _. SameBooks w.handle) m w (k w (s.inv p))
          (same w.handle w (SameBooks-refl w.handle)))

  pub accept-Keeps : Keeps P (accept_incoming_connection_request os)
  accept-Keeps =
      untouched-Keeps (accept_incoming_connection_request os) (accept-ServerInv os)
        (accept-SameBooks os)

  pub read_data-Keeps :
      (conn_i : ℕ) (header : RequestHeader) → Keeps P (read_data_on_connection os conn_i header)
  read_data-Keeps conn_i header =
      untouched-Keeps (read_data_on_connection os conn_i header)
        (read_data-ServerInv os conn_i header) (λ h₀. read_data-SameBooks os h₀ conn_i header)
