-- ===== src/Server/Setup/Establishes.antt =====
-- The init functions establish the invariant.
use computing_cluster.Base.{
  ℕ, zero, suc, ◌+◌, ◌*◌, ◌≡◌, refl, ap, sym, subst, List, some, arith, length,
}
use computing_cluster.Config.{
  sizeof_header, max_tasks_per_client, max_simultaneous_connections, connection_port,
  listen_connection_backlog,
}
use computing_cluster.System.Kernel.{
  Kernel, Answer, done, failed, malloc, socket, stream_nonblocking, datagram_nonblocking, bind, any,
  setsockopt, so_reuseaddr, listen, epoll_create1, pthread_create,
}
use computing_cluster.System.Action.{World, Action, ◌>>=◌, ◌>>◌, get, put, require, or_exit}
use computing_cluster.System.Rules.{
  Leads, Keeps, Leads-bind, Keeps-bind, require_lead, require_then, require-Keeps,
}
use computing_cluster.Server.Types.{Connection, ClusterServerHandle}
use computing_cluster.Server.Invariant.{ServerInv}
use computing_cluster.Server.Connections.{start_connection_management_routine}
use computing_cluster.Server.Discovery.{init_discovery_routine, start_discovery_routine}
use computing_cluster.Server.Setup.{
  allocate_connections, init_connection_management_routine, init_tasks_of_handle,
  init_cluster_server,
}
use computing_cluster.Server.Setup.Fresh.{IsFreshTable, IsFreshTable-nil, IsFreshTable-cons}
use computing_cluster.Server.Setup.Stages.{
  ServerInv-epoll, AllocatesInFull, IsGiven, HasTable, init_tasks-ServerInv,
}

or_exit_lead :
    {A B : Type 0} (R : B → ClusterServerHandle → Type 0) (r : Answer A)
    (k : A → Action ClusterServerHandle B) (w : World ClusterServerHandle)
    → ((a : A) → r ≡ done a → Leads (k a) w R)
    → Leads (or_exit r >>= k) w R
or_exit_lead R (done a) k w h = h a refl
or_exit_lead R (failed e) k w h = tt

-- What allocate_connections() has made, with the rest of the handle as it was.
Allocated : ClusterServerHandle → (n : ℕ) → List Connection → ClusterServerHandle → Type 0
Allocated h₀ n conns h = (h ≡ h₀) × IsFreshTable h₀.ret_size n conns

module _ (os : Kernel) where
  allocate_lem :
      (n : ℕ) (uninitialised : Connection) (h₀ : ClusterServerHandle)
      (w : World ClusterServerHandle)
      → AllocatesInFull os
      → w.handle ≡ h₀
      → Leads (allocate_connections os n uninitialised) w (Allocated h₀ n)
  unfolding allocate_connections Allocated
  allocate_lem zero uninitialised h₀ w mem same = (same, IsFreshTable-nil h₀.ret_size)
  allocate_lem (suc n) uninitialised h₀ w mem same =
      let size = sizeof_header + w.handle.ret_size in
      or_exit_lead (Allocated h₀ (suc n)) (os.input w.trace (malloc size)) _ _ λ buffer e.
        let len : length buffer ≡ size = mem w.trace size buffer e in
        let ret : w.handle.ret_size ≡ h₀.ret_size = ap (λ h. h.ret_size) same in
        Leads-bind (λ _ h. h ≡ h₀) (Allocated h₀ (suc n))
          (require os (malloc (max_tasks_per_client * 4))) _ _
          (require-Keeps (λ h. h ≡ h₀) os (malloc (max_tasks_per_client * 4)) _ same)
          λ _ w' same'.
            Leads-bind (Allocated h₀ n) (Allocated h₀ (suc n))
              (allocate_connections os n uninitialised) _ w'
              (allocate_lem n uninitialised h₀ w' mem same')
              λ conns w'' (same'', rest).
                (same'', IsFreshTable-cons uninitialised buffer (omega (arith, len, ret)) rest)

  -- The listening socket is opened and remembered.
  open_listener-Keeps : Keeps HasTable (do
    sock_fd ← require os (socket stream_nonblocking)
    require os (bind sock_fd (any connection_port))
    require os (setsockopt sock_fd so_reuseaddr 1)
    require os (listen sock_fd listen_connection_backlog)
    h' ← get
    put (record h' { accept_socket_fd = sock_fd }))
  open_listener-Keeps =
      Keeps-bind HasTable (require os (socket stream_nonblocking)) _ (require-Keeps HasTable os _)
        λ fd. require_then HasTable os _ _ (
          require_then HasTable os _ _ (
            require_then HasTable os _ _ (λ w v. record {
              given = record {
                few = v.given.few;
                frame = v.given.frame;
                user_bytes = v.given.user_bytes;
                room = v.given.room;
              };
              free = v.free;
              none_yet = v.none_yet;
              size = v.size;
            })))

  init_connection_management_lem :
      (uninitialised : Connection) (w : World ClusterServerHandle)
      → AllocatesInFull os
      → IsGiven w.handle
      → Leads (init_connection_management_routine os uninitialised) w (λ _ h. HasTable h)
  unfolding init_connection_management_routine Allocated
  init_connection_management_lem uninitialised w mem g =
      Leads-bind (λ _ h. h ≡ w.handle) (λ _ h. HasTable h)
        (require os (malloc (max_simultaneous_connections * 48))) _ w
        (require-Keeps (λ h. h ≡ w.handle) os _ w refl)
        λ _ w' same.
          Leads-bind (Allocated w.handle max_simultaneous_connections) (λ _ h. HasTable h)
            (allocate_connections os max_simultaneous_connections uninitialised) _ w'
            (allocate_lem max_simultaneous_connections uninitialised w.handle w' mem same)
            λ conns w'' (same'', fresh).
              open_listener-Keeps
                (record w'' {
                  handle = record (w''.handle) {
                    client_conns = conns;
                    num_clients = 0;
                    max_clients = max_simultaneous_connections;
                  };
                })
                (record {
                  given =
                      let g' : IsGiven w''.handle = subst IsGiven (sym same'') g in
                      record {
                        few = g'.few;
                        frame = g'.frame;
                        user_bytes = g'.user_bytes;
                        room = g'.room;
                      };
                  free = rw (ap (λ h. h.ret_size) same'') fresh;
                  none_yet = refl;
                  size = omega arith;
                })

  init_discovery-Keeps : Keeps IsGiven (init_discovery_routine os)
  unfolding init_discovery_routine
  init_discovery-Keeps =
      Keeps-bind IsGiven (require os (socket datagram_nonblocking)) _ (require-Keeps IsGiven os _)
        λ fd. require_then IsGiven os _ _ (
          require_then IsGiven os _ _ (
            require_then IsGiven os _ _ (λ w g. record {
              few = g.few;
              frame = g.frame;
              user_bytes = g.user_bytes;
              room = g.room;
            })))

  init_tasks_lem :
      (w : World ClusterServerHandle)
      → HasTable w.handle
      → Leads (init_tasks_of_handle os) w (λ _ h. ServerInv h)
  unfolding init_tasks_of_handle
  init_tasks_lem w v =
      require_lead (λ _ h. ServerInv h) os (malloc (w.handle.num_tasks * 24)) (put _) w
        (λ _. init_tasks-ServerInv w.handle v)

  pub start_connections-Keeps :
      (P : ClusterServerHandle → Type 0) → Keeps P (start_connection_management_routine os)
  unfolding start_connection_management_routine
  start_connections-Keeps P w v = require_then P os _ _ (λ _ v. v) w v

  pub start_discovery-Keeps :
      (P : ClusterServerHandle → Type 0) → Keeps P (start_discovery_routine os)
  unfolding start_discovery_routine
  start_discovery-Keeps P w v = require_then P os _ _ (λ _ v. v) w v

  start_all-Keeps : Keeps ServerInv (do
    epoll_fd ← require os epoll_create1
    h ← get
    put (record h { epoll_fd = some epoll_fd })
    require os pthread_create
    start_connection_management_routine os
    start_discovery_routine os)
  start_all-Keeps =
      Keeps-bind ServerInv (require os epoll_create1) _ (require-Keeps ServerInv os _) λ fd w v.
        require_then ServerInv os pthread_create _
          (Keeps-bind ServerInv (start_connection_management_routine os) _
            (start_connections-Keeps ServerInv) (λ _. start_discovery-Keeps ServerInv))
          (record w { handle = record (w.handle) { epoll_fd = some fd } })
          (ServerInv-epoll (some fd) v)

  -- With a kernel whose malloc() answers with blocks of the size that was asked for, and arguments that
  -- fit together: where init_cluster_server() returns, the handle has the invariant.
  pub init_cluster_server-ServerInv :
      (uninitialised : Connection) (w : World ClusterServerHandle)
      → AllocatesInFull os
      → IsGiven w.handle
      → Leads (init_cluster_server os uninitialised) w (λ _ h. ServerInv h)
  unfolding init_cluster_server
  init_cluster_server-ServerInv uninitialised w mem g =
      Leads-bind (λ _. IsGiven) (λ _. ServerInv) (init_discovery_routine os) _ w
        (init_discovery-Keeps w g)
        λ _ w₁ g₁.
          Leads-bind (λ _. HasTable) (λ _. ServerInv)
            (init_connection_management_routine os uninitialised) _ w₁
            (init_connection_management_lem uninitialised w₁ mem g₁)
            λ _ w₂ v₂.
              Leads-bind (λ _. ServerInv) (λ _. ServerInv) (init_tasks_of_handle os) _ w₂
                (init_tasks_lem w₂ v₂) λ _. start_all-Keeps
