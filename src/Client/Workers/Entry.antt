-- ===== src/Client/Workers/Entry.antt =====
-- When start_computation() of cluster-api/cluster-client.c returns: exactly if an entry is empty.
use computing_cluster.Base.{
  ℕ, zero, suc, ◌+◌, ◌≤◌, ◌≡◌, ◌↔◌, refl, sym, ◌∙◌, true, false, List, [], ◌∷◌, none, some, arith,
  length, get_elem?, inl, inr, get_elem?-set_self, get_elem?-lt, Bool-cases,
}
use computing_cluster.Base.Each.{Each}
use computing_cluster.Config.{sizeof_header}
use computing_cluster.System.Outcome.{ok, exits, bug, Returns}
use computing_cluster.System.Kernel.{
  Kernel, thread_create, pthread_attr_init, pthread_attr_setdetachstate, pthread_attr_setaffinity,
}
use computing_cluster.System.Action.{World}
use computing_cluster.System.Ends.{Succeeds, Ends, require-Ends, Brings-Returns}
use computing_cluster.System.Packs.{read_at-pack, write_at-splice, length-pack}
use computing_cluster.Client.Types.{ThreadInfo, ClusterClientHandle}
use computing_cluster.Client.Tasks.{free_thread, run_on, start_computation}
use computing_cluster.Client.Invariant.{ClientInv}
use computing_cluster.Client.Entries.{data_inside}
use computing_cluster.Client.Workers.{Starts, arrived, free_thread-first, start_computation_lem}

-- The kernel starts every thread that it is asked for.
pub record StartsThreads (os : Kernel) : Type 0 where
  pub attributes : Succeeds os pthread_attr_init
  pub detached : Succeeds os pthread_attr_setdetachstate
  pub placed : (cpu : ℕ) → Succeeds os (pthread_attr_setaffinity cpu)
  pub created : (entry : ℕ) → Succeeds os (thread_create entry)

-- The search finds an entry where there is one.
free_thread-found :
    (ts : List ThreadInfo) (i : ℕ) (t : ThreadInfo)
    → get_elem? ts i ≡ some t
    → t.empty ≡ true
    → (k : ℕ) × (free_thread ts ≡ some k)
unfolding free_thread
free_thread-found [] i t e is_empty = cc
free_thread-found (s ∷ ts) zero t e is_empty =
    let same : s ≡ t = cc in (0, rw (same, is_empty) refl)
free_thread-found (s ∷ ts) (suc i) t e is_empty = elim (Bool-cases s.empty) [
  | inl here ↦ (0, rw here refl)
  | inr busy ↦
      let (k, found) = free_thread-found ts i t e is_empty in (suc k, rw (busy, found) refl)
]

free_thread-none : (ts : List ThreadInfo) → Each (λ _ t. t.empty ≡ false) ts → free_thread ts ≡ none
unfolding free_thread
free_thread-none [] all = refl
free_thread-none (t ∷ ts) all =
    rw (all 0 t refl, free_thread-none ts (λ i s e. all (suc i) s e)) refl

module _ (os : Kernel) (compute : List ℕ → List ℕ) where
  run_on-Ends :
      (task_id k : ℕ) (task : List ℕ) (w : World ClusterClientHandle)
      → StartsThreads os
      → ClientInv compute w
      → length task ≡ w.handle.task_size
      → free_thread w.handle.thread_manager ≡ some k
      → Ends (run_on os task_id task (some k)) w
  unfolding run_on
  run_on-Ends task_id k task w starts v len found =
      let (t, there, is_empty) = free_thread-first w.handle.thread_manager k found in
      let busy : ThreadInfo = record t { empty = false; task_id = task_id } in
      let here =
        get_elem?-set_self w.handle.thread_manager k busy
          (get_elem?-lt w.handle.thread_manager k there) in
      rw
        (
          there,
          write_at-splice w.handle.task_buffer t.data_pack task (rw len (data_inside v k t there)),
        )
        (require-Ends os pthread_attr_init _ _ starts.attributes (
          require-Ends os pthread_attr_setdetachstate _ _ starts.detached (
            require-Ends os (pthread_attr_setaffinity t.cpu) _ _ (starts.placed t.cpu)
              (require-Ends os (thread_create k) _ _ (starts.created k) (rw here (_, refl))))))

  start_computation-Ends :
      (task_id : ℕ) (w : World ClusterClientHandle) (i : ℕ) (t : ThreadInfo)
      → StartsThreads os
      → ClientInv compute w
      → get_elem? w.handle.thread_manager i ≡ some t
      → t.empty ≡ true
      → Ends (start_computation os task_id sizeof_header) w
  unfolding start_computation
  start_computation-Ends task_id w i t starts v there is_empty =
      let fits : sizeof_header + w.handle.task_size ≤ length w.handle.server_conn.recv_buffer =
        omega (arith, v.conn.buffer) in
      let (k, found) = free_thread-found w.handle.thread_manager i t there is_empty in
      rw
        (read_at-pack w.handle.server_conn.recv_buffer sizeof_header w.handle.task_size fits, found)
        (run_on-Ends task_id k (arrived w.handle) w starts v
          (length-pack w.handle.server_conn.recv_buffer sizeof_header w.handle.task_size fits)
          found)

  -- With a kernel that starts threads and an empty entry, the call returns.
  pub start_computation-Returns :
      (task_id : ℕ) (w : World ClusterClientHandle) (i : ℕ) (t : ThreadInfo)
      → StartsThreads os
      → ClientInv compute w
      → get_elem? w.handle.thread_manager i ≡ some t
      → t.empty ≡ true
      → Returns
          (λ r. ClientInv compute r.1 × Starts w task_id (arrived w.handle) r.1)
          (start_computation os task_id sizeof_header w)
  start_computation-Returns task_id w i t starts v there is_empty =
      Brings-Returns (λ _ w'. ClientInv compute w' × Starts w task_id (arrived w.handle) w')
        (start_computation os task_id sizeof_header) w
        (start_computation-Ends task_id w i t starts v there is_empty)
        (start_computation_lem os compute task_id w v)

  -- From a world with the invariant, with a kernel that starts every thread that it is asked for: the
  -- call ends the client through BUG_ON exactly if no entry is empty.
  pub start_computation-spare :
      (task_id : ℕ) (w : World ClusterClientHandle)
      → StartsThreads os
      → ClientInv compute w
      → (start_computation os task_id sizeof_header w ≡ exits bug)
        ↔ Each (λ _ t. t.empty ≡ false) w.handle.thread_manager
  unfolding start_computation run_on
  start_computation-spare task_id w starts v = (
    (λ stopped i t there. elim (Bool-cases t.empty) [
      | inl is_empty ↦
          let (r, e, _) = start_computation-Returns task_id w i t starts v there is_empty in
          absurd (let x : ok r ≡ exits bug = sym e ∙ stopped in cc)
      | inr busy ↦ busy
    ]),
    (λ all. rw (
      read_at-pack w.handle.server_conn.recv_buffer sizeof_header w.handle.task_size
          (omega (arith, v.conn.buffer)),
      free_thread-none w.handle.thread_manager all,
    )),
  )
