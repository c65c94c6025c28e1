-- ===== src/Client/Invariant.antt =====
-- The invariant of the client: what each entry of the thread manager is doing, where its packs lie,
-- and how far the frame has arrived.
use computing_cluster.Base.{
  ℕ, ◌+◌, ◌*◌, ◌≤◌, ◌<◌, ◌≡◌, ◌≢◌, refl, sym, ap, ◌∙◌, subst, Bool, true, false, ◌||◌, List, [],
  ◌∷◌, some, arith, ◌==◌, length, get_elem?, set, if◌then◌else◌, get_elem?-set_ne,
  get_elem?-set_self, get_elem?-lt, length-set,
}
use mathlib.Core.Option.{some-injective}
use native.Mathlib.Decide.{ℕ_discrete}
use computing_cluster.Base.Each.{Each, Each-set_ne}
use computing_cluster.Config.{sizeof_header}
use computing_cluster.System.Kernel.{Kernel, Trace, read_event, write_event, failed, eagain}
use computing_cluster.System.Action.{World}
use computing_cluster.System.Packs.{pack}
use computing_cluster.Client.Types.{Connection, ThreadInfo, ClusterClientHandle}

-- Whether something was written to an event descriptor since it was read last.
unfoldable pub pending : (fd : ℕ) → Trace → Bool
pending fd [] = false
pending fd (write_event fd' ∷ trace) = fd == fd' || pending fd trace
pending fd (read_event fd' ∷ trace) = if fd == fd' then false else pending fd trace
pending fd (_ ∷ trace) = pending fd trace

-- eventfd(0, EFD_NONBLOCK): a read fails as long as nothing was written.
abbrev pub CountsEvents : Kernel → Type 0
CountsEvents os =
    (before : Trace) (fd : ℕ)
    → pending fd before ≡ false
    → os.status before (read_event fd) ≡ failed eagain

-- The result pack holds what the function makes of the data pack.
abbrev pub IsStored : (compute : List ℕ → List ℕ) → ClusterClientHandle → ThreadInfo → Type 0
IsStored compute h t =
    pack h.ret_buffer t.ret_pack h.ret_size ≡ compute (pack h.task_buffer t.data_pack h.task_size)

-- What an entry is doing. A worker that has ended has signalled it, and its result is stored until
-- the entry is free again.
pub data Phase (compute : List ℕ → List ℕ) (h : ClusterClientHandle) (trace : Trace)
    (t : ThreadInfo) : Type 0 where
  free :
      t.empty ≡ true
      → t.waiting_to_be_sent ≡ false
      → t.alive ≡ false
      → pending t.event_fd trace ≡ false
      → Phase compute h trace t
  computing :
      t.empty ≡ false
      → t.waiting_to_be_sent ≡ false
      → t.alive ≡ true
      → pending t.event_fd trace ≡ false
      → Phase compute h trace t
  signalled :
      t.empty ≡ false
      → t.waiting_to_be_sent ≡ false
      → t.alive ≡ false
      → pending t.event_fd trace ≡ true
      → IsStored compute h t
      → Phase compute h trace t
  finished :
      t.empty ≡ false
      → t.waiting_to_be_sent ≡ true
      → t.alive ≡ false
      → pending t.event_fd trace ≡ false
      → IsStored compute h t
      → Phase compute h trace t

-- The packs of entry `i`, `line` bytes apart.
pub record IsPlaced (h : ClusterClientHandle) (line i : ℕ) (t : ThreadInfo) : Type 0 where
  pub data_at : t.data_pack ≡ i * (h.task_size + line)
  pub ret_at : t.ret_pack ≡ i * (h.ret_size + line)

pub record IsLaidOut (h : ClusterClientHandle) : Type 0 where
  pub line : ℕ
  pub entries : length h.thread_manager ≡ h.max_threads
  pub task_room : length h.task_buffer ≡ h.max_threads * (h.task_size + line)
  pub ret_room : length h.ret_buffer ≡ h.max_threads * (h.ret_size + line)
  pub places : Each (IsPlaced h line) h.thread_manager
  pub distinct :
      (i j : ℕ) (s t : ThreadInfo)
      → get_elem? h.thread_manager i ≡ some s
      → get_elem? h.thread_manager j ≡ some t
      → s.event_fd ≡ t.event_fd
      → i ≡ j

-- The receive buffer has room for one frame and is never full between two calls.
pub record IsReceiving (h : ClusterClientHandle) : Type 0 where
  pub buffer : length h.server_conn.recv_buffer ≡ sizeof_header + h.task_size
  pub partial : h.server_conn.bytes_recieved < sizeof_header + h.task_size
  pub frame_small : sizeof_header + h.task_size < 18446744073709551616

-- The function of the user fills the result pack.
abbrev pub FillsPack : (compute : List ℕ → List ℕ) (task_size ret_size : ℕ) → Type 0
FillsPack compute task_size ret_size =
    (data_pack : List ℕ) → length data_pack ≡ task_size → length (compute data_pack) ≡ ret_size

pub record ClientInv (compute : List ℕ → List ℕ) (w : World ClusterClientHandle) : Type 0 where
  pub fills : FillsPack compute w.handle.task_size w.handle.ret_size
  -- A frame fits into the send buffer.
  pub send_room : sizeof_header + w.handle.ret_size ≤ 256
  pub layout : IsLaidOut w.handle
  pub conn : IsReceiving w.handle
  pub phases : Each (λ _. Phase compute w.handle w.trace) w.handle.thread_manager

-- The two packs of an entry, and the buffers around it, kept where a change is about another entry.
pub Phase-keep :
    (compute : List ℕ → List ℕ) {h h' : ClusterClientHandle} {trace trace' : Trace} {t : ThreadInfo}
    → Phase compute h trace t
    → pending t.event_fd trace' ≡ pending t.event_fd trace
    → pack h'.ret_buffer t.ret_pack h'.ret_size ≡ pack h.ret_buffer t.ret_pack h.ret_size
    → pack h'.task_buffer t.data_pack h'.task_size ≡ pack h.task_buffer t.data_pack h.task_size
    → Phase compute h' trace' t
Phase-keep compute (free e w a p) q r d = free e w a (q ∙ p)
Phase-keep compute (computing e w a p) q r d = computing e w a (q ∙ p)
Phase-keep compute (signalled e w a p s) q r d =
    signalled e w a (q ∙ p) (r ∙ s ∙ ap compute (sym d))
Phase-keep compute (finished e w a p s) q r d = finished e w a (q ∙ p) (r ∙ s ∙ ap compute (sym d))

-- An entry replaced by one at the same place, with the same descriptor.
pub IsLaidOut-set :
    {h : ClusterClientHandle} (i : ℕ) (old new : ThreadInfo) (tasks rets : List ℕ)
    → IsLaidOut h
    → get_elem? h.thread_manager i ≡ some old
    → new.in_args ≡ old.in_args
    → new.event_fd ≡ old.event_fd
    → length tasks ≡ length h.task_buffer
    → length rets ≡ length h.ret_buffer
    → IsLaidOut (record h {
      thread_manager = set h.thread_manager i new;
      task_buffer = tasks;
      ret_buffer = rets;
    })
IsLaidOut-set {h} i old new tasks rets v there args fd tl rl = record {
  line = v.line;
  entries = omega (arith, length-set h.thread_manager i new, v.entries);
  task_room = omega (arith, v.task_room);
  ret_room = omega (arith, v.ret_room);
  places = λ j t e. moved j t (same_place j t e);
  distinct = λ j k s t ej ek same. apart j k s t (same_place j s ej) (same_place k t ek) same;
}
  where
    -- Where an entry of the new list stood before.
    same_place :
        (j : ℕ) (t : ThreadInfo)
        → get_elem? (set h.thread_manager i new) j ≡ some t
        → (s : ThreadInfo) × (get_elem? h.thread_manager j ≡ some s)
          × (t.in_args ≡ s.in_args)
          × (t.event_fd ≡ s.event_fd)
    same_place j t e = elim (ℕ_discrete i j) [
      | yes eq ↦
          let self =
            get_elem?-set_self h.thread_manager i new (get_elem?-lt h.thread_manager i there) in
          let both : some new ≡ some t = sym self ∙ rw (← eq) at e in
          let hit : new ≡ t = some-injective _ _ both in
          (
            old,
            subst (λ k. get_elem? h.thread_manager k ≡ some old) eq there,
            ap (λ x. x.in_args) (sym hit) ∙ args,
            ap (λ x. x.event_fd) (sym hit) ∙ fd,
          )
      | no ne ↦ (t, sym (get_elem?-set_ne h.thread_manager i j new ne) ∙ e, refl, refl)
    ]

    moved :
        (j : ℕ) (t : ThreadInfo)
        → (s : ThreadInfo) × (get_elem? h.thread_manager j ≡ some s)
          × (t.in_args ≡ s.in_args)
          × (t.event_fd ≡ s.event_fd)
        → IsPlaced
            (record h {
              thread_manager = set h.thread_manager i new;
              task_buffer = tasks;
              ret_buffer = rets;
            })
            v.line
            j
            t
    moved j t (s, e, a, f) = record {
      data_at = ap (λ x. x.data_pack) a ∙ (v.places j s e).data_at;
      ret_at = ap (λ x. x.ret_pack) a ∙ (v.places j s e).ret_at;
    }

    apart :
        (j k : ℕ) (s t : ThreadInfo)
        → (s' : ThreadInfo) × (get_elem? h.thread_manager j ≡ some s')
          × (s.in_args ≡ s'.in_args)
          × (s.event_fd ≡ s'.event_fd)
        → (t' : ThreadInfo) × (get_elem? h.thread_manager k ≡ some t')
          × (t.in_args ≡ t'.in_args)
          × (t.event_fd ≡ t'.event_fd)
        → s.event_fd ≡ t.event_fd
        → j ≡ k
    apart j k s t (s', ej, _, fs) (t', ek, _, ft) same =
        v.distinct j k s' t' ej ek (sym fs ∙ same ∙ ft)

-- The world with one entry replaced, the buffers changed and calls made.
abbrev pub updated :
    World ClusterClientHandle
    → (i : ℕ) → ThreadInfo
    → (tasks rets : List ℕ) → Trace
    → World ClusterClientHandle
updated w i new tasks rets trace = record {
  handle = record (w.handle) {
    thread_manager = set w.handle.thread_manager i new;
    task_buffer = tasks;
    ret_buffer = rets;
  };
  trace = trace;
}

-- Such a change keeps the invariant where the other entries do not notice it.
pub ClientInv-update :
    (compute : List ℕ → List ℕ) {w : World ClusterClientHandle} (i : ℕ) (old new : ThreadInfo)
    (tasks rets : List ℕ) (trace : Trace)
    → ClientInv compute w
    → get_elem? w.handle.thread_manager i ≡ some old
    → new.in_args ≡ old.in_args
    → new.event_fd ≡ old.event_fd
    → length tasks ≡ length w.handle.task_buffer
    → length rets ≡ length w.handle.ret_buffer
    → ((j : ℕ) (t : ThreadInfo)
        → get_elem? w.handle.thread_manager j ≡ some t
        → i ≢ j
        → (pending t.event_fd trace ≡ pending t.event_fd w.trace)
          × (pack rets t.ret_pack w.handle.ret_size
              ≡ pack w.handle.ret_buffer t.ret_pack w.handle.ret_size)
          × (pack tasks t.data_pack w.handle.task_size
              ≡ pack w.handle.task_buffer t.data_pack w.handle.task_size))
    → Phase compute (updated w i new tasks rets trace).handle trace new
    → ClientInv compute (updated w i new tasks rets trace)
ClientInv-update compute {w} i old new tasks rets trace v there args fd tl rl others phase =
    record {
      fills = v.fills;
      send_room = v.send_room;
      layout = IsLaidOut-set i old new tasks rets v.layout there args fd tl rl;
      conn = record {
        buffer = v.conn.buffer;
        partial = v.conn.partial;
        frame_small = v.conn.frame_small;
      };
      phases =
          Each-set_ne (λ _. Phase compute (updated w i new tasks rets trace).handle trace)
            w.handle.thread_manager i new
            (λ j t e ne.
              let (p, r, d) = others j t e ne in Phase-keep compute (v.phases j t e) p r d)
            phase;
    }

-- A change of the connection, or of anything that the entries do not know of.
pub ClientInv-conn :
    (compute : List ℕ → List ℕ) {w : World ClusterClientHandle} (conn : Connection)
    (addr requests : ℕ)
    → ClientInv compute w
    → length conn.recv_buffer ≡ sizeof_header + w.handle.task_size
    → conn.bytes_recieved < sizeof_header + w.handle.task_size
    → ClientInv compute (record w {
      handle = record (w.handle) {
        server_conn = conn;
        server_addr = addr;
        initial_requests = requests;
      };
    })
ClientInv-conn compute {w} conn addr requests v len part = record {
  fills = v.fills;
  send_room = v.send_room;
  layout = record {
    line = v.layout.line;
    entries = v.layout.entries;
    task_room = v.layout.task_room;
    ret_room = v.layout.ret_room;
    places =
        λ i t e. let p = v.layout.places i t e in record { data_at = p.data_at; ret_at = p.ret_at };
    distinct = v.layout.distinct;
  };
  conn = record { buffer = len; partial = part; frame_small = v.conn.frame_small };
  phases = λ i t e. Phase-keep compute (v.phases i t e) refl refl refl;
}

-- Calls that are none of the event descriptors'.
pub ClientInv-calls :
    (compute : List ℕ → List ℕ) {w : World ClusterClientHandle} (trace : Trace)
    → ClientInv compute w
    → ((fd : ℕ) → pending fd trace ≡ pending fd w.trace)
    → ClientInv compute (record w { trace = trace })
ClientInv-calls compute trace v same = record {
  fills = v.fills;
  send_room = v.send_room;
  layout = v.layout;
  conn = v.conn;
  phases = λ i t e. Phase-keep compute (v.phases i t e) (same t.event_fd) refl refl;
}
