-- ===== src/Client/Entries.antt =====
-- The entries of the thread manager: what each of the changes that the client makes to them does to
-- the invariant.
use computing_cluster.Base.{
  ℕ, ◌+◌, ◌*◌, ◌≤◌, ◌≡◌, ◌≢◌, ◌⊎◌, refl, sym, true, false, List, ◌∷◌, some, arith, ◌==◌, length,
  get_elem?, get_elem?-lt, ne→==, ==_refl,
}
use computing_cluster.System.Kernel.{read_event, write_event}
use computing_cluster.System.Action.{World}
use computing_cluster.System.Packs.{
  pack, splice, pack-splice_same, pack-splice_other, regions_apart, region_inside, length-pack,
}
use computing_cluster.Base.Bytes.{length-splice}
use computing_cluster.Client.Types.{ThreadInfo, ClusterClientHandle}
use computing_cluster.Client.Eventloop.{sent}
use computing_cluster.Client.Invariant.{
  pending, free, computing, signalled, finished, IsStored, ClientInv, ClientInv-update, updated,
}

packs_apart :
    (a b i j stride n : ℕ)
    → a ≡ i * stride
    → b ≡ j * stride
    → i ≢ j
    → n ≤ stride
    → (b + n ≤ a) ⊎ (a + n ≤ b)
packs_apart a b i j stride n ea eb ne le = rw (ea, eb) (regions_apart i j stride n n ne le le)

module _ {compute : List ℕ → List ℕ} {w : World ClusterClientHandle} (v : ClientInv compute w)
    (i : ℕ) (t : ThreadInfo) (there : get_elem? w.handle.thread_manager i ≡ some t) where
  -- Both packs of an entry lie inside their buffers.
  pub data_inside : t.data_pack + w.handle.task_size ≤ length w.handle.task_buffer
  data_inside =
      rw ((v.layout.places i t there).data_at, v.layout.task_room)
        (region_inside i w.handle.max_threads (w.handle.task_size + v.layout.line)
          w.handle.task_size
          (omega (arith, v.layout.entries, get_elem?-lt w.handle.thread_manager i there))
          (omega arith))

  pub ret_inside : t.ret_pack + w.handle.ret_size ≤ length w.handle.ret_buffer
  ret_inside =
      rw ((v.layout.places i t there).ret_at, v.layout.ret_room)
        (region_inside i w.handle.max_threads (w.handle.ret_size + v.layout.line) w.handle.ret_size
          (omega (arith, v.layout.entries, get_elem?-lt w.handle.thread_manager i there))
          (omega arith))

  -- What is written into the packs of an entry is not seen by another.
  data_apart :
      (bytes : List ℕ)
      → length bytes ≡ w.handle.task_size
      → (j : ℕ) (s : ThreadInfo) → get_elem? w.handle.thread_manager j ≡ some s
      → i ≢ j
      → pack (splice w.handle.task_buffer t.data_pack bytes) s.data_pack w.handle.task_size
        ≡ pack w.handle.task_buffer s.data_pack w.handle.task_size
  data_apart bytes len j s e ne =
      pack-splice_other w.handle.task_buffer t.data_pack bytes s.data_pack w.handle.task_size
        (rw len data_inside)
        (rw len (
          packs_apart t.data_pack s.data_pack i j (w.handle.task_size + v.layout.line)
            w.handle.task_size ((v.layout.places i t there).data_at)
            ((v.layout.places j s e).data_at) ne (omega arith)))

  ret_apart :
      (bytes : List ℕ)
      → length bytes ≡ w.handle.ret_size
      → (j : ℕ) (s : ThreadInfo) → get_elem? w.handle.thread_manager j ≡ some s
      → i ≢ j
      → pack (splice w.handle.ret_buffer t.ret_pack bytes) s.ret_pack w.handle.ret_size
        ≡ pack w.handle.ret_buffer s.ret_pack w.handle.ret_size
  ret_apart bytes len j s e ne =
      pack-splice_other w.handle.ret_buffer t.ret_pack bytes s.ret_pack w.handle.ret_size
        (rw len ret_inside)
        (rw len (
          packs_apart t.ret_pack s.ret_pack i j (w.handle.ret_size + v.layout.line)
            w.handle.ret_size ((v.layout.places i t there).ret_at) ((v.layout.places j s e).ret_at)
            ne (omega arith)))

  other_fd :
      (j : ℕ) (s : ThreadInfo)
      → get_elem? w.handle.thread_manager j ≡ some s
      → i ≢ j
      → (s.event_fd == t.event_fd) ≡ false
  other_fd j s e ne =
      ne→== s.event_fd t.event_fd (λ same. ne (sym (v.layout.distinct j i s t e there same)))

  -- What the worker of the entry makes of its data.
  abbrev pub outcome : List ℕ
  outcome = compute (pack w.handle.task_buffer t.data_pack w.handle.task_size)

  pub length-outcome : length outcome ≡ w.handle.ret_size
  length-outcome =
      v.fills _ (length-pack w.handle.task_buffer t.data_pack w.handle.task_size data_inside)

  -- The worker ends: its result is stored and signalled.
  pub computed-ClientInv :
      t.empty ≡ false
      → t.waiting_to_be_sent ≡ false
      → ClientInv compute (
          updated w i
            (record t { alive = false })
            w.handle.task_buffer
            (splice w.handle.ret_buffer t.ret_pack outcome)
            (write_event t.event_fd ∷ w.trace))
  unfolding pending
  computed-ClientInv busy unsent =
      ClientInv-update compute i t (record t { alive = false }) w.handle.task_buffer
        (splice w.handle.ret_buffer t.ret_pack outcome) (write_event t.event_fd ∷ w.trace) v there
        refl refl refl
        (length-splice w.handle.ret_buffer outcome t.ret_pack (rw length-outcome ret_inside))
        (λ j s e ne. (rw (other_fd j s e ne) refl, ret_apart outcome length-outcome j s e ne, refl))
        (signalled busy unsent refl (rw (==_refl t.event_fd) refl) stored)
    where
      stored :
          pack (splice w.handle.ret_buffer t.ret_pack outcome) t.ret_pack w.handle.ret_size
          ≡ outcome
      stored =
          rw (← length-outcome)
            (pack-splice_same w.handle.ret_buffer t.ret_pack outcome (rw length-outcome ret_inside))

  -- The event loop takes the signal.
  pub marked-ClientInv :
      t.empty ≡ false
      → t.alive ≡ false
      → IsStored compute w.handle t
      → ClientInv compute (
          updated w i
            (record t { waiting_to_be_sent = true })
            w.handle.task_buffer
            w.handle.ret_buffer
            (read_event t.event_fd ∷ w.trace))
  unfolding pending
  marked-ClientInv busy gone stored =
      ClientInv-update compute i t (record t { waiting_to_be_sent = true }) w.handle.task_buffer
        w.handle.ret_buffer (read_event t.event_fd ∷ w.trace) v there refl refl refl refl
        (λ j s e ne. (rw (other_fd j s e ne) refl, refl, refl))
        (finished busy refl gone (rw (==_refl t.event_fd) refl) stored)

  -- The result was sent, and the entry is free.
  pub sent-ClientInv :
      t.alive ≡ false
      → pending t.event_fd w.trace ≡ false
      → ClientInv compute (updated w i (sent t) w.handle.task_buffer w.handle.ret_buffer w.trace)
  sent-ClientInv gone quiet =
      ClientInv-update compute i t (sent t) w.handle.task_buffer w.handle.ret_buffer w.trace v there
        refl refl refl refl (λ j s e ne. (refl, refl, refl)) (free refl refl gone quiet)

  -- The entry takes a task, and its worker starts.
  pub started-ClientInv :
      (task_id : ℕ) (task : List ℕ)
      → length task ≡ w.handle.task_size
      → t.waiting_to_be_sent ≡ false
      → pending t.event_fd w.trace ≡ false
      → ClientInv compute (
          updated w i
            (record t { empty = false; task_id = task_id; alive = true })
            (splice w.handle.task_buffer t.data_pack task)
            w.handle.ret_buffer
            w.trace)
  started-ClientInv task_id task len unsent quiet =
      ClientInv-update compute i t (record t { empty = false; task_id = task_id; alive = true })
        (splice w.handle.task_buffer t.data_pack task) w.handle.ret_buffer w.trace v there refl refl
        (length-splice w.handle.task_buffer task t.data_pack (rw len data_inside)) refl
        (λ j s e ne. (refl, refl, data_apart task len j s e ne)) (computing refl unsent refl quiet)
