-- ===== src/Client/Setup/Places.antt =====
-- Where init_task_management_routine() of cluster-api/cluster-client.c puts the packs of its entries.
use computing_cluster.Base.{ℕ, ◌+◌, ◌*◌, ◌≤◌, ◌<◌, ◌≡◌, ◌≢◌, ◌⊎◌, ap, ◌∙◌, arith}
use computing_cluster.System.Packs.{region_inside, regions_apart}
use computing_cluster.Client.Types.{ClusterClientHandle}
use computing_cluster.Client.Tasks.{add64, mul64, new_thread}
use computing_cluster.Client.Setup.Asked.{place-eq}

-- Two packs of `size` bytes among `count` that are `size + line` bytes apart.
placed_apart :
    (count size line i j : ℕ)
    → count * (size + line) < 18446744073709551616
    → i < count
    → j < count
    → i ≢ j
    → (mul64 i (add64 size line) + size ≤ count * (size + line))
      × ((mul64 j (add64 size line) + size ≤ mul64 i (add64 size line))
          ⊎ (mul64 i (add64 size line) + size ≤ mul64 j (add64 size line)))
placed_apart count size line i j small lt_i lt_j ne =
    let at_i : mul64 i (add64 size line) ≡ i * (size + line) =
      ap (λ k. mul64 k (add64 size line)) (omega arith)
      ∙ place-eq count size line (omega arith) small i lt_i in
    let at_j : mul64 j (add64 size line) ≡ j * (size + line) =
      ap (λ k. mul64 k (add64 size line)) (omega arith)
      ∙ place-eq count size line (omega arith) small j lt_j in
    rw (at_i, at_j)
      (
        region_inside i count (size + line) size lt_i (omega arith),
        regions_apart i j (size + line) size size ne (omega arith) (omega arith),
      )

-- Two different entries below the number of threads, in a handle in which neither that number times
-- the size of a task and of a cache line, nor that number times the size of a result and of a cache
-- line, reaches 2^64: both packs of the first new entry end within buffers of these sizes, and each of
-- them ends before the pack of the second begins, or begins after that has ended.
pub new_thread-disjoint :
    (h : ClusterClientHandle) (i j cpu cpu' event_fd event_fd' : ℕ)
    → h.max_threads * (h.task_size + h.cache_line_size) < 18446744073709551616
    → h.max_threads * (h.ret_size + h.cache_line_size) < 18446744073709551616
    → i < h.max_threads
    → j < h.max_threads
    → i ≢ j
    → let s = new_thread h i cpu event_fd in
      let t = new_thread h j cpu' event_fd' in
      (s.data_pack + h.task_size ≤ h.max_threads * (h.task_size + h.cache_line_size))
      × (s.ret_pack + h.ret_size ≤ h.max_threads * (h.ret_size + h.cache_line_size))
      × ((t.data_pack + h.task_size ≤ s.data_pack) ⊎ (s.data_pack + h.task_size ≤ t.data_pack))
      × ((t.ret_pack + h.ret_size ≤ s.ret_pack) ⊎ (s.ret_pack + h.ret_size ≤ t.ret_pack))
new_thread-disjoint h i j cpu cpu' event_fd event_fd' tasks rets lt_i lt_j ne =
    let (task_inside, task_apart) =
      placed_apart h.max_threads h.task_size h.cache_line_size i j tasks lt_i lt_j ne in
    let (ret_inside, ret_apart) =
      placed_apart h.max_threads h.ret_size h.cache_line_size i j rets lt_i lt_j ne in
    (task_inside, ret_inside, task_apart, ret_apart)
