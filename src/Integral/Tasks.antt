-- ===== src/Integral/Tasks.antt =====
-- A task of the example program on its way from the server's array to a worker of a client.
use computing_cluster.Base.{
  ℕ, zero, suc, ◌+◌, ◌*◌, ◌<◌, ◌≡◌, refl, sym, ap, ◌∙◌, subst, List, [], ◌∷◌, ◌++◌, some, arith,
  length, reverse, take, drop, length-append, take-length-append, drop-length-append,
}
use mathlib.Core.List.{append-nil}
use computing_cluster.Wire.{ByteOrder}
use computing_cluster.System.Outcome.{ok, read_at}
use computing_cluster.System.Packs.{pack, read_at-pack}
use computing_cluster.Integral.Words.{load64, htobe64, bytes_le}
use computing_cluster.Integral.Words.Exchange.{
  store64-htobe64, htobe64-load64, load64_small, length-store64,
}
use computing_cluster.Integral.Double.{Double, IsDouble, store_double}
use computing_cluster.Integral.ComputationServer.{
  num_tasks, sizeof_task_data, TaskData, task_of, converted_bytes, task_bytes, fill_tasks,
}
use computing_cluster.Integral.ComputationClient.{converted, integral_thread}
use computing_cluster.Integral.Trapezoid.{trapezoid, Inside, add_inner_lem, integral_of, IsGridded}

-- Bytes behind others, and bytes before others.
pack_first : (bytes rest : List ℕ) (n : ℕ) → length bytes ≡ n → pack (bytes ++ rest) 0 n ≡ bytes
pack_first bytes rest n len =
    subst (λ k. take k (bytes ++ rest) ≡ bytes) len (take-length-append bytes rest)

drop-nil : (n : ℕ) → drop {A = ℕ} n [] ≡ []
drop-nil zero = refl
drop-nil (suc n) = refl

drop_more : (m n : ℕ) (bytes : List ℕ) → drop (m + n) bytes ≡ drop n (drop m bytes)
drop_more zero n bytes = ap (λ k. drop k bytes) (omega arith)
drop_more (suc m) n [] = drop-nil (suc m + n) ∙ sym (drop-nil n)
drop_more (suc m) n (b ∷ bytes) =
    let e : suc m + n ≡ suc (m + n) = omega arith in
    ap (λ k. drop k (b ∷ bytes)) e ∙ drop_more m n bytes

pack_later :
    (bytes rest : List ℕ) (m n size : ℕ)
    → length bytes ≡ m
    → pack (bytes ++ rest) (m + n) size ≡ pack rest n size
pack_later bytes rest m n size len = ap (take size) (
    drop_more m n (bytes ++ rest)
    ∙ ap (drop n) (subst (λ k. drop k (bytes ++ rest) ≡ rest) len (drop-length-append bytes rest)))

-- Three pieces of eight bytes, read one after the other.
module _ (a b c : List ℕ) (len_a : length a ≡ 8) (len_b : length b ≡ 8) (len_c : length c ≡ 8) where
  whole : length (a ++ (b ++ c)) ≡ 24
  whole = omega (arith, length-append a (b ++ c), length-append b c)

  read_first : read_at (a ++ (b ++ c)) 0 8 ≡ ok a
  read_first =
      read_at-pack (a ++ (b ++ c)) 0 8 (omega (arith, whole))
      ∙ ap ok (pack_first a (b ++ c) 8 len_a)

  read_second : read_at (a ++ (b ++ c)) 8 8 ≡ ok b
  read_second =
      read_at-pack (a ++ (b ++ c)) 8 8 (omega (arith, whole))
      ∙ ap ok (pack_later a (b ++ c) 8 0 8 len_a ∙ pack_first b c 8 len_b)

  read_third : read_at (a ++ (b ++ c)) 16 8 ≡ ok c
  read_third =
      read_at-pack (a ++ (b ++ c)) 16 8 (omega (arith, whole))
      ∙ ap ok (
          pack_later a (b ++ c) 8 8 8 len_a
          ∙ pack_later b c 8 0 8 len_b
          ∙ subst (λ l. pack l 0 8 ≡ c) (append-nil c) (pack_first c [] 8 len_c))

module _ {W : Type 0} ⦃d : Double W⦄ where
  pub length-task_bytes :
      (host : ByteOrder) (t : TaskData W) → length (task_bytes host t) ≡ sizeof_task_data
  unfolding task_bytes
  length-task_bytes host t = omega (
    arith,
    length-append (converted_bytes host t.start)
        (converted_bytes host t.end ++ converted_bytes host t.step),
    length-append (converted_bytes host t.end) (converted_bytes host t.step),
    length-store64 host (htobe64 host (d.bits t.start)),
    length-store64 host (htobe64 host (d.bits t.end)),
    length-store64 host (htobe64 host (d.bits t.step)),
  )

  -- What one host converts and stores, another reads and converts back.
  converted-converted_bytes :
      (server client : ByteOrder) (x : W)
      → IsDouble W
      → converted client (converted_bytes server x) ≡ x
  converted-converted_bytes server client x laws =
      ap (converted client) (store64-htobe64 server (d.bits x) (laws.bits_small x))
      ∙ ap (λ v. d.of_bits (htobe64 client v))
          (laws.bits-of_bits (load64 client (reverse (bytes_le 8 (d.bits x))))
            (load64_small client (d.bits x)))
      ∙ ap d.of_bits (htobe64-load64 client (d.bits x) (laws.bits_small x))
      ∙ laws.of_bits-bits x

  -- A worker that gets a task computes the trapezoid rule.
  integral_thread-task :
      (server client : ByteOrder) (t : TaskData W) (n fuel : ℕ)
      → IsDouble W
      → Inside (d.add t.start t.step) t.end t.step n
      → n < fuel
      → integral_thread W client fuel (some (some (task_bytes server t)))
        ≡ ok (store_double client (trapezoid t.start t.end t.step n))
  unfolding integral_thread task_bytes
  integral_thread-task server client t n fuel laws p more =
      let a = converted_bytes server t.start in
      let b = converted_bytes server t.end in
      let c = converted_bytes server t.step in
      let len_a = length-store64 server (htobe64 server (d.bits t.start)) in
      let len_b = length-store64 server (htobe64 server (d.bits t.end)) in
      let len_c = length-store64 server (htobe64 server (d.bits t.step)) in
      rw (
        read_first a b c len_a len_b len_c,
        read_second a b c len_a len_b len_c,
        read_third a b c len_a len_b len_c,
        converted-converted_bytes server client t.start laws,
        converted-converted_bytes server client t.end laws,
        converted-converted_bytes server client t.step laws,
        add_inner_lem (d.add t.start t.step) t.end t.step n fuel p more,
      )

module _ (W : Type 0) ⦃d : Double W⦄ where
  pub length-fill_tasks :
      (host : ByteOrder) (rounds i : ℕ)
      → length (fill_tasks W host rounds i) ≡ rounds * sizeof_task_data
  unfolding fill_tasks
  length-fill_tasks host zero i = refl
  length-fill_tasks host (suc rounds) i = omega (
    arith,
    length-append (task_bytes host (task_of {W = W} i)) (fill_tasks W host rounds (i + 1)),
    length-task_bytes host (task_of {W = W} i),
    length-fill_tasks host rounds (i + 1),
  )

  pub pack-fill_tasks :
      (host : ByteOrder) (rounds i j : ℕ)
      → j < rounds
      → pack (fill_tasks W host rounds i) (j * sizeof_task_data) sizeof_task_data
        ≡ task_bytes host (task_of {W = W} (i + j))
  unfolding fill_tasks
  pack-fill_tasks host zero i j bound = absurd (omega arith)
  pack-fill_tasks host (suc rounds) i zero bound =
      pack_first (task_bytes host (task_of {W = W} i)) (fill_tasks W host rounds (i + 1)) 24
        (length-task_bytes host (task_of {W = W} i))
      ∙ ap (λ k. task_bytes host (task_of {W = W} k)) (omega arith)
  pack-fill_tasks host (suc rounds) i (suc j) bound =
      ap (λ k. pack (fill_tasks W host (suc rounds) i) k 24) (omega arith)
      ∙ pack_later (task_bytes host (task_of {W = W} i)) (fill_tasks W host rounds (i + 1)) 24
          (j * 24) 24 (length-task_bytes host (task_of {W = W} i))
      ∙ pack-fill_tasks host rounds (i + 1) j (omega arith)
      ∙ ap (λ k. task_bytes host (task_of {W = W} k)) (omega arith)

  -- The server's host and the client's have any byte orders. A worker that gets the bytes of task j,
  -- below 12, among those that the server's program has filled in, with n points of its grid before
  -- the end of interval j and more than n turns for its loop, returns, and leaves the bytes of what
  -- the trapezoid rule for x * x, written without a loop, makes of the j-th of the twelve equal parts
  -- of the interval from 1.0 to 81.0, with points 0.00000001 apart.
  pub integral_thread_lem :
      (server client : ByteOrder) (j n fuel : ℕ)
      → IsDouble W
      → j < 12
      → IsGridded W j n
      → n < fuel
      → integral_thread W client fuel (
          some
            (some (pack (fill_tasks W server num_tasks 0) (j * sizeof_task_data) sizeof_task_data)))
        ≡ ok (store_double client (integral_of W j n))
  integral_thread_lem server client j n fuel laws bound p more =
      ap (λ bytes. integral_thread W client fuel (some (some bytes)))
        (pack-fill_tasks server num_tasks 0 j bound
          ∙ ap (λ k. task_bytes server (task_of {W = W} k)) (omega arith))
      ∙ integral_thread-task server client (task_of {W = W} j) n fuel laws p more
