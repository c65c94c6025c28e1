-- ===== src/Integral/Exchange.antt =====
-- A result on its way from integral_thread() of integral-computation/computation-client.c, which leaves
-- its bytes as they are, to the sum that main() of integral-computation/computation-server.c makes.
use computing_cluster.Base.{
  ℕ, ◌+◌, ◌*◌, ◌≤◌, ◌<◌, ◌≡◌, refl, ap, ◌∙◌, subst, Bool, true, false, List, some, arith, length,
  reverse, if◌then◌else◌,
}
use computing_cluster.Base.Bytes.{length-splice}
use computing_cluster.Wire.{ByteOrder, little, big}
use computing_cluster.System.Outcome.{ok, read_at, ◌>>=◌}
use computing_cluster.System.Packs.{pack, splice, read_at-pack, pack-splice_same}
use computing_cluster.Integral.Words.{bytes_le, value_le, store64, load64}
use computing_cluster.Integral.Words.Exchange.{load64-store64, length-store64}
use computing_cluster.Integral.Double.{Double, IsDouble, store_double, load_double}
use computing_cluster.Integral.ComputationServer.{
  num_tasks, sizeof_task_data, sizeof_ret_data, fill_tasks, sum_results,
}
use computing_cluster.Integral.ComputationClient.{integral_thread}
use computing_cluster.Integral.Trapezoid.{integral_of, IsGridded}
use computing_cluster.Integral.Tasks.{integral_thread_lem}

abbrev pub same_order : ByteOrder → ByteOrder → Bool
same_order little little = true
same_order big big = true
same_order _ _ = false

module _ {W : Type 0} ⦃d : Double W⦄ where
  -- The double whose bits have their eight bytes in the opposite order.
  abbrev pub swapped : W → W
  swapped x = d.of_bits (value_le (reverse (bytes_le 8 (d.bits x))))

  -- What the server makes of a double that a client has in memory.
  abbrev pub exchanged : (client server : ByteOrder) → W → W
  exchanged client server x = if same_order client server then x else swapped x

  load_double-store_double :
      (client server : ByteOrder) (x : W)
      → IsDouble W
      → load_double server (store_double client x) ≡ exchanged client server x
  unfolding load64 store64
  load_double-store_double little little x laws =
      ap d.of_bits (unfold load64 store64 in load64-store64 little (d.bits x) (laws.bits_small x))
      ∙ laws.of_bits-bits x
  load_double-store_double big big x laws =
      ap d.of_bits (unfold load64 store64 in load64-store64 big (d.bits x) (laws.bits_small x))
      ∙ laws.of_bits-bits x
  load_double-store_double little big x laws = refl
  load_double-store_double big little x laws = refl

  -- One round of the sum, over an array in which result j has been stored.
  sum_results-stored :
      (client server : ByteOrder) (j : ℕ) (x result : W) (ret_buff : List ℕ)
      → IsDouble W
      → j * sizeof_ret_data + sizeof_ret_data ≤ length ret_buff
      → d.ne (exchanged client server x) (exchanged client server x) ≡ false
      → sum_results server 1 j result
          (splice ret_buff (j * sizeof_ret_data) (store_double client x))
        ≡ ok (d.add result (exchanged client server x))
  unfolding sum_results
  sum_results-stored client server j x result ret_buff laws room number =
      let bytes = store_double client x in
      let len : length bytes ≡ 8 = length-store64 client (d.bits x) in
      let fits : j * 8 + length bytes ≤ length ret_buff = omega (arith, len) in
      let stored : pack (splice ret_buff (j * 8) bytes) (j * 8) 8 ≡ bytes =
        subst (λ n. pack (splice ret_buff (j * 8) bytes) (j * 8) n ≡ bytes) len
          (pack-splice_same ret_buff (j * 8) bytes fits) in
      let there : read_at (splice ret_buff (j * 8) bytes) (j * 8) 8 ≡ ok bytes =
        read_at-pack (splice ret_buff (j * 8) bytes) (j * 8) 8
          (omega (arith, length-splice ret_buff bytes (j * 8) fits, room))
        ∙ ap ok stored in
      rw (there, load_double-store_double client server x laws, number)

module _ (W : Type 0) ⦃d : Double W⦄ where
  -- A client's worker gets task j, below 12, as the server's program has filled it in, with n points of
  -- its grid before the end of interval j and more than n turns; what it leaves is stored at the place
  -- of result j in an array with room for it; and what the server reads there is not a NaN. Then the
  -- worker returns, and so does the round of the sum for result j: with hosts of one byte order, the
  -- integral by the trapezoid rule is added, and with hosts of different orders, the double whose bits
  -- have the eight bytes of its bits in the opposite order.
  pub sum_results-integral_thread :
      (server client : ByteOrder) (j n fuel : ℕ) (result : W) (ret_buff : List ℕ)
      → IsDouble W
      → j < 12
      → IsGridded W j n
      → n < fuel
      → j * sizeof_ret_data + sizeof_ret_data ≤ length ret_buff
      → d.ne
          (exchanged client server (integral_of W j n))
          (exchanged client server (integral_of W j n))
        ≡ false
      → (integral_thread W client fuel (
            some (
              some
                (pack (fill_tasks W server num_tasks 0) (j * sizeof_task_data) sizeof_task_data)))
          >>= λ bytes. sum_results server 1 j result (splice ret_buff (j * sizeof_ret_data) bytes))
        ≡ ok (d.add result (exchanged client server (integral_of W j n)))
  sum_results-integral_thread server client j n fuel result ret_buff laws bound p more room number =
      ap
        (λ r. r >>= λ bytes.
          sum_results server 1 j result (splice ret_buff (j * sizeof_ret_data) bytes))
        (integral_thread_lem W server client j n fuel laws bound p more)
      ∙ sum_results-stored client server j (integral_of W j n) result ret_buff laws room number
