-- ===== src/Integral/ComputationClient.antt =====
-- integral-computation/computation-client.c: what a worker does with a task, and the run of the client.
use computing_cluster.Base.{
  ℕ, zero, suc, not, ◌||◌, List, ◌∷◌, Option, none, some, ◌==◌, leb, length, if◌then◌else◌,
}
use computing_cluster.Config.{RequestHeader}
use computing_cluster.Wire.{ByteOrder}
use computing_cluster.System.Outcome.{Outcome, ok, exits, hang, bug, failure, read_at, ◌>>=◌}
use computing_cluster.System.Action.{Action, ◌>>◌, exit, when}
use computing_cluster.System.Kernel.{Kernel, Trace}
use computing_cluster.Client.Types.{ClusterClientHandle}
use computing_cluster.Client.Setup.{client_compute}
use computing_cluster.Integral.Words.{htobe64}
use computing_cluster.Integral.Double.{Double, load_double, store_double, nought}

-- BUG_ON(pointer == NULL, …)
abbrev pub not_null : {A : Type 0} → Option A → Outcome A
not_null none = exits bug
not_null (some a) = ok a

module _ {W : Type 0} ⦃d : Double W⦄ where
  abbrev pub func : W → W
  func x = d.mul x x

  -- A field of the task, read as a double and then converted in place.
  abbrev pub converted : ByteOrder → (bytes : List ℕ) → W
  converted host bytes = d.of_bits (htobe64 host (d.bits (load_double host bytes)))

  -- for (; x < end; x += delta)
  unfoldable pub add_inner : (fuel : ℕ) → (end delta x sum : W) → Outcome W
  add_inner zero end delta x sum = hang
  add_inner (suc fuel) end delta x sum =
      let rest = add_inner fuel end delta (d.add x delta) (d.add sum (d.mul (func x) delta)) in
      if d.lt x end then rest else ok sum

  -- Half of the rectangle at an end of the interval.
  abbrev pub half : (x delta : W) → W
  half x delta = d.div (d.mul (func x) delta) (d.of_int 2)

module _ (W : Type 0) ⦃d : Double W⦄ where
  -- The argument is a pointer to a ComputeInfo, whose data_pack points to the bytes of a task; either
  -- may be NULL. The value is what lies at ret_pack afterwards: its bytes are not converted.
  unfoldable pub integral_thread :
      ByteOrder → (fuel : ℕ) → Option (Option (List ℕ)) → Outcome (List ℕ)
  unfolding add_inner
  integral_thread host fuel arg = do
    info ← not_null arg
    data_pack ← not_null info
    start_bytes ← read_at data_pack 0 8
    end_bytes ← read_at data_pack 8 8
    delta_bytes ← read_at data_pack 16 8
    let start : W = converted host start_bytes
    let end : W = converted host end_bytes
    let delta : W = converted host delta_bytes
    sum ← add_inner fuel end delta (d.add start delta) nought
    ok (store_double host (d.add (d.add sum (half start delta)) (half end delta)))

-- The whole run. strtoll() is a parameter: the number that it makes of a text, as the size_t that it
-- becomes, and the characters that it leaves; so is what integral_thread() makes of a task.
unfoldable pub main :
    Kernel
    → (strtoll : List ℕ → ℕ × List ℕ) → (schedule : Trace → List ℕ)
    → (rounds fuel : ℕ) (stack : List ℕ) → RequestHeader
    → (integral : List ℕ → List ℕ) → (arguments : List (List ℕ))
    → Action ClusterClientHandle (Unit {0})
main os strtoll schedule rounds fuel stack header integral (program ∷ threads ∷ rest) =
    let (num_thr, unread) = strtoll threads in
    when (not (leb (length rest) 1)) (exit failure)
    >> (when (length threads == 0 || not (length unread == 0)) (exit failure)
        >> client_compute os schedule rounds fuel stack header num_thr 24 8 (some integral)
            (length rest == 0))
main os strtoll schedule rounds fuel stack header integral _ = exit failure
