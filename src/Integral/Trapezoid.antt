-- ===== src/Integral/Trapezoid.antt =====
-- The trapezoid rule, written down without a loop, and the loop of integral_thread() of
-- integral-computation/computation-client.c, which computes it.
use computing_cluster.Base.{ℕ, zero, suc, ◌+◌, ◌<◌, ◌≡◌, true, false, arith}
use computing_cluster.System.Outcome.{ok}
use computing_cluster.Integral.Double.{Double, nought}
use computing_cluster.Integral.ComputationClient.{add_inner}

module _ {W : Type 0} ⦃d : Double W⦄ where
  -- The rectangle at x below the square, which is the function that is integrated.
  abbrev pub rectangle : (x delta : W) → W
  rectangle x delta = d.mul (d.mul x x) delta

  -- The k-th point from x on, and the sum of the first n rectangles, left to right.
  abbrev pub grid : (x delta : W) → (k : ℕ) → W
  grid x delta zero = x
  grid x delta (suc k) = d.add (grid x delta k) delta

  abbrev pub inner_sum : (x delta : W) → (n : ℕ) → W
  inner_sum x delta zero = nought
  inner_sum x delta (suc n) = d.add (inner_sum x delta n) (rectangle (grid x delta n) delta)

  -- The rule for an interval with n points inside: they count in full, and the two ends by half.
  abbrev pub trapezoid : (start end delta : W) → (n : ℕ) → W
  trapezoid start end delta n =
      d.add
        (d.add (inner_sum (d.add start delta) delta n) (d.div (rectangle start delta) (d.of_int 2)))
        (d.div (rectangle end delta) (d.of_int 2))

  -- Exactly the first n points from x on lie before the end.
  pub record Inside (x end delta : W) (n : ℕ) : Type 0 where
    pub before : (k : ℕ) → k < n → d.lt (grid x delta k) end ≡ true
    pub behind : d.lt (grid x delta n) end ≡ false

  add_inner-from :
      {x end delta : W} {n : ℕ} (left k fuel : ℕ)
      → Inside x end delta n
      → k + left ≡ n
      → left < fuel
      → add_inner fuel end delta (grid x delta k) (inner_sum x delta k) ≡ ok (inner_sum x delta n)
  unfolding add_inner
  add_inner-from left k zero p sum more = absurd (omega arith)
  add_inner-from {x} {end} {delta} {n} zero k (suc fuel) p sum more =
      let all : k ≡ n = omega arith in rw (all, p.behind)
  add_inner-from {x} {end} {delta} {n} (suc left) k (suc fuel) p sum more =
      let inside : d.lt (grid x delta k) end ≡ true = p.before k (omega arith) in
      rw inside (add_inner-from left (suc k) fuel p (omega arith) (omega arith))

  -- The loop ends within one turn more than there are points, with their sum.
  pub add_inner_lem :
      (x end delta : W) (n fuel : ℕ)
      → Inside x end delta n
      → n < fuel
      → add_inner fuel end delta x nought ≡ ok (inner_sum x delta n)
  add_inner_lem x end delta n fuel p more = add_inner-from n 0 fuel p (omega arith) more

-- The intervals of the example program: from 1.0 to 81.0 in twelve parts, with points 0.00000001 apart.
module _ (W : Type 0) ⦃d : Double W⦄ where
  abbrev pub bound_at : (j : ℕ) → W
  bound_at j =
      d.add (d.literal 10 1)
        (d.mul (d.of_int j) (d.div (d.sub (d.literal 810 1) (d.literal 10 1)) (d.of_int 12)))

  abbrev pub spacing : W
  spacing = d.literal 1 8

  -- The rule for interval j, with n points inside.
  abbrev pub integral_of : (j n : ℕ) → W
  integral_of j n = trapezoid (bound_at j) (bound_at (j + 1)) spacing n

  abbrev pub IsGridded : (j n : ℕ) → Type 0
  IsGridded j n = Inside (d.add (bound_at j) spacing) (bound_at (j + 1)) spacing n
