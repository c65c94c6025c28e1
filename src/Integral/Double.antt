-- ===== src/Integral/Double.antt =====
-- What the two programs do with a `double`, which is a type of the model's user, and what they rely on.
-- `bits` is the uint64_t that lies at the place of a double, and `of_bits` the double at the place of
-- a uint64_t.
use computing_cluster.Base.{ℕ, ◌<◌, ◌≡◌, Bool, List}
use computing_cluster.Wire.{ByteOrder}
use computing_cluster.Integral.Words.{store64, load64}

pub record Double (W : Type 0) : Type 0 where
  pub add : W → W → W
  pub sub : W → W → W
  pub mul : W → W → W
  pub div : W → W → W
  -- x < y and x != y
  pub lt : W → W → Bool
  pub ne : W → W → Bool
  -- A decimal constant: its digits, and how many of them stand behind the point.
  pub literal : (digits places : ℕ) → W
  -- The conversion of an int or a size_t.
  pub of_int : ℕ → W
  pub bits : W → ℕ
  pub of_bits : ℕ → W

-- A double has 64 bits, and copies of it keep them.
pub record IsDouble (W : Type 0) ⦃d : Double W⦄ : Type 0 where
  pub bits_small : (x : W) → d.bits x < 18446744073709551616
  pub bits-of_bits : (n : ℕ) → n < 18446744073709551616 → d.bits (d.of_bits n) ≡ n
  pub of_bits-bits : (x : W) → d.of_bits (d.bits x) ≡ x

module _ {W : Type 0} ⦃d : Double W⦄ where
  -- A double in memory.
  abbrev pub store_double : ByteOrder → W → List ℕ
  store_double host x = store64 host (d.bits x)

  abbrev pub load_double : ByteOrder → List ℕ → W
  load_double host bytes = d.of_bits (load64 host bytes)

  -- 0.0
  abbrev pub nought : W
  nought = d.literal 0 1
