-- ===== src/Integral/Words/Exchange.antt =====
-- A word that one host converts and stores, and another loads and converts, is the same word.
use computing_cluster.Base.{
  ℕ, zero, suc, ◌+◌, ◌*◌, ◌/◌, ◌%◌, ◌<◌, ◌≡◌, refl, ap, ◌∙◌, List, [], ◌∷◌, arith, length, reverse,
}
use computing_cluster.Wire.{ByteOrder, little, big}
use computing_cluster.Integral.Words.{bytes_le, value_le, store64, load64, htobe64}

-- How many numbers have so many bytes.
abbrev bound : (width : ℕ) → ℕ
bound zero = 1
bound (suc width) = 256 * bound width

abbrev AreBytes : List ℕ → Type 0
AreBytes [] = Unit
AreBytes (b ∷ bs) = (b < 256) × AreBytes bs

value_le-bytes_le : (width v : ℕ) → v < bound width → value_le (bytes_le width v) ≡ v
value_le-bytes_le zero v small = omega arith
value_le-bytes_le (suc width) v small =
    omega (arith, value_le-bytes_le width (v / 256) (omega arith))

bytes_le-value_le :
    (bytes : List ℕ) → AreBytes bytes → bytes_le (length bytes) (value_le bytes) ≡ bytes
bytes_le-value_le [] all = refl
bytes_le-value_le (b ∷ bs) (low, all) =
    let first : (b + 256 * value_le bs) % 256 ≡ b = omega arith in
    let others : (b + 256 * value_le bs) / 256 ≡ value_le bs = omega arith in
    rw (first, others, bytes_le-value_le bs all)

value_le_small : (bytes : List ℕ) → AreBytes bytes → value_le bytes < bound (length bytes)
value_le_small [] all = omega arith
value_le_small (b ∷ bs) (low, all) = omega (arith, value_le_small bs all)

-- The eight bytes of a number, in the order of a big-endian host.
abbrev network : ℕ → List ℕ
network v = reverse (bytes_le 8 v)

network-AreBytes : (v : ℕ) → AreBytes (network v)
network-AreBytes v = omega arith

bytes_le-network : (v : ℕ) → bytes_le 8 (value_le (network v)) ≡ network v
bytes_le-network v = bytes_le-value_le (network v) (network-AreBytes v)

-- What is sent has the bytes of the number, the most significant first.
pub store64-htobe64 :
    (host : ByteOrder) (v : ℕ)
    → v < 18446744073709551616
    → store64 host (htobe64 host v) ≡ reverse (bytes_le 8 v)
unfolding store64 load64 htobe64
store64-htobe64 little v small = bytes_le-network v
store64-htobe64 big v small = ap network (value_le-bytes_le 8 v small)

-- And it is converted back by the same call.
pub htobe64-load64 :
    (host : ByteOrder) (v : ℕ)
    → v < 18446744073709551616
    → htobe64 host (load64 host (reverse (bytes_le 8 v))) ≡ v
unfolding load64 htobe64
htobe64-load64 little v small =
    ap (λ bytes. value_le (reverse bytes)) (bytes_le-network v) ∙ value_le-bytes_le 8 v small
htobe64-load64 big v small =
    ap (λ n. value_le (bytes_le 8 n)) (value_le-bytes_le 8 v small) ∙ value_le-bytes_le 8 v small

pub load64_small :
    (host : ByteOrder) (v : ℕ) → load64 host (reverse (bytes_le 8 v)) < 18446744073709551616
unfolding load64
load64_small little v = value_le_small (network v) (network-AreBytes v)
load64_small big v = value_le_small (bytes_le 8 v) (omega arith)

pub length-store64 : (host : ByteOrder) (v : ℕ) → length (store64 host v) ≡ 8
unfolding store64
length-store64 little v = refl
length-store64 big v = refl

-- What is stored and loaded by hosts of the same order is not changed, and by hosts of different
-- orders as by htobe64 on a little-endian host.
pub load64-store64 :
    (host : ByteOrder) (v : ℕ) → v < 18446744073709551616 → load64 host (store64 host v) ≡ v
unfolding load64 store64
load64-store64 little v small = value_le-bytes_le 8 v small
load64-store64 big v small = value_le-bytes_le 8 v small
