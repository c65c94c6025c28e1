-- ===== src/Integral/Words.antt =====
-- The eight bytes of a uint64_t, and the conversion htobe64 that both programs of integral-computation
-- make in place, through a pointer to a double.
pub mod Exchange
use computing_cluster.Base.{
  ℕ, zero, suc, ◌+◌, ◌*◌, ◌/◌, ◌%◌, ◌<◌, ◌≡◌, refl, sym, ap, ◌∙◌, List, [], ◌∷◌, ◌++◌, arith,
  length, reverse, some, get_elem?,
}
use mathlib.Core.List.{reverse-append, reverse-reverse}
use computing_cluster.Wire.{ByteOrder, little, big}

-- The bytes of a number, the least significant first, and back.
abbrev pub bytes_le : (width v : ℕ) → List ℕ
bytes_le zero v = []
bytes_le (suc width) v = (v % 256) ∷ bytes_le width (v / 256)

abbrev pub value_le : List ℕ → ℕ
value_le [] = 0
value_le (b ∷ bs) = b + 256 * value_le bs

-- How a uint64_t lies in memory, and what *(uint64_t*) p is where p points at these bytes.
unfoldable pub store64 : ByteOrder → ℕ → List ℕ
store64 little v = bytes_le 8 v
store64 big v = reverse (bytes_le 8 v)

unfoldable pub load64 : ByteOrder → List ℕ → ℕ
load64 little bytes = value_le bytes
load64 big bytes = value_le (reverse bytes)

-- The number that lies in memory as the big-endian bytes of `v`.
unfoldable pub htobe64 : ByteOrder → ℕ → ℕ
unfolding load64
htobe64 host v = load64 host (reverse (bytes_le 8 v))
