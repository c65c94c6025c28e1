-- ===== src/System/Packs.antt =====
-- Regions of a buffer: what a copy into one of them leaves in the others.
use computing_cluster.Base.{
  ℕ, zero, suc, ◌+◌, ◌*◌, ◌≤◌, ◌<◌, ◌≡◌, ◌≢◌, ◌⊎◌, inl, inr, refl, List, [], ◌∷◌, ◌++◌, none, some,
  arith, ltb, leb, if◌then◌else◌, length, get_elem?, take, drop, length-take, length-drop, le→leb,
  Bool-cases, leb→le,
}
use native.Mathlib.Nat.{mul-le-mul_right}
use native.Mathlib.Decide.{dec_lt}
use computing_cluster.Base.Bytes.{get_elem?-splice, get_elem?-drop, get_elem?-take}
use computing_cluster.System.Outcome.{ok, read_at, write_at, ok-injective, fault-ne-ok}

-- `n` bytes from the place `off` on.
abbrev pub pack : List ℕ → (off n : ℕ) → List ℕ
pack buffer off n = take n (drop off buffer)

pub list-ext : {A : Type 0} (xs ys : List A) → ((k : ℕ) → get_elem? xs k ≡ get_elem? ys k) → xs ≡ ys
list-ext [] [] h = refl
list-ext [] (y ∷ ys) h = let e = h 0 in cc
list-ext (x ∷ xs) [] h = let e = h 0 in cc
list-ext (x ∷ xs) (y ∷ ys) h =
    let e : some x ≡ some y = h 0 in let tails : xs ≡ ys = list-ext xs ys (λ k. h (suc k)) in cc

get_elem?-pack :
    (buffer : List ℕ) (off n k : ℕ)
    → get_elem? (pack buffer off n) k ≡ (if ltb k n then get_elem? buffer (off + k) else none)
get_elem?-pack buffer off n k =
    ground (arith, get_elem?-take n (drop off buffer) k, get_elem?-drop off buffer k)

-- The buffer after `bytes` were copied to the place `off`.
abbrev pub splice : List ℕ → (off : ℕ) → (bytes : List ℕ) → List ℕ
splice dst off bytes = take off dst ++ (bytes ++ drop (off + length bytes) dst)

pub write_at-splice :
    (dst : List ℕ) (off : ℕ) (bytes : List ℕ)
    → off + length bytes ≤ length dst
    → write_at dst off bytes ≡ ok (splice dst off bytes)
write_at-splice dst off bytes h = rw (le→leb _ _ h)

pub read_at-pack :
    (src : List ℕ) (off n : ℕ) → off + n ≤ length src → read_at src off n ≡ ok (pack src off n)
read_at-pack src off n h = rw (le→leb _ _ h)

-- A copy that returns was within bounds.
pub write_at-inv :
    (dst : List ℕ) (off : ℕ) (bytes : List ℕ) {result : List ℕ}
    → write_at dst off bytes ≡ ok result
    → (off + length bytes ≤ length dst) × (splice dst off bytes ≡ result)
write_at-inv dst off bytes e = elim (Bool-cases (leb (off + length bytes) (length dst))) [
  | inl fits ↦ (leb→le _ _ fits, ok-injective (rw fits at e))
  | inr over ↦ absurd (fault-ne-ok (rw over at e))
]

pub read_at-inv :
    (src : List ℕ) (off n : ℕ) {result : List ℕ}
    → read_at src off n ≡ ok result
    → (off + n ≤ length src) × (pack src off n ≡ result)
read_at-inv src off n e = elim (Bool-cases (leb (off + n) (length src))) [
  | inl fits ↦ (leb→le _ _ fits, ok-injective (rw fits at e))
  | inr over ↦ absurd (fault-ne-ok (rw over at e))
]

pub length-pack :
    (buffer : List ℕ) (off n : ℕ) → off + n ≤ length buffer → length (pack buffer off n) ≡ n
length-pack buffer off n h = omega (arith, length-take n (drop off buffer), length-drop off buffer)

pub pack-splice_same :
    (dst : List ℕ) (off : ℕ) (bytes : List ℕ)
    → off + length bytes ≤ length dst
    → pack (splice dst off bytes) off (length bytes) ≡ bytes
pack-splice_same dst off bytes h = list-ext _ _ λ k. ground (
  arith,
  get_elem?-pack (splice dst off bytes) off (length bytes) k,
  get_elem?-splice dst bytes off (off + k) h,
  outside bytes k,
)
  where
    outside :
        (bytes : List ℕ) (k : ℕ)
        → get_elem? bytes k ≡ (if ltb k (length bytes) then get_elem? bytes k else none)
    outside [] k = ground arith
    outside (b ∷ bytes) zero = ground arith
    outside (b ∷ bytes) (suc k) = ground (arith, outside bytes k)

pub pack-splice_other :
    (dst : List ℕ) (off : ℕ) (bytes : List ℕ) (off' n : ℕ)
    → off + length bytes ≤ length dst
    → (off' + n ≤ off) ⊎ (off + length bytes ≤ off')
    → pack (splice dst off bytes) off' n ≡ pack dst off' n
pack-splice_other dst off bytes off' n h apart = list-ext _ _ λ k. ground (
  arith,
  get_elem?-pack (splice dst off bytes) off' n k,
  get_elem?-pack dst off' n k,
  get_elem?-splice dst bytes off (off' + k) h,
  apart,
)

-- The regions i * stride, i * stride + n of two numbers are apart.
pub regions_apart :
    (i j stride n m : ℕ)
    → i ≢ j
    → n ≤ stride
    → m ≤ stride
    → (j * stride + m ≤ i * stride) ⊎ (i * stride + n ≤ j * stride)
regions_apart i j stride n m ne hn hm = elim (dec_lt i j) [
  | yes lt ↦ let le : suc i * stride ≤ j * stride = mul-le-mul_right stride lt in inr (omega arith)
  | no ge ↦
      let lt : j < i = omega arith in
      let le : suc j * stride ≤ i * stride = mul-le-mul_right stride lt in inl (omega arith)
]

-- The region of a number below `count` lies inside the buffer.
pub region_inside :
    (i count stride n : ℕ) → i < count → n ≤ stride → i * stride + n ≤ count * stride
region_inside i count stride n lt h =
    let le : suc i * stride ≤ count * stride = mul-le-mul_right stride lt in omega arith
