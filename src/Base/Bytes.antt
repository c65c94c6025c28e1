-- ===== src/Base/Bytes.antt =====
-- Positions in lists that are cut and joined.
use computing_cluster.Base.{
  ℕ, zero, suc, ◌+◌, ◌-◌, ◌≤◌, ◌≡◌, refl, List, [], ◌∷◌, ◌++◌, arith, ltb, if◌then◌else◌, length,
  get_elem?, take, drop, length-take, length-append, length-drop, none,
}
use native.Mathlib.Nat.{zero-add, suc-add}

module _ {A : Type 0} where
  pub get_elem?-append :
      (xs ys : List A) (k : ℕ)
      → get_elem? (xs ++ ys) k
        ≡ (if ltb k (length xs) then get_elem? xs k else get_elem? ys (k - length xs))
  get_elem?-append [] ys k = ground arith
  get_elem?-append (x ∷ xs) ys zero = ground arith
  get_elem?-append (x ∷ xs) ys (suc k) = ground (arith, get_elem?-append xs ys k)

  pub get_elem?-drop :
      (n : ℕ) (xs : List A) (k : ℕ) → get_elem? (drop n xs) k ≡ get_elem? xs (n + k)
  get_elem?-drop zero xs k = rw zero-add
  get_elem?-drop (suc n) [] k = refl
  get_elem?-drop (suc n) (x ∷ xs) k = rw suc-add (get_elem?-drop n xs k)

  pub get_elem?-take :
      (n : ℕ) (xs : List A) (k : ℕ)
      → get_elem? (take n xs) k ≡ (if ltb k n then get_elem? xs k else none)
  get_elem?-take zero xs k = ground arith
  get_elem?-take (suc n) [] k = ground arith
  get_elem?-take (suc n) (x ∷ xs) zero = ground arith
  get_elem?-take (suc n) (x ∷ xs) (suc k) = ground (arith, get_elem?-take n xs k)

  -- A block of bytes written over a part of a list.
  pub get_elem?-splice :
      (dst bytes : List A) (off k : ℕ)
      → off + length bytes ≤ length dst
      → get_elem? (take off dst ++ (bytes ++ drop (off + length bytes) dst)) k ≡ (
          if ltb k off
          then get_elem? dst k
          else (if ltb k (off + length bytes) then get_elem? bytes (k - off) else get_elem? dst k))
  get_elem?-splice dst bytes off k h = ground (
    arith,
    get_elem?-append (take off dst) (bytes ++ drop (off + length bytes) dst) k,
    get_elem?-append bytes (drop (off + length bytes) dst) (k - off),
    length-take off dst,
    get_elem?-take off dst k,
    get_elem?-drop (off + length bytes) dst (k - off - length bytes),
  )

  pub length-splice :
      (dst bytes : List A) (off : ℕ)
      → off + length bytes ≤ length dst
      → length (take off dst ++ (bytes ++ drop (off + length bytes) dst)) ≡ length dst
  length-splice dst bytes off h = omega (
    arith,
    length-append (take off dst) (bytes ++ drop (off + length bytes) dst),
    length-append bytes (drop (off + length bytes) dst),
    length-take off dst,
    length-drop (off + length bytes) dst,
  )
