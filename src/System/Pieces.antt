-- ===== src/System/Pieces.antt =====
-- A buffer that is filled from the front, piece by piece.
use computing_cluster.Base.{
  ℕ, ◌+◌, ◌≤◌, ◌≡◌, refl, List, [], ◌∷◌, ◌++◌, arith, length, drop, length-append,
  take-length-append, le→leb,
}
use native.Mathlib.Nat.{zero-add, suc-add}
use computing_cluster.System.Outcome.{ok, write_at}

drop-append_more : (got rest : List ℕ) (n : ℕ) → drop (length got + n) (got ++ rest) ≡ drop n rest
drop-append_more [] rest n = rw zero-add
drop-append_more (g ∷ got) rest n = rw suc-add (drop-append_more got rest n)

-- The bytes go behind those that are there.
pub write_at-append :
    (got rest bytes : List ℕ)
    → length bytes ≤ length rest
    → write_at (got ++ rest) (length got) bytes ≡ ok (got ++ (bytes ++ drop (length bytes) rest))
write_at-append got rest bytes fits = rw (
  le→leb (length got + length bytes) (length (got ++ rest))
      (omega (arith, length-append got rest, fits)),
  take-length-append got rest,
  drop-append_more got rest (length bytes),
)

pub drop_all : (xs : List ℕ) → drop (length xs) xs ≡ []
drop_all [] = refl
drop_all (x ∷ xs) = drop_all xs
