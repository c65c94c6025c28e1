-- ===== src/Base/Count.antt =====
-- How often a number stands in a list.
use computing_cluster.Base.{ℕ, ◌+◌, ◌≡◌, List, [], ◌∷◌, ◌++◌, arith, ◌==◌, if◌then◌else◌}

-- 1 where the two numbers agree.
abbrev pub hit : ℕ → ℕ → ℕ
hit a b = if a == b then 1 else 0

unfoldable pub count : ℕ → List ℕ → ℕ
count a [] = 0
count a (x ∷ xs) = hit a x + count a xs

pub count-append : (a : ℕ) (xs ys : List ℕ) → count a (xs ++ ys) ≡ count a xs + count a ys
unfolding count
count-append a [] ys = omega arith
count-append a (x ∷ xs) ys = omega (arith, count-append a xs ys)
