-- ===== src/System/Outcome.antt =====
-- How a piece of C ends: with a value, through exit(), by undefined behaviour, or not within the
-- rounds that its loops were given. Also the accesses to memory, which are where C leaves its rules.
use computing_cluster.Base.{
  ℕ, ◌+◌, ◌≡◌, refl, Bool, true, false, List, ◌++◌, Option, none, some, leb, length, get_elem?,
  take, drop, if◌then◌else◌, subst,
}

-- BUG_ON and a failed call both exit with EXIT_FAILURE; the message tells them apart.
pub data Stop : Type 0 where
  bug failure success : Stop

pub data Outcome (A : Type 0) : Type 0 where
  ok : A → Outcome A
  exits : Stop → Outcome A
  -- An access outside an object: C gives no meaning to what follows.
  fault : Outcome A
  -- A loop that has not ended within its fuel.
  hang : Outcome A

infixl 5 ◌>>=◌ ◌>>◌
abbrev pub ◌>>=◌ : {A B : Type 0} → Outcome A → (A → Outcome B) → Outcome B
ok a >>= f = f a
exits s >>= f = exits s
fault >>= f = fault
hang >>= f = hang

abbrev pub ◌>>◌ : {A B : Type 0} → Outcome A → Outcome B → Outcome B
m >> k = m >>= λ _. k

-- BUG_ON(condition, …)
abbrev pub bug_on : Bool → Outcome (Unit {0})
bug_on true = exits bug
bug_on false = ok tt

-- a[i]
abbrev pub or_fault : {A : Type 0} → Option A → Outcome A
or_fault none = fault
or_fault (some a) = ok a

abbrev pub index : {A : Type 0} → List A → ℕ → Outcome A
index xs i = or_fault (get_elem? xs i)

-- The n bytes at an offset of an object.
abbrev pub read_at : List ℕ → ℕ → ℕ → Outcome (List ℕ)
read_at src off n = if leb (off + n) (length src) then ok (take n (drop off src)) else fault

-- The object after `bytes` have been copied to an offset of it.
abbrev pub write_at : List ℕ → ℕ → List ℕ → Outcome (List ℕ)
write_at dst off bytes =
    if leb (off + length bytes) (length dst)
    then ok (take off dst ++ (bytes ++ drop (off + length bytes) dst))
    else fault

-- A predicate on the value, if there is one.
abbrev pub Ensures {ℓ} : {A : Type 0} → (A → Type ℓ) → Outcome A → Type ℓ
Ensures P (ok a) = P a
Ensures P _ = Unit

-- The code returns, and its value has the property.
abbrev pub Returns {ℓ} : {A : Type 0} → (A → Type ℓ) → Outcome A → Type ℓ
Returns P r = (a : _) × (r ≡ ok a) × P a

-- To go through a bind whose first part is known to return.
pub Ensures-bind {ℓ κ} :
    {A B : Type 0} (P : A → Type ℓ) (Q : B → Type κ) (m : Outcome A) (f : A → Outcome B)
    → Ensures P m
    → ((a : A) → P a → Ensures Q (f a))
    → Ensures Q (m >>= f)
Ensures-bind P Q (ok a) f h k = k a h
Ensures-bind P Q (exits s) f h k = tt
Ensures-bind P Q fault f h k = tt
Ensures-bind P Q hang f h k = tt

pub Ensures-of_eq {ℓ} :
    {A : Type 0} (P : A → Type ℓ) (m : Outcome A) {a : A} → Ensures P m → m ≡ ok a → P a
Ensures-of_eq P (ok b) h e = subst P (cc) h
Ensures-of_eq P (exits s) h e = cc
Ensures-of_eq P fault h e = cc
Ensures-of_eq P hang h e = cc

-- Inversion of a bind that returns.
pub >>=-eq-ok :
    {A B : Type 0} (m : Outcome A) (f : A → Outcome B) {b : B}
    → (m >>= f) ≡ ok b
    → (a : A) × (m ≡ ok a) × (f a ≡ ok b)
>>=-eq-ok (ok a) f e = (a, refl, e)
>>=-eq-ok (exits s) f e = cc
>>=-eq-ok fault f e = cc
>>=-eq-ok hang f e = cc

pub ok-injective : {A : Type 0} {a b : A} → ok a ≡ ok b → a ≡ b
ok-injective e = cc

pub fault-ne-ok : {A : Type 0} {a : A} → ¬ (fault ≡ ok a)
fault-ne-ok e = cc
