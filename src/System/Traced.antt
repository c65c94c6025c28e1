-- ===== src/System/Traced.antt =====
-- Rules for statements that never leave the rules of C, and for properties that also speak of the
-- calls made so far.
use computing_cluster.Base.{
  ℕ, zero, suc, ◌+◌, ◌<◌, ◌≡◌, refl, Bool, true, false, List, ◌∷◌, some, get_elem?, arith,
}
use computing_cluster.System.Outcome.{Outcome, ok, exits, fault, hang, index, bug_on}
use computing_cluster.System.Outcome
use computing_cluster.System.Kernel.{Kernel, Answer, done, failed, Call}
use computing_cluster.System.Action.{
  World, Action, ◌>>=◌, ◌>>◌, lift, when, or_exit, require, for_range,
}

-- A predicate on the value, if there is one, and no fault.
abbrev pub Safely : {A : Type 0} → (A → Type 0) → Outcome A → Type 0
Safely P (ok a) = P a
Safely P fault = ⊥
Safely P _ = Unit

module _ {H : Type 0} where
  -- Started in `w`, the statement stays within bounds, and it can only end with a value and a world
  -- that satisfy `Q`.
  abbrev pub Brings : {A : Type 0} → Action H A → World H → (A → World H → Type 0) → Type 0
  Brings m w Q = Safely (λ r. Q r.0 r.1) (m w)

  -- It keeps a property of the world.
  abbrev pub Holds : {A : Type 0} → (World H → Type 0) → Action H A → Type 0
  Holds P m = (w : World H) → P w → Brings m w (λ _. P)

  -- One more call.
  abbrev pub after : World H → Call → World H
  after w c = record w { trace = c ∷ w.trace }

  after_outcome :
      {A B : Type 0} (Q : A → World H → Type 0) (R : B → World H → Type 0)
      (r : Outcome (A × World H)) (f : A → Action H B)
      → Safely (λ x. Q x.0 x.1) r
      → ((a : A) (w : World H) → Q a w → Brings (f a) w R)
      → Safely (λ x. R x.0 x.1) (Outcome.◌>>=◌ r (λ x. f x.0 x.1))
  after_outcome Q R (ok x) f h k = k x.0 x.1 h
  after_outcome Q R (exits s) f h k = tt
  after_outcome Q R fault f h k = h
  after_outcome Q R hang f h k = tt

  pub Brings-bind :
      {A B : Type 0} (Q : A → World H → Type 0) (R : B → World H → Type 0) (m : Action H A)
      (f : A → Action H B) (w : World H)
      → Brings m w Q
      → ((a : A) (w' : World H) → Q a w' → Brings (f a) w' R)
      → Brings (m >>= f) w R
  Brings-bind Q R m f w h k = after_outcome Q R (m w) f h k

  weaken_outcome :
      {A : Type 0} (Q R : A → World H → Type 0) (r : Outcome (A × World H))
      → ((a : A) (w : World H) → Q a w → R a w)
      → Safely (λ x. Q x.0 x.1) r
      → Safely (λ x. R x.0 x.1) r
  weaken_outcome Q R (ok x) f h = f x.0 x.1 h
  weaken_outcome Q R (exits s) f h = tt
  weaken_outcome Q R fault f h = h
  weaken_outcome Q R hang f h = tt

  pub Brings-weaken :
      {A : Type 0} (Q R : A → World H → Type 0) (m : Action H A) (w : World H)
      → ((a : A) (w' : World H) → Q a w' → R a w')
      → Brings m w Q
      → Brings m w R
  Brings-weaken Q R m w f h = weaken_outcome Q R (m w) f h

  pub Holds-bind :
      {A B : Type 0} (P : World H → Type 0) (m : Action H A) (f : A → Action H B)
      → Holds P m
      → ((a : A) → Holds P (f a))
      → Holds P (m >>= f)
  Holds-bind P m f h k w p = Brings-bind (λ _. P) (λ _. P) m f w (h w p) (λ a w' q. k a w' q)

  pub or_exit_brings :
      {A B : Type 0} (R : B → World H → Type 0) (r : Answer A) (k : A → Action H B) (w : World H)
      → ((a : A) → r ≡ done a → Brings (k a) w R)
      → Brings (or_exit r >>= k) w R
  or_exit_brings R (done a) k w h = h a refl
  or_exit_brings R (failed e) k w h = tt

  -- A call that ends the program where it fails.
  pub call_brings :
      {B : Type 0} (R : B → World H → Type 0) (os : Kernel) (c : Call) (k : ℕ → Action H B)
      (w : World H)
      → ((a : ℕ) → os.status w.trace c ≡ done a → Brings (k a) (after w c) R)
      → Brings (require os c >>= k) w R
  call_brings R os c k w h = or_exit_brings R (os.status w.trace c) k (after w c) h

  -- The same for a call that the property does not look at.
  pub call_then :
      {B : Type 0} (P : World H → Type 0) (R : B → World H → Type 0) (os : Kernel) (c : Call)
      (k : Action H B)
      → ((w : World H) → P w → P (after w c))
      → ((w : World H) → P w → Brings k w R)
      → (w : World H) → P w
      → Brings (require os c >> k) w R
  call_then P R os c k silent h w p =
      call_brings R os c (λ _. k) w (λ _ _. h (after w c) (silent w p))

  pub bug_on_brings :
      {B : Type 0} (R : B → World H → Type 0) (b : Bool) (k : Action H B) (w : World H)
      → (b ≡ false → Brings k w R)
      → Brings (lift (bug_on b) >> k) w R
  bug_on_brings R true k w h = tt
  bug_on_brings R false k w h = h refl

  pub index_brings :
      {A B : Type 0} (R : B → World H → Type 0) (xs : List A) (i : ℕ) {a : A} (k : A → Action H B)
      (w : World H)
      → get_elem? xs i ≡ some a
      → Brings (k a) w R
      → Brings (lift (index xs i) >>= k) w R
  index_brings R xs i k w e h = rw e h

  pub when-Holds :
      (P : World H → Type 0) (b : Bool) (m : Action H (Unit {0})) → Holds P m → Holds P (when b m)
  when-Holds P true m k w p = k w p
  when-Holds P false m k w p = p

  pub for_range-Holds :
      (P : World H → Type 0) (rounds first : ℕ) (body : ℕ → Action H (Unit {0}))
      → ((i : ℕ) → i < first + rounds → Holds P (body i))
      → Holds P (for_range rounds first body)
  unfolding for_range
  for_range-Holds P zero first body k w p = p
  for_range-Holds P (suc rounds) first body k w p =
      Holds-bind P (body first) (λ _. for_range rounds (first + 1) body) (k first (omega arith))
        (λ _. for_range-Holds P rounds (first + 1) body (λ i lt. k i (omega arith))) w p
