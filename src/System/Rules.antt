-- ===== src/System/Rules.antt =====
-- Rules for statements: what holds of the value and of the handle if the statement ends normally.
use computing_cluster.Base.{
  ℕ, zero, suc, ◌+◌, ◌≡◌, ◌≢◌, refl, Bool, true, false, List, Option, none, some, get_elem?,
  Option-cases, inl, inr,
}
use computing_cluster.System.Outcome.{Outcome, ok, exits, fault, hang, Ensures, Stop, index, bug_on}
use computing_cluster.System.Outcome
use computing_cluster.System.Kernel.{Kernel, Answer, done, failed, Call}
use computing_cluster.System.Action.{
  World, Action, pure, ◌>>=◌, ◌>>◌, lift, when, or_exit, require, for_range, valid_fd,
}

module _ {H : Type 0} where
  -- Started in `w`, the statement can only end with a value and a handle that satisfy `Q`.
  abbrev pub Leads : {A : Type 0} → Action H A → World H → (A → H → Type 0) → Type 0
  Leads m w Q = Ensures (λ r. Q r.0 r.1.handle) (m w)

  -- It keeps a property of the handle.
  abbrev pub Keeps : {A : Type 0} → (H → Type 0) → Action H A → Type 0
  Keeps P m = (w : World H) → P w.handle → Leads m w (λ _ h. P h)

  after_outcome :
      {A B : Type 0} (Q : A → H → Type 0) (R : B → H → Type 0) (r : Outcome (A × World H))
      (f : A → Action H B)
      → Ensures (λ x. Q x.0 x.1.handle) r
      → ((a : A) (w : World H) → Q a w.handle → Leads (f a) w R)
      → Ensures (λ x. R x.0 x.1.handle) (Outcome.◌>>=◌ r (λ x. f x.0 x.1))
  after_outcome Q R (ok x) f h k = k x.0 x.1 h
  after_outcome Q R (exits s) f h k = tt
  after_outcome Q R fault f h k = tt
  after_outcome Q R hang f h k = tt

  pub any_outcome : {A : Type 0} (r : Outcome (A × World H)) → Ensures (λ _. Unit {0}) r
  any_outcome (ok x) = tt
  any_outcome (exits s) = tt
  any_outcome fault = tt
  any_outcome hang = tt

  pub Leads-bind :
      {A B : Type 0} (Q : A → H → Type 0) (R : B → H → Type 0) (m : Action H A) (f : A → Action H B)
      (w : World H)
      → Leads m w Q
      → ((a : A) (w' : World H) → Q a w'.handle → Leads (f a) w' R)
      → Leads (m >>= f) w R
  Leads-bind Q R m f w h k = after_outcome Q R (m w) f h k

  weaken_outcome :
      {A : Type 0} (Q R : A → H → Type 0) (r : Outcome (A × World H))
      → ((a : A) (h : H) → Q a h → R a h)
      → Ensures (λ x. Q x.0 x.1.handle) r
      → Ensures (λ x. R x.0 x.1.handle) r
  weaken_outcome Q R (ok x) f h = f x.0 x.1.handle h
  weaken_outcome Q R (exits s) f h = tt
  weaken_outcome Q R fault f h = tt
  weaken_outcome Q R hang f h = tt

  pub Leads-weaken :
      {A : Type 0} (Q R : A → H → Type 0) (m : Action H A) (w : World H)
      → ((a : A) (h : H) → Q a h → R a h)
      → Leads m w Q
      → Leads m w R
  Leads-weaken Q R m w f h = weaken_outcome Q R (m w) f h

  both_outcome :
      {A : Type 0} (Q R : A → H → Type 0) (r : Outcome (A × World H))
      → Ensures (λ x. Q x.0 x.1.handle) r
      → Ensures (λ x. R x.0 x.1.handle) r
      → Ensures (λ x. Q x.0 x.1.handle × R x.0 x.1.handle) r
  both_outcome Q R (ok x) p q = (p, q)
  both_outcome Q R (exits s) p q = tt
  both_outcome Q R fault p q = tt
  both_outcome Q R hang p q = tt

  -- What was shown of one statement in two proofs.
  pub Leads-both :
      {A : Type 0} (Q R : A → H → Type 0) (m : Action H A) (w : World H)
      → Leads m w Q
      → Leads m w R
      → Leads m w (λ a h. Q a h × R a h)
  Leads-both Q R m w p q = both_outcome Q R (m w) p q

  -- A sequence in which the first part only keeps what the second needs.
  pub Keeps-bind :
      {A B : Type 0} (P : H → Type 0) (m : Action H A) (f : A → Action H B)
      → Keeps P m
      → ((a : A) → Keeps P (f a))
      → Keeps P (m >>= f)
  Keeps-bind P m f h k w p = Leads-bind (λ _. P) (λ _. P) m f w (h w p) (λ a w' p'. k a w' p')

  lift_outcome :
      {A : Type 0} (Q : A → H → Type 0) (r : Outcome A) (w : World H)
      → Ensures (λ a. Q a w.handle) r
      → Leads (lift r) w Q
  lift_outcome Q (ok a) w h = h
  lift_outcome Q (exits s) w h = tt
  lift_outcome Q fault w h = tt
  lift_outcome Q hang w h = tt

  pub Leads-lift :
      {A : Type 0} (Q : A → H → Type 0) (r : Outcome A) (w : World H)
      → Ensures (λ a. Q a w.handle) r
      → Leads (lift r) w Q
  Leads-lift = lift_outcome

  pub or_exit-Keeps : {A : Type 0} (P : H → Type 0) (r : Answer A) → Keeps P (or_exit r)
  or_exit-Keeps P (done a) w p = p
  or_exit-Keeps P (failed e) w p = tt

  pub require-Keeps : (P : H → Type 0) (os : Kernel) (c : Call) → Keeps P (require os c)
  require-Keeps P os c w p = or_exit-Keeps P (os.status w.trace c) _ p

  pub require_then :
      {B : Type 0} (P : H → Type 0) (os : Kernel) (c : Call) (k : Action H B)
      → Keeps P k
      → Keeps P (require os c >> k)
  require_then P os c k h w p =
      Keeps-bind P (require os c) (λ _. k) (require-Keeps P os c) (λ _. h) w p

  -- What follows a call matters, wherever it starts.
  pub require_lead :
      {B : Type 0} (R : B → H → Type 0) (os : Kernel) (c : Call) (k : Action H B) (w : World H)
      → ((w' : World H) → Leads k w' R)
      → Leads (require os c >> k) w R
  require_lead R os c k w h =
      Leads-bind (λ _ _. Unit) R (require os c) (λ _. k) w (require-Keeps (λ _. Unit) os c w tt)
        (λ _ w' _. h w')

  -- A part that makes no call: what follows may use what it returned.
  pub lift_lead :
      {A B : Type 0} (R : B → H → Type 0) (r : Outcome A) (k : A → Action H B) (w : World H)
      → ((a : A) → r ≡ ok a → Leads (k a) w R)
      → Leads (lift r >>= k) w R
  lift_lead R (ok a) k w h = h a refl
  lift_lead R (exits s) k w h = tt
  lift_lead R fault k w h = tt
  lift_lead R hang k w h = tt

  pub bug_on-Keeps : (P : H → Type 0) (b : Bool) → Keeps P (lift (bug_on b))
  bug_on-Keeps P true w p = tt
  bug_on-Keeps P false w p = p

  pub index_lead :
      {A B : Type 0} (R : B → H → Type 0) (xs : List A) (i : ℕ) (k : A → Action H B) (w : World H)
      → ((a : A) → get_elem? xs i ≡ some a → Leads (k a) w R)
      → Leads (lift (index xs i) >>= k) w R
  index_lead R xs i k w h = elim (Option-cases (get_elem? xs i)) [
    | inl e ↦ rw e tt
    | inr (a, e) ↦ rw e (h a e)
  ]

  pub valid_fd_lead :
      {B : Type 0} (R : B → H → Type 0) (o : Option ℕ) (s : Stop) (k : ℕ → Action H B) (w : World H)
      → ((fd : ℕ) → o ≡ some fd → Leads (k fd) w R)
      → Leads (valid_fd o s >>= k) w R
  valid_fd_lead R none s k w h = tt
  valid_fd_lead R (some fd) s k w h = h fd refl

  pub when-Keeps :
      (P : H → Type 0) (b : Bool) (m : Action H (Unit {0})) → Keeps P m → Keeps P (when b m)
  when-Keeps P true m k w p = k w p
  when-Keeps P false m k w p = p

  pub for_range-Keeps :
      (P : H → Type 0) (rounds first : ℕ) (body : ℕ → Action H (Unit {0}))
      → ((i : ℕ) → Keeps P (body i))
      → Keeps P (for_range rounds first body)
  unfolding for_range
  for_range-Keeps P zero first body k w p = p
  for_range-Keeps P (suc rounds) first body k w p =
      Keeps-bind P (body first) (λ _. for_range rounds (first + 1) body) (k first)
        (λ _. for_range-Keeps P rounds (first + 1) body k) w p

  -- A loop without fuel cannot spin, and a sequence spins only where a part of it does.
  bind_outcome-ne-hang :
      {A B : Type 0} (Q : A → H → Type 0) (r : Outcome (A × World H)) (f : A → Action H B)
      → r ≢ hang
      → Ensures (λ x. Q x.0 x.1.handle) r
      → ((a : A) (w : World H) → Q a w.handle → f a w ≢ hang)
      → Outcome.◌>>=◌ r (λ x. f x.0 x.1) ≢ hang
  bind_outcome-ne-hang Q (ok x) f n h k = k x.0 x.1 h
  bind_outcome-ne-hang Q (exits s) f n h k = λ e. cc
  bind_outcome-ne-hang Q fault f n h k = λ e. cc
  bind_outcome-ne-hang Q hang f n h k = λ e. n refl

  pub bind-ne-hang :
      {A B : Type 0} (Q : A → H → Type 0) (m : Action H A) (f : A → Action H B) (w : World H)
      → m w ≢ hang
      → Leads m w Q
      → ((a : A) (w' : World H) → Q a w'.handle → f a w' ≢ hang)
      → (m >>= f) w ≢ hang
  bind-ne-hang Q m f w n h k = bind_outcome-ne-hang Q (m w) f n h k

  or_exit-ne-hang : {A : Type 0} (r : Answer A) (w : World H) → or_exit r w ≢ hang
  or_exit-ne-hang (done a) w = λ e. cc
  or_exit-ne-hang (failed s) w = λ e. cc

  pub pure-ne-hang : {A : Type 0} (a : A) (w : World H) → pure a w ≢ hang
  pure-ne-hang a w e = cc

  pub require-ne-hang :
      {B : Type 0} (os : Kernel) (c : Call) (k : Action H B)
      → ((w : World H) → k w ≢ hang)
      → (w : World H) → (require os c >> k) w ≢ hang
  require-ne-hang os c k h w =
      bind-ne-hang (λ _ _. Unit) (require os c) (λ _. k) w (or_exit-ne-hang (os.status w.trace c) _)
        (require-Keeps (λ _. Unit) os c w tt) (λ _ w' _. h w')

  pub when-ne-hang :
      (b : Bool) (m : Action H (Unit {0}))
      → ((w : World H) → m w ≢ hang)
      → (w : World H) → when b m w ≢ hang
  when-ne-hang true m h w = h w
  when-ne-hang false m h w = λ e. cc
