-- ===== src/System/Ends.antt =====
-- Rules for statements that end normally, which they do where the kernel does not refuse a call.
use computing_cluster.Base.{ℕ, ◌≡◌, refl, subst, Bool, true, false}
use computing_cluster.System.Outcome.{ok, Ensures, Returns}
use computing_cluster.System.Kernel.{Kernel, Trace, Call, done}
use computing_cluster.System.Action.{World, Action, ◌>>=◌, ◌>>◌, require, when}
use computing_cluster.System.Rules.{Leads}
use computing_cluster.System.Traced.{Safely, Brings, after}

-- Whenever the call is made, it succeeds.
abbrev pub Succeeds : Kernel → Call → Type 0
Succeeds os c = (before : Trace) → (n : ℕ) × (os.status before c ≡ done n)

module _ {H : Type 0} where
  abbrev pub Ends : {A : Type 0} → Action H A → World H → Type 0
  Ends {A} m w = (r : A × World H) × (m w ≡ ok r)

  pub require-Ends :
      {B : Type 0} (os : Kernel) (c : Call) (k : Action H B) (w : World H)
      → Succeeds os c
      → Ends k (after w c)
      → Ends (require os c >> k) w
  require-Ends os c k w s h = let (n, e) = s w.trace in rw e h

  pub Ends-bind :
      {A B : Type 0} (m : Action H A) (f : A → Action H B) (w : World H)
      → Ends m w
      → ((a : A) (w' : World H) → m w ≡ ok (a, w') → Ends (f a) w')
      → Ends (m >>= f) w
  Ends-bind m f w (r, e) k = rw e (k r.0 r.1 e)

  -- The second part may use what holds after the first.
  pub Ends-lead :
      {A B : Type 0} (Q : A → H → Type 0) (m : Action H A) (f : A → Action H B) (w : World H)
      → Ends m w
      → Leads m w Q
      → ((a : A) (w' : World H) → Q a w'.handle → Ends (f a) w')
      → Ends (m >>= f) w
  Ends-lead Q m f w (r, e) h k = rw e (k r.0 r.1 (subst (Ensures (λ r. Q r.0 r.1.handle)) e h))

  pub when-Ends : (b : Bool) (m : Action H (Unit {0})) (w : World H) → Ends m w → Ends (when b m) w
  when-Ends true m w h = h
  when-Ends false m w h = ((tt, w), refl)

  -- What holds if a statement ends does hold if it ends.
  pub Brings-Returns :
      {A : Type 0} (Q : A → World H → Type 0) (m : Action H A) (w : World H)
      → Ends m w
      → Brings m w Q
      → Returns (λ r. Q r.0 r.1) (m w)
  Brings-Returns Q m w (r, e) h = (r, e, subst (Safely (λ r. Q r.0 r.1)) e h)

  pub Leads-Returns :
      {A : Type 0} (Q : A → H → Type 0) (m : Action H A) (w : World H)
      → Ends m w
      → Leads m w Q
      → Returns (λ r. Q r.0 r.1.handle) (m w)
  Leads-Returns Q m w (r, e) h = (r, e, subst (Ensures (λ r. Q r.0 r.1.handle)) e h)
