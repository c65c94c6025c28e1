-- ===== src/Client/Eventloop/Steps.antt =====
-- How the client's invariant passes through the parts of the body of the event loop.
use computing_cluster.Base.{ℕ, ◌≡◌, Bool, true, false, List, if◌then◌else◌}
use computing_cluster.System.Action.{World, pure}
use computing_cluster.System.Traced.{Brings, Holds, Brings-weaken, Holds-bind}
use computing_cluster.Client.Types.{ClusterClientHandle}
use computing_cluster.Client.Tasks.{Client}
use computing_cluster.Client.Invariant.{ClientInv}
use computing_cluster.Client.Eventloop.{Progress, on, skip, lost, if_on, when_on}

module _ (compute : List ℕ → List ℕ) where
  abbrev P : World ClusterClientHandle → Type 0
  P = ClientInv compute

  pub after_on :
      (Q : World ClusterClientHandle → Type 0) (p : Progress) (k : Client Progress)
      → Holds Q k
      → Holds Q (elim p [ on ↦ k | skip ↦ pure skip | lost ↦ pure lost ])
  after_on Q on k h w v = h w v
  after_on Q skip k h w v = v
  after_on Q lost k h w v = v

  pub if_on-Holds : (m k : Client Progress) → Holds P m → Holds P k → Holds P (if_on m k)
  if_on-Holds m k hm hk w v =
      Holds-bind P m (λ p. elim p [ on ↦ k | skip ↦ pure skip | lost ↦ pure lost ]) hm
        (λ p. after_on P p k hk) w v

  pub when_on-Holds : (b : Bool) (m : Client Progress) → Holds P m → Holds P (when_on b m)
  when_on-Holds true m k w v = k w v
  when_on-Holds false m k w v = v

  pub if-Holds :
      {A : Type 0} (b : Bool) (m n : Client A)
      → Holds P m
      → Holds P n
      → Holds P (if b then m else n)
  if-Holds true m n hm hn w v = hm w v
  if-Holds false m n hm hn w v = hn w v

  -- The same for a table of a given size.
  abbrev pub M : ℕ → World ClusterClientHandle → Type 0
  M m w = ClientInv compute w × (w.handle.max_threads ≡ m)

  pub forget :
      {A : Type 0} (m : ℕ) (a : Client A) (w : World ClusterClientHandle)
      → Brings a w (λ _. M m)
      → Brings a w (λ _. P)
  forget m a w h = Brings-weaken (λ _. M m) (λ _. P) a w (λ _ _ q. q.0) h
