-- ===== src/System/Action.antt =====
-- Statements of C: they read and write the handle, make system calls, and may end the program.
use computing_cluster.Base.{ℕ, zero, suc, ◌+◌, List, ◌∷◌, Option, none, some, Bool, true, false}
use computing_cluster.System.Outcome.{
  Outcome, ok, exits, fault, hang, Stop, failure, success, Ensures,
}
use computing_cluster.System.Outcome
use computing_cluster.System.Kernel.{Kernel, Trace, Call, Answer, done, failed, EpollEvent}

-- The handle `H` and the calls made so far.
pub record World (H : Type 0) : Type 0 where
  pub handle : H
  pub trace : Trace

abbrev pub Action : Type 0 → Type 0 → Type 0
Action H A = World H → Outcome (A × World H)

module _ {H : Type 0} where
  abbrev pub pure : {A : Type 0} → A → Action H A
  pure a w = ok (a, w)

  infixl 5 ◌>>=◌ ◌>>◌
  abbrev pub ◌>>=◌ : {A B : Type 0} → Action H A → (A → Action H B) → Action H B
  ◌>>=◌ m f w = Outcome.◌>>=◌ (m w) (λ r. f r.0 r.1)

  abbrev pub ◌>>◌ : {A B : Type 0} → Action H A → Action H B → Action H B
  m >> k = m >>= λ _. k

  abbrev pub exit : {A : Type 0} → Stop → Action H A
  exit s w = exits s

  abbrev pub spin : {A : Type 0} → Action H A
  spin w = hang

  abbrev pub get : Action H H
  get w = ok (w.handle, w)

  abbrev pub put : H → Action H (Unit {0})
  put h w = ok (tt, record w { handle = h })

  -- A part that makes no system call.
  abbrev pub lift : {A : Type 0} → Outcome A → Action H A
  lift r w = Outcome.◌>>=◌ r (λ a. ok (a, w))

  abbrev pub when : Bool → Action H (Unit {0}) → Action H (Unit {0})
  when true m = m
  when false m = pure tt

  module _ (os : Kernel) where
    abbrev pub syscall : Call → Action H (Answer ℕ)
    syscall c w = ok (os.status w.trace c, record w { trace = c ∷ w.trace })

    abbrev pub syscall_input : Call → Action H (Answer (List ℕ))
    syscall_input c w = ok (os.input w.trace c, record w { trace = c ∷ w.trace })

    abbrev pub syscall_events : Call → Action H (Answer (List EpollEvent))
    syscall_events c w = ok (os.events w.trace c, record w { trace = c ∷ w.trace })

  -- `if (call == -1) { LOG_ERROR(…); exit(EXIT_FAILURE); }`
  abbrev pub or_exit : {A : Type 0} → Answer A → Action H A
  or_exit (done a) = pure a
  or_exit (failed e) = exit failure

  abbrev pub require : Kernel → Call → Action H ℕ
  require os c = do r ← syscall os c; or_exit r

  -- A descriptor that is -1 makes a call on it fail.
  abbrev pub valid_fd : Option ℕ → Stop → Action H ℕ
  valid_fd none s = exit s
  valid_fd (some fd) s = pure fd

  -- for (i = first; i < first + rounds; ++i) body(i);
  unfoldable pub for_range : (rounds first : ℕ) → (ℕ → Action H (Unit {0})) → Action H (Unit {0})
  for_range zero first body = pure tt
  for_range (suc rounds) first body = do body first; for_range rounds (first + 1) body
