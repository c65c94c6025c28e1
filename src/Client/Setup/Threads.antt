-- ===== src/Client/Setup/Threads.antt =====
-- What init_task_management_routine() makes of the entries.
use computing_cluster.Base.{
  ℕ, zero, suc, ◌+◌, ◌-◌, ◌<◌, ◌≡◌, ◌≢◌, refl, sym, ap, ◌∙◌, subst, true, false, List, ◌∷◌, ◌++◌,
  arith, length, replicate,
}
use native.Mathlib.Nat.{zero-add, suc-add}
use native.Mathlib.Decide.{dec_lt}
use computing_cluster.Base.Each.{Each}
use computing_cluster.System.Outcome.{ok}
use computing_cluster.System.Kernel.{Kernel, Trace, done, eventfd}
use computing_cluster.System.Action.{World}
use computing_cluster.System.Traced.{Brings, Brings-bind, after, call_brings}
use computing_cluster.Client.Types.{ThreadInfo, ClusterClientHandle}
use computing_cluster.Client.Tasks.{add64, mul64, cpu_of, new_thread, init_threads}

Each-cons :
    (P : ℕ → ThreadInfo → Type 0) (t : ThreadInfo) (ts : List ThreadInfo)
    → P 0 t
    → Each (λ k. P (suc k)) ts
    → Each P (t ∷ ts)
Each-cons P t ts p ps zero s e = let same : t ≡ s = cc in subst (λ s. P 0 s) same p
Each-cons P t ts p ps (suc k) s e = ps k s e

-- A number of calls more.
abbrev pub opened : (n : ℕ) → Trace → Trace
opened n trace = replicate n eventfd ++ trace

opened-more : (n : ℕ) (trace : Trace) → opened n (eventfd ∷ trace) ≡ eventfd ∷ opened n trace
opened-more zero trace = refl
opened-more (suc n) trace = ap (◌∷◌ eventfd) (opened-more n trace)

opened_after :
    (d j : ℕ) (trace : Trace) → opened d (eventfd ∷ opened j trace) ≡ opened (suc (d + j)) trace
opened_after zero j trace = rw zero-add
opened_after (suc d) j trace = rw suc-add (ap (◌∷◌ eventfd) (opened_after d j trace))

-- Event descriptors that are opened one after the other are different.
abbrev pub OpensApart : Kernel → Type 0
OpensApart os =
    (before : Trace) (d fd fd' : ℕ)
    → os.status before eventfd ≡ done fd
    → os.status (opened d (eventfd ∷ before)) eventfd ≡ done fd'
    → fd ≢ fd'

-- Entry `k` of those that start with `first`, the first call being made after `trace`.
pub record IsNew (os : Kernel) (h : ClusterClientHandle) (first : ℕ) (trace : Trace) (k : ℕ)
    (t : ThreadInfo) : Type 0 where
  pub data_at : t.data_pack ≡ mul64 (first + k) (add64 h.task_size h.cache_line_size)
  pub ret_at : t.ret_pack ≡ mul64 (first + k) (add64 h.ret_size h.cache_line_size)
  pub is_empty : t.empty ≡ true
  pub unsent : t.waiting_to_be_sent ≡ false
  pub idle : t.alive ≡ false
  pub from : os.status (opened k trace) eventfd ≡ done t.event_fd

pub record Made (os : Kernel) (w : World ClusterClientHandle) (n first : ℕ) (ts : List ThreadInfo)
    (w' : World ClusterClientHandle) : Type 0 where
  pub handle : w'.handle ≡ w.handle
  pub trace : w'.trace ≡ opened n w.trace
  pub sized : length ts ≡ n
  pub entries : Each (IsNew os w.handle first w.trace) ts

module _ (os : Kernel) where
  IsNew-shift :
      (h : ClusterClientHandle) (first : ℕ) (trace : Trace) (k : ℕ) (t : ThreadInfo)
      → IsNew os h (first + 1) (eventfd ∷ trace) k t
      → IsNew os h first trace (suc k) t
  IsNew-shift h first trace k t v = record {
    data_at = v.data_at ∙ ap (λ n. mul64 n (add64 h.task_size h.cache_line_size)) (omega arith);
    ret_at = v.ret_at ∙ ap (λ n. mul64 n (add64 h.ret_size h.cache_line_size)) (omega arith);
    is_empty = v.is_empty;
    unsent = v.unsent;
    idle = v.idle;
    from = ap (λ l. os.status l eventfd) (sym (opened-more k trace)) ∙ v.from;
  }

  has_cpu : (i n : ℕ) → n ≢ 0 → (c : ℕ) × (cpu_of i n ≡ ok c)
  has_cpu i zero h = absurd (h refl)
  has_cpu i (suc n) h = (_, refl)

  pub init_threads_lem :
      (n first : ℕ) (w : World ClusterClientHandle)
      → w.handle.max_cpu ≢ 0
      → Brings (init_threads os n first) w (Made os w n first)
  unfolding init_threads
  init_threads_lem zero first w cpus = record {
    handle = refl;
    trace = refl;
    sized = refl;
    entries = λ k t e. cc;
  }
  init_threads_lem (suc n) first w cpus =
      let (c, e) = has_cpu first w.handle.max_cpu cpus in
      rw e (
        call_brings (Made os w (suc n) first) os eventfd _ w λ fd opened_fd.
          Brings-bind (Made os (after w eventfd) n (first + 1)) (Made os w (suc n) first)
            (init_threads os n (first + 1)) _ (after w eventfd)
            (init_threads_lem n (first + 1) (after w eventfd) cpus)
            λ ts w' made. record {
              handle = made.handle;
              trace = made.trace ∙ opened-more n w.trace;
              sized = ap suc made.sized;
              entries =
                  Each-cons (IsNew os w.handle first w.trace) (new_thread w.handle first c fd) ts
                    (record {
                      data_at =
                          ap (λ n. mul64 n (add64 w.handle.task_size w.handle.cache_line_size))
                            (omega arith);
                      ret_at =
                          ap (λ n. mul64 n (add64 w.handle.ret_size w.handle.cache_line_size))
                            (omega arith);
                      is_empty = refl;
                      unsent = refl;
                      idle = refl;
                      from = opened_fd;
                    })
                    (λ k t e. IsNew-shift w.handle first w.trace k t (made.entries k t e));
            })

-- Two such entries do not have the same descriptor.
IsNew-lt :
    (os : Kernel) {h : ClusterClientHandle} {first : ℕ} {trace : Trace} (i j : ℕ) (s t : ThreadInfo)
    → OpensApart os
    → IsNew os h first trace i s
    → IsNew os h first trace j t
    → i < j
    → s.event_fd ≢ t.event_fd
IsNew-lt os {h} {first} {trace} i j s t apart a b lt =
    let same : suc ((j - i - 1) + i) ≡ j = omega arith in
    apart (opened i trace) (j - i - 1) s.event_fd t.event_fd a.from (
      ap (λ l. os.status l eventfd)
        (opened_after (j - i - 1) i trace ∙ ap (λ n. opened n trace) same)
      ∙ b.from)

pub IsNew-distinct :
    (os : Kernel) {h : ClusterClientHandle} {first : ℕ} {trace : Trace} (i j : ℕ) (s t : ThreadInfo)
    → OpensApart os
    → IsNew os h first trace i s
    → IsNew os h first trace j t
    → s.event_fd ≡ t.event_fd
    → i ≡ j
IsNew-distinct os i j s t apart a b same = elim (dec_lt i j) [
  | yes lt ↦ absurd (IsNew-lt os i j s t apart a b lt same)
  | no ge ↦ elim (dec_lt j i) [
    | yes lt ↦ absurd (IsNew-lt os j i t s apart b a lt (sym same))
    | no le ↦ omega arith
  ]
]
