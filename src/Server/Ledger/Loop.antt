-- ===== src/Server/Ledger/Loop.antt =====
-- The account of the tasks along the turns of the event loop.
use computing_cluster.Base.{
  ℕ, ◌<◌, ◌≡◌, refl, sym, subst, List, arith, get_elem?, inl, inr, Option-cases, ◌≢◌, ltb, true,
  get_elem?-lt,
}
use computing_cluster.Config.{RequestHeader}
use computing_cluster.System.Kernel.{Kernel, EpollEvent}
use computing_cluster.System.Action.{World}
use computing_cluster.System.Rules.{Leads, Leads-weaken}
use computing_cluster.Server.Types.{Status, not_resolved, resolving, completed, ClusterServerHandle}
use computing_cluster.Server.Invariant.{ServerInv}
use computing_cluster.Server.Stable.{Stable}
use computing_cluster.Server.Tasks.Statuses.{agree, status_at-eq, status_at-none}
use computing_cluster.Server.Eventloop.{handle_event}
use computing_cluster.Server.Eventloop.Finish.{IsFinished, handle_event-Keeps}
use computing_cluster.Server.Ledger.{
  absent, done, Ledger, Reach, here, next, all_waiting, Reach-done, Reach-present,
}
use computing_cluster.Server.Ledger.View.{by_status, ledger, stored_value, ledger-SameBooks}
use computing_cluster.Server.Ledger.Refines.{Gives-Step, Collected-Step, Releases-Step}

-- The invariant, and how the account has come here from an earlier one.
pub record Follows (l : Ledger) (h : ClusterServerHandle) : Type 0 where
  pub inv : ServerInv h
  pub reach : Reach l (ledger h)

pub Follows-Stable : (l : Ledger) → Stable (Follows l)
Follows-Stable l = record {
  inv = λ p. p.inv;
  untouched =
      λ p v same. record { inv = v; reach = subst (Reach l) (sym (ledger-SameBooks same)) p.reach };
  gives = λ conn_i k conn p g v. record {
    inv = v;
    reach = next p.reach (Gives-Step _ conn_i conn k g);
  };
  collects = λ conn_i t p c. record {
    inv = c.inv;
    reach = next p.reach (Collected-Step conn_i t p.inv c);
  };
  releases = λ conn_i conn p there r v. record {
    inv = v;
    reach = next p.reach (Releases-Step conn_i conn p.inv v r);
  };
}

-- Every task has a value.
abbrev pub AllDone : (num_tasks : ℕ) → Ledger → Type 0
AllDone num_tasks l = (j : ℕ) → j < num_tasks → (value : List ℕ) × (l j ≡ done value)

completed-inv : (v : List ℕ) (s : Status) → agree completed s ≡ 1 → by_status v s ≡ done v
completed-inv v not_resolved e = absurd (omega arith)
completed-inv v resolving e = absurd (omega arith)
completed-inv v completed e = refl

pub IsFinished-AllDone : {h : ClusterServerHandle} → IsFinished h → AllDone h.num_tasks (ledger h)
IsFinished-AllDone {h} f j lt = elim (Option-cases (get_elem? h.task_manager j)) [
  | inl out ↦ absurd (omega (arith, f.all_done j lt, status_at-none completed h.task_manager j out))
  | inr (t, e) ↦ (
    stored_value h j,
    rw e (
        completed-inv (stored_value h j) t.status
          (omega (arith, f.all_done j lt, status_at-eq completed h.task_manager j t e))),
  )
]

module _ (os : Kernel) where
  -- From a handle with the invariant in which a task is COMPLETED, whatever an event says and the
  -- kernel answers: where its handling ends normally, the task is COMPLETED and the bytes of its
  -- result are the same.
  pub handle_event-done :
      (fuel : ℕ) (header : RequestHeader) (ev : EpollEvent) (w : World ClusterServerHandle) (j : ℕ)
      (value : List ℕ)
      → ServerInv w.handle
      → ledger w.handle j ≡ done value
      → Leads (handle_event os fuel header ev) w (λ _ h. ledger h j ≡ done value)
  handle_event-done fuel header ev w j value v d =
      Leads-weaken _ (λ _ h. ledger h j ≡ done value) (handle_event os fuel header ev) w
        (λ _ h p. Reach-done j value p.reach d)
        (handle_event-Keeps os (Follows-Stable (ledger w.handle)) fuel header ev w
          (record { inv = v; reach = here }))

-- All tasks that there were at the start are done at the end.
pub all_waiting-AllDone :
    {n : ℕ} {h : ClusterServerHandle}
    → Reach (all_waiting n) (ledger h)
    → IsFinished h
    → AllDone n (ledger h)
all_waiting-AllDone {n} {h} r f j lt =
    let below : ltb j n ≡ true = ground arith in
    let present : ledger h j ≢ absent = Reach-present j r (rw below (λ x. cc)) in
    elim (Option-cases (get_elem? h.task_manager j)) [
      | inl out ↦ absurd (present (rw out refl))
      | inr (t, e) ↦
          IsFinished-AllDone f j (omega (arith, f.inv.tasks.sized, get_elem?-lt h.task_manager j e))
    ]
