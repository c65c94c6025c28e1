-- ===== src/Server/Ledger/View.antt =====
-- The account that a handle of the server stands for.
use computing_cluster.Base.{ℕ, ◌*◌, ◌≡◌, refl, List, Option, none, some, get_elem?}
use mathlib.Core.Path.{fun_ext}
use computing_cluster.System.Packs.{pack}
use computing_cluster.Server.Types.{
  Status, not_resolved, resolving, completed, TaskInfo, ClusterServerHandle,
}
use computing_cluster.Server.Stable.{SameBooks}
use computing_cluster.Server.Ledger.{Mark, absent, waiting, given, done, Ledger}

abbrev pub by_status : (value : List ℕ) → Status → Mark
by_status value not_resolved = waiting
by_status value resolving = given
by_status value completed = done value

abbrev pub mark_of : (value : List ℕ) → Option TaskInfo → Mark
mark_of value none = absent
mark_of value (some t) = by_status value t.status

-- The value of a task that is COMPLETED lies at its place among the results.
abbrev pub stored_value : ClusterServerHandle → (j : ℕ) → List ℕ
stored_value h j = pack h.user_rets (j * h.ret_size) h.ret_size

abbrev pub ledger : ClusterServerHandle → Ledger
ledger h j = mark_of (stored_value h j) (get_elem? h.task_manager j)

-- The books are all that counts.
pub ledger-SameBooks : {h h' : ClusterServerHandle} → SameBooks h h' → ledger h' ≡ ledger h
ledger-SameBooks {h} {h'} same = fun_ext λ j. rw (same.tasks, same.rets, same.ret_size) refl
