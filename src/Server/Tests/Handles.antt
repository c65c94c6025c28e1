-- ===== src/Server/Tests/Handles.antt =====
-- The invariant of the handles that the tests start from.
use computing_cluster.Base.{
  ◌≤◌, ◌<◌, ◌≡◌, refl, sym, ap, ◌∙◌, subst, arith, replicate, length-replicate,
}
use computing_cluster.System.Outcome.{ok, ok-injective}
use computing_cluster.Base.Count.{count}
use computing_cluster.Config.{no_task}
use computing_cluster.Server.Invariant.{ServerInv, IsConnection, ServerInv-reopen}
use computing_cluster.Server.Tasks.Give.{get_task_to_send_lem}
use computing_cluster.Server.Setup.Fresh.{IsFreshTable-nil, IsFreshTable-cons}
use computing_cluster.Server.Tasks.{
  take_task, list_task, find_task, place_task, init_task_management_routine, init_tasks,
  get_task_to_send,
}
use computing_cluster.Server.Setup.Stages.{AllocatesInFull, HasTable, init_tasks-ServerInv}
use computing_cluster.Server.Tests.Script.{
  script, blank, small_handle, open_conn, open_handle, busy_conn, busy_handle, empty_handle,
  idle_conn, result_frame,
}

pub allocates : AllocatesInFull script
allocates before n block e =
    let same : replicate n 0 ≡ block = cc in rw (← same) (length-replicate n 0)

pub small-HasTable : HasTable small_handle
small-HasTable = record {
  given = record { few = omega arith; frame = omega arith; user_bytes = refl; room = refl };
  free = IsFreshTable-cons blank result_frame refl (IsFreshTable-nil 1);
  none_yet = refl;
  size = omega arith;
}

pub small-ServerInv : ServerInv small_handle
unfolding init_task_management_routine
small-ServerInv = init_tasks-ServerInv small_handle small-HasTable

pub empty-ServerInv : ServerInv empty_handle
unfolding init_task_management_routine
empty-ServerInv = init_tasks-ServerInv empty_handle (record {
  given = record { few = omega arith; frame = omega arith; user_bytes = refl; room = refl };
  free = IsFreshTable-cons blank result_frame refl (IsFreshTable-nil 1);
  none_yet = refl;
  size = omega arith;
})

pub open-IsConnection : IsConnection 1 open_conn
open-IsConnection = record { buffer = refl; partial = omega arith; cells = refl; idle = λ e. cc }

pub open-ServerInv : ServerInv open_handle
open-ServerInv =
    ServerInv-reopen 0 idle_conn open_conn 1 small-ServerInv refl refl open-IsConnection refl

-- What the call that gives a task makes of it.
pub give_task : get_task_to_send open_handle 0 ≡ ok (0, busy_handle)
unfolding get_task_to_send take_task list_task find_task place_task init_tasks
    init_task_management_routine
give_task = refl

pub has_room : 0 < count no_task open_conn.task_list
unfolding count
has_room = omega arith

pub some_left : 0 < open_handle.num_not_resolved
unfolding init_task_management_routine
some_left = omega arith

pub busy-ServerInv : ServerInv busy_handle
busy-ServerInv =
    let (r, e, (_, inv)) =
      get_task_to_send_lem 0 open_conn open-ServerInv refl (λ e. cc) some_left has_room in
    subst ServerInv (ap (λ r. r.1) (ok-injective (sym e ∙ give_task))) inv

pub listed : 0 < count 0 busy_conn.task_list
unfolding count
listed = omega arith

pub not_listed : count 1 open_conn.task_list ≡ 0
unfolding count
not_listed = refl

pub none_left : empty_handle.num_not_resolved ≡ 0
unfolding init_task_management_routine
none_left = refl

pub one_lt : 1 < open_handle.num_tasks
unfolding init_task_management_routine
one_lt = omega arith

pub le_five : open_handle.num_tasks ≤ 5
unfolding init_task_management_routine
le_five = omega arith
