-- ===== src/Integral/Tests.antt =====
-- The example program at concrete inputs. The doubles are whole tenths with 64 bits, constants
-- rounded up, so that a step is a tenth and task 0 is the interval from 1.0 to 7.6.
use native.Mathlib.Bridge.{le_prop}
use mathlib.Core.HLevel.{Σ_prop_path}
use computing_cluster.Base.{
  ℕ, zero, suc, ◌+◌, ◌-◌, ◌*◌, ◌/◌, ◌%◌, ◌^◌, ◌<◌, ◌≡◌, refl, true, false, not, List, [], ◌∷◌, some,
  arith, ltb, ◌==◌, length, replicate, length-append, get_elem?,
}
use mathlib.Core.List.{append-nil, flatten}
use computing_cluster.Base.Each.{Each}
use computing_cluster.Config.{no_task}
use computing_cluster.Wire.{little, big, header_bytes}
use computing_cluster.Wire.RoundTrip.{length-header_bytes}
use computing_cluster.System.Outcome.{ok}
use computing_cluster.System.Action.{World, ◌>>=◌}
use computing_cluster.System.Rules.{Leads}
use computing_cluster.System.Packs.{pack}
use computing_cluster.Server.Types.{ClusterServerHandle}
use computing_cluster.Server.Invariant.{ServerInv}
use computing_cluster.Server.Tasks.{init_tasks, init_task_management_routine}
use computing_cluster.Server.Setup.{new_connection}
use computing_cluster.Server.Setup.Fresh.{IsFreshTable-nil, IsFreshTable-cons}
use computing_cluster.Server.Setup.Stages.{HasTable, init_tasks-ServerInv}
use computing_cluster.Server.Tests.Handles.{allocates}
use computing_cluster.Server.Tests.Script.{
  script, blank, blank_header, blank_handle, small_handle, pool_of, with_no_calls,
}
use computing_cluster.Client.Types.{ThreadInfo, ClusterClientHandle}
use computing_cluster.Client.Eventloop.{handle_command}
use computing_cluster.Client.Invariant.{pending, Phase, free, IsPlaced, ClientInv}
use computing_cluster.Client.Transfer.Reassembly.{receive_all}
use computing_cluster.Client.Tests.Script
use computing_cluster.Delivery.Task.{task_data, task_header, task_frame, Answers}
use computing_cluster.Integral.Words.Exchange.{length-store64}
use computing_cluster.Integral.Double.{Double, IsDouble, store_double}
use computing_cluster.Integral.ComputationServer.{
  num_tasks, sizeof_task_data, TaskData, task_of, fill_tasks, main,
}
use computing_cluster.Integral.ComputationClient.{integral_thread}
use computing_cluster.Integral.Trapezoid.{grid, integral_of, IsGridded}
use computing_cluster.Integral.Tasks.{integral_thread_lem, length-fill_tasks}
use computing_cluster.Integral.Results.{Sums, main-Sums}
use computing_cluster.Integral.Answers.{task_frame-trapezoid}
use computing_cluster.Integral.Exchange.{exchanged, sum_results-integral_thread}
use computing_cluster.System.Outcome
use computing_cluster.System.Outcome.{Returns}
use computing_cluster.System.Packs.{splice}
use computing_cluster.Integral.ComputationServer.{sum_results, sizeof_ret_data}

abbrev Tenths : Type 0
Tenths = (n : ℕ) × (n < 18446744073709551616)

low : (n : ℕ) → n % 18446744073709551616 < 18446744073709551616
low n = omega arith

abbrev tenths : ℕ → Tenths
tenths n = (n % 18446744073709551616, low n)

instance abbrev tenths_double : Double Tenths
tenths_double = record {
  add = λ x y. tenths (x.0 + y.0);
  sub = λ x y. tenths (x.0 - y.0);
  mul = λ x y. tenths (x.0 * y.0 / 10);
  div = λ x y. tenths (x.0 * 10 / y.0);
  lt = λ x y. ltb x.0 y.0;
  ne = λ x y. not (x.0 == y.0);
  literal = λ digits places. tenths ((digits * 10 + 10 ^ places - 1) / 10 ^ places);
  of_int = λ n. tenths (n * 10);
  bits = λ x. x.0;
  of_bits = tenths;
}

Tenths-IsDouble : IsDouble Tenths
Tenths-IsDouble = record {
  bits_small = λ x. x.1;
  bits-of_bits = λ n small. omega arith;
  of_bits-bits = λ x. Σ_prop_path (λ n. le_prop) (omega (arith, x.1));
}

abbrev first_task : TaskData Tenths
first_task = task_of 0

steps :
    (k : ℕ)
    → k < 66
    → (grid (tenths_double.add first_task.start first_task.step) first_task.step k).0 ≡ 11 + k
steps zero small = refl
steps (suc k) small = omega (arith, steps k (omega arith))

first-IsGridded : IsGridded Tenths 0 65
first-IsGridded = record {
  before = λ k small. ground (arith, steps k (omega (arith, small)));
  behind = refl;
}

-- The properties.
integral_thread_lem_example :
    integral_thread Tenths big 66 (
      some (
        some (pack (fill_tasks Tenths little num_tasks 0) (0 * sizeof_task_data) sizeof_task_data)))
    ≡ ok (store_double big (integral_of Tenths 0 65))
integral_thread_lem_example =
    integral_thread_lem Tenths little big 0 65 66 Tenths-IsDouble (omega arith) first-IsGridded
      (omega arith)

main-Sums_example :
    Leads (main Tenths script 3 20 blank blank_header 1) (with_no_calls blank_handle) (Sums Tenths)
main-Sums_example =
    main-Sums Tenths script 3 20 blank blank_header 1 (with_no_calls blank_handle) allocates

-- The server with its twelve tasks, before its event loop starts.
abbrev task_buff : List ℕ
task_buff = fill_tasks Tenths little num_tasks 0

abbrev filled_handle : ClusterServerHandle
filled_handle = record small_handle {
  client_conns = new_connection blank (replicate 13 0) ∷ [];
  pool = record (pool_of 12) { task_manager = init_tasks 12 0 24 8 };
  user_tasks = task_buff;
  user_rets = replicate 96 0;
  task_size = 24;
  ret_size = 8;
}

filled-HasTable : HasTable filled_handle
filled-HasTable = record {
  given = record {
    few = omega arith;
    frame = omega arith;
    user_bytes = length-fill_tasks Tenths little 12 0;
    room = refl;
  };
  free = IsFreshTable-cons blank (replicate 13 0) refl (IsFreshTable-nil 8);
  none_yet = refl;
  size = omega arith;
}

filled-ServerInv : ServerInv filled_handle
unfolding init_task_management_routine
filled-ServerInv = init_tasks-ServerInv filled_handle filled-HasTable

-- A client with one entry, whose function computes task 0.
abbrev first_value : List ℕ
first_value = store_double little (integral_of Tenths 0 65)

abbrev integral : List ℕ → List ℕ
integral pack = first_value

abbrev entry : ThreadInfo
entry = record {
  empty = true;
  in_args = record { data_pack = 0; ret_pack = 0 };
  alive = false;
  cpu = 0;
  task_id = no_task;
  event_fd = 10;
  waiting_to_be_sent = false;
}

abbrev client : World ClusterClientHandle
client = record {
  handle = record ((Script.world entry).handle) {
    server_conn = record { socket_fd = 9; recv_buffer = replicate 29 0; bytes_recieved = 0 };
    thread_manager = entry ∷ [];
    max_threads = 1;
    task_buffer = replicate 24 0;
    task_size = 24;
    ret_buffer = replicate 8 0;
    ret_size = 8;
  };
  trace = [];
}

places : Each (IsPlaced client.handle 0) (entry ∷ [])
places zero t e =
    let same : entry ≡ t = cc in rw (← same) (record { data_at = refl; ret_at = refl })
places (suc i) t e = cc

apart :
    (i j : ℕ) (s t : ThreadInfo)
    → get_elem? (entry ∷ []) i ≡ some s
    → get_elem? (entry ∷ []) j ≡ some t
    → s.event_fd ≡ t.event_fd
    → i ≡ j
apart zero zero s t es et same = refl
apart zero (suc j) s t es et same = cc
apart (suc i) j s t es et same = cc

idle : Phase integral client.handle [] entry
unfolding pending
idle = free refl refl refl refl

client-ClientInv : ClientInv integral client
client-ClientInv = record {
  fills = λ pack len. length-store64 little _;
  send_room = omega arith;
  layout = record {
    line = 0;
    entries = refl;
    task_room = refl;
    ret_room = refl;
    places = places;
    distinct = apart;
  };
  conn = record { buffer = refl; partial = omega arith; frame_small = omega arith };
  phases = phases;
}
  where
    phases : Each (λ _. Phase integral client.handle []) (entry ∷ [])
    phases zero t e = let same : entry ≡ t = cc in rw (← same) idle
    phases (suc i) t e = cc

one_piece : flatten (task_frame filled_handle 0 ∷ []) ≡ task_frame filled_handle 0
unfolding flatten
one_piece = append-nil (task_frame filled_handle 0)

piece_not_empty : Each (λ _ p. 0 < length p) (task_frame filled_handle 0 ∷ [])
piece_not_empty zero p e =
    let same : task_frame filled_handle 0 ≡ p = cc in
    rw (← same) (
      omega (
        arith,
        length-append (header_bytes little (task_header filled_handle 0))
            (task_data filled_handle 0),
        length-header_bytes little (task_header filled_handle 0),
      ))
piece_not_empty (suc i) p e = cc

task_frame-trapezoid_example :
    Returns
      (λ r. Answers integral 0 first_value r.1)
      ((receive_all (task_frame filled_handle 0 ∷ []) blank_header >>= λ arrived.
          handle_command Script.script arrived)
        client)
task_frame-trapezoid_example =
    task_frame-trapezoid Tenths Script.script integral filled_handle 0 65 66 client 0 entry
      blank_header (task_frame filled_handle 0 ∷ []) Tenths-IsDouble Script.starts filled-ServerInv
      (record { tasks = refl; size = refl; count = refl }) (omega arith) client-ClientInv refl refl
      refl refl
      (integral_thread_lem Tenths little little 0 65 66 Tenths-IsDouble (omega arith)
        first-IsGridded (omega arith))
      first-IsGridded (omega arith) one_piece piece_not_empty

-- Each tenth is itself.
tenths-number : (x : Tenths) → tenths_double.ne x x ≡ false
tenths-number x = ground arith

sum_results-integral_thread_example :
    Outcome.◌>>=◌
      (integral_thread Tenths big 66 (
        some (
          some
            (pack (fill_tasks Tenths little num_tasks 0) (0 * sizeof_task_data) sizeof_task_data))))
      (λ bytes.
        sum_results little 1 0 (tenths 5) (splice (replicate 96 0) (0 * sizeof_ret_data) bytes))
    ≡ ok (tenths_double.add (tenths 5) (exchanged big little (integral_of Tenths 0 65)))
sum_results-integral_thread_example =
    sum_results-integral_thread Tenths little big 0 65 66 (tenths 5) (replicate 96 0)
      Tenths-IsDouble (omega arith) first-IsGridded (omega arith) (omega arith)
      (tenths-number (exchanged big little (integral_of Tenths 0 65)))
