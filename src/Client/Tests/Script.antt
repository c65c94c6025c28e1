-- ===== src/Client/Tests/Script.antt =====
-- A kernel that takes every frame, and a client with two entries: the first holds a result, and of
-- the second each test says what it is doing.
use computing_cluster.Base.{
  ℕ, zero, suc, ◌+◌, ◌≡◌, refl, true, false, List, [], ◌∷◌, some, arith, length, get_elem?,
  replicate, length-replicate,
}
use computing_cluster.Config.{RequestHeader, no_task}
use computing_cluster.Wire.{little}
use computing_cluster.System.Kernel.{
  Kernel, Trace, Call, Answer, done, failed, eagain, EpollEvent, send, malloc, eventfd, read_event,
}
use computing_cluster.System.Action.{World}
use computing_cluster.Client.Types.{Connection, ThreadInfo, ClusterClientHandle}
use computing_cluster.Server.Setup.Stages.{AllocatesInFull}
use computing_cluster.Client.Setup.Threads.{opened, OpensApart}
use computing_cluster.Client.Setup.Asked.{IsAsked}
use computing_cluster.Client.Transfer.Keep.{ReadsAtMost}
use computing_cluster.Client.Invariant.{
  pending, CountsEvents, Phase, free, computing, finished, FillsPack, IsPlaced, ClientInv,
}
use computing_cluster.Base.Each.{Each}
use computing_cluster.Client.Workers.Entry.{StartsThreads}

-- The number of event descriptors that were opened.
unfoldable pub event_fds : Trace → ℕ
event_fds [] = 0
event_fds (eventfd ∷ t) = suc (event_fds t)
event_fds (_ ∷ t) = event_fds t

abbrev status : Trace → Call → Answer ℕ
status t (send _ bytes) = done (length bytes)
status t (read_event _) = failed eagain
status t eventfd = done (20 + event_fds t)
status t _ = done 0

abbrev input : Trace → Call → Answer (List ℕ)
input t (malloc n) = done (replicate n 0)
input t _ = failed eagain

abbrev pub event : (fd : ℕ) → EpollEvent
event fd = record { fd = fd; epollin = true; epollout = true; epollhup = false; epollerr = false }

abbrev pub script : Kernel
script = record {
  status = status;
  input = input;
  sender = λ t. 0;
  events = λ t c. done (event 10 ∷ event 9 ∷ []);
}

pub counts : CountsEvents script
counts before fd e = refl

pub reads : ReadsAtMost script
reads before fd n bytes e = cc

event_fds-opened :
    (d : ℕ) (trace : Trace) → event_fds (opened d (eventfd ∷ trace)) ≡ suc (d + event_fds trace)
unfolding event_fds
event_fds-opened zero trace = omega arith
event_fds-opened (suc d) trace = omega (arith, event_fds-opened d trace)

pub apart_fds : OpensApart script
apart_fds before d fd fd' e e' same =
    let a : 20 + event_fds before ≡ fd = cc in
    let b : 20 + event_fds (opened d (eventfd ∷ before)) ≡ fd' = cc in
    absurd (omega (arith, a, b, event_fds-opened d before, same))

pub allocates : AllocatesInFull script
allocates before n block e =
    let same : replicate n 0 ≡ block = cc in rw (← same) (length-replicate n 0)

-- Each byte doubled.
unfoldable pub doubled : List ℕ → List ℕ
doubled [] = []
doubled (x ∷ xs) = (x + x) ∷ doubled xs

length-doubled : (xs : List ℕ) → length (doubled xs) ≡ length xs
unfolding doubled
length-doubled [] = refl
length-doubled (x ∷ xs) = omega (arith, length-doubled xs)

abbrev pub first_entry : ThreadInfo
first_entry = record {
  empty = false;
  in_args = record { data_pack = 0; ret_pack = 0 };
  alive = false;
  cpu = 0;
  task_id = 0;
  event_fd = 10;
  waiting_to_be_sent = true;
}

abbrev pub free_entry : ThreadInfo
free_entry = record {
  empty = true;
  in_args = record { data_pack = 1; ret_pack = 1 };
  alive = false;
  cpu = 1;
  task_id = no_task;
  event_fd = 11;
  waiting_to_be_sent = false;
}

abbrev pub running_entry : ThreadInfo
running_entry = record free_entry { empty = false; alive = true; task_id = 1 }

abbrev pub server_conn : Connection
server_conn = record { socket_fd = 9; recv_buffer = 4 ∷ 0 ∷ 0 ∷ 0 ∷ 1 ∷ 7 ∷ []; bytes_recieved = 0 }

abbrev pub world : ThreadInfo → World ClusterClientHandle
world second = record {
  handle = record {
    host = little;
    epoll_fd = 3;
    local_discovery = true;
    discovery_socket_fd = 4;
    discovery_timer_fd = 5;
    server_conn = server_conn;
    server_addr = 0;
    initial_requests = 2;
    thread_manager = first_entry ∷ second ∷ [];
    max_threads = 2;
    task_buffer = 21 ∷ 0 ∷ [];
    task_size = 1;
    ret_buffer = 42 ∷ 0 ∷ [];
    ret_size = 1;
    max_cpu = 2;
    cache_line_size = 64;
  };
  trace = [];
}

abbrev pub blank_header : RequestHeader
blank_header = record { cmd = 0; task_id = 0 }

abbrev pub stack : List ℕ
stack = replicate 256 0

pub fills : FillsPack doubled 1 1
fills pack len = rw (length-doubled pack) len

abbrev IsSecond : ThreadInfo → Type 0
IsSecond t = (t.in_args ≡ free_entry.in_args) × (t.event_fd ≡ 11)

places :
    (second : ThreadInfo)
    → IsSecond second
    → Each (IsPlaced (world second).handle 0) (first_entry ∷ second ∷ [])
places second (args, fd) zero t e =
    let same : first_entry ≡ t = cc in rw (← same) (record { data_at = refl; ret_at = refl })
places second (args, fd) (suc zero) t e =
    let same : second ≡ t = cc in rw (← same, args) (record { data_at = refl; ret_at = refl })
places second (args, fd) (suc (suc i)) t e = cc

apart :
    (second : ThreadInfo)
    → IsSecond second
    → (i j : ℕ) (s t : ThreadInfo) → get_elem? (first_entry ∷ second ∷ []) i ≡ some s
    → get_elem? (first_entry ∷ second ∷ []) j ≡ some t
    → s.event_fd ≡ t.event_fd
    → i ≡ j
apart second (args, fd) zero zero s t es et same = refl
apart second (args, fd) zero (suc zero) s t es et same =
    let a : first_entry ≡ s = cc in
    let b : second ≡ t = cc in absurd (omega (arith, rw (← a, ← b, fd) at same))
apart second (args, fd) (suc zero) zero s t es et same =
    let a : second ≡ s = cc in
    let b : first_entry ≡ t = cc in absurd (omega (arith, rw (← a, ← b, fd) at same))
apart second (args, fd) (suc zero) (suc zero) s t es et same = refl
apart second (args, fd) (suc (suc i)) j s t es et same = cc
apart second (args, fd) zero (suc (suc j)) s t es et same = cc
apart second (args, fd) (suc zero) (suc (suc j)) s t es et same = cc

first_finished : (second : ThreadInfo) → Phase doubled (world second).handle [] first_entry
unfolding pending doubled
first_finished second = finished refl refl refl refl refl

phases :
    (second : ThreadInfo)
    → Phase doubled (world second).handle [] second
    → Each (λ _. Phase doubled (world second).handle []) (first_entry ∷ second ∷ [])
phases second p zero t e = let same : first_entry ≡ t = cc in rw (← same) (first_finished second)
phases second p (suc zero) t e = let same : second ≡ t = cc in rw (← same) p
phases second p (suc (suc i)) t e = cc

world-ClientInv :
    (second : ThreadInfo)
    → IsSecond second
    → Phase doubled (world second).handle [] second
    → ClientInv doubled (world second)
world-ClientInv second placed p = record {
  fills = fills;
  send_room = omega arith;
  layout = record {
    line = 0;
    entries = refl;
    task_room = refl;
    ret_room = refl;
    places = places second placed;
    distinct = apart second placed;
  };
  conn = record { buffer = refl; partial = omega arith; frame_small = omega arith };
  phases = phases second p;
}

pub free-ClientInv : ClientInv doubled (world free_entry)
unfolding pending
free-ClientInv = world-ClientInv free_entry (refl, refl) (free refl refl refl refl)

pub running-ClientInv : ClientInv doubled (world running_entry)
unfolding pending
running-ClientInv = world-ClientInv running_entry (refl, refl) (computing refl refl refl refl)

-- The handle fits the arguments of a run with two threads.
pub asked : IsAsked doubled (world free_entry).handle
asked = record {
  fills = fills;
  send_room = omega arith;
  frame_small = omega arith;
  some_threads = omega arith;
  tasks_small = omega arith;
  rets_small = omega arith;
  cpus = λ e. omega arith;
}

pub starts : StartsThreads script
starts = record {
  attributes = λ before. (0, refl);
  detached = λ before. (0, refl);
  placed = λ cpu before. (0, refl);
  created = λ entry before. (0, refl);
}
