-- ===== src/Client/Tests.antt =====
-- The client at concrete inputs.
pub mod Script
use computing_cluster.Base.{
  ℕ, zero, suc, ◌+◌, ◌<◌, ◌≡◌, ◌↔◌, take, ◌≢◌, ◌≤◌, ◌⊎◌, refl, true, false, List, [], ◌∷◌, ◌++◌,
  none, some, arith, length,
}
use computing_cluster.Config.{
  sizeof_header, servers_discovery_datagram, servers_discovery_datagram_size,
}
use computing_cluster.Client.Discovery.{is_reply}
use computing_cluster.Client.Discovery.Reply.{is_reply_iff}
use computing_cluster.Wire.{store32, header_bytes}
use computing_cluster.System.Outcome.{Outcome, ok, exits, fault, bug}
use computing_cluster.System.Kernel.{Trace, done}
use computing_cluster.System.Action.{World}
use computing_cluster.System.Traced.{Brings}
use computing_cluster.Client.Types.{ClusterClientHandle}
use computing_cluster.Client.Tasks.{free_thread, start_computation}
use computing_cluster.Client.Eventloop.{
  on, client_eventloop, handle_event, send_request, send_requests,
}
use computing_cluster.Client.Eventloop.Preserves.{
  client_eventloop-ClientInv, handle_event-ClientInv,
}
use computing_cluster.Client.Invariant.{pending, ClientInv}
use computing_cluster.Client.Setup.Places.{new_thread-disjoint}
use computing_cluster.Client.Workers.Entry.{start_computation-spare}
use computing_cluster.Client.Tests.Script.{starts}
use computing_cluster.Base.Each.{Each}
use computing_cluster.Client.Workers.{Starts, arrived, start_computation_lem}
use computing_cluster.Client.Requests.{
  requested, sends_request, send_requests-all, send_request-overread,
}
use computing_cluster.Client.Setup.{init_cluster_client, client_compute}
use computing_cluster.Client.Setup.Asked.{Quiet}
use computing_cluster.Client.Setup.Run.{init_cluster_client-ClientInv, client_compute-ne-fault}
use computing_cluster.Client.Tests.Script.{
  allocates, apart_fds, asked, event, script, counts, reads, doubled, first_entry, free_entry,
  running_entry, world, blank_header, stack, free-ClientInv, running-ClientInv,
}
use mathlib.Core.List.{flatten}
use computing_cluster.Config.{cmd_task}
use computing_cluster.Wire.{big, load32, htobe32}
use computing_cluster.Base.Each.{Each}
use computing_cluster.Client.Transfer.Reassembly.{moved, receive_all, receive_all-header_bytes}

client_eventloop-ClientInv_example :
    Brings
      (client_eventloop script (λ t. 1 ∷ []) doubled 4 20 stack blank_header)
      (world running_entry)
      (λ _ w'. ClientInv doubled w')
client_eventloop-ClientInv_example =
    client_eventloop-ClientInv script doubled stack counts reads refl (λ t. 1 ∷ []) 4 20
      blank_header (world running_entry) running-ClientInv

handle_event-ClientInv_example :
    Brings
      (handle_event script 20 stack blank_header (event 9) (event 9))
      (world free_entry)
      (λ _ w'. ClientInv doubled w')
handle_event-ClientInv_example =
    handle_event-ClientInv script doubled stack counts reads refl 20 blank_header (event 9)
      (event 9) (world free_entry) free-ClientInv

start_computation_lem_example :
    Brings (start_computation script 1 sizeof_header) (world free_entry) (λ _ w'.
      ClientInv doubled w' × Starts (world free_entry) 1 (arrived (world free_entry).handle) w')
start_computation_lem_example =
    start_computation_lem script doubled 1 (world free_entry) free-ClientInv

start_computation-spare_example :
    (start_computation script 2 sizeof_header (world running_entry) ≡ exits bug)
    ↔ Each (λ _ t. t.empty ≡ false) (first_entry ∷ running_entry ∷ [])
start_computation-spare_example =
    start_computation-spare script doubled 2 (world running_entry) starts running-ClientInv

length-request :
    (before : Trace) → script.status before (sends_request (world free_entry).handle stack) ≡ done 6
unfolding header_bytes store32
length-request before = refl

send_requests-all_example :
    send_requests script stack 3 (world free_entry)
    ≡ ok (on, requested (world free_entry) stack 2 0)
send_requests-all_example =
    send_requests-all script doubled stack refl 2 (world free_entry) free-ClientInv refl refl
      (omega arith) length-request

-- A client whose results have 300 bytes.
abbrev large : World ClusterClientHandle
large = record (world free_entry) { handle = record ((world free_entry).handle) { ret_size = 300 } }

send_request-overread_example : send_request script stack large ≡ fault
send_request-overread_example = send_request-overread script stack large refl refl (omega arith)

quiet : Quiet []
unfolding pending
quiet fd = refl

init_cluster_client-ClientInv_example :
    Brings (init_cluster_client script 20) (world free_entry) (λ _ w'. ClientInv doubled w')
init_cluster_client-ClientInv_example =
    init_cluster_client-ClientInv script doubled 20 (world free_entry) allocates apart_fds asked
      quiet

client_compute-ne-fault_example :
    client_compute script
      (λ t. 0 ∷ 1 ∷ [])
      4
      20
      stack
      blank_header
      2
      1
      1
      (some doubled)
      true
      (world free_entry)
    ≢ fault
client_compute-ne-fault_example =
    client_compute-ne-fault script doubled stack (λ t. 0 ∷ 1 ∷ []) 4 20 blank_header 2 1 1 true
      (world free_entry) allocates apart_fds counts reads refl asked quiet

new_thread-disjoint_example :
    (0 + 1 ≤ 130) × (0 + 1 ≤ 130) × ((65 + 1 ≤ 0) ⊎ (0 + 1 ≤ 65)) × ((65 + 1 ≤ 0) ⊎ (0 + 1 ≤ 65))
new_thread-disjoint_example =
    new_thread-disjoint (world free_entry).handle 0 1 0 1 10 11 (omega arith) (omega arith)
      (omega arith) (omega arith) (λ e. omega arith)

is_reply_iff_example : (is_reply servers_discovery_datagram ≡ true) ↔ (
    (length servers_discovery_datagram ≡ servers_discovery_datagram_size)
    × (take 26 servers_discovery_datagram ≡ take 26 servers_discovery_datagram))
is_reply_iff_example = is_reply_iff servers_discovery_datagram
