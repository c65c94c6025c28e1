-- ===== src/Tests.antt =====
-- The client and the server together at a concrete input: the client's first entry holds the result
-- of task 0, which the server has given to its only connection.
use computing_cluster.Base.{ℕ, zero, suc, ◌<◌, ◌≡◌, refl, List, [], ◌∷◌, arith, length}
use mathlib.Core.List.{flatten}
use computing_cluster.Base.Each.{Each}
use computing_cluster.Wire.{store32, load32, htobe32, header_bytes}
use computing_cluster.System.Outcome.{Returns}
use computing_cluster.System.Action.{◌>>=◌}
use computing_cluster.System.Packs.{pack}
use computing_cluster.Server.Invariant.{ServerInv}
use computing_cluster.Server.Eventloop.{store_result}
use computing_cluster.Server.Transfer.Reassembly.{receive_pieces}
use computing_cluster.Server.Tests.Handles.{busy-ServerInv, listed}
use computing_cluster.Server.Tests.Script.{busy_conn, busy_handle, with_no_calls}
use computing_cluster.Client.Results.{computed_frame}
use computing_cluster.Client.Tests.Script.{
  script, doubled, first_entry, free_entry, world, blank_header, free-ClientInv,
}
use computing_cluster.Delivery.{Delivered, computed_frame-Delivered}
use computing_cluster.Base.{◌+◌, false, leb}
use computing_cluster.Config.{sizeof_header}
use computing_cluster.System.Kernel.{send}
use computing_cluster.Server.Transfer.{put_data_to_connection, send_answer}
use computing_cluster.Server.Tests.Script.{open_handle}
use computing_cluster.Client.Eventloop.{handle_command}
use computing_cluster.Client.Transfer.Reassembly.{receive_all}
use computing_cluster.Delivery.Task.{
  task_data, task_header, task_frame, put_data-task_frame, Answers, task_frame-Answers,
}
use computing_cluster.Client.Tests.Script.{starts}

abbrev two_pieces : List (List ℕ)
two_pieces = (3 ∷ 0 ∷ 0 ∷ []) ∷ (0 ∷ 0 ∷ 42 ∷ []) ∷ []

pieces_of_computed :
    flatten two_pieces ≡ computed_frame doubled (world free_entry).handle first_entry
unfolding flatten header_bytes store32 load32 htobe32 doubled
pieces_of_computed = refl

two_not_empty : Each (λ _ p. 0 < length p) two_pieces
two_not_empty zero p e = ground arith
two_not_empty (suc zero) p e = ground arith
two_not_empty (suc (suc i)) p e = cc

computed_frame-Delivered_example :
    Returns
      (λ r. ServerInv r.1.handle × Delivered (doubled (pack (21 ∷ 0 ∷ []) 0 1)) 0 r.1)
      ((receive_pieces script 0 two_pieces blank_header >>= λ arrived.
          store_result script 0 arrived)
        (with_no_calls busy_handle))
computed_frame-Delivered_example =
    computed_frame-Delivered script doubled (world free_entry) 0 first_entry
      (with_no_calls busy_handle) 0 busy_conn blank_header two_pieces free-ClientInv refl
      busy-ServerInv refl refl refl (omega arith) (λ e. omega arith) listed pieces_of_computed
      two_not_empty

fits : leb 256 (sizeof_header + open_handle.task_size) ≡ false
fits = ground arith

put_data-task_frame_example :
    put_data_to_connection script 0 0 (task_header busy_handle 0) (with_no_calls busy_handle)
    ≡ send_answer script
        (task_header busy_handle 0)
        (sizeof_header + 1)
        (script.status [] (send 9 (task_frame busy_handle 0)))
        (record (with_no_calls busy_handle) { trace = send 9 (task_frame busy_handle 0) ∷ [] })
put_data-task_frame_example =
    put_data-task_frame script 0 0 0 9 busy_conn (with_no_calls busy_handle) busy-ServerInv refl
      refl refl (omega arith) fits

-- The first task of the server, in two pieces.
abbrev task_pieces : List (List ℕ)
task_pieces = (4 ∷ 0 ∷ 0 ∷ []) ∷ (0 ∷ 0 ∷ 7 ∷ []) ∷ []

pieces_of_task : flatten task_pieces ≡ task_frame busy_handle 0
unfolding flatten header_bytes store32 load32 htobe32
pieces_of_task = refl

task_pieces_not_empty : Each (λ _ p. 0 < length p) task_pieces
task_pieces_not_empty zero p e = ground arith
task_pieces_not_empty (suc zero) p e = ground arith
task_pieces_not_empty (suc (suc i)) p e = cc

task_frame-Answers_example :
    Returns
      (λ r. Answers doubled 0 (doubled (task_data busy_handle 0)) r.1)
      ((receive_all task_pieces blank_header >>= λ arrived. handle_command script arrived)
        (world free_entry))
task_frame-Answers_example =
    task_frame-Answers script doubled busy_handle 0 (world free_entry) 1 free_entry blank_header
      task_pieces starts busy-ServerInv (omega arith) free-ClientInv refl refl refl refl
      pieces_of_task task_pieces_not_empty
