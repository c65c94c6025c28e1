-- ===== src/Client/Results.antt =====
-- What becomes of a result: it is signalled once, and goes out as a frame.
use computing_cluster.Base.{ℕ, List, ◌++◌}
use computing_cluster.Config.{cmd_result}
use computing_cluster.Wire.{htobe32, header_bytes}
use computing_cluster.System.Kernel.{Kernel}
use computing_cluster.System.Action.{Action}
use computing_cluster.System.Packs.{pack}
use computing_cluster.Client.Types.{ThreadInfo, ClusterClientHandle}

-- The frame that carries what the user's function makes of the task in an entry.
abbrev pub computed_frame : (List ℕ → List ℕ) → ClusterClientHandle → ThreadInfo → List ℕ
computed_frame compute h t =
    header_bytes h.host (record { cmd = cmd_result; task_id = htobe32 h.host t.task_id })
    ++ compute (pack h.task_buffer t.data_pack h.task_size)
