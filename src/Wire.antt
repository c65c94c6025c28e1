-- ===== src/Wire.antt =====
-- The frames of the protocol: struct RequestHeader of cluster-api/Config.h in memory, and the
-- conversions of its task number (htobe32, be32toh) that cluster-server.c and cluster-client.c make
-- around it. A host stores a number in one of two orders; server and client need not agree.
pub mod RoundTrip
use computing_cluster.Base.{ℕ, ◌+◌, ◌*◌, ◌/◌, ◌%◌, List, [], ◌∷◌}
use computing_cluster.Config.{RequestHeader}

pub data ByteOrder : Type 0 where
  little big : ByteOrder

-- The four bytes of a uint32_t, the most significant first.
abbrev pub big_endian : ℕ → List ℕ
big_endian v = (v / 16777216 % 256) ∷ (v / 65536 % 256) ∷ (v / 256 % 256) ∷ (v % 256) ∷ []

-- A uint32_t as it lies in memory.
unfoldable pub store32 : ByteOrder → ℕ → List ℕ
store32 big v = big_endian v
store32 little v = (v % 256) ∷ (v / 256 % 256) ∷ (v / 65536 % 256) ∷ (v / 16777216 % 256) ∷ []

-- *(uint32_t*) p, where p points at these bytes.
unfoldable pub load32 : ByteOrder → List ℕ → ℕ
load32 big (a ∷ b ∷ c ∷ d ∷ _) = a * 16777216 + b * 65536 + c * 256 + d
load32 little (a ∷ b ∷ c ∷ d ∷ _) = a + b * 256 + c * 65536 + d * 16777216
load32 _ _ = 0

-- The number that lies in memory as the big-endian bytes of `v`.
unfoldable pub htobe32 : ByteOrder → ℕ → ℕ
unfolding load32
htobe32 host v = load32 host (big_endian v)

-- The number whose big-endian bytes are those of `v` in memory.
unfoldable pub be32toh : ByteOrder → ℕ → ℕ
unfolding load32 store32
be32toh host v = load32 big (store32 host v)

-- memcpy(buffer, header, sizeof(*header))
unfoldable pub header_bytes : ByteOrder → RequestHeader → List ℕ
unfolding store32
header_bytes host header = (header.cmd % 256) ∷ store32 host header.task_id
