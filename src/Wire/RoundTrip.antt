-- ===== src/Wire/RoundTrip.antt =====
-- What one side writes into a frame is what the other side reads out of it.
use computing_cluster.Base.{ℕ, ◌<◌, ◌≡◌, refl, List, ◌++◌, arith, length}
use computing_cluster.Config.{RequestHeader}
use computing_cluster.Wire.{ByteOrder, little, big, store32, load32, htobe32, be32toh, header_bytes}

-- A task number below 2^32 that one host converts with htobe32 and stores, and another host, of the
-- same or of the other byte order, loads and converts with be32toh, is the same number.
pub be32toh-htobe32 :
    (sender receiver : ByteOrder) (v : ℕ) (rest : List ℕ)
    → v < 4294967296
    → be32toh receiver (load32 receiver (store32 sender (htobe32 sender v) ++ rest)) ≡ v
unfolding htobe32 be32toh
be32toh-htobe32 little little v rest h = omega arith
be32toh-htobe32 little big v rest h = omega arith
be32toh-htobe32 big little v rest h = omega arith
be32toh-htobe32 big big v rest h = omega arith

pub length-header_bytes :
    (host : ByteOrder) (header : RequestHeader) → length (header_bytes host header) ≡ 5
unfolding header_bytes
length-header_bytes little header = refl
length-header_bytes big header = refl
