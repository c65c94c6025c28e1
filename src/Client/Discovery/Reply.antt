-- ===== src/Client/Discovery/Reply.antt =====
-- Which datagrams the client takes for the reply of a server.
use computing_cluster.Base.{
  ℕ, ◌≡◌, ◌↔◌, subst, refl, sym, ◌∙◌, true, List, arith, ◌==◌, length, set, take, inl, inr,
  Bool-cases,
}
use computing_cluster.Base.Count.{count}
use computing_cluster.Config.{servers_discovery_datagram, servers_discovery_datagram_size}
use computing_cluster.Server.Discovery.{c_string}
use computing_cluster.Server.Discovery.Request.{
  same_bytes-eq, take-c_string, take-set, same_bytes_refl, c_string-set,
}
use computing_cluster.Client.Discovery.{is_reply}

-- The text of a server's reply.
abbrev reply_text : List ℕ
reply_text = take 26 servers_discovery_datagram

no_zero : count 0 reply_text ≡ 0
unfolding count
no_zero = refl

taken :
    (bytes : List ℕ)
    → is_reply bytes ≡ true
    → (length bytes ≡ servers_discovery_datagram_size) × (take 26 bytes ≡ reply_text)
unfolding is_reply c_string
taken bytes e = elim (Bool-cases (length bytes == servers_discovery_datagram_size)) [
  | inl size ↦
      let same : c_string (set bytes 26 0) ≡ c_string servers_discovery_datagram =
        same_bytes-eq (c_string (set bytes 26 0)) (c_string servers_discovery_datagram)
          (rw size at e) in
      (
        ground arith,
        sym (take-set 26 bytes 0)
            ∙ subst (λ l. take (length l) (set bytes 26 0) ≡ l) same
                (take-c_string (set bytes 26 0)),
      )
  | inr other ↦ absurd (let f = rw other at e in cc)
]

told :
    (bytes : List ℕ)
    → length bytes ≡ servers_discovery_datagram_size
    → take 26 bytes ≡ reply_text
    → is_reply bytes ≡ true
unfolding is_reply c_string
told bytes size text =
    let whole : (length bytes == servers_discovery_datagram_size) ≡ true = ground arith in
    let read : c_string (set bytes 26 0) ≡ reply_text =
      c_string-set reply_text bytes no_zero text (omega arith) in
    rw (whole, read, same_bytes_refl reply_text)

-- Of the datagrams, those that the client takes for a server's reply are exactly those of 27 bytes of
-- which the first 26 are the text that servers send; the last byte does not matter.
pub is_reply_iff :
    (bytes : List ℕ)
    → (is_reply bytes ≡ true) ↔ (
        (length bytes ≡ servers_discovery_datagram_size)
        × (take 26 bytes ≡ take 26 servers_discovery_datagram))
is_reply_iff bytes = (taken bytes, λ both. told bytes both.0 both.1)
