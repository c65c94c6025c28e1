-- ===== src/Server/Discovery/Request.antt =====
-- Which datagrams the server answers.
use computing_cluster.Base.{
  ℕ, zero, suc, ◌<◌, ◌≡◌, ◌↔◌, subst, refl, sym, ap, ◌∙◌, true, false, List, [], ◌∷◌, arith, ◌==◌,
  length, set, take, inl, inr, Bool-cases, ==_refl,
}
use computing_cluster.Base.Count.{count}
use computing_cluster.Config.{clients_discovery_datagram, clients_discovery_datagram_size}
use computing_cluster.Server.Discovery.{c_string, same_bytes, is_request}

pub same_bytes-eq : (xs ys : List ℕ) → same_bytes xs ys ≡ true → xs ≡ ys
unfolding same_bytes
same_bytes-eq [] [] e = refl
same_bytes-eq [] (y ∷ ys) e = cc
same_bytes-eq (x ∷ xs) [] e = cc
same_bytes-eq (x ∷ xs) (y ∷ ys) e = elim (Bool-cases (x == y)) [
  | inl same ↦
      let tails = same_bytes-eq xs ys (rw same at e) in
      let heads : x ≡ y = ground arith in rw (heads, tails)
  | inr other ↦ absurd (let f = rw other at e in cc)
]

-- A string stands at the start of its array.
pub take-c_string : (xs : List ℕ) → take (length (c_string xs)) xs ≡ c_string xs
unfolding c_string
take-c_string [] = refl
take-c_string (x ∷ xs) = elim (Bool-cases (x == 0)) [
  | inl stop ↦ rw stop
  | inr more ↦ rw (more, take-c_string xs)
]

pub take-set : {A : Type 0} (n : ℕ) (xs : List A) (a : A) → take n (set xs n a) ≡ take n xs
take-set zero [] a = refl
take-set zero (x ∷ xs) a = refl
take-set (suc n) [] a = refl
take-set (suc n) (x ∷ xs) a = ap (◌∷◌ x) (take-set n xs a)

pub same_bytes_refl : (xs : List ℕ) → same_bytes xs xs ≡ true
unfolding same_bytes
same_bytes_refl [] = refl
same_bytes_refl (x ∷ xs) = rw (==_refl x, same_bytes_refl xs)

-- A text without zero bytes, with a zero byte put behind it.
pub c_string-set :
    (text bytes : List ℕ)
    → count 0 text ≡ 0
    → take (length text) bytes ≡ text
    → length text < length bytes
    → c_string (set bytes (length text) 0) ≡ text
unfolding c_string count
c_string-set [] [] z e h = absurd (omega arith)
c_string-set [] (b ∷ bytes) z e h = refl
c_string-set (t ∷ text) [] z e h = cc
c_string-set (t ∷ text) (b ∷ bytes) z e h =
    let same : b ≡ t = cc in
    let others : take (length text) bytes ≡ text = cc in
    let more : (t == 0) ≡ false = ground arith in
    rw (same, more, c_string-set text bytes (ground arith) others (omega arith))

-- The text of a client's request.
abbrev request_text : List ℕ
request_text = take 30 clients_discovery_datagram

no_zero : count 0 request_text ≡ 0
unfolding count
no_zero = refl

accepted :
    (bytes : List ℕ)
    → is_request bytes ≡ true
    → (length bytes ≡ clients_discovery_datagram_size) × (take 30 bytes ≡ request_text)
unfolding is_request c_string
accepted bytes e = elim (Bool-cases (length bytes == clients_discovery_datagram_size)) [
  | inl size ↦
      let same : c_string (set bytes 30 0) ≡ c_string clients_discovery_datagram =
        same_bytes-eq (c_string (set bytes 30 0)) (c_string clients_discovery_datagram)
          (rw size at e) in
      (
        ground arith,
        sym (take-set 30 bytes 0)
            ∙ subst (λ l. take (length l) (set bytes 30 0) ≡ l) same
                (take-c_string (set bytes 30 0)),
      )
  | inr other ↦ absurd (let f = rw other at e in cc)
]

recognised :
    (bytes : List ℕ)
    → length bytes ≡ clients_discovery_datagram_size
    → take 30 bytes ≡ request_text
    → is_request bytes ≡ true
unfolding is_request c_string
recognised bytes size text =
    let whole : (length bytes == clients_discovery_datagram_size) ≡ true = ground arith in
    let read : c_string (set bytes 30 0) ≡ request_text =
      c_string-set request_text bytes no_zero text (omega arith) in
    rw (whole, read, same_bytes_refl request_text)

-- Of the datagrams, those that count as a request are exactly those of 31 bytes of which the first 30
-- are the text that clients send; the last byte does not matter.
pub is_request_iff :
    (bytes : List ℕ)
    → (is_request bytes ≡ true) ↔ (
        (length bytes ≡ clients_discovery_datagram_size)
        × (take 30 bytes ≡ take 30 clients_discovery_datagram))
is_request_iff bytes = (accepted bytes, λ both. recognised bytes both.0 both.1)
