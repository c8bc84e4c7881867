-- ===== src/Socket/Peek.antt =====
-- What `Recv` and `RecvLength` (haarp/sockethandler.cpp) do to a socket: what `Recv` shows without
-- taking it, and a weight that neither makes greater.
use haarpcache.Base.{
  ℕ, suc, ◌+◌, ◌-◌, ◌≤◌, ◌<◌, ◌≡◌, refl, leb, true, false, Bool-cases, pos, ltb_ℤ, inl, inr, List,
  [], ◌∷◌, ◌++◌, arith, length, length-drop,
}
use haarpcache.Text.{Bytes, is_empty}
use haarpcache.Socket.{
  Arrival, arrived, interrupted, failed, Socket, socket, Received, recv, recv_arrived, recv_length,
  recv_more, arrive, received,
}
use haarpcache.Socket.Stream.{stream, incoming}

-- What the socket can still give, arrivals counted with their bytes.
unfoldable pub weight_net : List Arrival → ℕ
weight_net [] = 0
weight_net (interrupted ∷ net) = suc (weight_net net)
weight_net (failed ∷ net) = suc (weight_net net)
weight_net (arrived b ∷ net) = suc (length b + weight_net net)

unfoldable pub weight : Socket → ℕ
unfolding weight_net
weight s = length s.recv_buf + weight_net s.arrivals

recv_more-weight :
    (sock_in : Bytes) (r n : ℕ) (net : List Arrival)
    → weight ((recv_more sock_in r n net).rest) ≤ weight_net net
unfolding recv_more weight_net weight
recv_more-weight sock_in r n [] = omega arith
recv_more-weight sock_in r n (interrupted ∷ net) = omega (arith, recv_more-weight sock_in r n net)
recv_more-weight sock_in r n (failed ∷ net) = omega arith
recv_more-weight sock_in r n (arrived b ∷ net) = elim (Bool-cases (is_empty b)) [
  | inl t ↦ rw t (omega arith)
  | inr t ↦ elim (Bool-cases (leb n (r + length b))) [
    | inl u ↦ rw (t, u) (omega (arith, length-drop (n - r) b))
    | inr u ↦ rw (t, u) (omega (arith, recv_more-weight (sock_in ++ b) (r + length b) n net))
  ]
]

-- Taking bytes from a buffer that has some makes the socket lighter.
pub recv_length-weight :
    (sock_in : Bytes) (n : ℕ) (s : Socket)
    → 0 < n
    → 0 < length s.recv_buf
    → weight ((recv_length sock_in n s).rest) < weight s
unfolding recv_length weight
recv_length-weight sock_in n s h filled = elim (Bool-cases (leb n (length s.recv_buf))) [
  | inl t ↦
      let le : n ≤ length s.recv_buf = ground arith in
      rw t (omega (arith, length-drop n s.recv_buf, le))
  | inr t ↦
      rw t
        (omega (arith, recv_more-weight (sock_in ++ s.recv_buf) (length s.recv_buf) n s.arrivals))
]

-- `Recv` without taking: nothing came, or the bytes that the socket now holds at the front of the
-- same stream are shown.
pub data IsPeeked (s : Socket) (sock_in : Bytes) (r : Received) : Type 0 where
  nothing : ltb_ℤ r.count (pos 1) ≡ true → IsPeeked s sock_in r
  held :
      (c : ℕ) (b : Bytes) (net : List Arrival)
      → r ≡ received (pos (length (c ∷ b))) (sock_in ++ (c ∷ b)) (socket (c ∷ b) net)
      → stream s ≡ (c ∷ b) ++ incoming net
      → weight (socket (c ∷ b) net) ≤ weight s
      → IsPeeked s sock_in r

arrive-IsPeeked :
    (sock_in : Bytes) (net : List Arrival)
    → IsPeeked (socket [] net) sock_in (recv_arrived sock_in false (arrive net))
unfolding recv_arrived arrive weight weight_net stream incoming
arrive-IsPeeked sock_in [] = nothing refl
arrive-IsPeeked sock_in (failed ∷ net) = nothing refl
arrive-IsPeeked sock_in (arrived [] ∷ net) = nothing refl
arrive-IsPeeked sock_in (arrived (c ∷ b) ∷ net) = held c b net refl refl (omega arith)
arrive-IsPeeked sock_in (interrupted ∷ net) = elim (arrive-IsPeeked sock_in net) [
  | nothing h ↦ nothing h
  | held c b more e all light ↦ held c b more e all (omega (arith, light))
]

recv_parts :
    (sock_in buf : Bytes) (net : List Arrival)
    → IsPeeked (socket buf net) sock_in (recv sock_in false (socket buf net))
unfolding recv stream weight
recv_parts sock_in [] net = arrive-IsPeeked sock_in net
recv_parts sock_in (c ∷ b) net = held c b net refl refl (omega arith)

pub recv-IsPeeked : (sock_in : Bytes) (s : Socket) → IsPeeked s sock_in (recv sock_in false s)
recv-IsPeeked sock_in s = recv_parts sock_in s.recv_buf s.arrivals
