-- ===== src/Socket/Stream.antt =====
-- The abstract view of a socket of haarp/sockethandler.cpp: one stream of bytes, whatever pieces it
-- arrives in.
use haarpcache.Base.{
  subst, take-append_short, drop-append_short, take-append_long, drop-append_long, ℕ, ◌+◌, ◌-◌, ◌≤◌,
  ◌<◌, ◌≡◌, sym, ap, ◌∙◌, leb, if◌then◌else◌, true, false, Bool-cases, inl, inr, List, [], ◌∷◌,
  ◌++◌, append_assoc, arith, length, length-append, take, drop,
}
use haarpcache.Text.{Bytes, is_empty}
use haarpcache.Socket.{
  Arrival, arrived, interrupted, failed, Socket, socket, Taken, taken, recv_more, recv_length,
}

-- What the arrivals bring until the stream ends or fails.
unfoldable pub incoming : List Arrival → Bytes
incoming [] = []
incoming (interrupted ∷ net) = incoming net
incoming (failed ∷ net) = []
incoming (arrived b ∷ net) = let rest = incoming net in if is_empty b then [] else b ++ rest

-- All the bytes that can still be read.
unfoldable pub stream : Socket → Bytes
unfolding incoming
stream s = s.recv_buf ++ incoming s.arrivals

-- `n` bytes are read from the stream `all`, behind `sock_in`: they are there and the rest of the
-- stream stays, or the stream is too short and the read fails.
pub record IsRead (sock_in : Bytes) (n : ℕ) (all : Bytes) (t : Taken) : Type 0 where
  pub enough : t.ok ≡ leb n (length all)
  pub text : t.ok ≡ true → t.sock_in ≡ sock_in ++ take n all
  pub kept : t.ok ≡ true → stream t.rest ≡ drop n all

short : (sock_in : Bytes) (n : ℕ) (s : Socket) → 0 < n → IsRead sock_in n [] (taken false sock_in s)
short sock_in n s h = record { enough = ground arith; text = λ e. cc; kept = λ e. cc }

-- The bytes at hand are enough.
at_hand :
    (sock_in b : Bytes) (n : ℕ) (net : List Arrival)
    → n ≤ length b
    → IsRead sock_in n
        (b ++ incoming net)
        (taken true (sock_in ++ take n b) (socket (drop n b) net))
unfolding stream
at_hand sock_in b n net h = record {
  enough = ground (arith, length-append b (incoming net));
  text = λ e. ap (λ k. sock_in ++ k) (sym (take-append_short n b (incoming net) h));
  kept = λ e. sym (drop-append_short n b (incoming net) h);
}

-- The bytes at hand are taken whole, and more are read.
beyond :
    (sock_in b rest : Bytes) (n : ℕ) (t : Taken)
    → length b < n
    → IsRead (sock_in ++ b) (n - length b) rest t
    → IsRead sock_in n (b ++ rest) t
beyond sock_in b rest n t h read = record {
  enough = read.enough ∙ ground (arith, length-append b rest);
  text = λ e.
      read.text e
      ∙ append_assoc sock_in b (take (n - length b) rest)
      ∙ ap (λ k. sock_in ++ k) (sym (take-append_long n b rest (omega arith)));
  kept = λ e. read.kept e ∙ sym (drop-append_long n b rest (omega arith));
}

recv_more-IsRead :
    (sock_in : Bytes) (r n : ℕ) (net : List Arrival)
    → r < n
    → IsRead sock_in (n - r) (incoming net) (recv_more sock_in r n net)
unfolding recv_more incoming
recv_more-IsRead sock_in r n [] h = short sock_in (n - r) _ (omega arith)
recv_more-IsRead sock_in r n (interrupted ∷ net) h = recv_more-IsRead sock_in r n net h
recv_more-IsRead sock_in r n (failed ∷ net) h = short sock_in (n - r) _ (omega arith)
recv_more-IsRead sock_in r n (arrived [] ∷ net) h = short sock_in (n - r) _ (omega arith)
recv_more-IsRead sock_in r n (arrived (c ∷ b) ∷ net) h =
    elim (Bool-cases (leb n (r + length (c ∷ b)))) [
      | inl t ↦ rw t (at_hand sock_in (c ∷ b) (n - r) net (ground arith))
      | inr t ↦ rw t (
          beyond sock_in (c ∷ b) (incoming net) (n - r) _ (ground arith) (
            subst
              (λ k.
                IsRead (sock_in ++ (c ∷ b)) k (incoming net)
                  (recv_more (sock_in ++ (c ∷ b)) (r + length (c ∷ b)) n net))
              (omega arith)
              (recv_more-IsRead (sock_in ++ (c ∷ b)) (r + length (c ∷ b)) n net (ground arith))))
    ]

-- `RecvLength` reads from the stream, in whatever pieces it arrives: it succeeds exactly when the
-- stream has the bytes, appends them, and leaves the rest of the stream.
pub recv_length-IsRead :
    (sock_in : Bytes) (n : ℕ) (s : Socket) → IsRead sock_in n (stream s) (recv_length sock_in n s)
unfolding recv_length stream
recv_length-IsRead sock_in n s = elim (Bool-cases (leb n (length s.recv_buf))) [
  | inl t ↦ rw t (at_hand sock_in s.recv_buf n s.arrivals (ground arith))
  | inr t ↦ rw t (
      beyond sock_in s.recv_buf (incoming s.arrivals) n _ (ground arith)
        (recv_more-IsRead (sock_in ++ s.recv_buf) (length s.recv_buf) n s.arrivals (ground arith)))
]
