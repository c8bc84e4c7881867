-- ===== src/Http/Chunk/Round.antt =====
-- One round of the loop of `ReadBodyPart` (haarp/httphandler.cpp), by what `find` gives.
use haarpcache.Base.{
  ℕ, zero, suc, ◌+◌, ◌≡◌, refl, ltb, if◌then◌else◌, false, pos, ltb_ℤ, Option, none, some, arith,
  [],
}
use haarpcache.Text.{Bytes, find}
use haarpcache.Socket.{Socket, received, recv_length}
use haarpcache.Http.Chunk.{size_round, chunk_size, crlf}

some_came : (k : ℕ) → ltb_ℤ (pos (suc k)) (pos 1) ≡ false
some_came k = ground arith

module _ (again : Bytes → ℕ → Socket → Option ℕ × Socket) (n k : ℕ) (text : Bytes)
    (s : Socket) where
  pub round-none :
      find crlf text ≡ none
      → size_round again n (received (pos (suc k)) text s)
        ≡ (if ltb 256 (n + suc k) then (none, s) else again text (n + suc k) s)
  unfolding size_round
  round-none h = rw (some_came k, h) refl

  pub round-zero :
      find crlf text ≡ some zero
      → size_round again n (received (pos (suc k)) text s)
        ≡ again [] n ((recv_length text 2 s).rest)
  unfolding size_round
  round-zero h = rw (some_came k, h) refl

  pub round-suc :
      (i : ℕ)
      → find crlf text ≡ some (suc i)
      → size_round again n (received (pos (suc k)) text s) ≡ chunk_size text (suc i) s
  unfolding size_round
  round-suc i h = rw (some_came k, h) refl
