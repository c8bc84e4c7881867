-- ===== src/Http/Chunk/Enough.antt =====
-- The loop of `ReadBodyPart` (haarp/httphandler.cpp) ends.
use haarpcache.Base.{
  ℕ, zero, suc, ◌+◌, ◌≤◌, ◌<◌, ◌≡◌, refl, subst, sym, ◌∙◌, ltb, Bool-cases, Option-cases, pos, inl,
  inr, List, [], ◌∷◌, ◌++◌, Option, arith, length,
}
use haarpcache.Text.{Bytes, find}
use haarpcache.Http.Chunk.Round.{round-none, round-zero, round-suc}
use haarpcache.Socket.{Arrival, received, Socket, socket, recv_length}
use haarpcache.Socket.Peek.{weight, recv-IsPeeked, nothing, held, recv_length-weight}
use haarpcache.Http.Chunk.{size_rounds, size_round, crlf}

-- The same for the rounds after one that has shown bytes.
module _ (again other : Bytes → ℕ → Socket → Option ℕ × Socket) (n : ℕ) (temp b : Bytes) (c : ℕ)
    (net : List Arrival) where
  shown : Socket
  shown = socket (c ∷ b) net

  after_shown :
      (again [] n ((recv_length (temp ++ (c ∷ b)) 2 shown).rest)
        ≡ other [] n ((recv_length (temp ++ (c ∷ b)) 2 shown).rest))
      → (n + suc (length b) ≤ 256
          → again (temp ++ (c ∷ b)) (n + suc (length b)) shown
            ≡ other (temp ++ (c ∷ b)) (n + suc (length b)) shown)
      → size_round again n (received (pos (length (c ∷ b))) (temp ++ (c ∷ b)) shown)
        ≡ size_round other n (received (pos (length (c ∷ b))) (temp ++ (c ∷ b)) shown)
  unfolding shown
  after_shown line more = elim (Option-cases (find crlf (temp ++ (c ∷ b)))) [
    | inr (zero, i) ↦
        round-zero again n (length b) _ _ i ∙ line ∙ sym (round-zero other n (length b) _ _ i)
    | inr (suc k, i) ↦
        round-suc again n (length b) _ _ k i ∙ sym (round-suc other n (length b) _ _ k i)
    | inl i ↦
        round-none again n (length b) _ _ i
        ∙ elim (Bool-cases (ltb 256 (n + suc (length b)))) [
          | inl t ↦ rw t refl
          | inr t ↦ rw t (more (ground arith))
        ]
        ∙ sym (round-none other n (length b) _ _ i)
  ]

-- The loop ends by its own tests: the result depends neither on the fuel nor on what stands for the
-- rounds behind it, if there is enough for what may still be received and for what the socket can
-- give.
pub size_rounds_enough :
    (run_out run_out' : Bytes → ℕ → Socket → Option ℕ × Socket) (f g : ℕ) (temp : Bytes) (n : ℕ)
    (s : Socket)
    → n ≤ 256
    → 257 + weight s < f + n
    → 257 + weight s < g + n
    → size_rounds run_out f temp n s ≡ size_rounds run_out' g temp n s
unfolding size_rounds shown
size_rounds_enough x y zero g temp n s le hf hg = absurd (omega arith)
size_rounds_enough x y (suc f) zero temp n s le hf hg = absurd (omega arith)
size_rounds_enough x y (suc f) (suc g) temp n s le hf hg = elim (recv-IsPeeked temp s) [
  | nothing h ↦ unfold size_round in rw h refl
  | held c b net e all light ↦
      let lighter =
        recv_length-weight (temp ++ (c ∷ b)) 2 (socket (c ∷ b) net) (omega arith) (omega arith) in
      subst (λ r. size_round (size_rounds x f) n r ≡ size_round (size_rounds y g) n r) (sym e)
        (after_shown (size_rounds x f) (size_rounds y g) n temp b c net
          (size_rounds_enough x y f g [] n _ le (omega (arith, lighter, light))
            (omega (arith, lighter, light)))
          (λ low.
            size_rounds_enough x y f g _ _ _ low (omega (arith, light)) (omega (arith, light))))
]
