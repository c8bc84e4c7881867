-- ===== src/Http/Chunk/Bounds.antt =====
-- What holds of `ReadBodyPart` (haarp/httphandler.cpp) whatever arrives: it ends, what it returns is
-- bounded, and a line that is not at hand as a whole is refused.
use haarpcache.Base.{
  ℕ, zero, suc, ◌+◌, ◌<◌, ◌≤◌, ◌≡◌, refl, sym, ap, ◌∙◌, ltb, true, false, Bool-cases, pos, negsuc,
  inl, inr, List, [], ◌∷◌, ◌++◌, Option, none, some, arith, length, take,
}
use haarpcache.Text.{Bytes, contains}
use haarpcache.Text.Find.{find-none}
use haarpcache.Text.Explode.{contains-append}
use haarpcache.Socket.{Arrival, Socket, socket, recv, recv_length}
use haarpcache.Socket.Stream.{stream, recv_length-IsRead}
use haarpcache.Socket.Peek.{weight}
use haarpcache.Http.Chunk.{
  Part, crlf, no_size, size_rounds, read_size, size_round, read_data, read_body_part,
}
use haarpcache.Http.Chunk.Round.{round-none}
use haarpcache.Http.Chunk.Read.{IsShown}
use haarpcache.Http.Chunk.Enough.{size_rounds_enough}

-- The loop that reads the line of a chunk ends by its own tests, within 258 rounds more than the socket
-- can give: whatever stands for the rounds behind that number, or behind any greater one, `ReadBodyPart`
-- returns the same.
pub read_body_part_enough :
    (run_out : Bytes → ℕ → Socket → Option ℕ × Socket) (rounds : ℕ) (s : Socket)
    → 258 + weight s ≤ rounds
    → read_body_part true s ≡ read_data (size_rounds run_out rounds [] 0 s)
unfolding read_body_part read_size
read_body_part_enough run_out rounds s h = ap read_data (
    size_rounds_enough no_size run_out (258 + weight s) rounds [] 0 s (omega arith) (omega arith)
      (omega arith))

-- A chunk of at most one megabyte is returned, or the end of the body, or an error.
pub data IsBounded (p : Part) : Type 0 where
  refused : p.count ≡ negsuc 0 → IsBounded p
  ended : p.count ≡ pos 0 → p.body ≡ [] → IsBounded p
  chunk : (n : ℕ) → p.count ≡ pos n → length p.body ≡ n → 0 < n → n ≤ 1048576 → IsBounded p

length-take : (n : ℕ) (s : Bytes) → n ≤ length s → length (take n s) ≡ n
length-take zero s h = refl
length-take (suc n) [] h = absurd (omega arith)
length-take (suc n) (c ∷ s) h = omega (arith, length-take n s (omega arith))

length-recv_length :
    (n : ℕ) (s : Socket) → (recv_length [] n s).ok ≡ true → length (recv_length [] n s).sock_in ≡ n
length-recv_length n s ok =
    let read = recv_length-IsRead [] n s in
    let enough = sym read.enough ∙ ok in
    ap length (read.text ok) ∙ length-take n (stream s) (ground arith)

read_data-IsBounded : (size : Option ℕ × Socket) → IsBounded (read_data size)
unfolding read_data
read_data-IsBounded (none, s) = refused refl
read_data-IsBounded (some zero, s) = ended refl refl
read_data-IsBounded (some (suc n), s) = elim (Bool-cases (ltb 1048576 (suc n))) [
  | inl t ↦ rw t (refused refl)
  | inr t ↦ elim (Bool-cases ((recv_length [] (suc n) s).ok)) [
    | inl u ↦
        rw (t, u) (chunk (suc n) refl (length-recv_length (suc n) s u) (omega arith) (ground arith))
    | inr u ↦ rw (t, u) (refused refl)
  ]
]

pub read_body_part-IsBounded : (s : Socket) → IsBounded (read_body_part true s)
unfolding read_body_part
read_body_part-IsBounded s = read_data-IsBounded (read_size (258 + weight s) [] 0 s)

-- The loop only ever sees the same bytes again.
module _ (c : ℕ) (b : Bytes) (net : List Arrival) (h : contains (c ∷ b) b'\n' ≡ false) where
  again_refused :
      (f : ℕ) (temp : Bytes) (n : ℕ)
      → contains temp b'\n' ≡ false
      → (read_size f temp n (socket (c ∷ b) net)).0 ≡ none
  unfolding read_size recv
  again_refused zero temp n free = refl
  again_refused (suc f) temp n free =
      let whole = contains-append b'\n' temp (c ∷ b) free h in
      ap (λ r. r.0)
        (round-none (read_size f) n (length b) (temp ++ (c ∷ b)) (socket (c ∷ b) net)
          (find-none b'\n' crlf (temp ++ (c ∷ b)) whole refl))
      ∙ elim (Bool-cases (ltb 256 (n + suc (length b)))) [
        | inl t ↦ rw t refl
        | inr t ↦ rw t (again_refused f (temp ++ (c ∷ b)) (n + suc (length b)) whole)
      ]

read_data-none : (r : Option ℕ × Socket) → r.0 ≡ none → (read_data r).count ≡ negsuc 0
unfolding read_data
read_data-none (none, s) h = refl
read_data-none (some n, s) h = cc

same_shown :
    (f c : ℕ) (b : Bytes) (net : List Arrival) (s : Socket)
    → IsShown (c ∷ b) net s
    → read_size (suc f) [] 0 s ≡ read_size (suc f) [] 0 (socket (c ∷ b) net)
unfolding read_size recv
same_shown f c b net s shown = ap (size_round (read_size f) 0) shown.shown

pub read_body_part_split :
    (c : ℕ) (b : Bytes) (net : List Arrival) (s : Socket)
    → IsShown (c ∷ b) net s
    → contains (c ∷ b) b'\n' ≡ false
    → (read_body_part true s).count ≡ negsuc 0
unfolding read_body_part contains
read_body_part_split c b net s shown h = read_data-none (read_size (258 + weight s) [] 0 s) (
    ap (λ r. r.0)
      (ap (λ f. read_size f [] 0 s) rounds ∙ same_shown (257 + weight s) c b net s shown)
    ∙ again_refused c b net h (suc (257 + weight s)) [] 0 refl)
  where
    rounds : 258 + weight s ≡ suc (257 + weight s)
    rounds = omega arith
