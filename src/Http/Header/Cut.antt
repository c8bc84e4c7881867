-- ===== src/Http/Header/Cut.antt =====
-- `ReadHeader` (haarp/httphandler.cpp) when a piece ends in front of the last byte of the empty line.
use haarpcache.Base.{
  ℕ, suc, ◌+◌, ◌-◌, ◌*◌, ◌%◌, ◌^◌, ◌≤◌, ◌<◌, ◌≡◌, refl, sym, ap, ◌∙◌, not, true, false, List, [],
  ◌∷◌, ◌++◌, none, some, arith, length, length-append, append_assoc,
}
use mathlib.Core.Path.{ap₂}
use haarpcache.Text.{Bytes, find, contains}
use haarpcache.Text.Find.{find_if-append, find-append}
use haarpcache.Socket.{Arrival, Socket, socket, recv_length}
use haarpcache.Socket.Stream.{stream, incoming, recv_length-IsRead}
use haarpcache.Socket.Peek.{weight}
use haarpcache.Http.Chunk.{crlf}
use haarpcache.Http.Chunk.Read.{IsShown}
use haarpcache.Http.Header.{
  header_loop, read_last, read_on, skip_round, skip_white, read_from, read_header, start, white,
  empty_line, bare_empty_line,
}
use haarpcache.Http.Header.Net.{next, IsNext}
use haarpcache.Http.Header.Loop.{message, loop_on, loop_found, read_on_shown, recv_length_whole}
use haarpcache.Http.Header.Skip.{skip-some, recv_length_zero}

-- Three bytes of the empty line came with the header.
abbrev pub cut_piece : Bytes → Bytes
cut_piece head = head ++ (b'\r' ∷ b'\n' ∷ b'\r' ∷ [])

read_last_failed :
    (position poscount : ℕ) (hdr temp : Bytes) (s : Socket)
    → (recv_length hdr ((position + 2 + 2 ^ 32 - poscount) % 2 ^ 32) s).ok ≡ false
    → (read_last false position poscount hdr temp s).ok ≡ false
unfolding read_last
read_last_failed position poscount hdr temp s h = rw h refl

-- The number of bytes to read wraps around.
read_last-cut :
    (h poscount : ℕ) (hdr temp : Bytes) (s : Socket)
    → poscount ≡ h + 3
    → length (stream s) < 2 ^ 32 - 1
    → (read_last false h poscount hdr temp s).ok ≡ false
read_last-cut h poscount hdr temp s e short =
    let n : (h + 2 + 2 ^ 32 - poscount) % 2 ^ 32 ≡ 2 ^ 32 - 1 = omega (arith, e) in
    read_last_failed h poscount hdr temp s (
      (recv_length-IsRead hdr ((h + 2 + 2 ^ 32 - poscount) % 2 ^ 32) s).enough
      ∙ ground (arith, n, short))

module _ (head rest : Bytes) (c : ℕ) (b : Bytes) (net later : List Arrival)
    (n : IsNext c b later net) (whole : cut_piece head ++ incoming net ≡ message head rest)
    (first : find empty_line (message head rest) ≡ some (length head))
    (clean : find bare_empty_line (cut_piece head) ≡ none) where
  size : length (cut_piece head) ≡ length head + 3
  size = length-append head (b'\r' ∷ b'\n' ∷ b'\r' ∷ [])

  not_yet : find empty_line (cut_piece head) ≡ none
  not_yet =
      find-append empty_line (cut_piece head) (incoming net) (length head) (omega arith)
        (ap (find empty_line) whole ∙ first)
      ∙ ground (arith, size)

  then_found : find empty_line (cut_piece head ++ (c ∷ b)) ≡ some (length head)
  then_found =
      find-append empty_line (cut_piece head ++ (c ∷ b)) (incoming later) (length head)
        (omega arith)
        (ap (find empty_line) (
            append_assoc (cut_piece head) (c ∷ b) (incoming later)
            ∙ ap (λ k. cut_piece head ++ k) (sym n.whole)
            ∙ whole)
          ∙ first)
      ∙ ground (arith, size, length-append (cut_piece head) (c ∷ b))

  loop-cut :
      (f n_received : ℕ)
      → n_received + (length head + 3) ≤ 65536
      → length ((c ∷ b) ++ incoming later) < 2 ^ 32 - 1
      → (header_loop
          (suc (suc f))
          []
          (cut_piece head)
          (length (cut_piece head))
          0
          n_received
          (socket (cut_piece head) net)).ok
        ≡ false
  unfolding stream
  loop-cut f n_received fits short =
      ap (λ r. r.ok)
        (loop_on (suc f) [] (cut_piece head) (length (cut_piece head)) 0 n_received
            (socket (cut_piece head) net) not_yet clean
          ∙ ap
              (read_on (header_loop (suc f)) (cut_piece head) (length (cut_piece head)) 0
                n_received)
              (recv_length_whole [] (cut_piece head) net)
          ∙ read_on_shown (header_loop (suc f)) (cut_piece head) (cut_piece head)
              (cut_piece head ++ (c ∷ b)) (length (cut_piece head)) 0 n_received (length b)
              (socket [] net) (socket (c ∷ b) later) (omega (arith, size, fits))
              (n.shown (cut_piece head))
          ∙ loop_found f (cut_piece head) (cut_piece head ++ (c ∷ b)) (suc (length b))
              (0 + length (cut_piece head)) (n_received + length (cut_piece head)) (length head)
              (socket (c ∷ b) later) then_found)
      ∙ read_last-cut (length head) (0 + length (cut_piece head)) (cut_piece head)
          (cut_piece head ++ (c ∷ b)) (socket (c ∷ b) later) (omega (arith, size)) short

skip-cut :
    (d : ℕ) (ds : Bytes) (net : List Arrival) (s : Socket) (w : ℕ)
    → not (contains white d) ≡ true
    → IsShown (cut_piece (d ∷ ds)) net s
    → skip_white (suc w) 0 s
      ≡ some (
          start
            (cut_piece (d ∷ ds))
            (length (cut_piece (d ∷ ds)))
            (socket (cut_piece (d ∷ ds)) net))
unfolding skip_white
skip-cut d ds net s w black shown =
    ap (skip_round (skip_white w) 0) shown.shown
    ∙ skip-some (skip_white w) 0 (length (cut_piece ds)) (cut_piece (d ∷ ds))
        (socket (cut_piece (d ∷ ds)) net) 0
        (find_if-append (λ c. not (contains white c)) [] d (cut_piece ds) tt black)
    ∙ ap₂ (λ m r. some (start (cut_piece (d ∷ ds)) m r)) (omega arith)
        (recv_length_zero (socket (cut_piece (d ∷ ds)) net))

filled_weight :
    (c : ℕ) (s : Bytes) (net : List Arrival)
    → weight (socket (c ∷ s) net) ≡ suc (weight (socket (c ∷ s) net) - 1)
unfolding weight
filled_weight c s net = omega arith

-- Such a header is not read, though the whole of it arrives.
pub read_header-cut :
    (d : ℕ) (ds rest : Bytes) (net : List Arrival) (s : Socket)
    → IsShown (cut_piece (d ∷ ds)) net s
    → cut_piece (d ∷ ds) ++ incoming net ≡ message (d ∷ ds) rest
    → not (contains white d) ≡ true
    → find empty_line (message (d ∷ ds) rest) ≡ some (length (d ∷ ds))
    → find bare_empty_line (cut_piece (d ∷ ds)) ≡ none
    → 2 * (length (d ∷ ds) + 3) ≤ 65536
    → length rest < 2 ^ 32 - 2
    → (read_header s).ok ≡ false
unfolding read_header read_from
read_header-cut d ds rest net s shown whole black first clean fits short =
    let (c, b, later, n) = next net (omega (arith, sizes)) in
    ap (λ o. (read_from s o).ok) (skip-cut d ds net s (weight s) black shown)
    ∙ ap
        (λ f.
          (header_loop (suc f) [] (cut_piece (d ∷ ds)) (length (cut_piece (d ∷ ds))) 0
            (length (cut_piece (d ∷ ds))) (socket (cut_piece (d ∷ ds)) net)).ok)
        rounds
    ∙ loop-cut (d ∷ ds) rest c b net later n whole first clean
        (weight (socket (cut_piece (d ∷ ds)) net) - 1) (length (cut_piece (d ∷ ds)))
        (omega (arith, size_of (d ∷ ds), fits)) (omega (arith, sizes, ap length n.whole, short))
  where
    rounds :
        weight (socket (cut_piece (d ∷ ds)) net)
        ≡ suc (weight (socket (cut_piece (d ∷ ds)) net) - 1)
    rounds = filled_weight d (cut_piece ds) net

    size_of : (h : Bytes) → length (cut_piece h) ≡ length h + 3
    size_of h = length-append h (b'\r' ∷ b'\n' ∷ b'\r' ∷ [])

    sizes : length (incoming net) ≡ 1 + length rest
    sizes = omega (
      arith,
      size_of (d ∷ ds),
      ap length whole,
      length-append (cut_piece (d ∷ ds)) (incoming net),
      length-append ((d ∷ ds) ++ crlf) (crlf ++ rest),
      length-append (d ∷ ds) crlf,
    )
