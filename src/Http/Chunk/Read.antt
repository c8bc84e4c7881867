-- ===== src/Http/Chunk/Read.antt =====
-- What `ReadBodyPart` (haarp/httphandler.cpp) makes of a chunk.
use haarpcache.Base.{
  ℕ, suc, ◌+◌, ◌≤◌, ◌<◌, ◌≡◌, refl, subst, sym, ap, ◌∙◌, ltb, leb, Bool, true, false, pos, List, [],
  ◌∷◌, ◌++◌, some, arith, length, length-append, take, drop, take_front, drop_exact,
}
use haarpcache.Text.{Bytes}
use haarpcache.Socket.{Arrival, Socket, socket, received, recv}
use haarpcache.Socket.Stream.{stream, incoming, recv_length-IsRead}
use haarpcache.Socket.Peek.{weight}
use haarpcache.Http.Chunk.{Part, crlf, read_size, read_data, read_body_part}
use haarpcache.Http.Chunk.Line.{IsExtension, size_line, line_shown, end_shown}

-- `ReadBodyPart` returns the data of the chunk, and leaves what comes behind.
pub record IsChunk (chunk rest : Bytes) (p : Part) : Type 0 where
  pub count : p.count ≡ pos (length chunk)
  pub body : p.body ≡ chunk
  pub kept : stream p.rest ≡ rest

-- `Recv` shows these bytes, and they are then in the buffer in front of the arrivals.
pub record IsShown (buf : Bytes) (net : List Arrival) (s : Socket) : Type 0 where
  pub shown : recv [] false s ≡ received (pos (length buf)) buf (socket buf net)

reaches : (xs ys : Bytes) → leb (length xs) (length (xs ++ ys)) ≡ true
reaches xs ys = ground (arith, length-append xs ys)

read_data-IsChunk :
    (chunk rest more : Bytes) (net : List Arrival)
    → 0 < length chunk
    → length chunk ≤ 1048576
    → more ++ incoming net ≡ chunk ++ rest
    → IsChunk chunk rest (read_data (some (length chunk), socket more net))
unfolding read_data stream
read_data-IsChunk [] rest more net low high e = absurd (omega arith)
read_data-IsChunk (c ∷ cs) rest more net low high e =
    let read = recv_length-IsRead [] (length (c ∷ cs)) (socket more net) in
    let small : ltb 1048576 (suc (length cs)) ≡ false = ground arith in
    let ok = read.enough ∙ ap (λ k. leb (length (c ∷ cs)) (length k)) e ∙ reaches (c ∷ cs) rest in
    rw (small, ok)
      (record {
        count = refl;
        body = read.text ok ∙ ap (take (length (c ∷ cs))) e ∙ take_front (c ∷ cs) rest;
        kept = read.kept ok ∙ ap (drop (length (c ∷ cs))) e ∙ drop_exact (c ∷ cs) rest;
      })

-- The end of the chunk before, if it is still there.
abbrev pub lead : Bool → Bytes
lead true = crlf
lead false = []

read_size_shown :
    (before : Bool) (n : ℕ) (ext more : Bytes) (net : List Arrival) (s : Socket)
    → IsExtension ext
    → n ≤ 1048576
    → IsShown (lead before ++ (size_line n ext ++ (crlf ++ more))) net s
    → read_size (258 + weight s) [] 0 s ≡ (some n, socket more net)
read_size_shown false n ext more net s x h shown =
    ap (λ f. read_size f [] 0 s) rounds
    ∙ line_shown n ext more net x (257 + weight s) s h shown.shown
  where
    rounds : 258 + weight s ≡ suc (257 + weight s)
    rounds = omega arith
read_size_shown true n ext more net s x h shown =
    ap (λ f. read_size f [] 0 s) rounds
    ∙ end_shown n ext more net x (256 + weight s) s h shown.shown
  where
    rounds : 258 + weight s ≡ suc (suc (256 + weight s))
    rounds = omega arith

pub read_body_part-IsChunk :
    (before : Bool) (chunk rest ext more : Bytes) (net : List Arrival) (s : Socket)
    → IsExtension ext
    → 0 < length chunk
    → length chunk ≤ 1048576
    → IsShown (lead before ++ (size_line (length chunk) ext ++ (crlf ++ more))) net s
    → more ++ incoming net ≡ chunk ++ rest
    → IsChunk chunk rest (read_body_part true s)
unfolding read_body_part
read_body_part-IsChunk before chunk rest ext more net s x low high h e =
    subst (λ r. IsChunk chunk rest (read_data r))
      (sym (read_size_shown before (length chunk) ext more net s x high h))
      (read_data-IsChunk chunk rest more net low high e)
