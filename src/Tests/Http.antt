-- ===== src/Tests/Http.antt =====
-- Runs of the socket and of the message handler (haarp/sockethandler.cpp, haarp/httphandler.cpp),
-- and instances of the theorems about them.
use haarpcache.Base.{some, pos, ◌≡◌, refl, true, false, negsuc, [], ◌∷◌, ◌++◌, arith}
use haarpcache.Text.{Bytes, codes, find, contains}
use haarpcache.Socket.{arrived, interrupted, arrive, Socket, socket, recv, recv_length}
use haarpcache.Socket.Stream.{stream, incoming, IsRead, recv_length-IsRead}
use haarpcache.Socket.Peek.{weight}
use haarpcache.Socket.Send.{accepted, again, not_ready, send, IsSent, send-IsSent}
use haarpcache.Http.Hex.{print_hex}
use haarpcache.Http.Chunk.{crlf, size_rounds, read_data, read_body_part}
use haarpcache.Http.Chunk.Line.{extension, size_line}
use haarpcache.Http.Chunk.Read.{IsChunk, read_body_part-IsChunk}
use haarpcache.Http.Chunk.Bounds.{
  IsBounded, read_body_part-IsBounded, read_body_part_enough, read_body_part_split,
}
use haarpcache.Http.Header.{read_header}
use haarpcache.Http.Header.Loop.{IsHeader}
use haarpcache.Http.Header.Skip.{read_header-IsHeader}
use haarpcache.Http.Header.Cut.{read_header-cut, cut_piece}

-- A chunk of 11 bytes, behind the end of another, in two pieces.
abbrev two_pieces : Socket
two_pieces =
    socket (crlf ++ codes "B;x=1" ++ crlf ++ codes "hel")
      (interrupted ∷ (arrived (codes "lo world" ++ crlf) ∷ []))

test_chunk : (read_body_part true two_pieces).body ≡ codes "hello world"
unfolding read_body_part
test_chunk = refl

test_send :
    send true (pos 0) (codes "abcdef") (accepted 2 ∷ (again ∷ (accepted 4 ∷ [])))
    ≡ record { ok = true; num_false = pos 0; wire = codes "abcdef" }
unfolding send
test_send = refl

-- A request behind an empty line, in three pieces.
abbrev head_text : Bytes
head_text = codes "GET / HTTP/1.0" ++ crlf ++ codes "Host: x"

abbrev three_pieces : Socket
three_pieces = socket [] (
    arrived (crlf ++ codes "GET / HT")
    ∷ (arrived (codes "TP/1.0" ++ crlf ++ codes "Host: x" ++ crlf)
        ∷ (arrived (crlf ++ codes "body") ∷ [])))

test_header : (read_header three_pieces).header ≡ head_text ++ crlf
unfolding read_header arrive
test_header = refl

recv_length-IsRead_example : IsRead [] 20 (stream two_pieces) (recv_length [] 20 two_pieces)
recv_length-IsRead_example = recv_length-IsRead [] 20 two_pieces

send-IsSent_example :
    IsSent
      (pos 7)
      (codes "abcdef")
      (send true (pos 7) (codes "abcdef") (accepted 2 ∷ (not_ready ∷ [])))
send-IsSent_example = send-IsSent true (pos 7) (codes "abcdef") (accepted 2 ∷ (not_ready ∷ []))

read_body_part-IsChunk_example : IsChunk (codes "hello world") crlf (read_body_part true two_pieces)
unfolding contains recv incoming print_hex
read_body_part-IsChunk_example =
    read_body_part-IsChunk true (codes "hello world") crlf (codes ";x=1") (codes "hel")
      (interrupted ∷ (arrived (codes "lo world" ++ crlf) ∷ []))
      (socket (crlf ++ (size_line 11 (codes ";x=1") ++ (crlf ++ codes "hel")))
        (interrupted ∷ (arrived (codes "lo world" ++ crlf) ∷ [])))
      (extension (codes "x=1") refl) (omega arith) (omega arith) (record { shown = refl }) refl

read_body_part-IsBounded_example : IsBounded (read_body_part true two_pieces)
read_body_part-IsBounded_example = read_body_part-IsBounded two_pieces

read_body_part_enough_example :
    read_body_part true two_pieces
    ≡ read_data (size_rounds (λ temp n s. (some 1, socket [] [])) 1000 [] 0 two_pieces)
unfolding weight
read_body_part_enough_example =
    read_body_part_enough (λ temp n s. (some 1, socket [] [])) 1000 two_pieces (omega arith)

read_body_part_split_example :
    (read_body_part true (
      socket [] (arrived (codes "b") ∷ (arrived (crlf ++ codes "hello world" ++ crlf) ∷ [])))).count
    ≡ negsuc 0
unfolding contains recv arrive
read_body_part_split_example =
    read_body_part_split b'b' [] (arrived (crlf ++ codes "hello world" ++ crlf) ∷ [])
      (socket [] (arrived (codes "b") ∷ (arrived (crlf ++ codes "hello world" ++ crlf) ∷ [])))
      (record { shown = refl }) refl

read_header-IsHeader_example : IsHeader head_text (codes "body") (read_header three_pieces)
unfolding stream find contains
read_header-IsHeader_example =
    read_header-IsHeader crlf b'G' (codes "ET / HTTP/1.0" ++ crlf ++ codes "Host: x") (codes "body")
      three_pieces (refl, (refl, tt)) refl (record { first = refl; clean = refl }) refl
      (omega arith)
      (
        (λ e. omega (arith, e)),
        (λ _. (
          (λ e. omega (arith, e)),
          (λ _. ((λ e. omega (arith, e)), (λ _. ((λ e. omega (arith, e)), (λ _. tt))))),
        )),
      )

read_header-cut_example :
    (read_header (socket [] (arrived (cut_piece head_text) ∷ (arrived (codes "\nbody") ∷ [])))).ok
    ≡ false
unfolding incoming find contains recv arrive
read_header-cut_example =
    read_header-cut b'G' (codes "ET / HTTP/1.0" ++ crlf ++ codes "Host: x") (codes "body")
      (arrived (codes "\nbody") ∷ [])
      (socket [] (arrived (cut_piece head_text) ∷ (arrived (codes "\nbody") ∷ [])))
      (record { shown = refl }) refl refl refl refl (omega arith) (omega arith)
