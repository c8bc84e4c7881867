-- ===== src/Http/Chunk.antt =====
-- `HTTPHandler::ReadBodyPart` (haarp/httphandler.cpp): the next part of a body, which is what the
-- socket has, or one chunk of a body in chunks.
pub mod Round
pub mod Enough
pub mod Line
pub mod Bounds
pub mod Read
use haarpcache.Base.{
  ℕ, zero, suc, ◌+◌, ltb, if◌then◌else◌, Bool, true, false, ◌||◌, ℤ, pos, negsuc, pos_part, [], ◌∷◌,
  ltb_ℤ, List, Option, none, some, length, take,
}
use haarpcache.Text.{Bytes, find, find_first_not_of, find_if, contains, upper_case}
use haarpcache.Socket.{Socket, Received, Taken, recv, recv_length}
use haarpcache.Socket.Peek.{weight}
use haarpcache.Http.Hex.{hex_set, scan_hex}

-- What `ReadBodyPart` returns, with `bodyT` and the socket afterwards.
pub record Part : Type 0 where
  pub count : ℤ
  pub body : Bytes
  pub rest : Socket

abbrev pub part : ℤ → Bytes → Socket → Part
part n b s = record { count = n; body = b; rest = s }

abbrev pub crlf : Bytes
crlf = b'\r' ∷ b'\n' ∷ []

-- `Chunked == false`.
unfoldable pub read_plain : Socket → Part
unfolding recv
read_plain s =
    let r = recv [] true s in
    if ltb_ℤ r.count (pos 0)
    then part (negsuc 0) r.sock_in r.rest
    else part r.count r.sock_in r.rest

-- The size in front of a line, at most seven digits long; the line is then taken from the socket.
unfoldable pub chunk_size : Bytes → ℕ → Socket → Option ℕ × Socket
unfolding upper_case scan_hex recv_length find_if contains
chunk_size temp position s = elim (find_first_not_of hex_set (upper_case temp)) [
  | none ↦ (none, s)
  | some hpos ↦ if ltb hpos 1 || ltb 7 hpos then (none, s) else (
    some (scan_hex 0 (take hpos (upper_case temp))),
    (recv_length temp (position + 2) s).rest,
  )
]

-- One round of the loop that reads the line, `again` being the rounds after it. `Recv` appended what
-- the socket has to `Temp` and left it there.
unfoldable pub size_round :
    (Bytes → ℕ → Socket → Option ℕ × Socket) → ℕ → Received → Option ℕ × Socket
unfolding find chunk_size recv_length
size_round again n_received r =
    if ltb_ℤ r.count (pos 1) then (none, r.rest) else elim (find crlf r.sock_in) [
      | some zero ↦ again [] n_received (recv_length r.sock_in 2 r.rest).rest
      | some (suc i) ↦ chunk_size r.sock_in (suc i) r.rest
      | none ↦
          if ltb 256 (n_received + pos_part r.count)
          then (none, r.rest)
          else again r.sock_in (n_received + pos_part r.count) r.rest
    ]

-- The loop, for as many rounds as there is fuel; `run_out` is what stands for the rounds behind them.
unfoldable pub size_rounds :
    (Bytes → ℕ → Socket → Option ℕ × Socket) → ℕ → Bytes → ℕ → Socket → Option ℕ × Socket
unfolding recv size_round
size_rounds run_out zero temp n_received s = run_out temp n_received s
size_rounds run_out (suc fuel) temp n_received s =
    size_round (size_rounds run_out fuel) n_received (recv temp false s)

abbrev pub no_size : Bytes → ℕ → Socket → Option ℕ × Socket
no_size temp n_received s = (none, s)

unfoldable pub read_size : ℕ → Bytes → ℕ → Socket → Option ℕ × Socket
unfolding size_rounds
read_size = size_rounds no_size

-- The data of a chunk.
unfoldable pub read_data : Option ℕ × Socket → Part
unfolding recv_length
read_data (none, s) = part (negsuc 0) [] s
read_data (some zero, s) = part (pos 0) [] s
read_data (some (suc n), s) =
    let t = recv_length [] (suc n) s in
    if ltb 1048576 (suc n)
    then part (negsuc 0) [] s
    else if t.ok
    then part (pos (suc n)) t.sock_in t.rest
    else part (negsuc 0) t.sock_in t.rest

-- `ReadBodyPart`. Every round of the loop adds to what was received, of which 257 bytes are too
-- many, or takes from the socket: the fuel is enough.
unfoldable pub read_body_part : Bool → Socket → Part
unfolding read_plain read_size read_data weight
read_body_part false s = read_plain s
read_body_part true s = read_data (read_size (258 + weight s) [] 0 s)
