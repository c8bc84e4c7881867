-- ===== src/Http/Header.antt =====
-- `HTTPHandler::ReadHeader` (haarp/httphandler.cpp): a header is read up to its empty line, from a
-- socket that is peeked into until the line is there.
pub mod Net
pub mod Loop
pub mod Skip
pub mod Cut
use haarpcache.Base.{
  ℕ, zero, suc, ◌+◌, ◌-◌, ◌%◌, ◌^◌, ltb, ◌==◌, if◌then◌else◌, Bool, true, false, ◌&&◌, ℤ, pos,
  pos_part, [], ◌∷◌, ◌++◌, ltb_ℤ, eqb_ℤ, Option, none, some, length, drop,
}
use haarpcache.Text.{Bytes, is_empty, find, find_if, find_last_if, find_first_not_of, contains}
use haarpcache.Socket.{Socket, Received, Taken, recv, recv_length}
use haarpcache.Socket.Peek.{weight}

-- What `ReadHeader` returns, with `headerT` and the socket afterwards.
pub record Header : Type 0 where
  pub ok : Bool
  pub header : Bytes
  pub rest : Socket

abbrev pub header : Bool → Bytes → Socket → Header
header b h s = record { ok = b; header = h; rest = s }

abbrev pub max_header_length : ℕ
max_header_length = 65536

abbrev pub white : Bytes
white = b'\r' ∷ b'\n' ∷ b'\t' ∷ b' ' ∷ []

-- "\r\n\r\n" and "\n\n".
abbrev pub empty_line : Bytes
empty_line = b'\r' ∷ b'\n' ∷ b'\r' ∷ b'\n' ∷ []

abbrev pub bare_empty_line : Bytes
bare_empty_line = b'\n' ∷ b'\n' ∷ []

-- `headerT.find_last_of( "\r\n" ) == headerT.size() - 1`, where `npos` is one less than 0.
unfoldable pub ends_line : Bytes → Bool
unfolding find_last_if contains
ends_line h = elim (find_last_if (contains (b'\r' ∷ b'\n' ∷ [])) h) [
  | none ↦ is_empty h
  | some i ↦ suc i == length h
]

-- The last part of the header: the number of bytes to read is an `unsigned int`.
unfoldable pub read_last : Bool → ℕ → ℕ → Bytes → Bytes → Socket → Header
unfolding recv_length
read_last wrong_header position poscount header_t tempheader s =
    let t = recv_length header_t ((position + 2 + 2 ^ 32 - poscount) % 2 ^ 32) s in
    let u = recv_length tempheader 2 t.rest in
    if t.ok
    then if wrong_header then header true t.sock_in t.rest else header u.ok t.sock_in u.rest
    else header false t.sock_in t.rest

-- What is done when the header does not go on.
unfoldable pub not_received : Bytes → Received → Header
unfolding ends_line
not_received header_t r =
    if eqb_ℤ r.count (pos 0) && ends_line header_t
    then header true header_t r.rest
    else header false header_t r.rest

-- The end of a round that has not found the empty line, `more` being the rounds after it: the bytes
-- that were shown are taken, and more are looked at.
unfoldable pub read_on :
    (Bytes → Bytes → ℕ → ℕ → ℕ → Socket → Header) → Bytes → ℕ → ℕ → ℕ → Taken → Header
unfolding recv not_received
read_on more tempheader n poscount n_received t =
    let r = recv tempheader false t.rest in
    if t.ok
    then if ltb max_header_length (n_received + n)
      then header false t.sock_in t.rest
      else if ltb_ℤ r.count (pos 1)
      then not_received t.sock_in r
      else more t.sock_in r.sock_in (pos_part r.count) (poscount + n) (n_received + n) r.rest
    else header false t.sock_in t.rest

-- The loop over `headerT`, `tempheader`, `read`, `poscount` and `received`.
unfoldable pub header_loop : ℕ → Bytes → Bytes → ℕ → ℕ → ℕ → Socket → Header
unfolding find read_last read_on recv_length
header_loop zero header_t tempheader n poscount n_received s = header false header_t s
header_loop (suc fuel) header_t tempheader n poscount n_received s =
    elim (find empty_line tempheader) [
      | some position ↦ read_last false position poscount header_t tempheader s
      | none ↦ elim (find bare_empty_line tempheader) [
        | some position ↦ read_last true position poscount header_t tempheader s
        | none ↦
            read_on (header_loop fuel) tempheader n poscount n_received (recv_length header_t n s)
      ]
    ]

-- The first bytes of a header that were shown, with what was received, and the socket.
pub record Start : Type 0 where
  pub tempheader : Bytes
  pub n_received : ℕ
  pub rest : Socket

abbrev pub start : Bytes → ℕ → Socket → Start
start t n s = record { tempheader = t; n_received = n; rest = s }

-- One round of the loop that skips white space, `more` being the rounds after it.
unfoldable pub skip_round : (ℕ → Socket → Option Start) → ℕ → Received → Option Start
unfolding find_if contains recv_length
skip_round more n_received r =
    if ltb_ℤ r.count (pos 1) then none else elim (find_first_not_of white r.sock_in) [
      | some zero ↦ some (start r.sock_in (n_received + pos_part r.count) r.rest)
      | some (suc i) ↦ some (
          start (drop (suc i) r.sock_in) (n_received + pos_part r.count)
            (recv_length [] (suc i) r.rest).rest)
      | none ↦
          if ltb max_header_length (n_received + pos_part r.count)
          then none
          else more (n_received + pos_part r.count)
              (recv_length r.sock_in (pos_part r.count) r.rest).rest
    ]

unfoldable pub skip_white : ℕ → ℕ → Socket → Option Start
unfolding recv skip_round
skip_white zero n_received s = none
skip_white (suc fuel) n_received s = skip_round (skip_white fuel) n_received (recv [] false s)

-- `ReadHeader`, from the start that was found.
unfoldable pub read_from : Socket → Option Start → Header
unfolding header_loop weight
read_from s none = header false [] s
read_from s (some b) =
    header_loop (suc (weight b.rest)) [] b.tempheader (length b.tempheader) 0 b.n_received b.rest

-- `ReadHeader`. Every round of its loops takes bytes from the socket: the fuel is enough.
unfoldable pub read_header : Socket → Header
unfolding skip_white read_from weight
read_header s = read_from s (skip_white (suc (weight s)) 0 s)
