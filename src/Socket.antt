-- ===== src/Socket.antt =====
-- The receiving side of `SocketHandler` (haarp/sockethandler.cpp): a buffer of bytes received and
-- not yet used, in front of what the network delivers. The network is a list of arrivals, one for
-- each wait (`select_eintr`) with its `::recv`; when they run out, the wait times out.
pub mod Peek
pub mod Send
pub mod Stream
use haarpcache.Base.{
  ℕ, ◌+◌, ◌-◌, ◌≤◌, ltb, leb, if◌then◌else◌, Bool, true, false, ℤ, pos, negsuc, List, [], ◌∷◌, ◌++◌,
  Option, none, some, length, take, drop,
}
use haarpcache.Text.{Bytes, is_empty}

-- What a wait ends with: the bytes that `::recv` copies, none of them at the end of the stream;
-- EINTR, after which the source calls it again; or a time-out or another error.
pub data Arrival : Type 0 where
  arrived : Bytes → Arrival
  interrupted : Arrival
  failed : Arrival

-- `RecvBuf`, and what the network delivers.
pub record Socket : Type 0 where
  pub recv_buf : Bytes
  pub arrivals : List Arrival

abbrev pub socket : Bytes → List Arrival → Socket
socket buf net = record { recv_buf = buf; arrivals = net }

-- `::recv`, called again after EINTR: `none` where the source returns -1.
unfoldable pub arrive : List Arrival → Option Bytes × List Arrival
arrive [] = (none, [])
arrive (interrupted ∷ net) = arrive net
arrive (failed ∷ net) = (none, net)
arrive (arrived b ∷ net) = (some b, net)

-- What `Recv` returns, with the string that it appends to and the socket afterwards.
pub record Received : Type 0 where
  pub count : ℤ
  pub sock_in : Bytes
  pub rest : Socket

abbrev pub received : ℤ → Bytes → Socket → Received
received n s r = record { count = n; sock_in = s; rest = r }

unfoldable pub recv_arrived : Bytes → Bool → Option Bytes × List Arrival → Received
recv_arrived sock_in sock_del (none, net) = received (negsuc 0) sock_in (socket [] net)
recv_arrived sock_in sock_del (some b, net) =
    received (pos (length b)) (sock_in ++ b) (socket (if sock_del then [] else b) net)

-- `Recv`: with `sock_del` false the bytes stay in the buffer.
unfoldable pub recv : Bytes → Bool → Socket → Received
unfolding recv_arrived
recv sock_in sock_del s =
    if is_empty s.recv_buf
    then recv_arrived sock_in sock_del (arrive s.arrivals)
    else received (pos (length s.recv_buf)) (sock_in ++ s.recv_buf)
        (socket (if sock_del then [] else s.recv_buf) s.arrivals)

-- What `RecvLength` returns, with the string that it appends to and the socket afterwards.
pub record Taken : Type 0 where
  pub ok : Bool
  pub sock_in : Bytes
  pub rest : Socket

abbrev pub taken : Bool → Bytes → Socket → Taken
taken b s r = record { ok = b; sock_in = s; rest = r }

-- The loop of `RecvLength`, which has `n_received` bytes of `sock_length`.
unfoldable pub recv_more : Bytes → ℕ → ℕ → List Arrival → Taken
recv_more sock_in n_received sock_length [] = taken false sock_in (socket [] [])
recv_more sock_in n_received sock_length (interrupted ∷ net) =
    recv_more sock_in n_received sock_length net
recv_more sock_in n_received sock_length (failed ∷ net) = taken false sock_in (socket [] net)
recv_more sock_in n_received sock_length (arrived b ∷ net) =
    let later = recv_more (sock_in ++ b) (n_received + length b) sock_length net in
    if is_empty b
    then taken false sock_in (socket [] net)
    else if leb sock_length (n_received + length b)
    then taken true (sock_in ++ take (sock_length - n_received) b)
        (socket (drop (sock_length - n_received) b) net)
    else later

-- `RecvLength`.
unfoldable pub recv_length : Bytes → ℕ → Socket → Taken
unfolding recv_more
recv_length sock_in sock_length s =
    if leb sock_length (length s.recv_buf)
    then taken true (sock_in ++ take sock_length s.recv_buf)
        (socket (drop sock_length s.recv_buf) s.arrivals)
    else recv_more (sock_in ++ s.recv_buf) (length s.recv_buf) sock_length s.arrivals
