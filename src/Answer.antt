-- ===== src/Answer.antt =====
-- What the cache engine asks the server for and learns from its answer: `isForCache`,
-- `saveClientIP`, `UpdateFileSizeinPartial` and `getHeaderFromServer` of haarp/connectiontohttp2.cpp.
pub mod Size
pub mod Length
pub mod Content
pub mod Whole
use haarpcache.Base.{
  ℤ, pos, negsuc, ◌-ℤ◌, leb_ℤ, if◌then◌else◌, Bool, true, false, not, ◌&&◌, ◌||◌, List, [], ◌∷◌,
  ◌++◌, Option, none, some,
}
use haarpcache.Text.{Bytes, codes, find, found, is_prefix}
use haarpcache.Text.Explode.{stringexplode}
use haarpcache.Text.Number.{atoll}
use haarpcache.Intervals.{one}
use haarpcache.Plan.{Plan}
use haarpcache.Socket.{Socket}
use haarpcache.Socket.Send.{Turn}
use haarpcache.Http.Header.{Header, read_header}
use haarpcache.Http.Lines.{send_header}

-- A status line without "200" and "206" in it.
unfoldable pub is_refusal : Bytes → Bool
unfolding is_prefix find
is_refusal line =
    is_prefix (codes "HTTP") line
    && not (found (find (codes "200") line))
    && not (found (find (codes "206") line))

unfoldable pub any_refusal : List Bytes → Bool
unfolding is_refusal
any_refusal [] = false
any_refusal (line ∷ lines) = is_refusal line || any_refusal lines

-- `isForCache`.
unfoldable pub is_for_cache : Bytes → Bool
unfolding any_refusal stringexplode
is_for_cache header = not (any_refusal (stringexplode header (codes "\r\n") []))

-- The last one; `none` is the exception of `at`.
abbrev pub last_of : List Bytes → Option Bytes
last_of [] = none
last_of (x ∷ []) = some x
last_of (x ∷ y ∷ ys) = last_of (y ∷ ys)

-- `saveClientIP`: the value of `ip_browser`.
unfoldable pub save_client_ip : Bytes → Option Bytes
unfolding stringexplode
save_client_ip ip = last_of (stringexplode ip (codes " ") [])

abbrev pub content_range : Bytes
content_range = codes "Content-Range: bytes"

-- The second part of a line; `go_on` is what the lines behind it give.
abbrev pub size_or : Option ℤ → List Bytes → Option ℤ
size_or go_on [] = go_on
size_or go_on (x ∷ []) = go_on
size_or go_on (x ∷ y ∷ parts) = some (atoll y)

-- The rounds for the lines behind the first; no line empties `value`.
unfoldable pub size_loop : List Bytes → List Bytes → Option ℤ
unfolding is_prefix stringexplode atoll
size_loop value [] = none
size_loop value (line ∷ lines) =
    let value' =
      if is_prefix content_range line then stringexplode line (codes "/") value else value in
    let rest = size_loop value' lines in
    if is_prefix content_range line then size_or rest value' else rest

-- The size is kept, and sent to the data base.
abbrev pub set_size : Option ℤ → Plan → Plan
set_size none s = s
set_size (some n) s = record s { size_orig_file = n; sizes = s.sizes ++ (n ∷ []) }

-- `UpdateFileSizeinPartial`; a header without lines makes `at(1)` throw.
unfoldable pub update_file_size_in_partial : Bytes → Plan → Option Plan
unfolding size_loop stringexplode
update_file_size_in_partial header s = elim (stringexplode header (codes "\r\n") []) [
  | [] ↦ none
  | first ∷ lines ↦ some (set_size (size_loop [] lines) s)
]

-- The end of the range, where it is not known, from the size of the file.
abbrev pub end_of_file : Plan → Plan
end_of_file s =
    if leb_ℤ s.range_max (pos 0) then record s { range_max = s.size_orig_file -ℤ one } else s

-- `ReadHeader` for a file of unknown size, behind the answer to a request of a range.
unfoldable pub learn_partial : Bytes → Plan → Option Plan
unfolding update_file_size_in_partial
learn_partial header s = elim (update_file_size_in_partial header s) [
  | none ↦ none
  | some s' ↦ some (end_of_file s')
]

-- What `getHeaderFromServer` returns and sets, what was sent, and the socket behind the header.
pub record Fetched : Type 0 where
  pub header : Bytes
  pub errcode : ℤ
  pub header_reader : Bool
  pub wire : Bytes
  pub rest : Socket

abbrev pub failed : ℤ → Bytes → Socket → Fetched
failed e wire rest = record {
  header = [];
  errcode = e;
  header_reader = false;
  wire = wire;
  rest = rest;
}

-- What follows a header that was sent.
abbrev pub fetched : Bytes → Header → Fetched
fetched wire h =
    if h.ok
    then record {
      header = h.header;
      errcode = pos 0;
      header_reader = true;
      wire = wire;
      rest = h.rest;
    }
    else failed (negsuc 3) wire h.rest

-- `getHeaderFromServer`, for a connection that has no header yet. Whether the host is found and
-- answers is what `SetDomainAndPort` and `ConnectToServer` return.
unfoldable pub get_header_from_server :
    Bool → Bool → Bool → Bool → Bytes → List Turn → Socket → Fetched
unfolding send_header read_header
get_header_from_server named connected proxy_connection browserclosed header_browser net server =
    let s = send_header true proxy_connection browserclosed (pos 0) header_browser net in
    if not named
    then failed (negsuc 0) [] server
    else if not connected
    then failed (negsuc 1) [] server
    else if not s.ok
    then failed (negsuc 2) s.wire server
    else fetched s.wire (read_header server)
