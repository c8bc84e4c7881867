-- ===== src/Browser.antt =====
-- `ConnectionToBrowser` (haarp/connectiontobrowser.cpp), the connection to the browser: the analysis
-- of a request, and the header that is prepared for the server.
pub mod Target
pub mod Header
pub mod Port
pub mod Place
pub mod Proxied
use haarpcache.Base.{
  ℕ, zero, suc, ◌+◌, ◌-◌, ltb, ◌==◌, if◌then◌else◌, Bool, true, false, ◌||◌, ◌&&◌, ℤ, pos, negsuc,
  List, [], ◌∷◌, ◌++◌, Option, none, some, length, take, drop,
}
use haarpcache.Text.{
  Bytes, codes, contains, equal, find, find_if, find_first_not_of, found, is_empty, is_prefix,
  upper_case,
}
use haarpcache.Text.Number.{scan}
use haarpcache.Text.Match.{match_begin, match_substr}
use haarpcache.Http.Lines.{Analyser, Analysed, analysed}

-- What the connection knows of the request.
pub record Client : Type 0 where
  pub request : Bytes
  pub host : Bytes
  pub port : ℤ
  pub ip : Bytes
  pub complete_request : Bytes
  pub request_type : Bytes
  pub request_protocol : Bytes
  pub ftp_user : Bytes
  pub ftp_pass : Bytes
  pub user_agent : Bytes
  pub content_length : ℤ
  pub is_keep_alive : Bool
  pub is_stream_agent : Bool
  pub proxy_connection : Bool

-- What the constructor and the parameters fix: the methods, the agents of streams in upper case, and
-- the options TRANSPARENT, FORWARDED_IP and X_FORWARDED_FOR, and whether it is built with SSLTUNNEL.
pub record Setup : Type 0 where
  pub methods : List Bytes
  pub stream_ua : List Bytes
  pub transparent : Bool
  pub forwarded_ip : Bool
  pub x_forwarded_for : Bool
  pub ssl_tunnel : Bool

-- `ClearVars`.
pub clear_vars : Client → Client
clear_vars c = record {
  request = [];
  host = [];
  port = negsuc 0;
  ip = [];
  complete_request = [];
  request_type = [];
  request_protocol = [];
  ftp_user = [];
  ftp_pass = [];
  user_agent = [];
  content_length = negsuc 0;
  is_keep_alive = false;
  is_stream_agent = false;
  proxy_connection = false;
}

-- `RewriteUrl`, with the position as a number: `npos` is -1 in an `int`.
unfoldable pub rewrite_url : Bytes → Client → Client
unfolding find
rewrite_url url c = if is_empty url then c else elim (find (b'/' ∷ []) url) [
  | some (suc i) ↦ record c { host = take (suc i) url; request = drop (suc i) url }
  | some zero ↦ record c { host = url; request = codes "/" }
  | none ↦ record c { host = url; request = codes "/" }
]

-- `IsKeepAlive` is set by what stands behind the name of a connection line.
unfoldable pub keep_alive_line : Bytes → ℕ → Client → Client
unfolding match_substr
keep_alive_line u i c = record c { is_keep_alive = match_substr u (codes "KEEP-ALIVE") i }

-- The loop over `StreamUA`.
unfoldable pub stream_agent : List Bytes → Bytes → Bool → Bool
unfolding find
stream_agent [] agent b = b
stream_agent (ua ∷ uas) agent b = stream_agent uas agent (if found (find ua agent) then true else b)
