-- ===== src/Browser/Target.antt =====
-- The request line (haarp/connectiontobrowser.cpp): `AnalyseFirstHeaderLine` and
-- `GetHostAndPortOfRequest`.
use haarpcache.Base.{
  ℕ, ◌+◌, ◌-◌, ltb, ◌==◌, if◌then◌else◌, Bool, true, false, ◌||◌, ◌&&◌, pos, negsuc, ltb_ℤ, List,
  [], ◌∷◌, ◌++◌, Option, none, some, length, take, drop,
}
use haarpcache.Text.{
  Bytes, codes, contains, equal, find, find_if, find_last_if, find_first_not_of, found, is_empty,
  is_prefix, upper_case,
}
use haarpcache.Text.Number.{scan}
use haarpcache.Http.Lines.{Analysed, analysed}
use haarpcache.Browser.{Client, Setup}

-- `find` from a place on.
unfoldable pub find_from : Bytes → Bytes → ℕ → Option ℕ
unfolding find
find_from part s i = elim (find part (drop i s)) [ none ↦ none | some j ↦ some (i + j) ]

-- `find( part, i ) == i`.
unfoldable pub starts_at : Bytes → Bytes → ℕ → Bool
unfolding find_from
starts_at part s i = elim (find_from part s i) [ none ↦ false | some j ↦ j == i ]

-- `rfind` of one byte.
unfoldable pub rfind : ℕ → Bytes → Option ℕ
unfolding find_last_if
rfind c = find_last_if (λ x. x == c)

-- "HTTP/1.1" behind the target: the connection is kept by default.
unfoldable pub default_keep_alive : Bytes → ℕ → Client → Client
unfolding find_from
default_keep_alive u last c =
    if found (find_from (codes "HTTP/1.1") u (last + 1))
    then record c { is_keep_alive = true }
    else c

-- The port of "host:port", checked; the text begins with the colon.
unfoldable pub set_port : Bytes → Client → Bool × Client
unfolding scan
set_port port_string c =
    if ltb 6 (length port_string) then (false, c) else elim (scan (drop 1 port_string)) [
      | none ↦ (false, c)
      | some p ↦
          if ltb_ℤ p (pos 1) || ltb_ℤ (pos 65535) p
          then (false, record c { port = p })
          else (true, record c { port = p })
    ]

-- The end of `GetHostAndPortOfRequest`: the host is not too long.
unfoldable pub check_host : Bytes → Client → Analysed Client
check_host t c = if ltb 256 (length c.host) then analysed (negsuc 209) t c else analysed (pos 0) t c

-- The port and the host.
unfoldable pub set_host : Bytes → Bytes → Client → Analysed Client
unfolding set_port check_host rfind equal
set_host t domain c = elim (rfind b':' domain) [
  | some i ↦
      let p = set_port (drop i domain) c in
      if p.0
      then check_host t (record (p.1) { host = take i domain })
      else analysed (negsuc 211) t p.1
  | none ↦
      if equal c.request_protocol (codes "http")
      then check_host t (record c { port = pos 80; host = domain })
      else if equal c.request_protocol (codes "ftp")
      then check_host t (record c { port = pos 21; host = domain })
      else analysed (negsuc 214) t c
]

-- The user and the password of an FTP request.
unfoldable pub set_login : Bytes → Client → Client
unfolding find equal
set_login user_pass c =
    if equal c.request_protocol (codes "ftp")
    then elim (find (b':' ∷ []) user_pass) [
      | some i ↦ record c { ftp_user = take i user_pass; ftp_pass = drop (i + 1) user_pass }
      | none ↦ record c { ftp_user = user_pass; ftp_pass = [] }
    ]
    else c

-- The login, which is cut out of the line that begins the domain at `start`.
unfoldable pub strip_login : Bytes → ℕ → Bytes → Client → Analysed Client
unfolding set_login set_host rfind
strip_login t start domain c = elim (rfind b'@' domain) [
  | none ↦ set_host t domain c
  | some i ↦
      let t' = take start t ++ drop (start + (i + 1)) t in
      let domain' = drop (i + 1) domain in
      if is_empty domain'
      then analysed (negsuc 200) t' (set_login (take i domain) c)
      else set_host t' domain' (set_login (take i domain) c)
]

-- The domain and the path.
unfoldable pub split_domain : Bytes → ℕ → Bytes → Client → Analysed Client
unfolding strip_login find
split_domain t start domain c = elim (find (b'/' ∷ []) domain) [
  | some i ↦ strip_login t start (take i domain) (record c { request = drop i domain })
  | none ↦ strip_login t start domain (record c { request = codes "/" })
]

-- What stands behind the protocol, from `start` on.
unfoldable pub parse_target : Bytes → Bytes → ℕ → Client → Analysed Client
unfolding find_from default_keep_alive split_domain
parse_target t u start c = elim (find_from (b' ' ∷ []) t start) [
  | none ↦ analysed (negsuc 200) t c
  | some last ↦
      if last == start || ltb 4096 last
      then analysed (negsuc 200) t c
      else split_domain t start (take (last - start) (drop start t)) (default_keep_alive u last c)
]

-- A request to another server, by its protocol.
unfoldable pub proxied_request : Bytes → ℕ → Client → Analysed Client
unfolding starts_at parse_target upper_case
proxied_request t start c =
    let u = upper_case t in
    if starts_at (codes "HTTP://") u start
    then parse_target t u (start + 7) (record c { request_protocol = codes "http" })
    else if starts_at (codes "FTP://") u start
    then parse_target t u (start + 6) (record c { request_protocol = codes "ftp" })
    else analysed (negsuc 200) t c

-- A request of which only the path is given.
unfoldable pub transparent_request : Bytes → ℕ → Client → Analysed Client
unfolding starts_at find_from default_keep_alive upper_case
transparent_request t start c =
    if starts_at (b'/' ∷ []) t start
    then elim (find_from (b' ' ∷ []) t start) [
      | none ↦ analysed (negsuc 200) t c
      | some last ↦
          if ltb 4096 last
          then analysed (negsuc 200) t c
          else analysed (pos 0) t (record (default_keep_alive (upper_case t) last c) {
            request_protocol = codes "http";
            request = take (last - start) (drop start t);
          })
    ]
    else analysed (negsuc 200) t c

-- The host and the port of a tunnel.
unfoldable pub tunnel_to : Bytes → Bytes → Client → Analysed Client
unfolding find_from scan
tunnel_to t target c = elim (find_from (b':' ∷ []) target 1) [
  | none ↦ analysed (negsuc 200) t c
  | some i ↦
      let named = record c { host = take i target } in
      if ltb 256 (length (take i target))
      then analysed (negsuc 209) t named
      else elim (scan (drop (i + 1) target)) [
        | none ↦ analysed (negsuc 200) t named
        | some p ↦
            if ltb_ℤ p (pos 80) || ltb_ℤ (pos 65535) p
            then analysed (negsuc 210) t (record named { port = p; request = target })
            else analysed (pos 0) t (record named { port = p; request = target })
      ]
]

-- "CONNECT", with SSLTUNNEL.
unfoldable pub connect_request : Bytes → Client → Analysed Client
unfolding find_if contains find_from tunnel_to
connect_request t c =
    let named = record c { request_protocol = codes "connect" } in
    elim (find_first_not_of (b' ' ∷ []) (drop 8 t)) [
      | none ↦ analysed (negsuc 200) t named
      | some i ↦ elim (find_from (b' ' ∷ []) t (8 + i)) [
        | none ↦ analysed (negsuc 200) t named
        | some last ↦ tunnel_to t (take (last - (8 + i)) (drop (8 + i) t)) named
      ]
    ]

-- `GetHostAndPortOfRequest`.
unfoldable pub get_host_and_port_of_request : Setup → Bytes → ℕ → Client → Analysed Client
unfolding equal connect_request transparent_request proxied_request
get_host_and_port_of_request o t start c =
    if o.ssl_tunnel && equal c.request_type (codes "CONNECT")
    then connect_request t c
    else if o.transparent
    then transparent_request t start c
    else proxied_request t start c

-- The loop over the methods.
unfoldable pub first_of_methods : Setup → List Bytes → Bytes → Client → Analysed Client
unfolding is_prefix upper_case get_host_and_port_of_request
first_of_methods o [] t c = analysed (negsuc 201) t c
first_of_methods o (m ∷ ms) t c =
    let other = first_of_methods o ms t c in
    if is_prefix (m ++ (b' ' ∷ [])) (upper_case t)
    then get_host_and_port_of_request o t (length m + 1) (record c { request_type = m })
    else other

-- `AnalyseFirstHeaderLine`.
unfoldable pub analyse_request_line : Setup → Bytes → Client → Analysed Client
unfolding first_of_methods
analyse_request_line o t c = first_of_methods o o.methods t c
