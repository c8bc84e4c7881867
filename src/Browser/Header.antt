-- ===== src/Browser/Header.antt =====
-- The header of a request (haarp/connectiontobrowser.cpp): `AnalyseHeaderLine`,
-- `GetHostAndPortOfHostLine` and `PrepareHeaderForServer`.
use haarpcache.Base.{
  ◌+◌, ltb, if◌then◌else◌, Bool, true, not, ◌||◌, ◌&&◌, ℤ, pos, negsuc, eqb_ℤ, List, [], ◌∷◌, ◌++◌,
  none, some, length, take, drop,
}
use haarpcache.Text.{
  Bytes, codes, contains, equal, find, find_if, find_first_not_of, found, is_empty, upper_case,
}
use haarpcache.Text.Number.{scan, print}
use haarpcache.Text.Match.{match_begin, search_replace}
use haarpcache.Http.Chunk.{crlf}
use haarpcache.Http.Lines.{Analyser, Analysed, analysed}
use haarpcache.Browser.{Client, Setup, keep_alive_line, stream_agent}
use haarpcache.Browser.Target.{find_from, set_port, analyse_request_line}

abbrev digits : Bytes
digits = codes "0123456789"

-- A value that is a number of at most 18 digits, in upper case and as it was received.
unfoldable pub set_content_length : Bytes → Bytes → Client → Client
unfolding scan find_if contains
set_content_length uvalue value c =
    if found (find_first_not_of digits uvalue)
    then c
    else if ltb 18 (length value)
    then c
    else elim (scan value) [
      | none ↦ record c { content_length = negsuc 0 }
      | some n ↦ record c { content_length = n }
    ]

-- `GetHostAndPortOfHostLine`.
unfoldable pub get_host_and_port_of_host_line : Bytes → Client → Analysed Client
unfolding find_from set_port
get_host_and_port_of_host_line line c =
    let host_with_port = drop 6 line in
    elim (find_from (b':' ∷ []) host_with_port 1) [
      | none ↦ analysed (pos 0) line (record c { host = host_with_port; port = pos 80 })
      | some i ↦
          let named = record c { host = take i host_with_port } in
          let p = set_port (drop i host_with_port) named in
          if ltb 256 (length (take i host_with_port))
          then analysed (negsuc 209) line named
          else if p.0
          then analysed (pos 0) line p.1
          else analysed (negsuc 211) line p.1
    ]

-- The lines after those of the connection: "X-Forwarded-For", "User-Agent" and "Host".
unfoldable pub other_line : Setup → Bytes → Bytes → Client → Analysed Client
unfolding match_begin stream_agent get_host_and_port_of_host_line
other_line o t u c =
    if o.forwarded_ip && match_begin u (codes "X-FORWARDED-FOR: ") 17
    then analysed (pos 0) t (record c { ip = drop 17 t })
    else if match_begin u (codes "USER-AGENT: ") 12
    then analysed (pos 0) t (record c {
      user_agent = drop 12 t;
      is_stream_agent = stream_agent o.stream_ua (drop 12 u) c.is_stream_agent;
    })
    else if o.transparent && match_begin u (codes "HOST: ") 6
    then get_host_and_port_of_host_line t c
    else analysed (pos 0) t c

-- `AnalyseHeaderLine`, of a line that has a value behind a colon and a space: a connection line counts
-- until a proxy's connection line has come.
unfoldable pub analyse_request_header_line : Setup → Bytes → Client → Analysed Client
unfolding upper_case match_begin keep_alive_line set_content_length other_line
analyse_request_header_line o t c =
    let u = upper_case t in
    if match_begin u (codes "CONTENT-LENGTH: ") 15
    then analysed (pos 0) t (set_content_length (drop 16 u) (drop 16 t) c)
    else if not c.proxy_connection && match_begin u (codes "CONNECTION: ") 12
    then analysed (pos 0) t (keep_alive_line u 12 c)
    else if not c.proxy_connection && match_begin u (codes "PROXY-CONNECTION: ") 18
    then analysed (pos 0) t (keep_alive_line u 18 (record c { proxy_connection = true }))
    else other_line o t u c

-- The virtual functions that `AnalyseHeader` calls.
abbrev pub browser : Setup → Analyser Client
browser o = record {
  first_line = analyse_request_line o;
  header_line = analyse_request_header_line o;
}

-- The port, if it is not the default one of HTTP or FTP.
unfoldable pub port_string : ℤ → Bytes
unfolding print
port_string port =
    if not (eqb_ℤ port (pos 80)) && not (eqb_ℤ port (pos 21)) then b':' ∷ print port else []

-- "%3A" and "%40" for the separators of a login.
unfoldable pub escaped : Bytes → Bytes
unfolding search_replace
escaped s =
    (search_replace (search_replace s (b':' ∷ []) (codes "%3A")).0 (b'@' ∷ []) (codes "%40")).0

-- The login in a request to a parent proxy, with the user and the password as they are then kept.
unfoldable pub auth_string : Client → Bytes × Client
unfolding escaped
auth_string c =
    let user = escaped c.ftp_user in
    let pass = escaped c.ftp_pass in
    if is_empty c.ftp_user
    then ([], c)
    else if is_empty c.ftp_pass
    then (user ++ (b'@' ∷ []), record c { ftp_user = user })
    else (user ++ (b':' ∷ (pass ++ (b'@' ∷ []))), record c { ftp_user = user; ftp_pass = pass })

-- The request line and `CompleteRequest`.
unfoldable pub request_line : Setup → Bool → Client → Bytes × Client
unfolding port_string auth_string equal
request_line o use_parent_proxy c =
    let ports = port_string c.port in
    let auth = auth_string c in
    if use_parent_proxy
    then if equal c.request_protocol (codes "http")
      then (
        c.request_type
            ++ (codes " http://" ++ (c.host ++ (ports ++ (c.request ++ codes " HTTP/1.0\r\n")))),
        record c { complete_request = codes "http://" ++ (c.host ++ (ports ++ c.request)) },
      )
      else if equal c.request_protocol (codes "ftp")
      then (
        c.request_type
            ++ (codes " ftp://"
                ++ (auth.0 ++ (c.host ++ (ports ++ (c.request ++ codes " HTTP/1.0\r\n"))))),
        record (auth.1) { complete_request = codes "ftp://" ++ (c.host ++ (ports ++ c.request)) },
      )
      else if o.ssl_tunnel && equal c.request_protocol (codes "connect")
      then (
        codes "CONNECT " ++ (c.request ++ codes " HTTP/1.0\r\n"),
        record c { complete_request = codes "connect://" ++ c.request },
      )
      else ([], c)
    else (
      c.request_type ++ (b' ' ∷ (c.request ++ codes " HTTP/1.0\r\n")),
      record c {
        complete_request = c.request_protocol ++ (codes "://" ++ (c.host ++ (ports ++ c.request)));
      },
    )

-- `CompleteRequest` without parameters and not too long.
unfoldable pub shortened : Bytes → Bytes
unfolding find
shortened url =
    let kept : Bytes = elim (find (b'?' ∷ []) url) [ none ↦ url | some i ↦ take (i + 1) url ] in
    if ltb 500 (length kept) then take 500 kept ++ codes "..." else kept

-- The pages of which no encoded answer is asked for.
unfoldable pub plain_page : Client → Bool
unfolding equal upper_case find
plain_page c =
    let host = upper_case c.host in
    let request = upper_case c.request in
    (equal host (codes "WWW.YOUTUBE.COM") && found (find (codes "/WATCH?") request))
    || (equal host (codes "WWW.NETFLIX.COM") && found (find (codes "/WATCH/") request))
    || (equal host (codes "SECURE.NETFLIX.COM") && found (find (codes "/PLAYER/HTML/") request))

-- What becomes of a line of the request.
pub data Passing : Type 0 where
  dropped : Passing
  via : Bytes → Passing
  kept : Bytes → Passing

-- The value of a "Via" line.
unfoldable pub via_of : Bytes → Passing
unfolding find_if contains
via_of t = elim (find_first_not_of (b' ' ∷ []) (drop 4 t)) [
  | none ↦ dropped
  | some i ↦ via (codes ", " ++ drop (4 + i) t)
]

-- One round of the loop over the lines, `it` being the line in upper case.
unfoldable pub pass_line : Bool → Client → Bytes → Bytes → Passing
unfolding match_begin via_of plain_page
pass_line use_parent_proxy c t it =
    if match_begin it (codes "PROXY") 5
    then if use_parent_proxy && match_begin it (codes "PROXY-AUTHORIZATION") 19
      then kept t
      else dropped
    else if match_begin it (codes "HOST") 4
    then kept (codes "Host: " ++ c.host)
    else if match_begin it (codes "KEEP-ALIVE") 10
    then dropped
    else if match_begin it (codes "VIA") 3
    then via_of t
    else if match_begin it (codes "CONNECTION") 10 || match_begin it (codes "X-FORWARD") 9
    then dropped
    else if match_begin it (codes "ACCEPT-ENCODING") 15 && plain_page c
    then kept (codes "Accept-Encoding: ")
    else kept t

-- The loop over the lines behind the request line: the header and the value of `via`.
unfoldable pub pass_lines : Bool → Client → List Bytes → Bytes → Bytes → Bytes × Bytes
unfolding pass_line upper_case
pass_lines use_parent_proxy c [] header v = (header, v)
pass_lines use_parent_proxy c (t ∷ ts) header v =
    elim (pass_line use_parent_proxy c t (upper_case t)) [
      | dropped ↦ pass_lines use_parent_proxy c ts header v
      | via w ↦ pass_lines use_parent_proxy c ts header w
      | kept line ↦ pass_lines use_parent_proxy c ts (header ++ (line ++ crlf)) v
    ]

-- `GetIP`: the address of the browser, unless one was forwarded.
unfoldable pub get_ip : Bytes → Client → Bytes
get_ip address c = if is_empty c.ip then address else c.ip

-- `PrepareHeaderForServer`, for a browser at `address`.
unfoldable pub prepare_header_for_server :
    Setup → Bool → Bytes → List Bytes → Client → Bytes × Client
unfolding request_line shortened pass_lines get_ip
prepare_header_for_server o use_parent_proxy address tokens c =
    let first = request_line o use_parent_proxy c in
    let passed = pass_lines use_parent_proxy c (drop 1 tokens) first.0 [] in
    (
      passed.0
          ++ (if o.x_forwarded_for
              then codes "X-Forwarded-For: "
                ++ (get_ip address c ++ (crlf ++ (codes "Via: 1.0 Haarp" ++ (passed.1 ++ crlf))))
              else codes "Via: 1.0 PROXY\r\n"),
      record (first.1) {
        complete_request = shortened (first.1).complete_request;
        ip = if o.x_forwarded_for then get_ip address c else c.ip;
      },
    )
