-- ===== src/Server.antt =====
-- `ConnectionToHTTP` (haarp/connectiontohttp.cpp), the connection to the server: the analysis of the
-- header of a response, and the header that is prepared for the browser.
pub mod Length
pub mod Forward
use haarpcache.Base.{
  ℕ, zero, suc, ◌+◌, ltb, if◌then◌else◌, Bool, true, false, ◌||◌, ◌&&◌, ℤ, pos, negsuc, eqb_ℤ, List,
  [], ◌∷◌, ◌++◌, Option, none, some, length, take, drop,
}
use haarpcache.Text.{
  Bytes, codes, contains, find, find_if, find_first_of, find_first_not_of, found, upper_case,
}
use haarpcache.Text.Number.{scan}
use haarpcache.Text.Match.{match_begin, match_anywhere}
use haarpcache.Http.Chunk.{crlf}
use haarpcache.Http.Lines.{Analyser, Analysed, analysed}

pub record Response : Type 0 where
  pub html_response : ℤ
  pub content_length : ℤ
  pub is_keep_alive : Bool
  pub is_image : Bool
  pub is_chunked : Bool

abbrev pub digits : Bytes
digits = codes "0123456789"

-- `ClearVars`.
unfoldable pub clear_vars : Response → Response
clear_vars r = record r {
  content_length = negsuc 0;
  is_keep_alive = false;
  is_image = false;
  is_chunked = false;
}

-- The three bytes from the first digit on, read from a place: `sscanf` finds a number there.
unfoldable pub response_from : Bytes → Bytes → Response → Analysed Response
unfolding find_if contains scan
response_from behind request r = elim (find_first_of digits behind) [
  | none ↦ analysed (negsuc 229) request r
  | some i ↦ elim (scan (take 3 (drop i behind))) [
    | none ↦ analysed (negsuc 229) request r
    | some n ↦ analysed (pos 0) request (record r { html_response = n })
  ]
]

-- `AnalyseFirstHeaderLine`; without a space, `npos + 1` is 0.
unfoldable pub analyse_first_header_line : Bytes → Response → Analysed Response
unfolding find response_from
analyse_first_header_line request r = elim (find (b' ' ∷ []) request) [
  | none ↦ response_from request request r
  | some zero ↦ analysed (negsuc 229) request r
  | some (suc i) ↦ response_from (drop (suc (suc i)) request) request r
]

-- The value of a line "Content-Length: ", behind 16 bytes, in upper case and as it was received.
unfoldable pub set_content_length : Bytes → Bytes → Response → Response
unfolding scan find_if contains
set_content_length uvalue value r =
    if found (find_first_not_of digits uvalue)
    then r
    else if ltb 18 (length value)
    then r
    else elim (scan value) [
      | none ↦ record r { content_length = negsuc 0 }
      | some n ↦ record r { content_length = n }
    ]

-- `AnalyseHeaderLine`.
unfoldable pub analyse_header_line : Bytes → Response → Analysed Response
unfolding upper_case match_begin match_anywhere set_content_length
analyse_header_line request r =
    let u = upper_case request in
    if ltb 16 (length request)
    then if match_begin u (codes "CONTENT-LENGTH: ") 16
      then analysed (pos 0) request (set_content_length (drop 16 u) (drop 16 request) r)
      else if match_anywhere u (codes "CONNECTION: KEEP-ALIVE")
      then analysed (pos 0) request (record r { is_keep_alive = true })
      else if match_begin u (codes "CONTENT-TYPE: IMAGE/") 20
      then analysed (pos 0) request (record r { is_image = true })
      else if match_begin u (codes "TRANSFER-ENCODING: CHUNKED") 26
      then analysed (pos 0) request (record r { is_chunked = true })
      else if match_begin u (codes "TRANSFER-ENCODING: ") 19
      then analysed (negsuc 231) request r
      else analysed (pos 0) request r
    else analysed (pos 0) request r

-- The virtual functions that `AnalyseHeader` calls.
abbrev pub server : Analyser Response
server = record { first_line = analyse_first_header_line; header_line = analyse_header_line }

-- The lines that are not passed to the browser, matched in upper case.
unfoldable pub is_stripped : ℤ → Bytes → Bool
unfolding match_begin
is_stripped content_length it =
    match_begin it (codes "KEEP-ALIVE") 10
    || match_begin it (codes "CONNECTION") 10
    || match_begin it (codes "PROXY-CONNECTION") 16
    || (match_begin it (codes "CONTENT-LENGTH") 14 && eqb_ℤ content_length (negsuc 0))
    || match_begin it (codes "TRANSFER-ENCODING") 17

-- The loop of `PrepareHeaderForBrowser`, which has `header`.
unfoldable pub prepare_loop : ℤ → Bytes → List Bytes → Bytes
unfolding is_stripped upper_case
prepare_loop content_length header [] = header
prepare_loop content_length header (t ∷ ts) =
    let next = prepare_loop content_length header ts in
    let longer = prepare_loop content_length (header ++ (t ++ crlf)) ts in
    if is_stripped content_length (upper_case t) then next else longer

-- `PrepareHeaderForBrowser`.
unfoldable pub prepare_header_for_browser : ℤ → List Bytes → Bytes
unfolding prepare_loop
prepare_header_for_browser content_length tokens = prepare_loop content_length [] tokens
