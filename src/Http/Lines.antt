-- ===== src/Http/Lines.antt =====
-- `HTTPHandler::AnalyseHeader` (haarp/httphandler.cpp): a header is cut into lines, each line is
-- brought into a normal form and analysed, and the lines are kept as `tokens`. `SendHeader` ends a
-- header and sends it.
pub mod Tokens
use haarpcache.Base.{
  ℕ, suc, ◌+◌, ◌==◌, if◌then◌else◌, Bool, true, false, not, ◌≡◌, ℤ, pos, negsuc, List, [], ◌∷◌,
  ◌++◌, ltb_ℤ, Option, none, some, take, drop,
}
use haarpcache.Text.{
  Bytes, codes, contains, find, find_if, find_last_if, find_first_not_of, further,
}
use haarpcache.Socket.Send.{Turn, Sent, send_string, send}

-- What `AnalyseFirstHeaderLine` or `AnalyseHeaderLine` returns, with the line, which it may change,
-- and the state of its object.
pub record Analysed {ℓ} (S : Type ℓ) : Type ℓ where
  pub ret : ℤ
  pub request : Bytes
  pub state : S

-- The two virtual functions.
pub record Analyser {ℓ} (S : Type ℓ) : Type ℓ where
  pub first_line : Bytes → S → Analysed S
  pub header_line : Bytes → S → Analysed S

-- What `AnalyseHeader` returns, with `tokens` and the state of the object.
pub record Lines {ℓ} (S : Type ℓ) : Type ℓ where
  pub ret : ℤ
  pub tokens : List Bytes
  pub state : S

-- Every CR is removed.
unfoldable pub without_cr : Bytes → Bytes
without_cr [] = []
without_cr (c ∷ s) = let rest = without_cr s in if c == b'\r' then rest else c ∷ rest

-- The lines that end with LF, `line` being what was read of the first.
unfoldable pub lines : Bytes → Bytes → List Bytes
lines line [] = []
lines line (c ∷ s) =
    let next = lines [] s in
    let longer = lines (line ++ (c ∷ [])) s in if c == b'\n' then line ∷ next else longer

-- `find_last_not_of("\t ")` and the cut behind it: `none` for a line of blanks.
unfoldable pub token_of : Bytes → Option Bytes
unfolding find_last_if contains
token_of line = elim (find_last_if (λ c. not (contains (b'\t' ∷ b' ' ∷ []) c)) line) [
  | none ↦ none
  | some i ↦ some (take (i + 1) line)
]

-- The value behind `i` bytes, without the spaces in front of it.
unfoldable pub value_from : Bytes → Option Bytes
unfolding find_if contains
value_from s = elim (find_first_not_of (b' ' ∷ []) s) [ none ↦ none | some j ↦ some (drop j s) ]

-- "Header:<SPACE>value", if there is a colon and a value.
unfoldable pub spaced : Bytes → Option Bytes
unfolding find value_from
spaced token = elim (find (b':' ∷ []) token) [
  | none ↦ none
  | some i ↦ elim (value_from (drop (i + 1) token)) [
    | none ↦ none
    | some value ↦ some (take (i + 1) token ++ (b' ' ∷ value))
  ]
]

module _ {ℓ} {S : Type ℓ} where
  abbrev pub analysed : ℤ → Bytes → S → Analysed S
  analysed r t s = record { ret = r; request = t; state = s }

  abbrev pub lines_of : ℤ → List Bytes → S → Lines S
  lines_of r t s = record { ret = r; tokens = t; state = s }

  -- One line that is not blank.
  unfoldable pub analyse_token : Analyser S → Bool → Bytes → S → Analysed S
  unfolding spaced
  analyse_token a true token s = a.first_line token s
  analyse_token a false token s = elim (spaced token) [
    | none ↦ analysed (pos 0) token s
    | some t ↦ a.header_line t s
  ]

  -- What follows an analysis: its error is returned, or the line is kept and the loop goes on.
  unfoldable pub keep_token : (List Bytes → S → Lines S) → List Bytes → Analysed S → Lines S
  keep_token next tokens r =
      if ltb_ℤ r.ret (pos 0)
      then lines_of r.ret tokens r.state
      else next (tokens ++ (r.request ∷ [])) r.state

  -- The loop; `is_first` holds until a line was analysed.
  unfoldable pub analyse_lines : Analyser S → Bool → List Bytes → List Bytes → S → Lines S
  unfolding token_of analyse_token keep_token
  analyse_lines a is_first [] tokens s = lines_of (pos 0) tokens s
  analyse_lines a is_first (line ∷ rest) tokens s = elim (token_of line) [
    | none ↦ analyse_lines a is_first rest tokens s
    | some token ↦ keep_token (analyse_lines a false rest) tokens (analyse_token a is_first token s)
  ]

  -- `AnalyseHeader`.
  unfoldable pub analyse_header : Analyser S → Bytes → S → Lines S
  unfolding without_cr lines analyse_lines contains
  analyse_header a text s =
      let t = without_cr text in
      if contains t b'\n'
      then analyse_lines a true (lines [] t) [] s
      else lines_of (negsuc 200) [] s

-- The end of a header that `SendHeader` sends.
unfoldable pub header_end : Bool → Bool → Bytes → Bytes
header_end proxy_connection connection_close text =
    text
    ++ ((if proxy_connection then codes "Proxy-" else [])
        ++ (if connection_close
            then codes "Connection: close\r\n\r\n"
            else codes "Connection: keep-alive\r\n\r\n"))

-- `SendHeader`.
unfoldable pub send_header : Bool → Bool → Bool → ℤ → Bytes → List Turn → Sent
unfolding send_string header_end
send_header is_open proxy_connection connection_close num text net =
    send_string is_open num (header_end proxy_connection connection_close text) net

-- `SendHeader` with a status.
unfoldable pub send_header_status : Bool → Bool → Bool → Bytes → List Turn → Sent
unfolding send header_end
send_header_status is_open proxy_connection connection_close text net =
    send is_open (negsuc 99) (header_end proxy_connection connection_close text) net
