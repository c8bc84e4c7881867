-- ===== src/Server/Forward.antt =====
-- The header that `ConnectionToHTTP` (haarp/connectiontohttp.cpp) prepares for the browser, as
-- `AnalyseHeader` reads it on the other side.
use haarpcache.Base.{
  ◌≡◌, inl, inr, refl, sym, ap, ◌∙◌, if◌then◌else◌, Bool, true, false, Bool-cases, ℤ, List, [], ◌∷◌,
  ◌++◌, append_assoc, append-nil, All, All-append,
}
use haarpcache.Text.{Bytes, codes, contains, find, find_if, find_last_if, upper_case, is_prefix}
use haarpcache.Http.Chunk.{crlf}
use haarpcache.Http.Lines.{
  Analyser, without_cr, lines, token_of, spaced, value_from, analyse_lines, analyse_header,
  header_end, keep_token,
}
use haarpcache.Http.Lines.Tokens.{
  IsToken, render, run, run_token, keep_token-same, analyse_token-run, without_cr-token,
  lines-token, contains-behind,
}
use haarpcache.Server.{is_stripped, prepare_loop, prepare_header_for_browser}

-- The lines that are passed on.
unfoldable pub passed : ℤ → List Bytes → List Bytes
passed n [] = []
passed n (t ∷ ts) =
    let rest = passed n ts in if is_stripped n (upper_case t) then rest else t ∷ rest

prepare_loop-render :
    (n : ℤ) (header : Bytes) (ts : List Bytes)
    → prepare_loop n header ts ≡ header ++ render (passed n ts)
unfolding prepare_loop passed render
prepare_loop-render n header [] = sym (append-nil header)
prepare_loop-render n header (t ∷ ts) = elim (Bool-cases (is_stripped n (upper_case t))) [
  | inl e ↦ rw e (prepare_loop-render n header ts)
  | inr e ↦ rw e (
      prepare_loop-render n (header ++ (t ++ crlf)) ts
      ∙ append_assoc header (t ++ crlf) (render (passed n ts))
      ∙ ap (λ k. header ++ k) (append_assoc t crlf (render (passed n ts))))
]

All-passed : (n : ℤ) (ts : List Bytes) → All IsToken ts → All IsToken (passed n ts)
unfolding passed
All-passed n [] h = tt
All-passed n (t ∷ ts) h = elim (Bool-cases (is_stripped n (upper_case t))) [
  | inl e ↦ rw e (All-passed n ts h.1)
  | inr e ↦ rw e (h.0, All-passed n ts h.1)
]

-- The line that `SendHeader` adds.
abbrev pub connection_line : Bool → Bool → Bytes
connection_line true true = codes "Proxy-Connection: close"
connection_line true false = codes "Proxy-Connection: keep-alive"
connection_line false true = codes "Connection: close"
connection_line false false = codes "Connection: keep-alive"

connection_line-IsToken : (proxy close : Bool) → IsToken (connection_line proxy close)
unfolding contains token_of spaced find find_if find_last_if value_from is_prefix
connection_line-IsToken true true = record {
  without_cr = refl;
  without_lf = refl;
  cut = refl;
  form = inr refl;
}
connection_line-IsToken true false = record {
  without_cr = refl;
  without_lf = refl;
  cut = refl;
  form = inr refl;
}
connection_line-IsToken false true = record {
  without_cr = refl;
  without_lf = refl;
  cut = refl;
  form = inr refl;
}
connection_line-IsToken false false = record {
  without_cr = refl;
  without_lf = refl;
  cut = refl;
  form = inr refl;
}

header_end-line :
    (proxy close : Bool) (text : Bytes)
    → header_end proxy close text ≡ text ++ (connection_line proxy close ++ (crlf ++ crlf))
unfolding header_end
header_end-line true true text = refl
header_end-line true false text = refl
header_end-line false true text = refl
header_end-line false false text = refl

render-append :
    (ts : List Bytes) (t more : Bytes)
    → render ts ++ (t ++ (crlf ++ more)) ≡ render (ts ++ (t ∷ [])) ++ more
unfolding render
render-append [] t more =
    sym (append_assoc t crlf more) ∙ ap (λ k. k ++ more) (ap (λ k. t ++ k) (sym (append-nil crlf)))
render-append (x ∷ ts) t more =
    append_assoc x (crlf ++ render ts) (t ++ (crlf ++ more))
    ∙ ap (λ k. x ++ (crlf ++ k)) (render-append ts t more)
    ∙ sym (append_assoc x (crlf ++ render (ts ++ (t ∷ []))) more)

-- The lines of a header and the empty line behind them.
lines-ended :
    (ts : List Bytes) → All IsToken ts → lines [] (without_cr (render ts ++ crlf)) ≡ ts ++ ([] ∷ [])
unfolding render
lines-ended [] h = unfold without_cr lines in refl
lines-ended (t ∷ ts) h =
    ap (λ k. lines [] (without_cr k)) (append_assoc t (crlf ++ render ts) crlf)
    ∙ ap (lines []) (without_cr-token t (render ts ++ crlf) h.0.without_cr)
    ∙ lines-token [] t (without_cr (render ts ++ crlf)) h.0.without_lf
    ∙ ap (◌∷◌ t) (lines-ended ts h.1)

module _ {ℓ} {S : Type ℓ} (a : Analyser S) where
  analyse_lines-ended :
      (is_first : Bool) (ts tokens : List Bytes) (s : S)
      → All IsToken ts
      → analyse_lines a is_first (ts ++ ([] ∷ [])) tokens s ≡ run a is_first ts tokens s
  unfolding analyse_lines run
  analyse_lines-ended is_first [] tokens s h = unfold find_last_if in refl
  analyse_lines-ended is_first (t ∷ ts) tokens s h =
      rw (h.0.cut, analyse_lines)
        (ap (keep_token (analyse_lines a false (ts ++ ([] ∷ []))) tokens)
            (analyse_token-run a is_first t s h.0)
          ∙ keep_token-same (analyse_lines a false (ts ++ ([] ∷ []))) (run a false ts) tokens
              (run_token a is_first t s) (λ us v. analyse_lines-ended false ts us v h.1))

  analyse_header-ended :
      (t : Bytes) (ts : List Bytes) (s : S)
      → All IsToken (t ∷ ts)
      → analyse_header a (render (t ∷ ts) ++ crlf) s ≡ run a true (t ∷ ts) [] s
  unfolding analyse_header render
  analyse_header-ended t ts s h =
      let ends =
        ap (λ k. contains (without_cr k) b'\n') (append_assoc t (crlf ++ render ts) crlf)
        ∙ ap (λ k. contains k b'\n') (without_cr-token t (render ts ++ crlf) h.0.without_cr)
        ∙ contains-behind b'\n' t (without_cr (render ts ++ crlf)) in
      rw ends (
        ap (λ k. analyse_lines a true k [] s) (lines-ended (t ∷ ts) h)
        ∙ analyse_lines-ended true (t ∷ ts) [] s h)

  some_lines :
      (ts : List Bytes) (t : Bytes) (s : S)
      → All IsToken (ts ++ (t ∷ []))
      → analyse_header a (render (ts ++ (t ∷ [])) ++ crlf) s ≡ run a true (ts ++ (t ∷ [])) [] s
  some_lines [] t s h = analyse_header-ended t [] s h
  some_lines (x ∷ ts) t s h = analyse_header-ended x (ts ++ (t ∷ [])) s h

  -- What is prepared for the browser and sent is read as the lines that are passed, and the line of
  -- the connection.
  pub analyse_header-prepare_header_for_browser :
      (proxy close : Bool) (n : ℤ) (ts : List Bytes) (s : S)
      → All IsToken ts
      → analyse_header a (header_end proxy close (prepare_header_for_browser n ts)) s
        ≡ run a true (passed n ts ++ (connection_line proxy close ∷ [])) [] s
  unfolding prepare_header_for_browser
  analyse_header-prepare_header_for_browser proxy close n ts s h =
      ap (λ k. analyse_header a k s)
        (ap (header_end proxy close) (prepare_loop-render n [] ts)
          ∙ header_end-line proxy close (render (passed n ts))
          ∙ render-append (passed n ts) (connection_line proxy close) crlf)
      ∙ some_lines (passed n ts) (connection_line proxy close) s (
          All-append IsToken (passed n ts) (connection_line proxy close ∷ []) (All-passed n ts h)
            (connection_line-IsToken proxy close, tt))
