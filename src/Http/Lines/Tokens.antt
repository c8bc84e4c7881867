-- ===== src/Http/Lines/Tokens.antt =====
-- The tokens of a header that is written as `AnalyseHeader` (haarp/httphandler.cpp) keeps it are
-- read back.
use haarpcache.Base.{
  ℕ, ◌≡◌, ◌⊎◌, inl, inr, refl, sym, ap, ◌∙◌, Bool, true, false, Bool-cases, pos, List, [], ◌∷◌,
  ◌++◌, ltb_ℤ, none, some, arith, All, append_assoc, append-nil,
}
use haarpcache.Text.{Bytes, contains}
use haarpcache.Text.Find.{contains-tail}
use haarpcache.Http.Chunk.{crlf}
use haarpcache.Http.Lines.{
  Analyser, Analysed, Lines, analysed, lines_of, without_cr, lines, token_of, spaced, analyse_token,
  analyse_lines, analyse_header, keep_token,
}

-- The lines of a header, each with CRLF.
unfoldable pub render : List Bytes → Bytes
render [] = []
render (t ∷ ts) = t ++ (crlf ++ render ts)

-- A line as it is kept: not blank, without an end of line in it, nor a blank at its end, and with one
-- space between the colon and the value, if it has these.
pub record IsToken (t : Bytes) : Type 0 where
  pub without_cr : contains t b'\r' ≡ false
  pub without_lf : contains t b'\n' ≡ false
  pub cut : token_of t ≡ some t
  pub form : (spaced t ≡ none) ⊎ (spaced t ≡ some t)

-- The analysis of the tokens themselves: the first is the request or the status line, and of the
-- others those with a value are analysed.
module _ {ℓ} {S : Type ℓ} (a : Analyser S) where
  unfoldable pub run_token : Bool → Bytes → S → Analysed S
  unfolding spaced
  run_token true t s = a.first_line t s
  run_token false t s = elim (spaced t) [ none ↦ analysed (pos 0) t s | some v ↦ a.header_line t s ]

  unfoldable pub run : Bool → List Bytes → List Bytes → S → Lines S
  unfolding run_token keep_token
  run is_first [] tokens s = lines_of (pos 0) tokens s
  run is_first (t ∷ ts) tokens s = keep_token (run false ts) tokens (run_token is_first t s)

pub without_cr-token :
    (t more : Bytes)
    → contains t b'\r' ≡ false
    → without_cr (t ++ (crlf ++ more)) ≡ t ++ (b'\n' ∷ without_cr more)
unfolding without_cr
without_cr-token [] more h = refl
without_cr-token (c ∷ t) more h =
    let (apart, free) = contains-tail c b'\r' t h in
    rw apart (ap (◌∷◌ c) (without_cr-token t more free))

pub lines-token :
    (line t more : Bytes)
    → contains t b'\n' ≡ false
    → lines line (t ++ (b'\n' ∷ more)) ≡ (line ++ t) ∷ lines [] more
unfolding lines
lines-token line [] more h = ap (λ k. k ∷ lines [] more) (sym (append-nil line))
lines-token line (c ∷ t) more h =
    let (apart, free) = contains-tail c b'\n' t h in
    rw apart (
      lines-token (line ++ (c ∷ [])) t more free
      ∙ ap (λ k. k ∷ lines [] more) (append_assoc line (c ∷ []) t))

lines-render : (ts : List Bytes) → All IsToken ts → lines [] (without_cr (render ts)) ≡ ts
unfolding render
lines-render [] h = unfold without_cr lines in refl
lines-render (t ∷ ts) h =
    ap (lines []) (without_cr-token t (render ts) h.0.without_cr)
    ∙ lines-token [] t (without_cr (render ts)) h.0.without_lf
    ∙ ap (◌∷◌ t) (lines-render ts h.1)

pub contains-behind : (c : ℕ) (t more : Bytes) → contains (t ++ (c ∷ more)) c ≡ true
unfolding contains
contains-behind c [] more = ground arith
contains-behind c (x ∷ t) more = ground (arith, contains-behind c t more)

module _ {ℓ} {S : Type ℓ} (f g : List Bytes → S → Lines S) where
  pub keep_token-same :
      (tokens : List Bytes) (r : Analysed S)
      → ((ts : List Bytes) (s : S) → f ts s ≡ g ts s)
      → keep_token f tokens r ≡ keep_token g tokens r
  unfolding keep_token
  keep_token-same tokens r h = elim (Bool-cases (ltb_ℤ r.ret (pos 0))) [
    | inl t ↦ rw t refl
    | inr t ↦ rw t (h (tokens ++ (r.request ∷ [])) r.state)
  ]

module _ {ℓ} {S : Type ℓ} (a : Analyser S) where
  pub analyse_token-run :
      (is_first : Bool) (t : Bytes) (s : S)
      → IsToken t
      → analyse_token a is_first t s ≡ run_token a is_first t s
  unfolding analyse_token run_token
  analyse_token-run true t s h = refl
  analyse_token-run false t s h = elim (h.form) [
    | inl e ↦ rw (e, analyse_token, run_token) refl
    | inr e ↦ rw (e, analyse_token, run_token) refl
  ]

  analyse_lines-run :
      (is_first : Bool) (ts tokens : List Bytes) (s : S)
      → All IsToken ts
      → analyse_lines a is_first ts tokens s ≡ run a is_first ts tokens s
  unfolding analyse_lines run
  analyse_lines-run is_first [] tokens s h = refl
  analyse_lines-run is_first (t ∷ ts) tokens s h =
      rw (h.0.cut, analyse_lines)
        (ap (keep_token (analyse_lines a false ts) tokens) (analyse_token-run is_first t s h.0)
          ∙ keep_token-same (analyse_lines a false ts) (run a false ts) tokens
              (run_token a is_first t s) (λ us v. analyse_lines-run false ts us v h.1))

  pub analyse_header-render :
      (t : Bytes) (ts : List Bytes) (s : S)
      → All IsToken (t ∷ ts)
      → analyse_header a (render (t ∷ ts)) s ≡ run a true (t ∷ ts) [] s
  unfolding analyse_header render
  analyse_header-render t ts s h =
      let ends =
        ap (λ k. contains k b'\n') (without_cr-token t (render ts) h.0.without_cr)
        ∙ contains-behind b'\n' t (without_cr (render ts)) in
      rw ends (
        ap (λ k. analyse_lines a true k [] s) (lines-render (t ∷ ts) h)
        ∙ analyse_lines-run true (t ∷ ts) [] s h)
