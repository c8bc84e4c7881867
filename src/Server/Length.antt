-- ===== src/Server/Length.antt =====
-- The length that the connection to the server (haarp/connectiontohttp.cpp) takes from a response.
use haarpcache.Base.{
  ℕ, zero, suc, ◌≤◌, ◌≡◌, ◌⊎◌, inl, inr, refl, subst, sym, ap, ◌∙◌, ltb, if◌then◌else◌, Bool, true,
  false, not, Bool-cases, Option-cases, append-nil, append_assoc, ℤ, pos, negsuc, List, [], ◌∷◌,
  ◌++◌, none, some, arith, All, All-map, length, drop, take,
}
use mathlib.Core.Path.{ap₂}
use haarpcache.Text.Find.{find_if-none, find_if-append}
use haarpcache.Text.{
  Bytes, find, is_empty, codes, contains, find_first_of, find_first_not_of, upper_case, to_upper,
  is_prefix,
}
use haarpcache.Text.Number.{
  scan, print, scan-print, is_digit, IsDigit, print_nat, print_nat-IsDigit, is_empty-print_nat,
}
use haarpcache.Text.Match.{match_begin, match_anywhere}
use haarpcache.Http.Lines.{
  Analysed, analysed, Lines, keep_token, analyse_header, spaced, value_from,
}
use haarpcache.Http.Lines.Tokens.{IsToken, render, run, run_token, analyse_header-render}
use haarpcache.Server.{
  Response, server, analyse_header_line, analyse_first_header_line, set_content_length, digits,
  response_from,
}

-- A line that leaves the length alone and is not refused.
pub record IsQuiet (t : Bytes) : Type 0 where
  pub no_length : match_begin (upper_case t) (codes "CONTENT-LENGTH: ") 16 ≡ false
  pub chunked_at_most :
      (match_begin (upper_case t) (codes "TRANSFER-ENCODING: ") 19 ≡ false)
      ⊎ (match_begin (upper_case t) (codes "TRANSFER-ENCODING: CHUNKED") 26 ≡ true)

-- What an analysis of a line leaves: the line, and this length.
pub record Leaves (t : Bytes) (n : ℤ) (x : Analysed Response) : Type 0 where
  pub ret : x.ret ≡ pos 0
  pub request : x.request ≡ t
  pub content_length : x.state.content_length ≡ n

module _ (t : Bytes) (n : ℤ) where
  last_two :
      (b c : Bool) (x y z : Analysed Response)
      → (c ≡ false) ⊎ (b ≡ true)
      → Leaves t n x
      → Leaves t n y
      → Leaves t n (if b then x else if c then z else y)
  last_two true c x y z q h k = h
  last_two false false x y z q h k = k
  last_two false true x y z (inl q) h k = absurd (cc q)
  last_two false true x y z (inr q) h k = absurd (cc q)

  branches :
      (a b c d : Bool) (w x y z v : Analysed Response)
      → (d ≡ false) ⊎ (c ≡ true)
      → Leaves t n w
      → Leaves t n x
      → Leaves t n y
      → Leaves t n v
      → Leaves t n (if a then w else if b then x else if c then y else if d then z else v)
  branches true b c d w x y z v q hw hx hy hv = hw
  branches false true c d w x y z v q hw hx hy hv = hx
  branches false false c d w x y z v q hw hx hy hv = last_two c d y v z q hy hv

quiet_line :
    (t : Bytes) (r : Response) → IsQuiet t → Leaves t r.content_length (analyse_header_line t r)
unfolding analyse_header_line
quiet_line t r q = elim (Bool-cases (ltb 16 (length t))) [
  | inr e ↦ rw e same
  | inl e ↦
      rw (e, q.no_length)
        (branches t r.content_length
          (match_anywhere (upper_case t) (codes "CONNECTION: KEEP-ALIVE"))
          (match_begin (upper_case t) (codes "CONTENT-TYPE: IMAGE/") 20)
          (match_begin (upper_case t) (codes "TRANSFER-ENCODING: CHUNKED") 26)
          (match_begin (upper_case t) (codes "TRANSFER-ENCODING: ") 19)
          (analysed (pos 0) t (record r { is_keep_alive = true }))
          (analysed (pos 0) t (record r { is_image = true }))
          (analysed (pos 0) t (record r { is_chunked = true })) (analysed (negsuc 231) t r)
          (analysed (pos 0) t r) q.chunked_at_most
          (record { ret = refl; request = refl; content_length = refl })
          (record { ret = refl; request = refl; content_length = refl })
          (record { ret = refl; request = refl; content_length = refl }) same)
]
  where
    same : Leaves t r.content_length (analysed (pos 0) t r)
    same = record { ret = refl; request = refl; content_length = refl }

scan-print_pos : (n : ℕ) → scan (print_nat n) ≡ some (pos n)
scan-print_pos n = unfold print in scan-print (pos n)

digits_cons :
    (s : Bytes)
    → is_empty s ≡ false
    → All IsDigit s
    → (d : ℕ) × (v : Bytes) × (s ≡ d ∷ v) × (is_digit d ≡ true)
digits_cons [] e h = cc
digits_cons (d ∷ v) e h = (d, v, refl, h.0)

print_nat_cons : (n : ℕ) → (d : ℕ) × (v : Bytes) × (print_nat n ≡ d ∷ v) × (is_digit d ≡ true)
print_nat_cons n = digits_cons (print_nat n) (is_empty-print_nat n) (print_nat-IsDigit n)

-- The line of a length.
abbrev pub length_line : ℕ → Bytes
length_line n = codes "Content-Length: " ++ print_nat n

is_digit-contains : (c : ℕ) → is_digit c ≡ true → not (contains digits c) ≡ false
unfolding is_digit contains
is_digit-contains c h = ground arith

to_upper-digit : (c : ℕ) → is_digit c ≡ true → to_upper c ≡ c
unfolding is_digit to_upper
to_upper-digit c h = ground arith

digits_only : (v : Bytes) → All IsDigit v → find_first_not_of digits v ≡ none
digits_only v h = find_if-none (λ c. not (contains digits c)) v (All-map is_digit-contains v h)

upper_case-digits : (v : Bytes) → All IsDigit v → upper_case v ≡ v
unfolding upper_case
upper_case-digits [] h = refl
upper_case-digits (c ∷ v) h = ap₂ ◌∷◌ (to_upper-digit c h.0) (upper_case-digits v h.1)

line_analysed :
    (d : ℕ) (v : Bytes) (r : Response)
    → analyse_header_line (codes "Content-Length: " ++ (d ∷ v)) r
      ≡ analysed
          (pos 0)
          (codes "Content-Length: " ++ (d ∷ v))
          (set_content_length (upper_case (d ∷ v)) (d ∷ v) r)
unfolding analyse_header_line upper_case match_begin to_upper is_prefix
line_analysed d v r =
    let filled : ltb 16 (length (codes "Content-Length: " ++ (d ∷ v))) ≡ true = ground arith in
    rw filled refl

length_set :
    (n : ℕ) (r : Response)
    → length (print_nat n) ≤ 18
    → (set_content_length (upper_case (print_nat n)) (print_nat n) r).content_length ≡ pos n
unfolding set_content_length
length_set n r h =
    let only =
      ap (find_first_not_of digits) (upper_case-digits (print_nat n) (print_nat-IsDigit n))
      ∙ digits_only (print_nat n) (print_nat-IsDigit n) in
    let short : ltb 18 (length (print_nat n)) ≡ false = ground arith in
    rw (only, set_content_length) (rw short (rw (scan-print_pos n, set_content_length) refl))

length_of_line :
    (n : ℕ) (r : Response)
    → length (print_nat n) ≤ 18
    → Leaves (length_line n) (pos n) (analyse_header_line (length_line n) r)
length_of_line n r h =
    subst (Leaves (length_line n) (pos n)) (sym whole)
      (record { ret = refl; request = refl; content_length = length_set n r h })
  where
    whole :
        analyse_header_line (length_line n) r
        ≡ analysed
            (pos 0)
            (length_line n)
            (set_content_length (upper_case (print_nat n)) (print_nat n) r)
    whole =
        let (d, v, e, digit) = print_nat_cons n in
        subst
          (λ p.
            analyse_header_line (codes "Content-Length: " ++ p) r
            ≡ analysed (pos 0) (codes "Content-Length: " ++ p)
                (set_content_length (upper_case p) p r))
          (sym e) (line_analysed d v r)

is_digit_apart : (c : ℕ) → is_digit c ≡ true → not (contains (b' ' ∷ []) c) ≡ true
unfolding is_digit contains
is_digit_apart c h = ground arith

blank : not (contains (b' ' ∷ []) b' ') ≡ false
unfolding contains
blank = refl

value_from-cons :
    (d : ℕ) (v : Bytes)
    → not (contains (b' ' ∷ []) d) ≡ true
    → value_from (b' ' ∷ (d ∷ v)) ≡ some (d ∷ v)
unfolding value_from
value_from-cons d v h =
    rw
      (find_if-append (λ c. not (contains (b' ' ∷ []) c)) (b' ' ∷ []) d v (blank, tt) h, value_from)
      refl

spaced_cons :
    (d : ℕ) (v : Bytes)
    → not (contains (b' ' ∷ []) d) ≡ true
    → spaced (codes "Content-Length: " ++ (d ∷ v)) ≡ some (codes "Content-Length: " ++ (d ∷ v))
unfolding spaced find is_prefix
spaced_cons d v h = rw (value_from-cons d v h, spaced) refl

spaced-length_line : (n : ℕ) → spaced (length_line n) ≡ some (length_line n)
spaced-length_line n =
    let (d, v, e, digit) = print_nat_cons n in
    subst (λ p. spaced (codes "Content-Length: " ++ p) ≡ some (codes "Content-Length: " ++ p))
      (sym e) (spaced_cons d v (is_digit_apart d digit))

-- What the analysis of more lines leaves.
pub record LeavesAll (ts : List Bytes) (n : ℤ) (x : Lines Response) : Type 0 where
  pub ret : x.ret ≡ pos 0
  pub tokens : x.tokens ≡ ts
  pub content_length : x.state.content_length ≡ n

keep_left :
    (next : List Bytes → Response → Lines Response) (tokens : List Bytes) (t : Bytes) (n : ℤ)
    (x : Analysed Response)
    → Leaves t n x
    → keep_token next tokens x ≡ next (tokens ++ (t ∷ [])) x.state
unfolding keep_token
keep_left next tokens t n x h =
    subst
      (λ z.
        keep_token next tokens (analysed z x.request x.state)
        ≡ next (tokens ++ (x.request ∷ [])) x.state)
      (sym h.ret) refl
    ∙ ap (λ q. next (tokens ++ (q ∷ [])) x.state) h.request

quiet_token :
    (t : Bytes) (r : Response) → IsQuiet t → Leaves t r.content_length (run_token server false t r)
unfolding run_token
quiet_token t r q = elim (Option-cases (spaced t)) [
  | inl e ↦ rw (e, run_token) (record { ret = refl; request = refl; content_length = refl })
  | inr (v, e) ↦ rw (e, run_token) (quiet_line t r q)
]

length_token :
    (n : ℕ) (r : Response)
    → length (print_nat n) ≤ 18
    → Leaves (length_line n) (pos n) (run_token server false (length_line n) r)
unfolding run_token
length_token n r h = rw (spaced-length_line n, run_token) (length_of_line n r h)

-- Lines that leave the length alone, and then more.
quiet_run :
    (ts us tokens : List Bytes) (r : Response) (m : ℤ)
    → All IsQuiet ts
    → r.content_length ≡ m
    → (r' : Response) × (r'.content_length ≡ m)
      × (run server false (ts ++ us) tokens r ≡ run server false us (tokens ++ ts) r')
unfolding run
quiet_run [] us tokens r m h e = (r, e, ap (λ k. run server false us k r) (sym (append-nil tokens)))
quiet_run (t ∷ ts) us tokens r m h e =
    let q = quiet_token t r h.0 in
    let (r', e', next) =
      quiet_run ts us (tokens ++ (t ∷ [])) ((run_token server false t r).state) m h.1
        (q.content_length ∙ e) in
    (
      r',
      e',
      keep_left (run server false (ts ++ us)) tokens t r.content_length (run_token server false t r)
            q
          ∙ next
          ∙ ap (λ k. run server false us k r') (append_assoc tokens (t ∷ []) ts),
    )

response_request : (behind t : Bytes) (r : Response) → (response_from behind t r).request ≡ t
unfolding response_from
response_request behind t r = elim (Option-cases (find_first_of digits behind)) [
  | inl e ↦ rw (e, response_from) refl
  | inr (i, e) ↦ elim (Option-cases (scan (take 3 (drop i behind)))) [
    | inl f ↦ rw (e, response_from) (rw (f, response_from) refl)
    | inr (n, f) ↦ rw (e, response_from) (rw (f, response_from) refl)
  ]
]

first_request : (t : Bytes) (r : Response) → (analyse_first_header_line t r).request ≡ t
unfolding analyse_first_header_line
first_request t r = elim (Option-cases (find (b' ' ∷ []) t)) [
  | inl e ↦ rw (e, analyse_first_header_line) (response_request t t r)
  | inr (zero, e) ↦ rw (e, analyse_first_header_line) refl
  | inr (suc i, e) ↦ rw (e, analyse_first_header_line) (response_request (drop (suc (suc i)) t) t r)
]

-- A response is read whose lines are in the form that `AnalyseHeader` brings them into (not blank,
-- without an end of line in them or a blank at their end, one space between the colon and the value),
-- whose first line has a number, and that has one line of a length, of at most 18 digits, and no
-- encoding but chunked: `AnalyseHeader` returns 0, keeps every line, and leaves the length.
pub analyse_header-LeavesAll :
    (t : Bytes) (before after : List Bytes) (n : ℕ) (r : Response)
    → All IsToken (t ∷ (before ++ (length_line n ∷ after)))
    → (analyse_first_header_line t r).ret ≡ pos 0
    → All IsQuiet before
    → All IsQuiet after
    → length (print_nat n) ≤ 18
    → LeavesAll
        (t ∷ (before ++ (length_line n ∷ after)))
        (pos n)
        (analyse_header server (render (t ∷ (before ++ (length_line n ∷ after)))) r)
unfolding run run_token
analyse_header-LeavesAll t before after n r tokens started hb ha short =
    let first = analyse_first_header_line t r in
    let (r1, e1, run1) =
      quiet_run before (length_line n ∷ after) (t ∷ []) first.state first.state.content_length hb
        refl in
    let len = length_token n r1 short in
    let (r2, e2, run2) =
      quiet_run after [] ((t ∷ before) ++ (length_line n ∷ []))
        ((run_token server false (length_line n) r1).state) (pos n) ha len.content_length in
    subst (LeavesAll (t ∷ (before ++ (length_line n ∷ after))) (pos n))
      (sym (
        analyse_header-render server t (before ++ (length_line n ∷ after)) r tokens
        ∙ keep_left (run server false (before ++ (length_line n ∷ after))) [] t
            first.state.content_length first
            (record { ret = started; request = first_request t r; content_length = refl })
        ∙ run1
        ∙ keep_left (run server false after) (t ∷ before) (length_line n) (pos n)
            (run_token server false (length_line n) r1) len
        ∙ ap
            (λ k.
              run server false k ((t ∷ before) ++ (length_line n ∷ []))
                ((run_token server false (length_line n) r1).state))
            (sym (append-nil after))
        ∙ run2))
      (record {
        ret = refl;
        tokens = ap (◌∷◌ t) (append_assoc before (length_line n ∷ []) after);
        content_length = e2;
      })
