-- ===== src/Answer/Content.antt =====
-- The number of a line Content-Length, as `getOnlyContentLength` (haarp/connectiontohttp2.cpp) reads
-- it.
use haarpcache.Base.{
  ℕ, suc, ◌+◌, ◌-◌, ◌≡◌, refl, ap, ◌∙◌, true, false, Bool, Bool-cases, inl, inr, not, pos, negsuc,
  if◌then◌else◌, List, [], ◌∷◌, ◌++◌, map, none, some, All, arith, length, take, drop, ◌>>=◌,
}
use haarpcache.Text.{
  Bytes, codes, contains, is_empty, trimstr, find, find_if, find_last_if, upper_case, to_upper,
}
use haarpcache.Text.Find.{find-none, find_here, is_prefix_self, find_if-append}
use haarpcache.Text.Explode.{stringexplode}
use haarpcache.Text.Match.{splitstring_nocase, split_nocase_loop}
use haarpcache.Text.Number.{
  print, print_nat, is_digit, IsDigit, print_nat-IsDigit, is_empty-print_nat, atoll-print,
}
use haarpcache.Answer.{is_for_cache}
use haarpcache.Answer.Length.{
  values_loop, get_values_header, length_of, get_only_content_length, trimmed,
}

abbrev pub label : Bytes
label = codes "Content-Length:"

abbrev pub length_line : ℕ → Bytes
length_line n = label ++ (b' ' ∷ print_nat n)

upper_digits : (s : Bytes) → All IsDigit s → contains (map to_upper s) b':' ≡ false
unfolding contains to_upper is_digit
upper_digits [] h = refl
upper_digits (c ∷ s) h = ground (arith, h.0, upper_digits s h.1)

-- Behind the label nothing is cut.
split_rest :
    (fuel : ℕ) (s : Bytes)
    → All IsDigit s
    → split_nocase_loop (suc fuel) (upper_case label) (b' ' ∷ s) (b' ' ∷ map to_upper s) []
      ≡ (b' ' ∷ s) ∷ []
unfolding split_nocase_loop upper_case contains to_upper
split_rest fuel s h =
    let e : find (upper_case label) (b' ' ∷ map to_upper s) ≡ none =
      find-none b':' (upper_case label) (b' ' ∷ map to_upper s) (upper_digits s h) refl in
    rw (e, split_nocase_loop) (ground arith)

first_cut :
    (fuel : ℕ) (sep str ustr : Bytes)
    → find sep ustr ≡ some 0
    → split_nocase_loop (suc fuel) sep str ustr []
      ≡ split_nocase_loop fuel sep (drop (0 + length sep) str) (drop (0 + length sep) ustr) []
unfolding split_nocase_loop
first_cut fuel sep str ustr e = rw (e, split_nocase_loop) refl

find-label : (s : Bytes) → find (upper_case label) (upper_case label ++ s) ≡ some 0
unfolding upper_case to_upper
find-label s = find_here (upper_case label) b'C' _ (is_prefix_self (upper_case label) s)

split_line :
    (s : Bytes)
    → All IsDigit s
    → splitstring_nocase (label ++ (b' ' ∷ s)) label [] ≡ (b' ' ∷ s) ∷ []
unfolding splitstring_nocase upper_case to_upper
split_line s h =
    first_cut (length (label ++ (b' ' ∷ s))) (upper_case label) (label ++ (b' ' ∷ s))
      (upper_case label ++ (b' ' ∷ map to_upper s)) (find-label (b' ' ∷ map to_upper s))
    ∙ split_rest (length (codes "ontent-Length:" ++ (b' ' ∷ s))) s h

find_last_if-All :
    (p : ℕ → Bool) (c : ℕ) (s : Bytes)
    → All (λ x. p x ≡ true) (c ∷ s)
    → find_last_if p (c ∷ s) ≡ some (length s)
unfolding find_last_if
find_last_if-All p c [] h = rw h.0 refl
find_last_if-All p c (d ∷ s) h = rw (find_last_if-All p d s h.1, find_last_if) refl

abbrev is_solid : ℕ → Bool
is_solid c = not (contains (b' ' ∷ (b'\t' ∷ [])) c)

digit-solid : (c : ℕ) → IsDigit c → is_solid c ≡ true
unfolding contains is_digit
digit-solid c h = ground arith

digits-solid : (s : Bytes) → All IsDigit s → All (λ x. is_solid x ≡ true) s
digits-solid [] h = tt
digits-solid (c ∷ s) h = (digit-solid c h.0, digits-solid s h.1)

take-whole : (s : Bytes) → take (length s) s ≡ s
take-whole [] = refl
take-whole (c ∷ s) = ap (◌∷◌ c) (take-whole s)

trimmed_at :
    (c : ℕ) (s : Bytes)
    → find_if is_solid (b' ' ∷ (c ∷ s)) ≡ some 1
    → find_last_if is_solid (b' ' ∷ (c ∷ s)) ≡ some (suc (length s))
    → trimstr (b' ' ∷ (c ∷ s)) ≡ c ∷ s
unfolding trimstr
trimmed_at c s e f =
    rw (e, trimstr)
      (rw (f, trimstr)
        (ap (λ n. take n (c ∷ s)) {x = suc (length s) - 1 + 1} {y = suc (length s)} (omega arith)
          ∙ take-whole (c ∷ s)))

trimstr-digits : (s : Bytes) → All IsDigit s → is_empty s ≡ false → trimstr (b' ' ∷ s) ≡ s
trimstr-digits [] h k = absurd (cc k)
trimstr-digits (c ∷ s) h k =
    let first : find_if is_solid (b' ' ∷ (c ∷ s)) ≡ some 1 =
      find_if-append is_solid (b' ' ∷ []) c s (unfold contains in refl, tt) (digit-solid c h.0) in
    let last : find_last_if is_solid (b' ' ∷ (c ∷ s)) ≡ some (suc (length s)) =
      unfold find_last_if in
      rw (find_last_if-All is_solid c s (digits-solid (c ∷ s) h), find_last_if) refl in
    trimmed_at c s first last

module _ (regex : Bytes → Bytes → Bytes) where
  values_loop-length_line :
      (front back : List Bytes) (n : ℕ)
      → All (λ line. is_empty (regex label line) ≡ true) front
      → is_empty (regex label (length_line n)) ≡ false
      → regex (label ++ codes " ?[0-9]+") (length_line n) ≡ length_line n
      → values_loop regex label (front ++ (length_line n ∷ back)) ≡ some (print_nat n)
  unfolding values_loop
  values_loop-length_line [] back n quiet seen value =
      rw (seen, value)
        (ap trimmed (split_line (print_nat n) (print_nat-IsDigit n))
          ∙ ap some (trimstr-digits (print_nat n) (print_nat-IsDigit n) (is_empty-print_nat n)))
  values_loop-length_line (l ∷ front) back n quiet seen value =
      rw quiet.0 (values_loop-length_line front back n quiet.1 seen value)

  -- The length of an answer that has the line and is one for the cache; of any other -1.
  pub get_only_content_length-length_line :
      (header : Bytes) (front back : List Bytes) (n : ℕ)
      → stringexplode header (codes "\r\n") [] ≡ front ++ (length_line n ∷ back)
      → All (λ line. is_empty (regex label line) ≡ true) front
      → is_empty (regex label (length_line n)) ≡ false
      → regex (label ++ codes " ?[0-9]+") (length_line n) ≡ length_line n
      → get_only_content_length regex header
        ≡ some (if is_for_cache header then pos n else negsuc 0)
  unfolding get_only_content_length
  get_only_content_length-length_line header front back n e quiet seen value =
      elim (Bool-cases (is_for_cache header)) [
        | inr t ↦ rw t refl
        | inl t ↦ rw t (ap (λ x. x >>= (λ scl. some (length_of scl))) found_value ∙ ap some number)
      ]
    where
      found_value : get_values_header regex header label ≡ some (print_nat n)
      found_value =
          unfold get_values_header in
          (ap (values_loop regex label) e ∙ values_loop-length_line front back n quiet seen value)

      number : length_of (print_nat n) ≡ pos n
      number = unfold length_of in rw (is_empty-print_nat n) (unfold print in atoll-print (pos n))
