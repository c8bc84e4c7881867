-- ===== src/Browser/Port.antt =====
-- The host and the port of a request line (haarp/connectiontobrowser.cpp), as they are written and read.
use haarpcache.Base.{
  ℕ, suc, ◌+◌, ◌≤◌, ◌<◌, ◌≡◌, refl, subst, sym, ap, ◌∙◌, ltb, ◌==◌, Bool, true, false, Bool-cases,
  ◌||◌, ◌&&◌, pos, ltb_ℤ, eqb_ℤ, not, append-nil, inl, inr, [], ◌∷◌, ◌++◌, none, some, arith,
  length, All, All-append, All-map, drop_exact, take_front,
}
use haarpcache.Text.{Bytes, codes, contains, equal, find, find_last_if}
use haarpcache.Text.Number.{print, scan-print, is_digit, IsDigit, print_nat, print_nat-IsDigit}
use haarpcache.Http.Lines.{analysed}
use haarpcache.Browser.{Client}
use haarpcache.Browser.Target.{find_from, rfind, set_port, check_host, set_host}
use haarpcache.Browser.Header.{port_string}

pub find_from-front :
    (part xs ys : Bytes) (i : ℕ)
    → find part ys ≡ some i
    → find_from part (xs ++ ys) (length xs) ≡ some (length xs + i)
unfolding find_from
find_from-front part xs ys i h = rw (drop_exact xs ys, find_from) (rw (h, find_from) refl)

-- The last of a byte, behind a string without it.
pub find_last_if-none :
    (p : ℕ → Bool) (s : Bytes) → All (λ c. p c ≡ false) s → find_last_if p s ≡ none
unfolding find_last_if
find_last_if-none p [] h = refl
find_last_if-none p (c ∷ s) h = rw (find_last_if-none p s h.1, find_last_if) (rw (h.0) refl)

find_last_if-append :
    (p : ℕ → Bool) (xs : Bytes) (c : ℕ) (s : Bytes)
    → p c ≡ true
    → All (λ x. p x ≡ false) s
    → find_last_if p (xs ++ (c ∷ s)) ≡ some (length xs)
unfolding find_last_if
find_last_if-append p [] c s t h = rw (find_last_if-none p s h, find_last_if) (rw t refl)
find_last_if-append p (x ∷ xs) c s t h = rw (find_last_if-append p xs c s t h, find_last_if) refl

-- A part of a request that has none of the bytes that separate its parts.
abbrev pub IsPlain : ℕ → Type 0
IsPlain c =
    ((c == b':') ≡ false) × ((c == b'@') ≡ false) × ((c == b'/') ≡ false) × ((c == b' ') ≡ false)

IsDigit-IsPlain : (c : ℕ) → IsDigit c → IsPlain c
unfolding is_digit
IsDigit-IsPlain c h = (ground arith, ground arith, ground arith, ground arith)

pub print-IsPlain : (p : ℕ) → All IsPlain (print (pos p))
unfolding print
print-IsPlain p = All-map IsDigit-IsPlain (print_nat p) (print_nat-IsDigit p)

pub plain_free : (c : ℕ) (s : Bytes) → All (λ x. (x == c) ≡ false) s → contains s c ≡ false
unfolding contains
plain_free c [] h = refl
plain_free c (x ∷ s) h = rw (h.0, plain_free c s h.1) refl

set_port-print :
    (p : ℕ) (c : Client)
    → 0 < p
    → p ≤ 65535
    → length (print (pos p)) ≤ 5
    → set_port (b':' ∷ print (pos p)) c ≡ (true, record c { port = pos p })
unfolding set_port
set_port-print p c low high short =
    let fits : ltb 6 (suc (length (print (pos p)))) ≡ false = ground arith in
    let valid : (ltb_ℤ (pos p) (pos 1) || ltb_ℤ (pos 65535) (pos p)) ≡ false = ground arith in
    rw fits (rw (scan-print (pos p), set_port) (rw valid refl))

set_host-port :
    (t h : Bytes) (p : ℕ) (c : Client)
    → 0 < p
    → p ≤ 65535
    → length (print (pos p)) ≤ 5
    → length h ≤ 256
    → set_host t (h ++ (b':' ∷ print (pos p))) c
      ≡ analysed (pos 0) t (record c { port = pos p; host = h })
unfolding set_host rfind check_host
set_host-port t h p c low high short small =
    let at =
      find_last_if-append (λ x. x == b':') h b':' (print (pos p)) refl
        (All-map (λ x k. k.0) (print (pos p)) (print-IsPlain p)) in
    let fits : ltb 256 (length h) ≡ false = ground arith in
    rw (at, set_host)
      (rw
        (
          drop_exact h (b':' ∷ print (pos p)),
          take_front h (b':' ∷ print (pos p)),
          set_port-print p c low high short,
        )
        (rw fits refl))

pub equal_http : (k : Bytes) → k ≡ codes "http" → equal k (codes "http") ≡ true
unfolding equal
equal_http k h = subst (λ x. equal x (codes "http") ≡ true) (sym h) refl

set_host-default :
    (t h : Bytes) (c : Client)
    → All IsPlain h
    → c.request_protocol ≡ codes "http"
    → length h ≤ 256
    → set_host t h c ≡ analysed (pos 0) t (record c { port = pos 80; host = h })
unfolding set_host rfind check_host
set_host-default t h c plain proto small =
    let at = find_last_if-none (λ x. x == b':') h (All-map (λ x k. k.0) h plain) in
    let fits : ltb 256 (length h) ≡ false = ground arith in
    rw (at, set_host) (rw (equal_http c.request_protocol proto) (rw fits refl))

eighty :
    (p : ℕ)
    → (p == 80) ≡ true
    → (not (eqb_ℤ (pos p) (pos 80)) && not (eqb_ℤ (pos p) (pos 21))) ≡ false
eighty p h = ground arith

other_port :
    (p : ℕ)
    → (p == 80) ≡ false
    → (p == 21) ≡ false
    → (not (eqb_ℤ (pos p) (pos 80)) && not (eqb_ℤ (pos p) (pos 21))) ≡ true
other_port p h k = ground arith

port_string_none : (p : ℕ) → (p == 80) ≡ true → port_string (pos p) ≡ []
unfolding port_string
port_string_none p h = rw (eighty p h) refl

port_string_some :
    (p : ℕ) → (p == 80) ≡ false → (p == 21) ≡ false → port_string (pos p) ≡ b':' ∷ print (pos p)
unfolding port_string
port_string_some p h k = rw (other_port p h k) refl

-- A domain with its port is read: the host and the port, which is 80 without a number.
pub ports-read :
    (t h : Bytes) (p : ℕ) (c : Client)
    → All IsPlain h
    → c.request_protocol ≡ codes "http"
    → 0 < p
    → p ≤ 65535
    → (p == 21) ≡ false
    → length (print (pos p)) ≤ 5
    → length h ≤ 256
    → set_host t (h ++ port_string (pos p)) c
      ≡ analysed (pos 0) t (record c { port = pos p; host = h })
ports-read t h p c plain proto low high other short small = elim (Bool-cases (p == 80)) [
  | inl e ↦
      ap (λ k. set_host t (h ++ k) c) (port_string_none p e)
      ∙ ap (λ k. set_host t k c) (append-nil h)
      ∙ set_host-default t h c plain proto small
      ∙ ap (λ k. analysed (pos 0) t (record c { port = pos k; host = h })) (ground (arith, e))
  | inr e ↦
      ap (λ k. set_host t (h ++ k) c) (port_string_some p e other)
      ∙ set_host-port t h p c low high short small
]

-- What stands before the path.
abbrev pub domain : Bytes → ℕ → Bytes
domain h p = h ++ port_string (pos p)

-- A byte that stands in neither the host nor the port is not in the domain.
pub domain-none :
    (h : Bytes) (p c : ℕ)
    → All (λ x. (x == c) ≡ false) h
    → All (λ x. (x == c) ≡ false) (print (pos p))
    → (b':' == c) ≡ false
    → (p == 21) ≡ false
    → All (λ x. (x == c) ≡ false) (domain h p)
domain-none h p c hh hp colon other = elim (Bool-cases (p == 80)) [
  | inl e ↦
      subst (All (λ x. (x == c) ≡ false))
        (sym (ap (λ k. h ++ k) (port_string_none p e) ∙ append-nil h)) hh
  | inr e ↦
      subst (λ q. All (λ x. (x == c) ≡ false) (h ++ q)) (sym (port_string_some p e other))
        (All-append (λ x. (x == c) ≡ false) h (b':' ∷ print (pos p)) hh (colon, hp))
]
