-- ===== src/Browser/Place.antt =====
-- The steps of `GetHostAndPortOfRequest` (haarp/connectiontobrowser.cpp) on a line whose parts are known.
use haarpcache.Base.{
  ℕ, suc, ◌+◌, ◌-◌, ◌≤◌, ◌≡◌, refl, sym, ap, ◌∙◌, ltb, ◌==◌, true, false, ◌||◌, [], ◌∷◌, ◌++◌, none,
  some, arith, length, length-append, take, drop, map, All, append_assoc, drop_exact, take_front,
}
use mathlib.Core.Path.{ap₂}
use mathlib.Core.List.{map-append}
use haarpcache.Text.{Bytes, codes, contains, find, is_prefix, upper_case, to_upper}
use haarpcache.Text.Find.{find-behind}
use haarpcache.Browser.{Client}
use haarpcache.Browser.Target.{
  find_from, starts_at, rfind, default_keep_alive, set_host, strip_login, split_domain,
  parse_target, proxied_request,
}
use haarpcache.Browser.Port.{find_from-front, find_last_if-none, plain_free}

parse_found :
    (t u : Bytes) (start last : ℕ) (c : Client)
    → find_from (b' ' ∷ []) t start ≡ some last
    → (last == start || ltb 4096 last) ≡ false
    → parse_target t u start c
      ≡ split_domain t start (take (last - start) (drop start t)) (default_keep_alive u last c)
unfolding parse_target
parse_found t u start last c h k = rw (h, parse_target) (rw k refl)

split_found :
    (t d : Bytes) (start i : ℕ) (c : Client)
    → find (b'/' ∷ []) d ≡ some i
    → split_domain t start d c ≡ strip_login t start (take i d) (record c { request = drop i d })
unfolding split_domain
split_found t d start i c h = rw (h, split_domain) refl

strip_none :
    (t d : Bytes) (start : ℕ) (c : Client)
    → rfind b'@' d ≡ none
    → strip_login t start d c ≡ set_host t d c
unfolding strip_login
strip_none t d start c h = rw (h, strip_login) refl

-- A target is read in a line that begins with `pre` and ends with the protocol's version.
module _ (pre dom path : Bytes) where
  abbrev pub target : Bytes
  target = dom ++ (b'/' ∷ path)

  abbrev pub whole : Bytes
  whole = pre ++ (target ++ codes " HTTP/1.0")

  pub target-read :
      (u : Bytes) (c : Client)
      → contains target b' ' ≡ false
      → All (λ x. (x == b'/') ≡ false) dom
      → All (λ x. (x == b'@') ≡ false) dom
      → length pre + length target ≤ 4096
      → default_keep_alive u (length pre + length target) c ≡ c
      → parse_target whole u (length pre) c
        ≡ set_host whole dom (record c { request = b'/' ∷ path })
  unfolding rfind
  target-read u c free no_slash no_at short same =
      parse_found whole u (length pre) (length pre + length target) c
        (find_from-front (b' ' ∷ []) pre (target ++ codes " HTTP/1.0") (length target)
          (find-behind b' ' [] target (codes "HTTP/1.0") free))
        (ground (arith, length-append dom (b'/' ∷ path)))
      ∙ ap₂ (split_domain whole (length pre)) cut same
      ∙ split_found whole target (length pre) (length dom) c
          (find-behind b'/' [] dom path (plain_free b'/' dom no_slash))
      ∙ ap₂ (λ d r. strip_login whole (length pre) d (record c { request = r }))
          (take_front dom (b'/' ∷ path)) (drop_exact dom (b'/' ∷ path))
      ∙ strip_none whole dom (length pre) (record c { request = b'/' ∷ path })
          (find_last_if-none (λ x. x == b'@') dom no_at)
    where
      cut : take (length pre + length target - length pre) (drop (length pre) whole) ≡ target
      cut =
          ap₂ take {y = length target} (omega arith) (drop_exact pre (target ++ codes " HTTP/1.0"))
          ∙ take_front target (codes " HTTP/1.0")

length-map : (f : ℕ → ℕ) (s : Bytes) → length (map f s) ≡ length s
length-map f [] = refl
length-map f (c ∷ s) = ap suc (length-map f s)

find_from-none :
    (part xs ys : Bytes) → find part ys ≡ none → find_from part (xs ++ ys) (length xs) ≡ none
unfolding find_from
find_from-none part xs ys h = rw (drop_exact xs ys, find_from) (rw (h, find_from) refl)

default_none :
    (u : Bytes) (last : ℕ) (c : Client)
    → find_from (codes "HTTP/1.1") u (last + 1) ≡ none
    → default_keep_alive u last c ≡ c
unfolding default_keep_alive
default_none u last c h = rw (h, default_keep_alive) refl

no_version : find (codes "HTTP/1.1") (upper_case (codes "HTTP/1.0")) ≡ none
unfolding find is_prefix upper_case to_upper
no_version = refl

pub upper_case-append : (s t : Bytes) → upper_case (s ++ t) ≡ upper_case s ++ upper_case t
unfolding upper_case
upper_case-append s t = map-append to_upper s t

length-upper_case : (s : Bytes) → length (upper_case s) ≡ length s
unfolding upper_case
length-upper_case s = length-map to_upper s

-- Behind the target stands no "HTTP/1.1".
pub keep_alive_same :
    (pre target : Bytes) (c : Client)
    → default_keep_alive
        (upper_case (pre ++ (target ++ codes " HTTP/1.0")))
        (length pre + length target)
        c
      ≡ c
keep_alive_same pre target c =
    default_none (upper_case (pre ++ (target ++ codes " HTTP/1.0"))) (length pre + length target) c
      (ap₂ (find_from (codes "HTTP/1.1")) text size
        ∙ find_from-none (codes "HTTP/1.1") (upper_case front) (upper_case (codes "HTTP/1.0"))
            no_version)
  where
    front : Bytes
    front = (pre ++ target) ++ (b' ' ∷ [])

    text :
        upper_case (pre ++ (target ++ codes " HTTP/1.0"))
        ≡ upper_case front ++ upper_case (codes "HTTP/1.0")
    text =
        ap upper_case (
          sym (append_assoc pre target (codes " HTTP/1.0"))
          ∙ sym (append_assoc (pre ++ target) (b' ' ∷ []) (codes "HTTP/1.0")))
        ∙ upper_case-append front (codes "HTTP/1.0")

    size : length pre + length target + 1 ≡ length (upper_case front)
    size = omega (
      arith,
      length-upper_case front,
      length-append (pre ++ target) (b' ' ∷ []),
      length-append pre target,
    )

starts_found :
    (part s : Bytes) (i j : ℕ) → find_from part s i ≡ some j → j ≡ i → starts_at part s i ≡ true
unfolding starts_at
starts_found part s i j h e = rw (h, starts_at) (ground (arith, e))

http_upper : (rest : Bytes) → find (codes "HTTP://") (upper_case (codes "http://" ++ rest)) ≡ some 0
unfolding find is_prefix upper_case to_upper
http_upper rest = refl

-- The protocol is found.
pub http_found :
    (m rest : Bytes)
    → starts_at (codes "HTTP://") (upper_case (m ++ (codes "http://" ++ rest))) (length m) ≡ true
http_found m rest =
    starts_found (codes "HTTP://") (upper_case (m ++ (codes "http://" ++ rest))) (length m)
      (length (upper_case m) + 0)
      (ap₂ (find_from (codes "HTTP://")) (upper_case-append m (codes "http://" ++ rest))
          (sym (length-upper_case m))
        ∙ find_from-front (codes "HTTP://") (upper_case m) (upper_case (codes "http://" ++ rest)) 0
            (http_upper rest))
      (omega (arith, length-upper_case m))

pub proxied_found :
    (t : Bytes) (start : ℕ) (c : Client)
    → starts_at (codes "HTTP://") (upper_case t) start ≡ true
    → proxied_request t start c
      ≡ parse_target t (upper_case t) (start + 7) (record c { request_protocol = codes "http" })
unfolding proxied_request
proxied_found t start c h = rw h refl
