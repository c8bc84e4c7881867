-- ===== src/Plugins/Name.antt =====
-- The name that the plugins of haarp/plugins take from a URL.
use haarpcache.Base.{
  ℕ, ◌≡◌, refl, sym, ap, ◌∙◌, pos, if◌then◌else◌, true, false, Bool-cases, ◌||◌, List, [], ◌∷◌,
  ◌++◌, Option, none, some, ◌>>=◌, inl, inr, arith, append-nil, append_assoc,
}
use haarpcache.Text.{found, Bytes, codes, contains, is_empty, is_prefix, find, further}
use haarpcache.Text.Explode.{
  stringexplode, stringexplode-pieces, stringexplode-join, pieces, pieces-free, pieces-sep, emit,
  emit-filled, IsField,
}
use haarpcache.Plugins.{
  Site, Resposta, hgetmatch2, no_match, answer, get_filename, has, last_part, last_but_one,
}

found-further : (o : Option ℕ) → found (further o) ≡ found o
found-further none = refl
found-further (some i) = refl

has-contains : (c : ℕ) (s : Bytes) → has (c ∷ []) s ≡ contains s c
unfolding find contains is_prefix
has-contains c [] = refl
has-contains c (x ∷ s) = ground (arith, found-further (find (c ∷ []) s), has-contains c s)

last_part-append :
    (xs : List Bytes) (y : Bytes) (ys : List Bytes)
    → last_part (xs ++ (y ∷ ys)) ≡ last_part (y ∷ ys)
last_part-append [] y ys = refl
last_part-append (x ∷ []) y ys = refl
last_part-append (x ∷ z ∷ xs) y ys = last_part-append (z ∷ xs) y ys

pieces-name : (name : Bytes) → IsField b'/' name → pieces (codes "/") [] name ≡ name ∷ []
unfolding pieces
pieces-name name h =
    ap (pieces (codes "/") []) (sym (append-nil name))
    ∙ pieces-free b'/' [] name [] h.free
    ∙ emit-filled name h.filled

-- The pieces of a path end with what stands behind its last slash.
last_part-pieces :
    (cur dir name : Bytes) (xs : List Bytes)
    → IsField b'/' name
    → last_part (xs ++ pieces (codes "/") cur (dir ++ (b'/' ∷ name))) ≡ some name
unfolding pieces contains
last_part-pieces cur [] name xs h =
    rw (pieces-sep b'/' cur name, pieces-name name h)
      (ap last_part (sym (append_assoc xs (emit cur) (name ∷ [])))
        ∙ last_part-append (xs ++ emit cur) name [])
last_part-pieces cur (x ∷ dir) name xs h = elim (Bool-cases (contains (codes "/") x)) [
  | inl t ↦ rw t (
      ap last_part (sym (append_assoc xs (emit cur) (pieces (codes "/") [] (dir ++ (b'/' ∷ name)))))
      ∙ last_part-pieces [] dir name (xs ++ emit cur) h)
  | inr t ↦ rw t (last_part-pieces (cur ++ (x ∷ [])) dir name xs h)
]

contains-path :
    (dir name : Bytes) (c : ℕ) → contains (dir ++ name) c ≡ (contains dir c || contains name c)
unfolding contains
contains-path [] name c = refl
contains-path (x ∷ dir) name c = ground (arith, contains-path dir name c)

-- A URL with no query: the name is what stands behind the last slash.
pub get_filename-path :
    (dir name : Bytes)
    → contains (dir ++ (b'/' ∷ name)) b'?' ≡ false
    → IsField b'/' name
    → get_filename (dir ++ (b'/' ∷ name)) ≡ some name
unfolding get_filename
get_filename-path dir name n h =
    rw
      (
        has-contains b'?' (dir ++ (b'/' ∷ name)),
        n,
        stringexplode-pieces (dir ++ (b'/' ∷ name)) (codes "/") [],
      )
      (last_part-pieces [] dir name [] h)

-- The text of a URL with a query has a question mark.
contains-query : (p q : Bytes) → contains (p ++ (b'?' ∷ q)) b'?' ≡ true
unfolding contains
contains-query [] q = refl
contains-query (x ∷ p) q = ground (arith, contains-query p q)

get_filename-parts :
    (url : Bytes) (parts : List Bytes)
    → contains url b'?' ≡ true
    → stringexplode url (codes "?") [] ≡ parts
    → get_filename url
      ≡ (last_but_one parts >>= (λ path. last_part (stringexplode path (codes "/") parts)))
unfolding get_filename
get_filename-parts url parts t e = rw (has-contains b'?' url, t, e) refl

-- A URL with a query: the name is what stands between the last slash of the path and the query.
pub get_filename-query :
    (dir name query : Bytes)
    → IsField b'?' (dir ++ (b'/' ∷ name))
    → IsField b'/' name
    → IsField b'?' query
    → get_filename ((dir ++ (b'/' ∷ name)) ++ (b'?' ∷ query)) ≡ some name
get_filename-query dir name query p h q =
    get_filename-parts (path ++ (b'?' ∷ query)) (path ∷ (query ∷ [])) (contains-query path query)
      (stringexplode-join b'?' (path ∷ (query ∷ [])) (p, (q, tt)))
    ∙ rw (stringexplode-pieces path (codes "/") (path ∷ (query ∷ [])))
        (last_part-pieces [] dir name (path ∷ (query ∷ [])) h)
  where
    path : Bytes
    path = dir ++ (b'/' ∷ name)

-- With a slash between two question marks the name is the whole text behind them, slashes included.
pub get_filename_escapes :
    (p query : Bytes)
    → IsField b'?' p
    → IsField b'?' query
    → get_filename (p ++ (b'?' ∷ (b'/' ∷ (b'?' ∷ query)))) ≡ some query
get_filename_escapes p query h q =
    get_filename-parts (p ++ (b'?' ∷ (b'/' ∷ (b'?' ∷ query)))) parts
      (contains-query p (b'/' ∷ (b'?' ∷ query)))
      (stringexplode-join b'?' parts (h, (slash, (q, tt))))
    ∙ rw (stringexplode-pieces (b'/' ∷ []) (codes "/") parts) (unfold pieces contains in refl)
  where
    parts : List Bytes
    parts = p ∷ ((b'/' ∷ []) ∷ (query ∷ []))

    slash : IsField b'?' (b'/' ∷ [])
    slash = record { filled = refl; free = unfold contains in refl }

-- A path with a query behind it, or without one.
abbrev pub with_query : Bytes → Option Bytes → Bytes
with_query path none = path
with_query path (some query) = path ++ (b'?' ∷ query)

abbrev pub IsQuery : Option Bytes → Type 0
IsQuery none = Unit
IsQuery (some query) = IsField b'?' query

get_filename-with_query :
    (dir name : Bytes) (query : Option Bytes)
    → IsField b'?' (dir ++ (b'/' ∷ name))
    → IsField b'/' name
    → IsQuery query
    → get_filename (with_query (dir ++ (b'/' ∷ name)) query) ≡ some name
get_filename-with_query dir name none p h q = get_filename-path dir name p.free h
get_filename-with_query dir name (some query) p h q = get_filename-query dir name query p h q

-- A match of a name.
abbrev pub matched_name : Bytes → Bytes → Resposta
matched_name domain name = record {
  matched = true;
  domain = domain;
  file = name;
  range_min = pos 0;
  range_max = pos 0;
}

answer-matched_name :
    (domain name : Bytes) → is_empty name ≡ false → answer domain name ≡ matched_name domain name
unfolding answer
answer-matched_name domain name h = rw h refl

-- Of a URL whose test is true the plugin matches the domain of its site with what stands between the
-- last slash of the path and the query, or the end if there is no query, as the name; of any other it
-- matches nothing. The path has no question mark, and the query no second one, and neither it nor the
-- name is empty.
pub hgetmatch2-with_query :
    (p : Site) (dir name : Bytes) (query : Option Bytes)
    → IsField b'?' (dir ++ (b'/' ∷ name))
    → IsField b'/' name
    → IsQuery query
    → hgetmatch2 p (with_query (dir ++ (b'/' ∷ name)) query)
      ≡ some (
          if p.test (with_query (dir ++ (b'/' ∷ name)) query)
          then matched_name p.domain name
          else no_match)
unfolding hgetmatch2
hgetmatch2-with_query p dir name query path h q =
    elim (Bool-cases (p.test (with_query (dir ++ (b'/' ∷ name)) query))) [
      | inr t ↦ rw t refl
      | inl t ↦
          rw (t, get_filename-with_query dir name query path h q)
            (ap some (answer-matched_name p.domain name h.filled))
    ]
