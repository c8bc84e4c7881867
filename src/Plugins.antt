-- ===== src/Plugins.antt =====
-- The plugins, haarp/plugins: from a URL, whether the proxy caches what it names, and under which
-- name. Here is what those share that take the name from the last part of the path.
pub mod Name
pub mod Sites
use haarpcache.Base.{
  ℕ, ℤ, pos, ◌+◌, ◌≡◌, if◌then◌else◌, Bool, true, false, not, ◌&&◌, ◌||◌, List, [], ◌∷◌, Option,
  none, some, ◌>>=◌,
}
use haarpcache.Text.{Bytes, codes, is_empty, find, found}
use haarpcache.Text.Explode.{stringexplode}

-- `resposta`. A plugin leaves `total_file_size` and `exist_range` as they are.
pub record Resposta : Type 0 where
  pub matched : Bool
  pub domain : Bytes
  pub file : Bytes
  pub range_min : ℤ
  pub range_max : ℤ

-- `url.find(part) != string::npos`.
abbrev pub has : Bytes → Bytes → Bool
has part url = found (find part url)

-- `resultado.at(resultado.size() - 1)`; `none` is the exception `out_of_range`.
abbrev pub last_part : List Bytes → Option Bytes
last_part [] = none
last_part (x ∷ []) = some x
last_part (x ∷ y ∷ ys) = last_part (y ∷ ys)

-- `resultado.at(resultado.size() - 2)`.
abbrev pub last_but_one : List Bytes → Option Bytes
last_but_one [] = none
last_but_one (x ∷ []) = none
last_but_one (x ∷ y ∷ []) = some x
last_but_one (x ∷ y ∷ z ∷ zs) = last_but_one (y ∷ z ∷ zs)

-- `get_filename`. Both calls of `stringexplode` add to the same vector.
unfoldable pub get_filename : Bytes → Option Bytes
unfolding find stringexplode
get_filename url =
    if has (codes "?") url
    then (do
      let parts = stringexplode url (codes "?") []
      path ← last_but_one parts
      last_part (stringexplode path (codes "/") parts))
    else last_part (stringexplode url (codes "/") [])

-- `hgetmatch2` behind its test of the URL: `domain` and the name, if it is not empty. Where `match`
-- is false, the other members that are set are read by nobody.
unfoldable pub answer : Bytes → Bytes → Resposta
answer domain file = record {
  matched = not (is_empty file);
  domain = if is_empty file then [] else domain;
  file = file;
  range_min = pos 0;
  range_max = pos 0;
}

abbrev pub no_match : Resposta
no_match = record { matched = false; domain = []; file = []; range_min = pos 0; range_max = pos 0 }

-- What one of these plugins tests in the URL, and the domain that it answers.
pub record Site : Type 0 where
  pub test : Bytes → Bool
  pub domain : Bytes

-- `hgetmatch2`; `none` is an exception.
unfoldable pub hgetmatch2 : Site → Bytes → Option Resposta
hgetmatch2 p url =
    if p.test url then (do file ← get_filename url; some (answer p.domain file)) else some no_match
