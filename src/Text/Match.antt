-- ===== src/Text/Match.antt =====
-- `MatchBegin` and `MatchSubstr`, `SearchReplace` and `SearchReplaceAny`, `splitstring` and
-- `splitstring_nocase` (haarp/utils.cpp). The strings that are matched have no zero byte,
-- and what is searched for and replaced is not empty.
use haarpcache.Base.{
  ℕ, zero, suc, ◌+◌, ltb, ◌==◌, if◌then◌else◌, Bool, false, ℤ, pos, negsuc, List, [], ◌∷◌, ◌++◌,
  none, some, length, take, drop,
}
use haarpcache.Text.{Bytes, is_prefix, is_empty, find, found, upper_case}

-- `MatchBegin`: the first bytes are compared.
unfoldable pub match_begin : Bytes → Bytes → ℕ → Bool
unfolding is_prefix
match_begin hay needle needlelength = is_prefix (take needlelength needle) hay

-- `MatchSubstr` with the start -1: the part is anywhere.
unfoldable pub match_anywhere : Bytes → Bytes → Bool
unfolding find
match_anywhere hay needle = found (find needle hay)

-- `MatchSubstr`: the part is found first at this place.
unfoldable pub match_substr : Bytes → Bytes → ℕ → Bool
unfolding find
match_substr hay needle startpos = elim (find needle hay) [ none ↦ false | some i ↦ i == startpos ]

-- The loop of `SearchReplace` and `SearchReplaceAny`: the source and the number of replacements. It
-- goes on behind each replacement, in a shorter rest.
unfoldable pub replace_loop : ℕ → Bytes → Bytes → Bytes → Bytes × ℕ
unfolding find
replace_loop zero search replace rest = (rest, 0)
replace_loop (suc fuel) search replace rest = elim (find search rest) [
  | none ↦ (rest, 0)
  | some position ↦
      let r = replace_loop fuel search replace (drop (position + length search) rest) in
      (take position rest ++ (replace ++ r.0), suc r.1)
]

-- `SearchReplaceAny`.
unfoldable pub search_replace_any : Bytes → Bytes → Bytes → Bytes × ℕ
unfolding replace_loop
search_replace_any source search replace = replace_loop (suc (length source)) search replace source

-- `SearchReplace`: -1 if the replacement is empty.
unfoldable pub search_replace : Bytes → Bytes → Bytes → Bytes × ℤ
unfolding replace_loop
search_replace source search replace =
    let r = replace_loop (suc (length source)) search replace source in
    if is_empty replace then (source, negsuc 0) else (r.0, pos (r.1))

-- The loop of `splitstring`, for a separator that is not empty.
unfoldable pub split_loop : ℕ → Bytes → Bytes → List Bytes → List Bytes
unfolding find
split_loop zero separator str results = results
split_loop (suc fuel) separator str results = elim (find separator str) [
  | none ↦ if ltb 0 (length str) then results ++ (str ∷ []) else results
  | some i ↦
      split_loop fuel separator (drop (i + length separator) str)
        (if ltb 0 i then results ++ (take i str ∷ []) else results)
]

-- `splitstring`.
unfoldable pub splitstring : Bytes → Bytes → List Bytes → List Bytes
unfolding split_loop
splitstring str separator = split_loop (suc (length str)) separator str

-- The loop of `splitstring_nocase`, over the string and its upper-case copy.
unfoldable pub split_nocase_loop : ℕ → Bytes → Bytes → Bytes → List Bytes → List Bytes
unfolding find
split_nocase_loop zero separator str ustr results = results
split_nocase_loop (suc fuel) separator str ustr results = elim (find separator ustr) [
  | none ↦ if ltb 0 (length str) then results ++ (str ∷ []) else results
  | some i ↦
      split_nocase_loop fuel separator (drop (i + length separator) str)
        (drop (i + length separator) ustr)
        (if ltb 0 i then results ++ (take i str ∷ []) else results)
]

-- `splitstring_nocase`.
unfoldable pub splitstring_nocase : Bytes → Bytes → List Bytes → List Bytes
unfolding split_nocase_loop upper_case
splitstring_nocase str separator =
    split_nocase_loop (suc (length str)) (upper_case separator) str (upper_case str)
