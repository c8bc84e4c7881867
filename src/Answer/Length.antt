-- ===== src/Answer/Length.antt =====
-- The length of an answer and what follows from it: `getValuesHeader` of haarp/utils.cpp for a
-- number, and `getOnlyContentLength` and the first branch of `ReadHeader` of
-- haarp/connectiontohttp2.cpp. The match of a regular expression without regard to case is an
-- argument: it gives the part of the line that matches, or the empty text.
use haarpcache.Base.{
  ℤ, pos, negsuc, ltb_ℤ, if◌then◌else◌, Bool, List, [], ◌∷◌, ◌++◌, Option, none, some, ◌>>=◌,
}
use haarpcache.Text.{Bytes, codes, is_empty, trimstr}
use haarpcache.Text.Explode.{stringexplode}
use haarpcache.Text.Match.{splitstring_nocase}
use haarpcache.Text.Number.{atoll}
use haarpcache.Plan.{Plan, cache2}
use haarpcache.Answer.{is_for_cache, learn_partial}

-- The first part; `none` is the exception of `at`.
unfoldable pub trimmed : List Bytes → Option Bytes
unfolding trimstr
trimmed [] = none
trimmed (x ∷ parts) = some (trimstr x)

-- The number, or -1 where there is none.
unfoldable pub length_of : Bytes → ℤ
unfolding atoll
length_of scl = if is_empty scl then negsuc 0 else atoll scl

module _ (regex_match_nocase : Bytes → Bytes → Bytes) where
  -- The loop over the lines of `getValuesHeader` with V_INT.
  unfoldable pub values_loop : Bytes → List Bytes → Option Bytes
  unfolding splitstring_nocase trimmed
  values_loop label [] = some []
  values_loop label (line ∷ lines) =
      let rest = values_loop label lines in
      let value = regex_match_nocase (label ++ codes " ?[0-9]+") line in
      if is_empty (regex_match_nocase label line)
      then rest
      else if is_empty value
      then rest
      else trimmed (splitstring_nocase value label [])

  -- `getValuesHeader` with V_INT.
  unfoldable pub get_values_header : Bytes → Bytes → Option Bytes
  unfolding values_loop stringexplode
  get_values_header header label = values_loop label (stringexplode header (codes "\r\n") [])

  -- `getOnlyContentLength`.
  unfoldable pub get_only_content_length : Bytes → Option ℤ
  unfolding is_for_cache get_values_header length_of
  get_only_content_length header =
      if is_for_cache header
      then (get_values_header header (codes "Content-Length:") >>= (λ scl. some (length_of scl)))
      else some (negsuc 0)

  -- `ReadHeader` for a file of unknown size, behind the answer of the server.
  unfoldable pub plan_answer : Bool → Bytes → Plan → Option Plan
  unfolding learn_partial get_only_content_length cache2
  plan_answer partial header s = (if partial then learn_partial header s else some s) >>= (λ s'.
      get_only_content_length header
      >>= (λ cl. some (if ltb_ℤ cl (pos 0) then s' else cache2 cl s')))
