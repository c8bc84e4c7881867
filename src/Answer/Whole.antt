-- ===== src/Answer/Whole.antt =====
-- From the text of an answer to the blocks of the request (haarp/connectiontohttp2.cpp).
use haarpcache.Base.{
  inl, ℕ, ◌≡◌, true, false, inl, ℤ, pos, ◌+ℤ◌, ◌-ℤ◌, leb_ℤ, if◌then◌else◌, List, [], ◌∷◌, ◌++◌,
  Option, some, All,
}
use haarpcache.Text.{is_empty, Bytes, codes, contains}
use haarpcache.Text.Explode.{stringexplode}
use haarpcache.Intervals.{Intervals, one}
use haarpcache.Plan.{Plan}
use haarpcache.Answer.Content.{label, length_line}
use haarpcache.Plan.Blocks.{IsPlan}
use haarpcache.Answer.{is_for_cache}
use haarpcache.Answer.Size.{size_line, IsOther}

-- A request after its answer, `learnt` being the state with the size of the file. If the answer is
-- one for the cache, the request has the range from its first byte `a` on that is as long as the
-- answer, the blocks of it as `getRangeWork` cuts it, and the size of the file. If it is none, there
-- is only the size.
pub data IsAnswered (header : Bytes) (l : Intervals) (a : ℤ) (length size : ℕ) (learnt : Plan)
    (x : Option Plan) : Type 0 where
  planned :
      is_for_cache header ≡ true
      → (s : Plan) → x ≡ some s
      → IsPlan l a (pos length +ℤ a -ℤ one) s
      → s.range_max ≡ pos length +ℤ a -ℤ one
      → s.size_orig_file ≡ pos size
      → IsAnswered header l a length size learnt x
  refused :
      is_for_cache header ≡ false → x ≡ some learnt → IsAnswered header l a length size learnt x

-- The lines of an answer to a request of a range: one Content-Length line with the length behind lines
-- that the expression "Content-Length:" does not match, and one Content-Range line with the size, whose
-- only slash stands before it, behind lines of another kind. The expressions match the former line.
pub record HasAnswer (regex : Bytes → Bytes → Bytes) (header : Bytes) (length size : ℕ)
    : Type 0 where
  pub front : List Bytes
  pub back : List Bytes
  pub lines_of_length :
      stringexplode header (codes "\r\n") [] ≡ front ++ (length_line length ∷ back)
  pub quiet : All (λ line. is_empty (regex label line) ≡ true) front
  pub seen : is_empty (regex label (length_line length)) ≡ false
  pub value : regex (label ++ codes " ?[0-9]+") (length_line length) ≡ length_line length
  pub status : Bytes
  pub before : List Bytes
  pub after : List Bytes
  pub text : Bytes
  pub lines_of_size :
      stringexplode header (codes "\r\n") [] ≡ status ∷ (before ++ (size_line text size ∷ after))
  pub others : All IsOther before
  pub no_slash : contains text b'/' ≡ false

-- The state with the size, and an end of the range where it has none.
abbrev pub with_size : ℕ → Plan → Plan
with_size size s = record s {
  size_orig_file = pos size;
  sizes = s.sizes ++ (pos size ∷ []);
  range_max = if leb_ℤ s.range_max (pos 0) then pos size -ℤ one else s.range_max;
}
