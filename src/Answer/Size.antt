-- ===== src/Answer/Size.antt =====
-- The size of the file that `UpdateFileSizeinPartial` (haarp/connectiontohttp2.cpp) reads.
use haarpcache.Base.{
  ℕ, ◌≡◌, refl, ap, ◌∙◌, false, Bool-cases, inl, inr, pos, ◌-ℤ◌, leb_ℤ, if◌then◌else◌, List, [],
  ◌∷◌, ◌++◌, some, All,
}
use haarpcache.Text.{Bytes, codes, is_prefix, contains}
use haarpcache.Text.Explode.{stringexplode, stringexplode-join}
use haarpcache.Text.Number.{is_digit, print, atoll-print, print_pos-IsField}
use haarpcache.Intervals.{one}
use haarpcache.Plan.{Plan}
use haarpcache.Answer.{
  content_range, size_or, size_loop, set_size, update_file_size_in_partial, learn_partial,
}

-- "Content-Range: bytes", a text, a slash and the size.
abbrev pub size_line : Bytes → ℕ → Bytes
size_line text size = content_range ++ (text ++ (b'/' ∷ print (pos size)))

-- A line of another kind.
abbrev pub IsOther : Bytes → Type 0
IsOther line = is_prefix content_range line ≡ false

explode-size_line :
    (text : Bytes) (size : ℕ)
    → contains text b'/' ≡ false
    → stringexplode (size_line text size) (codes "/") []
      ≡ (content_range ++ text) ∷ (print (pos size) ∷ [])
unfolding contains is_digit
explode-size_line text size h =
    stringexplode-join b'/' ((content_range ++ text) ∷ (print (pos size) ∷ []))
      (record { filled = refl; free = h }, (print_pos-IsField b'/' size refl, tt))

size_loop-size_line :
    (before after : List Bytes) (text : Bytes) (size : ℕ)
    → All IsOther before
    → contains text b'/' ≡ false
    → size_loop [] (before ++ (size_line text size ∷ after)) ≡ some (pos size)
unfolding size_loop is_prefix
size_loop-size_line [] after text size others h =
    ap (λ v. size_or (size_loop v after) v) (explode-size_line text size h)
    ∙ ap some (atoll-print (pos size))
size_loop-size_line (x ∷ before) after text size others h =
    rw others.0 (size_loop-size_line before after text size others.1 h)

update_lines :
    (header first : Bytes) (lines : List Bytes) (s : Plan)
    → stringexplode header (codes "\r\n") [] ≡ first ∷ lines
    → update_file_size_in_partial header s ≡ some (set_size (size_loop [] lines) s)
unfolding update_file_size_in_partial
update_lines header first lines s e = rw (e, update_file_size_in_partial) refl

-- The answer to a request of a range, with lines of any other kind before its first Content-Range
-- line and any lines behind it, gives the file the size behind the slash of that line, which is sent
-- to the data base, and the range an end where it has none, if there is no other slash in the line.
pub learn_partial-size_line :
    (header first : Bytes) (before after : List Bytes) (text : Bytes) (size : ℕ) (s : Plan)
    → stringexplode header (codes "\r\n") [] ≡ first ∷ (before ++ (size_line text size ∷ after))
    → All IsOther before
    → contains text b'/' ≡ false
    → learn_partial header s
      ≡ some (record s {
        size_orig_file = pos size;
        sizes = s.sizes ++ (pos size ∷ []);
        range_max = if leb_ℤ s.range_max (pos 0) then pos size -ℤ one else s.range_max;
      })
unfolding learn_partial
learn_partial-size_line header first before after text size s e others h =
    let read = size_loop-size_line before after text size others h in
    let updated =
      update_lines header first (before ++ (size_line text size ∷ after)) s e
      ∙ ap (λ n. some (set_size n s)) read in
    rw (updated, learn_partial)
      (elim (Bool-cases (leb_ℤ s.range_max (pos 0))) [ inl t ↦ rw t refl | inr t ↦ rw t refl ])
