-- ===== src/Http/Chunk/Line.antt =====
-- What the loop of `ReadBodyPart` (haarp/httphandler.cpp) reads from the line in front of a chunk,
-- when the line is at hand.
use haarpcache.Base.{
  ℕ, suc, ◌+◌, ◌-◌, ◌≤◌, ◌<◌, ◌≡◌, refl, sym, ap, ◌∙◌, ◌==◌, ltb, leb, not, true, false, ◌||◌, pos,
  List, [], ◌∷◌, ◌++◌, some, arith, length, length-append, take, drop, All, All-map, map,
  append_assoc, take_front, drop_front,
}
use mathlib.Core.List.{map-append}
use mathlib.Core.Path.{ap₂}
use haarpcache.Text.{Bytes, is_empty, find, find_first_not_of, contains, upper_case, to_upper}
use haarpcache.Text.Find.{find_here, is_prefix_self, find-behind, find_if-append}
use haarpcache.Socket.{Arrival, Socket, socket, received, recv, recv_length}
use haarpcache.Http.Hex.{
  hex_set, hex_digit, print_hex, scan_hex, All-hex_digits, hex_digit-IsHex, to_upper-hex_digit,
  scan_hex-hex_digits, length-hex_digits,
}
use haarpcache.Http.Chunk.{crlf, chunk_size, read_size, size_round}
use haarpcache.Http.Chunk.Round.{round-zero, round-suc}

-- What may stand behind the size: nothing, or an extension without a line's end.
pub data IsExtension : Bytes → Type 0 where
  no_extension : IsExtension []
  extension : (e : Bytes) → contains e b'\r' ≡ false → IsExtension (b';' ∷ e)

-- The line in front of `n` bytes of data.
abbrev pub size_line : ℕ → Bytes → Bytes
size_line n ext = print_hex n ++ ext

-- A digit that `UpperCase` keeps.
abbrev IsKept : ℕ → Type 0
IsKept c = (not (contains hex_set c) ≡ false) × (to_upper c ≡ c) × ((c == b'\r') ≡ false)

hex_digit_inner : (d : ℕ) → d < 16 → (hex_digit d == b'\r') ≡ false
unfolding hex_digit
hex_digit_inner d h = ground arith

hex_digit-IsKept : (d : ℕ) → d < 16 → IsKept (hex_digit d)
hex_digit-IsKept d h = (ap not (hex_digit-IsHex d h), to_upper-hex_digit d h, hex_digit_inner d h)

upper_case-kept : (s : Bytes) → All IsKept s → upper_case s ≡ s
unfolding upper_case
upper_case-kept [] h = refl
upper_case-kept (c ∷ s) h = ap₂ ◌∷◌ h.0.1 (upper_case-kept s h.1)

extension_free : (ext : Bytes) → IsExtension ext → contains ext b'\r' ≡ false
unfolding contains
extension_free _ no_extension = refl
extension_free _ (extension e free) = free

line_free :
    (s ext : Bytes) → All IsKept s → contains ext b'\r' ≡ false → contains (s ++ ext) b'\r' ≡ false
unfolding contains
line_free [] ext h free = free
line_free (c ∷ s) ext h free = rw (h.0.2, line_free s ext h.1 free) refl

-- Behind the size stands a byte that is no digit.
behind :
    (ext more : Bytes)
    → IsExtension ext
    → (c : ℕ) × (s : Bytes) × (upper_case (ext ++ (crlf ++ more)) ≡ c ∷ s)
      × (not (contains hex_set c) ≡ true)
unfolding upper_case to_upper contains
behind _ more no_extension = (b'\r', _, refl, refl)
behind _ more (extension e free) = (b';', _, refl, refl)

pub recv_length-buffer :
    (sock_in buf : Bytes) (n : ℕ) (net : List Arrival)
    → n ≤ length buf
    → (recv_length sock_in n (socket buf net)).rest ≡ socket (drop n buf) net
unfolding recv_length
recv_length-buffer sock_in buf n net h =
    let t : leb n (length buf) ≡ true = ground arith in rw t refl

print_hex-IsKept : (n : ℕ) → All IsKept (print_hex n)
unfolding print_hex
print_hex-IsKept n = All-hex_digits IsKept hex_digit-IsKept (suc n) n

-- The size has one to six digits.
print_hex_bounds : (n : ℕ) → n ≤ 1048576 → (0 < length (print_hex n)) × (length (print_hex n) ≤ 6)
unfolding print_hex
print_hex_bounds n h = length-hex_digits 5 (suc n) n (omega arith) (omega arith)

scan_hex-print_hex : (n : ℕ) → scan_hex 0 (print_hex n) ≡ n
unfolding print_hex
scan_hex-print_hex n = scan_hex-hex_digits (suc n) n (omega arith)

chunk_size_found :
    (temp : Bytes) (position hpos : ℕ) (s : Socket)
    → find_first_not_of hex_set (upper_case temp) ≡ some hpos
    → 0 < hpos
    → hpos ≤ 7
    → chunk_size temp position s
      ≡ (some (scan_hex 0 (take hpos (upper_case temp))), (recv_length temp (position + 2) s).rest)
unfolding chunk_size
chunk_size_found temp position hpos s e low high =
    rw (e, chunk_size) (let ok : (ltb hpos 1 || ltb 7 hpos) ≡ false = ground arith in rw ok refl)

filled : (s : Bytes) (k : ℕ) → length s ≡ suc k → is_empty s ≡ false
filled [] k h = absurd (omega arith)
filled (c ∷ s) k h = refl

pub recv_held :
    (buf : Bytes) (net : List Arrival)
    → is_empty buf ≡ false
    → recv [] false (socket buf net) ≡ received (pos (length buf)) buf (socket buf net)
unfolding recv
recv_held buf net h = rw h refl

-- The line of a chunk of `n` bytes with what came behind it, all at hand.
module _ (n : ℕ) (ext more : Bytes) (net : List Arrival) (x : IsExtension ext) where
  abbrev pub text : Bytes
  text = size_line n ext ++ (crlf ++ more)

  upper_case-text : upper_case text ≡ print_hex n ++ upper_case (ext ++ (crlf ++ more))
  unfolding upper_case
  upper_case-text =
      ap (map to_upper) (append_assoc (print_hex n) ext (crlf ++ more))
      ∙ map-append to_upper (print_hex n) (ext ++ (crlf ++ more))
      ∙ ap (λ k. k ++ map to_upper (ext ++ (crlf ++ more)))
          (upper_case-kept (print_hex n) (print_hex-IsKept n))

  size_end : find_first_not_of hex_set (upper_case text) ≡ some (length (print_hex n))
  size_end =
      let (c, s, e, out) = behind ext more x in
      ap (find_first_not_of hex_set) (upper_case-text ∙ ap (λ k. print_hex n ++ k) e)
      ∙ find_if-append (λ d. not (contains hex_set d)) (print_hex n) c s
          (All-map (λ d h. h.0) (print_hex n) (print_hex-IsKept n)) out

  size_read : scan_hex 0 (take (length (print_hex n)) (upper_case text)) ≡ n
  size_read =
      ap (λ k. scan_hex 0 (take (length (print_hex n)) k)) upper_case-text
      ∙ ap (scan_hex 0) (take_front (print_hex n) (upper_case (ext ++ (crlf ++ more))))
      ∙ scan_hex-print_hex n

  line_end : find crlf text ≡ some (length (size_line n ext))
  line_end =
      find-behind b'\r' (b'\n' ∷ []) (size_line n ext) more
        (line_free (print_hex n) ext (print_hex-IsKept n) (extension_free ext x))

  taken_line :
      (recv_length text (length (size_line n ext) + 2) (socket text net)).rest ≡ socket more net
  taken_line =
      recv_length-buffer text text (length (size_line n ext) + 2) net
        (omega (arith, length-append (size_line n ext) (crlf ++ more)))
      ∙ ap (λ k. socket k net) (drop_front (size_line n ext) (crlf ++ more) 2)

  chunk_size_lem :
      n ≤ 1048576
      → chunk_size text (length (size_line n ext)) (socket text net) ≡ (some n, socket more net)
  chunk_size_lem h =
      let (low, high) = print_hex_bounds n h in
      chunk_size_found text (length (size_line n ext)) (length (print_hex n)) (socket text net)
        size_end low (omega (arith, high))
      ∙ ap₂ (λ a b. (some a, b)) size_read taken_line

  text_cons :
      n ≤ 1048576 → (k : ℕ) × (i : ℕ) × (length text ≡ suc k) × (length (size_line n ext) ≡ suc i)
  text_cons h =
      let (low, high) = print_hex_bounds n h in
      (
        length text - 1,
        length (size_line n ext) - 1,
        omega (
          arith,
          low,
          length-append (size_line n ext) (crlf ++ more),
          length-append (print_hex n) ext,
        ),
        omega (arith, low, length-append (print_hex n) ext),
      )

  -- The line is read at once.
  pub line_shown :
      (f : ℕ) (s : Socket)
      → n ≤ 1048576
      → recv [] false s ≡ received (pos (length text)) text (socket text net)
      → read_size (suc f) [] 0 s ≡ (some n, socket more net)
  unfolding read_size
  line_shown f s h e =
      let (k, i, tk, ti) = text_cons h in
      ap (size_round (read_size f) 0) (e ∙ ap (λ m. received (pos m) text (socket text net)) tk)
      ∙ round-suc (read_size f) 0 k text (socket text net) i (line_end ∙ ap some ti)
      ∙ ap (λ m. chunk_size text m (socket text net)) (sym ti)
      ∙ chunk_size_lem h

  text_filled : n ≤ 1048576 → is_empty text ≡ false
  text_filled h = let (k, i, tk, ti) = text_cons h in filled text k tk

  -- The end of the chunk before stands in front of the line.
  pub end_shown :
      (f : ℕ) (s : Socket)
      → n ≤ 1048576
      → recv [] false s
        ≡ received (pos (length (crlf ++ text))) (crlf ++ text) (socket (crlf ++ text) net)
      → read_size (suc (suc f)) [] 0 s ≡ (some n, socket more net)
  unfolding read_size
  end_shown f s h e =
      ap (size_round (read_size (suc f)) 0) e
      ∙ round-zero (read_size (suc f)) 0 (suc (length text)) (crlf ++ text)
          (socket (crlf ++ text) net)
          (find_here crlf b'\r' (b'\n' ∷ text) (is_prefix_self crlf text))
      ∙ ap (read_size (suc f) [] 0)
          (recv_length-buffer (crlf ++ text) (crlf ++ text) 2 net (omega arith))
      ∙ line_shown f (socket text net) h (recv_held text net (text_filled h))
