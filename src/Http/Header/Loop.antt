-- ===== src/Http/Header/Loop.antt =====
-- The second loop of `ReadHeader` (haarp/httphandler.cpp), which looks for the empty line.
use haarpcache.Base.{
  ℕ, zero, suc, ◌+◌, ◌-◌, ◌%◌, ◌^◌, ◌≤◌, ◌<◌, ◌≡◌, refl, subst, sym, ap, ◌∙◌, ltb, leb,
  if◌then◌else◌, true, false, Bool-cases, pos, inl, inr, List, [], ◌∷◌, ◌++◌, none, some, arith,
  length, length-append, take, drop, take_front, drop_exact, take-append_long, drop-append_long,
  append_assoc, ltb_ℤ,
}
use mathlib.Core.Path.{ap₂}
use haarpcache.Text.{Bytes, find}
use haarpcache.Text.Find.{find-append, find-front_none}
use haarpcache.Socket.{Arrival, arrived, Socket, socket, taken, received, recv, recv_length}
use haarpcache.Socket.Stream.{stream, incoming, recv_length-IsRead}
use haarpcache.Socket.Peek.{weight_net}
use haarpcache.Http.Chunk.{crlf}
use haarpcache.Http.Header.{
  Header, header, header_loop, read_last, read_on, empty_line, bare_empty_line, max_header_length,
}
use haarpcache.Http.Header.Net.{Uncut, next, IsNext}

-- The header was read up to its empty line, and what comes behind it stays in the socket.
pub record IsHeader (head rest : Bytes) (r : Header) : Type 0 where
  pub ok : r.ok ≡ true
  pub text : r.header ≡ head ++ crlf
  pub kept : stream r.rest ≡ rest

-- What was read and the rest, if both make up the same bytes.
cut_text :
    (xs ys ps qs : Bytes)
    → xs ++ ys ≡ ps ++ qs
    → length xs ≤ length ps
    → xs ++ take (length ps - length xs) ys ≡ ps
cut_text xs ys ps qs e h =
    sym (take-append_long (length ps) xs ys h) ∙ ap (take (length ps)) e ∙ take_front ps qs

cut_rest :
    (xs ys ps qs : Bytes)
    → xs ++ ys ≡ ps ++ qs
    → length xs ≤ length ps
    → drop (length ps - length xs) ys ≡ qs
cut_rest xs ys ps qs e h =
    sym (drop-append_long (length ps) xs ys h) ∙ ap (drop (length ps)) e ∙ drop_exact ps qs

-- A read up to the end of `ps`.
read_up_to :
    (xs ps qs : Bytes) (n : ℕ) (s : Socket)
    → xs ++ stream s ≡ ps ++ qs
    → length xs ≤ length ps
    → n ≡ length ps - length xs
    → ((recv_length xs n s).ok ≡ true)
      × ((recv_length xs n s).sock_in ≡ ps)
      × (stream ((recv_length xs n s).rest) ≡ qs)
read_up_to xs ps qs n s e h m =
    let read = recv_length-IsRead xs n s in
    let ok : (recv_length xs n s).ok ≡ true =
      read.enough
      ∙ ground (arith, m, ap length e, length-append xs (stream s), length-append ps qs) in
    (
      ok,
      read.text ok ∙ ap (λ k. xs ++ take k (stream s)) m ∙ cut_text xs (stream s) ps qs e h,
      read.kept ok ∙ ap (λ k. drop k (stream s)) m ∙ cut_rest xs (stream s) ps qs e h,
    )

wrap : (h p : ℕ) → p ≤ h + 2 → h ≤ 65536 → (h + 2 + 2 ^ 32 - p) % 2 ^ 32 ≡ h + 2 - p
wrap h p le small = omega arith

read_last_ok :
    (position poscount : ℕ) (header_t temp : Bytes) (s : Socket)
    → (recv_length header_t ((position + 2 + 2 ^ 32 - poscount) % 2 ^ 32) s).ok ≡ true
    → (recv_length temp 2
        ((recv_length header_t ((position + 2 + 2 ^ 32 - poscount) % 2 ^ 32) s).rest)).ok
      ≡ true
    → read_last false position poscount header_t temp s
      ≡ header true
          ((recv_length header_t ((position + 2 + 2 ^ 32 - poscount) % 2 ^ 32) s).sock_in)
          ((recv_length temp 2
            ((recv_length header_t ((position + 2 + 2 ^ 32 - poscount) % 2 ^ 32) s).rest)).rest)
unfolding read_last
read_last_ok position poscount header_t temp s h k = rw (h, k) refl

module _ (head rest : Bytes) where
  read_last-IsHeader :
      (header_t temp : Bytes) (s : Socket)
      → header_t ++ stream s ≡ (head ++ crlf) ++ (crlf ++ rest)
      → length header_t ≤ length head + 2
      → length head ≤ 65536
      → IsHeader head rest (read_last false (length head) (length header_t) header_t temp s)
  read_last-IsHeader header_t temp s e le small =
      let (ok, text, kept) =
        read_up_to header_t (head ++ crlf) (crlf ++ rest)
          ((length head + 2 + 2 ^ 32 - length header_t) % 2 ^ 32) s e
          (omega (arith, length-append head crlf))
          (wrap (length head) (length header_t) le small
            ∙ ap (λ k. k - length header_t) (sym (length-append head crlf))) in
      let read =
        recv_length-IsRead temp 2
          ((recv_length header_t ((length head + 2 + 2 ^ 32 - length header_t) % 2 ^ 32) s).rest) in
      let ok' = read.enough ∙ ap (λ k. leb 2 (length k)) kept ∙ two in
      subst (IsHeader head rest)
        (sym (read_last_ok (length head) (length header_t) header_t temp s ok ok'))
        (record { ok = refl; text = text; kept = read.kept ok' ∙ ap (drop 2) kept })
    where
      two : leb 2 (length (crlf ++ rest)) ≡ true
      two = ground arith

  -- The message: its first empty line is the one behind `head`, and no bare one stands before it.
  abbrev pub message : Bytes
  message = (head ++ crlf) ++ (crlf ++ rest)

  pub record IsHead : Type 0 where
    pub first : find empty_line message ≡ some (length head)
    pub clean : find bare_empty_line (head ++ crlf) ≡ none

  -- What a round finds in the bytes shown.
  found_empty :
      (temp more : Bytes)
      → IsHead
      → temp ++ more ≡ message
      → find empty_line temp
        ≡ (if leb (length head + 4) (length temp) then some (length head) else none)
  found_empty temp more m e =
      find-append empty_line temp more (length head) (omega arith)
        (ap (find empty_line) e ∙ m.first)

  found_bare :
      (temp more : Bytes)
      → IsHead
      → temp ++ more ≡ message
      → length temp ≤ length head + 2
      → find bare_empty_line temp ≡ none
  found_bare temp more m e le =
      find-front_none bare_empty_line temp (take (length (head ++ crlf) - length temp) more)
        (omega arith)
        (ap (find bare_empty_line) (
            cut_text temp more (head ++ crlf) (crlf ++ rest) e
              (omega (arith, length-append head crlf)))
          ∙ m.clean)

take_whole : (xs : Bytes) → take (length xs) xs ≡ xs
take_whole [] = refl
take_whole (x ∷ xs) = ap (◌∷◌ x) (take_whole xs)

drop_whole : (xs : Bytes) → drop (length xs) xs ≡ []
drop_whole [] = refl
drop_whole (x ∷ xs) = drop_whole xs

-- The whole buffer is taken.
pub recv_length_whole :
    (sock_in buf : Bytes) (net : List Arrival)
    → recv_length sock_in (length buf) (socket buf net)
      ≡ taken true (sock_in ++ buf) (socket [] net)
unfolding recv_length
recv_length_whole sock_in buf net =
    let ok : leb (length buf) (length buf) ≡ true = ground arith in
    rw ok (ap₂ (λ a b. taken true (sock_in ++ a) (socket b net)) (take_whole buf) (drop_whole buf))

-- More bytes are shown and the loop goes on.
pub read_on_shown :
    (more : Bytes → Bytes → ℕ → ℕ → ℕ → Socket → Header) (temp hdr shown : Bytes)
    (n poscount n_received k : ℕ) (s s' : Socket)
    → n_received + n ≤ 65536
    → recv temp false s ≡ received (pos (suc k)) shown s'
    → read_on more temp n poscount n_received (taken true hdr s)
      ≡ more hdr shown (suc k) (poscount + n) (n_received + n) s'
unfolding read_on
read_on_shown more temp hdr shown n poscount n_received k s s' h e =
    let low : ltb max_header_length (n_received + n) ≡ false = ground arith in
    let came : ltb_ℤ (pos (suc k)) (pos 1) ≡ false = ground arith in rw (low, e, came) refl

-- A round that finds nothing.
pub loop_on :
    (f : ℕ) (hdr temp : Bytes) (n poscount n_received : ℕ) (s : Socket)
    → find empty_line temp ≡ none
    → find bare_empty_line temp ≡ none
    → header_loop (suc f) hdr temp n poscount n_received s
      ≡ read_on (header_loop f) temp n poscount n_received (recv_length hdr n s)
unfolding header_loop
loop_on f hdr temp n poscount n_received s h k = rw (h, header_loop) (rw k refl)

pub loop_found :
    (f : ℕ) (hdr temp : Bytes) (n poscount n_received i : ℕ) (s : Socket)
    → find empty_line temp ≡ some i
    → header_loop (suc f) hdr temp n poscount n_received s ≡ read_last false i poscount hdr temp s
unfolding header_loop
loop_found f hdr temp n poscount n_received i s h = rw (h, header_loop) refl

module _ (head rest : Bytes) (m : IsHead head rest) (small : length head ≤ 65536) where
  -- A round that does not yet see the empty line.
  round_on :
      (f : ℕ) (hdr buf : Bytes) (net : List Arrival) (n_received : ℕ)
      → (hdr ++ buf) ++ incoming net ≡ message head rest
      → leb (length head + 4) (length (hdr ++ buf)) ≡ false
      → length (hdr ++ buf) ≤ length head + 2
      → n_received + (length head + 2) ≤ 65536 + length hdr
      → (c : ℕ) (b : Bytes) (later : List Arrival) → IsNext c b later net
      → header_loop (suc f) hdr (hdr ++ buf) (length buf) (length hdr) n_received (socket buf net)
        ≡ header_loop f
            (hdr ++ buf)
            ((hdr ++ buf) ++ (c ∷ b))
            (length (c ∷ b))
            (length (hdr ++ buf))
            (n_received + length buf)
            (socket (c ∷ b) later)
  round_on f hdr buf net n_received e t low fits c b later n =
      loop_on f hdr (hdr ++ buf) (length buf) (length hdr) n_received (socket buf net)
        (found_empty head rest (hdr ++ buf) (incoming net) m e ∙ rw t refl)
        (found_bare head rest (hdr ++ buf) (incoming net) m e low)
      ∙ ap (read_on (header_loop f) (hdr ++ buf) (length buf) (length hdr) n_received)
          (recv_length_whole hdr buf net)
      ∙ read_on_shown (header_loop f) (hdr ++ buf) (hdr ++ buf) ((hdr ++ buf) ++ (c ∷ b))
          (length buf) (length hdr) n_received (length b) (socket [] net) (socket (c ∷ b) later)
          (omega (arith, fits, low, length-append hdr buf)) (n.shown (hdr ++ buf))
      ∙ ap
          (λ k.
            header_loop f (hdr ++ buf) ((hdr ++ buf) ++ (c ∷ b)) (length (c ∷ b)) k
              (n_received + length buf) (socket (c ∷ b) later))
          (sym (length-append hdr buf))

  pub header_loop-IsHeader :
      (f : ℕ) (hdr buf : Bytes) (net : List Arrival) (n_received : ℕ)
      → weight_net net < f
      → (hdr ++ buf) ++ incoming net ≡ message head rest
      → length hdr ≤ length head + 2
      → Uncut (length head + 3 - length hdr) (arrived buf ∷ net)
      → (length (hdr ++ buf) ≤ length head + 2
          → n_received + (length head + 2) ≤ 65536 + length hdr)
      → IsHeader head rest
          (header_loop f hdr (hdr ++ buf) (length buf) (length hdr) n_received (socket buf net))
  unfolding stream
  header_loop-IsHeader zero hdr buf net n_received fuel e le uncut fits = absurd (omega arith)
  header_loop-IsHeader (suc f) hdr buf net n_received fuel e le uncut fits =
      elim (Bool-cases (leb (length head + 4) (length (hdr ++ buf)))) [
        | inl t ↦
            subst (IsHeader head rest)
              (sym (
                loop_found f hdr (hdr ++ buf) (length buf) (length hdr) n_received (length head)
                  (socket buf net)
                  (found_empty head rest (hdr ++ buf) (incoming net) m e ∙ (rw t refl))))
              (read_last-IsHeader head rest hdr (hdr ++ buf) (socket buf net)
                (sym (append_assoc hdr buf (incoming net)) ∙ e) le small)
        | inr t ↦
            let not_cut = uncut.0 in
            let low : length (hdr ++ buf) ≤ length head + 2 =
              ground (arith, not_cut, length-append hdr buf) in
            let (c, b, later, n) = next net (
              omega (
                arith,
                low,
                ap length e,
                length-append (hdr ++ buf) (incoming net),
                length-append (head ++ crlf) (crlf ++ rest),
                length-append head crlf,
              )) in
            subst (IsHeader head rest)
              (sym (round_on f hdr buf net n_received e t low (fits low) c b later n))
              (header_loop-IsHeader f (hdr ++ buf) (c ∷ b) later (n_received + length buf)
                (omega (arith, n.lighter, fuel))
                (append_assoc (hdr ++ buf) (c ∷ b) (incoming later)
                  ∙ ap (λ k. (hdr ++ buf) ++ k) (sym n.whole)
                  ∙ e)
                low
                (n.uncut _ (
                  subst (λ k. Uncut k net) (omega (arith, length-append hdr buf))
                    (uncut.1 (omega (arith, low, length-append hdr buf)))))
                (λ _. omega (arith, fits low, length-append hdr buf)))
      ]
