-- ===== src/Http/Header/Skip.antt =====
-- The first loop of `ReadHeader` (haarp/httphandler.cpp), which skips white space, and the whole of
-- it.
use haarpcache.Base.{
  ℕ, zero, suc, ◌+◌, ◌*◌, ◌≤◌, ◌<◌, ◌≡◌, refl, subst, sym, ap, ◌∙◌, ltb, leb, not, true, false,
  Bool-cases, pos, inl, inr, List, [], ◌∷◌, ◌++◌, Option, none, some, arith, length, length-append,
  drop, All, All-split, ltb_ℤ, drop_exact,
}
use mathlib.Core.Path.{ap₂}
use haarpcache.Text.{Bytes, find_first_not_of, contains}
use haarpcache.Text.Find.{find_if-append, find_if-none}
use haarpcache.Socket.{Arrival, arrived, Socket, socket, received, recv, recv_length}
use haarpcache.Socket.Stream.{stream, incoming}
use haarpcache.Socket.Peek.{weight, weight_net}
use haarpcache.Http.Chunk.{crlf}
use haarpcache.Http.Chunk.Line.{recv_length-buffer, recv_held}
use haarpcache.Http.Header.{
  skip_round, skip_white, read_from, read_header, Start, start, white, max_header_length,
}
use haarpcache.Http.Header.Net.{Uncut, next, IsNext}
use haarpcache.Http.Header.Loop.{IsHeader, IsHead, message, header_loop-IsHeader, recv_length_whole}

abbrev pub IsWhite : ℕ → Type 0
IsWhite c = not (contains white c) ≡ false

heads_eq : (x y : ℕ) (xs ys : Bytes) → x ∷ xs ≡ y ∷ ys → x ≡ y
heads_eq x y xs ys h = cc

tails_eq : (x y : ℕ) (xs ys : Bytes) → x ∷ xs ≡ y ∷ ys → xs ≡ ys
tails_eq x y xs ys h = cc

-- Two ways to cut the same bytes.
split_at :
    (xs ys ps qs : Bytes)
    → xs ++ ys ≡ ps ++ qs
    → length xs ≤ length ps
    → (ms : Bytes) × (ps ≡ xs ++ ms) × (ys ≡ ms ++ qs)
split_at [] ys ps qs e h = (ps, refl, e)
split_at (x ∷ xs) ys [] qs e h = absurd (omega arith)
split_at (x ∷ xs) ys (p ∷ ps) qs e h =
    let (ms, f, g) = split_at xs ys ps qs (tails_eq x p (xs ++ ys) (ps ++ qs) e) (omega arith) in
    (ms, ap₂ ◌∷◌ (sym (heads_eq x p (xs ++ ys) (ps ++ qs) e)) f, g)

pub recv_length_zero : (s : Socket) → (recv_length [] 0 s).rest ≡ s
unfolding recv_length
recv_length_zero s = let ok : leb 0 (length s.recv_buf) ≡ true = ground arith in rw ok refl

module _ (more : ℕ → Socket → Option Start) (n k : ℕ) (buf : Bytes) (s : Socket) where
  skip-none :
      find_first_not_of white buf ≡ none
      → n + suc k ≤ 65536
      → skip_round more n (received (pos (suc k)) buf s)
        ≡ more (n + suc k) ((recv_length buf (suc k) s).rest)
  unfolding skip_round
  skip-none h fits =
      let came : ltb_ℤ (pos (suc k)) (pos 1) ≡ false = ground arith in
      let low : ltb max_header_length (n + suc k) ≡ false = ground arith in
      rw came (rw (h, skip_round) (rw low refl))

  pub skip-some :
      (i : ℕ)
      → find_first_not_of white buf ≡ some i
      → skip_round more n (received (pos (suc k)) buf s)
        ≡ some (start (drop i buf) (n + suc k) ((recv_length [] i s).rest))
  unfolding skip_round recv_length
  skip-some zero h =
      let came : ltb_ℤ (pos (suc k)) (pos 1) ≡ false = ground arith in
      rw came
        (rw (h, skip_round) (ap (λ r. some (start buf (n + suc k) r)) (sym (recv_length_zero s))))
  skip-some (suc i) h =
      let came : ltb_ℤ (pos (suc k)) (pos 1) ≡ false = ground arith in
      rw came (rw (h, skip_round) refl)

-- The start of a message was found: its first bytes are at hand, after all that was received.
pub record IsStart (all : Bytes) (k n : ℕ) (o : Option Start) : Type 0 where
  pub temp : Bytes
  pub net : List Arrival
  pub found : o ≡ some (start temp (n + length temp) (socket temp net))
  pub whole : temp ++ incoming net ≡ all
  pub uncut : Uncut k (arrived temp ∷ net)

IsWhite-before :
    (buf ws rest_ws : Bytes)
    → All IsWhite ws
    → ws ≡ buf ++ rest_ws
    → All IsWhite buf × All IsWhite rest_ws
IsWhite-before buf ws rest_ws h e = All-split IsWhite buf rest_ws (subst (All IsWhite) e h)

-- A piece of white space is skipped, and the next piece is shown.
white_shown_on :
    (f c : ℕ) (b : Bytes) (net : List Arrival) (n c' : ℕ) (b' : Bytes) (later : List Arrival)
    → IsNext c' b' later net
    → All IsWhite (c ∷ b)
    → n + suc (length b) ≤ 65536
    → skip_round
        (skip_white (suc f))
        n
        (received (pos (length (c ∷ b))) (c ∷ b) (socket (c ∷ b) net))
      ≡ skip_round
          (skip_white f)
          (n + suc (length b))
          (received (pos (length (c' ∷ b'))) (c' ∷ b') (socket (c' ∷ b') later))
unfolding skip_white
white_shown_on f c b net n c' b' later nx h fits =
    skip-none (skip_white (suc f)) n (length b) (c ∷ b) (socket (c ∷ b) net)
      (find_if-none (λ x. not (contains white x)) (c ∷ b) h) fits
    ∙ ap (λ r. skip_white (suc f) (n + suc (length b)) r.rest)
        (recv_length_whole (c ∷ b) (c ∷ b) net)
    ∙ ap (skip_round (skip_white f) (n + suc (length b))) (nx.shown [])

-- The message begins with a byte that is not white.
module _ (d : ℕ) (ds : Bytes) (black : not (contains white d) ≡ true) where
  -- White space and the first bytes of the message are shown.
  start_shown :
      (more : ℕ → Socket → Option Start) (ws ms : Bytes) (net : List Arrival) (n k : ℕ)
      → All IsWhite ws
      → (d ∷ ms) ++ incoming net ≡ d ∷ ds
      → Uncut (length ws + k) (arrived (ws ++ (d ∷ ms)) ∷ net)
      → IsStart (d ∷ ds) k (n + length ws) (
          skip_round more n (
            received
              (pos (length (ws ++ (d ∷ ms))))
              (ws ++ (d ∷ ms))
              (socket (ws ++ (d ∷ ms)) net)))
  start_shown more ws ms net n k h whole uncut = record {
    temp = d ∷ ms;
    net = net;
    found =
        ap
          (λ m. skip_round more n (received (pos m) (ws ++ (d ∷ ms)) (socket (ws ++ (d ∷ ms)) net)))
          size
        ∙ skip-some more n (length ws + length ms) (ws ++ (d ∷ ms)) (socket (ws ++ (d ∷ ms)) net)
            (length ws) (find_if-append (λ c. not (contains white c)) ws d ms h black)
        ∙ ap
            (λ t. some (
              start t (n + suc (length ws + length ms))
                ((recv_length [] (length ws) (socket (ws ++ (d ∷ ms)) net)).rest)))
            (drop_exact ws (d ∷ ms))
        ∙ ap₂ (λ m r. some (start (d ∷ ms) m r)) (omega arith)
            (recv_length-buffer [] (ws ++ (d ∷ ms)) (length ws) net (omega (arith, size))
              ∙ ap (λ t. socket t net) (drop_exact ws (d ∷ ms)));
    whole = whole;
    uncut = (
      (λ e. uncut.0 (omega (arith, e, size))),
      (λ lt. subst (λ m. Uncut m net) (omega (arith, size)) (uncut.1 (omega (arith, size)))),
    );
  }
    where
      size : length (ws ++ (d ∷ ms)) ≡ suc (length ws + length ms)
      size = omega (arith, length-append ws (d ∷ ms))

  cons_of : (ms rest : Bytes) → 0 < length ms → d ∷ ds ≡ ms ++ rest → (ms' : Bytes) × (ms ≡ d ∷ ms')
  cons_of [] rest h e = absurd (omega arith)
  cons_of (x ∷ ms) rest h e = (ms, ap (λ y. y ∷ ms) (sym (heads_eq d x ds (ms ++ rest) e)))

  pub skip-IsStart :
      (f : ℕ) (ws : Bytes) (c : ℕ) (b : Bytes) (net : List Arrival) (n k : ℕ)
      → weight_net net < f
      → All IsWhite ws
      → (c ∷ b) ++ incoming net ≡ ws ++ (d ∷ ds)
      → n + length ws ≤ 65536
      → 0 < k
      → Uncut (length ws + k) (arrived (c ∷ b) ∷ net)
      → IsStart (d ∷ ds) k (n + length ws) (
          skip_round
            (skip_white f)
            n
            (received (pos (length (c ∷ b))) (c ∷ b) (socket (c ∷ b) net)))
  skip-IsStart zero ws c b net n k fuel h e fits some_left uncut = absurd (omega arith)
  skip-IsStart (suc f) ws c b net n k fuel h e fits some_left uncut =
      elim (Bool-cases (leb (length (c ∷ b)) (length ws))) [
        | inl t ↦
            let (ws', split, after) =
              split_at (c ∷ b) (incoming net) ws (d ∷ ds) e (ground arith) in
            let (c', b', later, nx) =
              next net (omega (arith, ap length after, length-append ws' (d ∷ ds))) in
            let (white_shown, white_left) = IsWhite-before (c ∷ b) ws ws' h split in
            let size : length ws ≡ suc (length b) + length ws' =
              omega (arith, ap length split, length-append (c ∷ b) ws') in
            subst (IsStart (d ∷ ds) k (n + length ws))
              (sym
                (white_shown_on f c b net n c' b' later nx white_shown (omega (arith, size, fits))))
              (subst
                (λ m. IsStart (d ∷ ds) k m (
                  skip_round (skip_white f) (n + suc (length b))
                    (received (pos (length (c' ∷ b'))) (c' ∷ b') (socket (c' ∷ b') later))))
                (omega (arith, size))
                (skip-IsStart f ws' c' b' later (n + suc (length b)) k
                  (omega (arith, nx.lighter, fuel)) white_left (sym nx.whole ∙ after)
                  (omega (arith, size, fits)) some_left
                  (nx.uncut _ (
                    subst (λ m. Uncut m net) (omega (arith, size))
                      (uncut.1 (omega (arith, size, some_left)))))))
        | inr t ↦
            let (ms, split, after) =
              split_at ws (d ∷ ds) (c ∷ b) (incoming net) (sym e) (ground arith) in
            let (ms', first) =
              cons_of ms (incoming net) (ground (arith, ap length split, length-append ws ms))
                after in
            let same = split ∙ ap (λ m. ws ++ m) first in
            subst
              (λ q.
                IsStart (d ∷ ds) k (n + length ws)
                  (skip_round (skip_white (suc f)) n (received (pos (length q)) q (socket q net))))
              (sym same)
              (start_shown (skip_white (suc f)) ws ms' net n k h
                (ap (λ m. m ++ incoming net) (sym first) ∙ sym after)
                (subst (λ q. Uncut (length ws + k) (arrived q ∷ net)) same uncut))
      ]

-- The first piece is shown.
first_shown :
    (buf : Bytes) (net : List Arrival)
    → 0 < length (buf ++ incoming net)
    → (c : ℕ) × (b : Bytes) × (later : List Arrival) × (recv [] false (socket buf net)
        ≡ received (pos (length (c ∷ b))) (c ∷ b) (socket (c ∷ b) later))
      × (buf ++ incoming net ≡ (c ∷ b) ++ incoming later)
      × ((k : ℕ) → 0 < k → Uncut k (arrived buf ∷ net) → Uncut k (arrived (c ∷ b) ∷ later))
      × (weight_net later < weight (socket buf net))
unfolding weight
first_shown (c ∷ b) net h =
    (c, b, net, recv_held (c ∷ b) net refl, refl, (λ k pos_k u. u), omega arith)
first_shown [] net h =
    let (c, b, later, n) = next net h in
    (
      c,
      b,
      later,
      n.shown [],
      n.whole,
      (λ k pos_k u. n.uncut k (subst (λ m. Uncut m net) (omega arith) (u.1 pos_k))),
      omega (arith, n.lighter),
    )

read_from-IsHeader :
    (head rest : Bytes) (s : Socket) (n : ℕ) (o : Option Start)
    → IsHead head rest
    → n + 2 * (length head + 2) ≤ 65536
    → IsStart (message head rest) (length head + 3) n o
    → IsHeader head rest (read_from s o)
unfolding read_from weight
read_from-IsHeader head rest s n o m fits started =
    subst (λ b. IsHeader head rest (read_from s b)) (sym started.found)
      (header_loop-IsHeader head rest m (omega (arith, fits))
        (suc (length started.temp + weight_net started.net)) [] started.temp started.net
        (n + length started.temp) (omega arith) started.whole (omega arith)
        (subst (λ k. Uncut k (arrived started.temp ∷ started.net)) (omega arith) started.uncut)
        (λ low. omega (arith, fits, low)))

skip_white-IsStart :
    (d : ℕ) (ds ws : Bytes) (s : Socket) (k w : ℕ)
    → not (contains white d) ≡ true
    → All IsWhite ws
    → stream s ≡ ws ++ (d ∷ ds)
    → length ws ≤ 65536
    → 0 < k
    → Uncut (length ws + k) (arrived s.recv_buf ∷ s.arrivals)
    → w ≡ weight s
    → IsStart (d ∷ ds) k (length ws) (skip_white (suc w) 0 s)
unfolding skip_white stream
skip_white-IsStart d ds ws s k w black h e fits some_left uncut same =
    let (c, b, later, shown, whole, cut, lighter) =
      first_shown s.recv_buf s.arrivals (omega (arith, ap length e, length-append ws (d ∷ ds))) in
    subst (λ r. IsStart (d ∷ ds) k (length ws) (skip_round (skip_white w) 0 r)) (sym shown)
      (subst
        (λ m. IsStart (d ∷ ds) k m (
          skip_round (skip_white w) 0
            (received (pos (length (c ∷ b))) (c ∷ b) (socket (c ∷ b) later))))
        (omega arith)
        (skip-IsStart d ds black w ws c b later 0 k (omega (arith, lighter, same)) h (sym whole ∙ e)
          (omega (arith, fits)) some_left (cut (length ws + k) (omega (arith, some_left)) uncut)))

-- `ReadHeader` returns the header up to its empty line.
pub read_header-IsHeader :
    (ws : Bytes) (d : ℕ) (ds rest : Bytes) (s : Socket)
    → All IsWhite ws
    → not (contains white d) ≡ true
    → IsHead (d ∷ ds) rest
    → stream s ≡ ws ++ message (d ∷ ds) rest
    → length ws + 2 * (length (d ∷ ds) + 2) ≤ 65536
    → Uncut (length ws + (length (d ∷ ds) + 3)) (arrived s.recv_buf ∷ s.arrivals)
    → IsHeader (d ∷ ds) rest (read_header s)
unfolding read_header
read_header-IsHeader ws d ds rest s h black m e fits uncut =
    read_from-IsHeader (d ∷ ds) rest s (length ws) (skip_white (suc (weight s)) 0 s) m fits (
      skip_white-IsStart d ((ds ++ crlf) ++ (crlf ++ rest)) ws s (length (d ∷ ds) + 3) (weight s)
        black h e (omega (arith, fits)) (omega arith) uncut refl)
