-- ===== src/Http/Header/Net.antt =====
-- The pieces in which a header arrives, for haarp/httphandler.cpp.
use haarpcache.Base.{
  ℕ, ◌+◌, ◌-◌, ◌<◌, ◌≡◌, ◌≢◌, refl, false, pos, List, [], ◌∷◌, ◌++◌, arith, length,
}
use haarpcache.Text.{Bytes}
use haarpcache.Socket.{
  Arrival, arrived, interrupted, failed, socket, received, recv, recv_arrived, arrive,
}
use haarpcache.Socket.Stream.{incoming}
use haarpcache.Socket.Peek.{weight_net}

-- No piece of what arrives ends behind the first `k` bytes.
abbrev pub Uncut : ℕ → List Arrival → Type 0
Uncut k [] = Unit
Uncut k (interrupted ∷ net) = Uncut k net
Uncut k (failed ∷ net) = Unit
Uncut k (arrived b ∷ net) = (length b ≢ k) × (length b < k → Uncut (k - length b) net)

-- The next piece, which `Recv` shows when the buffer is empty.
pub record IsNext (c : ℕ) (b : Bytes) (later net : List Arrival) : Type 0 where
  pub shown :
      (temp : Bytes)
      → recv temp false (socket [] net)
        ≡ received (pos (length (c ∷ b))) (temp ++ (c ∷ b)) (socket (c ∷ b) later)
  pub whole : incoming net ≡ (c ∷ b) ++ incoming later
  pub uncut : (k : ℕ) → Uncut k net → Uncut k (arrived (c ∷ b) ∷ later)
  pub lighter : length (c ∷ b) + weight_net later < weight_net net

arrived-IsNext : (c : ℕ) (b : Bytes) (net : List Arrival) → IsNext c b net (arrived (c ∷ b) ∷ net)
unfolding incoming recv recv_arrived arrive weight_net
arrived-IsNext c b net = record {
  shown = λ temp. refl;
  whole = refl;
  uncut = λ k u. u;
  lighter = omega arith;
}

interrupted-IsNext :
    (c : ℕ) (b : Bytes) (later net : List Arrival)
    → IsNext c b later net
    → IsNext c b later (interrupted ∷ net)
unfolding incoming recv arrive weight_net
interrupted-IsNext c b later net n = record {
  shown = λ temp. n.shown temp;
  whole = n.whole;
  uncut = n.uncut;
  lighter = omega (arith, n.lighter);
}

pub next :
    (net : List Arrival)
    → 0 < length (incoming net)
    → (c : ℕ) × (b : Bytes) × (later : List Arrival) × IsNext c b later net
unfolding incoming
next [] h = absurd (omega arith)
next (failed ∷ net) h = absurd (omega arith)
next (arrived [] ∷ net) h = absurd (omega arith)
next (arrived (c ∷ b) ∷ net) h = (c, b, net, arrived-IsNext c b net)
next (interrupted ∷ net) h =
    let (c, b, later, n) = next net h in (c, b, later, interrupted-IsNext c b later net n)
