-- ===== src/Socket/Send.antt =====
-- The sending side of `SocketHandler` (haarp/sockethandler.cpp): the three `Send`s, which give a
-- string to `::send` piece by piece. The network is a list of turns, one for each wait with its
-- `::send`; when they run out, the wait times out.
use haarpcache.Base.{
  ℤ, pos, ◌<ℤ◌, ℕ, zero, suc, ◌+◌, ◌≤◌, ◌≡◌, refl, ap, ◌∙◌, ltb, ◌==◌, if◌then◌else◌, Bool, true,
  false, Bool-cases, subst, inl, inr, List, [], ◌∷◌, ◌++◌, append_assoc, arith, length, take, drop,
}
use haarpcache.Text.{Bytes}

-- What a turn ends with: `::send` takes a number of bytes; EINTR, after which the source calls it
-- again; the wait times out or fails; or `::send` fails with an error number.
pub data Turn : Type 0 where
  accepted : ℕ → Turn
  again : Turn
  not_ready : Turn
  refused : ℕ → Turn

-- What `Send` returns and stores in `num_false` or `*status`, and all the bytes that were sent.
pub record Sent : Type 0 where
  pub ok : Bool
  pub num_false : ℤ
  pub wire : Bytes

abbrev pub sent : Bool → ℤ → Bytes → Sent
sent b n w = record { ok = b; num_false = n; wire = w }

-- The loop, for the rest of the string; `num` is what `num_false` holds.
unfoldable pub send_loop : ℤ → Bytes → Bytes → List Turn → Sent
send_loop num wire rest [] = sent false (pos 2) wire
send_loop num wire rest (again ∷ net) = send_loop num wire rest net
send_loop num wire rest (not_ready ∷ net) = sent false (pos 2) wire
send_loop num wire rest (refused errno ∷ net) = sent false (pos (errno + 10)) wire
send_loop num wire rest (accepted n ∷ net) =
    let more = send_loop num (wire ++ take n rest) (drop n rest) net in
    if n == 0
    then sent false (pos 4) wire
    else if ltb n (length rest)
    then more
    else sent true num (wire ++ take n rest)

-- `Send( string&, int* )`, for a socket that is open or not.
unfoldable pub send : Bool → ℤ → Bytes → List Turn → Sent
unfolding send_loop
send is_open num sock_out net =
    if is_open then send_loop num [] sock_out net else sent false (pos 1) []

-- `Send( string& )`: the same, with the number in `num_false`.
unfoldable pub send_string : Bool → ℤ → Bytes → List Turn → Sent
unfolding send_loop
send_string is_open num_false sock_out net =
    if is_open then send_loop num_false [] sock_out net else sent false (pos 1) []

-- `Send( const char*, int )`, which does not look at the descriptor and stores no number.
unfoldable pub send_chars : Bytes → List Turn → Bool × Bytes
unfolding send_loop
send_chars sock_out net = let s = send_loop (pos 0) [] sock_out net in (s.ok, s.wire)

-- The whole string was sent and no error number was stored, or a part from its front was sent and
-- an error number was stored.
pub data IsSent (num : ℤ) (out : Bytes) (s : Sent) : Type 0 where
  whole : s.ok ≡ true → s.wire ≡ out → s.num_false ≡ num → IsSent num out s
  partly :
      s.ok ≡ false
      → (unsent : Bytes) → out ≡ s.wire ++ unsent
      → pos 0 <ℤ s.num_false
      → IsSent num out s

take-all : (n : ℕ) (s : Bytes) → length s ≤ n → take n s ≡ s
take-all zero [] h = refl
take-all zero (c ∷ s) h = absurd (omega arith)
take-all (suc n) [] h = refl
take-all (suc n) (c ∷ s) h = ap (◌∷◌ c) (take-all n s (omega arith))

take-drop : (n : ℕ) (s : Bytes) → take n s ++ drop n s ≡ s
take-drop zero s = refl
take-drop (suc n) [] = refl
take-drop (suc n) (c ∷ s) = ap (◌∷◌ c) (take-drop n s)

send_loop-IsSent :
    (num : ℤ) (wire rest : Bytes) (net : List Turn)
    → IsSent num (wire ++ rest) (send_loop num wire rest net)
unfolding send_loop
send_loop-IsSent num wire rest [] = partly refl rest refl (omega arith)
send_loop-IsSent num wire rest (again ∷ net) = send_loop-IsSent num wire rest net
send_loop-IsSent num wire rest (not_ready ∷ net) = partly refl rest refl (omega arith)
send_loop-IsSent num wire rest (refused errno ∷ net) = partly refl rest refl (omega arith)
send_loop-IsSent num wire rest (accepted n ∷ net) = elim (Bool-cases (n == 0)) [
  | inl t ↦ rw t (partly refl rest refl (omega arith))
  | inr t ↦ elim (Bool-cases (ltb n (length rest))) [
    | inl u ↦
        rw (t, u)
          (subst (λ k. IsSent num k (send_loop num (wire ++ take n rest) (drop n rest) net))
            (append_assoc wire (take n rest) (drop n rest) ∙ ap (λ k. wire ++ k) (take-drop n rest))
            (send_loop-IsSent num (wire ++ take n rest) (drop n rest) net))
    | inr u ↦ rw (t, u) (whole refl (ap (λ k. wire ++ k) (take-all n rest (ground arith))) refl)
  ]
]

-- Whatever pieces `::send` takes, in order and with no byte twice: `Send` returns true only if the
-- whole string was sent, and then leaves the error number alone; if it returns false, a part from
-- the front of the string was sent and the error number is not 0.
pub send-IsSent :
    (is_open : Bool) (num : ℤ) (out : Bytes) (net : List Turn)
    → IsSent num out (send is_open num out net)
unfolding send
send-IsSent true num out net = send_loop-IsSent num [] out net
send-IsSent false num out net = partly refl out refl (omega arith)
