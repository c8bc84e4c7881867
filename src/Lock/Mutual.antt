-- ===== src/Lock/Mutual.antt =====
-- One connection at most holds the edition lock (haarp/connectiontohttp2.cpp).
use haarpcache.Base.{
  ℕ, ◌+◌, ◌≤◌, ◌≡◌, ◌≢◌, refl, subst, sym, ap, ◌∙◌, if◌then◌else◌, true, false, pos, eqb_ℤ, List,
  [], ◌∷◌, Option, none, some, arith,
}
use haarpcache.Text.{Bytes}
use haarpcache.Users.{Users}
use haarpcache.Lock.{LockRow, Answers, Locked, lock_file, liberate_edition}
use haarpcache.Lock.System.{
  System, Step, lock, write, ask, release, wait, Reach, start, later, IsFresh, fresh, written,
  asked, member, remove,
}
use haarpcache.Lock.Outcome.{
  PastTime, Past, Outcome, refused, granted, lock_file_lem, lock_file-refused,
}

-- Nobody holds the lock, or one connection does, and the row says so and was written in the last 30
-- seconds.
pub data Holding (now : ℕ) (row : Option LockRow) : List ℕ → Type 0 where
  nobody : Holding now row []
  one :
      (i : ℕ) (r : LockRow) (m : ℕ)
      → row ≡ some r
      → r.modified ≡ some m
      → now ≤ m + 30
      → r.file_used ≡ pos 1
      → Holding now row (i ∷ [])

pub record IsSafe (s : System) : Type 0 where
  pub past : Past s.now s.row
  pub holding : Holding s.now s.row s.holders

-- The state after a call of `lockFile`.
locked_state :
    (now : ℕ) (row : Option LockRow) (holders : List ℕ) (i : ℕ) (x : Locked)
    → Past now row
    → Outcome now row x
    → Holding now row holders
    → (holders ≢ [] → eqb_ℤ x.ret (pos 1) ≡ false)
    → IsSafe (record {
      now = now;
      row = x.row;
      holders = if eqb_ℤ x.ret (pos 1) then i ∷ holders else holders;
    })
locked_state now row holders i x past (refused no_ret same) holding busy = record {
  past = subst (Past now) (sym same) past;
  holding = rw no_ret (subst (λ k. Holding now k holders) (sym same) holding);
}
locked_state now row [] i x past (granted r ret changed written_now in_use asked_before) holding
      busy =
    record {
      past =
          subst (Past now) (sym changed)
            (subst (PastTime now) (sym written_now) (omega arith), asked_before);
      holding = rw ret (one i r now changed written_now (omega arith) in_use);
    }
locked_state now row (j ∷ js) i x past (granted r ret changed written_now in_use asked_before)
      holding busy =
    let no_ret = busy (λ e. cc e) in absurd (cc (sym ret ∙ no_ret))

past_later : (now d : ℕ) (t : Option ℕ) → PastTime now t → PastTime (now + d) t
past_later now d none h = tt
past_later now d (some m) h = omega (arith, h)

row_later : (now d : ℕ) (row : Option LockRow) → Past now row → Past (now + d) row
row_later now d none h = tt
row_later now d (some r) h = (past_later now d r.modified h.0, past_later now d r.last_request h.1)

-- The only holder is the one that holds the lock.
remove_only : (i j : ℕ) → member i (j ∷ []) ≡ true → remove i (j ∷ []) ≡ []
unfolding member remove
remove_only i j h = ground (arith, h)

busy_refused :
    (a : Answers) (now : ℕ) (row : Option LockRow) (holders : List ℕ) (delim ip file : Bytes)
    (users : Users)
    → Past now row
    → Holding now row holders
    → holders ≢ []
    → eqb_ℤ (lock_file a now false delim ip file users row).ret (pos 1) ≡ false
busy_refused a now row [] delim ip file users past nobody some_holder = absurd (some_holder refl)
busy_refused a now row _ delim ip file users past (one i r m e f fresh_row used_row) some_holder =
    let past' = subst (Past now) e past in
    subst (λ k. eqb_ℤ (lock_file a now false delim ip file users k).ret (pos 1) ≡ false) (sym e)
      (lock_file-refused a now m r delim ip file users f (subst (PastTime now) f past'.0) fresh_row
        past'.1 used_row).0

written-Past : (now : ℕ) (row : Option LockRow) → Past now row → Past now (written now row)
unfolding written
written-Past now none h = tt
written-Past now (some r) h = (omega arith, h.1)

asked-Past : (now : ℕ) (row : Option LockRow) → Past now row → Past now (asked now row)
unfolding asked
asked-Past now none h = tt
asked-Past now (some r) h = (h.0, omega arith)

released-Past :
    (now : ℕ) (row : Option LockRow)
    → Past now row
    → Past now ((liberate_edition true false false row).row)
unfolding liberate_edition
released-Past now none h = tt
released-Past now (some r) h = h

written_held :
    (now : ℕ) (row : Option LockRow) (holders : List ℕ)
    → Holding now row holders
    → Holding now (written now row) holders
unfolding written
written_held now row _ nobody = nobody
written_held now row _ (one i r m e f fresh_row u) =
    one i (record r { modified = some now }) now (ap (written now) e) refl (omega arith) u

asked_held :
    (now : ℕ) (row : Option LockRow) (holders : List ℕ)
    → Holding now row holders
    → Holding now (asked now row) holders
unfolding asked
asked_held now row _ nobody = nobody
asked_held now row _ (one i r m e f fresh_row u) =
    one i (record r { last_request = some now }) m (ap (asked now) e) f fresh_row u

released_held :
    (now : ℕ) (row row' : Option LockRow) (holders : List ℕ) (i : ℕ)
    → member i holders ≡ true
    → Holding now row holders
    → Holding now row' (remove i holders)
unfolding member
released_held now row row' _ i held nobody = absurd (cc held)
released_held now row row' _ i held (one j r m e f fresh_row u) =
    subst (Holding now row') (sym (remove_only i j held)) nobody

same_row : (r r' : LockRow) → some r ≡ some r' → r ≡ r'
same_row r r' h = cc

waited_held :
    (now d : ℕ) (row : Option LockRow) (holders : List ℕ)
    → Holding now row holders
    → (holders ≢ [] → IsFresh (now + d) row)
    → Holding (now + d) row holders
waited_held now d row _ nobody h = nobody
waited_held now d row _ (one i r m e f fresh_row u) h = elim (h (λ k. cc k)) [
  | fresh r' m' e' f' fresh' ↦
      one i r' m' e' f' fresh' (subst (λ k. k.file_used ≡ pos 1) (same_row r r' (sym e ∙ e')) u)
]

step-IsSafe : {s t : System} → IsSafe s → Step s t → IsSafe t
step-IsSafe {s} h (lock a i delim ip file users) =
    locked_state s.now s.row s.holders i (lock_file a s.now false delim ip file users s.row) h.past
      (lock_file_lem a s.now delim ip file users s.row h.past) h.holding
      (busy_refused a s.now s.row s.holders delim ip file users h.past h.holding)
step-IsSafe {s} h (write i held) = record {
  past = written-Past s.now s.row h.past;
  holding = written_held s.now s.row s.holders h.holding;
}
step-IsSafe {s} h ask = record {
  past = asked-Past s.now s.row h.past;
  holding = asked_held s.now s.row s.holders h.holding;
}
step-IsSafe {s} h (release i held) = record {
  past = released-Past s.now s.row h.past;
  holding =
      released_held s.now s.row ((liberate_edition true false false s.row).row) s.holders i held
        h.holding;
}
step-IsSafe {s} h (wait d recent_row) = record {
  past = row_later s.now d s.row h.past;
  holding = waited_held s.now d s.row s.holders h.holding recent_row;
}

-- Every state that is reached is safe.
pub Reach-IsSafe : {first s : System} → IsSafe first → Reach first s → IsSafe s
Reach-IsSafe h start = h
Reach-IsSafe h (later r next) = step-IsSafe (Reach-IsSafe h r) next
