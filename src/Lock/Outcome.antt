-- ===== src/Lock/Outcome.antt =====
-- What one call of `lockFile` (haarp/connectiontohttp2.cpp) does to the row.
use haarpcache.Base.{
  ℕ, ◌+◌, ◌-◌, ◌≤◌, ◌≡◌, ◌⊎◌, refl, subst, ap, ltb, leb, ◌&&◌, not, if◌then◌else◌, true, false,
  Bool-cases, pos, eqb_ℤ, Option, none, some, Option-cases, inl, inr, arith,
}
use haarpcache.Text.{Bytes}
use haarpcache.Users.{Users}
use haarpcache.Lock.{
  LockRow, Answers, Locked, lock_file, lock_row, lock_new, take_row, difftime, used,
}

-- A time that is not in the future.
abbrev pub PastTime : ℕ → Option ℕ → Type 0
PastTime now none = Unit
PastTime now (some m) = m ≤ now

abbrev pub Past : ℕ → Option LockRow → Type 0
Past now none = Unit
Past now (some r) = PastTime now r.modified × PastTime now r.last_request

-- What a call of `lockFile` does: it leaves the row and does not return 1, or it returns 1 and the row
-- is used and written now.
pub data Outcome (now : ℕ) (row : Option LockRow) (x : Locked) : Type 0 where
  refused : eqb_ℤ x.ret (pos 1) ≡ false → x.row ≡ row → Outcome now row x
  granted :
      (r : LockRow)
      → eqb_ℤ x.ret (pos 1) ≡ true
      → x.row ≡ some r
      → r.modified ≡ some now
      → r.file_used ≡ pos 1
      → PastTime now r.last_request
      → Outcome now row x

module _ (a : Answers) (now : ℕ) where
  take_row_lem :
      (r : LockRow) (file : Bytes) (users : Users)
      → PastTime now r.last_request
      → Outcome now (some r) (take_row a now r file users)
  unfolding take_row
  take_row_lem r file users h = elim (Bool-cases a.changed) [
    | inl t ↦ rw t (granted (used now r) refl refl refl refl h)
    | inr t ↦ rw t (refused refl refl)
  ]

  lock_row_lem :
      (r : LockRow) (file : Bytes) (users : Users)
      → PastTime now r.last_request
      → Outcome now (some r) (lock_row a now r file users)
  unfolding lock_row
  lock_row_lem r file users h = elim (Bool-cases (eqb_ℤ r.file_used (pos 0))) [
    | inl t ↦ rw t (take_row_lem r file users h)
    | inr t ↦ elim (Option-cases (difftime now r)) [
      | inl e ↦ rw t (rw (e, lock_row) (refused refl refl))
      | inr (true, e) ↦ rw t (rw (e, lock_row) (refused refl refl))
      | inr (false, e) ↦ rw t (rw (e, lock_row) (take_row_lem r file users h))
    ]
  ]

  lock_new_lem :
      (ip file : Bytes) (users : Users) → Outcome now none (lock_new a now false ip file users)
  unfolding lock_new
  lock_new_lem ip file users = elim (Bool-cases a.changed) [
    | inl t ↦ rw t (granted _ refl refl refl refl (omega arith))
    | inr t ↦ rw t (refused refl refl)
  ]

  pub lock_file_lem :
      (delim ip file : Bytes) (users : Users) (row : Option LockRow)
      → Past now row
      → Outcome now row (lock_file a now false delim ip file users row)
  unfolding lock_file
  lock_file_lem delim ip file users none h = elim (Bool-cases (not (a.started && a.got))) [
    | inl t ↦ rw t (refused refl refl)
    | inr t ↦ rw t (lock_new_lem ip file users)
  ]
  lock_file_lem delim ip file users (some r) h = elim (Bool-cases (not (a.started && a.got))) [
    | inl t ↦ rw t (refused refl refl)
    | inr t ↦ rw t (lock_row_lem r file users h.1)
  ]

recent_times :
    (now m q : ℕ)
    → m ≤ now
    → now ≤ m + 30
    → q ≤ now
    → (leb (now - (if ltb m q then q else m)) 30 && leb ((if ltb m q then q else m) - now) 30)
      ≡ true
recent_times now m q h k l = ground arith

recent :
    (now m : ℕ) (r : LockRow)
    → r.modified ≡ some m
    → m ≤ now
    → now ≤ m + 30
    → PastTime now r.last_request
    → (difftime now r ≡ none) ⊎ (difftime now r ≡ some true)
unfolding difftime
recent now m r e h k past = elim (Option-cases r.last_request) [
  | inl f ↦ inl (rw (e, difftime) (rw (f, difftime) refl))
  | inr (q, f) ↦ inr (
      rw (e, difftime)
        (rw (f, difftime) (ap some (recent_times now m q h k (subst (PastTime now) f past)))))
]

-- A row in use that was written in the last 30 seconds is not given to another connection.
lock_row-refused :
    (a : Answers) (now m : ℕ) (r : LockRow) (file : Bytes) (users : Users)
    → r.modified ≡ some m
    → m ≤ now
    → now ≤ m + 30
    → PastTime now r.last_request
    → r.file_used ≡ pos 1
    → (eqb_ℤ (lock_row a now r file users).ret (pos 1) ≡ false)
      × ((lock_row a now r file users).row ≡ some r)
unfolding lock_row
lock_row-refused a now m r file users e h k past u =
    let in_use : eqb_ℤ r.file_used (pos 0) ≡ false = ap (λ z. eqb_ℤ z (pos 0)) u in
    elim (recent now m r e h k past) [
      | inl d ↦ rw in_use (rw (d, lock_row) (refl, refl))
      | inr d ↦ rw in_use (rw (d, lock_row) (refl, refl))
    ]

pub lock_file-refused :
    (a : Answers) (now m : ℕ) (r : LockRow) (delim ip file : Bytes) (users : Users)
    → r.modified ≡ some m
    → m ≤ now
    → now ≤ m + 30
    → PastTime now r.last_request
    → r.file_used ≡ pos 1
    → (eqb_ℤ (lock_file a now false delim ip file users (some r)).ret (pos 1) ≡ false)
      × ((lock_file a now false delim ip file users (some r)).row ≡ some r)
unfolding lock_file
lock_file-refused a now m r delim ip file users e h k past u =
    elim (Bool-cases (not (a.started && a.got))) [
      | inl t ↦ rw t (refl, refl)
      | inr t ↦ rw t (lock_row-refused a now m r file users e h k past u)
    ]
