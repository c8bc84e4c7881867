-- ===== src/Lock/System.antt =====
-- Several connections that lock the row of one file (haarp/connectiontohttp2.cpp), in any order.
use haarpcache.Base.{
  ℕ, ◌+◌, ◌≤◌, ◌≡◌, ◌≢◌, Bool, true, false, pos, eqb_ℤ, ◌==◌, ◌||◌, if◌then◌else◌, List, [], ◌∷◌,
  Option, none, some,
}
use haarpcache.Text.{Bytes}
use haarpcache.Users.{Users}
use haarpcache.Lock.{LockRow, Answers, lock_file, liberate_edition}

-- The clock, the row, and the connections that were given the lock and have not released it.
pub record System : Type 0 where
  pub now : ℕ
  pub row : Option LockRow
  pub holders : List ℕ

-- The row as a holder writes it (`SET modified=now()`).
unfoldable pub written : ℕ → Option LockRow → Option LockRow
written now none = none
written now (some r) = some (record r { modified = some now })

-- The row as a connection asks for it (`SET last_request=now()`).
unfoldable pub asked : ℕ → Option LockRow → Option LockRow
asked now none = none
asked now (some r) = some (record r { last_request = some now })

-- Whether a connection holds the lock, and the others that do.
unfoldable pub member : ℕ → List ℕ → Bool
member i [] = false
member i (j ∷ js) = j == i || member i js

unfoldable pub remove : ℕ → List ℕ → List ℕ
remove i [] = []
remove i (j ∷ js) = let rest = remove i js in if j == i then rest else j ∷ rest

-- The row was written at most 30 seconds before `now`.
pub data IsFresh (now : ℕ) (row : Option LockRow) : Type 0 where
  fresh :
      (r : LockRow) (m : ℕ) → row ≡ some r → r.modified ≡ some m → now ≤ m + 30 → IsFresh now row

-- One step. Time passes only so far that a holder has written the row in the last 30 seconds.
pub data Step (s : System) : System → Type 0 where
  lock :
      (a : Answers) (i : ℕ) (delim ip file : Bytes) (users : Users)
      → Step s (record {
        now = s.now;
        row = (lock_file a s.now false delim ip file users s.row).row;
        holders =
            if eqb_ℤ (lock_file a s.now false delim ip file users s.row).ret (pos 1)
            then i ∷ s.holders
            else s.holders;
      })
  write : (i : ℕ) → member i s.holders ≡ true → Step s (record s { row = written s.now s.row })
  ask : Step s (record s { row = asked s.now s.row })
  release :
      (i : ℕ)
      → member i s.holders ≡ true
      → Step s (record s {
        row = (liberate_edition true false false s.row).row;
        holders = remove i s.holders;
      })
  wait :
      (d : ℕ) → (s.holders ≢ [] → IsFresh (s.now + d) s.row) → Step s (record s { now = s.now + d })

-- The states that are reached from a row that no connection holds.
pub data Reach (first : System) : System → Type 0 where
  start : Reach first first
  later : {s t : System} → Reach first s → Step s t → Reach first t
