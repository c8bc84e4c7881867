-- ===== src/Lock.antt =====
-- The edition lock on the row of a file: `lockFile` and `liberate_edition` of
-- haarp/connectiontohttp2.cpp. The data base is what its row holds, and whether it answers.
pub mod System
pub mod Outcome
pub mod Mutual
use haarpcache.Base.{
  ℕ, ◌+◌, ◌-◌, ltb, leb, ◌==◌, if◌then◌else◌, Bool, true, false, not, ◌||◌, ◌&&◌, ℤ, pos, negsuc,
  eqb_ℤ, List, [], ◌∷◌, Option, none, some, length,
}
use haarpcache.Text.{Bytes}
use haarpcache.Text.Match.{splitstring}
use haarpcache.Users.{Users, add_user_cache}

-- The columns of a row that matter here, with times in seconds.
pub record LockRow : Type 0 where
  pub file : Bytes
  pub modified : Option ℕ
  pub last_request : Option ℕ
  pub file_used : ℤ

-- Whether the data base starts a transaction, gives the row, and makes the change.
pub record Answers : Type 0 where
  pub started : Bool
  pub got : Bool
  pub changed : Bool

-- What `lockFile` returns, with the row, `r.file` and `lusers_db` afterwards.
pub record Locked : Type 0 where
  pub ret : ℤ
  pub row : Option LockRow
  pub file : Bytes
  pub users : Users

abbrev pub locked : ℤ → Option LockRow → Bytes → Users → Locked
locked n r f u = record { ret = n; row = r; file = f; users = u }

-- The column `difftime`: whether the row was written or asked for in the last 30 seconds; `none` for
-- NULL.
unfoldable pub difftime : ℕ → LockRow → Option Bool
difftime now r = elim r.modified [
  | none ↦ none
  | some m ↦ elim r.last_request [
    | none ↦ none
    | some q ↦
        let latest = if ltb m q then q else m in
        some (leb (now - latest) 30 && leb (latest - now) 30)
  ]
]

-- `UPDATE haarp set modified=now(), file_used=1`.
abbrev pub used : ℕ → LockRow → LockRow
used now r = record r { modified = some now; file_used = pos 1 }

-- The change of a row: -1 if it fails.
unfoldable pub take_row : Answers → ℕ → LockRow → Bytes → Users → Locked
take_row a now r file users =
    if a.changed
    then locked (pos 1) (some (used now r)) file users
    else locked (negsuc 0) (some r) file users

-- A row is there.
unfoldable pub lock_row : Answers → ℕ → LockRow → Bytes → Users → Locked
unfolding take_row difftime
lock_row a now r file users =
    if eqb_ℤ r.file_used (pos 0) then take_row a now r file users else elim (difftime now r) [
      | some true ↦ locked (pos 0) (some r) file users
      | some false ↦ take_row a now r file users
      | none ↦ locked (negsuc 0) (some r) file users
    ]

-- No row is there: one is inserted, but for a file that is named by parts.
unfoldable pub lock_new : Answers → ℕ → Bool → Bytes → Bytes → Users → Locked
unfolding add_user_cache
lock_new a now single_domain ip file users =
    let users' = (add_user_cache users ip (pos now) (pos 0) false).0 in
    if single_domain
    then locked (pos 1) none file users
    else if a.changed
    then locked (pos 1)
        (some
          (record { file = file; modified = some now; last_request = some now; file_used = pos 1 }))
        file users'
    else locked (negsuc 0) none file users'

-- `lockFile`, for a name `file` that is not empty. With `single_domain` the file is looked up by the
-- parts of its name between `delim`, and takes the name that the row has.
unfoldable pub lock_file :
    Answers → ℕ → Bool → Bytes → Bytes → Bytes → Users → Option LockRow → Locked
unfolding lock_row lock_new splitstring
lock_file a now single_domain delim ip file users row =
    if single_domain && length (splitstring file delim []) == 1
    then locked (pos 0) row file users
    else if not (a.started && a.got)
    then locked (negsuc 0) row file users
    else elim row [
      | none ↦ lock_new a now single_domain ip file users
      | some r ↦ lock_row a now r (if single_domain then r.file else file) users
    ]

-- What `liberate_edition` returns, with the row and `was_liberate` afterwards.
pub record Liberated : Type 0 where
  pub ret : Bool
  pub row : Option LockRow
  pub was_liberate : Bool

abbrev released : Option LockRow → Option LockRow
released none = none
released (some r) = some (record r { file_used = pos 0 })

-- `liberate_edition`: `set` returns 0 if the data base makes the change.
unfoldable pub liberate_edition : Bool → Bool → Bool → Option LockRow → Liberated
liberate_edition changed was_liberate exists_transaction row =
    if was_liberate || exists_transaction
    then record { ret = true; row = row; was_liberate = was_liberate }
    else if changed
    then record { ret = false; row = released row; was_liberate = true }
    else record { ret = true; row = row; was_liberate = false }
