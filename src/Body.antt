-- ===== src/Body.antt =====
-- How a body that comes from the server goes to the file on disk: the branch of
-- `ConnectionToHTTP2::ReadBodyPart` for a miss (haarp/connectiontohttp2.cpp), with `SubUpdate` and
-- `Update`.
pub mod Fill
pub mod Sound
pub mod Next
pub mod Save
pub mod Read
use haarpcache.Base.{
  ℕ, suc, ◌+◌, ℤ, pos, ◌+ℤ◌, ◌-ℤ◌, ltb_ℤ, leb_ℤ, eqb_ℤ, pos_part, ltb, if◌then◌else◌, Bool, true,
  false, ◌&&◌, not, List, [], ◌∷◌, ◌++◌, length, take, drop,
}
use haarpcache.Text.{Bytes}
use haarpcache.Intervals.{
  Interval, Intervals, one, append_node, append_sub_node, get_point_end, is_all_hit,
}
use haarpcache.Users.{Users, add_user_cache, lusercache2str}
use haarpcache.Row.{Row, row_of}

-- The content of the file, place by place.
abbrev pub Disk : Type 0
Disk = ℤ → ℕ

-- `cachefile.write`, with the put pointer at `p`.
unfoldable pub write_at : Disk → ℤ → Bytes → Disk
write_at disk p [] = disk
write_at disk p (x ∷ xs) = write_at (λ q. if eqb_ℤ q p then x else disk q) (p +ℤ one) xs

-- The members of `ConnectionToHTTP2` that the branch changes. `place` is the put pointer of
-- `cachefile`, `rows` the rows that the data base took. The iterator `brange` is a value of its own:
-- the block that it points to and the blocks behind it.
pub record Download : Type 0 where
  pub lranges : Intervals
  pub disk : Disk
  pub place : ℤ
  pub bwrite : Bool
  pub acumulate : ℤ
  pub limit : ℤ
  pub np : ℕ
  pub filesended : ℤ
  pub oldfilesended : ℤ
  pub miss2hit : Bool
  pub timerecord : ℤ
  pub count_wait : ℕ
  pub lusers_db : Users
  pub rows : List Row

-- A block without a place gets one at the end of the file.
abbrev pub placed : Intervals → Interval → Interval
placed l w = if ltb_ℤ w.position (pos 0) then record w { position = get_point_end l } else w

-- `cachefile.seekp` to the block, whose size is the new limit.
unfoldable pub enter : Interval → Download → Download
enter w s =
    let w' = placed s.lranges w in
    record s {
      bwrite = ltb_ℤ w.position (pos 0);
      place = w'.position;
      acumulate = pos 0;
      limit = w.b -ℤ w.a +ℤ one;
    }

-- `if (!bwrite && is_all_hit(lrangeswork, brange)) miss2hit = 1;`
unfoldable pub turn_hit : Interval → Intervals → Download → Download
turn_hit w ws s = if not s.bwrite && is_all_hit (w ∷ ws) then record s { miss2hit = true } else s

-- `cachefile.write` of a whole part of the body, and what is counted with it.
unfoldable pub write_part : Bytes → Download → Download
unfolding write_at
write_part part s = record s {
  disk = write_at s.disk s.place part;
  place = s.place +ℤ pos (length part);
  acumulate = s.acumulate +ℤ pos (length part);
  filesended = s.filesended +ℤ pos (length part);
}

-- `if (bwrite) { np++; appendNode(lranges, *brange); }`, behind `acumulate = 0`.
unfoldable pub close_block : Interval → Download → Download
close_block w s =
    let s' = record s { acumulate = pos 0 } in
    if s.bwrite then record s' { np = s.np + 1; lranges = (append_node s.lranges w).0 } else s'

-- How the loop over full blocks ends: the body is longer than all blocks, or a block has room for
-- what is left of it.
pub data Spill : Type 0 where
  overflow : Download → Spill
  room : Interval → Intervals → Download → Bytes → Spill

-- The bytes of the block that are still to come.
abbrev pub missing_bytes : Download → ℕ
missing_bytes s = pos_part (s.limit -ℤ s.acumulate)

-- One round of the loop over full blocks: the block is filled and recorded.
unfoldable pub fill_block : Interval → Download → Bytes → Download
unfolding close_block write_part
fill_block w s body = close_block w (write_part (take (missing_bytes s) body) s)

-- `while (acumulate + BodyLength > limit)`.
unfoldable pub spill : Interval → Intervals → Download → Bytes → Spill
unfolding fill_block enter turn_hit
spill w [] s body =
    if ltb_ℤ s.limit (s.acumulate +ℤ pos (length body))
    then overflow (record (fill_block w s body) { bwrite = false })
    else room w [] s body
spill w (v ∷ vs) s body =
    let full = fill_block w s body in
    let v' = placed full.lranges v in
    let rest = spill v' vs (turn_hit v' vs (enter v full)) (drop (missing_bytes s) body) in
    if ltb_ℤ s.limit (s.acumulate +ℤ pos (length body)) then rest else room w (v ∷ vs) s body

-- How a call ends: it goes on with a block, or returns the length of the body with all blocks
-- filled, or returns -1 where the blocks and the length of the answer end at different places
-- (`ended`), or where the body is longer than the blocks (`lost`, also `r.match = hit = false`).
pub data Result : Type 0 where
  going : Interval → Intervals → Download → Result
  complete : Download → Result
  ended : Download → Result
  lost : Download → Result

-- The three readings of `time(NULL)` of one call: for the test, for `timerecord`, for the client; and
-- whether the data base makes the change of the row.
pub record Clock : Type 0 where
  pub tested : ℤ
  pub recorded : ℤ
  pub booked : ℤ
  pub stored : Bool

-- `SubUpdate`; a change that fails is logged only.
unfoldable pub sub_update : Bytes → ℤ → Bool → ℤ → Download → Download
unfolding row_of
sub_update ip_browser now stored sended s =
    let users = (add_user_cache s.lusers_db ip_browser now sended false).0 in
    record s {
      lusers_db = users;
      rows = if stored then s.rows ++ (row_of s.lranges s.np users ∷ []) else s.rows;
    }

-- The block in work is recorded as far as it has come, and goes on behind that.
unfoldable pub save_part : Interval → Intervals → Bytes → Clock → Download → Result
unfolding sub_update
save_part w ws ip_browser clock s =
    let s' = record s {
      count_wait = 0;
      lranges = (append_sub_node s.lranges w s.acumulate).0;
      limit = s.limit -ℤ s.acumulate;
      acumulate = pos 0;
    } in
    let s'' =
      sub_update ip_browser clock.booked clock.stored (s.filesended -ℤ s.oldfilesended) s' in
    going (record w { a = w.a +ℤ s.acumulate; position = w.position +ℤ s.acumulate }) ws
      (record s'' { oldfilesended = s.filesended })

-- `if ((time(NULL) - timerecord) > 1.2)`, on whole seconds.
unfoldable pub tick : Bytes → Clock → Interval → Intervals → Download → Result
unfolding save_part
tick ip_browser clock w ws s =
    let s' = record s { timerecord = clock.recorded; count_wait = s.count_wait + 1 } in
    if ltb_ℤ one (clock.tested -ℤ s.timerecord)
    then (if ltb 15 (s.count_wait + 1) && not (eqb_ℤ s.acumulate (pos 0)) && s.bwrite
        then save_part w ws ip_browser clock s'
        else going w ws s')
    else going w ws s

-- `if (acumulate == limit)`, with the block closed: on to the next one, `++brange`.
unfoldable pub next_block : ℤ → Bytes → Clock → Intervals → Download → Result
unfolding enter turn_hit tick
next_block filesizeneto ip_browser clock [] s =
    if eqb_ℤ s.filesended filesizeneto then complete s else ended s
next_block filesizeneto ip_browser clock (v ∷ vs) s =
    let v' = placed s.lranges v in
    if eqb_ℤ s.filesended filesizeneto
    then ended s
    else tick ip_browser clock v' vs (turn_hit v' vs (enter v s))

-- What follows the loop over full blocks.
unfoldable pub put_rest : ℤ → Bytes → Clock → Interval → Intervals → Download → Bytes → Result
unfolding write_part close_block next_block tick
put_rest filesizeneto ip_browser clock w ws s part =
    let s' = write_part part s in
    if eqb_ℤ s'.acumulate s'.limit
    then next_block filesizeneto ip_browser clock ws (close_block w s')
    else tick ip_browser clock w ws s'

unfoldable pub after_spill : ℤ → Bytes → Clock → Spill → Result
unfolding put_rest
after_spill filesizeneto ip_browser clock (overflow s) = lost s
after_spill filesizeneto ip_browser clock (room w ws s part) =
    put_rest filesizeneto ip_browser clock w ws s part

-- The branch for a body part of at least one byte (a shorter one changes nothing).
unfoldable pub read_body_part : ℤ → Bytes → Clock → Interval → Intervals → Download → Bytes → Result
unfolding after_spill spill
read_body_part filesizeneto ip_browser clock w ws s [] = going w ws s
read_body_part filesizeneto ip_browser clock w ws s (x ∷ body) =
    after_spill filesizeneto ip_browser clock (spill w ws s (x ∷ body))

-- The file is opened at the first block of `lrangeswork`.
unfoldable pub open_file : Interval → Intervals → Download → Result
unfolding enter
open_file w ws s = going (placed s.lranges w) ws (enter w s)
