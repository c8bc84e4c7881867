-- ===== src/Serve.antt =====
-- How a body is served from the file on disk: the branch of `ConnectionToHTTP2::ReadBodyPart` for a
-- hit, and for a miss that has become one (haarp/connectiontohttp2.cpp).
pub mod Right
pub mod Stuck
pub mod Open
pub mod Full
use haarpcache.Base.{
  ℕ, zero, suc, ◌+◌, ℤ, pos, ◌+ℤ◌, ◌-ℤ◌, ltb_ℤ, leb_ℤ, eqb_ℤ, pos_part, ltb, leb, if◌then◌else◌,
  Bool, true, false, ◌&&◌, ◌||◌, not, List, [], ◌∷◌, length, ◌==◌,
}
use haarpcache.Text.{Bytes}
use haarpcache.Intervals.{Interval, Intervals, one}
use haarpcache.Body.{Disk}

-- The members of `ConnectionToHTTP2` that the branch changes. `place` is the get pointer of
-- `cachefile`, and `failed` its fail bit, which a read sets that gets fewer bytes than it asks for;
-- from then on a read gets none and a seek does nothing. The iterator `brange` is a list, from the
-- block that it points to on, and empty at the end.
pub record Reader : Type 0 where
  pub place : ℤ
  pub failed : Bool
  pub acumulate : ℤ
  pub limit : ℤ
  pub filesended : ℤ
  pub timerecord : ℤ

-- What one round of the loop finds: the content and the length of the file, which another process
-- may be writing, and the two readings of `time(NULL)`.
pub record Look : Type 0 where
  pub content : Disk
  pub file_end : ℤ
  pub recorded : ℤ
  pub tested : ℤ

-- How a call ends: bytes, with more to come or with all blocks done; -1 where the blocks and the
-- length of the answer end at different places (`uneven`), and where nothing came for ten seconds
-- (`late`). `waiting` is a loop that still runs.
pub data Served : Type 0 where
  more : Bytes → Intervals → Reader → Served
  last : Bytes → Reader → Served
  uneven : Intervals → Reader → Served
  late : Intervals → Reader → Served
  waiting : Intervals → Reader → Served

abbrev pub maxrecv : ℕ
maxrecv = 14600

-- How many bytes are asked for.
unfoldable pub tbuffer : Reader → ℕ
tbuffer s =
    if ltb_ℤ s.limit (s.acumulate +ℤ pos maxrecv)
    then pos_part (s.limit -ℤ s.acumulate)
    else maxrecv

abbrev pub min : ℕ → ℕ → ℕ
min a b = if leb a b then a else b

-- `cachefile.gcount()`.
unfoldable pub gcount : Look → Reader → ℕ
unfolding tbuffer
gcount look s = if s.failed then 0 else min (tbuffer s) (pos_part (look.file_end -ℤ s.place))

-- `n` bytes of the file from a place on.
unfoldable pub bytes_at : Disk → ℤ → ℕ → Bytes
bytes_at disk p zero = []
bytes_at disk p (suc n) = disk p ∷ bytes_at disk (p +ℤ one) n

-- `cachefile.read`, and what is counted with it.
unfoldable pub take_bytes : Look → Reader → Reader
take_bytes look s = record s {
  place = s.place +ℤ pos (gcount look s);
  failed = s.failed || ltb (gcount look s) (tbuffer s);
  acumulate = s.acumulate +ℤ pos (gcount look s);
  filesended = s.filesended +ℤ pos (gcount look s);
}

-- `if (brange != lrangeswork.end())`, behind `++brange`.
unfoldable pub go_to : Intervals → Reader → Reader
go_to [] s = record s { acumulate = pos 0 }
go_to (v ∷ vs) s = record s {
  acumulate = pos 0;
  place = if s.failed then s.place else v.position;
  limit = v.b -ℤ v.a +ℤ one;
}

abbrev pub behind : Intervals → Intervals
behind [] = []
behind (w ∷ ws) = ws

-- `if (acumulate == limit)`: the blocks left, and the reader.
unfoldable pub advance : Intervals → Reader → Intervals × Reader
unfolding go_to
advance brange s =
    if eqb_ℤ s.acumulate s.limit then (behind brange, go_to (behind brange) s) else (brange, s)

abbrev pub is_end : Intervals → Bool
is_end [] = true
is_end (w ∷ ws) = false

-- The end of a round in which bytes came.
unfoldable pub served : ℤ → Look → Bytes → Intervals → Reader → Served
served filesizeneto look bytes brange s =
    if leb_ℤ (pos 10) (look.tested -ℤ look.recorded)
    then late brange s
    else if is_end brange && eqb_ℤ s.filesended filesizeneto
    then last bytes s
    else if is_end brange || eqb_ℤ s.filesended filesizeneto
    then uneven brange s
    else more bytes brange s

-- One round that gets bytes.
unfoldable pub deliver : ℤ → Look → Intervals → Reader → Served
unfolding take_bytes advance served bytes_at gcount
deliver filesizeneto look brange s =
    let (brange', s') = advance brange (take_bytes look s) in
    served filesizeneto look (bytes_at look.content s.place (gcount look s)) brange'
      (record s' { timerecord = look.recorded })

-- A round that gets none.
unfoldable pub no_bytes : Look → Reader → Reader
no_bytes look s = record s { failed = s.failed || ltb (gcount look s) (tbuffer s) }

-- `while (BodyLength == 0)`, by what its rounds find.
unfoldable pub read_body_hit : ℤ → List Look → Intervals → Reader → Served
unfolding deliver no_bytes
read_body_hit filesizeneto [] brange s = waiting brange s
read_body_hit filesizeneto (look ∷ looks) brange s =
    let s' = no_bytes look s in
    let rest = read_body_hit filesizeneto looks brange s' in
    if ltb 0 (gcount look s)
    then deliver filesizeneto look brange s
    else if leb_ℤ (pos 10) (look.tested -ℤ s.timerecord)
    then late brange s'
    else if is_end brange && eqb_ℤ s'.filesended filesizeneto
    then last [] s'
    else if is_end brange || eqb_ℤ s'.filesended filesizeneto
    then uneven brange s'
    else rest

-- The file is opened at the first block of `lrangeswork`; a block that is not on disk ends the
-- call with -1 and `r.match = hit = false`.
pub data Opened : Type 0 where
  refused : Opened
  opened : Interval → Intervals → Reader → Opened

unfoldable pub open_hit : ℤ → Interval → Intervals → Reader → Opened
open_hit now w ws s =
    if ltb_ℤ w.position (pos 0)
    then refused
    else opened w ws (record s {
      place = w.position;
      failed = false;
      acumulate = pos 0;
      limit = w.b -ℤ w.a +ℤ one;
      timerecord = now;
    })
