-- ===== src/Sqlite/Clock.antt =====
-- Timestamps as the adapter stores them: texts by `time.RFC3339`, which has whole seconds, compared by
-- SQLite as texts. The formatting, the parsing and the comparison are outside. The laws are those of RFC 3339
-- for instants in the years 0 to 9999, in zones whose offset is a number of minutes; they are taken here for
-- every instant.
use malipo.Base.{◌+◌, ◌-◌, ◌*◌, ◌/◌, ◌≡◌, Bool, Option, some}
use malipo.Base.Int.{pos, negsuc, ltb_ℤ}
use malipo.Store.Session.{Time}
use malipo.Session.Manager.{second}

-- The whole second in which an instant lies.
unfoldable pub floor_second : Time → Time
floor_second (pos n) = pos (n / second * second)
floor_second (negsuc n) = negsuc ((n / second + 1) * second - 1)

-- `format` is `t.UTC().Format(time.RFC3339)`, `format_local` is `t.Format(time.RFC3339)` in the zone of
-- `t`, `parse` is `time.Parse(time.RFC3339, …)`, and `ltb` is the operator `<` of the statements.
pub record TimeText : Type 1 where
  pub Text : Type 0
  pub format : Time → Text
  pub format_local : Time → Text
  pub parse : Text → Option Time
  pub ltb : Text → Text → Bool
  pub parse-format : (t : Time) → parse (format t) ≡ some (floor_second t)
  pub parse-format_local : (t : Time) → parse (format_local t) ≡ some (floor_second t)
  pub ltb-format :
      (s t : Time) → ltb (format s) (format t) ≡ ltb_ℤ (floor_second s) (floor_second t)
