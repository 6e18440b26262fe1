-- ===== src/TimeUtils.antt =====
-- src/brutils/time_utils.cpp: times as texts. A time point is a number; what the functions take from the
-- C and C++ libraries is a record. The overloads that take the format by rvalue call the others.
use brutils.Base.{ℕ, Bytes, Option, none, some}

-- `gmtime` and `localtime` give a null pointer for a time that they cannot convert, which is `none`.
pub record TimeLibrary : Type 1 where
  pub Tm : Type 0
  pub to_time_t : ℕ → ℕ
  pub gmtime : ℕ → Option Tm
  pub localtime : ℕ → Option Tm
  pub put_time : Tm → Bytes → Bytes

-- `none`: `put_time` reads through a null pointer.
unfoldable pub get_time_formatted : TimeLibrary → Bytes → ℕ → Option Bytes
get_time_formatted lib format time_point = elim (lib.gmtime (lib.to_time_t time_point)) [
  | none ↦ none
  | some tm ↦ some (lib.put_time tm format)
]

unfoldable pub get_localtime_formatted : TimeLibrary → Bytes → ℕ → Option Bytes
get_localtime_formatted lib format time_point = elim (lib.localtime (lib.to_time_t time_point)) [
  | none ↦ none
  | some tm ↦ some (lib.put_time tm format)
]

-- Without a time point, the time is what the clock shows.
unfoldable pub get_time_formatted_now : TimeLibrary → ℕ → Bytes → Option Bytes
unfolding get_time_formatted
get_time_formatted_now lib now format = get_time_formatted lib format now

unfoldable pub get_localtime_formatted_now : TimeLibrary → ℕ → Bytes → Option Bytes
unfolding get_localtime_formatted
get_localtime_formatted_now lib now format = get_localtime_formatted lib format now
