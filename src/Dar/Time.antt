-- ===== src/Dar/Time.antt =====
-- SCMultipath/dar/utils.c: struct tm and its copy. A struct tm stands behind a pointer in the code;
-- none is written after it is filled in, so it is a value here.
use premium.Base.{ℤ}

pub record Tm : Type 0 where
  pub tm_sec : ℤ
  pub tm_min : ℤ
  pub tm_hour : ℤ
  pub tm_mday : ℤ
  pub tm_mon : ℤ
  pub tm_year : ℤ
  pub tm_wday : ℤ
  pub tm_yday : ℤ
  pub tm_isdst : ℤ

unfoldable pub duplicate_time_structure : Tm → Tm
duplicate_time_structure tm_info_to_copy = record {
  tm_sec = tm_info_to_copy.tm_sec;
  tm_min = tm_info_to_copy.tm_min;
  tm_hour = tm_info_to_copy.tm_hour;
  tm_mday = tm_info_to_copy.tm_mday;
  tm_mon = tm_info_to_copy.tm_mon;
  tm_year = tm_info_to_copy.tm_year;
  tm_wday = tm_info_to_copy.tm_wday;
  tm_yday = tm_info_to_copy.tm_yday;
  tm_isdst = tm_info_to_copy.tm_isdst;
}

-- The argument is what localtime(&timer) points to.
unfoldable pub get_current_time : Tm → Tm
unfolding duplicate_time_structure
get_current_time local_time = duplicate_time_structure local_time
