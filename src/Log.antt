-- ===== src/Log.antt =====
-- SCMultipath/utils/log_utils.c: the log of a session and the times in it. `none` is a write to a
-- file that is not open, or a number of milliseconds beyond a long.
pub mod Phases
use premium.Base.{
  ℕ, ◌+◌, ◌-◌, ◌*◌, ◌/◌, ◌^◌, ℤ, pos, negsuc, [], ◌∷◌, ◌++◌, Bool, false, Option, none, some, ltb,
  if◌then◌else◌, ◌>>=◌,
}
use premium.Text.{Bytes, codes, strcat_all}
use premium.Text.Decimal.{digits, decimal}

-- log_file, with what the file holds.
pub record LogFile : Type 0 where
  pub contents : Bytes
  pub is_open : Bool

unfoldable pub fprintf : Bytes → LogFile → Option LogFile
fprintf line log_file =
    if log_file.is_open
    then some (record log_file { contents = log_file.contents ++ line })
    else none

unfoldable pub log_message : Bytes → LogFile → Option LogFile
log_message log_text log_file =
    fprintf (strcat_all (codes "-> " ∷ log_text ∷ codes " \n" ∷ [])) log_file

unfoldable pub log_message_with_int_value : Bytes → ℕ → LogFile → Option LogFile
log_message_with_int_value log_text value log_file =
    fprintf (strcat_all (codes "-> " ∷ log_text ∷ codes " " ∷ decimal value ∷ codes "\n" ∷ []))
      log_file

unfoldable pub log_message_with_str_value : Bytes → Bytes → LogFile → Option LogFile
log_message_with_str_value log_text value log_file =
    fprintf (strcat_all (codes "-> " ∷ log_text ∷ codes " " ∷ value ∷ codes "\n" ∷ [])) log_file

-- fopen with mode "a" keeps what the file holds, and the first argument says whether it opens it.
unfoldable pub open_log_file : Bool → LogFile → Option LogFile
open_log_file opens log_file =
    log_message (codes "<---------- Begin logging PREMIUM -----------")
      (record log_file { is_open = opens })

unfoldable pub close_log_file : LogFile → Option LogFile
close_log_file log_file = do
  log_file' ← log_message (codes "<---------- Ending logging PREMIUM -----------") log_file
  some (record log_file' { is_open = false })

pub record Timeval : Type 0 where
  pub tv_sec : ℕ
  pub tv_usec : ℕ

-- `t->tv_sec * 1000 + t->tv_usec/1000`
unfoldable pub milliseconds : Timeval → Option ℕ
milliseconds t =
    let ms = t.tv_sec * 1000 + t.tv_usec / 1000 in if ltb ms (2 ^ 63) then some ms else none

-- `end_ms - begin_ms`
unfoldable pub difference : ℕ → ℕ → ℤ
difference end_ms begin_ms =
    if ltb end_ms begin_ms then negsuc (begin_ms - end_ms - 1) else pos (end_ms - begin_ms)

-- `%ld`, of at most 19 digits.
unfoldable pub long_text : ℤ → Bytes
long_text (pos n) = digits 19 n []
long_text (negsuc n) = b'-' ∷ digits 19 (n + 1) []

abbrev pub duration_line : Bytes → ℤ → Bytes
duration_line log_text result_ms =
    strcat_all (codes "-> " ∷ log_text ∷ codes " = " ∷ long_text result_ms ∷ codes " ms\n" ∷ [])

abbrev pub duration_shown : Bytes → ℤ → Bytes
duration_shown log_text result_ms =
    strcat_all (codes ":::::::: " ∷ log_text ∷ codes " " ∷ long_text result_ms ∷ codes " \n" ∷ [])

-- begin_clock and the first lines of end_clock read the time of day, which is an argument. The first
-- result is what is printed.
unfoldable pub end_clock : Timeval → Timeval → Bytes → LogFile → Option (Bytes × LogFile)
end_clock end begin log_text log_file = do
  end_ms ← milliseconds end
  begin_ms ← milliseconds begin
  let result_ms = difference end_ms begin_ms
  log_file' ← fprintf (duration_line log_text result_ms) log_file
  some (duration_shown log_text result_ms, log_file')
