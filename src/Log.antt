-- ===== src/Log.antt =====
-- src/log.c. A message is its text after formatting, which `vsnprintf` cuts to the size of a
-- buffer. PACKAGE, which the build defines, is `name`, the section's parameter. Here and in
-- Log/Open the text that is only printed on the terminal before an exit is left out.
pub mod Open
pub mod Filter
use cwdaemon.Base.{
  ℕ, Bool, true, false, Option, none, some, List, [], ◌∷◌, ◌++◌, ltb, ◌==◌, if◌then◌else◌, take,
}
use cwdaemon.Utils.CString.{codes}
use cwdaemon.Params.{log_err, log_warning, log_notice, log_info, log_debug}
use cwdaemon.World.State.{Stream, stdout}

-- What is written: a line to the system's log with its priority, a line to a stream; and a flush.
pub data Output : Type 0 where
  syslog : ℕ → List ℕ → Output
  fprintf : Stream → List ℕ → Output
  fflush : Stream → Output

-- LOG_BUF_SIZE has a byte for the NUL.
abbrev pub log_text_max : ℕ
log_text_max = 1024

abbrev pub newline : List ℕ
newline = 10 ∷ []

unfoldable pub log_get_priority_label : ℕ → List ℕ
log_get_priority_label priority =
    if priority == log_err
    then codes "EE"
    else if priority == log_warning
    then codes "WW"
    else if priority == log_notice
    then codes "NN"
    else if priority == log_info
    then codes "II"
    else if priority == log_debug
    then codes "DD"
    else codes "??"

-- `vsnprintf(buf, sizeof (buf), format, ap)`
abbrev pub formatted : List ℕ → List ℕ
formatted text = take log_text_max text

module _ (name : List ℕ) where
  -- `"[%s] %s: %s\n"`
  unfoldable pub log_line : ℕ → List ℕ → List ℕ
  unfolding log_get_priority_label
  log_line priority text =
      codes "["
      ++ (log_get_priority_label priority
          ++ (codes "] " ++ (name ++ (codes ": " ++ (text ++ newline)))))

  -- `none` is a `cwdaemon_debug_f` that is NULL.
  unfoldable pub write_message : Option Stream → ℕ → List ℕ → List Output
  unfolding log_line
  write_message none priority text = syslog priority (text ++ newline) ∷ []
  write_message (some f) priority text = fprintf f (log_line priority text) ∷ []

  unfoldable pub log_message : Option Stream → ℕ → ℕ → List ℕ → List Output
  unfolding write_message
  log_message debug_f threshold priority text =
      if ltb threshold priority then [] else write_message debug_f priority (formatted text)

  unfoldable pub cwdaemon_debug : Option Stream → ℕ → ℕ → List ℕ → List Output
  unfolding log_line
  cwdaemon_debug none threshold verbosity text = []
  cwdaemon_debug (some f) threshold verbosity text =
      if ltb threshold verbosity
      then []
      else fprintf f (log_line verbosity (formatted text)) ∷ fflush f ∷ []

  -- `error` is `strerror(errno)`.
  unfoldable pub cwdaemon_errmsg : Bool → List ℕ → List ℕ → List Output
  cwdaemon_errmsg true text error = syslog log_err (formatted text ++ newline) ∷ []
  cwdaemon_errmsg false text error =
      fprintf stdout (
        name
        ++ (codes ": "
            ++ (formatted text ++ (codes " failed: \"" ++ (error ++ (codes "\"" ++ newline))))))
      ∷ fflush stdout
      ∷ []
