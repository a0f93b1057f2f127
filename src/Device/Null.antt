-- ===== src/Device/Null.antt =====
-- src/null.c: the keying device that does nothing.
use cwdaemon.Base.{ℕ, List, Bool, ℤ, pos, negsuc, if◌then◌else◌}
use cwdaemon.Utils.CString.{codes, str_eq}
use cwdaemon.World.Run.{Void, modify, skip}

unfoldable pub null_probe_cwdevice : List ℕ → ℤ
unfolding str_eq
null_probe_cwdevice fname = if str_eq fname (codes "null") then pos 0 else negsuc 0

unfoldable pub null_init : ℤ → Void
null_init fd = modify (λ s. record s { cwdevice_null = record s.cwdevice_null { fd = fd } })

unfoldable pub null_free : Void
null_free = skip

unfoldable pub null_reset_pins_state : Void
null_reset_pins_state = skip

unfoldable pub null_cw : Bool → Void
null_cw onoff = skip

unfoldable pub null_ptt : Bool → Void
null_ptt onoff = skip
