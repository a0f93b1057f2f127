-- ===== src/Device/Lines.antt =====
-- The lines of the serial port that the tty device drives: src/ttys.c, and `cwdaemon_keyingevent`
-- of src/cwdaemon.c.
use cwdaemon.Base.{
  ℕ, ◌≡◌, ◌≢◌, refl, Bool, true, false, ◌&&◌, ◌==◌, List, [], ◌∷◌, ℤ, pos, arith, ltb_ℤ, eqb_ℤ,
  eqb_ℤ_iff, if◌then◌else◌,
}
use cwdaemon.World.Calls.{Env, ttys, Call, tiocmbis, tiocmbic}
use cwdaemon.World.State.{Daemon}
use cwdaemon.World.Keeps.{Returns}
use cwdaemon.World.Run.{run}
use cwdaemon.Device.{dev_cw, dev_ptt}
use cwdaemon.Callback.{cwdaemon_keyingevent}

-- The level of a line of the port `fd` before a call, and what the call makes of it.
abbrev after : ℤ → ℕ → Call → Bool → Bool
after fd pin (tiocmbis f p) level = if eqb_ℤ f fd && p == pin then true else level
after fd pin (tiocmbic f p) level = if eqb_ℤ f fd && p == pin then false else level
after fd pin _ level = level

-- The level of a line, which is low at first.
abbrev pub line : ℤ → ℕ → List Call → Bool
line fd pin [] = false
line fd pin (c ∷ t) = after fd pin c (line fd pin t)

-- The line `pin` is at `level`, and `other` is where it was.
abbrev pub IsMoved : ℕ → Bool → ℕ → Daemon → Daemon → Type 0
IsMoved pin level other s t =
    (line s.cwdevice_ttys.fd pin t.trace ≡ level)
    × (line s.cwdevice_ttys.fd other t.trace ≡ line s.cwdevice_ttys.fd other s.trace)
    × (t.cwdevice_ttys ≡ s.cwdevice_ttys)

-- With different lines for keying and PTT, both in use, a change of the key moves the keying line
-- to the state of the key and leaves the PTT line, and switching the PTT moves the PTT line and
-- leaves the keying line. No call returns a negative number.
pub ttys_lines :
    (e : Env) (s : Daemon) (state : ℕ) (onoff : Bool)
    → ((t : List Call) (c : Call) → ltb_ℤ (e.returns t c) (pos 0) ≡ false)
    → s.cwdevice_ttys.key_pin ≢ 0
    → s.cwdevice_ttys.ptt_pin ≢ 0
    → s.cwdevice_ttys.key_pin ≢ s.cwdevice_ttys.ptt_pin
    → Returns
        (IsMoved s.cwdevice_ttys.key_pin (state == 1) s.cwdevice_ttys.ptt_pin s)
        (cwdaemon_keyingevent e ttys state s)
      × Returns
          (IsMoved s.cwdevice_ttys.ptt_pin onoff s.cwdevice_ttys.key_pin s)
          (dev_ptt e ttys onoff s)
unfolding cwdaemon_keyingevent dev_cw dev_ptt run
ttys_lines e s state onoff w k p d =
    let fd = s.cwdevice_ttys.fd in
    let same = (eqb_ℤ_iff fd fd).1 refl in
    let key_set = w s.trace (tiocmbis fd s.cwdevice_ttys.key_pin) in
    let key_clear = w s.trace (tiocmbic fd s.cwdevice_ttys.key_pin) in
    let ptt_set = w s.trace (tiocmbis fd s.cwdevice_ttys.ptt_pin) in
    let ptt_clear = w s.trace (tiocmbic fd s.cwdevice_ttys.ptt_pin) in (ground arith, ground arith)
