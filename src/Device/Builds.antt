-- ===== src/Device/Builds.antt =====
-- The two builds of src/lp.c, for Linux and for FreeBSD, side by side.
use cwdaemon.Base.{ℕ, ◌%◌, ◌<◌, eqb_ℤ, [], if◌then◌else◌, ◌≡◌, false, List, ◌∷◌, ℤ, pos, arith}
use cwdaemon.World.Calls.{Env, Call, ppigctrl, ppigctrl_data, ppisctrl, ppisdata}
use cwdaemon.World.State.{Daemon}
use cwdaemon.World.Keeps.{Returns}
use cwdaemon.World.Run.{Outcome}
use cwdaemon.Device.Lp
use cwdaemon.Device.Register.{Port, View, port_of}
use cwdaemon.Device.Port.{port}

-- The control register of eight bits and the data lines, after the calls of a trace.
abbrev pub control : ℤ → List Call → ℕ
control fd [] = 0
control fd (ppisctrl f value ∷ t) = if eqb_ℤ f fd then value % 256 else control fd t
control fd (_ ∷ t) = control fd t

abbrev pub data_lines : ℤ → List Call → ℕ
data_lines fd [] = 0
data_lines fd (ppisdata f value ∷ t) = if eqb_ℤ f fd then value else data_lines fd t
data_lines fd (_ ∷ t) = data_lines fd t

abbrev pub ppi_port : View
ppi_port fd t = port_of (control fd t) (data_lines fd t)

-- PPIGCTRL stores the byte that the register holds.
pub record ReadsControl (e : Env) : Type 0 where
  pub control_ok : (fd : ℤ) (t : List Call) → e.returns t (ppigctrl_data fd) ≡ pos (control fd t)

pub control_bound : (fd : ℤ) (t : List Call) → control fd t < 256
control_bound fd [] = omega arith
control_bound fd (c ∷ t) = let rest = control_bound fd t in ground arith

abbrev calling : Call → Daemon → Daemon
calling c s = record s { trace = c ∷ s.trace }

abbrev put_calls : ℤ → ℕ → List Call → List Call
put_calls fd value t = ppisctrl fd value ∷ ppigctrl_data fd ∷ ppigctrl fd ∷ t

abbrev all_off : Port → Port
all_off p = record { key_down = false; ptt_on = false; soundcard = false; band = 0 }

-- Both builds come back, and leave their ports alike.
abbrev pub Agree : Daemon → Daemon → Outcome (Unit {0}) → Outcome (Unit {0}) → Type 0
Agree s u o q =
    Returns
      (λ t. Returns (λ v. port s.cwdevice_lp.fd t.trace ≡ ppi_port u.cwdevice_lp.fd v.trace) q) o
