-- ===== src/Device/Port.antt =====
-- The parallel port as its user sees it: src/lp.c, and the foot switch in `main` of src/cwdaemon.c.
use Prim.Native.Nat.{bit_and, bit_xor}
use cwdaemon.Base.{
  ◌-◌, ◌%◌, ◌<◌, ℕ, ◌≡◌, refl, Bool, true, false, not, List, [], ◌∷◌, ℤ, arith, eqb_ℤ, eqb_ℤ_iff,
  ap, subst, ◌∙◌, if◌then◌else◌,
}
use cwdaemon.World.Calls.{Env, CallsSucceed, Call, ppfcontrol, ppwdata}
use cwdaemon.World.State.{Daemon}
use cwdaemon.Device.Register.{Port, View, Writer, port_of, written, AllPut, put_lem}
use cwdaemon.World.Keeps.{Returns, Returns->>=, Returns-map}
use cwdaemon.World.Run.{ret, Void, run, ◌>>=◌, ◌>>◌, gets}
use cwdaemon.Device.Lp.{
  control_autofd, control_init, control_select, lp_cw, lp_ptt, lp_ssbway, lp_switchband,
  lp_reset_pins_state, parport_control, parport_write_data,
}

-- PPFCONTROL of Linux: the bits of the mask are cleared, and then those of the value are flipped.
abbrev pub frob : Writer
frob mask value register = bit_xor (bit_and register (255 - mask)) value

-- The control register of eight bits and the data lines, after the calls of a trace, the newest
-- first.
abbrev pub control : ℤ → List Call → ℕ
control fd [] = 0
control fd (ppfcontrol f mask value ∷ t) =
    let before : ℕ = control fd t in if eqb_ℤ f fd then frob mask value before % 256 else before
control fd (_ ∷ t) = control fd t

abbrev pub data_lines : ℤ → List Call → ℕ
data_lines fd [] = 0
data_lines fd (ppwdata f value ∷ t) = if eqb_ℤ f fd then value else data_lines fd t
data_lines fd (_ ∷ t) = data_lines fd t

abbrev pub port : View
port fd t = port_of (control fd t) (data_lines fd t)

control_bound : (fd : ℤ) (t : List Call) → control fd t < 256
control_bound fd [] = omega arith
control_bound fd (c ∷ t) = let rest = control_bound fd t in ground arith

abbrev pub IsSeen : View → Daemon → Port → Daemon → Type 0
IsSeen v s p t = (v s.cwdevice_lp.fd t.trace ≡ p) × (t.cwdevice_lp ≡ s.cwdevice_lp)

abbrev pub IsPort : Daemon → Port → Daemon → Type 0
IsPort = IsSeen port

abbrev pub put_key : Bool → Port → Port
put_key b p = record p { key_down = b }

abbrev pub put_ptt : Bool → Port → Port
put_ptt b p = record p { ptt_on = b }

abbrev pub put_soundcard : Bool → Port → Port
put_soundcard b p = record p { soundcard = b }

abbrev pub put_band : ℕ → Port → Port
put_band n p = record p { band = n }

abbrev calling : Call → Daemon → Daemon
calling c s = record s { trace = c ∷ s.trace }

-- `m` makes `g` of the port.
abbrev pub Makes : View → Void → (Port → Port) → Type 0
Makes v m g = (s : Daemon) → Returns (IsSeen v s (g (v s.cwdevice_lp.fd s.trace))) (m s)

module _ (v : View) where
  Makes->> :
      (m n : Void) (g h : Port → Port) → Makes v m g → Makes v n h → Makes v (m >> n) (λ p. h (g p))
  unfolding ◌>>=◌ ◌>>◌
  Makes->> m n g h km kn s =
      let p = v s.cwdevice_lp.fd s.trace in
      Returns->>= (IsSeen v s (g p)) (IsSeen v s (h (g p))) (m s) (λ _. n) (km s)
        (λ _ t (told, same).
          Returns-map (IsSeen v t (h (v t.cwdevice_lp.fd t.trace))) (IsSeen v s (h (g p))) (n t)
            (kn t)
            (λ u (then_told, then_same). (
              subst (λ d. v d.fd u.trace ≡ h (v d.fd t.trace)) same then_told ∙ ap h told,
              then_same ∙ same,
            )))

  -- The reset of the pins, from its four steps.
  pub reset-Makes :
      (m n o q : Void)
      → Makes v m (put_key false)
      → Makes v n (put_ptt false)
      → Makes v o (put_soundcard false)
      → Makes v q (put_band 0)
      → Makes v
          (m >> (n >> (o >> q)))
          (λ p. record { key_down = false; ptt_on = false; soundcard = false; band = 0 })
  reset-Makes m n o q hm hn ho hq =
      Makes->> _ _ (put_key false) (λ p. put_band 0 (put_soundcard false (put_ptt false p))) hm
        (Makes->> _ _ (put_ptt false) (λ p. put_band 0 (put_soundcard false p)) hn
          (Makes->> _ _ (put_soundcard false) (put_band 0) ho hq))

module _ (e : Env) (w : CallsSucceed e) where
  control_lem :
      (fd : ℤ) (mask value : ℕ) (s : Daemon)
      → parport_control e fd mask value s ≡ ret tt (calling (ppfcontrol fd mask value) s)
  unfolding parport_control run
  control_lem fd mask value s = let works = w s.trace (ppfcontrol fd mask value) in ground arith

  write_data_lem :
      (fd : ℤ) (value : ℕ) (s : Daemon)
      → parport_write_data e fd value s ≡ ret tt (calling (ppwdata fd value) s)
  unfolding parport_write_data run
  write_data_lem fd value s = let works = w s.trace (ppwdata fd value) in ground arith

  put-Seen :
      (fd : ℤ) (mask value : ℕ) (s : Daemon)
      → AllPut frob mask value
      → Returns
          (λ t.
            (port fd t.trace ≡ record {
              key_down = written mask value (control fd s.trace) control_select;
              ptt_on = not (written mask value (control fd s.trace) control_init);
              soundcard = not (written mask value (control fd s.trace) control_autofd);
              band = data_lines fd s.trace;
            })
            × (t.cwdevice_lp ≡ s.cwdevice_lp))
          (parport_control e fd mask value s)
  put-Seen fd mask value s h =
      let same = (eqb_ℤ_iff fd fd).1 refl in
      rw (control_lem fd mask value s, same)
        (
          put_lem frob mask value (control fd s.trace) (data_lines fd s.trace) h
              (control_bound fd s.trace),
          refl,
        )

  pub cw-Makes : (onoff : Bool) → Makes port (lp_cw e onoff) (put_key onoff)
  unfolding lp_cw ◌>>=◌ gets AllPut
  cw-Makes true s = put-Seen s.cwdevice_lp.fd control_select 0 s refl
  cw-Makes false s = put-Seen s.cwdevice_lp.fd control_select control_select s refl

  pub ptt-Makes : (onoff : Bool) → Makes port (lp_ptt e onoff) (put_ptt onoff)
  unfolding lp_ptt ◌>>=◌ gets AllPut
  ptt-Makes true s = put-Seen s.cwdevice_lp.fd control_init control_init s refl
  ptt-Makes false s = put-Seen s.cwdevice_lp.fd control_init 0 s refl

  pub ssbway-Makes : (onoff : Bool) → Makes port (lp_ssbway e onoff) (put_soundcard onoff)
  unfolding lp_ssbway ◌>>=◌ gets AllPut
  ssbway-Makes true s = put-Seen s.cwdevice_lp.fd control_autofd control_autofd s refl
  ssbway-Makes false s = put-Seen s.cwdevice_lp.fd control_autofd 0 s refl

  pub switchband-Makes : (v : ℕ) → Makes port (lp_switchband e v) (put_band v)
  unfolding lp_switchband ◌>>=◌ gets
  switchband-Makes v s =
      let same = (eqb_ℤ_iff s.cwdevice_lp.fd s.cwdevice_lp.fd).1 refl in
      rw (write_data_lem s.cwdevice_lp.fd v s) (ground arith, refl)

  pub pins-Makes :
      Makes port
        (lp_reset_pins_state e)
        (λ p. record { key_down = false; ptt_on = false; soundcard = false; band = 0 })
  unfolding lp_reset_pins_state
  pins-Makes =
      reset-Makes port _ _ _ _ (cw-Makes false) (ptt-Makes false) (ssbway-Makes false)
        (switchband-Makes 0)

-- On the parallel port the key, the PTT, the SSB source and the band switch are independent: each
-- method sets its own output to what it is told and leaves the other ones, and the reset of the
-- pins puts the key up, the PTT off, the microphone on and all the outputs of the band switch low.
-- No call returns a negative number.
pub lp_outputs :
    (e : Env) (s : Daemon) (onoff : Bool) (bitpattern : ℕ)
    → CallsSucceed e
    → Returns (IsPort s (put_key onoff (port s.cwdevice_lp.fd s.trace))) (lp_cw e onoff s)
      × Returns (IsPort s (put_ptt onoff (port s.cwdevice_lp.fd s.trace))) (lp_ptt e onoff s)
      × Returns
          (IsPort s (put_soundcard onoff (port s.cwdevice_lp.fd s.trace)))
          (lp_ssbway e onoff s)
      × Returns
          (IsPort s (put_band bitpattern (port s.cwdevice_lp.fd s.trace)))
          (lp_switchband e bitpattern s)
      × Returns
          (IsPort s (record { key_down = false; ptt_on = false; soundcard = false; band = 0 }))
          (lp_reset_pins_state e s)
lp_outputs e s onoff bitpattern w = (
  cw-Makes e w onoff s,
  ptt-Makes e w onoff s,
  ssbway-Makes e w onoff s,
  switchband-Makes e w bitpattern s,
  pins-Makes e w s,
)
