-- ===== src/Device/Register.antt =====
-- The registers of a parallel port, and what its user sees of them (src/lp.c).
use Prim.Native.Nat.{bit_and}
use cwdaemon.Base.{
  ℕ, all_below, all_below_lem, ◌%◌, ◌<◌, ◌≡◌, Bool, true, not, ◌&&◌, ◌==◌, List, ℤ, arith,
  if◌then◌else◌,
}
use cwdaemon.World.Calls.{Call}
use cwdaemon.Device.Lp.{control_autofd, control_init, control_select}

-- What the port shows: the key is down, the PTT is on, the soundcard is the source of the SSB, and
-- the outputs of the band switch.
pub record Port : Type 0 where
  pub key_down : Bool
  pub ptt_on : Bool
  pub soundcard : Bool
  pub band : ℕ

-- A way to see the port of a descriptor in the calls.
abbrev pub View : Type 0
View = ℤ → List Call → Port

abbrev pub is_low : ℕ → ℕ → Bool
is_low bit register = bit_and register bit == 0

abbrev pub port_of : ℕ → ℕ → Port
port_of register lines = record {
  key_down = is_low control_select register;
  ptt_on = not (is_low control_init register);
  soundcard = not (is_low control_autofd register);
  band = lines;
}

abbrev same : Bool → Bool → Bool
same a b = if a then b else not b

same_three :
    (a b c k p m : Bool) → (same a k && same b p && same c m) ≡ true → (a ≡ k) × (b ≡ p) × (c ≡ m)
same_three a b c k p m h = ground arith

-- A bit of the register, of which some are written.
abbrev pub written : ℕ → ℕ → ℕ → ℕ → Bool
written mask value register bit = if mask == bit then value == 0 else is_low bit register

-- How a build writes the bits of a mask into the register.
abbrev pub Writer : Type 0
Writer = ℕ → ℕ → ℕ → ℕ

abbrev is_put : Writer → ℕ → ℕ → ℕ → Bool
is_put put mask value register =
    let after : ℕ = put mask value register % 256 in
    same (is_low control_select after) (written mask value register control_select)
    && same (is_low control_init after) (written mask value register control_init)
    && same (is_low control_autofd after) (written mask value register control_autofd)

-- The bit of the mask becomes that of the value, and the other two stay, whatever the register
-- holds.
unfoldable pub AllPut : Writer → ℕ → ℕ → Type 0
AllPut put mask value = all_below (is_put put mask value) 256 ≡ true

-- What the three bits of the register become.
pub put_lem :
    (put : Writer) (mask value register lines : ℕ)
    → AllPut put mask value
    → register < 256
    → port_of (put mask value register % 256) lines ≡ record {
      key_down = written mask value register control_select;
      ptt_on = not (written mask value register control_init);
      soundcard = not (written mask value register control_autofd);
      band = lines;
    }
unfolding AllPut
put_lem put mask value register lines h b =
    let after : ℕ = put mask value register % 256 in
    let (key, ptt, card) =
      same_three (is_low control_select after) (is_low control_init after)
        (is_low control_autofd after) (written mask value register control_select)
        (written mask value register control_init) (written mask value register control_autofd)
        (all_below_lem (is_put put mask value) 256 h register b) in
    λ i. record { key_down = key i; ptt_on = not (ptt i); soundcard = not (card i); band = lines }
