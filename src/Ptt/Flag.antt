-- ===== src/Ptt/Flag.antt =====
-- The record of the three bits of `ptt_flag` stands for the byte of the source.
use Prim.Native.Nat.{bit_and, bit_or}
use std.Equiv.{Iso, iso_to_equiv}
use mathlib.Core.HLevel.{Σ_prop_path}
use native.Mathlib.Bridge.{le_prop}
use std.Univalence.{iso_to_path, ua-β}
use std.Path.{transport}
use cwdaemon.Base.{ℕ, zero, suc, ◌<◌, arith, ap, ◌≡◌, refl, Bool, true, false, not, ◌==◌}
use cwdaemon.World.State.{PttFlag, ptt_byte}
use cwdaemon.Ptt.{
  add_auto, add_manual, drop_manual, add_echo, drop_echo, is_set, is_auto_only, no_modifiers,
}

abbrev HasByteLaws : PttFlag → Type 0
HasByteLaws f =
    (ptt_byte (add_auto f) ≡ bit_or (ptt_byte f) 0x01)
    × (ptt_byte (add_manual f) ≡ bit_or (ptt_byte f) 0x02)
    × (ptt_byte (add_echo f) ≡ bit_or (ptt_byte f) 0x04)
    × (ptt_byte (drop_manual f) ≡ bit_and (ptt_byte f) 0xfd)
    × (ptt_byte (drop_echo f) ≡ bit_and (ptt_byte f) 0xfb)
    × (is_set f ≡ not (ptt_byte f == 0))
    × (is_auto_only f ≡ (ptt_byte f == 1))
    × (no_modifiers f ≡ true)

eight_flags : (a m b : Bool) → HasByteLaws (record { auto = a; manual = m; echo = b })
eight_flags true true true = (refl, refl, refl, refl, refl, refl, refl, refl)
eight_flags true true false = (refl, refl, refl, refl, refl, refl, refl, refl)
eight_flags true false true = (refl, refl, refl, refl, refl, refl, refl, refl)
eight_flags true false false = (refl, refl, refl, refl, refl, refl, refl, refl)
eight_flags false true true = (refl, refl, refl, refl, refl, refl, refl, refl)
eight_flags false true false = (refl, refl, refl, refl, refl, refl, refl, refl)
eight_flags false false true = (refl, refl, refl, refl, refl, refl, refl, refl)
eight_flags false false false = (refl, refl, refl, refl, refl, refl, refl, refl)

-- The bytes that have no other bit.
abbrev pub LowByte : Type 0
LowByte = (n : ℕ) × (n < 8)

byte_bound : (f : PttFlag) → ptt_byte f < 8
byte_bound f = ground arith

flag_of : ℕ → PttFlag
flag_of n = record { auto = bit_and n 1 == 1; manual = bit_and n 2 == 2; echo = bit_and n 4 == 4 }

flag_of-byte :
    (a m b : Bool)
    → flag_of (ptt_byte (record { auto = a; manual = m; echo = b }))
      ≡ record { auto = a; manual = m; echo = b }
unfolding flag_of
flag_of-byte true true true = refl
flag_of-byte true true false = refl
flag_of-byte true false true = refl
flag_of-byte true false false = refl
flag_of-byte false true true = refl
flag_of-byte false true false = refl
flag_of-byte false false true = refl
flag_of-byte false false false = refl

byte-flag_of : (n : ℕ) → n < 8 → ptt_byte (flag_of n) ≡ n
unfolding flag_of
byte-flag_of zero h = refl
byte-flag_of (suc zero) h = refl
byte-flag_of (suc (suc zero)) h = refl
byte-flag_of (suc (suc (suc zero))) h = refl
byte-flag_of (suc (suc (suc (suc zero)))) h = refl
byte-flag_of (suc (suc (suc (suc (suc zero))))) h = refl
byte-flag_of (suc (suc (suc (suc (suc (suc zero)))))) h = refl
byte-flag_of (suc (suc (suc (suc (suc (suc (suc zero))))))) h = refl
byte-flag_of (suc (suc (suc (suc (suc (suc (suc (suc n)))))))) h = omega (arith, h)

flag-Iso-byte : Iso PttFlag LowByte
flag-Iso-byte = record {
  fun = λ f. (ptt_byte f, byte_bound f);
  inv = λ b. flag_of b.0;
  rinv = λ b. Σ_prop_path (λ n. le_prop) (byte-flag_of b.0 b.1);
  linv = λ f. flag_of-byte f.auto f.manual f.echo;
}

-- The record of the three bits is the same type as the bytes below 8, along a path that takes a
-- record to the byte of the source. On the byte, setting and clearing a bit of the record is `|=`
-- and `&= ~` (0xfd is `~0x02` as an `unsigned char`, 0xfb is `~0x04`), the tests `ptt_flag` and
-- `ptt_flag == PTT_ACTIVE_AUTO` of the record are those of the byte, and the test
-- `!(ptt_flag & !PTT_ACTIVE_AUTO)` holds of every flag.
pub ptt_byte_lem :
    ((p : PttFlag ≡ LowByte) × ((f : PttFlag) → (transport p f).0 ≡ ptt_byte f))
    × ((f : PttFlag) → HasByteLaws f)
unfolding flag-Iso-byte
ptt_byte_lem = (
  (iso_to_path flag-Iso-byte, λ f. ap (λ b. b.0) (ua-β (iso_to_equiv flag-Iso-byte) f)),
  λ f. eight_flags f.auto f.manual f.echo,
)

pub no_modifiers_always : (f : PttFlag) → no_modifiers f ≡ true
no_modifiers_always f = let (_, _, _, _, _, _, _, all) = eight_flags f.auto f.manual f.echo in all
