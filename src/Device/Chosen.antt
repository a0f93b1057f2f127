-- ===== src/Device/Chosen.antt =====
-- The current keying device and its name under the code of the devices (src/ttys.c, src/lp.c,
-- src/null.c).
use cwdaemon.Base.{ℕ, ◌≡◌, refl, Option, none, some, List, ◌∷◌, ℤ, sym, subst, ◌∙◌}
use cwdaemon.World.Calls.{Env, Call, Kind, ttys, lp, null}
use cwdaemon.World.State.{Daemon}
use cwdaemon.World.Run.{modify, call, perform}
use cwdaemon.World.Keeps.{Leads, Keeps, keeps_rules, Keeps->>, Keeps-skip}
use cwdaemon.Device.{device, set_desc, clear_desc, dev_init, dev_free}
use cwdaemon.Device.Null.{null_init, null_free}
use cwdaemon.Device.Ttys.{
  set_ttys, tty_set_pin, ttys_cw, ttys_ptt, ttys_reset_pins_state, ttys_init, ttys_close,
}
use cwdaemon.Device.Lp.{
  parport_control, parport_write_data, lp_cw, lp_ptt, lp_ssbway, lp_switchband, lp_reset_pins_state,
  lp_init, lp_free,
}

abbrev pub HasName : Option (List ℕ) → Option (List ℕ) → Type 0
HasName none d = Unit
HasName (some name) d = d ≡ some name

-- The device of the kind is the current one, and has the name if one is given.
pub record IsChosen (k : Kind) (o : Option (List ℕ)) (t : Daemon) : Type 0 where
  pub chosen : t.global_cwdevice ≡ k
  pub named : HasName o (device k t).desc

pub device-trace :
    (k : Kind) (t : Daemon) (calls : List Call) → device k (record t { trace = calls }) ≡ device k t
device-trace ttys t calls = refl
device-trace lp t calls = refl
device-trace null t calls = refl

abbrev with_fd : Kind → ℤ → Daemon → Daemon
with_fd ttys fd t = record t { cwdevice_ttys = record t.cwdevice_ttys { fd = fd } }
with_fd lp fd t = record t { cwdevice_lp = record t.cwdevice_lp { fd = fd } }
with_fd null fd t = record t { cwdevice_null = record t.cwdevice_null { fd = fd } }

desc-with_fd :
    (k l : Kind) (fd : ℤ) (t : Daemon) → (device k (with_fd l fd t)).desc ≡ (device k t).desc
desc-with_fd ttys ttys fd t = refl
desc-with_fd ttys lp fd t = refl
desc-with_fd ttys null fd t = refl
desc-with_fd lp ttys fd t = refl
desc-with_fd lp lp fd t = refl
desc-with_fd lp null fd t = refl
desc-with_fd null ttys fd t = refl
desc-with_fd null lp fd t = refl
desc-with_fd null null fd t = refl

global-with_fd :
    (l : Kind) (fd : ℤ) (t : Daemon) → (with_fd l fd t).global_cwdevice ≡ t.global_cwdevice
global-with_fd ttys fd t = refl
global-with_fd lp fd t = refl
global-with_fd null fd t = refl

module _ {k : Kind} {o : Option (List ℕ)} where
  call-IsChosen : (e : Env) (c : Call) → Keeps (IsChosen k o) (call e c)
  unfolding call
  call-IsChosen e c = record {
    at = λ t h. record {
      chosen = h.chosen;
      named = subst (λ d. HasName o d.desc) (sym (device-trace k t (c ∷ t.trace))) h.named;
    };
  }

  perform-IsChosen : (c : Call) → Keeps (IsChosen k o) (perform c)
  unfolding perform
  perform-IsChosen c = record {
    at = λ t h. record {
      chosen = h.chosen;
      named = subst (λ d. HasName o d.desc) (sym (device-trace k t (c ∷ t.trace))) h.named;
    };
  }

  fd-IsChosen : (l : Kind) (fd : ℤ) → Keeps (IsChosen k o) (modify (with_fd l fd))
  unfolding modify
  fd-IsChosen l fd = record {
    at = λ t h. record {
      chosen = global-with_fd l fd t ∙ h.chosen;
      named = subst (HasName o) (sym (desc-with_fd k l fd t)) h.named;
    };
  }

ruleset chosen_rules = (keeps_rules, call-IsChosen, perform-IsChosen)

module _ {k : Kind} {o : Option (List ℕ)} (e : Env) where
  ttys_pins-IsChosen : Keeps (IsChosen k o) (ttys_reset_pins_state e)
  unfolding ttys_reset_pins_state ttys_cw ttys_ptt tty_set_pin
  ttys_pins-IsChosen = search chosen_rules depth 12

  lp_pins-IsChosen : Keeps (IsChosen k o) (lp_reset_pins_state e)
  unfolding lp_reset_pins_state lp_cw lp_ptt lp_ssbway lp_switchband parport_control
      parport_write_data
  lp_pins-IsChosen = search chosen_rules depth 14

  pub dev_init-IsChosen : (l : Kind) (fd : ℤ) → Keeps (IsChosen k o) (dev_init e l fd)
  unfolding dev_init ttys_init lp_init null_init set_ttys parport_control
  dev_init-IsChosen ttys fd = Keeps->> _ _ (fd-IsChosen ttys fd) ttys_pins-IsChosen
  dev_init-IsChosen lp fd = search (chosen_rules, lp_pins-IsChosen, fd-IsChosen lp fd) depth 20
  dev_init-IsChosen null fd = fd-IsChosen null fd

  pub dev_free-IsChosen : (l : Kind) → Keeps (IsChosen k o) (dev_free e l)
  unfolding dev_free ttys_close lp_free null_free set_ttys parport_control
  dev_free-IsChosen ttys = search (chosen_rules, ttys_pins-IsChosen, fd-IsChosen ttys) depth 12
  dev_free-IsChosen lp = search (chosen_rules, lp_pins-IsChosen) depth 14
  dev_free-IsChosen null = Keeps-skip

pub clear_desc-IsChosen : {k : Kind} (l : Kind) → Keeps (IsChosen k none) (modify (clear_desc l))
unfolding modify
clear_desc-IsChosen ttys = record { at = λ t h. record { chosen = h.chosen; named = tt } }
clear_desc-IsChosen lp = record { at = λ t h. record { chosen = h.chosen; named = tt } }
clear_desc-IsChosen null = record { at = λ t h. record { chosen = h.chosen; named = tt } }

pub set_desc-IsChosen :
    (k : Kind) (desc : List ℕ)
    → Leads (IsChosen k none) (IsChosen k (some desc)) (modify (set_desc k desc))
unfolding modify
set_desc-IsChosen ttys desc = record { at = λ t h. record { chosen = h.chosen; named = refl } }
set_desc-IsChosen lp desc = record { at = λ t h. record { chosen = h.chosen; named = refl } }
set_desc-IsChosen null desc = record { at = λ t h. record { chosen = h.chosen; named = refl } }
