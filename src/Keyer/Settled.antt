-- ===== src/Keyer/Settled.antt =====
-- The speed, the gap and the reply while a text is played (`cwdaemon_play_request` of
-- src/cwdaemon.c), as the keyer and libcw show them.
use cwdaemon.Base.{
  sym, ℕ, ◌≡◌, refl, Bool, true, false, some, List, arith, ℤ, ltb_ℤ, InRange, Bool-cases, inl, inr,
  ap, ◌∙◌, length, leb, take_all,
}
use cwdaemon.World.Calls.{Env, IsLibcw, cw_set_gap}
use cwdaemon.World.State.{Daemon}
use cwdaemon.World.Run.{run, perform}
use cwdaemon.World.Yields.{Takes, Holds, state_rules}
use cwdaemon.Ptt.{change_ptt}
use cwdaemon.Reply.{cwdaemon_prepare_reply, reply_size_max}
use cwdaemon.Play.{
  set_queue, set_speed, is_speed_sign, head_is, clamp_speed, change_speed, handle_caret,
}
use cwdaemon.Invariant.Playing.{clamp_speed_bounds}
use cwdaemon.Keyer.Score.{Station, show, at_speed, hasten, settle, owe}

-- The speed is within the limits, and it is what libcw was told last.
abbrev pub IsSettled : Env → Station → Type 0
IsSettled e st =
    let z : ℤ = st.keyer.values.morse_speed in (clamp_speed e z ≡ z) × (st.told ≡ some z)

abbrev pub Shown : Station → Daemon → Type 0
Shown st s = show s ≡ st

abbrev pub Settled : Env → Station → Daemon → Type 0
Settled e st s = Shown st s × IsSettled e st

pub clamp_speed_within : (e : Env) (z : ℤ) → InRange e.speed_min e.speed_max z → clamp_speed e z ≡ z
unfolding clamp_speed
clamp_speed_within e z h =
    let low : ltb_ℤ z e.speed_min ≡ false = ground arith in
    let high : ltb_ℤ e.speed_max z ≡ false = ground arith in rw (low, high) refl

pub settle_again : (e : Env) (st : Station) → IsSettled e st → settle e st ≡ st
settle_again e st (h, k) =
    ap (λ z. record st { keyer = at_speed z st.keyer; told = some z }) h
    ∙ ap (λ o. record st { told = o }) (sym k)

-- At the first character of `rest`, which may be within a run of '+' and '-'.
abbrev pub Waits : Env → Bool → Station → Daemon → Type 0
Waits e true st = Shown st
Waits e false st = Shown (settle e st)

abbrev pub At : Env → Bool → List ℕ → Station → Daemon → Type 0
At e true rest st = Settled e st
At e false rest st = Waits e (head_is is_speed_sign rest) st

module _ (e : Env) where
  pub waits : (b : Bool) (st : Station) (s : Daemon) → Settled e st s → Waits e b st s
  waits true st s (i, h) = i
  waits false st s (i, h) = i ∙ sym (settle_again e st h)

  pub ready :
      (b : Bool) (rest : List ℕ) (st : Station) (s : Daemon) → Settled e st s → At e b rest st s
  ready true rest st s h = h
  ready false rest st s h = waits (head_is is_speed_sign rest) st s h

  pub change_speed-Waits :
      (c : ℕ) (rest : List ℕ) (st : Station)
      → Takes
          (Shown st)
          (Waits e (head_is is_speed_sign rest) (hasten c st))
          (change_speed e c rest)
  unfolding change_speed set_speed run
  change_speed-Waits c rest st = record {
    at = λ s i. elim (Bool-cases (head_is is_speed_sign rest)) [
      | inl h ↦ rw h (ap (hasten c) i)
      | inr h ↦ rw h (ap (λ st. settle e (hasten c st)) i)
    ];
  }

  pub gap-Settled :
      (n : ℕ) (st : Station)
      → Takes (Settled e st) (Settled e (record st { gap = n })) (perform (cw_set_gap n))
  unfolding perform
  gap-Settled n st = record {
    at = λ s (i, h). let wide : Station → Station = λ st. record st { gap = n } in (ap wide i, h);
  }

  pub queue-Settled : (q : List ℕ) (st : Station) → Holds (Settled e st) (set_queue q)
  unfolding set_queue
  queue-Settled q st = search state_rules

  pub settle-IsSettled : (st : Station) → IsLibcw e → IsSettled e (settle e st)
  settle-IsSettled st l = (clamp_speed_within e _ (clamp_speed_bounds e _ l), refl)

  pub caret-Shown :
      (before : List ℕ) (st : Station)
      → Takes (Shown st) (Shown (owe e before st)) (handle_caret e before)
  unfolding handle_caret cwdaemon_prepare_reply set_queue change_ptt run
  caret-Shown before st = record {
    at = λ s i. elim (Bool-cases (leb (length before) reply_size_max)) [
      | inl h ↦ rw (h, take_all (length before) before (omega arith)) (ap (owe e before) i)
      | inr h ↦ rw h tt
    ];
  }
