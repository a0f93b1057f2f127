-- ===== src/Keyer/Parts.antt =====
-- The PTT, the tuning and the libcw output, as the keyer shows them (src/cwdaemon.c).
use cwdaemon.Base.{
  ℕ, ◌≡◌, refl, Bool, true, false, not, ◌&&◌, Option, none, some, List, [], ◌∷◌, ℤ, pos, arith, ap,
  ◌∙◌, subst, if◌then◌else◌, ltb, ltb_ℤ, eqb_ℤ, ◌==◌, Bool-cases, inl, inr,
}
use cwdaemon.Utils.{cwdaemon_get_long}
use cwdaemon.World.Calls.{Env, cw_get_tone_queue_length}
use cwdaemon.World.State.{Daemon, no_ptt}
use cwdaemon.World.Run.{run, ◌>>◌}
use cwdaemon.World.Yields.{
  Takes, Holds, Yields, state_rules, Keeps-Holds, Takes->>=, Takes->>, Takes-if, Takes-first,
  Takes-last, Takes-when, Takes-gets, Holds-skip, Holds-pure, Takes-modify,
}
use cwdaemon.Ptt.{
  add_auto, add_manual, drop_manual, change_ptt, cwdaemon_set_ptt_on, cwdaemon_set_ptt_off,
  cwdaemon_tune, ptt_manual_on, ptt_manual_off, set_ptt_state, cwdaemon_params_ptt_on_off,
}
use cwdaemon.Ptt.Flag.{no_modifiers_always}
use cwdaemon.Params.{PttDelay, refused, accepted, clipped}
use cwdaemon.Escape.{set_ptt_delay, ensure_ptt_off, store_delay}
use cwdaemon.Frame.Devices.{dev_ptt-Keeps}
use cwdaemon.Frame.Handlers.{queue_seconds-Keeps}
use cwdaemon.Keyer.{
  Keyer, view, provided, with_flag, push, release, put_delay, delay_of, with_values,
}
use cwdaemon.Keyer.Rules.{
  Seen, Seen-IsFrame, Seen-IsRemote, Takes-known, change_ptt-Seen, modify-Seen,
}

pub ruleset seen_rules = (state_rules, Keeps-Holds, Seen-IsFrame, Seen-IsRemote)

-- A flag with the bit set stays as it is.
auto_twice : (k : Keyer) → k.flag.auto ≡ true → k ≡ with_flag add_auto k
auto_twice k h = ap (λ b. record k { flag = record k.flag { auto = b } }) h

pushed :
    (k : Keyer)
    → (ltb 0 k.values.ptt_delay_ms && not k.flag.auto) ≡ true
    → with_flag add_auto k ≡ push k
pushed k h = let delayed : ltb 0 k.values.ptt_delay_ms ≡ true = ground arith in rw delayed refl

push_again : (k : Keyer) → (ltb 0 k.values.ptt_delay_ms && not k.flag.auto) ≡ false → k ≡ push k
push_again k h = elim (Bool-cases (ltb 0 k.values.ptt_delay_ms)) [
  | inl p ↦ let set : k.flag.auto ≡ true = ground arith in rw p (auto_twice k set)
  | inr p ↦ rw p refl
]

-- No text is queued, and the keyer is `k`, whose libcw is `busy`.
abbrev pub IsReady : Env → Bool → Keyer → Daemon → Type 0
IsReady e busy k s =
    (view s ≡ k)
    × (s.request_queue ≡ [])
    × (ltb_ℤ (pos 1) (e.returns s.trace cw_get_tone_queue_length) ≡ busy)

module _ (e : Env) where
  pub set_ptt_on-Seen : (k : Keyer) → Takes (Seen k) (Seen (push k)) (cwdaemon_set_ptt_on e)
  unfolding cwdaemon_set_ptt_on
  set_ptt_on-Seen k =
      Takes-known _ (λ k. k.values.ptt_delay_ms) _ (λ s. refl)
        (Takes-known _ (λ k. k.flag) _ (λ s. refl)
          (Takes-when (ltb 0 k.values.ptt_delay_ms && not k.flag.auto) _
            (λ h. Takes->> _ (Seen k) _ _ _ (search (seen_rules, dev_ptt-Keeps)) (
              Takes->> _ (Seen k) _ _ _ (search seen_rules)
                (Takes-last (λ s i. i ∙ pushed k h) (change_ptt-Seen add_auto))))
            (λ h s i. i ∙ push_again k h)))

  pub set_ptt_off-Seen :
      (k : Keyer) → Takes (Seen k) (Seen (with_flag (λ f. no_ptt) k)) (cwdaemon_set_ptt_off e)
  unfolding cwdaemon_set_ptt_off
  set_ptt_off-Seen k =
      Takes->> _ (Seen k) _ _ _ (search (seen_rules, dev_ptt-Keeps)) (change_ptt-Seen (λ f. no_ptt))

  pub tune-Seen :
      (n : ℕ) (k : Keyer)
      → Takes (Seen k) (Seen (if ltb 0 n then push k else k)) (cwdaemon_tune e n)
  unfolding cwdaemon_tune
  tune-Seen n k =
      Takes-when (ltb 0 n) _
        (λ h. rw h (
          Takes->> _ (Seen k) _ _ _ (search seen_rules) (
            Takes->> _ (Seen (push k)) _ _ _ (set_ptt_on-Seen k)
              (search (seen_rules, queue_seconds-Keeps)))))
        (λ h s i. rw h i)

  manual_on-Seen :
      (k : Keyer) → Takes (Seen k) (Seen (with_flag add_manual (push k))) (ptt_manual_on e)
  unfolding ptt_manual_on
  manual_on-Seen k =
      Takes-known _ (λ k. k.values.ptt_delay_ms) _ (λ s. refl)
        (Takes->> _ (Seen (push k)) _ _ _
          (Takes-when (ltb 0 k.values.ptt_delay_ms) _ (λ h. set_ptt_on-Seen k) (λ h s i. rw h i))
          (change_ptt-Seen add_manual))

  -- by whether the PTT is on by a client's request
  manual_off-Yields :
      (busy : Bool) (s : Daemon)
      → s.request_queue ≡ []
      → ltb_ℤ (pos 1) (e.returns s.trace cw_get_tone_queue_length) ≡ busy
      → Yields (Seen (release busy (view s))) (ptt_manual_off e s)
  unfolding ptt_manual_off change_ptt run
  manual_off-Yields true s q b = elim (Bool-cases s.ptt_flag.manual) [
    | inl h ↦ rw (h, no_modifiers_always (drop_manual s.ptt_flag), q, b) refl
    | inr h ↦ rw h refl
  ]
  manual_off-Yields false s q b =
      let released : Daemon = record s {
        request_queue = [];
        ptt_flag = drop_manual (record s.ptt_flag { manual = true });
        trace = cw_get_tone_queue_length ∷ s.trace;
      } in
      elim (Bool-cases s.ptt_flag.manual) [
        | inl h ↦
            rw (h, no_modifiers_always (drop_manual s.ptt_flag), q, b)
              ((set_ptt_off-Seen (view released)).at released refl)
        | inr h ↦ rw h refl
      ]

  manual_off-Seen :
      (busy : Bool) (k : Keyer)
      → Takes (IsReady e busy k) (Seen (release busy k)) (ptt_manual_off e)
  manual_off-Seen busy k = record {
    at = λ s (i, q, b).
        subst (λ k. Yields (Seen (release busy k)) (ptt_manual_off e s)) i
          (manual_off-Yields busy s q b);
  }

  set_ptt_state-Seen :
      (busy : Bool) (o : Option ℤ) (k : Keyer)
      → Takes
          (IsReady e busy k)
          (Seen (
            provided o
              (λ z k. if eqb_ℤ z (pos 0) then release busy k else with_flag add_manual (push k))
              k))
          (set_ptt_state e o)
  unfolding set_ptt_state
  set_ptt_state-Seen busy none k = Takes-first (λ s i. i.0) (Holds-pure false)
  set_ptt_state-Seen busy (some z) k =
      Takes->> _ _ _ _ _
        (Takes-if (eqb_ℤ z (pos 0)) _ _ (λ h. rw h (manual_off-Seen busy k))
          (λ h. rw h (Takes-first (λ s i. i.0) (manual_on-Seen k))))
        (Holds-pure true)

  pub ptt_on_off-Seen :
      (busy : Bool) (payload : List ℕ) (k : Keyer)
      → Takes
          (IsReady e busy k)
          (Seen (
            provided
              (cwdaemon_get_long (some payload))
              (λ z k. if eqb_ℤ z (pos 0) then release busy k else with_flag add_manual (push k))
              k))
          (cwdaemon_params_ptt_on_off e payload)
  unfolding cwdaemon_params_ptt_on_off
  ptt_on_off-Seen busy payload k = set_ptt_state-Seen busy (cwdaemon_get_long (some payload)) k

  ensure_off-Seen :
      (k : Keyer)
      → Takes
          (Seen k)
          (Seen (if k.values.ptt_delay_ms == 0 then with_flag (λ f. no_ptt) k else k))
          (ensure_ptt_off e)
  unfolding ensure_ptt_off
  ensure_off-Seen k =
      Takes-known _ (λ k. k.values.ptt_delay_ms) _ (λ s. refl)
        (Takes-when (k.values.ptt_delay_ms == 0) _ (λ z. rw z (set_ptt_off-Seen k))
          (λ z s i. rw z i))

  delay-Seen :
      (n : ℕ) (k : Keyer)
      → Takes (Seen k) (Seen (put_delay n k)) (set_ptt_delay n >> ensure_ptt_off e)
  unfolding set_ptt_delay
  delay-Seen n k =
      Takes->> _ _ _ _ _
        (modify-Seen _ (with_values (λ p. record p { ptt_delay_ms = n })) (λ s. refl))
        (ensure_off-Seen _)

  pub store_delay-Seen :
      (d : PttDelay) (k : Keyer)
      → Takes (Seen k) (Seen (provided (delay_of d) put_delay k)) (store_delay e d)
  unfolding store_delay
  store_delay-Seen refused k = Holds-skip
  store_delay-Seen (accepted n) k = delay-Seen n k
  store_delay-Seen (clipped n) k = delay-Seen n k
