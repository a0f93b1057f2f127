-- ===== src/Keyer/Characters.antt =====
-- A character of a text (`cwdaemon_play_request` of src/cwdaemon.c), as the keyer and libcw show it.
use cwdaemon.Base.{
  ℕ, ◌≡◌, Bool, true, false, Option, List, ◌∷◌, ◌==◌, arith, if◌then◌else◌, ℤ, pos, eqb_ℤ, ltb,
  Bool-cases, inl, inr, ap,
}
use cwdaemon.World.Calls.{Env, Kind, ttys, lp, null, cw_set_gap, cw_get_gap, cw_send_character}
use cwdaemon.World.State.{Daemon}
use cwdaemon.World.Run.{Void, run, ◌>>=◌, perform, when}
use cwdaemon.World.Yields.{
  Takes, Holds, state_rules, call-Holds, Takes->>, Holds-skip, Yields, Yields-map, Yields-both,
}
use cwdaemon.Device.{dev_ptt}
use cwdaemon.Device.Ttys.{ttys_ptt, tty_set_pin}
use cwdaemon.Device.Lp.{lp_ptt, parport_control}
use cwdaemon.Device.Null.{null_ptt}
use cwdaemon.Ptt.{cwdaemon_set_ptt_on, change_ptt}
use cwdaemon.Play.{head_is, play_character, after_character}
use cwdaemon.Settings.{last_told, speed_of}
use cwdaemon.Keyer.{push}
use cwdaemon.Keyer.Rules.{Seen}
use cwdaemon.Keyer.Parts.{set_ptt_on-Seen}
use cwdaemon.Keyer.Score.{Note, last_gap, notes, RemembersGap, Station, key, holds_caret, end_gap}
use cwdaemon.Keyer.Settled.{IsSettled, Shown, Settled}

-- What libcw was told for texts.
abbrev Sends : Option ℤ → ℕ → List Note → Daemon → Type 0
Sends told gap sent s =
    (last_told speed_of s.trace ≡ told) × (last_gap s.trace ≡ gap) × (notes s.trace ≡ sent)

station_path :
    {a b : Station}
    → a.keyer ≡ b.keyer
    → a.told ≡ b.told
    → a.gap ≡ b.gap
    → a.notes ≡ b.notes
    → a ≡ b
station_path h k l m i = record { keyer = h i; told = k i; gap = l i; notes = m i }

module _ (e : Env) where
  -- The calls for the PTT are none of those that libcw gets for a text.
  ptt-Sends :
      (told : Option ℤ) (gap : ℕ) (sent : List Note) (k : Kind)
      → Holds (Sends told gap sent) (dev_ptt e k true)
  unfolding dev_ptt ttys_ptt tty_set_pin lp_ptt parport_control null_ptt
  ptt-Sends told gap sent ttys = search (state_rules, call-Holds)
  ptt-Sends told gap sent lp = search (state_rules, call-Holds)
  ptt-Sends told gap sent null = Holds-skip

  set_ptt_on-Sends :
      (told : Option ℤ) (gap : ℕ) (sent : List Note)
      → Holds (Sends told gap sent) (cwdaemon_set_ptt_on e)
  unfolding cwdaemon_set_ptt_on change_ptt
  set_ptt_on-Sends told gap sent = search (state_rules, ptt-Sends) depth 12

  set_ptt_on-Shown :
      (st : Station)
      → Takes (Shown st) (Shown (record st { keyer = push st.keyer })) (cwdaemon_set_ptt_on e)
  set_ptt_on-Shown st = record {
    at = λ s i.
        Yields-both (Seen (push st.keyer)) (Sends st.told st.gap st.notes) _
          (cwdaemon_set_ptt_on e s) (λ t h (a, b, c). station_path h a b c)
          ((set_ptt_on-Seen e st.keyer).at s (ap (λ x. x.keyer) i))
          ((set_ptt_on-Sends st.told st.gap st.notes).at s
            (ap (λ x. x.told) i, ap (λ x. x.gap) i, ap (λ x. x.notes) i));
  }

  send-Shown :
      (c : ℕ) (st : Station)
      → Takes
          (Shown st)
          (Shown (record st {
            notes = record { character = c; speed = st.told; gap = st.gap } ∷ st.notes;
          }))
          (perform (cw_send_character c))
  unfolding perform
  send-Shown c st = record {
    at = λ s i.
        let note : Station → Note = λ st. record { character = c; speed = st.told; gap = st.gap } in
        let noted : Station → Station = λ st. record st { notes = note st ∷ st.notes } in
        ap noted i;
  }

  character-Shown :
      (c : ℕ) (st : Station) → Takes (Shown st) (Shown (key c st)) (play_character e c)
  unfolding play_character when
  character-Shown c st =
      let pushed : Station = record st { keyer = push st.keyer } in
      elim (Bool-cases (c == 0xff)) [
        | inl p ↦ rw p (Takes->> _ (Shown pushed) _ _ _ (set_ptt_on-Shown st) Holds-skip)
        | inr p ↦ rw p (Takes->> _ (Shown pushed) _ _ _ (set_ptt_on-Shown st) (send-Shown c pushed))
      ]

  -- A speed that is settled stays so when the PTT is turned on.
  key-IsSettled : (c : ℕ) (st : Station) → IsSettled e st → IsSettled e (key c st)
  key-IsSettled c st (h, k) = elim (Bool-cases (ltb 0 st.keyer.values.ptt_delay_ms)) [
    | inl p ↦ rw p (h, k)
    | inr p ↦ rw p (h, k)
  ]

  pub play_character-Settled :
      (c : ℕ) (st : Station) → Takes (Settled e st) (Settled e (key c st)) (play_character e c)
  unfolding play_character
  play_character-Settled c st = record {
    at = λ s (i, h).
        Yields-map (Shown (key c st)) (Settled e (key c st)) (play_character e c s)
          (λ t j. (j, key-IsSettled c st h)) ((character-Shown c st).at s i);
  }

  after_wide :
      (rest : List ℕ) (Q : Daemon → Type 0) (f : Bool → Void) (s : Daemon)
      → eqb_ℤ (e.returns s.trace cw_get_gap) (pos 2) ≡ true
      → Yields Q (
          if head_is (λ d. d == b'^') rest
          then f true (record s { trace = cw_get_gap ∷ s.trace })
          else f false (record s { trace = cw_set_gap 0 ∷ cw_get_gap ∷ s.trace }))
      → Yields Q ((after_character e rest >>= f) s)
  unfolding after_character run
  after_wide rest Q f s h k = elim (Bool-cases (head_is (λ d. d == b'^') rest)) [
    | inl p ↦ rw (h, p, Yields) (rw p at k)
    | inr p ↦ rw (h, p, Yields) (rw p at k)
  ]

  after_normal :
      (rest : List ℕ) (Q : Daemon → Type 0) (f : Bool → Void) (s : Daemon)
      → eqb_ℤ (e.returns s.trace cw_get_gap) (pos 2) ≡ false
      → Yields Q (f false (record s { trace = cw_get_gap ∷ s.trace }))
      → Yields Q ((after_character e rest >>= f) s)
  unfolding after_character run
  after_normal rest Q f s h k = rw (h, Yields) k

gap_test : (b : Bool) (z : ℤ) (n g : ℕ) → z ≡ pos n → n ≡ g → (g == 2) ≡ b → eqb_ℤ z (pos 2) ≡ b
gap_test true z n g h k l = rw (h, k) (ground arith)
gap_test false z n g h k l = rw (h, k) (ground arith)

module _ (e : Env) (w : RemembersGap e) where
  -- The gap of the next character; `held` is whether it is a '^' of the text.
  pub after_character-Settled :
      (rest : List ℕ) (st : Station) (Q : Daemon → Type 0) (f : Bool → Void)
      → Takes (Settled e (end_gap rest st)) Q (f (holds_caret rest st))
      → Takes (Settled e st) Q (after_character e rest >>= f)
  after_character-Settled rest st Q f k = record {
    at = λ s (i, h).
        let same : last_gap s.trace ≡ st.gap = ap (λ x. x.gap) i in
        let normal : Station → Station = λ x. record x { gap = 0 } in
        elim (Bool-cases (st.gap == 2)) [
          | inl g ↦ elim (Bool-cases (head_is (λ d. d == b'^') rest)) [
            | inl p ↦
                after_wide e rest Q f s (gap_test _ _ _ _ (w.gap_ok s.trace) same g)
                  (rw p ((rw (g, p) at k).at _ (i, h)))
            | inr p ↦
                after_wide e rest Q f s (gap_test _ _ _ _ (w.gap_ok s.trace) same g)
                  (rw p ((rw (g, p) at k).at _ (ap normal i, h)))
          ]
          | inr g ↦
              after_normal e rest Q f s (gap_test _ _ _ _ (w.gap_ok s.trace) same g)
                ((rw g at k).at _ (i, h))
        ];
  }
