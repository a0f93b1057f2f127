-- ===== src/Invariant/Callbacks.antt =====
-- The callbacks of libcw keep the invariant and do not fault: a reply that is due is sent whole,
-- with its CR and LF.
use cwdaemon.Base.{
  ℕ, suc, ◌-◌, ◌≤◌, ◌≡◌, refl, Bool, true, false, List, [], ◌∷◌, ◌++◌, arith, ◌∙◌, if◌then◌else◌,
  length, length-append, take_all, ap, ◌==◌, none,
}
use cwdaemon.World.Calls.{Env, Kind, Call}
use cwdaemon.World.State.{Daemon, PttFlag}
use cwdaemon.World.Run.{M, ◌>>=◌, modify, gets, call, when, run}
use cwdaemon.World.Keeps.{
  Leads, Keeps, Leads->>=, Leads->>, Leads-first, Keeps->>, Keeps->>=, Keeps-gets, Keeps-pure,
  Leads-when,
}
use cwdaemon.Ptt.{change_ptt, cwdaemon_set_ptt_off}
use cwdaemon.Reply.{append_bounded, ends_crlf, crlf, cwdaemon_sendto}
use cwdaemon.Callback.{
  cwdaemon_keyingevent, queue_is_low, send_reply, cwdaemon_tone_queue_low_callback,
}
use cwdaemon.Invariant.{Phase, IsSound, registers}
use cwdaemon.Invariant.Rules.{sound_rules, call-IsSound}
use cwdaemon.Invariant.Devices.{dev_cw-IsSound}
use cwdaemon.Invariant.Handlers.{cwdaemon_set_ptt_off-IsSound}

pub ends_crlf-append : (s : List ℕ) → ends_crlf (s ++ crlf) ≡ true
unfolding ends_crlf
ends_crlf-append [] = refl
ends_crlf-append (a ∷ []) = refl
ends_crlf-append (a ∷ b ∷ []) = refl
ends_crlf-append (a ∷ b ∷ c ∷ s) = ends_crlf-append (b ∷ c ∷ s)

-- With room for two bytes and the NUL nothing is cut off.
pub append_bounded-crlf : (s : List ℕ) → length s ≤ 255 → append_bounded 258 s crlf ≡ s ++ crlf
unfolding append_bounded
append_bounded-crlf s h =
    let room : 258 - length s - 1 ≡ suc (suc (255 - length s)) = omega arith in
    rw room (ap (λ t. s ++ t) (take_all (suc (suc (255 - length s))) crlf (omega arith)))

module _ {e : Env} {phase : Phase} {unhooked : Bool} where
  inactivity-IsSound :
      Keeps (IsSound e phase unhooked) (modify (λ s. record s { inactivity_seconds = 0 }))
  unfolding modify
  inactivity-IsSound = record { at = λ s i. ground arith }

  -- A change of the keying state drives the registered device and changes nothing else but the
  -- inactivity counter that the invariant speaks of.
  pub cwdaemon_keyingevent-IsSound :
      (k : Kind) (state : ℕ) → Keeps (IsSound e phase unhooked) (cwdaemon_keyingevent e k state)
  unfolding cwdaemon_keyingevent
  cwdaemon_keyingevent-IsSound k state =
      Keeps->> _ _ (dev_cw-IsSound k (state == 1)) inactivity-IsSound

  queue_is_low-IsSound : (b : Bool) → Keeps (IsSound e phase unhooked) (queue_is_low e b)
  unfolding queue_is_low
  queue_is_low-IsSound true = search sound_rules
  queue_is_low-IsSound false = search sound_rules

  send_reply-IsSound :
      Leads
        (λ s. IsSound e phase unhooked s × (s.ptt_flag.echo ≡ true))
        (IsSound e phase unhooked)
        (send_reply e)
  unfolding send_reply change_ptt cwdaemon_sendto run
  send_reply-IsSound = record {
    at = λ s i.
        let text = append_bounded-crlf s.reply_buffer (i.0.due_ok i.1) in
        rw text (
          ground (
            arith,
            i.0.due_ok i.1,
            ends_crlf-append s.reply_buffer,
            length-append s.reply_buffer crlf,
          ));
  }

-- The flag is still what was read of it.
abbrev Flagged : Env → Phase → Bool → PttFlag → Daemon → Type 0
Flagged e phase unhooked f s = IsSound e phase unhooked s × (s.ptt_flag ≡ f)

module _ {e : Env} {phase : Phase} {unhooked : Bool} {f : PttFlag} where
  call-Flagged : (c : Call) → registers c ≡ none → Keeps (Flagged e phase unhooked f) (call e c)
  unfolding call
  call-Flagged c h = record { at = λ s i. ground arith }

  queue_is_low-Flagged : (b : Bool) → Keeps (Flagged e phase unhooked f) (queue_is_low e b)
  unfolding queue_is_low
  queue_is_low-Flagged true = Keeps->>= _ _ (call-Flagged _ refl) (λ len. Keeps-pure _)
  queue_is_low-Flagged false = Keeps-pure _

  branches-IsSound :
      (low : Bool)
      → Leads
          (Flagged e phase unhooked f)
          (IsSound e phase unhooked)
          (if low then cwdaemon_set_ptt_off e else when f.echo (send_reply e))
  branches-IsSound true = Leads-first (λ s i. i.0) cwdaemon_set_ptt_off-IsSound
  branches-IsSound false =
      Leads-when f.echo _
        (λ due. Leads-first (λ s i. (i.0, ap (λ g. g.echo) i.1 ∙ due)) send_reply-IsSound)
        (λ s i. i.0)

module _ {e : Env} {phase : Phase} {unhooked : Bool} where
  known_flag-IsSound :
      {A : Type 0} (g : PttFlag → M A)
      → ((f : PttFlag) → Leads (Flagged e phase unhooked f) (IsSound e phase unhooked) (g f))
      → Keeps (IsSound e phase unhooked) (gets (λ s. s.ptt_flag) >>= g)
  unfolding ◌>>=◌ gets
  known_flag-IsSound g h = record { at = λ s i. (h s.ptt_flag).at s (i, refl) }

  -- The callback keeps the invariant in every state of the flag, of the queue and of the tone
  -- queue.
  pub cwdaemon_tone_queue_low_callback-IsSound :
      Keeps (IsSound e phase unhooked) (cwdaemon_tone_queue_low_callback e)
  unfolding cwdaemon_tone_queue_low_callback
  cwdaemon_tone_queue_low_callback-IsSound = Keeps->>= _ _ (call-IsSound _ refl) (λ len.
      known_flag-IsSound _ (λ f. Leads->>= _ _ _ _ _ (Keeps-gets _) (λ queue.
        Leads->>= _ _ _ _ _ (queue_is_low-Flagged _)
          (λ low. Leads->> _ _ _ _ _ (branches-IsSound low) (search sound_rules)))))
