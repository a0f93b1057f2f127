-- ===== src/Keyer.antt =====
-- What the daemon promises its clients, without devices, calls and buffers: the state of a keyer,
-- and what each Escape request makes of it. The requests are those of
-- `cwdaemon_handle_escaped_request` (src/cwdaemon.c).
pub mod Rules
pub mod Parts
pub mod Requests
pub mod Refines
pub mod Score
pub mod Settled
pub mod Characters
pub mod Scored
pub mod Texts
use cwdaemon.Base.{
  ℕ, Bool, true, false, Option, none, some, List, [], ◌∷◌, ◌++◌, ltb, ◌==◌, if◌then◌else◌, ℤ, pos,
  eqb_ℤ,
}
use cwdaemon.Utils.{cwdaemon_get_long}
use cwdaemon.World.Calls.{Env, Address}
use cwdaemon.World.State.{Daemon, Params, PttFlag, no_ptt}
use cwdaemon.Params.{
  cwdaemon_params_wpm, cwdaemon_params_tone, cwdaemon_params_volume, cwdaemon_params_weighting,
  cwdaemon_params_tune, cwdaemon_params_pttdelay, cwdaemon_params_system, PttDelay, refused,
  accepted, clipped,
}
use cwdaemon.Ptt.{add_auto, add_manual, drop_manual, add_echo}
use cwdaemon.Escape.{break_text}
use cwdaemon.Escape.Dispatch.{
  EscCode, reset, speed, tone, abort, word_mode, weighting, ptt_state, tune, tx_delay, sound_system,
  volume, reply_code,
}
use cwdaemon.Callback.Echo.{sent}

pub record Keyer : Type 0 where
  pub defaults : Params
  pub values : Params
  pub words : Bool
  -- who keys: the daemon, a client; and whether a reply is due
  pub flag : PttFlag
  pub reply : List ℕ
  pub reply_to : Address
  -- the client whose request came last
  pub client : Address
  -- the datagrams that were sent, the newest first
  pub outbox : List (Address × List ℕ)

-- What the daemon's globals and its calls show of the keyer.
abbrev pub view : Daemon → Keyer
view s = record {
  defaults = s.defaults;
  values = s.current;
  words = s.wordmode;
  flag = s.ptt_flag;
  reply = s.reply_buffer;
  reply_to = s.reply_addr;
  client = s.request_addr;
  outbox = sent s.trace;
}

-- A value that is refused changes nothing.
abbrev pub provided : {A : Type 0} → Option A → (A → Keyer → Keyer) → Keyer → Keyer
provided none f k = k
provided (some a) f k = f a k

abbrev pub with_values : (Params → Params) → Keyer → Keyer
with_values f k = record k { values = f k.values }

abbrev pub with_flag : (PttFlag → PttFlag) → Keyer → Keyer
with_flag f k = record k { flag = f k.flag }

-- The daemon turns the PTT on, if there is a PTT delay.
abbrev pub push : Keyer → Keyer
push k = if ltb 0 k.values.ptt_delay_ms then with_flag add_auto k else k

-- A client lets go of the PTT: the daemon takes over while it still sends.
abbrev pub release : Bool → Keyer → Keyer
release busy k =
    if k.flag.manual
    then (if busy then with_flag (λ f. add_auto (drop_manual f)) k else with_flag (λ f. no_ptt) k)
    else k

abbrev pub put_delay : ℕ → Keyer → Keyer
put_delay n k =
    let delayed : Keyer = with_values (λ p. record p { ptt_delay_ms = n }) k in
    if n == 0 then with_flag (λ f. no_ptt) delayed else delayed

abbrev pub delay_of : PttDelay → Option ℕ
delay_of refused = none
delay_of (accepted n) = some n
delay_of (clipped n) = some n

-- The text of an abort goes where a reply is due.
abbrev pub tell_break : Keyer → Keyer
tell_break k = if k.flag.echo then record k { outbox = (k.reply_to, break_text) ∷ k.outbox } else k

-- `busy` says whether libcw still has tones to play.
abbrev pub obey : Env → Bool → EscCode → List ℕ → List ℕ → Keyer → Keyer
obey e busy reset payload text k = record k { values = k.defaults; words = false; flag = no_ptt }
obey e busy speed payload text k =
    provided (cwdaemon_params_wpm e payload) (λ z. with_values (λ p. record p { morse_speed = z }))
      k
obey e busy tone payload text k =
    provided (cwdaemon_params_tone e payload) (λ z. with_values (λ p. record p { morse_tone = z }))
      k
obey e busy abort payload text k = if k.words then k else with_flag (λ f. no_ptt) (tell_break k)
obey e busy word_mode payload text k = record k { words = true }
obey e busy weighting payload text k =
    provided (cwdaemon_params_weighting payload)
      (λ z. with_values (λ p. record p { weighting = z })) k
obey e busy ptt_state payload text k =
    provided (cwdaemon_get_long (some payload))
      (λ z k. if eqb_ℤ z (pos 0) then release busy k else with_flag add_manual (push k)) k
obey e busy tune payload text k =
    provided (cwdaemon_params_tune payload) (λ n k. if ltb 0 n then push k else k) k
obey e busy tx_delay payload text k =
    provided (delay_of (cwdaemon_params_pttdelay payload)) put_delay k
obey e busy sound_system payload text k =
    provided (cwdaemon_params_system payload)
      (λ a. with_values (λ p. record p { audio_system = a })) k
obey e busy volume payload text k =
    provided (cwdaemon_params_volume e payload)
      (λ z. with_values (λ p. record p { morse_volume = z })) k
obey e busy reply_code payload text k = record k {
  flag = add_echo k.flag;
  reply_to = k.client;
  reply = text;
}
-- the keying device, the SSB way, the band, the port; the exit leaves no keyer behind
obey e busy _ payload text k = k
