-- ===== src/Client/Trip.antt =====
-- A request from the client of examples/example.c to its handler in the daemon.
use cwdaemon.Base.{
  ℕ, suc, ◌-◌, ◌≤◌, ◌≡◌, refl, ap, Bool, true, false, Option, some, List, [], ◌∷◌, ◌++◌, ◌==◌, ℤ,
  pos, arith, length, take, take_all, get_or, drop, ◌∙◌, eqb_ℤ, negsuc, if◌then◌else◌,
}
use cwdaemon.Utils.CString.{c_str}
use cwdaemon.World.Calls.{Env, Address}
use cwdaemon.World.State.{Daemon}
use cwdaemon.World.Run.{M, ◌>>◌, pure, run}
use cwdaemon.Reply.{datagram, trim_crlf, accept_bytes, request, cwdaemon_recvfrom}
use cwdaemon.Escape.Dispatch.{
  EscCode, reset, speed, tone, abort, exit_daemon, word_mode, weighting, cwdevice, ptt_state, tune,
  tx_delay, sound_system, volume, reply_code, dispatch, esc_code, cwdaemon_handle_escaped_request,
}
use cwdaemon.Request.{cwdaemon_receive, receive_text, receive_request, act_on}
use cwdaemon.Liveness.Runs.{asks_exit}
use cwdaemon.Client.{
  sprintf, Request, k_reset, k_message, k_speed, k_tone, k_abort, k_stop, k_wordmode, k_weight,
  k_device, k_tod, k_tune, k_ptt, k_sdevice, k_volume, k_reply, other, fill_buffer, escaped, blank,
  nuls, netkeyer, Keyed,
}
use cwdaemon.Client.Buffer.{
  NoNul, trim_crlf-padded, c_str-padded, length-padded, sprintf-escaped, sprintf-blank,
}

-- What the daemon is asked for: its Escape request, if it is one, with the value as payload, or a
-- text.
abbrev pub esc : Env → EscCode → List ℕ → List ℕ → M ℕ
esc e code payload text = dispatch e code payload text >> pure 0

abbrev pub asked : Env → Request → List ℕ → M ℕ
asked e k_reset value = esc e reset [] (b'0' ∷ [])
asked e k_message value = receive_text e value
asked e k_speed value = esc e speed value (b'2' ∷ value)
asked e k_tone value = esc e tone value (b'3' ∷ value)
asked e k_abort value = esc e abort [] (b'4' ∷ [])
asked e k_stop value = esc e exit_daemon [] (b'5' ∷ [])
asked e k_wordmode value = esc e word_mode [] (b'6' ∷ [])
asked e k_weight value = esc e weighting value (b'7' ∷ value)
asked e k_device value = esc e cwdevice value (b'8' ∷ value)
asked e k_tod value = esc e tx_delay value (b'd' ∷ value)
asked e k_tune value = esc e tune value (b'c' ∷ value)
asked e k_ptt value = esc e ptt_state value (b'a' ∷ value)
asked e k_sdevice value = esc e sound_system value (b'f' ∷ value)
asked e k_volume value = esc e volume value (b'g' ∷ value)
asked e k_reply value = esc e reply_code value (b'h' ∷ value)
asked e other value = pure 0

-- The buffer reaches the daemon as `m`; whether it asks for the exit is told by `stops`.
abbrev Delivers : Env → Address → Daemon → Option (List ℕ) → M ℕ → Bool → Type 0
Delivers e addr s o m stops =
    (buf : List ℕ) × (o ≡ some buf)
    × ((get_or buf 0 0 == 0) ≡ false)
    × (asks_exit buf ≡ stops)
    × (cwdaemon_receive e (datagram addr buf) s ≡ m (record s { request_addr = addr }))

first-padded : (s t : List ℕ) → (get_or s 0 0 == 0) ≡ false → get_or (s ++ t) 0 0 ≡ get_or s 0 0
first-padded [] t h = absurd (ground arith)
first-padded (c ∷ s) t h = refl

accepted :
    (bytes : List ℕ)
    → trim_crlf bytes ≡ bytes
    → (get_or bytes 0 0 == 0) ≡ false
    → accept_bytes bytes ≡ request bytes
accepted [] t h = absurd (ground arith)
accepted (c ∷ s) t h = rw t refl

-- A datagram that fits its buffer, and from which nothing is trimmed.
module _ (e : Env) (addr : Address) (s : Daemon) (bytes : List ℕ) (b : length bytes ≤ 256)
    (t : trim_crlf bytes ≡ bytes) where
  receive-escaped :
      (get_or bytes 0 0 == 0) ≡ false
      → (get_or bytes 0 0 == 27) ≡ true
      → cwdaemon_receive e (datagram addr bytes) s
        ≡ esc e
            (esc_code (get_or bytes 1 0))
            (c_str (drop 2 bytes))
            (c_str (drop 1 bytes))
            (record s { request_addr = addr })
  unfolding cwdaemon_receive cwdaemon_recvfrom act_on receive_request
      cwdaemon_handle_escaped_request run
  receive-escaped z h =
      let whole : take 256 bytes ≡ bytes = take_all 256 bytes b in
      let taken : accept_bytes bytes ≡ request bytes = accepted bytes t z in
      rw (whole, taken, h) refl

  receive-text :
      (get_or bytes 0 0 == 0) ≡ false
      → (get_or bytes 0 0 == 27) ≡ false
      → cwdaemon_receive e (datagram addr bytes) s
        ≡ receive_text e (c_str bytes) (record s { request_addr = addr })
  unfolding cwdaemon_receive cwdaemon_recvfrom act_on receive_request run
  receive-text z h =
      let whole : take 256 bytes ≡ bytes = take_all 256 bytes b in
      let taken : accept_bytes bytes ≡ request bytes = accepted bytes t z in
      rw (whole, taken, h) refl

module _ (e : Env) (addr : Address) (s : Daemon) where
  letter-Delivers :
      (letter : ℕ) (value : List ℕ)
      → (letter == 0) ≡ false
      → NoNul value
      → length value ≤ 77
      → Delivers e addr s
          (sprintf 2 value (escaped letter))
          (esc e (esc_code letter) value (letter ∷ value))
          (letter == b'5')
  letter-Delivers letter value l h b =
      let from : Daemon = record s { request_addr = addr } in
      let n = 77 - length value in
      let buf : List ℕ = 27 ∷ letter ∷ value ++ nuls (suc n) in
      let trimmed : trim_crlf buf ≡ buf = trim_crlf-padded (27 ∷ letter ∷ value) n in
      let payload : c_str (drop 2 buf) ≡ value = c_str-padded value n h in
      let text : c_str (drop 1 buf) ≡ letter ∷ value = c_str-padded (letter ∷ value) n (l, h) in
      (
        buf,
        sprintf-escaped letter value b,
        refl,
        refl,
        receive-escaped e addr s buf (omega (arith, length-padded value (suc n))) trimmed refl refl
            ∙ (ap (λ p. esc e (esc_code letter) p (c_str (drop 1 buf)) from) payload
                ∙ ap (λ p. esc e (esc_code letter) value p from) text),
      )

  -- Without a value nothing but NULs stands behind the letter.
  bare-Delivers :
      (letter : ℕ)
      → (letter == 0) ≡ false
      → Delivers e addr s
          (some (escaped letter))
          (esc e (esc_code letter) [] (letter ∷ []))
          (letter == b'5')
  unfolding sprintf
  bare-Delivers letter l = letter-Delivers letter [] l tt (omega arith)

  text-Delivers :
      (value : List ℕ)
      → (get_or value 0 0 == 0) ≡ false
      → (get_or value 0 0 == 27) ≡ false
      → NoNul value
      → length value ≤ 79
      → Delivers e addr s (sprintf 0 value blank) (receive_text e value) false
  text-Delivers value z c h b =
      let from : Daemon = record s { request_addr = addr } in
      let n = 79 - length value in
      let buf : List ℕ = value ++ nuls (suc n) in
      let first : get_or buf 0 0 ≡ get_or value 0 0 = first-padded value _ z in
      (
        buf,
        sprintf-blank value b,
        rw first z,
        rw (first, c) refl,
        receive-text e addr s buf (omega (arith, length-padded value (suc n)))
              (trim_crlf-padded value n) (rw first z) (rw first c)
            ∙ ap (λ p. receive_text e p from) (c_str-padded value n h),
      )

abbrev pub is_stop : Request → Bool
is_stop k_stop = true
is_stop _ = false

-- A value that a request can carry. A text is not empty and does not begin with ESC.
abbrev pub IsCarried : Request → List ℕ → Type 0
IsCarried k_reset value = Unit
IsCarried k_abort value = Unit
IsCarried k_stop value = Unit
IsCarried k_wordmode value = Unit
IsCarried other value = ⊥
IsCarried k_message value =
    ((get_or value 0 0 == 0) ≡ false)
    × ((get_or value 0 0 == 27) ≡ false)
    × NoNul value
    × (length value ≤ 79)
IsCarried _ value = NoNul value × (length value ≤ 77)

module _ (e : Env) (addr : Address) (s : Daemon) where
  pub fill_buffer-Delivers :
      (r : Request) (value : List ℕ)
      → IsCarried r value
      → Delivers e addr s (fill_buffer r value) (asked e r value) (is_stop r)
  unfolding fill_buffer esc_code
  fill_buffer-Delivers k_reset value h = bare-Delivers e addr s b'0' refl
  fill_buffer-Delivers k_abort value h = bare-Delivers e addr s b'4' refl
  fill_buffer-Delivers k_stop value h = bare-Delivers e addr s b'5' refl
  fill_buffer-Delivers k_wordmode value h = bare-Delivers e addr s b'6' refl
  fill_buffer-Delivers k_message value (z, c, h, b) = text-Delivers e addr s value z c h b
  fill_buffer-Delivers k_speed value (h, b) = letter-Delivers e addr s b'2' value refl h b
  fill_buffer-Delivers k_tone value (h, b) = letter-Delivers e addr s b'3' value refl h b
  fill_buffer-Delivers k_weight value (h, b) = letter-Delivers e addr s b'7' value refl h b
  fill_buffer-Delivers k_device value (h, b) = letter-Delivers e addr s b'8' value refl h b
  fill_buffer-Delivers k_tod value (h, b) = letter-Delivers e addr s b'd' value refl h b
  fill_buffer-Delivers k_tune value (h, b) = letter-Delivers e addr s b'c' value refl h b
  fill_buffer-Delivers k_ptt value (h, b) = letter-Delivers e addr s b'a' value refl h b
  fill_buffer-Delivers k_sdevice value (h, b) = letter-Delivers e addr s b'f' value refl h b
  fill_buffer-Delivers k_volume value (h, b) = letter-Delivers e addr s b'g' value refl h b
  fill_buffer-Delivers k_reply value (h, b) = letter-Delivers e addr s b'h' value refl h b
  fill_buffer-Delivers other value h = elim h [ ]

-- What `netkeyer` returns if it sends the buffer.
abbrev pub keyed : (List ℕ → ℤ) → List ℕ → Keyed
keyed send buf = record {
  datagrams = buf ∷ [];
  rv = if eqb_ℤ (send buf) (negsuc 0) then negsuc 0 else pos 0;
}

module _ (e : Env) (send : List ℕ → ℤ) (r : Request) (value : List ℕ) (addr : Address)
    (s : Daemon) where
  pub netkeyer-sends :
      IsCarried r value
      → (buf : List ℕ) × (netkeyer send r value ≡ some (keyed send buf))
        × (asks_exit buf ≡ is_stop r)
        × (cwdaemon_receive e (datagram addr buf) s
            ≡ asked e r value (record s { request_addr = addr }))
  unfolding netkeyer
  netkeyer-sends h =
      let (buf, filled, starts, stops, received) = fill_buffer-Delivers e addr s r value h in
      (buf, rw (netkeyer, filled, starts) refl, stops, received)

-- The client's requests arrive: with a value that fits its buffer and has no NUL, `netkeyer` sends
-- one datagram, and the daemon that receives it does what the request's name says, with exactly
-- that value, for the client's address. It returns 0 unless `send` fails. A text is not empty, does
-- not begin with ESC, and has at most 79 bytes; any other value has at most 77.
pub netkeyer_trip :
    (e : Env) (send : List ℕ → ℤ) (r : Request) (value : List ℕ) (addr : Address) (s : Daemon)
    → IsCarried r value
    → (buf : List ℕ) × (netkeyer send r value ≡ some (keyed send buf))
      × (cwdaemon_receive e (datagram addr buf) s
          ≡ asked e r value (record s { request_addr = addr }))
netkeyer_trip e send r value addr s h =
    let (buf, sends, stops, received) = netkeyer-sends e send r value addr s h in
    (buf, sends, received)
