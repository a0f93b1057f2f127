-- ===== src/Play/Caret.antt =====
-- A text with a '^' in it (src/cwdaemon.c, `cwdaemon_play_request`).
use cwdaemon.Base.{
  ℕ, ◌≤◌, ◌≡◌, refl, Bool, true, false, not, ◌||◌, List, [], ◌∷◌, ◌++◌, ◌==◌, pos, arith, length,
  All, eqb_ℤ, ltb_ℤ, take_all, append-nil, subst, append_assoc,
}
use cwdaemon.World.Calls.{Env, Call, cw_get_gap, tiocmbis, ppfcontrol, Address}
use cwdaemon.World.State.{Daemon}
use cwdaemon.World.Keeps.{Returns, Returns->>=}
use cwdaemon.World.Run.{Void, run, ◌>>=◌}
use cwdaemon.Device.{dev_ptt}
use cwdaemon.Device.Lp.{control_init}
use cwdaemon.Ptt.{cwdaemon_set_ptt_on, change_ptt}
use cwdaemon.Reply.{cwdaemon_prepare_reply}
use cwdaemon.Play.{
  play_character, after_character, handle_caret, play_loop, set_queue, cwdaemon_play_request,
}

-- The text has none of the characters that have a meaning of their own.
abbrev pub is_plain : ℕ → Bool
is_plain c = not (c == b'+' || c == b'-' || c == b'~' || c == b'^' || c == b'*')

-- No call returns a negative number, and libcw has the gap of no '~' in force.
pub record IsCalm (e : Env) : Type 0 where
  pub succeeds : (t : List Call) (c : Call) → ltb_ℤ (e.returns t c) (pos 0) ≡ false
  pub no_gap : (t : List Call) → eqb_ℤ (e.returns t cw_get_gap) (pos 2) ≡ false

abbrev From : Address → Daemon → Type 0
From a s = s.request_addr ≡ a

-- What a '^' behind `text` leaves behind, for the client at `a`.
abbrev pub IsDue : Address → List ℕ → Daemon → Type 0
IsDue a text t = (t.reply_buffer ≡ text) × (t.reply_addr ≡ a) × (t.ptt_flag.echo ≡ true)

module _ (e : Env) (w : IsCalm e) where
  character-From :
      (c : ℕ) (a : Address) (s : Daemon) → From a s → Returns (From a) (play_character e c s)
  unfolding play_character cwdaemon_set_ptt_on dev_ptt change_ptt run
  character-From c a s h =
      let tty_works = w.succeeds s.trace (tiocmbis s.cwdevice_ttys.fd s.cwdevice_ttys.ptt_pin) in
      let lp_works = w.succeeds s.trace (ppfcontrol s.cwdevice_lp.fd control_init control_init) in
      ground arith

  after-From :
      (rest : List ℕ) (Q : Daemon → Type 0) (f : Bool → Void) (s : Daemon)
      → Returns Q (f false (record s { trace = cw_get_gap ∷ s.trace }))
      → Returns Q ((after_character e rest >>= f) s)
  unfolding after_character run
  after-From rest Q f s k = rw (w.no_gap s.trace, Returns) k

  caret-IsDue :
      (done : List ℕ) (a : Address) (s : Daemon)
      → length done ≤ 257
      → From a s
      → Returns (IsDue a done) (handle_caret e done s)
  unfolding handle_caret cwdaemon_prepare_reply change_ptt set_queue run
  caret-IsDue done a s b h = let all = take_all (length done) done in ground (arith, all)

  plain_step :
      (c : ℕ) (rest done : List ℕ) (a : Address) (s : Daemon) (Q : Daemon → Type 0)
      → is_plain c ≡ true
      → From a s
      → ((t : Daemon) → From a t → Returns Q (play_loop e false (done ++ c ∷ []) rest t))
      → Returns Q (play_loop e false done (c ∷ rest) s)
  unfolding play_loop run
  plain_step c rest done a s Q p h k =
      let no_plus : (c == b'+') ≡ false = ground arith in
      let no_minus : (c == b'-') ≡ false = ground arith in
      let no_tilde : (c == b'~') ≡ false = ground arith in
      let no_caret : (c == b'^') ≡ false = ground arith in
      let no_star : (c == b'*') ≡ false = ground arith in
      rw (no_plus, no_minus, no_tilde, no_caret, no_star)
        (Returns->>= (From a) Q (play_character e c s)
          (λ _. after_character e rest >>= λ b. play_loop e b (done ++ c ∷ []) rest)
          (character-From c a s h) (λ _ t ht. after-From rest Q _ t (k _ ht)))

  plain_loop :
      (text done rest : List ℕ) (a : Address) (s : Daemon)
      → All (λ c. is_plain c ≡ true) text
      → length (done ++ text) ≤ 257
      → From a s
      → Returns (IsDue a (done ++ text)) (play_loop e false done (text ++ b'^' ∷ rest) s)
  unfolding play_loop
  plain_loop [] done rest a s p b h =
      rw (append-nil done) (caret-IsDue done a s (rw (append-nil done) at b) h)
  plain_loop (c ∷ text) done rest a s (p, ps) b h =
      plain_step c (text ++ b'^' ∷ rest) done a s _ p h (λ t ht.
        subst
          (λ l. Returns (IsDue a l) (play_loop e false (done ++ c ∷ []) (text ++ b'^' ∷ rest) t))
          (append_assoc done (c ∷ []) text)
          (plain_loop text (done ++ c ∷ []) rest a t ps (rw (append_assoc done (c ∷ []) text) b)
            ht))

-- A text of ordinary characters, a '^' behind it and anything behind that: played, the text before
-- the '^' becomes the reply that is due to the client that sent the last request, and nothing is
-- left queued. The text has at most 257 bytes, no call returns a negative number, and no '~' is in
-- force.
pub caret-prepares_reply :
    (e : Env) (text rest : List ℕ) (s : Daemon)
    → IsCalm e
    → All (λ c. is_plain c ≡ true) text
    → length text ≤ 257
    → s.request_queue ≡ text ++ b'^' ∷ rest
    → Returns
        (λ t. IsDue s.request_addr text t × (t.request_queue ≡ []))
        (cwdaemon_play_request e s)
unfolding cwdaemon_play_request set_queue run
caret-prepares_reply e text rest s w p b q =
    let queued : Daemon = record s { request_queue = text ++ b'^' ∷ rest } in
    rw q (
      Returns->>= (IsDue s.request_addr text)
        (λ t. IsDue s.request_addr text t × (t.request_queue ≡ []))
        (play_loop e false [] (text ++ b'^' ∷ rest) queued) (λ _. set_queue [])
        (plain_loop e w text [] rest s.request_addr queued p b refl) (λ _ t d. (d, refl)))
