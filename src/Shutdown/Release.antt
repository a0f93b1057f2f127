-- ===== src/Shutdown/Release.antt =====
-- What the daemon leaves behind when it is told to exit, by `<ESC>5` or by SIGINT.
use cwdaemon.Base.{
  ℕ, ◌≡◌, ◌≢◌, refl, false, some, List, ◌∷◌, negsuc, arith, sym, ◌∙◌, ap, subst, if◌then◌else◌,
  take, ltb, ◌+◌,
}
use cwdaemon.World.Calls.{
  Env, CallsSucceed, Address, ttys, close, cw_generator_stop, cw_generator_delete,
}
use cwdaemon.World.State.{Daemon}
use cwdaemon.World.Run.{exit, run, ◌>>=◌, ◌>>◌, gets, perform, stop}
use cwdaemon.World.Keeps.{Returns, Returns->>=, Returns-map}
use cwdaemon.Device.{cwdaemon_cwdevice_free, cwdaemon_cwdevices_free, dev_free}
use cwdaemon.Sound.{cwdaemon_close_libcw_output}
use cwdaemon.Device.Lines.{line}
use cwdaemon.Log.Open.{cwdaemon_debug_close, close_stream}
use cwdaemon.Reply.{datagram, trim_crlf, cwdaemon_recvfrom}
use cwdaemon.Reply.Trim.{is_cr_or_lf}
use cwdaemon.Escape.Dispatch.{cwdaemon_handle_escaped_request, dispatch}
use cwdaemon.Request.{act_on, receive_request}
use cwdaemon.Main.{react, round}
use cwdaemon.Shutdown.{cwdaemon_catch_sigint, cwdaemon_close_socket, exit_handlers, at_exit}
use cwdaemon.Shutdown.Closed.{
  closings, with_socket, with_file, IsReleased, Unsocketed, cwdaemon_close_socket_lem, NoFile,
  Unlogged, close_stream_lem, PortReleased, ttys_close_lem,
}

trim_crlf-cons : (c : ℕ) (s : List ℕ) → is_cr_or_lf c ≡ false → trim_crlf (c ∷ s) ≡ c ∷ trim_crlf s
unfolding trim_crlf
trim_crlf-cons c s h = ground arith

-- The state in which `<ESC>5` ends the process.
abbrev after_exit : Address → Daemon → Daemon
after_exit a s = record s {
  request_addr = a;
  inactivity_seconds =
      if ltb s.inactivity_seconds 30 then s.inactivity_seconds + 1 else s.inactivity_seconds;
}

-- `<ESC>5`, with anything behind it, ends every daemon at once with the status 0.
pub react-exit :
    (e : Env) (a : Address) (rest : List ℕ) (s : Daemon)
    → react e (round (some (datagram a (27 ∷ b'5' ∷ rest)))) s ≡ exit 0 (after_exit a s)
unfolding react cwdaemon_recvfrom act_on receive_request cwdaemon_handle_escaped_request dispatch
    run
react-exit e a rest s =
    let rest_trimmed = trim_crlf-cons b'5' (take 254 rest) refl in
    let trimmed = trim_crlf-cons 27 (b'5' ∷ take 254 rest) refl in rw (trimmed, rest_trimmed) refl

-- The socket and the file are closed.
abbrev Quiet : Daemon → Daemon → Type 0
Quiet s t =
    (t.socket_descriptor ≡ negsuc 0)
    × (t.cwdevice_ttys ≡ s.cwdevice_ttys)
    × (t.global_cwdevice ≡ s.global_cwdevice)
    × NoFile t.debug_f
    × (closings t.trace ≡ with_file s.debug_f (with_socket s.socket_descriptor (closings s.trace)))

names-IsReleased :
    (s u v : Daemon)
    → Quiet s u
    → PortReleased u v
    → Returns (IsReleased s) (cwdaemon_cwdevices_free v)
unfolding cwdaemon_cwdevices_free run
names-IsReleased s u v (socket, device, kind, files, calls) (port, key, ptt, socket', debug, more) =
    record {
      calls_made =
          more
          ∙ ap (λ d. close d.fd ∷ closings u.trace) device
          ∙ ap (λ l. close s.cwdevice_ttys.fd ∷ l) calls;
      socket_closed = socket' ∙ socket;
      port_closed = port;
      key_low = subst (λ d. line d.fd d.key_pin v.trace ≡ false) device key;
      ptt_low = subst (λ d. line d.fd d.ptt_pin v.trace ≡ false) device ptt;
      log_closed = λ path q. files path (sym debug ∙ q);
      names_freed = (refl, refl, refl);
    }

devices-IsReleased :
    (e : Env) (s u : Daemon)
    → CallsSucceed e
    → s.global_cwdevice ≡ ttys
    → s.cwdevice_ttys.key_pin ≢ 0
    → s.cwdevice_ttys.ptt_pin ≢ 0
    → Quiet s u
    → Returns (IsReleased s) ((cwdaemon_cwdevice_free e >> cwdaemon_cwdevices_free) u)
unfolding cwdaemon_cwdevice_free ◌>>=◌ ◌>>◌ gets
devices-IsReleased e s u w g k p quiet =
    let device = quiet.1 in
    let port =
      ttys_close_lem e u w (λ h. k (ap (λ d. d.key_pin) (sym device) ∙ h))
        (λ h. p (ap (λ d. d.ptt_pin) (sym device) ∙ h)) in
    subst (λ d. Returns (IsReleased s) ((dev_free e d >> cwdaemon_cwdevices_free) u))
      (sym (quiet.2 ∙ g))
      (Returns->>= (PortReleased u) (IsReleased s) (dev_free e ttys u)
        (λ _. cwdaemon_cwdevices_free) port (λ _ v r. names-IsReleased s u v quiet r))

debug_close-Quiet : (s t : Daemon) → Unsocketed s t → Returns (Quiet s) (cwdaemon_debug_close t)
unfolding cwdaemon_debug_close run
debug_close-Quiet s t (socket, device, kind, file, calls) =
    Returns-map (Unlogged t) (Quiet s) (close_stream t.debug_f t)
      (close_stream_lem t.debug_f t refl)
      (λ u (socket', device', kind', files, more). (
        socket' ∙ socket,
        device' ∙ device,
        kind' ∙ kind,
        files,
        more ∙ ap (λ f. with_file f (closings t.trace)) file ∙ ap (with_file s.debug_f) calls,
      ))

-- The exit handlers of a daemon with a serial port, whose lines are both in use, return, and leave
-- nothing held. No call returns a negative number.
pub exit_handlers-IsReleased :
    (e : Env) (s : Daemon)
    → CallsSucceed e
    → s.global_cwdevice ≡ ttys
    → s.cwdevice_ttys.key_pin ≢ 0
    → s.cwdevice_ttys.ptt_pin ≢ 0
    → Returns (IsReleased s) (exit_handlers e s)
unfolding exit_handlers cwdaemon_close_libcw_output ◌>>=◌ ◌>>◌ perform
exit_handlers-IsReleased e s w g k p =
    let silent : Daemon = record s { trace = cw_generator_delete ∷ cw_generator_stop ∷ s.trace } in
    Returns->>= (Unsocketed s) (IsReleased s) (cwdaemon_close_socket e silent)
      (λ _. cwdaemon_debug_close >> (cwdaemon_cwdevice_free e >> cwdaemon_cwdevices_free))
      (cwdaemon_close_socket_lem e silent w)
      (λ _ t open_port.
        Returns->>= (Quiet s) (IsReleased s) (cwdaemon_debug_close t)
          (λ _. cwdaemon_cwdevice_free e >> cwdaemon_cwdevices_free)
          (debug_close-Quiet s t open_port) (λ _ u quiet. devices-IsReleased e s u w g k p quiet))

after_exit-IsReleased :
    (a : Address) (s t : Daemon) → IsReleased (after_exit a s) t → IsReleased s t
after_exit-IsReleased a s t r = record {
  calls_made = r.calls_made;
  socket_closed = r.socket_closed;
  port_closed = r.port_closed;
  key_low = r.key_low;
  ptt_low = r.ptt_low;
  log_closed = r.log_closed;
  names_freed = r.names_freed;
}

-- A daemon that keys through a serial port with both lines in use, and that gets `<ESC>5`, with
-- anything behind it and from any client, or SIGINT, exits and leaves nothing held: its lines are
-- low, and its socket, if it is open, its file for messages, if there is one, and its port are closed,
-- each by one call and in this order, and no other is. No call returns a negative number.
pub exit-IsReleased :
    (e : Env) (a : Address) (rest : List ℕ) (s : Daemon)
    → CallsSucceed e
    → s.global_cwdevice ≡ ttys
    → s.cwdevice_ttys.key_pin ≢ 0
    → s.cwdevice_ttys.ptt_pin ≢ 0
    → Returns
        (IsReleased s)
        (at_exit (exit_handlers e) (react e (round (some (datagram a (27 ∷ b'5' ∷ rest)))) s))
      × Returns (IsReleased s) (at_exit (exit_handlers e) (cwdaemon_catch_sigint s))
unfolding at_exit cwdaemon_catch_sigint stop
exit-IsReleased e a rest s w g k p =
    let released =
      Returns-map (IsReleased (after_exit a s)) (IsReleased s) _
        (exit_handlers-IsReleased e (after_exit a s) w g k p) (after_exit-IsReleased a s) in
    (
      subst (λ o. Returns (IsReleased s) (at_exit (exit_handlers e) o))
          (sym (react-exit e a rest s)) released,
      exit_handlers-IsReleased e s w g k p,
    )
