-- ===== src/Shutdown/Closed.antt =====
-- What is closed at the exit: the socket, the file for messages and the serial port, by the code of
-- src/socket.c, src/log.c and src/ttys.c.
use cwdaemon.Base.{
  ℕ, ℤ, [], ◌≡◌, ◌≢◌, refl, false, Option, none, some, List, ◌∷◌, negsuc, arith, eqb_ℤ_iff,
  if◌then◌else◌,
}
use cwdaemon.Device.Ttys.{failed}
use cwdaemon.World.Calls.{Call, fclose, Env, CallsSucceed, ttys, close, tiocmbic}
use cwdaemon.World.State.{Daemon, Stream, stdout, stderr, disc_file}
use cwdaemon.World.Run.{run}
use cwdaemon.World.Keeps.{Returns}
use cwdaemon.Device.{dev_free}
use cwdaemon.Device.Lines.{line}
use cwdaemon.Device.Ttys.{set_ttys}
use cwdaemon.Log.Open.{close_stream, set_debug_f}
use cwdaemon.Shutdown.{cwdaemon_close_socket}

-- The calls that close a descriptor or the file for messages, the newest first.
abbrev pub closings : List Call → List Call
closings [] = []
closings (close fd ∷ t) = close fd ∷ closings t
closings (fclose ∷ t) = fclose ∷ closings t
closings (_ ∷ t) = closings t

-- A socket that is open is closed, and so is a file that is open for messages.
abbrev pub with_socket : ℤ → List Call → List Call
with_socket fd t = if failed fd then t else close fd ∷ t

abbrev pub with_file : Option Stream → List Call → List Call
with_file (some (disc_file path)) t = fclose ∷ t
with_file _ t = t

-- What is closed at the exit of `s`: the socket, the file and the serial port, each once.
abbrev pub closed_all : Daemon → List Call
closed_all s =
    close s.cwdevice_ttys.fd
    ∷ with_file s.debug_f (with_socket s.socket_descriptor (closings s.trace))

-- Nothing is held: the socket, the serial port and the file for messages are closed by their calls,
-- and are marked so, the lines of the port are low, and the names of the devices are freed.
pub record IsReleased (s t : Daemon) : Type 0 where
  pub calls_made : closings t.trace ≡ closed_all s
  pub socket_closed : t.socket_descriptor ≡ negsuc 0
  pub port_closed : t.cwdevice_ttys.fd ≡ negsuc 0
  pub key_low : line s.cwdevice_ttys.fd s.cwdevice_ttys.key_pin t.trace ≡ false
  pub ptt_low : line s.cwdevice_ttys.fd s.cwdevice_ttys.ptt_pin t.trace ≡ false
  pub log_closed : (path : List ℕ) → t.debug_f ≢ some (disc_file path)
  pub names_freed :
      (t.cwdevice_ttys.desc ≡ none) × (t.cwdevice_lp.desc ≡ none) × (t.cwdevice_null.desc ≡ none)

-- The socket is closed, and the serial port is still the keying device.
abbrev pub Unsocketed : Daemon → Daemon → Type 0
Unsocketed s t =
    (t.socket_descriptor ≡ negsuc 0)
    × (t.cwdevice_ttys ≡ s.cwdevice_ttys)
    × (t.global_cwdevice ≡ s.global_cwdevice)
    × (t.debug_f ≡ s.debug_f)
    × (closings t.trace ≡ with_socket s.socket_descriptor (closings s.trace))

pub cwdaemon_close_socket_lem :
    (e : Env) (s : Daemon) → CallsSucceed e → Returns (Unsocketed s) (cwdaemon_close_socket e s)
unfolding cwdaemon_close_socket run
cwdaemon_close_socket_lem e s w =
    let closed = (eqb_ℤ_iff s.socket_descriptor (negsuc 0)).0 in
    let works = w s.trace (close s.socket_descriptor) in ground arith

abbrev pub NoFile : Option Stream → Type 0
NoFile f = (path : List ℕ) → f ≢ some (disc_file path)

-- The file for messages is closed, and all else is as it was.
abbrev pub Unlogged : Daemon → Daemon → Type 0
Unlogged s t =
    (t.socket_descriptor ≡ s.socket_descriptor)
    × (t.cwdevice_ttys ≡ s.cwdevice_ttys)
    × (t.global_cwdevice ≡ s.global_cwdevice)
    × NoFile t.debug_f
    × (closings t.trace ≡ with_file s.debug_f (closings s.trace))

pub close_stream_lem :
    (f : Option Stream) (s : Daemon) → s.debug_f ≡ f → Returns (Unlogged s) (close_stream f s)
unfolding close_stream set_debug_f run
close_stream_lem none s q = (refl, refl, refl, rw q (λ path r. cc), rw q refl)
close_stream_lem (some stdout) s q = (refl, refl, refl, rw q (λ path r. cc), rw q refl)
close_stream_lem (some stderr) s q = (refl, refl, refl, rw q (λ path r. cc), rw q refl)
close_stream_lem (some (disc_file path)) s q = (refl, refl, refl, λ other r. cc, rw q refl)

-- The lines of the port are low and it is closed.
abbrev pub PortReleased : Daemon → Daemon → Type 0
PortReleased s t =
    (t.cwdevice_ttys.fd ≡ negsuc 0)
    × (line s.cwdevice_ttys.fd s.cwdevice_ttys.key_pin t.trace ≡ false)
    × (line s.cwdevice_ttys.fd s.cwdevice_ttys.ptt_pin t.trace ≡ false)
    × (t.socket_descriptor ≡ s.socket_descriptor)
    × (t.debug_f ≡ s.debug_f)
    × (closings t.trace ≡ close s.cwdevice_ttys.fd ∷ closings s.trace)

pub ttys_close_lem :
    (e : Env) (s : Daemon)
    → CallsSucceed e
    → s.cwdevice_ttys.key_pin ≢ 0
    → s.cwdevice_ttys.ptt_pin ≢ 0
    → Returns (PortReleased s) (dev_free e ttys s)
unfolding dev_free set_ttys run
ttys_close_lem e s w k p =
    let fd = s.cwdevice_ttys.fd in
    let same = (eqb_ℤ_iff fd fd).1 refl in
    let key = w s.trace (tiocmbic fd s.cwdevice_ttys.key_pin) in
    let ptt =
      w (tiocmbic fd s.cwdevice_ttys.key_pin ∷ s.trace) (tiocmbic fd s.cwdevice_ttys.ptt_pin) in
    ground arith
