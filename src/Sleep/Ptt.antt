-- ===== src/Sleep/Ptt.antt =====
-- The sleep of `cwdaemon_set_ptt_on` of src/cwdaemon.c, by src/sleep.c.
use cwdaemon.Base.{ℕ, suc, ◌*◌, arith}
use cwdaemon.World.Calls.{Env, IsLibcw}
use cwdaemon.World.State.{Daemon}
use cwdaemon.Main.{Running}
use cwdaemon.Invariant.Runs.{Running-InRange}
use cwdaemon.Sleep.{Kernel, millisleep_nonintr}
use cwdaemon.Sleep.Whole.{IsKernel, IsWhole, sleep-IsWhole}

-- With libcw's limits, and where the kernel interrupts a sleep at most `n` times: the PTT delay of
-- a running daemon does not wrap around when it is turned into microseconds, and the sleep for it
-- is over after n + 1 requests; if it returns 0 it has lasted for exactly the delay, by what
-- the kernel says of each request, and else it returns -1.
pub delay-IsWhole :
    (e : Env) (k : Kernel) (n : ℕ) (s : Daemon)
    → IsLibcw e
    → IsKernel k n
    → Running e s
    → IsWhole k
        (s.current.ptt_delay_ms * 1000000)
        (millisleep_nonintr k (suc n) s.current.ptt_delay_ms)
delay-IsWhole e k n s l w r =
    let bounds = Running-InRange l s r in
    (sleep-IsWhole k n 0 s.current.ptt_delay_ms 0 w (ground arith)).1
