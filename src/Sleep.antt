-- ===== src/Sleep.antt =====
-- src/sleep.c. `nanosleep` of the C library is a parameter: what it answers to a request may depend
-- on all requests before it, the newest first.
pub mod Whole
pub mod Ptt
use cwdaemon.Base.{
  ℕ, zero, suc, ◌+◌, ◌*◌, ◌/◌, ◌%◌, ◌^◌, Option, none, some, List, [], ◌∷◌, ℤ, pos, negsuc,
}

pub record Timespec : Type 0 where
  pub tv_sec : ℕ
  pub tv_nsec : ℕ

-- 0; -1 with EINTR and what remains; -1 with another `errno`
pub data Answer : Type 0 where
  slept : Answer
  interrupted : Timespec → Answer
  refused : Answer

abbrev pub Kernel : Type 0
Kernel = List Timespec → Timespec → Answer

-- What a sleep returns, and the requests that it has made, the newest first.
pub record Slept : Type 0 where
  pub retv : ℤ
  pub requests : List Timespec

module _ (k : Kernel) where
  -- The `do … while (0 != retv)`, for at most as many rounds as the fuel says; `none` is a sleep
  -- that is not over then.
  unfoldable pub sleep_loop : ℕ → List Timespec → Timespec → Option Slept
  sleep_loop zero asked remaining = none
  sleep_loop (suc fuel) asked remaining = elim (k asked remaining) [
    | slept ↦ some (record { retv = pos 0; requests = remaining ∷ asked })
    | refused ↦ some (record { retv = negsuc 0; requests = remaining ∷ asked })
    | interrupted rest ↦ sleep_loop fuel (remaining ∷ asked) rest
  ]

  unfoldable pub microsleep_nonintr : ℕ → ℕ → Option Slept
  unfolding sleep_loop
  microsleep_nonintr fuel usecs =
      sleep_loop fuel [] (record { tv_sec = usecs / 1000000; tv_nsec = usecs % 1000000 * 1000 })

  -- The product wraps around as an `unsigned int`.
  unfoldable pub millisleep_nonintr : ℕ → ℕ → Option Slept
  unfolding microsleep_nonintr
  millisleep_nonintr fuel millisecs = microsleep_nonintr fuel (millisecs * 1000 % 2 ^ 32)

  unfoldable pub sleep_nonintr : ℕ → ℕ → Option Slept
  unfolding sleep_loop
  sleep_nonintr fuel secs = sleep_loop fuel [] (record { tv_sec = secs; tv_nsec = 0 })
