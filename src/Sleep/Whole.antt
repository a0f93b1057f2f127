-- ===== src/Sleep/Whole.antt =====
-- A sleep that succeeds has lasted as long as was asked for, however often it was interrupted.
use cwdaemon.Base.{
  ℕ, zero, suc, ◌+◌, ◌-◌, ◌*◌, ◌≤◌, ◌<◌, ◌≡◌, ◌⊎◌, refl, Option, some, List, [], ◌∷◌, pos, negsuc,
  arith, length, inl, inr, subst,
}
use cwdaemon.Sleep.{
  Timespec, Answer, slept, interrupted, refused, Kernel, Slept, sleep_loop, microsleep_nonintr,
  millisleep_nonintr, sleep_nonintr,
}

abbrev pub nanos : Timespec → ℕ
nanos t = t.tv_sec * 1000000000 + t.tv_nsec

-- No answer leaves more to sleep than was asked for, and at most `n` answers to one sleep are
-- interruptions.
pub record IsKernel (k : Kernel) (n : ℕ) : Type 0 where
  pub remains :
      (asked : List Timespec) (t rest : Timespec)
      → k asked t ≡ interrupted rest
      → nanos rest ≤ nanos t
  pub patient :
      (asked : List Timespec) (t rest : Timespec) → k asked t ≡ interrupted rest → length asked < n

-- How long the kernel says that a request lasted: all of it, or all but what it reports to remain.
abbrev pub lasted : Timespec → Answer → ℕ
lasted t slept = nanos t
lasted t (interrupted rest) = nanos t - nanos rest
lasted t refused = 0

-- The time that the requests took, the newest first.
abbrev pub time_slept : Kernel → List Timespec → ℕ
time_slept k [] = 0
time_slept k (t ∷ older) = lasted t (k older t) + time_slept k older

-- The sleep is over, and if it succeeded it lasted `total` nanoseconds.
abbrev pub IsWhole : Kernel → ℕ → Option Slept → Type 0
IsWhole k total o =
    (r : Slept) × (o ≡ some r)
    × ((r.retv ≡ negsuc 0) ⊎ ((r.retv ≡ pos 0) × (time_slept k r.requests ≡ total)))

Answer-cases :
    (a : Answer) → (a ≡ slept) ⊎ ((a ≡ refused) ⊎ ((rest : Timespec) × (a ≡ interrupted rest)))
Answer-cases slept = inl refl
Answer-cases refused = inr (inl refl)
Answer-cases (interrupted rest) = inr (inr (rest, refl))

sleep_loop-IsWhole :
    (k : Kernel) (n fuel : ℕ) (asked : List Timespec) (t : Timespec)
    → IsKernel k n
    → length asked ≤ n
    → n < fuel + length asked
    → IsWhole k (nanos t + time_slept k asked) (sleep_loop k fuel asked t)
unfolding sleep_loop
sleep_loop-IsWhole k n zero asked t w a b = absurd (omega arith)
sleep_loop-IsWhole k n (suc fuel) asked t w a b = elim (Answer-cases (k asked t)) [
  | inl e ↦
      rw (e, sleep_loop)
        (record { retv = pos 0; requests = t ∷ asked }, refl, inr (refl, rw e refl))
  | inr (inl e) ↦
      rw (e, sleep_loop) (record { retv = negsuc 0; requests = t ∷ asked }, refl, inl refl)
  | inr (inr (rest, e)) ↦
      let shorter = w.remains asked t rest e in
      let more = w.patient asked t rest e in
      let whole = sleep_loop-IsWhole k n fuel (t ∷ asked) rest w (omega arith) (omega arith) in
      let slept_on : time_slept k (t ∷ asked) ≡ (nanos t - nanos rest) + time_slept k asked =
        rw e refl in
      let total : nanos rest + time_slept k (t ∷ asked) ≡ nanos t + time_slept k asked =
        omega arith in
      rw (e, sleep_loop) (subst (λ l. IsWhole k l (sleep_loop k fuel (t ∷ asked) rest)) total whole)
]

fresh-IsWhole :
    (k : Kernel) (n total : ℕ) (t : Timespec)
    → IsKernel k n
    → nanos t ≡ total
    → IsWhole k total (sleep_loop k (suc n) [] t)
fresh-IsWhole k n total t w q =
    let whole = sleep_loop-IsWhole k n (suc n) [] t w (omega arith) (omega arith) in
    let same : nanos t + 0 ≡ total = omega arith in
    subst (λ l. IsWhole k l (sleep_loop k (suc n) [] t)) same whole

-- Where the kernel interrupts a sleep at most `n` times, each of the three functions is over after
-- n + 1 requests, whatever the answers are; if it returns 0 the times that the kernel says the
-- requests lasted, the interrupted ones up to what remained of them, add up to exactly the time that
-- was asked for, and else it returns -1. The milliseconds are few enough that their product does not
-- wrap around.
pub sleep-IsWhole :
    (k : Kernel) (n usecs millisecs secs : ℕ)
    → IsKernel k n
    → millisecs ≤ 4294967
    → IsWhole k (usecs * 1000) (microsleep_nonintr k (suc n) usecs)
      × IsWhole k (millisecs * 1000000) (millisleep_nonintr k (suc n) millisecs)
      × IsWhole k (secs * 1000000000) (sleep_nonintr k (suc n) secs)
unfolding microsleep_nonintr millisleep_nonintr sleep_nonintr
sleep-IsWhole k n usecs millisecs secs w b = (
  fresh-IsWhole k n _ _ w (omega arith),
  fresh-IsWhole k n _ _ w (omega arith),
  fresh-IsWhole k n _ _ w (omega arith),
)
