-- ===== src/Wiring/Ending.antt =====
-- session/manager.go and session/ttl.go: how the goroutines end once `Stop` has closed the channel.
use malipo.Base.{
  ℕ, suc, ◌+◌, ◌*◌, ◌≤◌, ◌≡◌, refl, ap, ◌⊎◌, inl, inr, Bool, true, List, [], ◌∷◌, map, arith,
}
use malipo.Base.Lists.{length}
use malipo.Wiring.Shutdown.{
  Task, pausing, sweeping, counting, expiring, gone, Proceeds, ticks, swept, elapses, expires,
  quits_pause, quits_count, Process, started, Reaches, Reaches-IsOrdered, OneProceeds, this, later,
  Run, ends, step,
}

-- How many steps a goroutine has before it, if no tick comes.
abbrev work : Task → ℕ
work pausing = 1
work sweeping = 2
work (counting id) = 2
work (expiring id) = 1
work gone = 0

abbrev all_work : List Task → ℕ
all_work [] = 0
all_work (t ∷ ts) = work t + all_work ts

module _ {stopped : Bool} where
  abbrev pub ticks_of : {t t' : Task} → Proceeds stopped t t' → ℕ
  ticks_of ticks = 1
  ticks_of _ = 0

  abbrev pub one_ticks : {ts us : List Task} → OneProceeds stopped ts us → ℕ
  one_ticks (this p) = ticks_of p
  one_ticks (later p) = one_ticks p

  work-Proceeds :
      {t t' : Task} (p : Proceeds stopped t t') → suc (work t') ≤ work t + 2 * ticks_of p
  work-Proceeds ticks = omega arith
  work-Proceeds swept = omega arith
  work-Proceeds (elapses id) = omega arith
  work-Proceeds (expires id) = omega arith
  work-Proceeds (quits_pause h) = omega arith
  work-Proceeds (quits_count id h) = omega arith

  one_work :
      {ts us : List Task} (p : OneProceeds stopped ts us)
      → suc (all_work us) ≤ all_work ts + 2 * one_ticks p
  one_work (this p) = omega (arith, work-Proceeds p)
  one_work (later p) = omega (arith, one_work p)

abbrev pub steps_in : {ts us : List Task} → Run ts us → ℕ
steps_in ends = 0
steps_in (step p r) = suc (steps_in r)

abbrev pub ticks_in : {ts us : List Task} → Run ts us → ℕ
ticks_in ends = 0
ticks_in (step p r) = one_ticks p + ticks_in r

run_work :
    {ts us : List Task} (r : Run ts us) → steps_in r + all_work us ≤ all_work ts + 2 * ticks_in r
run_work ends = omega arith
run_work (step p r) = omega (arith, one_work p, run_work r)

-- Where not all have returned, one can go on without a tick.
goes_on :
    (ts : List Task)
    → (ts ≡ map (λ _. gone) ts)
      ⊎ ((us : List Task) × ((p : OneProceeds true ts us) × (one_ticks p ≡ 0)))
goes_on [] = inl refl
goes_on (pausing ∷ ts) = inr (gone ∷ ts, (this (quits_pause refl), refl))
goes_on (sweeping ∷ ts) = inr (pausing ∷ ts, (this swept, refl))
goes_on (counting id ∷ ts) = inr (gone ∷ ts, (this (quits_count id refl), refl))
goes_on (expiring id ∷ ts) = inr (gone ∷ ts, (this (expires id), refl))
goes_on (gone ∷ ts) = elim (goes_on ts) [
  | inl idle ↦ inl (ap (λ us. gone ∷ us) idle)
  | inr (us, (p, quiet)) ↦ inr (gone ∷ us, (later p, quiet))
]

work_bound : (ts : List Task) → all_work ts ≤ 2 * length ts
work_bound [] = omega arith
work_bound (pausing ∷ ts) = omega (arith, work_bound ts)
work_bound (sweeping ∷ ts) = omega (arith, work_bound ts)
work_bound (counting id ∷ ts) = omega (arith, work_bound ts)
work_bound (expiring id ∷ ts) = omega (arith, work_bound ts)
work_bound (gone ∷ ts) = omega (arith, work_bound ts)

-- In every process that is reached and whose database is closed, the channel is closed too; from there any
-- sequence of steps of its goroutines, whichever case of a `select` is taken, has at most two steps for
-- each goroutine and two for each tick that is taken; and as long as one of them has not returned, one can
-- go on by a step that is not a tick.
pub goroutines_end :
    {us : List Task} (p : Process)
    → Reaches started p
    → p.closed ≡ true
    → (r : Run p.tasks us)
    → (p.stopped ≡ true)
      × (steps_in r ≤ 2 * length p.tasks + 2 * ticks_in r)
      × ((us ≡ map (λ _. gone) us)
          ⊎ ((vs : List Task) × ((s : OneProceeds true us vs) × (one_ticks s ≡ 0))))
goroutines_end {us} p x closed r = (
  Reaches-IsOrdered x (λ e. absurd (cc e)) closed,
  omega (arith, run_work r, work_bound p.tasks),
  goes_on us,
)
