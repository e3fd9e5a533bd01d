-- ===== src/Wiring/Shutdown.antt =====
-- The goroutines that session/manager.go and session/ttl.go start, and malipo.go's Shutdown: which of them
-- may still be at work when the database is closed. Where two cases of a `select` are ready, either is
-- taken.
use malipo.Base.{String, ◌≡◌, refl, Bool, true, false, List, [], ◌∷◌, ◌++◌, map}

-- The cleanup goroutine in its `select` or in its two passes, the timer of a session in its `select` or in
-- its transition, or a goroutine that has returned.
pub data Task : Type 0 where
  pausing sweeping : Task
  counting expiring : String → Task
  gone : Task

-- What a goroutine can do, if `stopCleanup` is closed or not.
pub data Proceeds (stopped : Bool) : Task → Task → Type 0 where
  ticks : Proceeds stopped pausing sweeping
  swept : Proceeds stopped sweeping pausing
  elapses : (id : String) → Proceeds stopped (counting id) (expiring id)
  expires : (id : String) → Proceeds stopped (expiring id) gone
  quits_pause : stopped ≡ true → Proceeds stopped pausing gone
  quits_count : (id : String) → stopped ≡ true → Proceeds stopped (counting id) gone

pub data OneProceeds (stopped : Bool) : List Task → List Task → Type 0 where
  this :
      {t t' : Task} {ts : List Task}
      → Proceeds stopped t t'
      → OneProceeds stopped (t ∷ ts) (t' ∷ ts)
  later :
      {t : Task} {ts ts' : List Task}
      → OneProceeds stopped ts ts'
      → OneProceeds stopped (t ∷ ts) (t ∷ ts')

-- The channel `stopCleanup`, the database, and the goroutines.
pub record Process : Type 0 where
  pub stopped : Bool
  pub closed : Bool
  pub tasks : List Task

-- What `NewManager` leaves.
abbrev pub started : Process
started = record { stopped = false; closed = false; tasks = pausing ∷ [] }

-- A goroutine proceeds, `InitiatePayment` spawns a timer, for which it writes to the open database, or `Shutdown` makes the first or the second of
-- its two calls.
pub data Next : Process → Process → Type 0 where
  proceeds :
      {s c : Bool} {ts ts' : List Task}
      → OneProceeds s ts ts'
      → Next
          (record { stopped = s; closed = c; tasks = ts })
          (record { stopped = s; closed = c; tasks = ts' })
  spawns :
      {s : Bool} {ts : List Task} (id : String)
      → Next
          (record { stopped = s; closed = false; tasks = ts })
          (record { stopped = s; closed = false; tasks = counting id ∷ ts })
  stops :
      {c : Bool} {ts : List Task}
      → Next
          (record { stopped = false; closed = c; tasks = ts })
          (record { stopped = true; closed = c; tasks = ts })
  closes :
      {ts : List Task}
      → Next
          (record { stopped = true; closed = false; tasks = ts })
          (record { stopped = true; closed = true; tasks = ts })

pub data Reaches : Process → Process → Type 0 where
  done : {p : Process} → Reaches p p
  then : {p q r : Process} → Next p q → Reaches q r → Reaches p r

Reaches-trans : {p q r : Process} → Reaches p q → Reaches q r → Reaches p r
Reaches-trans done y = y
Reaches-trans (then s x) y = then s (Reaches-trans x y)

abbrev running : List Task → Process
running ts = record { stopped = false; closed = false; tasks = ts }

-- Any number of timers can be past their `select`.
expiring_all :
    (ids : List String) (ts : List Task) → Reaches (running ts) (running (map expiring ids ++ ts))
expiring_all [] ts = done
expiring_all (id ∷ ids) ts =
    Reaches-trans (expiring_all ids ts)
      (then (spawns id) (then (proceeds (this (elapses id))) done))

-- `Shutdown` waits for no goroutine: whatever sessions there are, it is possible that the timers of all
-- of them and the cleanup goroutine are at work in the store when the database is closed.
pub shutdown_overtakes :
    (ids : List String)
    → Reaches started
        (record { stopped = true; closed = true; tasks = map expiring ids ++ sweeping ∷ [] })
shutdown_overtakes ids =
    Reaches-trans (then (proceeds (this ticks)) (expiring_all ids (sweeping ∷ [])))
      (then stops (then closes done))

-- The goroutines alone, with the channel closed.
pub data Run : List Task → List Task → Type 0 where
  ends : {ts : List Task} → Run ts ts
  step : {ts us vs : List Task} → OneProceeds true ts us → Run us vs → Run ts vs

-- The order of the two calls of `Shutdown`.
abbrev pub IsOrdered : Process → Type 0
IsOrdered p = p.closed ≡ true → p.stopped ≡ true

Next-IsOrdered : {p q : Process} → Next p q → IsOrdered p → IsOrdered q
Next-IsOrdered (proceeds s) h = h
Next-IsOrdered (spawns id) h = h
Next-IsOrdered stops h = λ _. refl
Next-IsOrdered closes h = λ _. refl

pub Reaches-IsOrdered : {p q : Process} → Reaches p q → IsOrdered p → IsOrdered q
Reaches-IsOrdered done h = h
Reaches-IsOrdered (then s x) h = Reaches-IsOrdered x (Next-IsOrdered s h)
