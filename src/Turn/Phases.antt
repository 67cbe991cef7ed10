-- ===== src/Turn/Phases.antt =====
-- `EnterDropPhase` of turn_manager.go: when the clock of the seat is given its time.
use go_mahjong.Common.{
  ◌==◌, ◌≢◌, ℕ, zero, suc, ◌+◌, ◌≤◌, ◌<◌, subst, ◌≡◌, refl, ap, ◌∙◌, Bool, true, false, List, [],
  ◌∷◌, inl, inr, arith, ltb, leb, if◌then◌else◌, length, get_or, set, map, Bool-cases, get_or-set,
}
use go_mahjong.Turn.{
  PlayerTicker, wait_main, TurnManager, start, set_available, stop_if_running, stop_all_tickers,
  enter_drop_phase_amid, idle_ticker, get_player_ticker, running,
}
use go_mahjong.Turn.Ticker.{Alive}
use go_mahjong.Turn.Loops.{LoopStep, run_loops, run_loops-Alive, run_loops-idle}
use go_mahjong.Turn.Stopping.{
  Stopped, stop_if_running-idle, stop_if_running-Alive, stop_if_running-Stopped,
}

get_or-map :
    (f : PlayerTicker → PlayerTicker) (xs : List PlayerTicker) (i : ℕ) (d : PlayerTicker)
    → i < length xs
    → get_or (map f xs) i d ≡ f (get_or xs i d)
get_or-map f [] i d h = absurd (omega arith)
get_or-map f (x ∷ xs) zero d h = refl
get_or-map f (x ∷ xs) (suc i) d h = get_or-map f xs i d (omega arith)

length-map :
    (f : PlayerTicker → PlayerTicker) (xs : List PlayerTicker) → length (map f xs) ≡ length xs
length-map f [] = refl
length-map f (x ∷ xs) = ground (arith, length-map f xs)

abbrev pub time_given : ℕ → PlayerTicker → ℕ
time_given compensation clock =
    if ltb 30 (clock.available + compensation) then 30 else clock.available + compensation

-- The clock runs with this time.
abbrev pub Runs : ℕ → PlayerTicker → Type 0
Runs time pt = (pt.is_running ≡ true) × (pt.state ≡ running) × (pt.available ≡ time)

-- The steps that the goroutine takes between the calls of EnterDropPhase.
pub record Meanwhile : Type 0 where
  pub before_read : List LoopStep
  pub before_set : List LoopStep
  pub before_start : List LoopStep

-- The clock where its time is read, where it is given its time, and where it starts.
module _ (m : Meanwhile) (compensation : ℕ) (clock : PlayerTicker) where
  abbrev pub at_read : PlayerTicker
  at_read = run_loops m.before_read (stop_if_running clock)

  abbrev pub allocated : ℕ
  allocated = time_given compensation at_read

  abbrev pub at_set : PlayerTicker
  at_set = run_loops m.before_set at_read

  abbrev pub at_start : PlayerTicker
  at_start = run_loops m.before_start (set_available allocated at_set)

  -- What EnterDropPhase does with the clock of the seat. The middle cases are of a goroutine that
  -- ends in between: before the clock is given its time, or behind it, when it takes of that time.
  pub data Entered (clock' : PlayerTicker) : Bool → Type 0 where
    was_idle :
        clock.is_running ≡ false → Runs (time_given compensation clock) clock' → Entered clock' true
    ended :
        clock.is_running ≡ true
        → at_set.is_running ≡ false
        → Runs allocated clock'
        → Entered clock' true
    ended_in_time :
        at_set.is_running ≡ true
        → at_start.is_running ≡ false
        → allocated ≤ at_start.available
        → Runs at_start.available clock'
        → Entered clock' true
    ended_too_late :
        at_set.is_running ≡ true
        → at_start.is_running ≡ false
        → at_start.available < allocated
        → Entered clock' false
    still_runs : clock.is_running ≡ true → at_start.is_running ≡ true → Entered clock' false

start_refused : (d : ℕ) (pt : PlayerTicker) → pt.is_running ≡ true → start d pt ≡ (pt, false)
unfolding start
start_refused d pt e = rw e refl

start_late :
    (d : ℕ) (pt : PlayerTicker)
    → pt.is_running ≡ false
    → pt.available < d
    → start d pt ≡ (pt, false)
unfolding start
start_late d pt e h = let few : ltb pt.available d ≡ true = ground arith in rw (e, few) refl

start_in_time :
    (d : ℕ) (pt : PlayerTicker)
    → pt.is_running ≡ false
    → d ≤ pt.available
    → let (pt', ok) = start d pt in (ok ≡ true) × Runs pt.available pt'
unfolding start
start_in_time d pt e h =
    let enough : ltb pt.available d ≡ false = ground arith in
    simp (e, enough) (refl, (refl, refl, refl))

module _ (m : Meanwhile) (compensation : ℕ) (clock : PlayerTicker) where
  -- A clock that does not run has no goroutine.
  idle_at_set :
      Alive clock
      → clock.is_running ≡ false
      → (at_read m compensation clock ≡ clock) × (at_set m compensation clock ≡ clock)
  idle_at_set alive e =
      let none' : length clock.loops ≡ 0 = alive.one_loop ∙ rw e refl in
      let same_read : at_read m compensation clock ≡ clock =
        ap (run_loops m.before_read) (stop_if_running-idle clock alive e)
        ∙ run_loops-idle m.before_read clock none' in
      (same_read, ap (run_loops m.before_set) same_read ∙ run_loops-idle m.before_set clock none')

  at_set-Alive : Alive clock → Alive (at_set m compensation clock)
  at_set-Alive alive =
      run_loops-Alive m.before_set _
        (run_loops-Alive m.before_read _ (stop_if_running-Alive clock alive))

  start_ended :
      Alive clock
      → (at_set m compensation clock).is_running ≡ false
      → let (clock', ok) = start (allocated m compensation clock) (at_start m compensation clock) in
        (ok ≡ true) × Runs (allocated m compensation clock) clock'
  unfolding set_available
  start_ended alive e =
      let d = allocated m compensation clock in
      let given = at_set m compensation clock in
      let still =
        run_loops-idle m.before_start (set_available d given)
          ((at_set-Alive alive).one_loop ∙ rw e refl) in
      rw still (start_in_time d (set_available d given) e (omega arith))

  was_running :
      Alive clock → (at_set m compensation clock).is_running ≡ true → clock.is_running ≡ true
  was_running alive on = elim (Bool-cases clock.is_running) [
    | inl e ↦ e
    | inr e ↦ absurd (ground (arith, ap (λ c. c.is_running) (idle_at_set alive e).1, on, e))
  ]

  start-Entered :
      Alive clock
      → let (clock', ok) = start (allocated m compensation clock) (at_start m compensation clock) in
        Entered m compensation clock clock' ok
  start-Entered alive =
      let d = allocated m compensation clock in
      let late = at_start m compensation clock in
      elim (Bool-cases (at_set m compensation clock).is_running) [
        | inr over ↦
            let (ok, runs) = start_ended alive over in
            elim (Bool-cases clock.is_running) [
              | inl e ↦ rw ok (ended e over runs)
              | inr e ↦ rw ok (
                  was_idle e (
                    subst
                      (λ (pt : PlayerTicker). Runs (time_given compensation pt) (start d late).0)
                      (idle_at_set alive e).0 runs))
            ]
        | inl on ↦ elim (Bool-cases late.is_running) [
          | inl e ↦ rw (start_refused d late e) (still_runs (was_running alive on) e)
          | inr e ↦ elim (Bool-cases (leb d late.available)) [
            | inl enough ↦
                let h : d ≤ late.available = ground (arith, enough) in
                let (ok, runs) = start_in_time d late e h in rw ok (ended_in_time on e h runs)
            | inr few ↦
                let h : late.available < d = ground (arith, few) in
                rw (start_late d late e h) (ended_too_late on e h)
          ]
        ]
      ]

-- With four clocks, one of their seats, and a clock of the seat that runs exactly when it has
-- its one goroutine, EnterDropPhase makes the seat that of the turn, in the main phase, whatever
-- steps the goroutine of that clock takes between Stop, the read of its time, SetAvailable and
-- Start. A clock that runs is stopped, that of the seat as that of any other: the context that
-- it names is cancelled for its goroutine, while it counts as running and keeps its time. If the
-- clock of the seat does not run, it starts with its time and the compensation, at most 30
-- seconds. If it runs, it starts so with the time that is read once its goroutine ended before
-- SetAvailable; it fails if the goroutine has not ended before Start, and, if it ended after
-- SetAvailable, exactly if less than the time given is left.
pub enter_drop_phase_amid_lem :
    (m : Meanwhile) (seat compensation : ℕ) (tm : TurnManager)
    → length tm.tickers ≡ 4
    → seat < 4
    → Alive (get_player_ticker tm seat)
    → (other : ℕ) → other < 4
    → seat ≢ other
    → let (tm', ok) =
        enter_drop_phase_amid
          (run_loops m.before_read)
          (run_loops m.before_set)
          (run_loops m.before_start)
          seat
          compensation
          tm in
      (tm'.turn_pointer ≡ seat)
      × (tm'.state ≡ wait_main)
      × Stopped (get_player_ticker tm other) (get_player_ticker tm' other)
      × Stopped (get_player_ticker tm seat) (stop_if_running (get_player_ticker tm seat))
      × Entered m compensation (get_player_ticker tm seat) (get_player_ticker tm' seat) ok
unfolding enter_drop_phase_amid get_player_ticker stop_all_tickers
enter_drop_phase_amid_lem m seat compensation tm four h alive other h' apart =
    let clock = get_or tm.tickers seat idle_ticker in
    let small : leb 4 seat ≡ false = ground (arith, h) in
    let inside = get_or-map stop_if_running tm.tickers seat idle_ticker (ground (arith, four, h)) in
    let inside' =
      get_or-map stop_if_running tm.tickers other idle_ticker (ground (arith, four, h')) in
    let at : (i : ℕ) (pt : PlayerTicker)
        → get_or (set (map stop_if_running tm.tickers) seat pt) i idle_ticker
          ≡ (if seat == i then pt else get_or (map stop_if_running tm.tickers) i idle_ticker) =
      λ i pt.
        get_or-set (map stop_if_running tm.tickers) seat i pt idle_ticker
          (ground (arith, four, length-map stop_if_running tm.tickers, h)) in
    let there : (pt : PlayerTicker)
        → get_or (set (map stop_if_running tm.tickers) seat pt) seat idle_ticker ≡ pt =
      λ pt. at seat pt ∙ ground arith in
    let elsewhere : (pt : PlayerTicker)
        → get_or (set (map stop_if_running tm.tickers) seat pt) other idle_ticker
          ≡ stop_if_running (get_or tm.tickers other idle_ticker) =
      λ pt. at other pt ∙ ground (arith, apart) ∙ inside' in
    rw (small, inside)
      (
        refl,
        refl,
        rw (elsewhere _) (stop_if_running-Stopped (get_or tm.tickers other idle_ticker)),
        stop_if_running-Stopped clock,
        rw (there _) (start-Entered m compensation clock alive),
      )
