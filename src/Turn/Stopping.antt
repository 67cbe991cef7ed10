-- ===== src/Turn/Stopping.antt =====
-- What `Stop` of a clock of turn_manager.go leaves.
use go_mahjong.Common.{
  Option-cases, some, ◌&&◌, ◌||◌, ℕ, ◌≡◌, refl, ◌∙◌, Bool, true, false, List, [], ◌∷◌, inl, inr,
  arith, map, Bool-cases,
}
use go_mahjong.Turn.{
  CtxErr, pending, canceled, exceeded, cancel_err, TimerLoop, owns, cancel_loop, stop, PlayerTicker,
  stop_if_running, is_state_running,
}
use go_mahjong.Turn.Ticker.{Alive, stop-Alive}

-- A clock that does not run is not stopped.
pub stop_if_running-idle :
    (pt : PlayerTicker) → Alive pt → pt.is_running ≡ false → stop_if_running pt ≡ pt
unfolding stop_if_running
stop_if_running-idle pt a e = let off = a.runs ∙ e in rw (off, stop_if_running) refl

pub stop_if_running-Alive : (pt : PlayerTicker) → Alive pt → Alive (stop_if_running pt)
unfolding stop_if_running
stop_if_running-Alive pt a = elim (Bool-cases (is_state_running pt.state)) [
  | inl e ↦ rw (e, stop_if_running) (stop-Alive pt a)
  | inr e ↦ rw (e, stop_if_running) a
]

abbrev pub is_pending : CtxErr → Bool
is_pending pending = true
is_pending _ = false

-- A goroutine with this context has not been told to end.
abbrev pub goes_on : ℕ → List TimerLoop → Bool
goes_on c [] = false
goes_on c (l ∷ ls) = owns c l.ctx && is_pending l.err || goes_on c ls

-- Stop cancels the context that the clock names, and leaves `isRunning` and the time to the goroutine.
pub record Stopped (clock stopped : PlayerTicker) : Type 0 where
  pub same_run : stopped.is_running ≡ clock.is_running
  pub same_time : stopped.available ≡ clock.available
  pub told :
      (c : ℕ)
      → is_state_running clock.state ≡ true
      → clock.is_running ≡ true
      → clock.cancel ≡ some c
      → goes_on c stopped.loops ≡ false

not_pending : (e : CtxErr) → is_pending (cancel_err e) ≡ false
not_pending pending = refl
not_pending canceled = refl
not_pending exceeded = refl

goes_on-cancel_loop : (c : ℕ) (ls : List TimerLoop) → goes_on c (map (cancel_loop c) ls) ≡ false
goes_on-cancel_loop c [] = refl
goes_on-cancel_loop c (l ∷ ls) =
    let rest = goes_on-cancel_loop c ls in
    elim (Bool-cases (owns c l.ctx)) [
      | inl e ↦ simp (e, rest, not_pending l.err) refl
      | inr e ↦ simp (e, rest) refl
    ]

stop-told :
    (c : ℕ) (pt : PlayerTicker)
    → pt.is_running ≡ true
    → pt.cancel ≡ some c
    → goes_on c (stop pt).0.loops ≡ false
unfolding stop
stop-told c pt run e = simp (run, e) (goes_on-cancel_loop c pt.loops)

stop-Stopped : (pt : PlayerTicker) → Stopped pt (stop pt).0
unfolding stop
stop-Stopped pt = elim (Option-cases pt.cancel) [
  | inl e ↦ record {
    same_run = rw (e, stop) (ground arith);
    same_time = rw (e, stop) (ground arith);
    told = λ c on run e'. stop-told c pt run e';
  }
  | inr (c, e) ↦ record {
    same_run = rw (e, stop) (ground arith);
    same_time = rw (e, stop) (ground arith);
    told = λ c' on run e'. stop-told c' pt run e';
  }
]

pub stop_if_running-Stopped : (pt : PlayerTicker) → Stopped pt (stop_if_running pt)
unfolding stop_if_running
stop_if_running-Stopped pt = elim (Bool-cases (is_state_running pt.state)) [
  | inl e ↦ rw (e, stop_if_running) (stop-Stopped pt)
  | inr e ↦
      rw (e, stop_if_running)
        (record { same_run = refl; same_time = refl; told = λ c on run e'. cc })
]
