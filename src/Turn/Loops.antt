-- ===== src/Turn/Loops.antt =====
-- The steps that the goroutine `timerLoop` of a clock of turn_manager.go takes between two calls.
use go_mahjong.Common.{
  ℕ, ◌≡◌, inl, inr, refl, List, [], ◌∷◌, none, arith, length, get_elem?, Option-cases,
}
use go_mahjong.Turn.{PlayerTicker, register, expire, finish}
use go_mahjong.Turn.Ticker.{Alive, get_elem?-lt, register-Alive, expire-Alive, finish-Alive}

no_loop : (i : ℕ) (pt : PlayerTicker) → length pt.loops ≡ 0 → get_elem? pt.loops i ≡ none
no_loop i pt h = elim (Option-cases (get_elem? pt.loops i)) [
  | inl e ↦ e
  | inr (l, e) ↦ absurd (omega (arith, get_elem?-lt i pt.loops e, h))
]

-- What a goroutine does on its own.
pub data LoopStep : Type 0 where
  loop_registers loop_expires : ℕ → LoopStep
  loop_finishes : ℕ → ℕ → LoopStep

-- The clock after some steps of goroutines.
unfoldable pub run_loops : List LoopStep → PlayerTicker → PlayerTicker
run_loops [] pt = pt
run_loops (loop_registers i ∷ ls) pt = run_loops ls (register i pt)
run_loops (loop_expires i ∷ ls) pt = run_loops ls (expire i pt)
run_loops (loop_finishes i used ∷ ls) pt = run_loops ls (finish i used pt)

pub run_loops-Alive : (ls : List LoopStep) (pt : PlayerTicker) → Alive pt → Alive (run_loops ls pt)
unfolding run_loops
run_loops-Alive [] pt a = a
run_loops-Alive (loop_registers i ∷ ls) pt a = run_loops-Alive ls _ (register-Alive i pt a)
run_loops-Alive (loop_expires i ∷ ls) pt a = run_loops-Alive ls _ (expire-Alive i pt a)
run_loops-Alive (loop_finishes i used ∷ ls) pt a = run_loops-Alive ls _ (finish-Alive i used pt a)

-- Without a goroutine nothing happens.
pub run_loops-idle :
    (ls : List LoopStep) (pt : PlayerTicker) → length pt.loops ≡ 0 → run_loops ls pt ≡ pt
unfolding run_loops register expire finish
run_loops-idle [] pt h = refl
run_loops-idle (loop_registers i ∷ ls) pt h = rw (no_loop i pt h, register) (run_loops-idle ls pt h)
run_loops-idle (loop_expires i ∷ ls) pt h = rw (no_loop i pt h, expire) (run_loops-idle ls pt h)
run_loops-idle (loop_finishes i used ∷ ls) pt h =
    rw (no_loop i pt h, finish) (run_loops-idle ls pt h)
