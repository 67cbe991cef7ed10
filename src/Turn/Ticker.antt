-- ===== src/Turn/Ticker.antt =====
-- One clock of turn_manager.go under every interleaving of its calls and its goroutine.
use go_mahjong.Common.{
  ℕ, zero, suc, ◌+◌, ◌<◌, ◌≡◌, ◌⊎◌, inl, inr, refl, ◌∙◌, ap, List, [], ◌∷◌, none, some, arith,
  if◌then◌else◌, length, get_elem?, take, drop, map, length-append, length-set, length-drop,
  length-take, Option-cases,
}
use go_mahjong.Turn.{
  CtxErr, pending, canceled, exceeded, TimerLoop, PlayerTicker, new_player_ticker, start, stop,
  set_available, register, expire, finish, is_state_running, cancel_loop, remove_at,
}

-- What may happen to a clock next.
pub data Event : Type 0 where
  starts sets_available registers expires : ℕ → Event
  stops : Event
  finishes : ℕ → ℕ → Event

unfoldable pub step : PlayerTicker → Event → PlayerTicker
step pt (starts duration) = (start duration pt).0
step pt (sets_available n) = set_available n pt
step pt (registers i) = register i pt
step pt (expires i) = expire i pt
step pt stops = (stop pt).0
step pt (finishes i used) = finish i used pt

-- A clock runs with exactly one goroutine, or it does not and has none.
pub record Alive (pt : PlayerTicker) : Type 0 where
  pub one_loop : length pt.loops ≡ (if pt.is_running then 1 else 0)
  pub runs : is_state_running pt.state ≡ pt.is_running

length-map {ℓ κ} :
    {A : Type ℓ} {B : Type κ} (f : A → B) (xs : List A) → length (map f xs) ≡ length xs
length-map f [] = refl
length-map f (x ∷ xs) = ap suc (length-map f xs)

pub get_elem?-lt {ℓ} :
    {A : Type ℓ} (i : ℕ) (xs : List A) {x : A} → get_elem? xs i ≡ some x → i < length xs
get_elem?-lt i [] e = absurd (cc)
get_elem?-lt zero (x ∷ xs) e = ground arith
get_elem?-lt (suc i) (x ∷ xs) e = ground (arith, get_elem?-lt i xs e)

length-remove_at {ℓ} :
    {A : Type ℓ} (i : ℕ) (xs : List A) {x : A}
    → get_elem? xs i ≡ some x
    → length (remove_at i xs) + 1 ≡ length xs
length-remove_at i xs e = ground (
  arith,
  length-append (take i xs) (drop (i + 1) xs),
  length-take i xs,
  length-drop (i + 1) xs,
  get_elem?-lt i xs e,
)

start-Alive : (d : ℕ) (pt : PlayerTicker) → Alive pt → Alive (start d pt).0
unfolding start
start-Alive d pt a =
    ground (arith, length-append pt.loops (record { ctx = none; err = pending } ∷ []))

pub stop-Alive : (pt : PlayerTicker) → Alive pt → Alive (stop pt).0
unfolding stop
stop-Alive pt a = elim (Option-cases pt.cancel) [
  | inl e ↦ rw (e, stop) (ground arith)
  | inr (c, e) ↦ rw (e, stop) (ground (arith, length-map (cancel_loop c) pt.loops))
]

pub register-Alive : (i : ℕ) (pt : PlayerTicker) → Alive pt → Alive (register i pt)
unfolding register
register-Alive i pt a = elim (Option-cases (get_elem? pt.loops i)) [
  | inl e ↦ rw (e, register) a
  | inr (l, e) ↦ elim (Option-cases l.ctx) [
    | inl fresh ↦
        rw (e, fresh, register)
          (record { one_loop = length-set pt.loops i _ ∙ a.one_loop; runs = a.runs })
    | inr (c, old) ↦ rw (e, old, register) a
  ]
]

err_cases : (e : CtxErr) → (e ≡ pending) ⊎ (e ≡ canceled) ⊎ (e ≡ exceeded)
err_cases pending = inl refl
err_cases canceled = inr (inl refl)
err_cases exceeded = inr (inr refl)

-- The goroutine that ends was the only one.
last_loop :
    (i : ℕ) (pt : PlayerTicker) {l : TimerLoop}
    → Alive pt
    → get_elem? pt.loops i ≡ some l
    → length (remove_at i pt.loops) ≡ 0
last_loop i pt a e = ground (arith, length-remove_at i pt.loops e, a.one_loop)

pub expire-Alive : (i : ℕ) (pt : PlayerTicker) → Alive pt → Alive (expire i pt)
unfolding expire
expire-Alive i pt a = elim (Option-cases (get_elem? pt.loops i)) [
  | inl e ↦ rw (e, expire) a
  | inr (l, e) ↦ elim (Option-cases l.ctx) [
    | inl fresh ↦ rw (e, fresh, expire) a
    | inr (c, old) ↦ elim (err_cases l.err) [
      | inl waits ↦
          rw (e, old, waits, expire)
            (record { one_loop = length-set pt.loops i _ ∙ a.one_loop; runs = a.runs })
      | inr (inl over) ↦ rw (e, old, over, expire) a
      | inr (inr over) ↦ rw (e, old, over, expire) a
    ]
  ]
]

pub finish-Alive : (i used : ℕ) (pt : PlayerTicker) → Alive pt → Alive (finish i used pt)
unfolding finish
finish-Alive i used pt a = elim (Option-cases (get_elem? pt.loops i)) [
  | inl e ↦ rw (e, finish) a
  | inr (l, e) ↦ elim (err_cases l.err) [
    | inl waits ↦ rw (e, waits, finish) a
    | inr (inl over) ↦ rw (e, over, finish) (record { one_loop = last_loop i pt a e; runs = refl })
    | inr (inr over) ↦ rw (e, over, finish) (record { one_loop = last_loop i pt a e; runs = refl })
  ]
]

-- Every step of a clock keeps it so: `Start` is refused while a loop runs.
pub step-Alive : (pt : PlayerTicker) (e : Event) → Alive pt → Alive (step pt e)
unfolding step set_available
step-Alive pt (starts d) a = start-Alive d pt a
step-Alive pt (sets_available n) a = record { one_loop = a.one_loop; runs = a.runs }
step-Alive pt (registers i) a = register-Alive i pt a
step-Alive pt (expires i) a = expire-Alive i pt a
step-Alive pt stops a = stop-Alive pt a
step-Alive pt (finishes i used) a = finish-Alive i used pt a

unfoldable pub run_events : PlayerTicker → List Event → PlayerTicker
run_events pt [] = pt
run_events pt (e ∷ es) = run_events (step pt e) es

pub run_events-Alive : (pt : PlayerTicker) (es : List Event) → Alive pt → Alive (run_events pt es)
unfolding run_events
run_events-Alive pt [] a = a
run_events-Alive pt (e ∷ es) a = run_events-Alive (step pt e) es (step-Alive pt e a)

-- The goroutines that live and the callbacks made.
abbrev pub spent : PlayerTicker → ℕ
spent pt = pt.on_timeouts + pt.on_stops + length pt.loops

-- 1 for a `Start` without an error.
unfoldable pub accepted : PlayerTicker → Event → ℕ
accepted pt (starts duration) = if (start duration pt).1 then 1 else 0
accepted pt _ = 0

unfoldable pub all_accepted : PlayerTicker → List Event → ℕ
all_accepted pt [] = 0
all_accepted pt (e ∷ es) = accepted pt e + all_accepted (step pt e) es

start-spent : (d : ℕ) (pt : PlayerTicker) → spent (start d pt).0 ≡ accepted pt (starts d) + spent pt
unfolding start accepted
start-spent d pt =
    ground (arith, length-append pt.loops (record { ctx = none; err = pending } ∷ []))

stop-spent : (pt : PlayerTicker) → spent (stop pt).0 ≡ spent pt
unfolding stop
stop-spent pt = elim (Option-cases pt.cancel) [
  | inl e ↦ rw (e, stop) (ground arith)
  | inr (c, e) ↦ rw (e, stop) (ground (arith, length-map (cancel_loop c) pt.loops))
]

register-spent : (i : ℕ) (pt : PlayerTicker) → spent (register i pt) ≡ spent pt
unfolding register
register-spent i pt = elim (Option-cases (get_elem? pt.loops i)) [
  | inl e ↦ rw (e, register) refl
  | inr (l, e) ↦ elim (Option-cases l.ctx) [
    | inl fresh ↦
        rw (e, fresh, register)
          (ap (λ n. pt.on_timeouts + pt.on_stops + n) (length-set pt.loops i _))
    | inr (c, old) ↦ rw (e, old, register) refl
  ]
]

expire-spent : (i : ℕ) (pt : PlayerTicker) → spent (expire i pt) ≡ spent pt
unfolding expire
expire-spent i pt = elim (Option-cases (get_elem? pt.loops i)) [
  | inl e ↦ rw (e, expire) refl
  | inr (l, e) ↦ elim (Option-cases l.ctx) [
    | inl fresh ↦ rw (e, fresh, expire) refl
    | inr (c, old) ↦ elim (err_cases l.err) [
      | inl waits ↦
          rw (e, old, waits, expire)
            (ap (λ n. pt.on_timeouts + pt.on_stops + n) (length-set pt.loops i _))
      | inr (inl over) ↦ rw (e, old, over, expire) refl
      | inr (inr over) ↦ rw (e, old, over, expire) refl
    ]
  ]
]

finish-spent : (i used : ℕ) (pt : PlayerTicker) → spent (finish i used pt) ≡ spent pt
unfolding finish
finish-spent i used pt = elim (Option-cases (get_elem? pt.loops i)) [
  | inl e ↦ rw (e, finish) refl
  | inr (l, e) ↦ elim (err_cases l.err) [
    | inl waits ↦ rw (e, waits, finish) refl
    | inr (inl over) ↦ rw (e, over, finish) (omega (arith, length-remove_at i pt.loops e))
    | inr (inr over) ↦ rw (e, over, finish) (omega (arith, length-remove_at i pt.loops e))
  ]
]

step-spent : (pt : PlayerTicker) (e : Event) → spent (step pt e) ≡ accepted pt e + spent pt
unfolding step accepted set_available
step-spent pt (starts d) = start-spent d pt
step-spent pt (sets_available n) = omega arith
step-spent pt (registers i) = omega (arith, register-spent i pt)
step-spent pt (expires i) = omega (arith, expire-spent i pt)
step-spent pt stops = omega (arith, stop-spent pt)
step-spent pt (finishes i used) = omega (arith, finish-spent i used pt)

run_events-spent :
    (pt : PlayerTicker) (es : List Event) → spent (run_events pt es) ≡ all_accepted pt es + spent pt
unfolding run_events all_accepted
run_events-spent pt [] = omega arith
run_events-spent pt (e ∷ es) = omega (arith, step-spent pt e, run_events-spent (step pt e) es)

-- However the calls and the goroutines of a new clock interleave, the clock runs exactly when it
-- has one goroutine, never more, and of the accepted starts each has made one callback,
-- OnTimeout or OnStop, except the one that still runs.
pub run_events-callbacks :
    (total_time : ℕ) (es : List Event)
    → let pt = run_events (new_player_ticker total_time) es in
      Alive pt
      × (pt.on_timeouts + pt.on_stops + (if pt.is_running then 1 else 0)
          ≡ all_accepted (new_player_ticker total_time) es)
unfolding new_player_ticker
run_events-callbacks total_time es =
    let new = new_player_ticker total_time in
    let alive = run_events-Alive new es (record { one_loop = refl; runs = refl }) in
    (alive, omega (arith, run_events-spent new es, alive.one_loop))
