-- ===== src/Turn.antt =====
-- game/runtime/engines/mahjong/turn_manager.go: the four clocks and the phases of a turn.
-- A clock's goroutine `timerLoop` takes its steps (`register`, `expire`, `finish`) between the calls
-- of the others; each stretch under the lock is one step. Times are whole seconds.
pub mod Ticker
pub mod Loops
pub mod Stopping
pub mod Phases
use go_mahjong.Common.{
  ℕ, zero, suc, ◌+◌, ◌-◌, ◌%◌, Bool, true, false, not, ◌&&◌, ◌||◌, List, [], ◌∷◌, ◌++◌, Option,
  none, some, ltb, leb, ◌==◌, if◌then◌else◌, length, get_or, get_elem?, set, take, drop, map,
}

pub data TickerState : Type 0 where
  idle running stopped timeout : TickerState

-- What `ctx.Err()` says: nothing yet, canceled, or past its deadline.
pub data CtxErr : Type 0 where
  pending canceled exceeded : CtxErr

-- A goroutine `timerLoop`: it has no context until it has taken the lock for the first time.
pub record TimerLoop : Type 0 where
  pub ctx : Option ℕ
  pub err : CtxErr

-- `cancel` names the context that `pt.cancel` cancels. Callbacks are counted by kind.
pub record PlayerTicker : Type 0 where
  pub available : ℕ
  pub state : TickerState
  pub is_running : Bool
  pub cancel : Option ℕ
  pub loops : List TimerLoop
  pub next_ctx : ℕ
  pub on_timeouts : ℕ
  pub on_stops : ℕ

unfoldable pub new_player_ticker : ℕ → PlayerTicker
new_player_ticker total_time = record {
  available = total_time;
  state = idle;
  is_running = false;
  cancel = none;
  loops = [];
  next_ctx = 0;
  on_timeouts = 0;
  on_stops = 0;
}

-- `Start`: false stands for an error.
unfoldable pub start : ℕ → PlayerTicker → PlayerTicker × Bool
start duration pt =
    if pt.is_running then (pt, false) else if ltb pt.available duration then (pt, false) else (
      record pt {
        is_running = true;
        state = running;
        loops = pt.loops ++ record { ctx = none; err = pending } ∷ [];
      },
      true,
    )

-- The context is canceled, unless it is over already.
abbrev pub cancel_err : CtxErr → CtxErr
cancel_err pending = canceled
cancel_err canceled = canceled
cancel_err exceeded = exceeded

abbrev pub owns : ℕ → Option ℕ → Bool
owns c none = false
owns c (some d) = d == c

abbrev pub cancel_loop : ℕ → TimerLoop → TimerLoop
cancel_loop c l = if owns c l.ctx then record l { err = cancel_err l.err } else l

unfoldable pub stop : PlayerTicker → PlayerTicker × Bool
stop pt = if not pt.is_running then (pt, false) else elim pt.cancel [
  | none ↦ (pt, false)
  | some c ↦ (record pt { loops = map (cancel_loop c) pt.loops }, true)
]

unfoldable pub set_available : ℕ → PlayerTicker → PlayerTicker
set_available available pt = record pt { available = available }

-- The first stretch of `timerLoop`: it makes its context.
unfoldable pub register : ℕ → PlayerTicker → PlayerTicker
register i pt = elim (get_elem? pt.loops i) [
  | none ↦ pt
  | some l ↦ elim l.ctx [
    | some c ↦ pt
    | none ↦ record pt {
      loops = set pt.loops i (record l { ctx = some pt.next_ctx });
      cancel = some pt.next_ctx;
      next_ctx = pt.next_ctx + 1;
    }
  ]
]

-- Time passes the deadline of the context, unless it was canceled before.
unfoldable pub expire : ℕ → PlayerTicker → PlayerTicker
expire i pt = elim (get_elem? pt.loops i) [
  | none ↦ pt
  | some l ↦ elim l.ctx [
    | none ↦ pt
    | some c ↦ elim l.err [
      | pending ↦ record pt { loops = set pt.loops i (record l { err = exceeded }) }
      | _ ↦ pt
    ]
  ]
]

abbrev pub remove_at {ℓ} : {A : Type ℓ} → ℕ → List A → List A
remove_at i xs = take i xs ++ drop (i + 1) xs

-- The last stretch of `timerLoop`, once its context is over; `used` is the time since the start.
unfoldable pub finish : ℕ → ℕ → PlayerTicker → PlayerTicker
finish i used pt = elim (get_elem? pt.loops i) [
  | none ↦ pt
  | some l ↦ elim l.err [
    | pending ↦ pt
    | exceeded ↦ record pt {
      state = timeout;
      is_running = false;
      available = 0;
      loops = remove_at i pt.loops;
      on_timeouts = pt.on_timeouts + 1;
    }
    | canceled ↦ record pt {
      available = pt.available - used;
      state = stopped;
      is_running = false;
      loops = remove_at i pt.loops;
      on_stops = pt.on_stops + 1;
    }
  ]
]

pub data TurnState : Type 0 where
  idle wait_main selecting wait_reactions apply_operation : TurnState

-- `Tickers` has four clocks.
pub record TurnManager : Type 0 where
  pub turn_pointer : ℕ
  pub state : TurnState
  pub tickers : List PlayerTicker

unfoldable pub new_turn_manager : List PlayerTicker → TurnManager
new_turn_manager tickers = record { turn_pointer = 0; state = TurnState.idle; tickers = tickers }

unfoldable pub next_turn : TurnManager → TurnManager × ℕ
next_turn tm = let next = (tm.turn_pointer + 1) % 4 in (record tm { turn_pointer = next }, next)

unfoldable pub get_current_player : TurnManager → ℕ
get_current_player tm = tm.turn_pointer

unfoldable pub get_state : TurnManager → TurnState
get_state tm = tm.state

abbrev pub is_state_running : TickerState → Bool
is_state_running running = true
is_state_running _ = false

unfoldable pub stop_if_running : PlayerTicker → PlayerTicker
stop_if_running pt = if is_state_running pt.state then (stop pt).0 else pt

unfoldable pub stop_all_tickers : TurnManager → TurnManager
stop_all_tickers tm = record tm { tickers = map stop_if_running tm.tickers }

abbrev pub default_max_round_time : ℕ
default_max_round_time = 30

abbrev pub default_round_compensation : ℕ
default_round_compensation = 5

abbrev pub idle_ticker : PlayerTicker
idle_ticker = record {
  available = 0;
  state = TickerState.idle;
  is_running = false;
  cancel = none;
  loops = [];
  next_ctx = 0;
  on_timeouts = 0;
  on_stops = 0;
}

unfoldable pub get_player_ticker : TurnManager → ℕ → PlayerTicker
get_player_ticker tm seat = get_or tm.tickers seat idle_ticker

-- A clock is given its time and started.
unfoldable pub start_clock : ℕ → ℕ → TurnManager → TurnManager × Bool
start_clock seat allocated tm =
    let ticker = get_or tm.tickers seat idle_ticker in
    let (ticker', ok) = start allocated (set_available allocated ticker) in
    (record tm { tickers = set tm.tickers seat ticker' }, ok)

-- `EnterDropPhase`: false stands for an error. `Stop`, `SetAvailable` and `Start` take the lock of the
-- clock one after the other, so its goroutine may take steps between them: the functions are what
-- it does to the clock between `Stop` and the read of `Available`, from there to `SetAvailable`, and
-- from there to `Start`.
unfoldable pub enter_drop_phase_amid :
    (PlayerTicker → PlayerTicker)
    → (PlayerTicker → PlayerTicker)
    → (PlayerTicker → PlayerTicker)
    → ℕ
    → ℕ
    → TurnManager
    → TurnManager × Bool
enter_drop_phase_amid before_read before_set before_start seat compensation tm =
    let tm' = record (stop_all_tickers tm) { turn_pointer = seat; state = wait_main } in
    let at_read = before_read (get_or tm'.tickers seat idle_ticker) in
    let asked = at_read.available + compensation in
    let allocated = if ltb default_max_round_time asked then default_max_round_time else asked in
    let at_start = before_start (set_available allocated (before_set at_read)) in
    let (ticker, ok) = start allocated at_start in
    if leb 4 seat then (tm, false) else (record tm' { tickers = set tm'.tickers seat ticker }, ok)

-- `EnterDropPhase` where the goroutine of the clock takes no step during the call, as in the
-- handlers of the engine.
unfoldable pub enter_drop_phase : ℕ → ℕ → TurnManager → TurnManager × Bool
enter_drop_phase = enter_drop_phase_amid (λ pt. pt) (λ pt. pt) (λ pt. pt)

unfoldable pub enter_selecting_phase : TurnManager → TurnManager
enter_selecting_phase tm = record (stop_all_tickers tm) { state = selecting }

unfoldable pub enter_reacting_phase : TurnManager → TurnManager
enter_reacting_phase tm = record (stop_all_tickers tm) { state = wait_reactions }

unfoldable pub enter_choosing_phase : TurnManager → TurnManager
enter_choosing_phase tm = record (stop_all_tickers tm) { state = apply_operation }

unfoldable pub get_all_player_timer_states : TurnManager → List TickerState
get_all_player_timer_states tm = map (λ pt. pt.state) tm.tickers
