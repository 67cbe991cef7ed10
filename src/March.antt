-- ===== src/March.antt =====
-- march/infrastructure/realtime/march_queue.go and `Match` of march/runtime/match_strategy.go: the queues
-- of players who wait for a match.
-- The scripts that Redis runs are part of the source; Redis itself is a parameter.
pub mod Pool
pub mod Queues
pub mod Sound
pub mod Popped
pub mod Matching
use Prim.Native.String.{◌++◌ as ◌+ₛ◌}
use go_mahjong.Common.{
  ℕ, zero, suc, ◌+◌, ◌≡◌, Bool, true, false, not, ◌&&◌, ◌||◌, List, [], ◌∷◌, ◌++◌, Option, none,
  some, ltb, leb, ◌==◌, if◌then◌else◌, length,
}
use go_mahjong.Common.Int.{ℤ, pos, negsuc, eqb_ℤ}
use go_mahjong.Common.Maps.{String, same, is_some, among, AreDistinct}

-- Redis, with the laws of its commands: hashes by key and field, sorted sets by key and member, each
-- with keys of their own, since no key of the program is used for both. F are the scores, S the states
-- of the store. `zrange s k n` are the first n members of a set. `reachable` says that there is a
-- client and that Redis answers it; where it does not, nothing changes.
pub record Redis (F S : Type 0) : Type 0 where
  pub reachable : S → Bool
  pub hget : S → String → String → Option String
  pub hset : S → String → String → String → S
  pub hdel : S → String → String → S
  pub zadd : S → String → F → String → S
  pub zrem : S → String → String → S
  pub zscore : S → String → String → Option F
  pub zcard : S → String → ℕ
  pub zrange : S → String → ℕ → List String
  pub hget-hset :
      (s : S) (k f v k' f' : String)
      → hget (hset s k f v) k' f' ≡ (if same k k' && same f f' then some v else hget s k' f')
  pub hget-hdel :
      (s : S) (k f k' f' : String)
      → hget (hdel s k f) k' f' ≡ (if same k k' && same f f' then none else hget s k' f')
  pub hget-zadd :
      (s : S) (k : String) (x : F) (m k' f' : String) → hget (zadd s k x m) k' f' ≡ hget s k' f'
  pub hget-zrem : (s : S) (k m k' f' : String) → hget (zrem s k m) k' f' ≡ hget s k' f'
  pub zscore-zadd :
      (s : S) (k : String) (x : F) (m k' m' : String)
      → zscore (zadd s k x m) k' m' ≡ (if same k k' && same m m' then some x else zscore s k' m')
  pub zscore-zrem :
      (s : S) (k m k' m' : String)
      → zscore (zrem s k m) k' m' ≡ (if same k k' && same m m' then none else zscore s k' m')
  pub zscore-hset : (s : S) (k f v k' m' : String) → zscore (hset s k f v) k' m' ≡ zscore s k' m'
  pub zscore-hdel : (s : S) (k f k' m' : String) → zscore (hdel s k f) k' m' ≡ zscore s k' m'
  pub zrange-members :
      (s : S) (k : String) (n : ℕ) (m : String)
      → among m (zrange s k n) ≡ true
      → is_some (zscore s k m) ≡ true
  pub zrange-distinct : (s : S) (k : String) (n : ℕ) → AreDistinct (zrange s k n)
  pub length-zrange :
      (s : S) (k : String) (n : ℕ)
      → length (zrange s k n) ≡ (if leb n (zcard s k) then n else zcard s k)

abbrev pub user_pool_key : String
user_pool_key = "march:user:pool"

abbrev pub queue_key_prefix : String
queue_key_prefix = "march:queue"

unfoldable pub get_queue_key : String → String
get_queue_key pool = (queue_key_prefix +ₛ ":") +ₛ pool

abbrev pub is_empty : String → Bool
is_empty s = same s ""

pub data JoinResult : Type 0 where
  joined empty_name script_failed already_in_queue unknown_result : JoinResult
  in_other_pool : Option String → JoinResult

-- The switch on what `joinQueueScript` returns.
unfoldable pub join_result : ℤ → Option String → JoinResult
join_result result existing =
    if eqb_ℤ result (pos 1)
    then joined
    else if eqb_ℤ result (negsuc 0)
    then in_other_pool existing
    else if eqb_ℤ result (negsuc 1)
    then already_in_queue
    else unknown_result

module _ {F S : Type 0} (redis : Redis F S) where
  -- `joinQueueScript`.
  unfoldable pub join_queue_script : S → String → String → F → String → S × ℤ
  join_queue_script s key user score pool =
      let added = redis.hset (redis.zadd s key score user) user_pool_key user pool in
      elim (redis.hget s user_pool_key user) [
        | none ↦ (added, pos 1)
        | some existing ↦
            if is_empty existing
            then (added, pos 1)
            else if not (same existing pool)
            then (s, negsuc 0)
            else if is_some (redis.zscore s key user)
            then (s, negsuc 1)
            else (added, pos 1)
      ]

  -- The loop of `popPlayersScript`.
  unfoldable pub take_out : String → List String → S → S
  take_out key [] s = s
  take_out key (u ∷ us) s = take_out key us (redis.hdel (redis.zrem s key u) user_pool_key u)

  unfoldable pub pop_players_script : S → String → ℕ → S × List String
  pop_players_script s key count =
      let players = redis.zrange s key count in
      if ltb (redis.zcard s key) count then (s, []) else (take_out key players s, players)

  -- `removeFromQueueScript` writes the key of the queue out.
  unfoldable pub remove_from_queue_script : S → String → S × ℤ
  remove_from_queue_script s user = elim (redis.hget s user_pool_key user) [
    | none ↦ (s, pos 0)
    | some pool ↦
        if is_empty pool
        then (s, pos 0)
        else (redis.hdel (redis.zrem s ("march:queue:" +ₛ pool) user) user_pool_key user, pos 1)
  ]

  -- `GetUserPool`; an unknown user has the empty pool, an error is none.
  unfoldable pub get_user_pool : S → String → Option String
  get_user_pool s user =
      if is_empty user
      then none
      else if not (redis.reachable s)
      then none
      else elim (redis.hget s user_pool_key user) [ none ↦ some "" | some pool ↦ some pool ]

  unfoldable pub join_queue : S → String → String → F → S × JoinResult
  join_queue s pool user score =
      let (s', result) = join_queue_script s (get_queue_key pool) user score pool in
      if is_empty pool || is_empty user
      then (s, empty_name)
      else if not (redis.reachable s)
      then (s, script_failed)
      else (s', join_result result (get_user_pool s' user))

  unfoldable pub remove_from_queue : S → String → S × Bool
  remove_from_queue s user =
      if is_empty user || not (redis.reachable s)
      then (s, false)
      else ((remove_from_queue_script s user).0, true)

  -- Whether a user waits, and in which pool; an error is none. The parameter says that a score is
  -- above 0.
  unfoldable pub is_in_queue : (F → Bool) → S → String → Option (Bool × String)
  is_in_queue is_positive s user =
      if is_empty user || not (redis.reachable s)
      then none
      else elim (redis.hget s user_pool_key user) [
        | none ↦ some (false, "")
        | some pool ↦
            if is_empty pool
            then some (false, "")
            else elim (redis.zscore s (get_queue_key pool) user) [
              | none ↦ some (false, pool)
              | some score ↦ some (is_positive score, pool)
            ]
      ]

  unfoldable pub pop_players : S → String → ℕ → S × Option (List String)
  pop_players s pool count =
      if count == 0
      then (s, some [])
      else if is_empty pool || not (redis.reachable s)
      then (s, none)
      else (let (s', players) = pop_players_script s (get_queue_key pool) count in
          (s', some players))

  unfoldable pub get_queue_size : S → String → Option ℕ
  get_queue_size s pool =
      if is_empty pool || not (redis.reachable s)
      then none
      else some (redis.zcard s (get_queue_key pool))

  -- `Match` of `PollStrategy`.
  unfoldable pub poll_match : S → String → ℕ → S × Option (List String)
  poll_match s pool required = if required == 0 then (s, some []) else pop_players s pool required
