-- ===== src/March/Popped.antt =====
-- Any sequence of calls of march/infrastructure/realtime/march_queue.go, and what `PopPlayers` takes.
use go_mahjong.Common.{
  ℕ, ◌≡◌, ◌≤◌, ◌<◌, refl, ◌∙◌, true, false, ◌&&◌, List, none, some, ltb, ◌==◌, if◌then◌else◌,
  length, arith,
}
use go_mahjong.Common.Maps.{String, among, AreDistinct}
use go_mahjong.March.{
  Redis, get_queue_key, is_empty, join_queue, pop_players_script, pop_players, remove_from_queue,
}
use go_mahjong.March.Queues.{pool_of, waits}
use go_mahjong.March.Sound.{
  IsSound, join_queue-IsSound, pop_players-IsSound, remove_from_queue-IsSound, pool_of-take_out,
}

module _ {F S : Type 0} (redis : Redis F S) where
  -- The calls of the queues, one after the other.
  pub data QueueCalls : S → S → Type 0 where
    done : {s : S} → QueueCalls s s
    join :
        {s s' : S} (pool user : String) (score : F)
        → QueueCalls (join_queue redis s pool user score).0 s'
        → QueueCalls s s'
    pop :
        {s s' : S} (pool : String) (count : ℕ)
        → QueueCalls (pop_players redis s pool count).0 s'
        → QueueCalls s s'
    leave :
        {s s' : S} (user : String)
        → QueueCalls (remove_from_queue redis s user).0 s'
        → QueueCalls s s'

  -- Whatever calls of JoinQueue, PopPlayers and RemoveFromQueue follow on one another, a user
  -- waits in the queue of exactly the pool that the hash names, so in at most one, and no pool
  -- has an empty name.
  pub QueueCalls-IsSound : {s s' : S} → QueueCalls s s' → IsSound redis s → IsSound redis s'
  QueueCalls-IsSound done sound = sound
  QueueCalls-IsSound {s} (join pool user score rest) sound =
      QueueCalls-IsSound rest (join_queue-IsSound redis s pool user score sound)
  QueueCalls-IsSound {s} (pop pool count rest) sound =
      QueueCalls-IsSound rest (pop_players-IsSound redis s pool count sound)
  QueueCalls-IsSound {s} (leave user rest) sound =
      QueueCalls-IsSound rest (remove_from_queue-IsSound redis s user sound)

  -- From a reachable pool with at least count players, count > 0, PopPlayers answers exactly count
  -- different players; each of them waited in the pool, and just they lose their pool mark.
  pub pop_players_lem :
      (s : S) (pool : String) (count : ℕ)
      → is_empty pool ≡ false
      → redis.reachable s ≡ true
      → 0 < count
      → count ≤ redis.zcard s (get_queue_key pool)
      → let (s', popped) = pop_players redis s pool count in
        (players : List String) × (popped ≡ some players)
        × (length players ≡ count)
        × AreDistinct players
        × ((u : String)
            → (among u players ≡ (among u players && waits redis s pool u))
              × (pool_of redis s' u ≡ (if among u players then none else pool_of redis s u)))
  unfolding pop_players pop_players_script
  pop_players_lem s pool count name up some' enough =
      let key = get_queue_key pool in
      let players = redis.zrange s key count in
      let asked : (count == 0) ≡ false = ground arith in
      let e : ltb (redis.zcard s key) count ≡ false = ground arith in
      rw (asked, name, up, e)
        (
          players,
          refl,
          redis.length-zrange s key count ∙ ground arith,
          redis.zrange-distinct s key count,
          λ u. (
            ground (arith, redis.zrange-members s key count u),
            pool_of-take_out redis players key s u,
          ),
        )
