-- ===== src/Examples/Waiting.antt =====
-- Players who wait for a match.
use Prim.Native.String.{String}
use go_mahjong.Common.{
  ◌≡◌, ◌≤◌, refl, true, false, ◌&&◌, List, [], ◌∷◌, Option, none, some, arith, if◌then◌else◌,
  length,
}
use go_mahjong.Common.Maps.{same, among, AreDistinct, IsDistinct, get, put, remove, keys}
use go_mahjong.March.{
  get_queue_key, join_queue, pop_players, pop_players_script, take_out, poll_match,
}
use go_mahjong.March.Queues.{pool_of, waits}
use go_mahjong.March.Sound.{IsSound}
use go_mahjong.March.Popped.{join, pop, done, QueueCalls-IsSound, pop_players_lem}
use go_mahjong.March.Pool.{Services, MatchPool, MatchResult, try_match, matched, nobody}
use go_mahjong.March.Matching.{try_match_lem, try_match_lost}
use go_mahjong.Examples.Lobby.{Store, in_memory, nobody_waits, change, once}

nobody_waits-IsSound : IsSound in_memory nobody_waits
unfolding get
nobody_waits-IsSound = record { queued = λ u p. refl; named = λ u p e. cc }

abbrev ann_joined : Store
ann_joined = (join_queue in_memory nobody_waits "rank4" "ann" 5).0

QueueCalls-IsSound_example :
    let s = (pop_players in_memory ann_joined "rank4" 1).0 in IsSound in_memory s
QueueCalls-IsSound_example =
    QueueCalls-IsSound in_memory (join "rank4" "ann" 5 (pop "rank4" 1 done)) nobody_waits-IsSound

-- Ann and Bob wait.
abbrev two_wait : Store
two_wait = record {
  hash = change "march:user:pool" (("ann", "rank4") ∷ ("bob", "rank4") ∷ []) (λ k. []);
  sets = change "march:queue:rank4" (("ann", 5) ∷ ("bob", 6) ∷ []) (λ k. []);
}

enough_wait : 2 ≤ in_memory.zcard two_wait (get_queue_key "rank4")
unfolding get_queue_key once keys among
enough_wait = omega arith

pop_players_lem_example :
    let (s, popped) = pop_players in_memory two_wait "rank4" 2 in
    (players : List String) × (popped ≡ some players)
    × (length players ≡ 2)
    × AreDistinct players
    × ((u : String)
        → (among u players ≡ (among u players && waits in_memory two_wait "rank4" u))
          × (pool_of in_memory s u
              ≡ (if among u players then none else pool_of in_memory two_wait u)))
pop_players_lem_example =
    pop_players_lem in_memory two_wait "rank4" 2 refl refl (omega arith) enough_wait

abbrev services : (String → Option String) → Services
services router = record {
  connector_router = router;
  select_game_node = some ("node", "address");
  contains = λ s t. true;
  has_prefix = λ s t. false;
}

abbrev pool : MatchPool
pool = record { pool_id = "rank4"; batch_size = 10; required_players = 2 }

abbrev all_routes : String → Option String
all_routes u = some "connector"

abbrev but_bob : String → Option String
but_bob u = if same u "bob" then none else some "connector"

try_match_lem_example :
    (players : List String) × (r : MatchResult) × (length players ≡ 2)
    × AreDistinct players
    × (length r.players ≡ 2)
    × IsDistinct r.players
    × ((u : String) → among u players ≡ true → waits in_memory two_wait "rank4" u ≡ true)
    × ((try_match in_memory (services all_routes) pool two_wait).1 ≡ matched r)
    × ((u : String)
        → (get u r.players ≡ (if among u players then all_routes u else none))
          × (pool_of in_memory (try_match in_memory (services all_routes) pool two_wait).0 u
              ≡ (if among u players then none else pool_of in_memory two_wait u)))
try_match_lem_example =
    try_match_lem in_memory (services all_routes) pool two_wait refl refl (omega arith) enough_wait
      ("node", "address") refl (λ u h. ("connector", refl, refl))

bob_gone : pool_of in_memory (try_match in_memory (services but_bob) pool two_wait).0 "bob" ≡ none
unfolding try_match poll_match pop_players pop_players_script take_out get_queue_key get remove keys
    put once among
bob_gone = refl

try_match_lost_example :
    ((try_match in_memory (services but_bob) pool two_wait).1 ≡ nobody)
    × (players : List String) × (length players ≡ 2)
    × AreDistinct players
    × (among "bob" players ≡ true)
    × ((v : String) → among v players ≡ true → waits in_memory two_wait "rank4" v ≡ true)
    × ((v : String)
        → pool_of in_memory (try_match in_memory (services but_bob) pool two_wait).0 v
          ≡ (if among v players then none else pool_of in_memory two_wait v))
unfolding get
try_match_lost_example =
    try_match_lost in_memory (services but_bob) pool two_wait refl refl (omega arith) enough_wait
      "bob" refl bob_gone refl
