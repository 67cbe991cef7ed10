-- ===== src/March/Matching.antt =====
-- `tryMatch` of march/runtime/match_pool.go: who is matched, and who is lost.
use go_mahjong.Common.{
  ◌≡◌, ◌≤◌, ◌<◌, ◌+◌, inl, inr, refl, ap, subst, ◌∙◌, true, false, List, [], ◌∷◌, Option, none,
  some, ltb, ◌==◌, if◌then◌else◌, length, arith, Bool-cases, Option-cases,
}
use go_mahjong.Common.Maps.{
  String, Map, same_iff, same_refl, is_some, among, AreDistinct, IsDistinct, IsDistinct-put,
  length-put, get, put, get-put,
}
use go_mahjong.March.{Redis, get_queue_key, is_empty, pop_players, poll_match}
use go_mahjong.March.Queues.{pool_of, waits}
use go_mahjong.Rooms.{Engines, RoomManager, create_room}
use go_mahjong.March.Popped.{pop_players_lem}
use go_mahjong.March.Pool.{
  Services, MatchPool, MatchResult, Attempt, nobody, matched, collect_routes, match_players,
  try_match, call_game_create_room, infer_engine_type,
}

-- The routes that are collected are those of the router, for all the players.
collect_routes-get :
    (sv : Services) (ids : List String) (m r : Map String) (u : String)
    → collect_routes sv ids m ≡ some r
    → get u r ≡ (if among u ids then sv.connector_router u else get u m)
unfolding collect_routes among
collect_routes-get sv [] m r u e = ground (arith, ap (λ (o : Option (Map String)). o) e)
collect_routes-get sv (v ∷ ids) m r u e = elim (Option-cases (sv.connector_router v)) [
  | inl none' ↦ let wrong = rw (none', collect_routes) at e in cc
  | inr (route, e') ↦ elim (Bool-cases (is_empty route)) [
    | inl blank ↦ let wrong = rw (e', blank, collect_routes) at e in cc
    | inr known ↦
        let rest =
          collect_routes-get sv ids (put v route m) r u (rw (e', known, collect_routes) at e) in
        ground (
          arith,
          rest,
          get-put v u route m,
          e',
          same_iff v u,
          ap sv.connector_router {x = v} {y = u},
        )
  ]
]

-- One player without a route is enough to end the collection.
collect_routes-none :
    (sv : Services) (ids : List String) (m : Map String) (u : String)
    → among u ids ≡ true
    → sv.connector_router u ≡ none
    → collect_routes sv ids m ≡ none
unfolding collect_routes among
collect_routes-none sv [] m u h e = cc
collect_routes-none sv (v ∷ ids) m u h e = elim (Option-cases (sv.connector_router v)) [
  | inl none' ↦ rw (none', collect_routes) refl
  | inr (route, e') ↦ elim (Bool-cases (is_empty route)) [
    | inl blank ↦ rw (e', blank, collect_routes) refl
    | inr known ↦
        rw (e', known, collect_routes)
          (collect_routes-none sv ids (put v route m) u
            (ground (arith, e, e', same_iff v u, ap sv.connector_router {x = v} {y = u})) e)
  ]
]

abbrev get_or_map : Option (Map String) → Map String → Map String
get_or_map none m = m
get_or_map (some r) m = r

-- Each player stands once among the routes that are collected.
collect_routes-length :
    (sv : Services) (ids : List String) (m r : Map String)
    → collect_routes sv ids m ≡ some r
    → AreDistinct ids
    → IsDistinct m
    → ((u : String) → among u ids ≡ true → get u m ≡ none)
    → IsDistinct r × (length r ≡ length ids + length m)
unfolding collect_routes among
collect_routes-length sv [] m r e apart d fresh =
    let same_map : m ≡ r = ap (λ (o : Option (Map String)). get_or_map o m) e in
    (subst IsDistinct same_map d, omega (arith, ap (λ (x : Map String). length x) same_map))
collect_routes-length sv (v ∷ ids) m r e (new, apart) d fresh =
    elim (Option-cases (sv.connector_router v)) [
      | inl none' ↦ let wrong = rw (none', collect_routes) at e in cc
      | inr (route, e') ↦ elim (Bool-cases (is_empty route)) [
        | inl blank ↦ let wrong = rw (e', blank, collect_routes) at e in cc
        | inr known ↦
            let (distinct, size) =
              collect_routes-length sv ids (put v route m) r (rw (e', known, collect_routes) at e)
                apart (IsDistinct-put v route m d)
                (λ u h. ground (
                  arith,
                  get-put v u route m,
                  fresh u,
                  h,
                  new,
                  same_iff v u,
                  ap (λ (w : String). among w ids) {x = v} {y = u},
                )) in
            (
              distinct,
              omega (arith, size, length-put v route m (fresh v (ground (arith, same_refl v)))),
            )
      ]
    ]

-- The router knows where to send to the player.
abbrev pub HasRoute : Services → String → Type 0
HasRoute sv u = (route : String) × (sv.connector_router u ≡ some route) × (is_empty route ≡ false)

collect_routes-some :
    (sv : Services) (ids : List String) (m : Map String)
    → ((u : String) → among u ids ≡ true → HasRoute sv u)
    → (r : Map String) × (collect_routes sv ids m ≡ some r)
unfolding collect_routes among
collect_routes-some sv [] m routed = (m, refl)
collect_routes-some sv (v ∷ ids) m routed =
    let (route, e, known) = routed v (ground (arith, same_refl v)) in
    let (r, found) =
      collect_routes-some sv ids (put v route m) (λ u h. routed u (ground (arith, h))) in
    (r, rw (e, known, collect_routes) found)

match_players-matched :
    (sv : Services) (p : MatchPool) (ids : List String) (m : Map String) (node : String × String)
    → ltb (length ids) p.required_players ≡ false
    → collect_routes sv ids [] ≡ some m
    → sv.select_game_node ≡ some node
    → match_players sv p ids
      ≡ matched (record {
        pool_id = p.pool_id;
        players = m;
        game_node_id = node.0;
        game_node_addr = node.1;
      })
unfolding match_players
match_players-matched sv p ids m node full e chosen =
    simp full (rw (e, match_players) (rw (chosen, match_players) refl))

module _ {F S : Type 0} (redis : Redis F S) (sv : Services) (p : MatchPool) (s : S)
    (name : is_empty p.pool_id ≡ false) (up : redis.reachable s ≡ true)
    (some' : 0 < p.required_players)
    (enough : p.required_players ≤ redis.zcard s (get_queue_key p.pool_id)) where
  polled :
      poll_match redis s p.pool_id p.required_players
      ≡ pop_players redis s p.pool_id p.required_players
  unfolding poll_match
  polled = let asked : (p.required_players == 0) ≡ false = ground arith in rw asked refl

  after_poll :
      (ids : List String)
      → (poll_match redis s p.pool_id p.required_players).1 ≡ some ids
      → try_match redis sv p s
        ≡ ((poll_match redis s p.pool_id p.required_players).0, match_players sv p ids)
  unfolding try_match
  after_poll ids e = rw (e, try_match) refl

  tried :
      (players : List String) × (length players ≡ p.required_players)
      × AreDistinct players
      × ((u : String) → among u players ≡ true → waits redis s p.pool_id u ≡ true)
      × ((try_match redis sv p s).1 ≡ match_players sv p players)
      × ((u : String)
          → pool_of redis (try_match redis sv p s).0 u
            ≡ (if among u players then none else pool_of redis s u))
  tried =
      let (players, e, size, apart, left) =
        pop_players_lem redis s p.pool_id p.required_players name up some' enough in
      let found = after_poll players (rw polled e) in
      (
        players,
        size,
        apart,
        λ u h. ground (arith, h, (left u).0),
        ap (λ (r : S × Attempt). r.1) found,
        λ u. ap (λ (r : S × Attempt). pool_of redis r.0 u) found ∙ rw polled (left u).1,
      )

  -- With Redis and a game node at hand, a pool with a name and with enough players, and a route
  -- for each who waits, tryMatch returns a match of exactly the required number of players, all
  -- different and all of whom waited, each with the connector of the router, and takes these
  -- players, and no others, out of the hash of those who wait.
  pub try_match_lem :
      (node : String × String)
      → sv.select_game_node ≡ some node
      → ((u : String) → waits redis s p.pool_id u ≡ true → HasRoute sv u)
      → (players : List String) × (r : MatchResult) × (length players ≡ p.required_players)
        × AreDistinct players
        × (length r.players ≡ p.required_players)
        × IsDistinct r.players
        × ((u : String) → among u players ≡ true → waits redis s p.pool_id u ≡ true)
        × ((try_match redis sv p s).1 ≡ matched r)
        × ((u : String)
            → (get u r.players ≡ (if among u players then sv.connector_router u else none))
              × (pool_of redis (try_match redis sv p s).0 u
                  ≡ (if among u players then none else pool_of redis s u)))
  unfolding get
  try_match_lem node chosen routed =
      let (players, size, apart, waited, result, left) = tried in
      let (m, e) = collect_routes-some sv players [] (λ u h. routed u (waited u h)) in
      let full : ltb (length players) p.required_players ≡ false = ground arith in
      let (once, routes) = collect_routes-length sv players [] m e apart tt (λ u h. refl) in
      (
        players,
        record { pool_id = p.pool_id; players = m; game_node_id = node.0; game_node_addr = node.1 },
        size,
        apart,
        omega (arith, routes, size),
        once,
        waited,
        result ∙ match_players-matched sv p players m node full e chosen,
        λ u. (collect_routes-get sv players [] m u e, left u),
      )

  -- With Redis at hand and enough players in a pool with a name, if a player whom tryMatch takes
  -- out has no route, it returns no match, and this player and others who waited, different
  -- players and together the required number, are gone from the hash of those who wait, where
  -- nobody else changes.
  pub try_match_lost :
      (u : String)
      → is_some (pool_of redis s u) ≡ true
      → pool_of redis (try_match redis sv p s).0 u ≡ none
      → sv.connector_router u ≡ none
      → ((try_match redis sv p s).1 ≡ nobody)
        × (players : List String) × (length players ≡ p.required_players)
        × AreDistinct players
        × (among u players ≡ true)
        × ((v : String) → among v players ≡ true → waits redis s p.pool_id v ≡ true)
        × ((v : String)
            → pool_of redis (try_match redis sv p s).0 v
              ≡ (if among v players then none else pool_of redis s v))
  unfolding match_players
  try_match_lost u before gone routeless =
      let (players, size, apart, waited, result, left) = tried in
      let full : ltb (length players) p.required_players ≡ false = ground arith in
      let inside : among u players ≡ true = elim (Bool-cases (among u players)) [
        | inl here ↦ here
        | inr other ↦ absurd (ground (arith, left u, other, gone, before))
      ] in
      let none' = collect_routes-none sv players [] u inside routeless in
      (result ∙ rw (full, none', match_players) refl, players, size, apart, inside, waited, left)

-- For a pool whose name contains casual3, the engine type inferred is one that the room manager
-- cannot build: it is unchanged and the call answers false.
pub call_game_create_room-casual3 :
    {E : Type 0} (ops : Engines E) (sv : Services) (id : String) (r : MatchResult)
    (rm : RoomManager E)
    → sv.contains r.pool_id "casual3" ≡ true
    → call_game_create_room ops sv id r rm ≡ (rm, false)
unfolding call_game_create_room create_room infer_engine_type
call_game_create_room-casual3 ops sv id r rm h = rw h (ground arith)
