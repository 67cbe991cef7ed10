-- ===== src/March/Pool.antt =====
-- march/runtime/match_pool.go and worker.go, match_service_impl.go and domain/vo/ranking.go of march: who is
-- matched, and the room that is asked for.
use Prim.Native.String.{◌++◌ as ◌+ₛ◌}
use go_mahjong.Common.{
  ℕ, zero, suc, Bool, true, false, not, ◌&&◌, ◌||◌, List, [], ◌∷◌, ◌++◌, Option, none, some, ltb,
  ◌==◌, if◌then◌else◌, length,
}
use go_mahjong.Common.Int.{ℤ, pos, ltb_ℤ}
use go_mahjong.Common.Maps.{String, Map, is_some, put}
use go_mahjong.Rooms.{Engines, RoomManager, create_room}
use go_mahjong.March.{
  Redis, is_empty, JoinResult, already_in_queue, is_in_queue, join_queue, remove_from_queue,
  poll_match,
}

pub record MatchResult : Type 0 where
  pub pool_id : String
  pub players : Map String
  pub game_node_id : String
  pub game_node_addr : String

pub record MatchPool : Type 0 where
  pub pool_id : String
  pub batch_size : ℕ
  pub required_players : ℕ

-- What `tryMatch` returns: nil, an error, or a result.
pub data Attempt : Type 0 where
  nobody failed : Attempt
  matched : MatchResult → Attempt

-- The packages and services that matching asks: `GetConnectorRouter`, `SelectGameNode` with the
-- identifier and the address of a node, `strings.Contains` and `strings.HasPrefix`; none is an error.
pub record Services : Type 0 where
  pub connector_router : String → Option String
  pub select_game_node : Option (String × String)
  pub contains : String → String → Bool
  pub has_prefix : String → String → Bool

unfoldable pub infer_required_players : Services → String → ℕ
infer_required_players sv pool =
    if sv.contains pool "rank4" || sv.contains pool "casual4"
    then 4
    else if sv.contains pool "casual3"
    then 3
    else 4

unfoldable pub infer_engine_type : Services → String → ℕ
infer_engine_type sv pool = if sv.contains pool "casual3" then 1 else 0

-- The loop of `tryMatch` over the players that were popped.
unfoldable pub collect_routes : Services → List String → Map String → Option (Map String)
collect_routes sv [] players = some players
collect_routes sv (u ∷ us) players = elim (sv.connector_router u) [
  | none ↦ none
  | some route ↦ if is_empty route then none else collect_routes sv us (put u route players)
]

unfoldable pub match_players : Services → MatchPool → List String → Attempt
match_players sv p ids =
    if ltb (length ids) p.required_players then nobody else elim (collect_routes sv ids []) [
      | none ↦ nobody
      | some players ↦ elim sv.select_game_node [
        | none ↦ failed
        | some (node, addr) ↦ matched (record {
          pool_id = p.pool_id;
          players = players;
          game_node_id = node;
          game_node_addr = addr;
        })
      ]
    ]

unfoldable pub try_match : {F S : Type 0} → Redis F S → Services → MatchPool → S → S × Attempt
try_match redis sv p s =
    let (s', popped) = poll_match redis s p.pool_id p.required_players in
    elim popped [ none ↦ (s', failed) | some ids ↦ (s', match_players sv p ids) ]

-- A result is dropped when the channel holds 1024 of them.
unfoldable pub send_result : MatchResult → List MatchResult → List MatchResult
send_result r results = if ltb (length results) 1024 then results ++ r ∷ [] else results

-- `doBatchMatch`, with `n` rounds left; `stop` says in which rounds the signal to stop is taken.
unfoldable pub do_batch_match :
    {F S : Type 0}
    → Redis F S
    → Services
    → MatchPool
    → (ℕ → Bool)
    → ℕ
    → S
    → List MatchResult
    → S × List MatchResult
do_batch_match redis sv p stop zero s results = (s, results)
do_batch_match redis sv p stop (suc n) s results =
    let (s', attempt) = try_match redis sv p s in
    elim attempt [
      | nobody ↦ (s', results)
      | failed ↦ do_batch_match redis sv p stop n s' results
      | matched r ↦ elim (stop n) [
        | true ↦ (s', results)
        | false ↦ do_batch_match redis sv p stop n s' (send_result r results)
      ]
    ]

pub data RankingType : Type 0 where
  novice guard hero saint sky : RankingType

unfoldable pub get_ranking_by_score : ℤ → RankingType
get_ranking_by_score score =
    if not (ltb_ℤ (pos 299) score)
    then novice
    else if not (ltb_ℤ score (pos 300)) && not (ltb_ℤ (pos 599) score)
    then guard
    else if not (ltb_ℤ score (pos 600)) && not (ltb_ℤ (pos 1199) score)
    then hero
    else if not (ltb_ℤ score (pos 1200)) && not (ltb_ℤ (pos 1799) score)
    then saint
    else sky

unfoldable pub ranking_string : RankingType → String
ranking_string novice = "novice"
ranking_string guard = "guard"
ranking_string hero = "hero"
ranking_string saint = "saint"
ranking_string sky = "sky"

abbrev pub rank4_prefix : String
rank4_prefix = "classic:rank4"

-- `resolvePoolID`; the ranking of a user is what `FindByID` gives.
unfoldable pub resolve_pool_id : Services → (String → Option ℤ) → String → String → Option String
resolve_pool_id sv find_by_id pool user =
    if not (sv.has_prefix pool rank4_prefix) then some pool else elim (find_by_id user) [
      | none ↦ none
      | some ranking ↦ some ((rank4_prefix +ₛ ":") +ₛ ranking_string (get_ranking_by_score ranking))
    ]

-- `JoinQueue` of the service: a user is put into the queue of a pool, with the time as the score.
unfoldable pub join_service :
    {F S : Type 0}
    → Redis F S
    → (F → Bool)
    → Services
    → (String → Option ℤ)
    → F
    → S
    → String
    → String
    → S × Option JoinResult
join_service redis is_positive sv find_by_id now s pool user =
    elim (is_in_queue redis is_positive s user) [
      | none ↦ (s, none)
      | some (true, existing) ↦ (s, some already_in_queue)
      | some (false, existing) ↦ elim (resolve_pool_id sv find_by_id pool user) [
        | none ↦ (s, none)
        | some final ↦ let (s', result) = join_queue redis s final user now in (s', some result)
      ]
    ]

-- `LeaveQueue` of the service.
unfoldable pub leave_service : {F S : Type 0} → Redis F S → S → String → S × Bool
leave_service redis s user = remove_from_queue redis s user

-- `callGameCreateRoom`: the room manager of the game node, behind its service, creates the room.
unfoldable pub call_game_create_room :
    {E : Type 0}
    → Engines E
    → Services
    → String
    → MatchResult
    → RoomManager E
    → RoomManager E × Bool
call_game_create_room ops sv id result rm =
    let (rm', room) = create_room ops id result.players (infer_engine_type sv result.pool_id) rm in
    if length result.players == 0 then (rm, false) else (rm', is_some room)
