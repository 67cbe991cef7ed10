-- ===== src/Rooms.antt =====
-- game/runtime/room_manager.go and room.go, runtime/share/user_info.go, and `CreateRoom` of
-- runtime/application/service/impl/game_service_impl.go: the rooms of a game node.
-- An error is `none` or `false`. The locks are left out: calls come one by one.
pub mod Routes
pub mod Trace
pub mod Created
pub mod Riichi
use go_mahjong.Common.{
  ℕ, zero, suc, ◌≡◌, Bool, true, false, ◌&&◌, List, [], ◌∷◌, Option, none, some, ◌==◌,
  if◌then◌else◌, length, map,
}
use go_mahjong.Common.Maps.{String, Map, get, put, remove, keys, put_all, remove_all, among}

pub record UserInfo : Type 0 where
  pub user_id : String
  pub connector_node_id : String
  pub is_online : Bool
  pub seat_index : ℕ

unfoldable pub new_user_info : String → String → UserInfo
new_user_info user connector = record {
  user_id = user;
  connector_node_id = connector;
  is_online = true;
  seat_index = 0;
}

unfoldable pub set_offline : UserInfo → UserInfo
set_offline pi = record pi { is_online = false }

unfoldable pub set_online : String → UserInfo → UserInfo
set_online connector pi = record pi { is_online = true; connector_node_id = connector }

-- The interface `Engine`, as far as rooms call it. `initialize` shares the users of the room with the
-- engine, which gives them seats but adds and removes none; false is an error.
pub record Engines (E : Type 0) : Type 0 where
  pub clone : E → Option E
  pub initialize : String → Map UserInfo → E → (E × Map UserInfo) × Bool
  pub close : E → E
  pub keys-initialize :
      (id : String) (users : Map UserInfo) (e : E) → keys (initialize id users e).0.1 ≡ keys users

pub record Room (E : Type 0) : Type 0 where
  pub id : String
  pub users : Map UserInfo
  pub allow_watch : Bool
  pub engine : E

pub record RoomManager (E : Type 0) : Type 0 where
  pub rooms : Map (Room E)
  pub player_room : Map String
  pub engine_prototypes : List (ℕ × E)

unfoldable pub user_infos : Map String → Map UserInfo
user_infos [] = []
user_infos ((user, connector) ∷ us) = (user, new_user_info user connector) ∷ user_infos us

module _ {E : Type 0} where
  -- `Close` of a room.
  unfoldable pub close_room : Engines E → Room E → Room E
  close_room ops room = record room { engine = ops.close room.engine }

  -- The identifier is that of `GenerateRoomID`: the time and random bytes.
  unfoldable pub new_room : String → E → Map String → Room E
  new_room id engine users = record {
    id = id;
    users = user_infos users;
    allow_watch = false;
    engine = engine;
  }

  unfoldable pub get_player : String → Room E → Option UserInfo
  get_player user room = get user room.users

  unfoldable pub remove_player : String → Room E → Room E × Bool
  remove_player user room = elim (get user room.users) [
    | none ↦ (room, false)
    | some info ↦ (record room { users = remove user room.users }, true)
  ]

  unfoldable pub get_player_count : Room E → ℕ
  get_player_count room = length room.users

  unfoldable pub get_all_players : Room E → List UserInfo
  get_all_players room = map (λ (entry : String × UserInfo). entry.1) room.users

  unfoldable pub new_room_manager : RoomManager E
  new_room_manager = record { rooms = []; player_room = []; engine_prototypes = [] }

  unfoldable pub find_prototype : ℕ → List (ℕ × E) → Option E
  find_prototype t [] = none
  find_prototype t ((k, e) ∷ es) = if k == t then some e else find_prototype t es

  unfoldable pub set_engine_prototype : ℕ → Option E → RoomManager E → RoomManager E × Bool
  set_engine_prototype t none rm = (rm, false)
  set_engine_prototype t (some e) rm =
      (record rm { engine_prototypes = (t, e) ∷ rm.engine_prototypes }, true)

  -- `cleanupRoom`, which says nothing of a room that is not there.
  unfoldable pub cleanup_room : String → RoomManager E → RoomManager E
  cleanup_room id rm = elim (get id rm.rooms) [
    | none ↦ rm
    | some room ↦ record rm {
      rooms = remove id rm.rooms;
      player_room = remove_all (keys room.users) rm.player_room;
    }
  ]

  -- `DeleteRoom`, with the room that it closed.
  unfoldable pub delete_room : Engines E → String → RoomManager E → RoomManager E × Option (Room E)
  delete_room ops id rm = elim (get id rm.rooms) [
    | none ↦ (rm, none)
    | some room ↦ (
      record rm {
        rooms = remove id rm.rooms;
        player_room = remove_all (keys room.users) rm.player_room;
      },
      some (close_room ops room),
    )
  ]

  -- From the routes of the players on: the engine is initialised, and the room entered.
  unfoldable pub enter_room : Engines E → Room E → RoomManager E → RoomManager E × Option (Room E)
  enter_room ops room rm =
      let routed = record rm { player_room = put_all (keys room.users) room.id rm.player_room } in
      let ((engine, users), ok) = ops.initialize room.id room.users room.engine in
      let started = record room { engine = engine; users = users } in
      if ok
      then (record routed { rooms = put room.id started rm.rooms }, some started)
      else (cleanup_room room.id routed, none)

  -- `CreateRoom`. That a player is in a room already is only logged.
  unfoldable pub create_room :
      Engines E → String → Map String → ℕ → RoomManager E → RoomManager E × Option (Room E)
  create_room ops id users t rm =
      if length users == 4 && t == 0
      then elim (find_prototype t rm.engine_prototypes) [
        | none ↦ (rm, none)
        | some prototype ↦ elim (ops.clone prototype) [
          | none ↦ (rm, none)
          | some engine ↦ enter_room ops (new_room id engine users) rm
        ]
      ]
      else (rm, none)

  unfoldable pub get_room : String → RoomManager E → Option (Room E)
  get_room id rm = get id rm.rooms

  unfoldable pub get_player_room : String → RoomManager E → Option (Room E)
  get_player_room user rm = elim (get user rm.player_room) [
    | none ↦ none
    | some id ↦ get id rm.rooms
  ]

  -- `UpdatePlayerConnector`: the user is shared with the room, so that the room changes.
  unfoldable pub update_player_connector : String → String → RoomManager E → RoomManager E × Bool
  update_player_connector user connector rm = elim (get user rm.player_room) [
    | none ↦ (rm, false)
    | some id ↦ elim (get id rm.rooms) [
      | none ↦ (rm, false)
      | some room ↦ elim (get_player user room) [
        | none ↦ (rm, false)
        | some info ↦ (
          record rm {
            rooms =
                put id (record room { users = put user (set_online connector info) room.users })
                  rm.rooms;
          },
          true,
        )
      ]
    ]
  ]

  unfoldable pub get_all_rooms : RoomManager E → List (Room E)
  get_all_rooms rm = map (λ (entry : String × Room E). entry.1) rm.rooms

  -- The set of players that `GetStats` counts.
  unfoldable pub player_set : Map (Room E) → Map Bool
  player_set [] = []
  player_set ((id, room) ∷ rs) = put_all (keys room.users) true (player_set rs)

  unfoldable pub get_stats : RoomManager E → ℕ × ℕ
  get_stats rm = (length rm.rooms, length (player_set rm.rooms))
