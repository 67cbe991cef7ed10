-- ===== src/Examples/Seating.antt =====
-- Rooms with a small engine.
use Prim.Native.String.{String}
use go_mahjong.Common.{ℕ, ◌≡◌, refl, true, false, [], ◌∷◌, none, some, if◌then◌else◌}
use go_mahjong.Common.Maps.{Map, is_some, among, get, keys}
use go_mahjong.Rooms.{
  Engines, Room, RoomManager, new_room_manager, set_engine_prototype, create_room, delete_room,
  get_player_room, user_infos, find_prototype,
}
use go_mahjong.Rooms.Routes.{IsLinked, CanCreate}
use go_mahjong.Rooms.Trace.{done, create, delete, inject, Calls-IsLinked}
use go_mahjong.Rooms.Riichi.{UserOrder, riichi_engines, riichi_engines-NeverFails}
use go_mahjong.Engine.{RiichiMahjong4p}
use go_mahjong.Examples.{game}
use mathlib.Core.List.Perm
use go_mahjong.Rooms.Created.{started, get_player_room-create_room, delete_room-create_room}

-- An engine is a number.
abbrev engines : Engines ℕ
engines = record {
  clone = λ e. some e;
  initialize = λ id users e. ((e, users), true);
  close = λ e. 0;
  keys-initialize = λ id users e. refl;
}

abbrev four : Map String
four = ("ann", "c1") ∷ ("bob", "c1") ∷ ("cem", "c2") ∷ ("dee", "c2") ∷ []

abbrev node : RoomManager ℕ
node = (set_engine_prototype 0 (some 7) new_room_manager).0

-- A node with the engine of riichi mahjong, which visits the users as they come.
abbrev as_they_come : UserOrder
as_they_come = record { visit = λ us. us; visit-perm = λ us. Perm.refl us }

abbrev riichi_node : RoomManager RiichiMahjong4p
riichi_node = (set_engine_prototype 0 (some game) new_room_manager).0

no_rooms-IsLinked : IsLinked (new_room_manager {E = RiichiMahjong4p})
unfolding new_room_manager get
no_rooms-IsLinked = record { named = λ i r e. cc; routed = λ i u r e h. cc; housed = λ u i e. cc }

Calls-IsLinked_example :
    let ops = riichi_engines as_they_come in
    IsLinked (delete_room ops "one" (create_room ops "one" four 0 riichi_node).0).0
unfolding new_room_manager set_engine_prototype get
Calls-IsLinked_example =
    Calls-IsLinked (riichi_engines as_they_come) (riichi_engines-NeverFails as_they_come)
      (inject 0 (some game) (create "one" four 0 refl (λ u h. refl) (delete "one" done)))
      no_rooms-IsLinked

node-CanCreate : CanCreate engines four 0 node 7
unfolding new_room_manager set_engine_prototype find_prototype
node-CanCreate = record { four = refl; type = refl; prototype = 7; found = refl; cloned = refl }

node-IsLinked : IsLinked node
unfolding new_room_manager set_engine_prototype get
node-IsLinked = record { named = λ i r e. cc; routed = λ i u r e h. cc; housed = λ u i e. cc }

get_player_room-create_room_example :
    get_player_room "bob" (create_room engines "one" four 0 node).0 ≡ (
      if among "bob" (keys four)
      then some (started engines "one" four 0 node 7 node-CanCreate)
      else get_player_room "bob" node)
unfolding new_room_manager set_engine_prototype get
get_player_room-create_room_example =
    get_player_room-create_room engines "one" four 0 node 7 node-CanCreate refl "bob" refl
      node-IsLinked

-- A node on which the four play already.
abbrev old_room : Room ℕ
old_room = record { id = "old"; users = user_infos four; allow_watch = false; engine = 7 }

abbrev playing : RoomManager ℕ
playing = record {
  rooms = ("old", old_room) ∷ [];
  player_room = ("ann", "old") ∷ ("bob", "old") ∷ ("cem", "old") ∷ ("dee", "old") ∷ [];
  engine_prototypes = (0, 7) ∷ [];
}

playing-CanCreate : CanCreate engines four 0 playing 7
unfolding find_prototype
playing-CanCreate = record { four = refl; type = refl; prototype = 7; found = refl; cloned = refl }

delete_room-create_room_example :
    let rm = (delete_room engines "old" (create_room engines "two" four 0 playing).0).0 in
    let room = started engines "two" four 0 playing 7 playing-CanCreate in
    (get "two" rm.rooms ≡ some room)
    × (is_some (get "bob" room.users) ≡ true)
    × (get_player_room "bob" rm ≡ none)
unfolding get among keys user_infos
delete_room-create_room_example =
    delete_room-create_room engines "two" four 0 playing 7 playing-CanCreate refl "bob" "old"
      old_room refl refl refl refl
