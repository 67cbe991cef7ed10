-- ===== src/Rooms/Created.antt =====
-- What `CreateRoom` of game/runtime/room_manager.go does where its guards pass.
use go_mahjong.Common.{
  ℕ, ◌≡◌, inl, inr, refl, sym, ap, ◌∙◌, true, false, Option, none, some, if◌then◌else◌, arith,
  Bool-cases, Option-cases,
}
use go_mahjong.Common.Maps.{
  String, Map, same, same_iff, same_refl, is_some, among, get, put, remove, keys, put_all,
  remove_all, get-put, get-put_all, get-remove, get-remove_all, among-keys,
}
use go_mahjong.Rooms.{
  Engines, Room, RoomManager, user_infos, cleanup_room, delete_room, enter_room, create_room,
  new_room, get_player_room,
}
use go_mahjong.Rooms.Routes.{IsLinked, CanCreate, create_room-enter_room}
use go_mahjong.Rooms.Trace.{keys-user_infos}

module _ {E : Type 0} (rm : RoomManager E) where
  by_route :
      (u id : String) → get u rm.player_room ≡ some id → get_player_room u rm ≡ get id rm.rooms
  unfolding get_player_room
  by_route u id e = rw (e, get_player_room) refl

  no_route : (u : String) → get u rm.player_room ≡ none → get_player_room u rm ≡ none
  unfolding get_player_room
  no_route u e = rw (e, get_player_room) refl

  cleanup_missing : (id : String) → get id rm.rooms ≡ none → cleanup_room id rm ≡ rm
  unfolding cleanup_room
  cleanup_missing id e = rw (e, cleanup_room) refl

  delete_found :
      (ops : Engines E) (id : String) (room : Room E)
      → get id rm.rooms ≡ some room
      → (delete_room ops id rm).0 ≡ record rm {
        rooms = remove id rm.rooms;
        player_room = remove_all (keys room.users) rm.player_room;
      }
  unfolding delete_room
  delete_found ops id room e = rw (e, delete_room) refl

module _ {E : Type 0} (ops : Engines E) (id : String) (users : Map String) (t : ℕ)
    (rm : RoomManager E) (engine : E) (can : CanCreate ops users t rm engine) where
  -- What `InitializeEngine` makes of the new room.
  abbrev pub started : Room E
  started =
      let ((e, infos), ok) = ops.initialize id (user_infos users) engine in
      record { id = id; users = infos; allow_watch = false; engine = e }

  among_started : (u : String) → among u (keys users) ≡ is_some (get u started.users)
  among_started u =
      ap (among u) (sym (ops.keys-initialize id (user_infos users) engine ∙ keys-user_infos users))
      ∙ among-keys u started.users

  pub created :
      (ops.initialize id (user_infos users) engine).1 ≡ true
      → create_room ops id users t rm ≡ (
        record rm {
          rooms = put id started rm.rooms;
          player_room = put_all (keys users) id rm.player_room;
        },
        some started,
      )
  unfolding enter_room new_room
  created ok =
      create_room-enter_room ops id users t rm engine can ∙ rw (ok, keys-user_infos users) refl

  -- Where its guards pass, InitializeEngine returns no error, the identifier is new, and the
  -- routes belong to the rooms, CreateRoom leads each of the new players to the new room and
  -- leaves everyone else in theirs.
  pub get_player_room-create_room :
      (ops.initialize id (user_infos users) engine).1 ≡ true
      → (u : String) → get id rm.rooms ≡ none
      → IsLinked rm
      → get_player_room u (create_room ops id users t rm).0
        ≡ (if among u (keys users) then some started else get_player_room u rm)
  get_player_room-create_room ok u new_id linked =
      let rm' = (create_room ops id users t rm).0 in
      let e = created ok in
      let route : get u rm'.player_room
          ≡ (if among u (keys users) then some id else get u rm.player_room) =
        ap (λ (x : RoomManager E × Option (Room E)). get u x.0.player_room) e
        ∙ get-put_all (keys users) u id rm.player_room in
      let at : (i : String)
          → get i rm'.rooms ≡ (if same id i then some started else get i rm.rooms) =
        λ i.
          ap (λ (x : RoomManager E × Option (Room E)). get i x.0.rooms) e
          ∙ get-put id i started rm.rooms in
      elim (Bool-cases (among u (keys users))) [
        | inl here ↦
            rw here
              (by_route rm' u id (ground (arith, route)) ∙ ground (arith, at id, same_refl id))
        | inr other ↦ elim (Option-cases (get u rm.player_room)) [
          | inl e' ↦ rw other (no_route rm' u (ground (arith, route)) ∙ sym (no_route rm u e'))
          | inr (i, e') ↦
              let (r, there, _) = linked.housed u i e' in
              rw other (
                by_route rm' u i (ground (arith, route))
                ∙ ground (
                  arith,
                  at i,
                  there,
                  new_id,
                  same_iff id i,
                  ap (λ (j : String). get j rm.rooms) {x = id} {y = i},
                )
                ∙ sym (by_route rm u i e'))
        ]
      ]

  -- If CreateRoom, with a new identifier and InitializeEngine without an error, is given a
  -- player who is in an old room, deleting the old room takes the route of the player away,
  -- though the new room stays and has the player.
  pub delete_room-create_room :
      (ops.initialize id (user_infos users) engine).1 ≡ true
      → (u old : String) (room : Room E) → among u (keys users) ≡ true
      → get old rm.rooms ≡ some room
      → is_some (get u room.users) ≡ true
      → get id rm.rooms ≡ none
      → let rm' = (delete_room ops old (create_room ops id users t rm).0).0 in
        (get id rm'.rooms ≡ some started)
        × (is_some (get u started.users) ≡ true)
        × (get_player_room u rm' ≡ none)
  delete_room-create_room ok u old room inside found there new_id =
      let rm' : RoomManager E = record rm {
        rooms = put id started rm.rooms;
        player_room = put_all (keys users) id rm.player_room;
      } in
      let apart : same id old ≡ false = ground (
        arith,
        new_id,
        found,
        same_iff id old,
        ap (λ (j : String). get j rm.rooms) {x = id} {y = old},
      ) in
      let still : get old rm'.rooms ≡ some room = ground (arith, get-put id old started rm.rooms) in
      rw (created ok) (
        rw (delete_found rm' ops old room still) (
          ground (
            arith,
            get-remove old id rm'.rooms,
            get-put id id started rm.rooms,
            same_refl id,
            apart,
            same_iff old id,
            same_iff id old,
          ),
          sym (among_started u) ∙ inside,
          no_route _ u (
              ground (
                arith,
                get-remove_all (keys room.users) u rm'.player_room,
                among-keys u room.users,
              )),
        ))
