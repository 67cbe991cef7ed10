-- ===== src/Rooms/Routes.antt =====
-- The routes of the players and the rooms of game/runtime/room_manager.go belong together.
use go_mahjong.Common.{
  ℕ, ◌≡◌, inl, inr, refl, sym, ap, subst, ◌∙◌, true, List, none, some, length, arith, Bool-cases,
  Option-cases,
}
use go_mahjong.Common.Maps.{
  String, Map, same, same_iff, is_some, among, get, put, remove, keys, put_all, remove_all,
  get-remove, get-put, get-put_all, get-remove_all, among-keys,
}
use go_mahjong.Rooms.{
  Engines, Room, RoomManager, delete_room, enter_room, create_room, new_room, find_prototype,
}

-- Every room stands under its own identifier, its players are routed to it, and a route leads to a
-- room with the player.
pub record IsLinked {E : Type 0} (rm : RoomManager E) : Type 0 where
  pub named : (id : String) (r : Room E) → get id rm.rooms ≡ some r → r.id ≡ id
  pub routed :
      (id u : String) (r : Room E)
      → get id rm.rooms ≡ some r
      → is_some (get u r.users) ≡ true
      → get u rm.player_room ≡ some id
  pub housed :
      (u id : String)
      → get u rm.player_room ≡ some id
      → (r : Room E) × (get id rm.rooms ≡ some r) × (is_some (get u r.users) ≡ true)

module _ {E : Type 0} (id : String) (room : Room E) (rm : RoomManager E) (linked : IsLinked rm)
    (found : get id rm.rooms ≡ some room) where
  removed : RoomManager E
  removed = record rm {
    rooms = remove id rm.rooms;
    player_room = remove_all (keys room.users) rm.player_room;
  }

  removed-IsLinked : IsLinked removed
  unfolding removed
  removed-IsLinked = record {
    named = λ i r e. linked.named i r (ground (arith, get-remove id i rm.rooms));
    routed = λ i u r e h.
        let old = linked.routed i u r (ground (arith, get-remove id i rm.rooms)) h in
        ground (
          arith,
          old,
          get-remove id i rm.rooms,
          get-remove_all (keys room.users) u rm.player_room,
          among-keys u room.users,
          linked.routed id u room found,
          same_iff id i,
        );
    housed = λ u i e.
        let (r, at, inside) =
          linked.housed u i (ground (arith, get-remove_all (keys room.users) u rm.player_room)) in
        (
          r,
          ground (
            arith,
            at,
            inside,
            get-remove id i rm.rooms,
            get-remove_all (keys room.users) u rm.player_room,
            among-keys u room.users,
            same_iff id i,
            found,
            ap (λ (j : String). get j rm.rooms) {x = id} {y = i},
          ),
          inside,
        );
  }

-- What `DeleteRoom` does, on both branches.
module _ {E : Type 0} (ops : Engines E) (id : String) (rm : RoomManager E) where
  pub delete_room-IsLinked : IsLinked rm → IsLinked (delete_room ops id rm).0
  unfolding delete_room removed
  delete_room-IsLinked linked = elim (Option-cases (get id rm.rooms)) [
    | inl e ↦ rw (e, delete_room) linked
    | inr (room, e) ↦ rw (e, delete_room) (removed-IsLinked id room rm linked e)
  ]

-- A room is added under a new identifier, for players who have no route.
module _ {E : Type 0} (room : Room E) (rm : RoomManager E) (users : List String)
    (same_users : (u : String) → among u users ≡ is_some (get u room.users)) (linked : IsLinked rm)
    (new_id : get room.id rm.rooms ≡ none)
    (unrouted : (u : String) → among u users ≡ true → get u rm.player_room ≡ none) where
  abbrev pub added : RoomManager E
  added = record rm {
    rooms = put room.id room rm.rooms;
    player_room = put_all users room.id rm.player_room;
  }

  pub added-IsLinked : IsLinked added
  added-IsLinked = record {
    named = λ i r e. elim (Bool-cases (same room.id i)) [
      | inl here ↦ named_here i r here (ground (arith, get-put room.id i room rm.rooms))
      | inr other ↦ linked.named i r (ground (arith, get-put room.id i room rm.rooms))
    ];
    routed = λ i u r e h. elim (Bool-cases (same room.id i)) [
      | inl here ↦
          let inside = user_here u r (ground (arith, get-put room.id i room rm.rooms)) h in
          ground (arith, inside, get-put_all users u room.id rm.player_room, same_iff room.id i)
      | inr other ↦
          let old = linked.routed i u r (ground (arith, get-put room.id i room rm.rooms)) h in
          ground (arith, old, unrouted u, get-put_all users u room.id rm.player_room)
    ];
    housed = λ u i e. elim (Bool-cases (among u users)) [
      | inl here ↦ (
        room,
        ground (
          arith,
          get-put room.id i room rm.rooms,
          get-put_all users u room.id rm.player_room,
          same_iff room.id i,
        ),
        sym (same_users u) ∙ here,
      )
      | inr other ↦
          let (r, at, inside) =
            linked.housed u i (ground (arith, get-put_all users u room.id rm.player_room)) in
          (
            r,
            ground (
              arith,
              at,
              new_id,
              get-put room.id i room rm.rooms,
              same_iff room.id i,
              ap (λ (j : String). get j rm.rooms) {x = room.id} {y = i},
            ),
            inside,
          )
    ];
  }
    where
      named_here : (i : String) (r : Room E) → same room.id i ≡ true → room ≡ r → r.id ≡ i
      named_here i r e e' = subst (λ (x : Room E). x.id ≡ i) e' ((same_iff room.id i).0 e)

      user_here :
          (u : String) (r : Room E)
          → room ≡ r
          → is_some (get u r.users) ≡ true
          → among u users ≡ true
      user_here u r e h = same_users u ∙ ap (λ (x : Room E). is_some (get u x.users)) e ∙ h

-- A user of a room has the key of one of its users.
pub started_users :
    {E : Type 0} (ops : Engines E) (room : Room E) (u : String)
    → among u (keys room.users)
      ≡ is_some (get u (ops.initialize room.id room.users room.engine).0.1)
started_users ops room u =
    sym (ap (among u) (ops.keys-initialize room.id room.users room.engine))
    ∙ among-keys u (ops.initialize room.id room.users room.engine).0.1

-- The guard of `CreateRoom` passes, and the engine is there.
pub record CanCreate {E : Type 0} (ops : Engines E) (users : Map String) (t : ℕ)
    (rm : RoomManager E) (engine : E) : Type 0 where
  pub four : length users ≡ 4
  pub type : t ≡ 0
  pub prototype : E
  pub found : find_prototype t rm.engine_prototypes ≡ some prototype
  pub cloned : ops.clone prototype ≡ some engine

pub create_room-enter_room :
    {E : Type 0} (ops : Engines E) (id : String) (users : Map String) (t : ℕ) (rm : RoomManager E)
    (engine : E)
    → CanCreate ops users t rm engine
    → create_room ops id users t rm ≡ enter_room ops (new_room id engine users) rm
unfolding create_room
create_room-enter_room ops id users t rm engine can =
    rw (can.four, can.type)
      (rw
        (
          ap (λ (n : ℕ). find_prototype n rm.engine_prototypes) (sym can.type) ∙ can.found,
          can.cloned,
          create_room,
        )
        refl)
