-- ===== src/Rooms/Trace.antt =====
-- Any sequence of calls of the room manager, and what `CreateRoom` leaves behind.
use go_mahjong.Common.{
  ℕ, ◌≡◌, inl, inr, refl, sym, ap, ◌∙◌, true, ◌&&◌, [], ◌∷◌, Option, none, some, ◌==◌, length,
  arith, Bool-cases, Option-cases,
}
use go_mahjong.Common.Maps.{String, Map, same, same_iff, is_some, among, get, put, keys, get-put}
use go_mahjong.Rooms.{
  UserInfo, Engines, Room, RoomManager, user_infos, set_online, set_engine_prototype, get_player,
  delete_room, enter_room, create_room, new_room, find_prototype, update_player_connector,
}
use go_mahjong.Rooms.Routes.{IsLinked, added-IsLinked, started_users, delete_room-IsLinked}

pub keys-user_infos : (users : Map String) → keys (user_infos users) ≡ keys users
unfolding keys user_infos
keys-user_infos [] = refl
keys-user_infos ((u, c) ∷ us) = ap (◌∷◌ u) (keys-user_infos us)

-- The engine's `InitializeEngine` returns no error.
abbrev pub NeverFails : {E : Type 0} → Engines E → Type 0
NeverFails {E} ops =
    (id : String) (users : Map UserInfo) (e : E) → (ops.initialize id users e).1 ≡ true

enter_room-IsLinked :
    {E : Type 0} (ops : Engines E) (room : Room E) (rm : RoomManager E)
    → NeverFails ops
    → IsLinked rm
    → get room.id rm.rooms ≡ none
    → ((u : String) → among u (keys room.users) ≡ true → get u rm.player_room ≡ none)
    → IsLinked (enter_room ops room rm).0
unfolding enter_room
enter_room-IsLinked ops room rm fine linked new_id unrouted =
    rw (fine room.id room.users room.engine)
      (added-IsLinked _ rm (keys room.users) (started_users ops room) linked new_id unrouted)

create_room-IsLinked :
    {E : Type 0} (ops : Engines E) (id : String) (users : Map String) (t : ℕ) (rm : RoomManager E)
    → NeverFails ops
    → IsLinked rm
    → get id rm.rooms ≡ none
    → ((u : String) → among u (keys users) ≡ true → get u rm.player_room ≡ none)
    → IsLinked (create_room ops id users t rm).0
unfolding create_room new_room
create_room-IsLinked ops id users t rm fine linked new_id unrouted =
    elim (Bool-cases (length users == 4 && t == 0)) [
      | inr refused ↦ rw refused linked
      | inl passes ↦ elim (Option-cases (find_prototype t rm.engine_prototypes)) [
        | inl e ↦ rw (passes, e, create_room) linked
        | inr (prototype, e) ↦ elim (Option-cases (ops.clone prototype)) [
          | inl e' ↦ rw (passes, e, e', create_room) linked
          | inr (engine, e') ↦
              rw (passes, e, e', create_room)
                (enter_room-IsLinked ops (new_room id engine users) rm fine linked new_id
                  (λ u h. unrouted u (ap (among u) (sym (keys-user_infos users)) ∙ h)))
        ]
      ]
    ]

-- Updating a connector changes no user's room.
updated_users :
    (m : Map UserInfo) (user u : String) (info pi : UserInfo)
    → get user m ≡ some info
    → is_some (get u (put user pi m)) ≡ is_some (get u m)
updated_users m user u info pi e = ground (
  arith,
  get-put user u pi m,
  e,
  same_iff user u,
  ap (λ (k : String). get k m) {x = user} {y = u},
)

module _ {E : Type 0} (id : String) (room started : Room E) (rm : RoomManager E)
    (same_id : started.id ≡ room.id)
    (same_users : (u : String) → is_some (get u started.users) ≡ is_some (get u room.users))
    (found : get id rm.rooms ≡ some room) (linked : IsLinked rm) where
  -- A room is put in the place of one with the same users.
  replaced-IsLinked : IsLinked (record rm { rooms = put id started rm.rooms })
  replaced-IsLinked = record {
    named = λ i r e. elim (Bool-cases (same id i)) [
      | inl here ↦
          let e' : started ≡ r = ground (arith, get-put id i started rm.rooms) in
          ap (λ (x : Room E). x.id) (sym e')
          ∙ same_id
          ∙ linked.named id room found
          ∙ (same_iff id i).0 here
      | inr other ↦ linked.named i r (ground (arith, get-put id i started rm.rooms))
    ];
    routed = λ i u r e h. elim (Bool-cases (same id i)) [
      | inl here ↦
          let e' : started ≡ r = ground (arith, get-put id i started rm.rooms) in
          let inside = sym (same_users u) ∙ ap (λ (x : Room E). is_some (get u x.users)) e' ∙ h in
          linked.routed id u room found inside
          ∙ ap (λ (j : String). some j) ((same_iff id i).0 here)
      | inr other ↦ linked.routed i u r (ground (arith, get-put id i started rm.rooms)) h
    ];
    housed = λ u i e.
        let (r, at, inside) = linked.housed u i e in
        elim (Bool-cases (same id i)) [
          | inl here ↦
              let e' : room ≡ r =
                ground (
                  arith,
                  at,
                  found,
                  ap (λ (j : String). get j rm.rooms) ((same_iff id i).0 here),
                ) in
              (
                started,
                ground (arith, get-put id i started rm.rooms),
                same_users u ∙ ap (λ (x : Room E). is_some (get u x.users)) e' ∙ inside,
              )
          | inr other ↦ (r, ground (arith, at, get-put id i started rm.rooms), inside)
        ];
  }

update_player_connector-IsLinked :
    {E : Type 0} (user connector : String) (rm : RoomManager E)
    → IsLinked rm
    → IsLinked (update_player_connector user connector rm).0
unfolding update_player_connector get_player
update_player_connector-IsLinked user connector rm linked =
    elim (Option-cases (get user rm.player_room)) [
      | inl e ↦ rw (e, update_player_connector) linked
      | inr (id, e) ↦ elim (Option-cases (get id rm.rooms)) [
        | inl e' ↦ rw (e, e', update_player_connector) linked
        | inr (room, e') ↦ elim (Option-cases (get user room.users)) [
          | inl e'' ↦ rw (e, e', e'', update_player_connector, get_player) linked
          | inr (info, e'') ↦
              rw (e, e', e'', update_player_connector, get_player)
                (replaced-IsLinked id room _ rm refl
                  (λ u. updated_users room.users user u info (set_online connector info) e'') e'
                  linked)
        ]
      ]
    ]

-- The calls of a room manager, one after the other. A room has an identifier of its own, and its
-- players have no room.
pub data Calls {E : Type 0} (ops : Engines E) : RoomManager E → RoomManager E → Type 0 where
  done : {rm : RoomManager E} → Calls ops rm rm
  create :
      {rm rm' : RoomManager E} (id : String) (users : Map String) (t : ℕ)
      → get id rm.rooms ≡ none
      → ((u : String) → among u (keys users) ≡ true → get u rm.player_room ≡ none)
      → Calls ops (create_room ops id users t rm).0 rm'
      → Calls ops rm rm'
  delete :
      {rm rm' : RoomManager E} (id : String)
      → Calls ops (delete_room ops id rm).0 rm'
      → Calls ops rm rm'
  update :
      {rm rm' : RoomManager E} (user connector : String)
      → Calls ops (update_player_connector user connector rm).0 rm'
      → Calls ops rm rm'
  inject :
      {rm rm' : RoomManager E} (t : ℕ) (e : Option E)
      → Calls ops (set_engine_prototype t e rm).0 rm'
      → Calls ops rm rm'

set_engine_prototype-IsLinked :
    {E : Type 0} (t : ℕ) (e : Option E) (rm : RoomManager E)
    → IsLinked rm
    → IsLinked (set_engine_prototype t e rm).0
unfolding set_engine_prototype
set_engine_prototype-IsLinked t none rm l = l
set_engine_prototype-IsLinked t (some e) rm l = record {
  named = l.named;
  routed = l.routed;
  housed = l.housed;
}

-- Whatever rooms are created, under new identifiers and for players without a room, deleted or
-- updated, with engines whose InitializeEngine returns no error, the routes and the rooms belong
-- together: each room stands under its identifier, its players are routed to it, and a route
-- leads to a room with the player.
pub Calls-IsLinked :
    {E : Type 0} (ops : Engines E) {rm rm' : RoomManager E}
    → NeverFails ops
    → Calls ops rm rm'
    → IsLinked rm
    → IsLinked rm'
Calls-IsLinked ops fine done l = l
Calls-IsLinked ops {rm} fine (create id users t new_id unrouted rest) l =
    Calls-IsLinked ops fine rest (create_room-IsLinked ops id users t rm fine l new_id unrouted)
Calls-IsLinked ops {rm} fine (delete id rest) l =
    Calls-IsLinked ops fine rest (delete_room-IsLinked ops id rm l)
Calls-IsLinked ops {rm} fine (update user connector rest) l =
    Calls-IsLinked ops fine rest (update_player_connector-IsLinked user connector rm l)
Calls-IsLinked ops {rm} fine (inject t e rest) l =
    Calls-IsLinked ops fine rest (set_engine_prototype-IsLinked t e rm l)
