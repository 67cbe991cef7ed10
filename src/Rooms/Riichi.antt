-- ===== src/Rooms/Riichi.antt =====
-- `InitializeEngine` of game/runtime/engines/mahjong/riichi_mahjong_4p_engine.go, and the engine as one of rooms.
use go_mahjong.Common.{
  ℕ, ◌+◌, ◌≡◌, refl, ap, ◌∙◌, Bool, true, false, List, [], ◌∷◌, Option, none, some, set,
  if◌then◌else◌, Perm,
}
use go_mahjong.Common.Int.{pos}
use go_mahjong.Common.Maps.{String, Map, same, keys}
use go_mahjong.Player.{PlayerImage, new_player_image}
use go_mahjong.Turn.{PlayerTicker, new_player_ticker, new_turn_manager}
use go_mahjong.Deck.{new_deck_manager}
use go_mahjong.Engine.{RiichiMahjong4p}
use go_mahjong.Rooms.{UserInfo, Engines}
use go_mahjong.Rooms.Trace.{NeverFails}

-- The order in which Go visits the users.
pub record UserOrder : Type 0 where
  pub visit : Map UserInfo → Map UserInfo
  pub visit-perm : (users : Map UserInfo) → Perm (visit users) users

-- `userInfo.SeatIndex = seatIndex`, of a user whom the room and the engine share.
unfoldable pub set_seat : String → ℕ → Map UserInfo → Map UserInfo
set_seat user seat [] = []
set_seat user seat ((u, info) ∷ us) =
    let rest = set_seat user seat us in
    (u, if same u user then record info { seat_index = seat } else info) ∷ rest

-- The loop over the users, who are four, from seat `i` on.
unfoldable pub seat_users : Map UserInfo → ℕ → Map UserInfo → Map UserInfo
seat_users [] i users = users
seat_users ((u, info) ∷ us) i users = seat_users us (i + 1) (set_seat u i users)

unfoldable pub seat_map : Map UserInfo → ℕ → List (String × ℕ)
seat_map [] i = []
seat_map ((u, info) ∷ us) i = (u, i) ∷ seat_map us (i + 1)

unfoldable pub seat_players :
    Map UserInfo → ℕ → List (Option PlayerImage) → List (Option PlayerImage)
seat_players [] i players = players
seat_players ((u, info) ∷ us) i players =
    seat_players us (i + 1) (set players i (some (new_player_image info.user_id i (pos 25000))))

unfoldable pub seat_tickers : Map UserInfo → List PlayerTicker
seat_tickers [] = []
seat_tickers ((u, info) ∷ us) = new_player_ticker 30 ∷ seat_tickers us

unfoldable pub initialize_engine :
    UserOrder → String → Map UserInfo → RiichiMahjong4p → (RiichiMahjong4p × Map UserInfo) × Bool
initialize_engine order id users eg =
    let seated = order.visit users in
    (
      (
        record eg {
          user_map = seat_map seated 0;
          closed = false;
          game_events = [];
          players = seat_players seated 0 eg.players;
          turn_manager = new_turn_manager (seat_tickers seated);
        },
        seat_users seated 0 users,
      ),
      true,
    )

keys-set_seat :
    (user : String) (seat : ℕ) (users : Map UserInfo) → keys (set_seat user seat users) ≡ keys users
unfolding keys set_seat
keys-set_seat user seat [] = refl
keys-set_seat user seat ((u, info) ∷ us) = ap (◌∷◌ u) (keys-set_seat user seat us)

keys-seat_users :
    (seated : Map UserInfo) (i : ℕ) (users : Map UserInfo)
    → keys (seat_users seated i users) ≡ keys users
unfolding seat_users
keys-seat_users [] i users = refl
keys-seat_users ((u, info) ∷ us) i users =
    keys-seat_users us (i + 1) (set_seat u i users) ∙ keys-set_seat u i users

pub keys-initialize_engine :
    (order : UserOrder) (id : String) (users : Map UserInfo) (eg : RiichiMahjong4p)
    → keys (initialize_engine order id users eg).0.1 ≡ keys users
unfolding initialize_engine
keys-initialize_engine order id users eg = keys-seat_users (order.visit users) 0 users

-- `Clone`: a new engine with the situation of the old one. A clock that is nil until the engine is
-- initialised has no tickers here.
unfoldable pub clone_engine : RiichiMahjong4p → Option RiichiMahjong4p
clone_engine eg = some (record {
  user_map = [];
  situation = eg.situation;
  players = none ∷ none ∷ none ∷ none ∷ [];
  deck_manager = some (new_deck_manager true);
  turn_manager = new_turn_manager [];
  last_discard = record { seat = 0; tile = record { type = 0; id = 0 }; valid = false };
  game_events = [];
  closed = false;
  reactions = [];
  destroyed = false;
})

-- `Close`, once the goroutine of the engine has ended.
unfoldable pub close_engine : RiichiMahjong4p → RiichiMahjong4p
close_engine eg = record eg {
  closed = true;
  turn_manager = new_turn_manager [];
  reactions = [];
  user_map = [];
  players = none ∷ none ∷ none ∷ none ∷ [];
  deck_manager = none;
}

-- The engine of riichi mahjong.
unfoldable pub riichi_engines : UserOrder → Engines RiichiMahjong4p
riichi_engines order = record {
  clone = clone_engine;
  initialize = initialize_engine order;
  close = close_engine;
  keys-initialize = keys-initialize_engine order;
}

pub riichi_engines-NeverFails : (order : UserOrder) → NeverFails (riichi_engines order)
unfolding riichi_engines initialize_engine
riichi_engines-NeverFails order id users eg = refl
