-- ===== src/Engine/Rounds/Dealing.antt =====
-- How many tiles each player holds when a round starts.
use go_mahjong.Common.{
  ℕ, zero, suc, ◌+◌, ◌-◌, ◌≤◌, ◌<◌, ◌≡◌, refl, ◌∙◌, ap, Bool, true, false, List, [], ◌∷◌, Option,
  none, some, arith, ltb, leb, ◌==◌, if◌then◌else◌, length, get_or, count_by, length-take,
  length-perm, Bool-cases, inl, inr,
}
use go_mahjong.Tiles.{Tile, zero_tile, new_tile_deck}
use go_mahjong.Tiles.Generate.{length-new_tile_deck}
use go_mahjong.Deck.{
  Rng, DeckManager, draw, deal, init_round, fill_round, reveal_dora_indicator, new_deck_manager,
}
use go_mahjong.Player.{PlayerImage, add_tile, draw_tile}
use go_mahjong.Turn.{enter_drop_phase}
use go_mahjong.Engine.{RiichiMahjong4p, update_player, happen_damage_error, terminate}
use go_mahjong.Engine.Ending.Points.{Seated, sits}
use go_mahjong.Engine.Turns.{drop_turn, enter_drop}
use go_mahjong.Engine.Rounds.Hands.{hand_size, Grown, give_one, add_tile-longer, draw_tile-longer}
use go_mahjong.Engine.Rounds.{
  clear_player, clear_players, deal_loop, repeat_seats, distribute_card, handle_start_round_event,
}

-- So many tiles are left in the wall.
abbrev pub HasLeft : ℕ → DeckManager → Type 0
HasLeft n dm = dm.wall_index + n ≤ length dm.wall

draw-some :
    (n : ℕ) (dm : DeckManager)
    → HasLeft (suc n) dm
    → (t : Tile) × ((draw dm).1 ≡ some t) × HasLeft n (draw dm).0
unfolding draw
draw-some n dm h =
    let more : leb (length dm.wall) dm.wall_index ≡ false = ground (arith, h) in
    simp (more, draw) (get_or dm.wall dm.wall_index zero_tile, refl, omega (arith, h))

deal-some :
    (n : ℕ) (dm : DeckManager)
    → HasLeft (suc n) dm
    → (t : Tile) × ((deal dm).1 ≡ some t) × HasLeft n (deal dm).0
unfolding deal
deal-some n dm h = draw-some n dm h

-- A deal that the wall suffices for.
pub record Dealt (n : ℕ) (seats : List ℕ) (ps : List (Option PlayerImage))
    (result : DeckManager × List (Option PlayerImage) × Bool) : Type 0 where
  pub ok : result.2 ≡ true
  pub left : HasLeft n result.0
  pub grown : Grown ps result.1 (λ i. count_by (λ s. s == i) seats)

deal_loop-Dealt :
    (n : ℕ) (seats : List ℕ) (dm : DeckManager) (ps : List (Option PlayerImage))
    → Seated ps
    → HasLeft (n + length seats) dm
    → Dealt n seats ps (deal_loop seats dm ps)
unfolding deal_loop
deal_loop-Dealt n [] dm ps s h = record {
  ok = refl;
  left = omega (arith, h);
  grown = record { seated = s; same_length = refl; sizes = λ i k. omega arith };
}
deal_loop-Dealt n (seat ∷ seats) dm ps s h =
    let (t, e, left) = deal-some (n + length seats) dm (omega (arith, h)) in
    let one = give_one (add_tile t) seat ps (add_tile-longer t) s in
    let rest =
      deal_loop-Dealt n seats (deal dm).0 (update_player seat (add_tile t) ps) one.seated left in
    simp (e, deal_loop)
      (record {
        ok = rest.ok;
        left = rest.left;
        grown = record {
          seated = rest.grown.seated;
          same_length = rest.grown.same_length ∙ one.same_length;
          sizes = λ i k.
              ground (arith, rest.grown.sizes i (omega (arith, k, one.same_length)), one.sizes i k);
        };
      })

empty_then :
    (q : PlayerImage) (qs : List (Option PlayerImage))
    → length q.tiles ≡ 0
    → ((i : ℕ) → hand_size qs i ≡ 0)
    → (i : ℕ) → hand_size (some q ∷ qs) i ≡ 0
empty_then q qs none_held rest zero = none_held
empty_then q qs none_held rest (suc i) = rest i

clear_players-empty :
    (ps : List (Option PlayerImage))
    → Seated ps
    → Seated (clear_players ps)
      × (length (clear_players ps) ≡ length ps)
      × ((i : ℕ) → hand_size (clear_players ps) i ≡ 0)
unfolding clear_players clear_player
clear_players-empty [] s = (s, refl, λ i. refl)
clear_players-empty (none ∷ ps) s = elim s [ ]
clear_players-empty (some p ∷ ps) (sits _ _ s) =
    let (seated, size, sizes) = clear_players-empty ps s in
    (sits _ _ seated, ap suc size, empty_then (clear_player p) (clear_players ps) refl sizes)

thirteen_each : (i : ℕ) → i < 4 → count_by (λ s. s == i) (repeat_seats 13) ≡ 13
thirteen_each zero h = refl
thirteen_each (suc zero) h = refl
thirteen_each (suc (suc zero)) h = refl
thirteen_each (suc (suc (suc zero))) h = refl
thirteen_each (suc (suc (suc (suc i)))) h = absurd (omega (arith, h))

-- What `distributeCard` leaves, with a wall that suffices.
pub record Distributed (n dealer : ℕ) (result : DeckManager × List (Option PlayerImage))
    : Type 0 where
  pub left : HasLeft n result.0
  pub seated : Seated result.1
  pub four : length result.1 ≡ 4
  pub sizes : (i : ℕ) → i < 4 → hand_size result.1 i ≡ (if dealer == i then 14 else 13)

distribute_card-Distributed :
    (n dealer : ℕ) (dm : DeckManager) (ps : List (Option PlayerImage))
    → Seated ps
    → length ps ≡ 4
    → dealer < 4
    → HasLeft (n + 53) dm
    → Distributed n dealer (distribute_card dealer dm ps)
unfolding distribute_card
distribute_card-Distributed n dealer dm ps s four small h =
    let (seated, size, empty) = clear_players-empty ps s in
    let rounds : length (repeat_seats 13) ≡ 52 = refl in
    let d =
      deal_loop-Dealt (suc n) (repeat_seats 13) dm (clear_players ps) seated
        (omega (arith, h, rounds)) in
    let (t, e, left) = deal-some n (deal_loop (repeat_seats 13) dm (clear_players ps)).0 d.left in
    let one = give_one (draw_tile t) dealer _ (draw_tile-longer t) d.grown.seated in
    let inside : ltb dealer 4 ≡ true = ground (arith, small) in
    simp (d.ok, inside, e, distribute_card)
      (record {
        left = left;
        seated = one.seated;
        four = one.same_length ∙ d.grown.same_length ∙ size ∙ four;
        sizes = λ i k. ground (
          arith,
          one.sizes i (omega (arith, k, d.grown.same_length, size, four)),
          d.grown.sizes i (omega (arith, k, size, four)),
          empty i,
          thirteen_each i k,
        );
      })

fill_round-HasLeft :
    (tiles : List Tile) (dm : DeckManager) → length tiles ≡ 136 → HasLeft 122 (fill_round tiles dm)
unfolding fill_round
fill_round-HasLeft tiles dm size =
    let long : leb (length tiles) 14 ≡ false = ground (arith, size) in
    simp (long, fill_round) (omega (arith, size, length-take (length tiles - 14) tiles))

init_round-HasLeft : (rng : Rng) (dm : DeckManager) → HasLeft 122 (init_round rng dm)
unfolding init_round
init_round-HasLeft rng dm = fill_round-HasLeft _ dm (
    length-perm (rng.shuffle-perm (new_tile_deck dm.use_red_fives))
    ∙ length-new_tile_deck dm.use_red_fives)

reveal_dora_indicator-HasLeft :
    (n : ℕ) (dm : DeckManager) → HasLeft n dm → HasLeft n (reveal_dora_indicator dm).0
unfolding reveal_dora_indicator
reveal_dora_indicator-HasLeft n dm h = elim (Bool-cases (leb 5 dm.wang.dora_index)) [
  | inl e ↦ simp (e, reveal_dora_indicator) h
  | inr e ↦ simp (e, reveal_dora_indicator) h
]

enter_drop-players : (seat : ℕ) (eg : RiichiMahjong4p) → (enter_drop seat eg).players ≡ eg.players
unfolding enter_drop happen_damage_error terminate
enter_drop-players seat eg = elim (Bool-cases (enter_drop_phase seat 5 eg.turn_manager).1) [
  | inl e ↦ simp (e, enter_drop) refl
  | inr e ↦ simp (e, enter_drop) refl
]

drop_turn-players :
    (n seat : ℕ) (eg : RiichiMahjong4p) (dm : DeckManager)
    → eg.deck_manager ≡ some dm
    → HasLeft (suc n) dm
    → (t : Tile) × ((drop_turn seat true eg).players ≡ update_player seat (draw_tile t) eg.players)
unfolding drop_turn
drop_turn-players n seat eg dm e h =
    let (t, drawn, left) = draw-some n dm h in
    (t, simp (e, drawn, drop_turn) (enter_drop-players seat _))

-- The deck that a round starts with.
abbrev start_deck : Option DeckManager → DeckManager
start_deck deck = elim deck [ none ↦ new_deck_manager true | some dm ↦ dm ]

abbrev shuffled : Rng → Option DeckManager → DeckManager
shuffled rng deck = (reveal_dora_indicator (init_round rng (start_deck deck))).0

-- A new round at a table of four players gives thirteen tiles to each and fifteen to the dealer,
-- who is one of the four: the fourteenth is dealt, and the turn to drop begins with drawing
-- another.
pub handle_start_round_event-sizes :
    (rng : Rng) (eg : RiichiMahjong4p)
    → Seated eg.players
    → length eg.players ≡ 4
    → eg.situation.dealer_index < 4
    → (i : ℕ) → i < 4
    → hand_size (handle_start_round_event rng eg).players i
      ≡ (if eg.situation.dealer_index == i then 15 else 13)
unfolding handle_start_round_event
handle_start_round_event-sizes rng eg s four small i k =
    let dealer = eg.situation.dealer_index in
    let dm = shuffled rng eg.deck_manager in
    let left =
      reveal_dora_indicator-HasLeft 122 (init_round rng (start_deck eg.deck_manager))
        (init_round-HasLeft rng (start_deck eg.deck_manager)) in
    let d = distribute_card-Distributed 69 dealer dm eg.players s four small left in
    let dealt = distribute_card dealer dm eg.players in
    let (t, e) =
      drop_turn-players 68 dealer (record eg { deck_manager = some dealt.0; players = dealt.1 })
        dealt.0 refl d.left in
    let one = give_one (draw_tile t) dealer dealt.1 (draw_tile-longer t) d.seated in
    ap (λ ps. hand_size ps i) e
    ∙ ground (arith, one.sizes i (omega (arith, k, d.four)), d.sizes i k)
