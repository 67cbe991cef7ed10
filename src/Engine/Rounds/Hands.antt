-- ===== src/Engine/Rounds/Hands.antt =====
-- The sizes of the hands, and what one more tile for one seat makes of them.
use go_mahjong.Common.{
  ℕ, zero, suc, ◌+◌, ◌<◌, ◌≡◌, refl, ap, List, [], ◌∷◌, Option, none, some, arith, ◌==◌,
  if◌then◌else◌, length, length-append,
}
use go_mahjong.Tiles.{Tile}
use go_mahjong.Player.{PlayerImage, add_tile, draw_tile}
use go_mahjong.Engine.{update_player}
use go_mahjong.Engine.Ending.Points.{Seated, sits}

-- How many tiles the player at a seat has in hand.
abbrev pub hand_size : List (Option PlayerImage) → ℕ → ℕ
hand_size [] i = 0
hand_size (none ∷ ps) zero = 0
hand_size (some p ∷ ps) zero = length p.tiles
hand_size (p ∷ ps) (suc i) = hand_size ps i

-- The hands have grown by so many tiles each.
pub record Grown (ps ps' : List (Option PlayerImage)) (by : ℕ → ℕ) : Type 0 where
  pub seated : Seated ps'
  pub same_length : length ps' ≡ length ps
  pub sizes : (i : ℕ) → i < length ps → hand_size ps' i ≡ hand_size ps i + by i

give_first :
    (p : PlayerImage) (ps : List (Option PlayerImage)) (q : PlayerImage)
    → length q.tiles ≡ length p.tiles + 1
    → (i : ℕ) → i < length (some p ∷ ps)
    → hand_size (some q ∷ ps) i ≡ hand_size (some p ∷ ps) i + (if 0 == i then 1 else 0)
give_first p ps q one zero h = one
give_first p ps q one (suc i) h = ground arith

give_later :
    (p : PlayerImage) (ps qs : List (Option PlayerImage)) (seat : ℕ)
    → ((i : ℕ) → i < length ps → hand_size qs i ≡ hand_size ps i + (if seat == i then 1 else 0))
    → (i : ℕ) → i < length (some p ∷ ps)
    → hand_size (some p ∷ qs) i ≡ hand_size (some p ∷ ps) i + (if suc seat == i then 1 else 0)
give_later p ps qs seat rest zero h = ground arith
give_later p ps qs seat rest (suc i) h = ground (arith, rest i (omega (arith, h)))

-- One more tile for one seat.
pub give_one :
    (f : PlayerImage → PlayerImage) (seat : ℕ) (ps : List (Option PlayerImage))
    → ((p : PlayerImage) → length (f p).tiles ≡ length p.tiles + 1)
    → Seated ps
    → Grown ps (update_player seat f ps) (λ i. if seat == i then 1 else 0)
unfolding update_player
give_one f seat [] one s = record {
  seated = s;
  same_length = refl;
  sizes = λ i h. absurd (omega (arith, h));
}
give_one f seat (none ∷ ps) one s = elim s [ ]
give_one f zero (some p ∷ ps) one (sits _ _ s) = record {
  seated = sits _ _ s;
  same_length = refl;
  sizes = give_first p ps (f p) (one p);
}
give_one f (suc seat) (some p ∷ ps) one (sits _ _ s) =
    let rest = give_one f seat ps one s in
    record {
      seated = sits p _ rest.seated;
      same_length = ap suc rest.same_length;
      sizes = give_later p ps _ seat rest.sizes;
    }

pub add_tile-longer :
    (t : Tile) (p : PlayerImage) → length (add_tile t p).tiles ≡ length p.tiles + 1
unfolding add_tile
add_tile-longer t p = length-append p.tiles (t ∷ [])

pub draw_tile-longer :
    (t : Tile) (p : PlayerImage) → length (draw_tile t p).tiles ≡ length p.tiles + 1
unfolding draw_tile
draw_tile-longer t p = length-append p.tiles (t ∷ [])
