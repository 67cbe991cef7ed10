-- ===== src/Engine/Reactions/Laid.antt =====
-- The seats of the table before and after a meld is laid down.
use go_mahjong.Common.{
  ℕ, zero, suc, ◌+◌, ◌≡◌, ◌≢◌, refl, sym, ◌∙◌, ap, true, List, [], ◌∷◌, ◌++◌, Option, none, some,
  arith, last?, init,
}
use go_mahjong.Tiles.{Tile}
use go_mahjong.Common.Int.{pos}
use go_mahjong.Player.{PlayerImage, Meld, MeldType}
use go_mahjong.Yaku.{player_at}
use go_mahjong.Engine.{update_player}
use go_mahjong.Engine.Options.Choices.{copies}
use go_mahjong.Engine.Reactions.{ReactionAction, meld_players}
use go_mahjong.Engine.Reactions.Calls.{Taken, copies-cons}

-- How many tiles of a player are this one: in the hand, on the pile and in the melds.
abbrev pub melds_copies : Tile → List Meld → ℕ
melds_copies x [] = 0
melds_copies x (m ∷ ms) = copies x m.tiles + melds_copies x ms

abbrev pub own_copies : Tile → PlayerImage → ℕ
own_copies x p = copies x p.tiles + copies x p.discard_pile + melds_copies x p.melds

abbrev pub table_copies : Tile → List (Option PlayerImage) → ℕ
table_copies x [] = 0
table_copies x (none ∷ ps) = table_copies x ps
table_copies x (some p ∷ ps) = own_copies x p + table_copies x ps

melds_copies-append :
    (x : Tile) (ms : List Meld) (m : Meld)
    → melds_copies x (ms ++ m ∷ []) ≡ melds_copies x ms + copies x m.tiles
melds_copies-append x [] m = omega arith
melds_copies-append x (n ∷ ms) m = omega (arith, melds_copies-append x ms m)

init-copies :
    (x t : Tile) (ts : List Tile)
    → last? ts ≡ some t
    → copies x (init ts) + copies x (t ∷ []) ≡ copies x ts
init-copies x t [] e = absurd (cc)
init-copies x t (u ∷ []) e = ground (arith, e)
init-copies x t (u ∷ v ∷ ts) e = ground (arith, init-copies x t (v ∷ ts) e)

some_inj : (q p : PlayerImage) → some q ≡ some p → q ≡ p
some_inj q p e = ap (λ o. elim o [ none ↦ q | some r ↦ r ]) e

some_tile_inj : (u t : Tile) → ◌≡◌ {A = Option Tile} (some u) (some t) → u ≡ t
some_tile_inj u t e = ap (λ o. elim o [ none ↦ u | some v ↦ v ]) e

-- An update changes the table by what it changes of the player.
update_player-copies :
    (x : Tile) (seat : ℕ) (f : PlayerImage → PlayerImage) (ps : List (Option PlayerImage))
    (p : PlayerImage)
    → player_at ps seat ≡ some p
    → table_copies x (update_player seat f ps) + own_copies x p
      ≡ table_copies x ps + own_copies x (f p)
unfolding update_player
update_player-copies x seat f [] p e = absurd (cc)
update_player-copies x zero f (none ∷ ps) p e = absurd (cc)
update_player-copies x zero f (some q ∷ ps) p e =
    omega (arith, ap (own_copies x) (some_inj q p e), ap (λ r. own_copies x (f r)) (some_inj q p e))
update_player-copies x (suc seat) f (none ∷ ps) p e = update_player-copies x seat f ps p e
update_player-copies x (suc seat) f (some q ∷ ps) p e =
    omega (arith, update_player-copies x seat f ps p e)

player_at-update_player :
    (seat : ℕ) (f : PlayerImage → PlayerImage) (ps : List (Option PlayerImage)) (p : PlayerImage)
    → player_at ps seat ≡ some p
    → player_at (update_player seat f ps) seat ≡ some (f p)
unfolding update_player
player_at-update_player seat f [] p e = absurd (cc)
player_at-update_player zero f (none ∷ ps) p e = absurd (cc)
player_at-update_player zero f (some q ∷ ps) p e = ap (λ r. some (f r)) (some_inj q p e)
player_at-update_player (suc seat) f (q ∷ ps) p e = player_at-update_player seat f ps p e

player_at-update_other :
    (seat other : ℕ) (f : PlayerImage → PlayerImage) (ps : List (Option PlayerImage))
    → seat ≢ other
    → player_at (update_player seat f ps) other ≡ player_at ps other
unfolding update_player
player_at-update_other seat other f [] d = refl
player_at-update_other zero zero f (q ∷ ps) d = absurd (d refl)
player_at-update_other zero (suc other) f (none ∷ ps) d = refl
player_at-update_other zero (suc other) f (some q ∷ ps) d = refl
player_at-update_other (suc seat) zero f (q ∷ ps) d = refl
player_at-update_other (suc seat) (suc other) f (q ∷ ps) d =
    player_at-update_other seat other f ps (λ e. d (ap suc e))

-- Laying the meld down moves the called tile from the pile, and the others from the hand.
pub meld_players-copies :
    (x : Tile) (action : ReactionAction) (kind : MeldType) (discarder : ℕ) (called : Tile)
    (c c' d : PlayerImage) (ps : List (Option PlayerImage))
    → action.player_seat ≢ discarder
    → player_at ps action.player_seat ≡ some c
    → player_at ps discarder ≡ some d
    → last? d.discard_pile ≡ some called
    → Taken action.tiles c (c', true)
    → table_copies x (meld_players action kind discarder called c' ps) ≡ table_copies x ps
unfolding meld_players
meld_players-copies x action kind discarder called c c' d ps apart at_c at_d last taken =
    let seat = action.player_seat in
    let meld : Meld = record { type = kind; tiles = called ∷ action.tiles; from = pos discarder } in
    let ps1 = update_player seat (λ p. c') ps in
    let drop_last : PlayerImage → PlayerImage =
      λ p. record p { discard_pile = init p.discard_pile } in
    let ps2 = update_player discarder drop_last ps1 in
    let at_d1 = player_at-update_other seat discarder (λ p. c') ps apart ∙ at_d in
    let at_c2 =
      player_at-update_other discarder seat drop_last ps1 (λ e. apart (sym e))
      ∙ player_at-update_player seat (λ p. c') ps c at_c in
    omega (
      arith,
      update_player-copies x seat (λ p. c') ps c at_c,
      update_player-copies x discarder drop_last ps1 d at_d1,
      update_player-copies x seat (λ p. record p { melds = p.melds ++ meld ∷ [] }) ps2 c' at_c2,
      init-copies x called d.discard_pile last,
      melds_copies-append x c'.melds meld,
      taken.hand x,
      copies-cons x called action.tiles,
      copies-cons x called [],
      ap (melds_copies x) taken.melds,
      ap (copies x) taken.pile,
    )

-- The seats of the table after the meld is laid down.
pub record Laid (action : ReactionAction) (kind : MeldType) (discarder : ℕ) (called : Tile)
    (c' d : PlayerImage) (ps : List (Option PlayerImage)) : Type 0 where
  pub at_caller :
      player_at (meld_players action kind discarder called c' ps) action.player_seat
      ≡ some (record c' {
        melds =
            c'.melds
            ++ record { type = kind; tiles = called ∷ action.tiles; from = pos discarder } ∷ [];
      })
  pub at_discarder :
      player_at (meld_players action kind discarder called c' ps) discarder
      ≡ some (record d { discard_pile = init d.discard_pile })
  pub others :
      (seat : ℕ)
      → action.player_seat ≢ seat
      → discarder ≢ seat
      → player_at (meld_players action kind discarder called c' ps) seat ≡ player_at ps seat

pub meld_players-Laid :
    (action : ReactionAction) (kind : MeldType) (discarder : ℕ) (called : Tile)
    (c c' d : PlayerImage) (ps : List (Option PlayerImage))
    → action.player_seat ≢ discarder
    → player_at ps action.player_seat ≡ some c
    → player_at ps discarder ≡ some d
    → Laid action kind discarder called c' d ps
unfolding meld_players
meld_players-Laid action kind discarder called c c' d ps apart at_c at_d =
    let seat = action.player_seat in
    let meld : Meld = record { type = kind; tiles = called ∷ action.tiles; from = pos discarder } in
    let ps1 = update_player seat (λ p. c') ps in
    let drop_last : PlayerImage → PlayerImage =
      λ p. record p { discard_pile = init p.discard_pile } in
    let lay : PlayerImage → PlayerImage = λ p. record p { melds = p.melds ++ meld ∷ [] } in
    let ps2 = update_player discarder drop_last ps1 in
    let at_d1 = player_at-update_other seat discarder (λ p. c') ps apart ∙ at_d in
    record {
      at_caller = player_at-update_player seat lay ps2 c' (
          player_at-update_other discarder seat drop_last ps1 (λ e. apart (sym e))
          ∙ player_at-update_player seat (λ p. c') ps c at_c);
      at_discarder =
          player_at-update_other seat discarder lay ps2 apart
          ∙ player_at-update_player discarder drop_last ps1 d at_d1;
      others = λ other not_caller not_discarder.
          player_at-update_other seat other lay ps2 not_caller
          ∙ player_at-update_other discarder other drop_last ps1 not_discarder
          ∙ player_at-update_other seat other (λ p. c') ps not_caller;
    }

pub init-last : (t : Tile) (ts : List Tile) → last? ts ≡ some t → ts ≡ init ts ++ t ∷ []
init-last t [] e = absurd (cc)
init-last t (u ∷ []) e = ap (λ v. v ∷ []) (some_tile_inj u t e)
init-last t (u ∷ v ∷ ts) e = ap (λ us. u ∷ us) (init-last t (v ∷ ts) e)
