-- ===== src/Engine/Reactions/Calls.antt =====
-- An offered call can be carried out, and moves its tiles out of the hand.
use go_mahjong.Common.{
  ℕ, suc, ◌+◌, ◌≤◌, ◌<◌, ◌≡◌, refl, Bool, true, false, List, [], ◌∷◌, Option, some, arith,
  if◌then◌else◌, count_by-perm,
}
use go_mahjong.Tiles.{Tile, same_tile}
use go_mahjong.Player.{PlayerImage, remove_first, remove_tile}
use go_mahjong.Player.Laws.{holds, Removal, absent, removed, remove_first-Removal}
use go_mahjong.Engine.{OperationType, peng, gang, PlayerOperation}
use go_mahjong.Engine.Options.{get_peng_options, get_gang_options}
use go_mahjong.Engine.Options.Choices.{
  Every, every_nil, every_cons, copies, Offer, get_peng_options-Offer, get_gang_options-Offer,
}
use go_mahjong.Engine.Reactions.{remove_tiles}

-- The tiles left the hand of the player, and nothing else did.
pub record Taken (ts : List Tile) (p : PlayerImage) (result : PlayerImage × Bool) : Type 0 where
  pub ok : result.1 ≡ true
  pub hand : (x : Tile) → copies x ts + copies x result.0.tiles ≡ copies x p.tiles
  pub melds : result.0.melds ≡ p.melds
  pub pile : result.0.discard_pile ≡ p.discard_pile

copies-holds : (t : Tile) (us : List Tile) → holds t us ≡ false → copies t us ≡ 0
copies-holds t [] h = refl
copies-holds t (u ∷ us) h = ground (arith, copies-holds t us)

copies_self : (t : Tile) (us : List Tile) → copies t (t ∷ us) ≡ suc (copies t us)
copies_self t us = ground arith

-- What the loop of `RemoveTile` finds of a tile that the hand holds.
remove_first-copies :
    (t : Tile) (us : List Tile) {r : Option (List Tile)}
    → Removal t us r
    → 0 < copies t us
    → (vs : List Tile) × (r ≡ some vs) × ((x : Tile) → copies x (t ∷ vs) ≡ copies x us)
remove_first-copies t us (absent no_t) h = absurd (ground (arith, copies-holds t us no_t, h))
remove_first-copies t us (removed vs there p) h =
    (vs, refl, λ x. count_by-perm (λ u. same_tile u x) p)

pub copies-cons :
    (x t : Tile) (ts : List Tile)
    → copies x (t ∷ ts) ≡ (if same_tile t x then 1 else 0) + copies x ts
copies-cons x t ts = ground arith

remove_tile-some :
    (t : Tile) (p : PlayerImage) (vs : List Tile)
    → remove_first t p.tiles ≡ some vs
    → remove_tile t p ≡ (record p { tiles = vs }, true)
unfolding remove_tile
remove_tile-some t p vs e = rw (e, remove_tile) refl

pub remove_tiles-Taken :
    (ts : List Tile) (p : PlayerImage)
    → ((x : Tile) → copies x ts ≤ copies x p.tiles)
    → Taken ts p (remove_tiles ts p)
unfolding remove_tiles
remove_tiles-Taken [] p h = record { ok = refl; hand = λ x. omega arith; melds = refl; pile = refl }
remove_tiles-Taken (t ∷ ts) p h =
    let (vs, e, count) =
      remove_first-copies t p.tiles (remove_first-Removal t p.tiles)
        (ground (arith, copies_self t ts, h t)) in
    let rest =
      remove_tiles-Taken ts (record p { tiles = vs })
        (λ x. omega (arith, h x, count x, copies-cons x t ts, copies-cons x t vs)) in
    rw (remove_tile-some t p vs e, remove_tiles)
      (record {
        ok = rest.ok;
        hand = λ x. omega (arith, rest.hand x, count x, copies-cons x t ts, copies-cons x t vs);
        melds = rest.melds;
        pile = rest.pile;
      })

-- A call of the type for the dropped tile, that the player can carry out.
pub record Callable (type : OperationType) (n : ℕ) (d : Tile) (p : PlayerImage)
    (op : PlayerOperation) : Type 0 where
  pub offer : Offer type n d p.tiles op
  pub taken : Taken op.tiles p (remove_tiles op.tiles p)

Every-Callable :
    {type : OperationType} {n : ℕ} {d : Tile} {p : PlayerImage} (ops : List PlayerOperation)
    → Every (Offer type n d p.tiles) ops
    → Every (Callable type n d p) ops
Every-Callable [] every_nil = every_nil
Every-Callable {p = p} (op ∷ ops) (every_cons o os) =
    every_cons (record { offer = o; taken = remove_tiles-Taken op.tiles p o.in_hand })
      (Every-Callable ops os)

-- Every kan and every triplet that a player is offered on a dropped tile has its three or two
-- tiles, all of the dropped type, in the hand: the call takes just these out of it and cannot
-- fail.
pub options-Callable :
    (p : PlayerImage) (d : Tile)
    → Every (Callable gang 3 d p) (get_gang_options (some p) d)
      × Every (Callable peng 2 d p) (get_peng_options (some p) d)
options-Callable p d =
    (Every-Callable _ (get_gang_options-Offer p d), Every-Callable _ (get_peng_options-Offer p d))
