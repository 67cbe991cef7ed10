-- ===== src/Deck/Invariant.antt =====
-- What holds of a `DeckManager` of material.go between two calls.
use mathlib.Core.List.{perm_middle}
use mathlib.Core.List.Perm
use go_mahjong.Common.{
  ℕ, zero, suc, ◌≤◌, ◌<◌, ◌≡◌, refl, ◌∙◌, ap, inl, inr, List, ◌∷◌, ◌++◌, Option, none, some, Perm,
  arith, leb, ◌==◌, if◌then◌else◌, length, get_or, take, drop, replicate, count_by, get_or-set_any,
  length-set, length-take, length-drop, drop-get_or, take-append-drop, take_all, drop-drop, sym,
  count_by-perm, length-perm, Bool-cases,
}
use go_mahjong.Common.Int.{ℤ, pos, ◌-ℤ◌}
use go_mahjong.Tiles.{Tile, TileType, zero_tile, new_tile_deck}
use go_mahjong.Tiles.Generate.{count_type-new_tile_deck, length-new_tile_deck}
use go_mahjong.Deck.{
  Rng, DeckManager, decrement, fill_round, init_round, draw, draw_kan_tile, reveal_dora_indicator,
  reveal_ura_dora_indicator,
}

-- The tiles that are not drawn or turned yet.
abbrev pub unseen : DeckManager → List Tile
unseen dm =
    drop dm.wall_index dm.wall
    ++ (drop dm.wang.kan_index dm.wang.kan_tiles
        ++ (drop dm.wang.dora_index dm.wang.dora_indicators
            ++ drop dm.wang.ura_dora_index dm.wang.ura_dora_indicators))

abbrev pub count_type : TileType → List Tile → ℕ
count_type u = count_by (λ x. x.type == u)

-- The indices stay in range.
pub record InRange (dm : DeckManager) : Type 0 where
  pub kan_size : length dm.wang.kan_tiles ≡ 4
  pub dora_size : length dm.wang.dora_indicators ≡ 5
  pub ura_size : length dm.wang.ura_dora_indicators ≡ 5
  pub remain_size : length dm.remain34 ≡ 34
  pub wall_bound : dm.wall_index ≤ length dm.wall
  pub kan_bound : dm.wang.kan_index ≤ 4
  pub dora_bound : dm.wang.dora_index ≤ 5
  pub ura_bound : dm.wang.ura_dora_index ≤ 5

-- `remain34` counts the unseen tiles of each type.
abbrev pub IsCounted : DeckManager → Type 0
IsCounted dm = (u : ℕ) → u < 34 → get_or dm.remain34 u (pos 0) ≡ pos (count_type u (unseen dm))

pub record IsValid (dm : DeckManager) : Type 0 where
  pub in_range : InRange dm
  pub counted : IsCounted dm

-- A call leaves the deck as it was, or hands out one unseen tile.
pub data Takes (dm : DeckManager) : DeckManager × Option Tile → Type 0 where
  nothing : Takes dm (dm, none)
  tile :
      (t : Tile) (dm' : DeckManager)
      → Perm (t ∷ unseen dm') (unseen dm)
      → InRange dm'
      → dm'.remain34 ≡ decrement t.type dm.remain34
      → Takes dm (dm', some t)

-- A counter that is right for a list with one more tile is right after the decrement.
decrement_counts :
    (u : ℕ) (t : Tile) (remain34 : List ℤ) (n m : ℕ)
    → u < 34
    → length remain34 ≡ 34
    → get_or remain34 u (pos 0) ≡ pos n
    → (if t.type == u then suc m else m) ≡ n
    → get_or (decrement t.type remain34) u (pos 0) ≡ pos m
unfolding ◌-ℤ◌
decrement_counts u t remain34 n m h size e split =
    ground
      (arith, get_or-set_any remain34 t.type u (get_or remain34 t.type (pos 0) -ℤ pos 1) (pos 0))

pub Takes-IsValid :
    {dm : DeckManager} {r : DeckManager × Option Tile} → Takes dm r → IsValid dm → IsValid r.0
Takes-IsValid nothing v = v
Takes-IsValid {dm} (tile t dm' perm range e) v = record {
  in_range = range;
  counted = λ u h. rw e (
      decrement_counts u t dm.remain34 (count_type u (unseen dm)) (count_type u (unseen dm')) h
        v.in_range.remain_size (v.counted u h) (count_by-perm (λ x. x.type == u) perm));
}

length-decrement :
    (t : TileType) (remain34 : List ℤ) → length (decrement t remain34) ≡ length remain34
length-decrement t remain34 = length-set remain34 t _

pub draw-Takes : (dm : DeckManager) → InRange dm → Takes dm (draw dm)
unfolding draw
draw-Takes dm v = elim (Bool-cases (leb (length dm.wall) dm.wall_index)) [
  | inl e ↦ rw e nothing
  | inr e ↦
      let t = get_or dm.wall dm.wall_index zero_tile in
      let fresh = drop-get_or dm.wall dm.wall_index zero_tile (ground arith) in
      rw e (
        tile t _ (rw fresh (Perm.refl _)) (ground (arith, length-decrement t.type dm.remain34))
          refl)
]

-- A tile after the first part of a list may be moved to its front.
to_front : (t : Tile) (xs ys zs : List Tile) → ys ≡ t ∷ zs → Perm (t ∷ xs ++ zs) (xs ++ ys)
to_front t xs ys zs e = rw e (Perm.symm (perm_middle xs zs))

pub draw_kan_tile-Takes : (dm : DeckManager) → InRange dm → Takes dm (draw_kan_tile dm)
unfolding draw_kan_tile
draw_kan_tile-Takes dm v = elim (Bool-cases (leb 4 dm.wang.kan_index)) [
  | inl e ↦ rw e nothing
  | inr e ↦
      let t = get_or dm.wang.kan_tiles dm.wang.kan_index zero_tile in
      let fresh = drop-get_or dm.wang.kan_tiles dm.wang.kan_index zero_tile (ground arith) in
      let rest =
        drop dm.wang.dora_index dm.wang.dora_indicators
        ++ drop dm.wang.ura_dora_index dm.wang.ura_dora_indicators in
      rw e (
        tile t _ (to_front t (drop dm.wall_index dm.wall) _ _ (ap (λ ts. ts ++ rest) fresh))
          (ground (arith, length-decrement t.type dm.remain34)) refl)
]

pub reveal_dora_indicator-Takes :
    (dm : DeckManager) → InRange dm → Takes dm (reveal_dora_indicator dm)
unfolding reveal_dora_indicator
reveal_dora_indicator-Takes dm v = elim (Bool-cases (leb 5 dm.wang.dora_index)) [
  | inl e ↦ rw e nothing
  | inr e ↦
      let t = get_or dm.wang.dora_indicators dm.wang.dora_index zero_tile in
      let fresh = drop-get_or dm.wang.dora_indicators dm.wang.dora_index zero_tile (ground arith) in
      let kans = drop dm.wang.kan_index dm.wang.kan_tiles in
      rw e (
        tile t _
          (Perm.trans (to_front t _ _ _ refl)
            (Perm.append (Perm.refl _) (to_front t kans _ _ (rw fresh))))
          (ground (arith, length-decrement t.type dm.remain34)) refl)
]

pub reveal_ura_dora_indicator-Takes :
    (dm : DeckManager) → InRange dm → Takes dm (reveal_ura_dora_indicator dm)
unfolding reveal_ura_dora_indicator
reveal_ura_dora_indicator-Takes dm v = elim (Bool-cases (leb 5 dm.wang.ura_dora_index)) [
  | inl e ↦ rw e nothing
  | inr e ↦
      let w = dm.wang in
      let t = get_or w.ura_dora_indicators w.ura_dora_index zero_tile in
      let fresh = drop-get_or w.ura_dora_indicators w.ura_dora_index zero_tile (ground arith) in
      let kans = drop w.kan_index w.kan_tiles in
      let doras = drop w.dora_index w.dora_indicators in
      rw e (
        tile t _
          (Perm.trans (to_front t _ _ _ refl) (
            Perm.append (Perm.refl _) (
              Perm.trans (to_front t kans _ _ refl)
                (Perm.append (Perm.refl _) (to_front t doras _ _ (rw fresh))))))
          (ground (arith, length-decrement t.type dm.remain34)) refl)
]

module _ (tiles : List Tile) (size : length tiles ≡ 136) where
  -- The dead wall, cut into its three parts, is whole again.
  dead_wall :
      (w : List Tile) → length w ≡ 14 → take 4 w ++ (take 5 (drop 4 w) ++ take 5 (drop 9 w)) ≡ w
  dead_wall w h = rw (
    take_all 5 (drop 9 w) (omega (arith, length-drop 9 w)),
    ← drop-drop 5 4 w,
    take-append-drop 5 (drop 4 w),
    take-append-drop 4 w,
  )

  fill_round-unseen : (dm : DeckManager) → unseen (fill_round tiles dm) ≡ tiles
  unfolding fill_round
  fill_round-unseen dm =
      rw (size, dead_wall (drop 122 tiles) (omega (arith, length-drop 122 tiles)))
        (take-append-drop 122 tiles)

  fill_round-InRange : (dm : DeckManager) → InRange (fill_round tiles dm)
  unfolding fill_round
  fill_round-InRange dm = rw size (
      omega (
        arith,
        length-drop 122 tiles,
        length-take 4 (drop 122 tiles),
        length-drop 4 (drop 122 tiles),
        length-drop 9 (drop 122 tiles),
        length-take 5 (drop 4 (drop 122 tiles)),
        length-take 5 (drop 9 (drop 122 tiles)),
      ))

-- A full row of 34 counters.
get_or-replicate : (n i : ℕ) (v d : ℤ) → i < n → get_or (replicate n v) i d ≡ v
get_or-replicate zero i v d h = elim h [ ]
get_or-replicate (suc n) zero v d h = refl
get_or-replicate (suc n) (suc i) v d h = get_or-replicate n i v d (omega arith)

fill_round-remain34 :
    (tiles : List Tile) (dm : DeckManager) → (fill_round tiles dm).remain34 ≡ replicate 34 (pos 4)
unfolding fill_round
fill_round-remain34 tiles dm = ground arith

-- After `InitRound` the unseen tiles are the deck, reordered, and the counters and indices are right.
pub init_round-IsValid :
    (rng : Rng) (dm : DeckManager)
    → IsValid (init_round rng dm)
      × Perm (unseen (init_round rng dm)) (new_tile_deck dm.use_red_fives)
unfolding init_round
init_round-IsValid rng dm =
    let tiles = rng.shuffle (new_tile_deck dm.use_red_fives) in
    let perm = rng.shuffle-perm (new_tile_deck dm.use_red_fives) in
    let size = length-perm perm ∙ length-new_tile_deck dm.use_red_fives in
    let whole = fill_round-unseen tiles size dm in
    (
      record {
        in_range = fill_round-InRange tiles size dm;
        counted = λ u h.
            rw (fill_round-remain34 tiles dm, get_or-replicate 34 u (pos 4) (pos 0) h, whole)
              (ap pos
                (sym (count_by-perm (λ x. x.type == u) perm ∙ count_type-new_tile_deck _ u h)));
      },
      rw whole perm,
    )
