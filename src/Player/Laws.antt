-- ===== src/Player/Laws.antt =====
-- What the hand operations of player_image.go do.
use mathlib.Core.List.Perm
use go_mahjong.Common.{
  ◌<◌, ◌≡◌, ◌≢◌, ◌↔◌, inl, inr, refl, sym, ◌∙◌, ap, Bool, true, false, ◌||◌, List, [], ◌∷◌, ◌++◌,
  Option, none, some, Perm, arith, ◌==◌, if◌then◌else◌, length, last?, Bool-cases, Option-cases,
  length-perm,
}
use go_mahjong.Tiles.{Tile, TileType, same_tile}
use go_mahjong.Player.{
  PlayerImage, remove_first, remove_tile, discard_tile, has_discarded_tile, clear_newest,
  newest_or_last, discard_newest_or_last, draw_tile, has_type,
}

-- The hand holds the tile.
abbrev pub holds : Tile → List Tile → Bool
holds t [] = false
holds t (u ∷ us) = same_tile u t || holds t us

pub same_tile_eq : (a b : Tile) → same_tile a b ≡ true → a ≡ b
same_tile_eq a b h = ground arith

-- `RemoveTile` finds the tile or the hand does not hold it.
pub data Removal (t : Tile) (ts : List Tile) : Option (List Tile) → Type 0 where
  absent : holds t ts ≡ false → Removal t ts none
  removed : (us : List Tile) → holds t ts ≡ true → Perm (t ∷ us) ts → Removal t ts (some us)

Removal-skip :
    (t u : Tile) (ts : List Tile) {r : Option (List Tile)}
    → same_tile u t ≡ false
    → Removal t ts r
    → Removal t (u ∷ ts) (elim r [ none ↦ none | some us ↦ some (u ∷ us) ])
Removal-skip t u ts e (absent h) = absent (rw (e, h))
Removal-skip t u ts e (removed us h p) =
    removed (u ∷ us) (rw (e, h)) (Perm.trans (Perm.swap u t us) (Perm.cons u p))

pub remove_first-Removal : (t : Tile) (ts : List Tile) → Removal t ts (remove_first t ts)
unfolding remove_first
remove_first-Removal t [] = absent refl
remove_first-Removal t (u ∷ ts) = elim (Bool-cases (same_tile u t)) [
  | inl e ↦ rw e (removed ts (rw e) (rw (same_tile_eq u t e) (Perm.refl _)))
  | inr e ↦ rw e (Removal-skip t u ts e (remove_first-Removal t ts))
]

-- What a discard changes, and what it leaves.
pub record Discarded (t : Tile) (p q : PlayerImage) : Type 0 where
  pub hand : Perm (t ∷ q.tiles) p.tiles
  pub pile : q.discard_pile ≡ p.discard_pile ++ t ∷ []
  pub furiten : (u : TileType) → has_discarded_tile u q ≡ (t.type == u || has_discarded_tile u p)
  pub newest : (n : Tile) → (q.newest_tile ≡ some n) ↔ ((p.newest_tile ≡ some n) × (n ≢ t))
  pub melds : q.melds ≡ p.melds
  pub points : q.points ≡ p.points

has_type_eq : (t u : TileType) (us : List TileType) → t ≡ u → has_type t us ≡ has_type u us
has_type_eq t u us e = ap (λ v. has_type v us) e

has_type-add :
    (t u : TileType) (us : List TileType)
    → has_type u (if has_type t us then us else t ∷ us) ≡ (t == u || has_type u us)
has_type-add t u us = ground (arith, has_type_eq t u us)

-- A discard succeeds on a tile of the hand, and leaves the player alone on any other.
pub data Discards (t : Tile) (p : PlayerImage) : PlayerImage × Bool → Type 0 where
  accepted : (q : PlayerImage) → holds t p.tiles ≡ true → Discarded t p q → Discards t p (q, true)
  refused : holds t p.tiles ≡ false → Discards t p (p, false)

same_tile_refl : (t : Tile) → same_tile t t ≡ true
same_tile_refl t = ground arith

-- NewestTile stays only where it is another tile.
clear_newest-some :
    (t : Tile) (newest : Option Tile) (n : Tile)
    → (clear_newest t newest ≡ some n) ↔ ((newest ≡ some n) × (n ≢ t))
unfolding clear_newest
clear_newest-some t none n = (λ e. cc, λ (e, d). cc)
clear_newest-some t (some m) n = elim (Bool-cases (same_tile m t)) [
  | inl e ↦ rw e (
    λ x. cc,
    λ (x, d). absurd (d (ap (λ o. elim o [ none ↦ n | some a ↦ a ]) (sym x) ∙ same_tile_eq m t e)),
  )
  | inr e ↦ rw e (
    λ x. (
      x,
      λ d. ground (
        arith,
        e,
        same_tile_refl t,
        ap (λ a. same_tile a t) (ap (λ o. elim o [ none ↦ n | some a ↦ a ]) x ∙ d),
      ),
    ),
    λ (x, d). x,
  )
]

discard-Removal :
    (t : Tile) (p : PlayerImage) (r : Option (List Tile))
    → Removal t p.tiles r
    → remove_first t p.tiles ≡ r
    → Discards t p (discard_tile t p)
unfolding discard_tile has_discarded_tile
discard-Removal t p none (absent h) e = rw (e, remove_tile) (refused h)
discard-Removal t p (some us) (removed vs h perm) e =
    rw (e, remove_tile)
      (accepted _ h (record {
        hand = perm;
        pile = refl;
        furiten = λ u. has_type-add t.type u p.discarded_tiles;
        newest = clear_newest-some t p.newest_tile;
        melds = refl;
        points = refl;
      }))

-- DiscardTile succeeds exactly if the hand holds the tile; then the tile moves from the hand to
-- the end of the pile, its type joins the types for furiten and no other does, NewestTile is nil
-- if it was the tile and else as before, and melds and points stay. Otherwise the player is
-- unchanged.
pub discard_tile_lem : (t : Tile) (p : PlayerImage) → Discards t p (discard_tile t p)
discard_tile_lem t p =
    discard-Removal t p (remove_first t p.tiles) (remove_first-Removal t p.tiles) refl

-- The newest tile is in the hand.
abbrev pub NewestInHand : PlayerImage → Type 0
NewestInHand p = (n : Tile) → p.newest_tile ≡ some n → holds n p.tiles ≡ true

holds-append : (t : Tile) (ts us : List Tile) → holds t (ts ++ us) ≡ (holds t ts || holds t us)
holds-append t [] us = refl
holds-append t (u ∷ ts) us = ground (arith, holds-append t ts us)

pub draw_tile-NewestInHand : (t : Tile) (p : PlayerImage) → NewestInHand (draw_tile t p)
unfolding draw_tile
draw_tile-NewestInHand t p n e =
    rw (holds-append n p.tiles (t ∷ [])) (ground (arith, same_tile_refl t))

last?-holds : (ts : List Tile) {t : Tile} → last? ts ≡ some t → holds t ts ≡ true
last?-holds [] e = cc
last?-holds (u ∷ []) {t} e = ground (arith, same_tile_refl t)
last?-holds (u ∷ v ∷ ts) {t} e = ground (arith, last?-holds (v ∷ ts) {t = t} e)

last?-some : (ts : List Tile) → 0 < length ts → (t : Tile) × (last? ts ≡ some t)
last?-some [] h = elim h [ ]
last?-some (u ∷ []) h = (u, refl)
last?-some (u ∷ v ∷ ts) h = last?-some (v ∷ ts) (omega arith)

newest_or_last-holds :
    (p : PlayerImage)
    → NewestInHand p
    → 0 < length p.tiles
    → (t : Tile) × (newest_or_last p ≡ some t) × (holds t p.tiles ≡ true)
unfolding newest_or_last
newest_or_last-holds p inv h = elim (Option-cases p.newest_tile) [
  | inl e ↦
      let (t, l) = last?-some p.tiles h in (t, rw (e, newest_or_last) l, last?-holds p.tiles l)
  | inr (t, e) ↦ (t, rw (e, newest_or_last) refl, inv t e)
]

Discards-accepted :
    {t : Tile} {p : PlayerImage} {r : PlayerImage × Bool}
    → Discards t p r
    → holds t p.tiles ≡ true
    → (q : PlayerImage) × (r ≡ (q, true)) × Discarded t p q
Discards-accepted (accepted q h d) e = (q, refl, d)
Discards-accepted (refused h) e = cc

drop_chosen :
    (t : Tile) (p q : PlayerImage)
    → length p.tiles ≡ 14
    → newest_or_last p ≡ some t
    → discard_tile t p ≡ (q, true)
    → discard_newest_or_last p ≡ (q, some t)
unfolding discard_newest_or_last
drop_chosen t p q size chosen e = rw (size, chosen, e) refl

-- What a timed-out player drops, and from how many tiles.
pub data Drops (p : PlayerImage) : PlayerImage × Option Tile → Type 0 where
  dropped :
      (t : Tile) (q : PlayerImage)
      → length p.tiles ≡ 14
      → ((n : Tile) → p.newest_tile ≡ some n → t ≡ n)
      → (p.newest_tile ≡ none → last? p.tiles ≡ some t)
      → Discarded t p q
      → length q.tiles ≡ 13
      → Drops p (q, some t)
  nothing : length p.tiles ≢ 14 → Drops p (p, none)

-- The newest tile if there is one, and the last one otherwise.
newest_or_last-some :
    (p : PlayerImage) (t : Tile)
    → newest_or_last p ≡ some t
    → ((n : Tile) → p.newest_tile ≡ some n → t ≡ n)
      × (p.newest_tile ≡ none → last? p.tiles ≡ some t)
unfolding newest_or_last
newest_or_last-some p t e = elim (Option-cases p.newest_tile) [
  | inl none' ↦ (λ n x. cc, λ x. rw (none', newest_or_last) at e)
  | inr (m, some') ↦
      let chosen : ◌≡◌ {A = Option Tile} (some m) (some t) = rw (some', newest_or_last) at e in
      (λ n x. ap (λ o. elim o [ none ↦ t | some a ↦ a ]) (sym chosen ∙ sym some' ∙ x), λ x. cc)
]

fourteen-Drops :
    (p : PlayerImage) → NewestInHand p → length p.tiles ≡ 14 → Drops p (discard_newest_or_last p)
fourteen-Drops p inv size =
    let (t, chosen, h) = newest_or_last-holds p inv (omega arith) in
    let (q, e, d) = Discards-accepted (discard_tile_lem t p) h in
    let (chosen_newest, chosen_last) = newest_or_last-some p t chosen in
    rw (drop_chosen t p q size chosen e)
      (dropped t q size chosen_newest chosen_last d (omega (arith, length-perm d.hand)))

-- Of a player whose newest tile, if there is one, is in the hand, DiscardNewestOrLast drops the
-- newest tile, or else the last one, if the hand has exactly 14 tiles, and leaves 13; with any
-- other number it drops nothing and changes nothing.
pub discard_newest_or_last_lem :
    (p : PlayerImage) → NewestInHand p → Drops p (discard_newest_or_last p)
unfolding discard_newest_or_last
discard_newest_or_last_lem p inv = elim (Bool-cases (length p.tiles == 14)) [
  | inl e ↦ fourteen-Drops p inv (ground (arith, e))
  | inr e ↦ rw e (nothing (λ h. ground (arith, e, h)))
]
