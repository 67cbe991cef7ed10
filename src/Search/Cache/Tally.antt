-- ===== src/Search/Cache/Tally.antt =====
-- What `Hand34FromTiles` of searcher.go counts and collects.
use mathlib.Core.List.{append-nil, append_assoc}
use go_mahjong.Common.{
  ℕ, zero, suc, ◌+◌, ◌%◌, ◌≤◌, ◌<◌, ◌≡◌, inl, inr, refl, sym, ◌∙◌, List, [], ◌∷◌, ◌++◌, arith, ◌==◌,
  if◌then◌else◌, length, Bool-cases, length-set, get_or-set, replicate, set,
}
use go_mahjong.Tiles.{Tile, TileType}
use go_mahjong.Search.{Hand34, count_at}
use go_mahjong.Search.Counts.{count_at_eq}
use go_mahjong.Search.Cache.{hand34_from}

-- The tiles of a type, in their order.
abbrev pub tiles_of : TileType → List Tile → List Tile
tiles_of u [] = []
tiles_of u (t ∷ ts) = if t.type == u then t ∷ tiles_of u ts else tiles_of u ts

-- A hand of tiles of the 34 types.
abbrev pub AllTypes : List Tile → Type 0
AllTypes [] = Unit
AllTypes (t ∷ ts) = (t.type < 34) × AllTypes ts

pub length-tiles_of : (u : TileType) (ts : List Tile) → length (tiles_of u ts) ≤ length ts
length-tiles_of u [] = omega arith
length-tiles_of u (t ∷ ts) = ground (arith, length-tiles_of u ts)

-- The loop counts the tiles of each type, and collects them.
pub hand34_from-length :
    (ts : List Tile) (h : Hand34) (opts : TileType → List Tile)
    → length (hand34_from ts h opts).0 ≡ length h
unfolding hand34_from
hand34_from-length [] h opts = refl
hand34_from-length (t ∷ ts) h opts = hand34_from-length ts _ _ ∙ length-set h t.type _

pub hand34_from-counts :
    (ts : List Tile) (h : Hand34) (opts : TileType → List Tile) (u : TileType)
    → AllTypes ts
    → length h ≡ 34
    → count_at h u + length ts < 256
    → count_at (hand34_from ts h opts).0 u ≡ count_at h u + length (tiles_of u ts)
unfolding hand34_from
hand34_from-counts [] h opts u types size small = omega arith
hand34_from-counts (t ∷ ts) h opts u (valid, types) size small =
    let h' = set h t.type ((count_at h t.type + 1) % 256) in
    let here : count_at h' u
        ≡ (if t.type == u then (count_at h t.type + 1) % 256 else count_at h u) =
      get_or-set h t.type u _ 0 (omega (arith, size)) in
    let rest =
      hand34_from-counts ts h' (λ v. if t.type == v then opts v ++ t ∷ [] else opts v) u types
        (length-set h t.type _ ∙ size) in
    elim (Bool-cases (t.type == u)) [
      | inl e ↦
          let one : count_at h' u ≡ count_at h u + 1 =
            ground (arith, here, e, count_at_eq h t.type u, small) in
          rw e (rest (omega (arith, one, small)) ∙ omega (arith, one))
      | inr e ↦
          let same : count_at h' u ≡ count_at h u = ground (arith, here, e) in
          rw e (rest (omega (arith, same, small)) ∙ omega (arith, same))
    ]

pub hand34_from-options :
    (ts : List Tile) (h : Hand34) (opts : TileType → List Tile) (u : TileType)
    → (hand34_from ts h opts).1 u ≡ opts u ++ tiles_of u ts
unfolding hand34_from
hand34_from-options [] h opts u = sym (append-nil (opts u))
hand34_from-options (t ∷ ts) h opts u =
    let rest =
      hand34_from-options ts (set h t.type ((count_at h t.type + 1) % 256))
        (λ v. if t.type == v then opts v ++ t ∷ [] else opts v) u in
    elim (Bool-cases (t.type == u)) [
      | inl e ↦ rest ∙ rw e (append_assoc (opts u) (t ∷ []) (tiles_of u ts))
      | inr e ↦ rest ∙ rw e refl
    ]

pub count_at-zeros : (n u : ℕ) → count_at (replicate n 0) u ≡ 0
count_at-zeros zero u = refl
count_at-zeros (suc n) zero = refl
count_at-zeros (suc n) (suc u) = count_at-zeros n u
