-- ===== src/Search/Cache.antt =====
-- game/runtime/engines/mahjong/searcher.go: the `Searcher` with its caches, and the search for waits.
-- The caches are lists of entries, the newest first. The lock is left out: calls come one by one.
pub mod Sound
pub mod Waits
pub mod Tally
pub mod Seek
pub mod Candidates
use go_mahjong.Common.{
  ℕ, zero, suc, ◌+◌, ◌-◌, ◌%◌, Bool, true, false, ◌&&◌, List, [], ◌∷◌, ◌++◌, Option, none, some,
  ltb, leb, ◌==◌, if◌then◌else◌, get_or, set, replicate,
}
use go_mahjong.Common.Int.{ℤ, pos, ◌+ℤ◌, ◌-ℤ◌, ltb_ℤ}
use go_mahjong.Tiles.{Tile, TileType}
use go_mahjong.Search.{Hand34, count_at, sub_at, add_at, is_agari_shape}

abbrev pub Key : Type 0
Key = List ℕ

abbrev pub key_eq : Key → Key → Bool
key_eq [] [] = true
key_eq (x ∷ xs) (y ∷ ys) = x == y && key_eq xs ys
key_eq _ _ = false

module _ {ℓ} {V : Type ℓ} where
  unfoldable pub lookup_key : Key → List (Key × V) → Option V
  lookup_key k [] = none
  lookup_key k ((j, v) ∷ m) = if key_eq j k then some v else lookup_key k m

  unfoldable pub store_key : Key → V → List (Key × V) → List (Key × V)
  store_key k v m = (k, v) ∷ m

pub record Searcher : Type 0 where
  pub shanten_cache : List (Key × ℤ)
  pub agari_cache : List (Key × Bool)
  pub waits_cache : List (Key × List TileType)

unfoldable pub new_searcher : Searcher
new_searcher = record { shanten_cache = []; agari_cache = []; waits_cache = [] }

-- The 34 counters and `byte(fixedMelds)`.
unfoldable pub key_with_fixed_melds : Hand34 → ℕ → Key
key_with_fixed_melds h fixed_melds = h ++ (fixed_melds % 256) ∷ []

unfoldable pub is_agari_all : Searcher → Hand34 → ℕ → Searcher × Bool
is_agari_all s h fixed_melds =
    let key = key_with_fixed_melds h fixed_melds in
    let ok = is_agari_shape h fixed_melds in
    elim (lookup_key key s.agari_cache) [
      | some v ↦ (s, v)
      | none ↦ (record s { agari_cache = store_key key ok s.agari_cache }, ok)
    ]

-- One round of the loop over the tiles that may be drawn.
unfoldable pub wait_step : ℕ → Hand34 → ℕ → Searcher → List TileType → Searcher × List TileType
wait_step t h13 fixed_melds s waits =
    let (s', ok) = is_agari_all s (add_at h13 t 1) fixed_melds in
    if leb 4 (count_at h13 t) then (s, waits) else (s', if ok then waits ++ t ∷ [] else waits)

-- The loop from tile `t` on, with `n` rounds left.
unfoldable pub find_waits : ℕ → ℕ → Hand34 → ℕ → Searcher → List TileType → Searcher × List TileType
find_waits zero t h13 fixed_melds s waits = (s, waits)
find_waits (suc n) t h13 fixed_melds s waits =
    let (s', waits') = wait_step t h13 fixed_melds s waits in
    find_waits n (t + 1) h13 fixed_melds s' waits'

-- How many tiles of type `tt` can still be drawn; `visible` is nil or what everybody sees.
unfoldable pub ukeire_of : Hand34 → Option (List ℕ) → TileType → ℤ
ukeire_of h13 visible tt =
    let add = pos 4 -ℤ pos (count_at h13 tt) in
    elim visible [
      | none ↦ add
      | some seen ↦
          let left = add -ℤ pos (get_or seen tt 0) in if ltb_ℤ left (pos 0) then pos 0 else left
    ]

unfoldable pub ukeire_by_waits : Hand34 → List TileType → Option (List ℕ) → ℤ → ℤ
ukeire_by_waits h13 [] visible ukeire = ukeire
ukeire_by_waits h13 (tt ∷ waits) visible ukeire =
    ukeire_by_waits h13 waits visible (ukeire +ℤ ukeire_of h13 visible tt)

unfoldable pub waits_and_ukeire :
    Searcher → Hand34 → ℕ → Option (List ℕ) → Searcher × List TileType × ℤ
waits_and_ukeire s h13 fixed_melds visible =
    let key = key_with_fixed_melds h13 fixed_melds in
    let (s', waits) = find_waits 34 0 h13 fixed_melds s [] in
    elim (lookup_key key s.waits_cache) [
      | some v ↦ (s, v, ukeire_by_waits h13 v visible (pos 0))
      | none ↦ (
        record s' { waits_cache = store_key key waits s'.waits_cache },
        waits,
        ukeire_by_waits h13 waits visible (pos 0),
      )
    ]

pub record Candidate : Type 0 where
  pub discard_type : TileType
  pub discard_options : List Tile
  pub waits : List TileType
  pub ukeire : ℤ

-- `Hand34FromTiles`: the counters (bytes, which wrap) and, for each type, its tiles in order.
unfoldable pub hand34_from :
    List Tile → Hand34 → (TileType → List Tile) → Hand34 × (TileType → List Tile)
hand34_from [] h opts = (h, opts)
hand34_from (t ∷ ts) h opts =
    hand34_from ts (set h t.type ((count_at h t.type + 1) % 256))
      (λ u. if t.type == u then opts u ++ t ∷ [] else opts u)

unfoldable pub hand34_from_tiles : List Tile → Hand34 × (TileType → List Tile)
hand34_from_tiles tiles = hand34_from tiles (replicate 34 0) (λ u. [])

-- A discard that leaves no wait is passed over.
unfoldable pub add_candidate :
    TileType → List Tile → List TileType × ℤ → List Candidate → List Candidate
add_candidate i options ([], ukeire) out = out
add_candidate i options (w ∷ ws, ukeire) out =
    out
    ++ record { discard_type = i; discard_options = options; waits = w ∷ ws; ukeire = ukeire } ∷ []

-- One round of the loop of `SeekCandidates`.
unfoldable pub seek_step :
    ℕ
    → Hand34
    → (TileType → List Tile)
    → ℕ
    → Option (List ℕ)
    → Searcher
    → List Candidate
    → Searcher × List Candidate
seek_step i h14 opts fixed_melds visible s out =
    let (s', waits, ukeire) = waits_and_ukeire s (sub_at h14 i 1) fixed_melds visible in
    if count_at h14 i == 0 then (s, out) else (s', add_candidate i (opts i) (waits, ukeire) out)

unfoldable pub seek_loop :
    ℕ
    → ℕ
    → Hand34
    → (TileType → List Tile)
    → ℕ
    → Option (List ℕ)
    → Searcher
    → List Candidate
    → Searcher × List Candidate
seek_loop zero i h14 opts fixed_melds visible s out = (s, out)
seek_loop (suc n) i h14 opts fixed_melds visible s out =
    let (s', out') = seek_step i h14 opts fixed_melds visible s out in
    seek_loop n (i + 1) h14 opts fixed_melds visible s' out'

unfoldable pub seek_candidates :
    Searcher → List Tile → ℕ → Option (List ℕ) → Searcher × List Candidate
seek_candidates s hand14 fixed_melds visible =
    let (h14, opts) = hand34_from_tiles hand14 in seek_loop 34 0 h14 opts fixed_melds visible s []
