-- ===== src/Deck/Trace.antt =====
-- Any sequence of calls on a `DeckManager` of material.go after `InitRound`.
use mathlib.Core.List.{perm_middle}
use mathlib.Core.List.Perm
use native.Mathlib.Nat.{add-zero, zero-add}
use go_mahjong.Common.{
  ℕ, ◌<◌, ◌≡◌, List, [], ◌∷◌, ◌++◌, Option, none, some, Perm, arith, get_or, sym, ◌==◌, zero, suc,
  ◌+◌, ◌∙◌, count_by-perm, count_by-append,
}
use go_mahjong.Common.Int.{ℤ, pos, ◌-ℤ◌}
use go_mahjong.Tiles.{Tile, new_tile_deck}
use go_mahjong.Tiles.Generate.{count_type-new_tile_deck}
use go_mahjong.Deck.{
  Rng, DeckManager, init_round, draw, deal, draw_kan_tile, reveal_dora_indicator,
  reveal_ura_dora_indicator, visible34, visible_from, visible_entry,
}
use go_mahjong.Deck.Invariant.{
  unseen, count_type, IsValid, InRange, Takes, nothing, tile, Takes-IsValid, draw-Takes,
  draw_kan_tile-Takes, reveal_dora_indicator-Takes, reveal_ura_dora_indicator-Takes,
  init_round-IsValid,
}

-- The calls that hand out or turn a tile.
pub data Call : Type 0 where
  draws deals draws_kan_tile reveals_dora reveals_ura_dora : Call

unfoldable pub call : Call → DeckManager → DeckManager × Option Tile
call draws dm = draw dm
call deals dm = deal dm
call draws_kan_tile dm = draw_kan_tile dm
call reveals_dora dm = reveal_dora_indicator dm
call reveals_ura_dora dm = reveal_ura_dora_indicator dm

abbrev pub add_seen : Option Tile → List Tile → List Tile
add_seen none tiles = tiles
add_seen (some t) tiles = t ∷ tiles

-- The deck after the calls, and the tiles that they handed out.
unfoldable pub run : List Call → DeckManager → List Tile → DeckManager × List Tile
run [] dm seen = (dm, seen)
run (c ∷ cs) dm seen = let (dm', t) = call c dm in run cs dm' (add_seen t seen)

call-Takes : (c : Call) (dm : DeckManager) → InRange dm → Takes dm (call c dm)
unfolding call deal
call-Takes draws dm v = draw-Takes dm v
call-Takes deals dm v = draw-Takes dm v
call-Takes draws_kan_tile dm v = draw_kan_tile-Takes dm v
call-Takes reveals_dora dm v = reveal_dora_indicator-Takes dm v
call-Takes reveals_ura_dora dm v = reveal_ura_dora_indicator-Takes dm v

Takes-perm :
    {dm : DeckManager} {r : DeckManager × Option Tile} (seen deck : List Tile)
    → Takes dm r
    → Perm (seen ++ unseen dm) deck
    → Perm (add_seen r.1 seen ++ unseen r.0) deck
Takes-perm seen deck nothing p = p
Takes-perm seen deck (tile t dm' q range e) p =
    Perm.trans (Perm.symm (perm_middle seen (unseen dm')))
      (Perm.trans (Perm.append (Perm.refl seen) q) p)

run-IsValid :
    (cs : List Call) (dm : DeckManager) (seen deck : List Tile)
    → IsValid dm
    → Perm (seen ++ unseen dm) deck
    → IsValid (run cs dm seen).0 × Perm ((run cs dm seen).1 ++ unseen (run cs dm seen).0) deck
unfolding run
run-IsValid [] dm seen deck v p = (v, p)
run-IsValid (c ∷ cs) dm seen deck v p =
    let step = call-Takes c dm v.in_range in
    run-IsValid cs (call c dm).0 (add_seen (call c dm).1 seen) deck (Takes-IsValid step v)
      (Takes-perm seen deck step p)

-- After InitRound and any sequence of Draw, Deal, DrawKanTile and the two Reveals, the tiles
-- handed out and those still unseen are together the 136 tiles of the deck, none lost and none
-- twice; every index is in range and remain34 counts the unseen tiles of each type.
pub run-init_round :
    (rng : Rng) (dm : DeckManager) (cs : List Call)
    → let (after, seen) = run cs (init_round rng dm) [] in
      IsValid after × Perm (seen ++ unseen after) (new_tile_deck dm.use_red_fives)
run-init_round rng dm cs =
    let (v, p) = init_round-IsValid rng dm in run-IsValid cs (init_round rng dm) [] _ v p

get_or-visible_from :
    (n i k : ℕ) (remain34 : List ℤ)
    → k < n
    → get_or (visible_from n i remain34) k 0 ≡ visible_entry (get_or remain34 (i + k) (pos 0))
unfolding visible_from
get_or-visible_from zero i k remain34 h = elim h [ ]
get_or-visible_from (suc n) i zero remain34 h = ground (arith, add-zero i)
get_or-visible_from (suc n) i (suc k) remain34 h =
    ground (arith, get_or-visible_from n (i + 1) k remain34)

visible_entry_pos : (n m : ℕ) → m + n ≡ 4 → visible_entry (pos n) ≡ m
unfolding visible_entry ◌-ℤ◌
visible_entry_pos n m h = ground arith

-- After InitRound and any sequence of Draw, Deal, DrawKanTile and the two Reveals, Visible34
-- gives, for each of the 34 types, how many tiles of the type were handed out.
pub visible34-run :
    (rng : Rng) (dm : DeckManager) (cs : List Call) (u : ℕ)
    → u < 34
    → let (after, seen) = run cs (init_round rng dm) [] in
      get_or (visible34 after) u 0 ≡ count_type u seen
unfolding visible34
visible34-run rng dm cs u h =
    let (v, p) = run-init_round rng dm cs in
    let (after, seen) = run cs (init_round rng dm) [] in
    let whole =
      count_by-perm (λ x. x.type == u) p ∙ count_type-new_tile_deck dm.use_red_fives u h in
    get_or-visible_from 34 0 u after.remain34 h
    ∙ rw (zero-add, v.counted u h)
        (visible_entry_pos (count_type u (unseen after)) (count_type u seen)
          (sym (count_by-append (λ x. x.type == u) seen (unseen after)) ∙ whole))
