-- ===== src/Search/Cache/Candidates.antt =====
-- What `SeekCandidates` of searcher.go finds, whatever was asked before.
use mathlib.Core.List.{Memᴰ, append-nil, append_assoc}
use go_mahjong.Common.{
  ℕ, zero, suc, ◌+◌, ◌≤◌, ◌<◌, ◌≡◌, ◌↔◌, inl, inr, refl, sym, ◌∙◌, ap, subst, true, false, List, [],
  ◌∷◌, ◌++◌, Option, arith, leb, ◌==◌, if◌then◌else◌, length, Bool-cases, list_ext, replicate, ltb,
  ◌&&◌,
}
use go_mahjong.Common.Int.{pos}
use go_mahjong.Tiles.{Tile, TileType}
use go_mahjong.Search.{Hand34, count_at, sub_at, add_at, is_agari_shape}
use go_mahjong.Search.Counts.{length-sub_at, count_at-sub_at, count_at_eq}
use go_mahjong.Search.Cache.{
  Searcher, Candidate, hand34_from_tiles, seek_candidates, ukeire_by_waits,
}
use go_mahjong.Search.Cache.Sound.{IsSound, pure_waits}
use go_mahjong.Search.Cache.Seek.{seek_loop_lem, candidate, Found, pure_seek_mem}
use go_mahjong.Search.Cache.Tally.{
  tiles_of, AllTypes, hand34_from-length, hand34_from-counts, hand34_from-options, count_at-zeros,
}

-- The types that win, from `t` on, in their order: fewer than four are in the hand, and one more of
-- them makes a winning shape.
abbrev winning_from : ℕ → ℕ → Hand34 → ℕ → List TileType
winning_from zero t hand n = []
winning_from (suc k) t hand n =
    if ltb (count_at hand t) 4 && is_agari_shape (add_at hand t 1) n
    then t ∷ winning_from k (t + 1) hand n
    else winning_from k (t + 1) hand n

abbrev pub winning_types : Hand34 → ℕ → List TileType
winning_types hand n = winning_from 34 0 hand n

pure_waits-winning_from :
    (k t : ℕ) (h : Hand34) (n : ℕ) (waits : List TileType)
    → pure_waits k t h n waits ≡ waits ++ winning_from k t h n
unfolding pure_waits
pure_waits-winning_from zero t h n waits = sym (append-nil waits)
pure_waits-winning_from (suc k) t h n waits = elim (Bool-cases (leb 4 (count_at h t))) [
  | inl full ↦
      let few : ltb (count_at h t) 4 ≡ false = ground (arith, full) in
      rw (full, few) (pure_waits-winning_from k (t + 1) h n waits)
  | inr free ↦
      let few : ltb (count_at h t) 4 ≡ true = ground (arith, free) in
      elim (Bool-cases (is_agari_shape (add_at h t 1) n)) [
        | inl wins ↦
            rw (free, few, wins)
              (pure_waits-winning_from k (t + 1) h n (waits ++ t ∷ [])
                ∙ append_assoc waits (t ∷ []) (winning_from k (t + 1) h n))
        | inr loses ↦ rw (free, few, loses) (pure_waits-winning_from k (t + 1) h n waits)
      ]
]

-- The counts of a hand without one tile of type `i`, which it holds.
pub record Without (i : ℕ) (tiles : List Tile) (hand : Hand34) : Type 0 where
  pub in_range : i < 34
  pub held : 0 < length (tiles_of i tiles)
  pub size : length hand ≡ 34
  pub counts :
      (u : ℕ) → u < 34 → count_at hand u + (if i == u then 1 else 0) ≡ length (tiles_of u tiles)

-- A discard that leaves a hand which one more tile completes, with the tiles to choose from, all the
-- types that complete it and their count.
pub record IsCandidate (tiles : List Tile) (n : ℕ) (visible : Option (List ℕ)) (c : Candidate)
    : Type 0 where
  pub hand : Hand34
  pub without : Without c.discard_type tiles hand
  pub options : c.discard_options ≡ tiles_of c.discard_type tiles
  pub waits : c.waits ≡ winning_types hand n
  pub some_wait : 0 < length c.waits
  pub ukeire : c.ukeire ≡ ukeire_by_waits hand c.waits visible (pos 0)

module _ (tiles : List Tile) (types : AllTypes tiles) (few : length tiles < 256) where
  counts_of : (u : ℕ) → count_at (hand34_from_tiles tiles).0 u ≡ length (tiles_of u tiles)
  unfolding hand34_from_tiles
  counts_of u =
      let empty = count_at-zeros 34 u in
      hand34_from-counts tiles (replicate 34 0) (λ v. []) u types refl (omega (arith, empty, few))
      ∙ omega (arith, empty)

  size_of : length (hand34_from_tiles tiles).0 ≡ 34
  unfolding hand34_from_tiles
  size_of = hand34_from-length tiles (replicate 34 0) (λ v. [])

  options_of : (u : ℕ) → (hand34_from_tiles tiles).1 u ≡ tiles_of u tiles
  unfolding hand34_from_tiles
  options_of u = hand34_from-options tiles (replicate 34 0) (λ v. []) u

  sub_at-Without :
      (i : ℕ)
      → i < 34
      → 0 < length (tiles_of i tiles)
      → Without i tiles (sub_at (hand34_from_tiles tiles).0 i 1)
  sub_at-Without i p held =
      let h = (hand34_from_tiles tiles).0 in
      record {
        in_range = p;
        held = held;
        size = length-sub_at h i 1 ∙ size_of;
        counts = λ u q. ground (
          arith,
          count_at-sub_at h i 1 u (omega (arith, size_of)),
          counts_of u,
          counts_of i,
          held,
          count_at_eq h i u,
        );
      }

  -- There is one such hand.
  Without-sub_at :
      (i : ℕ) (hand : Hand34) → Without i tiles hand → sub_at (hand34_from_tiles tiles).0 i 1 ≡ hand
  Without-sub_at i hand w =
      let mine = sub_at-Without i w.in_range w.held in
      list_ext _ hand (mine.size ∙ sym w.size) (λ u q.
        omega
          (arith, mine.counts u (omega (arith, mine.size)), w.counts u (omega (arith, mine.size))))

  candidate-IsCandidate :
      (n : ℕ) (visible : Option (List ℕ)) (j : ℕ)
      → let c = candidate (hand34_from_tiles tiles).0 (hand34_from_tiles tiles).1 n visible j in
        j < 34
        → 0 < count_at (hand34_from_tiles tiles).0 j
        → 0 < length c.waits
        → IsCandidate tiles n visible c
  candidate-IsCandidate n visible j p held some_wait =
      let hand = sub_at (hand34_from_tiles tiles).0 j 1 in
      record {
        hand = hand;
        without = sub_at-Without j p (omega (arith, counts_of j, held));
        options = options_of j;
        waits = pure_waits-winning_from 34 0 hand n [];
        some_wait = some_wait;
        ukeire = refl;
      }

  IsCandidate-candidate :
      (n : ℕ) (visible : Option (List ℕ)) (c : Candidate)
      → IsCandidate tiles n visible c
      → c
        ≡ candidate (hand34_from_tiles tiles).0 (hand34_from_tiles tiles).1 n visible c.discard_type
  IsCandidate-candidate n visible c found =
      let hand = sub_at (hand34_from_tiles tiles).0 c.discard_type 1 in
      let e = Without-sub_at c.discard_type found.hand found.without in
      let o = found.options ∙ sym (options_of c.discard_type) in
      let w : c.waits ≡ pure_waits 34 0 hand n [] =
        found.waits
        ∙ ap (λ (g : Hand34). winning_types g n) (sym e)
        ∙ sym (pure_waits-winning_from 34 0 hand n []) in
      let u : c.ukeire ≡ ukeire_by_waits hand (pure_waits 34 0 hand n []) visible (pos 0) =
        found.ukeire
        ∙ ap (λ (g : Hand34). ukeire_by_waits g c.waits visible (pos 0)) (sym e)
        ∙ ap (λ (ws : List TileType). ukeire_by_waits hand ws visible (pos 0)) w in
      λ k. record {
        discard_type = c.discard_type;
        discard_options = o k;
        waits = w k;
        ukeire = u k;
      }

  Found-IsCandidate :
      (n : ℕ) (visible : Option (List ℕ)) (c : Candidate)
      → ((j : ℕ) × (0 ≤ j)
          × (j < 34)
          × Found (hand34_from_tiles tiles).0 (hand34_from_tiles tiles).1 n visible j c)
        ↔ IsCandidate tiles n visible c
  Found-IsCandidate n visible c = (
    λ (j, _, p, (held, some_wait, e)). subst (IsCandidate tiles n visible) (sym e) (
        candidate-IsCandidate n visible j p held
          (omega (arith, some_wait, ap (λ (d : Candidate). length d.waits) e))),
    λ found. (
      c.discard_type,
      omega arith,
      found.without.in_range,
      (
        omega (arith, counts_of c.discard_type, found.without.held),
        found.some_wait,
        IsCandidate-candidate n visible c found,
      ),
    ),
  )

-- On sound caches, with fewer than 256 called melds and fewer than 256 tiles, all of the 34
-- types, SeekCandidates finds exactly the discards of a held type that leave a wait, each with
-- all the tiles of its type in the hand, with the types, in their order, of which fewer than
-- four are in the rest of the hand and one more makes a winning shape, and with the count that
-- ukeireByWaits gives for these; and it leaves the caches sound.
pub seek_candidates_iff :
    (s : Searcher) (hand14 : List Tile) (n : ℕ) (visible : Option (List ℕ)) (c : Candidate)
    → IsSound s
    → n < 256
    → AllTypes hand14
    → length hand14 < 256
    → IsSound (seek_candidates s hand14 n visible).0
      × (Memᴰ c (seek_candidates s hand14 n visible).1 ↔ IsCandidate hand14 n visible c)
unfolding seek_candidates
seek_candidates_iff s hand14 n visible c sound p types few =
    let (h14, opts) = hand34_from_tiles hand14 in
    let (answer, sound') =
      seek_loop_lem 34 0 h14 opts n visible s [] (size_of hand14 types few) p sound in
    let mem = pure_seek_mem h14 opts n visible 34 0 [] c in
    let found = Found-IsCandidate hand14 types few n visible c in
    (
      sound',
      rw answer (
        λ m. elim (mem.0 m) [ inl nothing ↦ elim nothing [ ] | inr f ↦ found.0 f ],
        λ f. mem.1 (inr (found.1 f)),
      ),
    )
