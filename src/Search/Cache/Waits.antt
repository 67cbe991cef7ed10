-- ===== src/Search/Cache/Waits.antt =====
-- What `WaitsAndUkeire` of searcher.go answers, whatever was asked before.
use mathlib.Core.List.{Memᴰ}
use go_mahjong.Common.{
  ℕ, zero, suc, ◌+◌, ◌≤◌, ◌<◌, ◌≡◌, ◌↔◌, ◌⊎◌, inl, inr, refl, sym, ap, subst, true, false, List, [],
  ◌∷◌, ◌++◌, Option, arith, leb, ◌==◌, length, Bool-cases,
}
use go_mahjong.Common.Int.{ℤ}
use go_mahjong.Tiles.{TileType}
use go_mahjong.Search.{Hand34, count_at, add_at, is_agari_shape}
use go_mahjong.Search.Cache.{Searcher, waits_and_ukeire}
use go_mahjong.Search.Cache.Sound.{IsSound, pure_step, pure_waits, waits_and_ukeire_lem}

-- Tile `u` may be drawn and wins.
abbrev pub Wins : Hand34 → ℕ → ℕ → Type 0
Wins h13 n u = (count_at h13 u < 4) × (is_agari_shape (add_at h13 u 1) n ≡ true)

Memᴰ-append_one : {u t : ℕ} (ws : List ℕ) → Memᴰ u (ws ++ t ∷ []) → Memᴰ u ws ⊎ (u ≡ t)
Memᴰ-append_one [] (Memᴰ.head e) = inr e
Memᴰ-append_one [] (Memᴰ.tail m) = elim m [ ]
Memᴰ-append_one (w ∷ ws) (Memᴰ.head e) = inl (Memᴰ.head e)
Memᴰ-append_one (w ∷ ws) (Memᴰ.tail m) = elim (Memᴰ-append_one ws m) [
  | inl k ↦ inl (Memᴰ.tail k)
  | inr e ↦ inr e
]

Memᴰ-append_left : {u : ℕ} (t : ℕ) (ws : List ℕ) → Memᴰ u ws → Memᴰ u (ws ++ t ∷ [])
Memᴰ-append_left t [] m = elim m [ ]
Memᴰ-append_left t (w ∷ ws) (Memᴰ.head e) = Memᴰ.head e
Memᴰ-append_left t (w ∷ ws) (Memᴰ.tail m) = Memᴰ.tail (Memᴰ-append_left t ws m)

Memᴰ-append_right : {u t : ℕ} (ws : List ℕ) → u ≡ t → Memᴰ u (ws ++ t ∷ [])
Memᴰ-append_right [] e = Memᴰ.head e
Memᴰ-append_right (w ∷ ws) e = Memᴰ.tail (Memᴰ-append_right ws e)

pure_step_mem :
    (t : ℕ) (h13 : Hand34) (n u : ℕ) (waits : List TileType)
    → Memᴰ u (pure_step t h13 n waits)
    → Memᴰ u waits ⊎ ((u ≡ t) × Wins h13 n u)
pure_step_mem t h13 n u waits m = elim (Bool-cases (leb 4 (count_at h13 t))) [
  | inl full ↦ inl (rw full at m)
  | inr free ↦ elim (Bool-cases (is_agari_shape (add_at h13 t 1) n)) [
    | inl wins ↦ elim (Memᴰ-append_one waits (rw (free, wins) at m)) [
      | inl old ↦ inl old
      | inr e ↦ inr (e, subst (Wins h13 n) (sym e) (ground arith, wins))
    ]
    | inr loses ↦ inl (rw (free, loses) at m)
  ]
]

pure_step_keeps :
    (t : ℕ) (h13 : Hand34) (n u : ℕ) (waits : List TileType)
    → Memᴰ u waits
    → Memᴰ u (pure_step t h13 n waits)
pure_step_keeps t h13 n u waits m = elim (Bool-cases (leb 4 (count_at h13 t))) [
  | inl full ↦ rw full m
  | inr free ↦ elim (Bool-cases (is_agari_shape (add_at h13 t 1) n)) [
    | inl wins ↦ rw (free, wins) (Memᴰ-append_left t waits m)
    | inr loses ↦ rw (free, loses) m
  ]
]

pure_step_adds :
    (t : ℕ) (h13 : Hand34) (n : ℕ) (waits : List TileType)
    → Wins h13 n t
    → Memᴰ t (pure_step t h13 n waits)
pure_step_adds t h13 n waits (free, wins) =
    let not_full : leb 4 (count_at h13 t) ≡ false = ground arith in
    rw (not_full, wins) (Memᴰ-append_right waits refl)

pure_waits_mem :
    (k t : ℕ) (h13 : Hand34) (n u : ℕ) (waits : List TileType)
    → Memᴰ u (pure_waits k t h13 n waits)
    → Memᴰ u waits ⊎ ((u < t + k) × Wins h13 n u)
unfolding pure_waits
pure_waits_mem zero t h13 n u waits m = inl m
pure_waits_mem (suc k) t h13 n u waits m =
    elim (pure_waits_mem k (t + 1) h13 n u (pure_step t h13 n waits) m) [
      | inl old ↦ elim (pure_step_mem t h13 n u waits old) [
        | inl older ↦ inl older
        | inr (e, w) ↦ inr (omega arith, w)
      ]
      | inr (p, w) ↦ inr (omega arith, w)
    ]

pure_waits_keeps :
    (k t : ℕ) (h13 : Hand34) (n u : ℕ) (waits : List TileType)
    → Memᴰ u waits
    → Memᴰ u (pure_waits k t h13 n waits)
unfolding pure_waits
pure_waits_keeps zero t h13 n u waits m = m
pure_waits_keeps (suc k) t h13 n u waits m =
    pure_waits_keeps k (t + 1) h13 n u _ (pure_step_keeps t h13 n u waits m)

pure_waits_adds :
    (k t : ℕ) (h13 : Hand34) (n u : ℕ) (waits : List TileType)
    → t ≤ u
    → u < t + k
    → Wins h13 n u
    → Memᴰ u (pure_waits k t h13 n waits)
unfolding pure_waits
pure_waits_adds zero t h13 n u waits p q w = absurd (omega arith)
pure_waits_adds (suc k) t h13 n u waits p q w = elim (Bool-cases (t == u)) [
  | inl e ↦
      let same : u ≡ t = ground arith in
      pure_waits_keeps k (t + 1) h13 n u _ (
        subst (λ v. Memᴰ v (pure_step t h13 n waits)) (sym same)
          (pure_step_adds t h13 n waits (subst (Wins h13 n) same w)))
  | inr e ↦ pure_waits_adds k (t + 1) h13 n u _ (ground arith) (omega arith) w
]

pub pure_waits_iff :
    (h13 : Hand34) (n u : ℕ) → Memᴰ u (pure_waits 34 0 h13 n []) ↔ ((u < 34) × Wins h13 n u)
pure_waits_iff h13 n u = (
  λ m. elim (pure_waits_mem 34 0 h13 n u [] m) [
    | inl nothing ↦ elim nothing [ ]
    | inr (q, w) ↦ (omega arith, w)
  ],
  λ (q, w). pure_waits_adds 34 0 h13 n u [] (omega arith) (omega arith) w,
)

-- On sound caches, with 34 counters and fewer than 256 called melds, WaitsAndUkeire lists
-- exactly the types of which fewer than four are in the hand and one more tile wins, and it
-- leaves the caches sound.
pub waits_and_ukeire_iff :
    (s : Searcher) (h13 : Hand34) (n : ℕ) (visible : Option (List ℕ)) (u : ℕ)
    → IsSound s
    → length h13 ≡ 34
    → n < 256
    → IsSound (waits_and_ukeire s h13 n visible).0
      × (Memᴰ u (waits_and_ukeire s h13 n visible).1 ↔ ((u < 34) × Wins h13 n u))
waits_and_ukeire_iff s h13 n visible u c l p =
    let (answer, sound) = waits_and_ukeire_lem s h13 n visible c l p in
    let waits = ap (λ (r : List TileType × ℤ). r.0) answer in
    (sound, rw waits (pure_waits_iff h13 n u))
