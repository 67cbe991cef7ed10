-- ===== src/Search/Cache/Sound.antt =====
-- The caches of searcher.go never change an answer.
use go_mahjong.Common.{
  ℕ, zero, suc, ◌+◌, ◌%◌, ◌<◌, ◌≡◌, inl, inr, refl, sym, ◌∙◌, ap₂, true, List, [], ◌∷◌, ◌++◌,
  Option, some, arith, leb, if◌then◌else◌, length, Bool-cases, Option-cases,
}
use go_mahjong.Common.Int.{ℤ, pos}
use go_mahjong.Tiles.{TileType}
use go_mahjong.Search.{Hand34, count_at, add_at, is_agari_shape}
use go_mahjong.Search.Counts.{length-add_at}
use go_mahjong.Search.Cache.{
  Key, key_eq, lookup_key, store_key, Searcher, new_searcher, key_with_fixed_melds, is_agari_all,
  wait_step, find_waits, ukeire_by_waits, waits_and_ukeire,
}

key_eq_holds : (j k : Key) → key_eq j k ≡ true → j ≡ k
key_eq_holds [] [] e = refl
key_eq_holds [] (y ∷ ys) e = cc
key_eq_holds (x ∷ xs) [] e = cc
key_eq_holds (x ∷ xs) (y ∷ ys) e = ground (arith, key_eq_holds xs ys)

append_one_injective :
    (g h : List ℕ) (x y : ℕ) → length g ≡ length h → g ++ x ∷ [] ≡ h ++ y ∷ [] → (g ≡ h) × (x ≡ y)
append_one_injective [] [] x y l e = (refl, ground arith)
append_one_injective [] (b ∷ h) x y l e = absurd (omega arith)
append_one_injective (a ∷ g) [] x y l e = absurd (omega arith)
append_one_injective (a ∷ g) (b ∷ h) x y l e = ground (arith, append_one_injective g h x y)

-- Two hands share a key only if they are the same, with as many melds called.
key_injective :
    (g h : Hand34) (m n : ℕ)
    → length g ≡ 34
    → length h ≡ 34
    → m < 256
    → n < 256
    → key_with_fixed_melds g m ≡ key_with_fixed_melds h n
    → (g ≡ h) × (m ≡ n)
unfolding key_with_fixed_melds
key_injective g h m n lg lh pm pn e =
    let (same, last) = append_one_injective g h (m % 256) (n % 256) (lg ∙ sym lh) e in
    (same, omega arith)

-- What the search for waits finds with no cache.
abbrev pub pure_step : ℕ → Hand34 → ℕ → List TileType → List TileType
pure_step t h13 fixed_melds waits =
    if leb 4 (count_at h13 t)
    then waits
    else (if is_agari_shape (add_at h13 t 1) fixed_melds then waits ++ t ∷ [] else waits)

unfoldable pub pure_waits : ℕ → ℕ → Hand34 → ℕ → List TileType → List TileType
pure_waits zero t h13 fixed_melds waits = waits
pure_waits (suc n) t h13 fixed_melds waits =
    pure_waits n (t + 1) h13 fixed_melds (pure_step t h13 fixed_melds waits)

-- A cache holds only what `f` computes.
abbrev pub Caches {ℓ} : {V : Type ℓ} → List (Key × V) → (Hand34 → ℕ → V) → Type ℓ
Caches {V} m f =
    (h : Hand34) (n : ℕ) (v : V)
    → length h ≡ 34
    → n < 256
    → lookup_key (key_with_fixed_melds h n) m ≡ some v
    → v ≡ f h n

pub record IsSound (s : Searcher) : Type 0 where
  pub agari : Caches s.agari_cache is_agari_shape
  pub waits : Caches s.waits_cache (λ h n. pure_waits 34 0 h n [])

pub new_searcher-IsSound : IsSound new_searcher
unfolding new_searcher lookup_key
new_searcher-IsSound = record { agari = λ h n v l p e. cc; waits = λ h n v l p e. cc }

Caches-store {ℓ} :
    {V : Type ℓ} (m : List (Key × V)) (f : Hand34 → ℕ → V) (g : Hand34) (k : ℕ)
    → length g ≡ 34
    → k < 256
    → Caches m f
    → Caches (store_key (key_with_fixed_melds g k) (f g k) m) f
unfolding store_key lookup_key
Caches-store m f g k lg pk c h n v l p e =
    elim (Bool-cases (key_eq (key_with_fixed_melds g k) (key_with_fixed_melds h n))) [
      | inl same ↦
          let (eg, ek) = key_injective g h k n lg l pk p (key_eq_holds _ _ same) in
          let stored = rw same at e in let same_value : f g k ≡ f h n = ap₂ f eg ek in cc
      | inr other ↦ c h n v l p (rw other at e)
    ]

-- On sound caches, with 34 counters and fewer than 256 called melds, IsAgariAll answers as the
-- uncached tests of the shapes do, and its caches stay sound.
pub is_agari_all_lem :
    (s : Searcher) (h : Hand34) (n : ℕ)
    → IsSound s
    → length h ≡ 34
    → n < 256
    → ((is_agari_all s h n).1 ≡ is_agari_shape h n) × IsSound (is_agari_all s h n).0
unfolding is_agari_all
is_agari_all_lem s h n c l p =
    elim (Option-cases (lookup_key (key_with_fixed_melds h n) s.agari_cache)) [
      | inl miss ↦
          rw (miss, is_agari_all)
            (
              refl,
              record {
                agari = Caches-store s.agari_cache is_agari_shape h n l p c.agari;
                waits = c.waits;
              },
            )
      | inr (v, hit) ↦ rw (hit, is_agari_all) (c.agari h n v l p hit, c)
    ]

wait_step_lem :
    (t : ℕ) (h13 : Hand34) (n : ℕ) (s : Searcher) (waits : List TileType)
    → length h13 ≡ 34
    → n < 256
    → IsSound s
    → ((wait_step t h13 n s waits).1 ≡ pure_step t h13 n waits)
      × IsSound (wait_step t h13 n s waits).0
unfolding wait_step
wait_step_lem t h13 n s waits l p c =
    let (answer, sound) = is_agari_all_lem s (add_at h13 t 1) n c (length-add_at h13 t 1 ∙ l) p in
    elim (Bool-cases (leb 4 (count_at h13 t))) [
      | inl full ↦ rw full (refl, c)
      | inr free ↦ rw (free, answer) (refl, sound)
    ]

find_waits_lem :
    (k t : ℕ) (h13 : Hand34) (n : ℕ) (s : Searcher) (waits : List TileType)
    → length h13 ≡ 34
    → n < 256
    → IsSound s
    → ((find_waits k t h13 n s waits).1 ≡ pure_waits k t h13 n waits)
      × IsSound (find_waits k t h13 n s waits).0
unfolding find_waits pure_waits
find_waits_lem zero t h13 n s waits l p c = (refl, c)
find_waits_lem (suc k) t h13 n s waits l p c =
    let (answer, sound) = wait_step_lem t h13 n s waits l p c in
    rw (← answer) (find_waits_lem k (t + 1) h13 n (wait_step t h13 n s waits).0 _ l p sound)

-- The waits and the count that `WaitsAndUkeire` computes with no cache.
abbrev pub pure_result : Hand34 → ℕ → Option (List ℕ) → List TileType × ℤ
pure_result h13 n visible =
    (pure_waits 34 0 h13 n [], ukeire_by_waits h13 (pure_waits 34 0 h13 n []) visible (pos 0))

pub waits_and_ukeire_lem :
    (s : Searcher) (h13 : Hand34) (n : ℕ) (visible : Option (List ℕ))
    → IsSound s
    → length h13 ≡ 34
    → n < 256
    → let (s', waits, ukeire) = waits_and_ukeire s h13 n visible in
      ((waits, ukeire) ≡ pure_result h13 n visible) × IsSound s'
unfolding waits_and_ukeire
waits_and_ukeire_lem s h13 n visible c l p =
    let (answer, sound) = find_waits_lem 34 0 h13 n s [] l p c in
    elim (Option-cases (lookup_key (key_with_fixed_melds h13 n) s.waits_cache)) [
      | inl miss ↦
          rw (miss, waits_and_ukeire, answer)
            (
              refl,
              record {
                agari = sound.agari;
                waits = Caches-store _ (λ h k. pure_waits 34 0 h k []) h13 n l p sound.waits;
              },
            )
      | inr (v, hit) ↦
          let right : v ≡ pure_waits 34 0 h13 n [] = c.waits h13 n v l p hit in
          rw (hit, waits_and_ukeire, right) (refl, c)
    ]
