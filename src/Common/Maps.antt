-- ===== src/Common/Maps.antt =====
-- Go's maps with string keys, as lists of entries.
pub use Prim.Native.String.{String}
use text.Mathlib.Text.{◌==◌ as ◌=ₛ◌}
use text.Mathlib.TextEquality.{eq_iff}
use Prim.Native.Nat.{suc}
use mathlib.Core.Path.{◌≡◌, refl, ap, subst, ◌∙◌}
use mathlib.Core.Logic.{◌↔◌, inl, inr}
use mathlib.Core.Bool.{Bool, true, false, ◌||◌}
use mathlib.Core.Option.{Option, none, some}
use mathlib.Core.List.{List, [], ◌∷◌}
use native.Mathlib.Omega.{arith}
use go_mahjong.Common.Tests.{if◌then◌else◌, Bool-cases}
use go_mahjong.Common.Lists.{length}

abbrev pub same : String → String → Bool
same a b = a =ₛ b

pub same_iff : (a b : String) → (same a b ≡ true) ↔ (a ≡ b)
same_iff a b = eq_iff a b

abbrev pub Map {ℓ} : Type ℓ → Type ℓ
Map V = List (String × V)

abbrev pub is_some {ℓ} : {A : Type ℓ} → Option A → Bool
is_some none = false
is_some (some a) = true

pub same_refl : (a : String) → same a a ≡ true
same_refl a = (same_iff a a).1 refl

-- Whether a user is among some.
unfoldable pub among : String → List String → Bool
among u [] = false
among u (k ∷ ks) = same k u || among u ks

-- Each stands once.
abbrev pub AreDistinct : List String → Type 0
AreDistinct [] = Unit
AreDistinct (u ∷ us) = (among u us ≡ false) × AreDistinct us

module _ {ℓ} {V : Type ℓ} where
  -- `v, ok := m[k]`
  unfoldable pub get : String → Map V → Option V
  get k [] = none
  get k ((j, v) ∷ m) = if same j k then some v else get k m

  -- `delete(m, k)`
  unfoldable pub remove : String → Map V → Map V
  remove k [] = []
  remove k ((j, v) ∷ m) = let rest = remove k m in if same j k then rest else (j, v) ∷ rest

  -- `m[k] = v`
  unfoldable pub put : String → V → Map V → Map V
  put k v m = (k, v) ∷ remove k m

  unfoldable pub keys : Map V → List String
  keys [] = []
  keys ((j, v) ∷ m) = j ∷ keys m

  -- The loops `for k := range ks { m[k] = v }` and `for k := range ks { delete(m, k) }`.
  unfoldable pub put_all : List String → V → Map V → Map V
  put_all [] v m = m
  put_all (k ∷ ks) v m = put_all ks v (put k v m)

  unfoldable pub remove_all : List String → Map V → Map V
  remove_all [] m = m
  remove_all (k ∷ ks) m = remove_all ks (remove k m)

  pub get-remove :
      (k j : String) (m : Map V) → get j (remove k m) ≡ (if same k j then none else get j m)
  unfolding get remove
  get-remove k j [] = ground arith
  get-remove k j ((i, v) ∷ m) =
      ground (arith, get-remove k j m, same_iff i k, same_iff i j, same_iff k j)

  pub get-put :
      (k j : String) (v : V) (m : Map V)
      → get j (put k v m) ≡ (if same k j then some v else get j m)
  unfolding get put
  get-put k j v m = ground (arith, get-remove k j m)

  pub get-put_all :
      (ks : List String) (u : String) (v : V) (m : Map V)
      → get u (put_all ks v m) ≡ (if among u ks then some v else get u m)
  unfolding put_all among
  get-put_all [] u v m = refl
  get-put_all (k ∷ ks) u v m = ground (arith, get-put_all ks u v (put k v m), get-put k u v m)

  pub get-remove_all :
      (ks : List String) (u : String) (m : Map V)
      → get u (remove_all ks m) ≡ (if among u ks then none else get u m)
  unfolding remove_all among
  get-remove_all [] u m = refl
  get-remove_all (k ∷ ks) u m = ground (arith, get-remove_all ks u (remove k m), get-remove k u m)

  pub among-keys : (u : String) (m : Map V) → among u (keys m) ≡ is_some (get u m)
  unfolding among keys get
  among-keys u [] = refl
  among-keys u ((j, v) ∷ m) = ground (arith, among-keys u m)

module _ {ℓ} {V : Type ℓ} where
  -- Each key stands once.
  abbrev pub IsDistinct : Map V → Type ℓ
  IsDistinct [] = Unit
  IsDistinct ((k, v) ∷ m) = (get k m ≡ none) × IsDistinct m

  pub remove_missing : (k : String) (m : Map V) → get k m ≡ none → remove k m ≡ m
  unfolding get remove
  remove_missing k [] e = refl
  remove_missing k ((j, v) ∷ m) e = ground (arith, remove_missing k m)

  pub IsDistinct-remove : (k : String) (m : Map V) → IsDistinct m → IsDistinct (remove k m)
  unfolding remove
  IsDistinct-remove k [] d = tt
  IsDistinct-remove k ((j, v) ∷ m) d = elim (Bool-cases (same j k)) [
    | inl here ↦ rw here (IsDistinct-remove k m d.1)
    | inr other ↦ rw other (ground (arith, get-remove k j m, d.0), IsDistinct-remove k m d.1)
  ]

  pub IsDistinct-put : (k : String) (v : V) (m : Map V) → IsDistinct m → IsDistinct (put k v m)
  unfolding put
  IsDistinct-put k v m d = (get-remove k k m ∙ rw (same_refl k) refl, IsDistinct-remove k m d)

  pub length-put :
      (k : String) (v : V) (m : Map V) → get k m ≡ none → length (put k v m) ≡ suc (length m)
  unfolding put
  length-put k v m e = ap (λ (l : Map V). suc (length l)) (remove_missing k m e)

  pub length-remove :
      (k : String) (m : Map V) (v : V)
      → IsDistinct m
      → get k m ≡ some v
      → suc (length (remove k m)) ≡ length m
  unfolding get remove
  length-remove k [] v d e = cc
  length-remove k ((j, w) ∷ m) v d e = elim (Bool-cases (same j k)) [
    | inl here ↦
        let missing : get k m ≡ none =
          subst (λ (x : String). get x m ≡ none) ((same_iff j k).0 here) d.0 in
        rw here (ap (λ (l : Map V). suc (length l)) (remove_missing k m missing) ∙ omega arith)
    | inr other ↦ rw other (omega (arith, length-remove k m v d.1 (ground arith)))
  ]
