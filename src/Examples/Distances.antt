-- ===== src/Examples/Distances.antt =====
-- Hands and how far they are from winning.
use go_mahjong.Common.{ℕ, refl, true, ◌≡◌, ◌↔◌, ◌⊎◌, ◌≤◌, some, arith}
use go_mahjong.Common.Int.{ℤ, pos, negsuc, neg_part}
use go_mahjong.Search.{is_agari_normal, is_agari_kokushi}
use go_mahjong.Search.Shanten.{dfs_normal_shanten, shanten_normal, shanten_shape}
use go_mahjong.Search.Shanten.Answer.{Holds}
use go_mahjong.Search.Shanten.Normal.{dfs_normal_shanten_returns, shanten_normal_iff}
use go_mahjong.Search.Shanten.Shapes.{IsSevenPairs, shanten_shape_iff}
use go_mahjong.Examples.{one_called, six_types}

dfs_normal_shanten_returns_example :
    (value : ℤ) × (dfs_normal_shanten 12 1 0 0 one_called (pos 8) ≡ some (one_called, value))
dfs_normal_shanten_returns_example =
    dfs_normal_shanten_returns 12 1 0 0 one_called (pos 8) refl (omega arith) (omega arith)

shanten_shape_iff_example : (shanten_shape six_types 0 ≡ some (negsuc 0)) ↔ (
    (is_agari_normal six_types 0 ≡ true)
    ⊎ ((◌≡◌ {A = ℕ} 0 0) × (IsSevenPairs six_types ⊎ (is_agari_kokushi six_types ≡ true))))
shanten_shape_iff_example = shanten_shape_iff six_types 0 refl refl

shanten_normal_iff_example :
    ((value : ℤ) × (shanten_normal one_called 1 ≡ some value) × (neg_part value ≤ 1))
    × ((shanten_normal one_called 1 ≡ some (negsuc 0)) ↔ Holds 1 0 one_called)
shanten_normal_iff_example = shanten_normal_iff one_called 1 refl
