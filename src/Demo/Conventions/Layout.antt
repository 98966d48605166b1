-- ===== src/Demo/Conventions/Layout.antt =====
-- The levels that a layout declares.
use icechest.Base.{
  ℕ, zero, suc, ◌+◌, ◌-◌, String, ◌≡◌, ap, refl, Option, none, some, List, [], ◌∷◌, map, arith,
}
use icechest.Demo.Conventions.{
  LayoutEntry, base_level, overview, level_path, overviews, multiscale_layout,
}

-- The keys of an entry.
abbrev pub asset_of : LayoutEntry → String
asset_of (base_level asset) = asset
asset_of (overview asset derived_from scale) = asset

abbrev pub derived_from_of : LayoutEntry → Option String
derived_from_of (base_level asset) = none
derived_from_of (overview asset derived_from scale) = some derived_from

-- `range(n, n + count)`
abbrev pub range : ℕ → ℕ → List ℕ
range n zero = []
range n (suc count) = n ∷ range (n + 1) count

overviews-asset :
    (prefix name : String) (level count : ℕ)
    → map asset_of (overviews prefix name level count)
      ≡ map (level_path prefix name) (range level count)
unfolding overviews
overviews-asset prefix name level zero = refl
overviews-asset prefix name level (suc count) =
    ground (arith, overviews-asset prefix name (level + 1) count)

add-sub_one : (n : ℕ) → n + 1 - 1 ≡ n
add-sub_one n = omega arith

overviews-derived_from :
    (prefix name : String) (level count : ℕ)
    → map derived_from_of (overviews prefix name (level + 1) count)
      ≡ map (λ n. some (level_path prefix name n)) (range level count)
unfolding overviews
overviews-derived_from prefix name level zero = refl
overviews-derived_from prefix name level (suc count) = ground (
  arith,
  overviews-derived_from prefix name (level + 1) count,
  ap (level_path prefix name) (add-sub_one level),
)

-- For one level or more, the layout declares the array of each level, in their order, and derives
-- each from the array of the level before it, the first from none.
pub multiscale_layout-levels :
    (overview_count : ℕ) (array_name prefix : String)
    → let layout = multiscale_layout (overview_count + 1) array_name prefix in
      (map asset_of layout ≡ map (level_path prefix array_name) (range 0 (overview_count + 1)))
      × (map derived_from_of layout
          ≡ none ∷ map (λ n. some (level_path prefix array_name n)) (range 0 overview_count))
unfolding multiscale_layout
multiscale_layout-levels n name prefix =
    ground (arith, overviews-asset prefix name 1 n, overviews-derived_from prefix name 0 n)
