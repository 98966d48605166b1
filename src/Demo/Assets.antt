-- ===== src/Demo/Assets.antt =====
-- demo/assets.py: the forms of an asset's URL.
pub mod Keys
use Prim.Native.Char.{Char, code}
use icechest.Base.{
  ℕ, String, ◌<>◌, Bool, true, false, not, ◌&&◌, ◌||◌, Option, none, some, List, [], ◌∷◌, ◌==◌,
  if◌then◌else◌, nat_eq, is_empty_text, is_some, contains_text,
}
use icechest.Base.Dict
use icechest.Base.Dict.{Dict}
use icechest.Base.Exec.{Result, ok, err, ◌>>=ᵣ◌}

abbrev pub https_prefix : String
https_prefix = "https://data.lpdaac.earthdatacloud.nasa.gov/"

abbrev pub s3_prefix : String
s3_prefix = "s3://lp-prod-protected/"

-- `f"{LPDAAC_HTTPS_PREFIX}lp-prod-protected/"`
abbrev pub https_asset_prefix : String
https_asset_prefix = "https://data.lpdaac.earthdatacloud.nasa.gov/lp-prod-protected/"

-- `DEFAULT_BANDS`
abbrev default_bands : List String
default_bands =
    "B01" ∷ "B02" ∷ "B03" ∷ "B04" ∷ "B05" ∷ "B06" ∷ "B07" ∷ "B09" ∷ "B10" ∷ "B11" ∷ "Fmask" ∷ "SZA"
    ∷ "SAA" ∷ "VZA" ∷ "VAA" ∷ []

-- `ACCESS_MODES`
abbrev access_modes : List String
access_modes = "s3" ∷ "https" ∷ []

-- `f"vcc://{CONTAINER_NAME}/"`
abbrev pub vcc_prefix : String
vcc_prefix = "vcc://lpdaac/"

pub data AssetError : Type 0 where
  not_distribution : String → AssetError
  not_protected : String → AssetError
  unknown_access : String → AssetError

-- `s[len(prefix):]` where `s.startswith(prefix)`
unfoldable pub strip_prefix : String → String → Option String
strip_prefix String.[] s = some s
strip_prefix (String.◌∷◌ c p) String.[] = none
strip_prefix (String.◌∷◌ c p) (String.◌∷◌ d s) =
    let rest = strip_prefix p s in if nat_eq (code c) (code d) then rest else none

unfoldable pub asset_key : String → Result AssetError String
asset_key href =
    if not (is_some (strip_prefix https_prefix href))
    then err (not_distribution href)
    else elim (strip_prefix https_asset_prefix href) [
      | none ↦ err (not_protected href)
      | some key ↦ ok key
    ]

unfoldable pub to_s3_url : String → Result AssetError String
to_s3_url href = asset_key href >>=ᵣ λ key. ok (s3_prefix <> key)

unfoldable pub to_vcc_url : String → Result AssetError String
to_vcc_url href = asset_key href >>=ᵣ λ key. ok (vcc_prefix <> key)

-- An asset of a STAC record: its `href`, if there is one.
pub record Asset : Type 0 where
  pub href : Option String

-- `asset["href"]` where `asset and asset.get("href")`
unfoldable pub usable_href : Option (Option Asset) → Option String
usable_href none = none
usable_href (some none) = none
usable_href (some (some asset)) = elim asset.href [
  | none ↦ none
  | some href ↦ if is_empty_text href then none else some href
]

-- The URL of one usable asset, by whether the access is in-region.
unfoldable pub asset_url : Bool → String → Result AssetError String
asset_url in_region href = asset_key href >>=ᵣ λ _. if in_region then to_s3_url href else ok href

-- The loop over the bands.
unfoldable pub collect_urls :
    Bool → Dict (Option Asset) → List String → Dict String → Result AssetError (Dict String)
collect_urls in_region assets [] urls = ok urls
collect_urls in_region assets (band ∷ bands) urls = elim (usable_href (Dict.get band assets)) [
  | none ↦ collect_urls in_region assets bands urls
  | some href ↦ asset_url in_region href >>=ᵣ λ url.
      collect_urls in_region assets bands (Dict.insert band url urls)
]

unfoldable pub asset_urls :
    Dict (Option Asset) → List String → String → Result AssetError (Dict String)
asset_urls assets bands access =
    if not (contains_text access_modes access)
    then err (unknown_access access)
    else collect_urls (access == "s3") assets bands []
