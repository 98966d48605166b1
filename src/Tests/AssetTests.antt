-- ===== src/Tests/AssetTests.antt =====
-- A record with one asset, and a band that it lacks.
use icechest.Base.{refl, true, Option, some, [], ◌∷◌}
use icechest.Base.Dict
use icechest.Base.Dict.{Dict}
use icechest.Demo.Assets.{
  Asset, strip_prefix, asset_key, to_s3_url, usable_href, asset_url, collect_urls, asset_urls,
}
use icechest.Demo.Assets.Keys.{IsUrl, asset_urls-IsUrl}

abbrev assets : Dict (Option Asset)
assets =
    (
      "B01",
      some (record {
        href = some "https://data.lpdaac.earthdatacloud.nasa.gov/lp-prod-protected/B01.tif";
      }),
    )
    ∷ []

asset_urls-IsUrl_example : IsUrl true assets "B01" "s3://lp-prod-protected/B01.tif"
unfolding asset_urls collect_urls asset_url usable_href to_s3_url asset_key strip_prefix Dict.get
    Dict.insert
asset_urls-IsUrl_example =
    asset_urls-IsUrl assets ("B01" ∷ "B02" ∷ []) "s3" "B01" "s3://lp-prod-protected/B01.tif"
      {urls = ("B01", "s3://lp-prod-protected/B01.tif") ∷ []} refl refl
