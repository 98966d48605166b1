-- ===== src/Tests/CredentialTests.antt =====
-- A reader over https, with a token.
use icechest.Base.{String, ◌<>◌, ◌≡◌, refl, ap, rstrip_slash, Option, none, some, [], ◌∷◌, ◌==◌}
use icechest.Base.Dict
use icechest.Base.Dict.{Dict}
use icechest.Base.Exec.{ok, err}
use icechest.Demo.Assets.{
  strip_prefix, vcc_prefix, https_asset_prefix, asset_key, to_vcc_url, asset_url,
}
use icechest.Demo.Assets.Keys.{strip_prefix-append}
use icechest.Demo.Credentials.{
  Earthdata, VirtualChunkContainer, virtual_chunk_container, container_credentials,
  object_store_registry, token_or_login,
}
use icechest.Demo.Credentials.Endpoints.{Resolves, resolve-asset_url}

-- Stores are the texts that they are made of.
abbrev pub offline : Earthdata
offline = record {
  World = Unit {0};
  Time = Unit {0};
  get_bucket_credentials = λ prefix w. (ok ("id", "secret", "session", tt), w);
  login_token = λ w. (err "no network", w);
  StoreConfig = String;
  s3_store = λ region. region;
  http_store = λ headers. "http";
  Credentials = Unit {0};
  refreshable = tt;
  ObjectStore = String;
  from_url_headers = λ url headers. url;
  from_url_options = λ url options. url;
}

abbrev by_prefix : VirtualChunkContainer offline → String → Option String
by_prefix c reference = elim (strip_prefix vcc_prefix reference) [
  | none ↦ none
  | some key ↦ some (c.url_prefix <> key)
]

by_prefix-Resolves : Resolves offline by_prefix
by_prefix-Resolves = record {
  resolved = λ c key named.
      ap (λ stripped. elim stripped [ none ↦ none | some key' ↦ some (c.url_prefix <> key') ])
        (strip_prefix-append vcc_prefix key);
}

abbrev container : VirtualChunkContainer offline
container = record { url_prefix = https_asset_prefix; store = "http"; name = "lpdaac" }

abbrev href : String
href = "https://data.lpdaac.earthdatacloud.nasa.gov/lp-prod-protected/B01.tif"

abbrev registry : Dict String
registry =
    (https_asset_prefix, "https://data.lpdaac.earthdatacloud.nasa.gov/lp-prod-protected") ∷ []

resolve-asset_url_example :
    ((key : String) × (by_prefix container "vcc://lpdaac/B01.tif"
        ≡ some (https_asset_prefix <> key))
      × (asset_url ("https" == "s3") href ≡ ok (https_asset_prefix <> key)))
    × (Dict.keys (container_credentials offline "https") ≡ https_asset_prefix ∷ [])
    × (Dict.keys registry ≡ https_asset_prefix ∷ [])
unfolding virtual_chunk_container to_vcc_url asset_key strip_prefix object_store_registry
    token_or_login rstrip_slash
resolve-asset_url_example =
    resolve-asset_url offline by_prefix-Resolves "https" href "vcc://lpdaac/B01.tif" (some "t")
      (some "t") (none, tt) {c = container} {registry = registry} refl refl refl
