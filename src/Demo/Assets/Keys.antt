-- ===== src/Demo/Assets/Keys.antt =====
-- The key that an asset's URLs share.
use icechest.Base.{
  String, ◌<>◌, ◌≡◌, ◌∙◌, ap, sym, Bool, Option, some, List, [], ◌∷◌, arith, ◌==◌, eq_iff,
  if◌then◌else◌, inl, inr, Bool-cases, Option-cases,
}
use text.Mathlib.TextLemmas.{nil-append, cons-append}
use text.Mathlib.TextEquality.{Char-path}
use icechest.Base.Dict
use icechest.Base.Dict.{Dict, get-insert, get-nil}
use icechest.Base.Exec.{ok, Result-cases}
use icechest.Demo.Assets.{
  s3_prefix, https_asset_prefix, strip_prefix, asset_key, to_s3_url, Asset, usable_href, asset_url,
  collect_urls, asset_urls,
}

pub strip_prefix-append : (p s : String) → strip_prefix p (p <> s) ≡ some s
unfolding strip_prefix
strip_prefix-append String.[] s = ap some (nil-append s)
strip_prefix-append (String.◌∷◌ c p) s =
    ap (strip_prefix (String.◌∷◌ c p)) (cons-append c p s) ∙ ground (arith, strip_prefix-append p s)

strip_prefix-some : (p s : String) {rest : String} → strip_prefix p s ≡ some rest → s ≡ p <> rest
unfolding strip_prefix
strip_prefix-some String.[] s {rest} h = ground (arith, nil-append rest)
strip_prefix-some (String.◌∷◌ c p) String.[] h = cc
strip_prefix-some (String.◌∷◌ c p) (String.◌∷◌ d s) {rest} h =
    let tail : s ≡ p <> rest = strip_prefix-some p s (ground arith) in
    let head : c ≡ d = Char-path c d (ground arith) in
    sym (cons-append c p rest ∙ (λ i. String.◌∷◌ (head i) (sym tail i)))

pub asset_key-ok :
    (href : String) {key : String} → asset_key href ≡ ok key → href ≡ https_asset_prefix <> key
unfolding asset_key
asset_key-ok href {key} h = ground (arith, strip_prefix-some https_asset_prefix href {rest = key})

-- What the URL of a band is to be.
pub record IsUrl (in_region : Bool) (assets : Dict (Option Asset)) (band url : String)
    : Type 0 where
  pub href : String
  pub key : String
  pub listed : usable_href (Dict.get band assets) ≡ some href
  pub in_bucket : href ≡ https_asset_prefix <> key
  pub form : url ≡ (if in_region then s3_prefix <> key else href)

asset_url-ok :
    (in_region : Bool) (assets : Dict (Option Asset)) (band href : String) {url : String}
    → usable_href (Dict.get band assets) ≡ some href
    → asset_url in_region href ≡ ok url
    → IsUrl in_region assets band url
unfolding asset_url to_s3_url
asset_url-ok in_region assets band href listed h = elim (Result-cases (asset_key href)) [
  | inl (key, found) ↦ record {
    href = href;
    key = key;
    listed = listed;
    in_bucket = asset_key-ok href found;
    form = ground arith;
  }
  | inr (e, failed) ↦ ground arith
]

insert_one :
    (in_region : Bool) (assets : Dict (Option Asset)) (b u : String) (urls : Dict String)
    → ((band url : String) → Dict.get band urls ≡ some url → IsUrl in_region assets band url)
    → IsUrl in_region assets b u
    → (band url : String) → Dict.get band (Dict.insert b u urls) ≡ some url
    → IsUrl in_region assets band url
insert_one in_region assets b u urls so_far one band url at = elim (Bool-cases (b == band)) [
  | inl same ↦
      let here : b ≡ band = ground (arith, eq_iff b band) in
      let this : u ≡ url = ground (arith, get-insert band b u urls) in rw (← this) (rw (← here) one)
  | inr differ ↦ so_far band url (ground (arith, get-insert band b u urls))
]

collect_urls-IsUrl :
    (in_region : Bool) (assets : Dict (Option Asset)) (bands : List String) (urls : Dict String)
    {found : Dict String}
    → ((band url : String) → Dict.get band urls ≡ some url → IsUrl in_region assets band url)
    → collect_urls in_region assets bands urls ≡ ok found
    → (band url : String) → Dict.get band found ≡ some url
    → IsUrl in_region assets band url
unfolding collect_urls
collect_urls-IsUrl in_region assets [] urls so_far h band url there = so_far band url (ground arith)
collect_urls-IsUrl in_region assets (b ∷ bands) urls so_far h band url there =
    elim (Option-cases (usable_href (Dict.get b assets))) [
      | inl missing ↦
          collect_urls-IsUrl in_region assets bands urls so_far (ground arith) band url there
      | inr (href, listed) ↦ elim (Result-cases (asset_url in_region href)) [
        | inr (e, failed) ↦ ground arith
        | inl (u, made) ↦
            collect_urls-IsUrl in_region assets bands (Dict.insert b u urls)
              (insert_one in_region assets b u urls so_far
                (asset_url-ok in_region assets b href listed made))
              (ground arith) band url there
      ]
    ]

-- Each URL that `asset_urls` returns is that of an object of the protected bucket which the record
-- lists for the band: under the bucket's own name for in-region access, as listed otherwise.
pub asset_urls-IsUrl :
    (assets : Dict (Option Asset)) (bands : List String) (access band url : String)
    {urls : Dict String}
    → asset_urls assets bands access ≡ ok urls
    → Dict.get band urls ≡ some url
    → IsUrl (access == "s3") assets band url
unfolding asset_urls
asset_urls-IsUrl assets bands access band url h there =
    collect_urls-IsUrl (access == "s3") assets bands []
      (λ band' url' at. ground (arith, get-nil {V = String} band')) (ground arith) band url there
