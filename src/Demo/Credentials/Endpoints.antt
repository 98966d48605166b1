-- ===== src/Demo/Credentials/Endpoints.antt =====
-- Which object a recorded reference reaches, from each of the places that name it.
use icechest.Base.{
  String, ◌<>◌, ◌≡◌, ap, true, false, not, Option, some, [], ◌∷◌, ◌==◌, if◌then◌else◌, arith, inl,
  inr, eq_iff, Option-cases,
}
use icechest.Base.Dict
use icechest.Base.Dict.{Dict}
use icechest.Base.Exec.{ok, Result-cases}
use icechest.Demo.Assets.{
  https_asset_prefix, s3_prefix, vcc_prefix, asset_key, to_s3_url, to_vcc_url, asset_url,
}
use icechest.Demo.Assets.Keys.{asset_key-ok}
use icechest.Demo.Credentials.{
  Earthdata, VirtualChunkContainer, container_name, virtual_chunk_container, container_credentials,
  object_store_registry, https_registry, s3_registry, token_or_login, lpdaac_credentials,
}

modes_apart : (access : String) → (access == "s3") ≡ true → (access == "https") ≡ false
modes_apart access s3 =
    let same : access ≡ "s3" = ground (arith, eq_iff access "s3") in ap (λ a. a == "https") same

module _ (E : Earthdata) where
  open E use {World, ObjectStore}

  -- Icechunk: a reference `vcc://<name>/<key>` resolves, against the container of that name, to the
  -- container's prefix with the key.
  pub record Resolves (resolve : VirtualChunkContainer E → String → Option String) : Type 0 where
    pub resolved :
        (c : VirtualChunkContainer E) (key : String)
        → c.name ≡ container_name
        → resolve c (vcc_prefix <> key) ≡ some (c.url_prefix <> key)

  -- A container, where there is one, has the name of the references, and the prefix of the access.
  container_prefix :
      (access : String) (token : Option String) {c : VirtualChunkContainer E}
      → virtual_chunk_container E access token ≡ ok c
      → (c.name ≡ container_name)
        × (c.url_prefix ≡ (if access == "s3" then s3_prefix else https_asset_prefix))
        × ((access == "https") ≡ not (access == "s3"))
  unfolding virtual_chunk_container
  container_prefix access token h = elim (Option-cases token) [
    | inl missing ↦ (ground arith, ground arith, ground (arith, modes_apart access))
    | inr (t, given) ↦ (ground arith, ground arith, ground (arith, modes_apart access))
  ]

  registry_prefix :
      (access : String) (given : Option String) (s : Option String × World)
      {registry : Dict ObjectStore}
      → (object_store_registry E access given s).0 ≡ ok registry
      → Dict.keys registry ≡ (if access == "https" then https_asset_prefix else s3_prefix) ∷ []
  unfolding object_store_registry https_registry s3_registry Dict.keys
  registry_prefix access given s ready = elim (Result-cases (token_or_login E given s).0) [
    | inl (token, had) ↦ elim (Result-cases (lpdaac_credentials E s).0) [
      | inl (issued, done) ↦ ground arith
      | inr (e, failed) ↦ ground arith
    ]
    | inr (e', failed') ↦ elim (Result-cases (lpdaac_credentials E s).0) [
      | inl (issued, done) ↦ ground arith
      | inr (e, failed) ↦ ground arith
    ]
  ]

  -- Where Icechunk resolves a reference by its container, a reader who opens the store in an access
  -- mode reaches, by the reference recorded for an asset, the very URL that an ingest in that mode
  -- reads the asset's headers from; and the container's credentials, and the registry of an ingest
  -- where it has its tokens, stand under the prefix of that URL.
  pub resolve-asset_url :
      {resolve : VirtualChunkContainer E → String → Option String}
      → Resolves resolve
      → (access href reference : String) (token given : Option String) (s : Option String × World)
        {c : VirtualChunkContainer E} {registry : Dict ObjectStore}
      → virtual_chunk_container E access token ≡ ok c
      → to_vcc_url href ≡ ok reference
      → (object_store_registry E access given s).0 ≡ ok registry
      → ((key : String) × (resolve c reference ≡ some (c.url_prefix <> key))
          × (asset_url (access == "s3") href ≡ ok (c.url_prefix <> key)))
        × (Dict.keys (container_credentials E access) ≡ c.url_prefix ∷ [])
        × (Dict.keys registry ≡ c.url_prefix ∷ [])
  unfolding to_vcc_url asset_url to_s3_url container_credentials Dict.keys
  resolve-asset_url law access href reference token given s {c} opened recorded ready =
      elim (Result-cases (asset_key href)) [
        | inl (key, found) ↦
            let (named, prefix, modes) = container_prefix access token opened in
            (
              (
                key,
                ground (arith, law.resolved c key named),
                ground (arith, asset_key-ok href found),
              ),
              ground (arith),
              ground (arith, registry_prefix access given s ready),
            )
        | inr (e, failed) ↦ absurd (ground arith)
      ]
