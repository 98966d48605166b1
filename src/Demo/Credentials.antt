-- ===== src/Demo/Credentials.antt =====
-- demo/credentials.py: the container that recorded references resolve against, the credentials for
-- it, and the registry through which headers are read.
pub mod Endpoints
use icechest.Base.{
  String, ◌<>◌, Bool, not, ◌||◌, Option, none, some, [], ◌∷◌, ◌==◌, if◌then◌else◌, rstrip_slash,
  is_empty_text,
}
use icechest.Base.Dict.{Dict}
use icechest.Base.Exec.{Result, ok, err, Exec, pure, raise, ◌>>=◌}
use icechest.Demo.Assets.{https_asset_prefix, s3_prefix}

abbrev pub lpdaac_region : String
lpdaac_region = "us-west-2"

-- `CONTAINER_NAME`
abbrev pub container_name : String
container_name = "lpdaac"

pub data CredentialError : Type 0 where
  unknown_access : String → CredentialError
  no_token : CredentialError
  external : String → CredentialError

-- What earthaccess-auth, icechunk and obstore give. `World` is the login service and its tokens.
pub record Earthdata : Type 1 where
  pub World : Type 0
  pub Time : Type 0
  -- `default_manager().get_bucket_credentials(prefix)`: the access key's id, the secret access key,
  -- the session token, and when they expire
  pub get_bucket_credentials :
      String → World → Result String (String × String × String × Time) × World
  -- `login(strategy="all").token["access_token"]`
  pub login_token : World → Result String String × World
  -- `icechunk.s3_store(region=...)` and `icechunk.http_store(headers=...)`
  pub StoreConfig : Type 0
  pub s3_store : String → StoreConfig
  pub http_store : Dict String → StoreConfig
  -- `icechunk.s3_refreshable_credentials(get_credentials=lpdaac_credentials)`
  pub Credentials : Type 0
  pub refreshable : Credentials
  -- `obstore.store.from_url(url, ...)`, with headers and with options
  pub ObjectStore : Type 0
  pub from_url_headers : String → Dict String → ObjectStore
  pub from_url_options : String → Dict String → ObjectStore

-- `f"Bearer {token}"`, under its header
abbrev pub bearer : String → Dict String
bearer token = ("Authorization", "Bearer " <> token) ∷ []

module _ (E : Earthdata) where
  open E use {
    World, Time, get_bucket_credentials, login_token, StoreConfig, s3_store, http_store,
    Credentials, refreshable, ObjectStore, from_url_headers, from_url_options,
  }

  -- `icechunk.S3StaticCredentials`
  pub record StaticCredentials : Type 0 where
    pub access_key_id : String
    pub secret_access_key : String
    pub session_token : String
    pub expires_after : Time

  -- `icechunk.VirtualChunkContainer`
  pub record VirtualChunkContainer : Type 0 where
    pub url_prefix : String
    pub store : StoreConfig
    pub name : String

  -- The process: the token that `lru_cache` holds, if there is one, and the world.
  abbrev pub CredentialExec : Type 0 → Type 0
  CredentialExec = Exec (Option String × World) CredentialError

  unfoldable pub lpdaac_credentials : CredentialExec StaticCredentials
  lpdaac_credentials (cached, w) =
      let (r, w') = get_bucket_credentials s3_prefix w in
      elim r [
        | err e ↦ (err (external e), (cached, w'))
        | ok (key, secret, token, expires) ↦ (
          ok (record {
            access_key_id = key;
            secret_access_key = secret;
            session_token = token;
            expires_after = expires;
          }),
          (cached, w'),
        )
      ]

  -- `earthdata_token`, under `lru_cache`, which keeps no exception
  unfoldable pub earthdata_token : CredentialExec String
  earthdata_token (some token, w) = (ok token, (some token, w))
  earthdata_token (none, w) =
      let (r, w') = login_token w in
      elim r [ err e ↦ (err (external e), (none, w')) | ok token ↦ (ok token, (some token, w')) ]

  unfoldable pub virtual_chunk_container :
      String → Option String → Result CredentialError VirtualChunkContainer
  virtual_chunk_container access token =
      if not (access == "s3" || access == "https")
      then err (unknown_access access)
      else if access == "s3"
      then ok
          (record { url_prefix = s3_prefix; store = s3_store lpdaac_region; name = container_name })
      else elim token [
        | none ↦ err no_token
        | some t ↦ ok (record {
          url_prefix = https_asset_prefix;
          store = http_store (bearer t);
          name = container_name;
        })
      ]

  -- The argument of `icechunk.containers_credentials`: each container's prefix with its credentials.
  unfoldable pub container_credentials : String → Dict (Option Credentials)
  container_credentials access =
      if access == "https"
      then (https_asset_prefix, none) ∷ []
      else (s3_prefix, some refreshable) ∷ []

  -- `token or earthdata_token()`
  unfoldable pub token_or_login : Option String → CredentialExec String
  token_or_login none s = earthdata_token s
  token_or_login (some token) s = if is_empty_text token then earthdata_token s else (ok token, s)

  https_registry : Option String → CredentialExec (Dict ObjectStore)
  https_registry token = do
    t ← token_or_login token
    pure ((https_asset_prefix, from_url_headers (rstrip_slash https_asset_prefix) (bearer t)) ∷ [])

  s3_options : StaticCredentials → Dict String
  s3_options issued =
      ("region", lpdaac_region)
      ∷ ("access_key_id", issued.access_key_id)
      ∷ ("secret_access_key", issued.secret_access_key)
      ∷ ("token", issued.session_token)
      ∷ []

  s3_registry : CredentialExec (Dict ObjectStore)
  unfolding s3_options
  s3_registry = do
    issued ← lpdaac_credentials
    pure ((s3_prefix, from_url_options s3_prefix (s3_options issued)) ∷ [])

  -- `object_store_registry`: the stores by their prefixes
  unfoldable pub object_store_registry : String → Option String → CredentialExec (Dict ObjectStore)
  unfolding https_registry s3_registry
  object_store_registry access token s =
      if access == "https" then https_registry token s else s3_registry s
