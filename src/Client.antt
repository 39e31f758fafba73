-- ===== src/Client.antt =====
-- api.py: `ProxmoxClient`, how the API object is built and the credentials are proved. The object is the
-- library aioproxmox's: what it is asked is a parameter, on a state of its own.
pub mod Laws
mod Tests
use proxmoxve_integration.Prelude.{
  ℕ, List, [], ◌∷◌, ◌++◌, Bool, true, false, not, Option, none, some, ◌==◌, ◌&&◌, ◌||◌, contains,
  if◌then◌else◌, ltb, list_eq, nat_eq, is_empty, keep,
}
use proxmoxve_integration.Prelude.Text.{Text, text, last_part, strip_by, is_space}
use proxmoxve_integration.Json.{Value}
use proxmoxve_integration.Api.{
  Failure, connection_error, auth_error, api_error, Reply, answered, failed,
}

unfoldable pub token_name_only : Option Text → Text
token_name_only none = []
token_name_only (some []) = []
token_name_only (some (c ∷ v)) = strip_by is_space (last_part b'!' (strip_by is_space (c ∷ v)))

-- The attributes of the client; fallback hosts that are no text or empty are not kept.
pub record ProxmoxClient : Type 0 where
  pub host : Text
  pub user : Text
  pub token_name : Text
  pub realm : Text
  pub password : Text
  pub verify_ssl : Bool
  pub ca_bundle : Text
  pub fallback_hosts : List Text

abbrev pub new_client :
    Text → Text → Text → Text → Text → Bool → Option Text → List Text → ProxmoxClient
new_client host user password token realm verify bundle fallback = record {
  host = host;
  user = user;
  token_name = token;
  realm = realm;
  password = password;
  verify_ssl = verify;
  ca_bundle = elim bundle [ none ↦ [] | some path ↦ strip_by is_space path ];
  fallback_hosts = keep (λ h. not (is_empty h)) fallback;
}

unfoldable pub uses_token : ProxmoxClient → Bool
uses_token c = not (is_empty (token_name_only (some c.token_name)))

unfoldable pub user_id : ProxmoxClient → Text
user_id c = if contains c.user b'@' then c.user else c.user ++ b'@' ∷ c.realm

-- What the object is made with.
pub data Credentials : Type 0 where
  token : Text → Text → Text → Credentials
  login_with : Text → Text → Credentials

-- The operations of the API object that the client calls.
pub record Library (W : Type 0) : Type 0 where
  pub create : Text → Credentials → W → W
  pub learn_hosts : List Text → W → W
  pub host_count : W → ℕ
  pub request_version : W → Reply Value × W
  pub login : W → Reply Value × W
  pub failover : W → Bool × W

pub data BuildError : Type 0 where
  ca_bundle_error : Text → BuildError
  request_error : Failure → BuildError

-- The object is kept, or the error is raised.
pub data Built : Type 0 where
  built : Built
  raised : BuildError → Built

abbrev pub settled : Reply Value → Built
settled (answered v) = built
settled (failed f) = raised (request_error f)

abbrev pub refused_message : ProxmoxClient → Text
refused_message c =
    text "Token "
    ++ (user_id c ++ b'!' ∷ (token_name_only (some c.token_name) ++ text " was refused: Code 401"))

-- A refused token is reported as a refused login is.
unfoldable pub token_reply : ProxmoxClient → Reply Value → Built
token_reply c (answered v) = built
token_reply c (failed (api_error status m)) =
    if status == 401
    then raised (request_error (auth_error (refused_message c)))
    else raised (request_error (api_error status m))
token_reply c (failed (connection_error m)) = raised (request_error (connection_error m))
token_reply c (failed (auth_error m)) = raised (request_error (auth_error m))

abbrev pub is_unreachable : Reply Value → Bool
is_unreachable (failed (connection_error m)) = true
is_unreachable _ = false

module _ (W : Type 0) (L : Library W) (load_bundle : Text → Option Text) where
  unfoldable pub build_with_token : ProxmoxClient → W → Built × W
  build_with_token c w =
      let made =
        L.learn_hosts c.fallback_hosts (
          L.create c.host (token (user_id c) (token_name_only (some c.token_name)) c.password) w) in
      let reply = L.request_version made in (token_reply c reply.0, reply.1)

  -- The login again, on a node that the object moved to.
  unfoldable pub login_elsewhere : Reply Value → W → Built × W
  login_elsewhere first w =
      let moved = L.failover w in
      let again = L.login moved.1 in
      if ltb (L.host_count w) 2
      then (settled first, w)
      else if moved.0
      then (settled again.0, again.1)
      else (settled first, moved.1)

  unfoldable pub build_with_password : ProxmoxClient → W → Built × W
  build_with_password c w =
      let made =
        L.learn_hosts c.fallback_hosts (L.create c.host (login_with (user_id c) c.password) w) in
      let first = L.login made in
      if is_unreachable first.0 then login_elsewhere first.0 first.1 else (settled first.0, first.1)

  -- The bundle is read even where it is not used; the error of `load_bundle` is its message.
  abbrev pub bundle_error : ProxmoxClient → Option Text
  bundle_error c =
      if c.verify_ssl || not (is_empty c.ca_bundle) then load_bundle c.ca_bundle else none

  unfoldable pub build_client : ProxmoxClient → W → Built × W
  build_client c w = elim (bundle_error c) [
    | some m ↦ (raised (ca_bundle_error m), w)
    | none ↦ if uses_token c then build_with_token c w else build_with_password c w
  ]
