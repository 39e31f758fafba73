-- ===== src/Client/Tests.antt =====
-- Clients built against a host that is down, with another node up, and the theorems there.
use proxmoxve_integration.Prelude.{
  ℕ, ◌+◌, ◌≡◌, refl, List, [], ◌∷◌, Bool, true, false, Option, some, none, list_eq, nat_eq,
  ℕ_discrete, ◌&&◌,
}
use proxmoxve_integration.Prelude.Text.{Text, text, last_part, strip_by, lstrip_by, rstrip_by}
use proxmoxve_integration.Json.{Value, null}
use proxmoxve_integration.Api.{connection_error, api_error, Reply, answered, failed}
use proxmoxve_integration.Client.{
  token_name_only, ProxmoxClient, new_client, uses_token, user_id, Library, built, token_reply,
  build_with_token, login_elsewhere, build_with_password, bundle_error, build_client,
}
use proxmoxve_integration.Client.Laws.{is_refused, refuses, is_none, build_client_refused}

opened : Unit {0}
unfolding token_name_only uses_token user_id token_reply build_with_token login_elsewhere
    build_with_password build_client last_part strip_by lstrip_by rstrip_by list_eq ℕ_discrete
opened = tt

-- The state counts logins; the first login finds the host down.
abbrev login_reply : ℕ → Reply Value
login_reply proxmoxve_integration.Prelude.zero = failed (connection_error (text "down"))
login_reply (proxmoxve_integration.Prelude.suc n) = answered null

abbrev library : Library ℕ
library = record {
  create = λ h c w. w;
  learn_hosts = λ hs w. w;
  host_count = λ w. 2;
  request_version = λ w. (failed (api_error 401 (text "no")), w);
  login = λ w. (login_reply w, w + 1);
  failover = λ w. (true, w);
}

abbrev bundles : Text → Option Text
bundles path = none

abbrev by_password : ProxmoxClient
by_password =
    new_client (text "a") (text "root") (text "secret") [] (text "pam") true none
      (text "b" ∷ [] ∷ [])

abbrev by_token : ProxmoxClient
by_token =
    new_client (text "a") (text "root@pam") (text "secret") (text "root@pam!ha ") (text "pam") false
      none []

build_client_refused_example :
    is_refused (build_client ℕ library bundles by_token 0).0
    ≡ (is_none (bundle_error ℕ library bundles by_token) && refuses ℕ library bundles by_token 0)
build_client_refused_example = build_client_refused ℕ library bundles by_token 0

runs :
    ((build_client ℕ library bundles by_password 0) ≡ (built, 2))
    × (is_refused (build_client ℕ library bundles by_token 0).0 ≡ true)
    × (token_name_only (some (text " root@pam!ha ")) ≡ text "ha")
    × (user_id by_password ≡ text "root@pam")
    × (by_password.fallback_hosts ≡ text "b" ∷ [])
unfolding opened
runs = (refl, refl, refl, refl, refl)
