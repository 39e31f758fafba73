-- ===== src/Client/Laws.antt =====
-- How often a client logs in, what a refused token comes to, and what is left of a token's name.
use proxmoxve_integration.Prelude.{
  ℕ, ◌+◌, ◌≡◌, refl, List, [], ◌∷◌, Bool, true, false, not, Option, none, some, ◌==◌, ◌&&◌,
  if◌then◌else◌, ltb, list_eq, nat_eq, arith, Bool-cases, Option-cases, inl, inr,
}
use proxmoxve_integration.Prelude.Text.{
  Text, last_part, strip_by, lstrip_by, rstrip_by, is_space, Lacks, last_part-Lacks,
}
use proxmoxve_integration.Json.{Value}
use proxmoxve_integration.Api.{connection_error, auth_error, api_error, Reply, answered, failed}
use proxmoxve_integration.Client.{
  token_name_only, ProxmoxClient, uses_token, user_id, Credentials, token, login_with, Library,
  Built, raised, request_error, settled, token_reply, is_unreachable, build_with_token,
  login_elsewhere, build_with_password, bundle_error, build_client,
}

lstrip_by-Lacks : (p : ℕ → Bool) (sep : ℕ) (s : Text) → Lacks sep s → Lacks sep (lstrip_by p s)
unfolding lstrip_by
lstrip_by-Lacks p sep [] h = h
lstrip_by-Lacks p sep (c ∷ s) h = ground (arith, h, lstrip_by-Lacks p sep s)

rstrip_by-Lacks : (p : ℕ → Bool) (sep : ℕ) (s : Text) → Lacks sep s → Lacks sep (rstrip_by p s)
unfolding rstrip_by
rstrip_by-Lacks p sep [] h = h
rstrip_by-Lacks p sep (c ∷ s) h = ground (arith, h, rstrip_by-Lacks p sep s)

-- Whatever was typed, what is left of a token's name holds no exclamation mark, so the user and realm
-- that are put before it come once.
pub token_name_only-Lacks : (value : Option Text) → Lacks b'!' (token_name_only value)
unfolding token_name_only strip_by
token_name_only-Lacks none = refl
token_name_only-Lacks (some []) = refl
token_name_only-Lacks (some (c ∷ v)) =
    let name = last_part b'!' (rstrip_by is_space (lstrip_by is_space (c ∷ v))) in
    rstrip_by-Lacks is_space b'!' (lstrip_by is_space name) (
      lstrip_by-Lacks is_space b'!' name
        (last_part-Lacks b'!' (rstrip_by is_space (lstrip_by is_space (c ∷ v)))))

-- Whether `ProxmoxAuthError` is raised, the one error by which the callers know refused credentials.
abbrev pub is_refused : Built → Bool
is_refused (raised (request_error (auth_error m))) = true
is_refused _ = false

-- Whether a reply refuses a login, and whether one refuses a token: for that, a 401 of the API counts too.
abbrev pub refuses_login : Reply Value → Bool
refuses_login (failed (auth_error m)) = true
refuses_login _ = false

abbrev pub refuses_token : Reply Value → Bool
refuses_token (failed (auth_error m)) = true
refuses_token (failed (api_error status m)) = status == 401
refuses_token _ = false

-- How many logins building takes: none for a token or a bundle that cannot be read, and a second one
-- only if the host was not there, others are known and one of them answers.
abbrev pub logins : Bool → Bool → Bool → ℕ
logins false _ _ = 0
logins true true _ = 0
logins true false false = 1
logins true false true = 2

abbrev pub is_none {ℓ} : {A : Type ℓ} → Option A → Bool
is_none none = true
is_none (some a) = false

token_reply_refused :
    (c : ProxmoxClient) (reply : Reply Value)
    → is_refused (token_reply c reply) ≡ refuses_token reply
unfolding token_reply
token_reply_refused c (answered v) = refl
token_reply_refused c (failed (connection_error m)) = refl
token_reply_refused c (failed (auth_error m)) = refl
token_reply_refused c (failed (api_error status m)) = ground arith

settled_refused : (reply : Reply Value) → is_refused (settled reply) ≡ refuses_login reply
settled_refused (answered v) = refl
settled_refused (failed (auth_error m)) = refl
settled_refused (failed (connection_error m)) = refl
settled_refused (failed (api_error status m)) = refl

module _ (W : Type 0) (L : Library W) (load_bundle : Text → Option Text) where
  abbrev pub moves : Reply Value × W → Bool
  moves first =
      is_unreachable first.0 && not (ltb (L.host_count first.1) 2) && (L.failover first.1).0

  -- The object with its hosts, before anything is asked.
  abbrev pub made_with : ProxmoxClient → Credentials → W → W
  made_with c credentials w = L.learn_hosts c.fallback_hosts (L.create c.host credentials w)

  -- The first login of a password.
  abbrev pub first_login : ProxmoxClient → W → Reply Value × W
  first_login c w = L.login (made_with c (login_with (user_id c) c.password) w)

  -- Whether the reply that decides refuses the credentials: for a token that to the read of `version`, for a
  -- password that of the last login.
  abbrev pub refuses : ProxmoxClient → W → Bool
  refuses c w =
      let token_made =
        made_with c (token (user_id c) (token_name_only (some c.token_name)) c.password) w in
      let first = first_login c w in
      let again = L.login (L.failover first.1).1 in
      if uses_token c
      then refuses_token (L.request_version token_made).0
      else refuses_login (if moves first then again.0 else first.0)

  password_refused :
      (c : ProxmoxClient) (w : W)
      → let first = first_login c w in
        is_refused (build_with_password W L load_bundle c w).0
        ≡ refuses_login (if moves first then (L.login (L.failover first.1).1).0 else first.0)
  unfolding build_with_password login_elsewhere
  password_refused c w =
      let first = first_login c w in
      ground (arith, settled_refused first.0, settled_refused (L.login (L.failover first.1).1).0)

  -- Building the client raises `ProxmoxAuthError` exactly if the CA bundle could be read and the reply that
  -- decides refused the credentials: for a token that to the read of the version, where a 401 of the API is
  -- such a refusal too, for a password that of the last login.
  pub build_client_refused :
      (c : ProxmoxClient) (w : W)
      → is_refused (build_client W L load_bundle c w).0
        ≡ (is_none (bundle_error W L load_bundle c) && refuses c w)
  unfolding build_client build_with_token
  build_client_refused c w = elim (Option-cases (bundle_error W L load_bundle c)) [
    | inl readable ↦
        rw (readable, build_client)
          (elim (Bool-cases (uses_token c)) [
            | inl by_token ↦ rw (by_token, build_client) (token_reply_refused c _)
            | inr by_password ↦ rw (by_password, build_client) (password_refused c w)
          ])
    | inr (m, broken) ↦ rw (broken, build_client) refl
  ]

  module _ (count : W → ℕ)
      (made : (h : Text) (c : Credentials) (w : W) → count (L.create h c w) ≡ count w)
      (learned : (hs : List Text) (w : W) → count (L.learn_hosts hs w) ≡ count w)
      (asked : (w : W) → count (L.request_version w).1 ≡ count w)
      (moved : (w : W) → count (L.failover w).1 ≡ count w)
      (logged_in : (w : W) → count (L.login w).1 ≡ count w + 1) where
    count-password :
        (c : ProxmoxClient) (w : W)
        → count (build_with_password W L load_bundle c w).1
          ≡ count w + logins true false (moves (first_login c w))
    unfolding build_with_password login_elsewhere
    count-password c w =
        let credentials = login_with (user_id c) c.password in
        let first = first_login c w in
        ground (
          arith,
          made c.host credentials w,
          learned c.fallback_hosts (L.create c.host credentials w),
          logged_in (made_with c credentials w),
          moved first.1,
          logged_in (L.failover first.1).1,
        )

    -- If only a login counts as one, building a client logs in as often as this: never with a token or
    -- where the CA bundle cannot be read, and with a password once, or twice if the host was not there,
    -- another is known and one of them answers.
    build_client-logins :
        (c : ProxmoxClient) (w : W)
        → count (build_client W L load_bundle c w).1
          ≡ count w
            + logins
                (is_none (bundle_error W L load_bundle c))
                (uses_token c)
                (moves (first_login c w))
    unfolding build_client build_with_token
    build_client-logins c w = elim (Option-cases (bundle_error W L load_bundle c)) [
      | inl readable ↦
          rw (readable, build_client)
            (elim (Bool-cases (uses_token c)) [
              | inl by_token ↦
                  let credentials =
                    token (user_id c) (token_name_only (some c.token_name)) c.password in
                  rw (by_token, build_client)
                    (omega (
                      arith,
                      made c.host credentials w,
                      learned c.fallback_hosts (L.create c.host credentials w),
                      asked (made_with c credentials w),
                    ))
              | inr by_password ↦ rw (by_password, build_client) (count-password c w)
            ])
      | inr (m, broken) ↦ rw (broken, build_client) (omega arith)
    ]
