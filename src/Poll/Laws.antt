-- ===== src/Poll/Laws.antt =====
-- When `poll_api` asks, how often, and what it makes of a reply.
use proxmoxve_integration.Prelude.{
  ℕ, ◌+◌, ◌≡◌, refl, Bool, true, false, not, none, some, ◌==◌, ◌&&◌, nat_eq, arith, Bool-cases, inl,
  inr,
}
use proxmoxve_integration.Prelude.Text.{Text}
use proxmoxve_integration.Json.{Value}
use proxmoxve_integration.Api.{connection_error, auth_error, api_error, Reply, answered, failed}
use proxmoxve_integration.Issues.Registry.{IssueRegistry}
use proxmoxve_integration.Issues.{ConfigEntry}
use proxmoxve_integration.Poll.{
  Outcome, update_failed, config_entry_auth_failed, Read, State, poll_api, read_api, settle,
  refused, is_offline, asks_again, auth_error_status, is_auth_error, offline_message, node_of_path,
}

-- The number of requests that a read makes.
abbrev pub requests_made : Bool → Bool → ℕ
requests_made true again = 0
requests_made false false = 1
requests_made false true = 2

abbrev pub asks_for_login {ℓ} : {A : Type ℓ} → Outcome A → Bool
asks_for_login config_entry_auth_failed = true
asks_for_login _ = false

-- The credentials were refused, and not by an API that says it is not ready.
abbrev pub credentials_refused : Reply Value → Bool
credentials_refused (answered v) = false
credentials_refused (failed f) =
    is_auth_error f && elim (auth_error_status f) [ none ↦ true | some status ↦ status == 401 ]

module _ (R : IssueRegistry) (W : Type 0) (request : W → Text → Reply Value × W) where
  -- A read of a node that the cluster lists as off fails with that message, makes no request and
  -- leaves the lists and repairs as they are.
  pub poll_api_offline :
      (entry : ConfigEntry) (read : Read) (s : State R W request)
      → is_offline R W request read s ≡ true
      → poll_api R W request entry read s
        ≡ (update_failed (offline_message (node_of_path read.api_path none)), s)
  unfolding poll_api
  poll_api_offline entry read s off = rw off refl

  read_api_count :
      (count : W → ℕ)
      → ((w : W) (p : Text) → count (request w p).1 ≡ count w + 1)
      → (w : W) (p : Text)
      → count (read_api R W request w p).1
        ≡ count w + requests_made false (asks_again (request w p).0)
  unfolding read_api
  read_api_count count counts w p = elim (Bool-cases (asks_again (request w p).0)) [
    | inl again ↦ rw again (omega (arith, counts w p, counts (request w p).1 p))
    | inr once ↦ rw once (counts w p)
  ]

  -- If every request counts one, a read makes none for a node that is off, two if the first reply is
  -- a 596 or a 597, and one otherwise; so never more than two.
  poll_api_requests :
      (count : W → ℕ)
      → ((w : W) (p : Text) → count (request w p).1 ≡ count w + 1)
      → (entry : ConfigEntry) (read : Read) (s : State R W request)
      → count (poll_api R W request entry read s).1.world
        ≡ count s.world
          + requests_made
              (is_offline R W request read s)
              (asks_again (request s.world read.api_path).0)
  unfolding poll_api
  poll_api_requests count counts entry read s = elim (Bool-cases (is_offline R W request read s)) [
    | inl off ↦ rw off (omega arith)
    | inr on ↦ rw on (read_api_count count counts s.world read.api_path)
  ]

  asks_for_login-settle :
      (entry : ConfigEntry) (read : Read) (reply : Reply Value) (h : _)
      → asks_for_login (settle R W request entry read reply h).0 ≡ credentials_refused reply
  unfolding settle refused auth_error_status
  asks_for_login-settle entry read (answered v) h = refl
  asks_for_login-settle entry read (failed (connection_error m)) h = refl
  asks_for_login-settle entry read (failed (auth_error m)) h = ground arith
  asks_for_login-settle entry read (failed (api_error status m)) h = ground arith

  -- New credentials are asked for exactly if a request was made and its last reply says that the
  -- credentials were refused: a login failure whose message names no status but 401, or an API error
  -- with status 401.
  pub asks_for_login-poll_api :
      (entry : ConfigEntry) (read : Read) (s : State R W request)
      → asks_for_login (poll_api R W request entry read s).0 ≡ (
          not (is_offline R W request read s)
          && credentials_refused (read_api R W request s.world read.api_path).0)
  unfolding poll_api
  asks_for_login-poll_api entry read s = elim (Bool-cases (is_offline R W request read s)) [
    | inl off ↦ rw off refl
    | inr on ↦
        rw on
          (asks_for_login-settle entry read (read_api R W request s.world read.api_path).0 s.hass)
  ]
