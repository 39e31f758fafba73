-- ===== src/Api.antt =====
-- What a request to the Proxmox API comes back with, and how api.py tells the failures apart. The
-- requests themselves are the library aioproxmox's, and are parameters of the modules that make them.
use proxmoxve_integration.Prelude.{ℕ, nat_eq}
use proxmoxve_integration.Prelude.Text.{Text}

-- `CONNECTION_ERRORS`, `ProxmoxAuthError` and `ProxmoxAPIError`, each with its message.
pub data Failure : Type 0 where
  connection_error : Text → Failure
  auth_error : Text → Failure
  api_error : ℕ → Text → Failure

pub data Reply {ℓ} (A : Type ℓ) : Type ℓ where
  answered : A → Reply A
  failed : Failure → Reply A

abbrev pub message : Failure → Text
message (connection_error m) = m
message (auth_error m) = m
message (api_error status m) = m
