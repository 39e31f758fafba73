-- ===== src/Permissions/Tests.antt =====
-- Runs of permissions.py and `button_permitted`, and the theorems at concrete data.
use proxmoxve_integration.Prelude.{
  ◌≡◌, refl, ◌↔◌, [], ◌∷◌, true, false, arith, nat_eq, list_eq, ℕ_discrete,
}
use proxmoxve_integration.Prelude.Int.{pos, int_eq}
use proxmoxve_integration.Prelude.Text.{
  text, strip_by, split, join, starts_with, rstrip_by, parse_int,
}
use proxmoxve_integration.Json.{obj, int, field, nil, str, bool}
use proxmoxve_integration.Api.{answered, failed, auth_error}
use proxmoxve_integration.Permissions.{
  Permissions, is_granted, is_granted_anywhere_below, button_permitted, category_permitted,
  candidates, fetch_permissions, known, holds, raised, unknown,
}
use proxmoxve_integration.Permissions.Laws.{GrantedAt, is_granted_iff}

opened : Unit {0}
unfolding candidates strip_by split join ℕ_discrete is_granted is_granted_anywhere_below holds
    button_permitted category_permitted fetch_permissions starts_with rstrip_by list_eq int_eq
    parse_int
opened = tt

abbrev one_guest : Permissions
one_guest =
    (text "/vms/100", (text "VM.PowerMgmt", pos 1) ∷ [])
    ∷ (text "/nodes", (text "Sys.PowerMgmt", pos 1) ∷ [])
    ∷ []

abbrev at_root : Permissions
at_root = (text "/", (text "VM.PowerMgmt", pos 1) ∷ []) ∷ []

walk_up :
    (candidates (text "/vms/100") ≡ text "/vms/100" ∷ text "/vms" ∷ text "/" ∷ [])
    × (candidates (text "//nodes//") ≡ text "/nodes" ∷ text "/" ∷ [])
    × (candidates (text "/") ≡ text "/" ∷ [])
unfolding opened
walk_up = (refl, refl, refl)

tests :
    (is_granted one_guest (text "/vms/101") (text "VM.PowerMgmt") ≡ false)
    × (is_granted one_guest (text "/nodes/pve") (text "Sys.PowerMgmt") ≡ true)
    × (is_granted_anywhere_below one_guest (text "/vms") (text "VM.PowerMgmt") ≡ true)
    × (is_granted_anywhere_below one_guest (text "/vms") (text "VM.Backup") ≡ false)
unfolding opened
tests = (refl, refl, refl, refl)

fetch_tests :
    (fetch_permissions (failed (auth_error [])) ≡ unknown)
    × (fetch_permissions (answered (bool true)) ≡ unknown)
    × (fetch_permissions (
          answered (
            obj (
              field
                (text "/")
                (obj (field (text "VM.PowerMgmt") (int (pos 1)) nil))
                (field [] (bool true) nil))))
        ≡ known at_root)
    × (fetch_permissions
          (answered (obj (field (text "/") (obj (field (text "VM.Audit") (str []) nil)) nil)))
        ≡ raised)
unfolding opened
fetch_tests = (refl, refl, refl, refl)

is_granted_iff_example :
    (is_granted one_guest (text "/vms/100") (text "VM.PowerMgmt") ≡ true)
    ↔ GrantedAt one_guest (text "vms" ∷ text "100" ∷ []) (text "VM.PowerMgmt")
unfolding opened
is_granted_iff_example =
    is_granted_iff one_guest (text "vms" ∷ text "100" ∷ []) (text "VM.PowerMgmt") (ground arith)
