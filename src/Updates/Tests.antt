-- ===== src/Updates/Tests.antt =====
-- The updates of a node with a package of each kind, and the theorems there.
use proxmoxve_integration.Prelude.{◌≡◌, refl, [], ◌∷◌, Bool, list_eq, nat_eq, ℕ_discrete}
use proxmoxve_integration.Prelude.Sort.{sort_by}
use proxmoxve_integration.Prelude.Text.{Text, text, text_leb, starts_with}
use proxmoxve_integration.Json.{Value, Values, null, str, obj, item, end, field, nil}
use proxmoxve_integration.Updates.{Package, is_proxmox_package, parse_updates}

opened : Unit {0}
unfolding is_proxmox_package parse_updates sort_by text_leb starts_with list_eq ℕ_discrete
opened = tt

abbrev plain : Value → Text
plain v = []

abbrev row : Text → Text → Value
row name origin = obj (
    field (text "Package") (str name)
      (field (text "Origin") (str origin) (field (text "Version") (str (text "1")) nil)))

abbrev status : Values
status = item (row (text "bash") (text "Debian")) (
    item null
      (item (row (text "pve-manager") (text "x")) (item (row (text "ceph") (text "ProxMox")) end)))

abbrev is_own : Package → Bool
is_own p = p.proxmox

runs :
    ((parse_updates plain status (text "a")).updates_list
      ≡ text "bash - 1" ∷ text "ceph - 1" ∷ text "pve-manager - 1" ∷ [])
    × ((parse_updates plain status (text "a")).proxmox_updates ≡ 2)
    × ((parse_updates plain status (text "a")).other_updates ≡ 1)
unfolding opened
runs = (refl, refl, refl)
