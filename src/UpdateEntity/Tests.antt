-- ===== src/UpdateEntity/Tests.antt =====
-- A node with three pending packages, one of them the release, and the theorems there.
use proxmoxve_integration.Prelude.{
  ℕ, ◌≡◌, refl, List, [], ◌∷◌, Bool, true, false, not, Option, is_empty, ltb, map, list_eq, nat_eq,
  ℕ_discrete,
}
use proxmoxve_integration.Prelude.Text.{
  Text, text, split, partition, join_by, decimal, digits_value,
}
use proxmoxve_integration.Updates.{Package}
use proxmoxve_integration.UpdateEntity.{
  update_version, update_info, release_of, latest_version, latest_of, comparable, as_text,
  package_line, section_of, release_notes, release_summary, version_is_newer,
}
use proxmoxve_integration.UpdateEntity.Laws.{version_is_newer-update_version}

opened : Unit {0}
unfolding as_text package_line section_of release_notes release_summary update_info update_version
    release_of latest_version latest_of comparable split partition join_by decimal digits_value
    list_eq ℕ_discrete
opened = tt

abbrev number : Text → Option ℕ
number s = digits_value true 0 s

abbrev above : ℕ → ℕ → Bool
above a b = ltb b a

abbrev packages : List Package
packages =
    record {
      name = text "pve-manager";
      title = text "a_b";
      version = text "9-pve1";
      old = text "8";
      proxmox = true;
    }
    ∷ record {
      name = text "bash";
      title = text "bash";
      version = text "2~a";
      old = [];
      proxmox = false;
    }
    ∷ []

version_is_newer-update_version_example :
    version_is_newer
      (update_version 0 number above (text "8") packages).latest_version_id
      (text "8")
    ≡ not (is_empty packages)
unfolding ℕ_discrete
version_is_newer-update_version_example =
    version_is_newer-update_version 0 number above (text "8") packages refl

runs :
    ((update_version 0 number above (text "8") packages).latest_version_id ≡ text "9-p1-d1")
    × (as_text (text "a_b") ≡ text "a\\_b")
    × (map package_line packages
        ≡ text "- a\\_b (`pve-manager`) — `8` → `9-pve1`"
          ∷ text "- bash (`bash`) — new: `2~a`"
          ∷ [])
unfolding opened
runs = (refl, refl, refl)
