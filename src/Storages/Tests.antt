-- ===== src/Storages/Tests.antt =====
-- A shared storage that one of two nodes sees.
use proxmoxve_integration.Prelude.{
  ◌≡◌, refl, List, [], ◌∷◌, ◌&&◌, any, true, list_eq, nat_eq, ℕ_discrete,
}
use proxmoxve_integration.Prelude.Text.{Text, text, text_leb, last_part, starts_with, count_char}
use proxmoxve_integration.Prelude.Sort.{sort_by, insert_by}
use proxmoxve_integration.Json.{Value, str, Fields, field, nil}
use proxmoxve_integration.Storage.{storage_name, is_shared_storage_id}
use proxmoxve_integration.Storages.{is_named, is_available, candidates, storage_row}
use proxmoxve_integration.Storages.Rows.{storage_row-any}

abbrev plain : Value → Text
plain (str s) = s
plain v = []

abbrev row_on : Text → Text → Fields
row_on node status =
    field (text "storage") (str (text "nfs"))
      (field (text "node") (str node) (field (text "status") (str status) nil))

abbrev entries : List Fields
entries = row_on (text "b") (text "available") ∷ row_on (text "a") (text "unknown") ∷ []

storage_row-any_example :
    (is_named (storage_name (text "storage/nfs")) (row_on (text "b") (text "available")) ≡ true)
    × (is_available (row_on (text "b") (text "available"))
        ≡ any (λ r. is_named (storage_name (text "storage/nfs")) r && is_available r) entries)
unfolding storage_row candidates storage_name is_shared_storage_id last_part starts_with count_char
    text_leb sort_by insert_by list_eq ℕ_discrete
storage_row-any_example =
    storage_row-any plain (text "storage/nfs") entries (row_on (text "b") (text "available")) refl
      refl
