-- ===== src/Updates.antt =====
-- coordinator.py: what a node's `apt/update` answer comes to, the packages waiting and how many of them
-- are Proxmox's own.
pub mod Laws
mod Tests
use proxmoxve_integration.Prelude.{
  ℕ, suc, ◌+◌, ◌-◌, List, [], ◌∷◌, ◌++◌, Bool, true, false, not, Option, none, some, ◌==◌, ◌&&◌,
  ◌||◌, if◌then◌else◌, leb, ltb, list_eq, nat_eq, is_empty, length, map,
}
use proxmoxve_integration.Prelude.Sort.{sort_by}
use proxmoxve_integration.Prelude.Text.{Text, text, text_leb, starts_with}
use proxmoxve_integration.Prelude.Float.{lower}
use proxmoxve_integration.Json
use proxmoxve_integration.Json.{Value, Values, obj, Fields, find, str_of, elements}
use proxmoxve_integration.Poll.{within}

pub record Package : Type 0 where
  pub name : Text
  pub title : Text
  pub version : Text
  pub old : Text
  pub proxmox : Bool

-- `str(update.get(key, default))`
abbrev pub text_or : (Value → Text) → Text → Text → Fields → Text
text_or repr default key fs = elim (find key fs) [ none ↦ default | some v ↦ str_of repr v ]

unfoldable pub is_proxmox_package : (Value → Text) → Fields → Bool
is_proxmox_package repr update =
    let name = text_or repr [] (text "Package") update in
    starts_with (text "pve-") name
    || starts_with (text "libpve-") name
    || within (text "proxmox") (lower (text_or repr [] (text "Origin") update))
    || within (text "proxmox") (lower (text_or repr [] (text "Title") update))

abbrev pub package_of : (Value → Text) → Fields → Text → Package
package_of repr update name = record {
  name = name;
  title = text_or repr name (text "Title") update;
  version = text_or repr [] (text "Version") update;
  old = text_or repr [] (text "OldVersion") update;
  proxmox = is_proxmox_package repr update;
}

-- A row that is no dict or names no package is passed over.
abbrev pub read_row : (Value → Text) → Value → Option Package
read_row repr (obj fs) = elim (find (text "Package") fs) [
  | none ↦ none
  | some v ↦ some (package_of repr fs (str_of repr v))
]
read_row repr _ = none

abbrev pub read_rows : (Value → Text) → List Value → List Package
read_rows repr [] = []
read_rows repr (v ∷ vs) =
    let rest = read_rows repr vs in elim (read_row repr v) [ none ↦ rest | some p ↦ p ∷ rest ]

-- `key=lambda entry: (not entry["proxmox"], entry["package"])`
abbrev pub by_origin : Package → Package → Bool
by_origin a b = elim a.proxmox [
  | true ↦ if b.proxmox then text_leb a.name b.name else true
  | false ↦ if b.proxmox then false else text_leb a.name b.name
]

abbrev pub package_line : Package → Text
package_line p = p.name ++ (text " - " ++ p.version)

abbrev pub count_proxmox : List Package → ℕ
count_proxmox [] = 0
count_proxmox (p ∷ ps) = let rest = count_proxmox ps in if p.proxmox then suc rest else rest

pub record ProxmoxUpdateData : Type 0 where
  pub node : Text
  pub total : ℕ
  pub updates_list : List Text
  pub update : Bool
  pub packages : List Package
  pub proxmox_updates : ℕ
  pub other_updates : ℕ

unfoldable pub parse_updates : (Value → Text) → Values → Text → ProxmoxUpdateData
parse_updates repr status node =
    let packages = sort_by by_origin (read_rows repr (elements status)) in
    record {
      node = node;
      total = length packages;
      updates_list = sort_by text_leb (map package_line packages);
      update = ltb 0 (length packages);
      packages = packages;
      proxmox_updates = count_proxmox packages;
      other_updates = length packages - count_proxmox packages;
    }
