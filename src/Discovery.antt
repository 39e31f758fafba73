-- ===== src/Discovery.antt =====
-- discovery.py: what the cluster lists, and how it differs from what an entry tracks. The devices of
-- the registry that go with a resource are in the child modules.
pub mod Devices
pub mod Coordinator
pub mod Changes
pub mod Guests
pub mod Stale
mod Tests
use proxmoxve_integration.Prelude.{
  ℕ, List, [], ◌∷◌, ◌++◌, Bool, true, false, not, Option, none, some, ◌==◌, ◌&&◌, ◌||◌, contains,
  if◌then◌else◌, ltb, list_eq, nat_eq, is_empty, map,
}
use proxmoxve_integration.Prelude.Int.{ℤ, int_leb}
use proxmoxve_integration.Prelude.Sets.{set_of, difference}
use proxmoxve_integration.Prelude.Sort.{sort_by}
use proxmoxve_integration.Prelude.Text.{Text, text, text_leb, parse_int, is_digit, digits_value}
use proxmoxve_integration.Json
use proxmoxve_integration.Json.{
  Value, Values, arr, obj, Fields, find, get, truthy, is_text, rows, str_of, elements,
}
use proxmoxve_integration.Const.{ProxmoxType}
use proxmoxve_integration.Storage.{tracked_storage_ids}

-- The four lists of `RESOURCE_KEYS`, by the key of the config entry.
pub record Resources : Type 0 where
  pub nodes : List Text
  pub qemu : List Text
  pub lxc : List Text
  pub storage : List Text

-- The keys of `RESOURCE_KEYS`, in its order.
pub data Key : Type 0 where
  nodes qemu lxc storage : Key

abbrev pub at : Key → Resources → List Text
at nodes r = r.nodes
at qemu r = r.qemu
at lxc r = r.lxc
at storage r = r.storage

abbrev pub category_of : Key → ProxmoxType
category_of nodes = ProxmoxType.node
category_of qemu = ProxmoxType.qemu
category_of lxc = ProxmoxType.lxc
category_of storage = ProxmoxType.storage

abbrev pub resource_keys : List Key
resource_keys = nodes ∷ qemu ∷ lxc ∷ storage ∷ []

abbrev pub by_keys : (Key → List Text) → Resources
by_keys f = record { nodes = f nodes; qemu = f qemu; lxc = f lxc; storage = f storage }

-- A row of the listing that is a resource of this type with this field.
abbrev pub lists_type : Text → Text → Value → Bool
lists_type type key (obj fs) =
    not (truthy (get (text "template") fs))
    && is_text type (get (text "type") fs)
    && Json.has key fs
lists_type type key _ = false

module _ (repr : Value → Text) where
  abbrev pub field_text : Text → Value → Text
  field_text key (obj fs) = str_of repr (get key fs)
  field_text key _ = []

  abbrev pub ids_from : Text → Text → List Value → List Text
  ids_from type key [] = []
  ids_from type key (v ∷ vs) =
      let rest = ids_from type key vs in
      if lists_type type key v then field_text key v ∷ rest else rest

  -- The set of the ids, `found[key]`.
  unfoldable pub ids_of : Text → Text → Values → List Text
  ids_of type key resources = set_of (ids_from type key (elements resources))

-- Each text with its value; `none` for the `ValueError` of `int`.
unfoldable pub with_ints : List Text → Option (List (ℤ × Text))
with_ints [] = some []
with_ints (t ∷ ts) = elim (parse_int t) [
  | none ↦ none
  | some n ↦ elim (with_ints ts) [ none ↦ none | some rest ↦ some ((n, t) ∷ rest) ]
]

abbrev pub by_int : ℤ × Text → ℤ × Text → Bool
by_int a b = int_leb a.0 b.0

abbrev pub second : ℤ × Text → Text
second p = p.1

-- `sorted(ids, key=int)`
unfoldable pub sorted_by_int : List Text → Option (List Text)
sorted_by_int ts = elim (with_ints ts) [
  | none ↦ none
  | some pairs ↦ some (map second (sort_by by_int pairs))
]

unfoldable pub discovered_resources : (Value → Text) → Values → Option Resources
discovered_resources repr resources =
    elim (sorted_by_int (ids_of repr (text "qemu") (text "vmid") resources)) [
      | none ↦ none
      | some vms ↦ elim (sorted_by_int (ids_of repr (text "lxc") (text "vmid") resources)) [
        | none ↦ none
        | some containers ↦ some (record {
          nodes = sort_by text_leb (ids_of repr (text "node") (text "node") resources);
          qemu = vms;
          lxc = containers;
          storage = tracked_storage_ids repr (arr resources);
        })
      ]
    ]

-- Of a config entry, the picked lists in its data, and the runtime set once setup has decided it.
pub record ConfigEntry : Type 0 where
  pub picked : Key → List Value
  pub tracked : Option Resources

abbrev pub selected_resources : (Value → Text) → ConfigEntry → Resources
selected_resources repr entry = by_keys (λ k. map (str_of repr) (entry.picked k))

abbrev pub tracked_resources : (Value → Text) → ConfigEntry → Resources
tracked_resources repr entry = elim entry.tracked [
  | none ↦ selected_resources repr entry
  | some r ↦ r
]

abbrev pub selected : (Value → Text) → ConfigEntry → Key → Option (List Text) → List Text
selected repr entry key none = at key (tracked_resources repr entry)
selected repr entry key (some only) = only

-- Python's digits of other scripts are left out.
unfoldable pub sort_key : Text → ℕ × Text
sort_key value =
    if is_digit value
    then elim (digits_value true 0 value) [ none ↦ (0, value) | some n ↦ (n, []) ]
    else (0, value)

-- Tuples are compared part by part.
abbrev pub key_leb : ℕ × Text → ℕ × Text → Bool
key_leb a b = if ltb a.0 b.0 then true else if ltb b.0 a.0 then false else text_leb a.1 b.1

abbrev pub by_sort_key : Text → Text → Bool
by_sort_key a b = key_leb (sort_key a) (sort_key b)

-- `sorted(set(a) - set(b), key=_sort_key)`
unfoldable pub sorted_difference : List Text → List Text → List Text
sorted_difference a b = sort_by by_sort_key (difference a b)

-- What `found` adds to what is tracked, and what it removes.
unfoldable pub resource_changes : Resources → Resources → Resources × Resources
resource_changes tracked found = (
  by_keys (λ k. sorted_difference (at k found) (at k tracked)),
  by_keys (λ k. sorted_difference (at k tracked) (at k found)),
)

-- `remember_resources`: the runtime tracks exactly `found`. Setup has stored what is tracked before this is
-- called; without that the code raises.
abbrev pub remember_resources : Resources → ConfigEntry → ConfigEntry
remember_resources found entry = record entry { tracked = some (by_keys (λ k. at k found)) }
