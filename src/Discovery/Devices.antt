-- ===== src/Discovery/Devices.antt =====
-- discovery.py: the devices that go with resources, found by their identifiers.
use proxmoxve_integration.Prelude.{
  List, [], ◌∷◌, ◌++◌, Bool, false, not, Option, none, some, ◌==◌, ◌||◌, contains, any,
  if◌then◌else◌, list_eq, nat_eq, is_empty, map, drop, length,
}
use proxmoxve_integration.Prelude.Text.{Text, text, starts_with, partition, remove_all}
use proxmoxve_integration.Const.{ProxmoxType, type_upper}
use proxmoxve_integration.Discovery.{Resources, Key, category_of}

-- A device of the registry: its id and, of its identifiers, those of this integration.
pub record Device : Type 0 where
  pub id : Text
  pub identifiers : List Text

-- A storage's name in an identifier.
abbrev pub storage_key : Text → Text
storage_key id = remove_all (text "storage/") id

-- `present[kind]`, where there is one
unfoldable pub present : Resources → Text → Option (List Text)
present found kind =
    if kind == type_upper ProxmoxType.qemu
    then some found.qemu
    else if kind == type_upper ProxmoxType.lxc
    then some found.lxc
    else if kind == type_upper ProxmoxType.storage
    then some (map storage_key found.storage)
    else if kind == type_upper ProxmoxType.node
    then some found.nodes
    else none

abbrev pub is_disk_kind : Text → Bool
is_disk_kind kind = kind == type_upper ProxmoxType.disk || kind == type_upper ProxmoxType.zfs

-- What is behind the entry's id in an identifier, taken apart.
unfoldable pub stale_rest : Resources → Text → Text → Bool
stale_rest found kind rest =
    if is_disk_kind kind
    then not (contains found.nodes (partition b'_' rest).0)
    else elim (present found kind) [ none ↦ false | some ids ↦ not (contains ids rest) ]

-- The inner `_stale`
unfoldable pub is_stale : Text → Resources → Text → Bool
is_stale entry_id found identifier =
    let own = entry_id ++ text "_" in
    let parts = partition b'_' (drop (length own) identifier) in
    if starts_with own identifier then stale_rest found parts.0 parts.1 else false

abbrev pub without : (Device → Bool) → List Device → List Device
without gone [] = []
without gone (d ∷ ds) = let rest = without gone ds in if gone d then rest else d ∷ rest

-- The devices of the entry that are left.
unfoldable pub remove_stale_devices : Text → Resources → List Device → List Device
remove_stale_devices entry_id found devices =
    without (λ d. any (is_stale entry_id found) d.identifiers) devices

abbrev pub identifier_of : Text → Text → Text → Text
identifier_of entry_id kind key = entry_id ++ b'_' ∷ (kind ++ b'_' ∷ key)

abbrev pub resource_key : Key → Text → Text
resource_key Key.storage id = storage_key id
resource_key _ id = id

abbrev exact_of : Text → Key → List Text → List Text
exact_of entry_id k [] = []
exact_of entry_id k (id ∷ ids) =
    identifier_of entry_id (type_upper (category_of k)) (resource_key k id)
    ∷ exact_of entry_id k ids

unfoldable pub exact : Text → Resources → List Text
exact entry_id removed =
    exact_of entry_id Key.nodes removed.nodes
    ++ (exact_of entry_id Key.qemu removed.qemu
        ++ (exact_of entry_id Key.lxc removed.lxc ++ exact_of entry_id Key.storage removed.storage))

unfoldable pub prefixes : Text → List Text → List Text
prefixes entry_id [] = []
prefixes entry_id (node ∷ nodes) =
    identifier_of entry_id (type_upper ProxmoxType.disk) (node ++ text "_")
    ∷ identifier_of entry_id (type_upper ProxmoxType.zfs) (node ++ text "_")
    ∷ prefixes entry_id nodes

abbrev pub goes : List Text → List Text → Text → Bool
goes exact prefixes id = contains exact id || any (λ p. starts_with p id) prefixes

unfoldable pub remove_resource_devices : Text → Resources → List Device → List Device
remove_resource_devices entry_id removed devices =
    let ids = exact entry_id removed in
    let owned = prefixes entry_id removed.nodes in
    if is_empty ids then devices else without (λ d. any (goes ids owned) d.identifiers) devices
