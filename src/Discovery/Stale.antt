-- ===== src/Discovery/Stale.antt =====
-- Which devices discovery detaches at setup.
use mathlib.Core.List.{append_assoc}
use proxmoxve_integration.Prelude.{
  ℕ, ◌≡◌, refl, ◌∙◌, List, [], ◌∷◌, ◌++◌, true, false, not, contains, map, list_eq, nat_eq,
  ℕ_discrete, arith,
}
use proxmoxve_integration.Prelude.Text.{
  Text, text, partition, starts_with-append, drop-append, Lacks,
}
use proxmoxve_integration.Const.{ProxmoxType, type_upper}
use proxmoxve_integration.Discovery.{Resources, Key, nodes, qemu, lxc, storage, category_of}
use proxmoxve_integration.Discovery.Devices.{
  is_stale, is_disk_kind, stale_rest, present, storage_key, resource_key, identifier_of,
}

partition-append : (sep : ℕ) (p s : Text) → Lacks sep p → partition sep (p ++ sep ∷ s) ≡ (p, s)
unfolding partition
partition-append sep [] s h = ground arith
partition-append sep (c ∷ p) s h = ground (arith, h, partition-append sep p s)

-- An identifier of the entry is judged by what is behind the entry's id.
stale_behind :
    (id kind rest : Text) (found : Resources)
    → Lacks b'_' kind
    → is_stale id found (identifier_of id kind rest) ≡ stale_rest found kind rest
unfolding is_stale
stale_behind id kind rest found h = ground (
  arith,
  append_assoc id (text "_") (kind ++ b'_' ∷ rest),
  starts_with-append (id ++ text "_") (kind ++ b'_' ∷ rest),
  drop-append (id ++ text "_") (kind ++ b'_' ∷ rest),
  partition-append b'_' kind rest h,
)

-- The ids that devices of a kind go by.
abbrev pub known : Key → Resources → List Text
known nodes found = found.nodes
known qemu found = found.qemu
known lxc found = found.lxc
known storage found = map storage_key found.storage

-- A device of a node, a guest or a storage is detached exactly if the cluster does not list its
-- resource, whatever underscores are in its id.
is_stale-identifier :
    (id v : Text) (found : Resources) (k : Key)
    → is_stale id found (identifier_of id (type_upper (category_of k)) (resource_key k v))
      ≡ not (contains (known k found) (resource_key k v))
unfolding stale_rest present list_eq ℕ_discrete
is_stale-identifier id v found nodes = stale_behind id (text "NODE") v found refl
is_stale-identifier id v found qemu = stale_behind id (text "QEMU") v found refl
is_stale-identifier id v found lxc = stale_behind id (text "LXC") v found refl
is_stale-identifier id v found storage = stale_behind id (text "STORAGE") (storage_key v) found refl

stale_owned :
    (kind node disk : Text) (found : Resources)
    → is_disk_kind kind ≡ true
    → Lacks b'_' node
    → stale_rest found kind (node ++ b'_' ∷ disk) ≡ not (contains found.nodes node)
unfolding stale_rest
stale_owned kind node disk found owns h =
    rw owns (ground (arith, partition-append b'_' node disk h))

stale_parts :
    (id rest : Text) (found : Resources)
    → let parts = partition b'_' rest in
      is_stale id found (id ++ b'_' ∷ rest) ≡ stale_rest found parts.0 parts.1
unfolding is_stale
stale_parts id rest found = ground (
  arith,
  append_assoc id (text "_") rest,
  starts_with-append (id ++ text "_") rest,
  drop-append (id ++ text "_") rest,
)

cluster_rest :
    (found : Resources)
    → let parts = partition b'_' (text "cluster") in stale_rest found parts.0 parts.1 ≡ false
unfolding partition stale_rest present list_eq ℕ_discrete
cluster_rest found = refl

-- A disk's device is detached exactly if its node is not listed, for a node name without underscore;
-- so is a pool's. The cluster's own device is never detached.
pub is_stale-owned :
    (id node disk : Text) (found : Resources)
    → Lacks b'_' node
    → (is_stale id found (identifier_of id (type_upper ProxmoxType.disk) (node ++ b'_' ∷ disk))
        ≡ not (contains found.nodes node))
      × (is_stale id found (identifier_of id (type_upper ProxmoxType.zfs) (node ++ b'_' ∷ disk))
          ≡ not (contains found.nodes node))
      × (is_stale id found (id ++ text "_cluster") ≡ false)
unfolding list_eq ℕ_discrete
is_stale-owned id node disk found h = (
  stale_behind id (text "DISK") (node ++ b'_' ∷ disk) found refl
      ∙ stale_owned (text "DISK") node disk found refl h,
  stale_behind id (text "ZFS") (node ++ b'_' ∷ disk) found refl
      ∙ stale_owned (text "ZFS") node disk found refl h,
  stale_parts id (text "cluster") found ∙ cluster_rest found,
)
