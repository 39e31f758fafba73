-- ===== src/Storage/Ids.antt =====
-- The two forms of a storage id: `storage/<name>` for a shared storage, `storage/<node>/<name>` for
-- one that is tracked per node.
use proxmoxve_integration.Prelude.{
  ◌≡◌, refl, [], ◌∷◌, ◌++◌, true, false, some, arith, ℕ_discrete, nat_eq,
}
use proxmoxve_integration.Prelude.Text.{
  Text, text, Lacks, last_part-append, last_part-Lacks, count_char, count_char-append,
  count_char_of_Lacks, starts_with-append, split, split-join, join,
}
use proxmoxve_integration.Storage.{
  prefix, storage_name, storage_node, is_shared_storage_id, shared_storage_id,
}

abbrev pub per_node_id : Text → Text → Text
per_node_id node name = prefix ++ (node ++ b'/' ∷ name)

count_char-prefix : count_char b'/' prefix ≡ 1
unfolding count_char ℕ_discrete
count_char-prefix = refl

count_char-slash : (name : Text) → Lacks b'/' name → count_char b'/' (b'/' ∷ name) ≡ 1
unfolding count_char
count_char-slash name h = ground (arith, count_char_of_Lacks b'/' name h)

split-per_node_id :
    (node name : Text)
    → Lacks b'/' node
    → Lacks b'/' name
    → split b'/' (per_node_id node name) ≡ text "storage" ∷ node ∷ name ∷ []
unfolding join
split-per_node_id node name h k =
    split-join b'/' (text "storage") (node ∷ name ∷ []) (ground arith, (h, (k, tt)))

pub storage_name-Lacks : (id : Text) → Lacks b'/' (storage_name id)
unfolding storage_name
storage_name-Lacks id = last_part-Lacks b'/' id

pub storage_name-shared_storage_id :
    (name : Text) → Lacks b'/' name → storage_name (shared_storage_id name) ≡ name
unfolding storage_name shared_storage_id
storage_name-shared_storage_id name h = last_part-append b'/' (text "storage") name h

pub storage_name-per_node_id :
    (node name : Text) → Lacks b'/' name → storage_name (per_node_id node name) ≡ name
unfolding storage_name
storage_name-per_node_id node name h = last_part-append b'/' (prefix ++ node) name h

pub is_shared_storage_id-shared_storage_id :
    (name : Text) → Lacks b'/' name → is_shared_storage_id (shared_storage_id name) ≡ true
unfolding is_shared_storage_id shared_storage_id
is_shared_storage_id-shared_storage_id name h = ground (
  arith,
  starts_with-append prefix name,
  count_char-append b'/' prefix name,
  count_char_of_Lacks b'/' name h,
  count_char-prefix,
)

-- The three functions take a per-node id apart: it has its node and its name, and is not the form
-- of a shared storage.
pub storage_parts-per_node_id :
    (node name : Text)
    → Lacks b'/' node
    → Lacks b'/' name
    → (storage_name (per_node_id node name) ≡ name)
      × (storage_node (per_node_id node name) ≡ some node)
      × (is_shared_storage_id (per_node_id node name) ≡ false)
unfolding storage_node is_shared_storage_id
storage_parts-per_node_id node name h k = (
  storage_name-per_node_id node name k,
  rw (split-per_node_id node name h k),
  ground (
    arith,
    count_char-append b'/' prefix (node ++ b'/' ∷ name),
    count_char-append b'/' node (b'/' ∷ name),
    count_char_of_Lacks b'/' node h,
    count_char-slash name k,
    count_char-prefix,
  ),
)
