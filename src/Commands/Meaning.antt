-- ===== src/Commands/Meaning.antt =====
-- How the API reads the request of a command: what it does, and to whom.
use mathlib.Core.List.{append_assoc}
use proxmoxve_integration.Prelude.{
  ℕ, ◌≡◌, refl, sym, ap, ◌∙◌, [], ◌∷◌, ◌++◌, Bool, true, false, Option, none, some, ◌==◌, ◌||◌,
  ◌&&◌, if◌then◌else◌, contains, list_eq, nat_eq, ℕ_discrete, arith,
}
use proxmoxve_integration.Prelude.Dict.{lookup}
use proxmoxve_integration.Prelude.Text.{Text, text, last_part, starts_with, starts_with-append}
use proxmoxve_integration.Const.{ProxmoxCommand, command_value, type_value}
use proxmoxve_integration.Commands.{
  cluster, whole_node, Param, number, word, null, Request, Command, command_request,
  cluster_request, vzdump_request, node_request, guest_request, node_path, guest_path, category,
  vm_text, vm_param,
}

abbrev is_on : Option Param → Bool
is_on (some (number n)) = n == 1
is_on _ = false

abbrev is_there : Option Param → Bool
is_there none = false
is_there (some p) = true

abbrev is_lock : Option Param → Bool
is_lock (some (word w)) = w == text "lock"
is_lock _ = false

abbrev word_or : Text → Option Param → Text
word_or t (some (word w)) = w
word_or t _ = t

-- What a request does: to suspend to disk is to hibernate, to delete the lock to unlock, a backup is of all or of
-- a guest, and otherwise the command is named, or is the last part of the path.
abbrev pub effect : Request → Text
effect r =
    if is_on (lookup (text "todisk") r.params)
    then text "hibernate"
    else if is_there (lookup (text "snapname") r.params)
    then text "snapshot"
    else if is_lock (lookup (text "delete") r.params)
    then text "unlock"
    else if is_on (lookup (text "all") r.params)
    then text "backup-all"
    else if is_there (lookup (text "vmid") r.params)
    then text "backup"
    else word_or (last_part b'/' r.api_path) (lookup (text "command") r.params)

last_part_after : (a s : Text) → contains s b'/' ≡ true → last_part b'/' (a ++ s) ≡ last_part b'/' s
unfolding last_part
last_part_after [] s h = refl
last_part_after (c ∷ a) s h = ground (arith, h, last_part_after a s h, holds a s h)
  where
    holds : (b t : Text) → contains t b'/' ≡ true → contains (b ++ t) b'/' ≡ true
    holds [] t k = k
    holds (d ∷ b) t k = ground (arith, holds b t k)

last_node :
    (c : Command) (rest : Text) → last_part b'/' (node_path c rest) ≡ last_part b'/' (b'/' ∷ rest)
last_node c rest =
    ap (last_part b'/') (sym (append_assoc (text "nodes/") c.node (b'/' ∷ rest)))
    ∙ last_part_after (text "nodes/" ++ c.node) (b'/' ∷ rest) (ground arith)

last_value : (k : ProxmoxCommand) → last_part b'/' (b'/' ∷ command_value k) ≡ command_value k
unfolding last_part ℕ_discrete
last_value k = ground arith

holds_behind : (a : Text) (rest : Text) → contains (a ++ b'/' ∷ rest) b'/' ≡ true
holds_behind [] rest = ground arith
holds_behind (c ∷ a) rest = ground (arith, holds_behind a rest)

last_guest :
    (c : Command) (rest : Text) → last_part b'/' (guest_path c rest) ≡ last_part b'/' (b'/' ∷ rest)
last_guest c rest =
    let kind = type_value (category c.subject) in
    last_node c (kind ++ b'/' ∷ (vm_text c.vm_id ++ b'/' ∷ rest))
    ∙ (last_part_after (b'/' ∷ kind) (b'/' ∷ (vm_text c.vm_id ++ b'/' ∷ rest)) (ground arith)
        ∙ last_part_after (b'/' ∷ vm_text c.vm_id) (b'/' ∷ rest) (ground arith))

last_status :
    (c : Command) (k : ProxmoxCommand)
    → last_part b'/' (guest_path c (text "status/" ++ command_value k)) ≡ command_value k
last_status c k =
    last_guest c (text "status/" ++ command_value k)
    ∙ (last_part_after (text "/status") (b'/' ∷ command_value k) (ground arith) ∙ last_value k)

last_command :
    (c : Command) (k : ProxmoxCommand)
    → last_part b'/' (node_path c (command_value k)) ≡ command_value k
last_command c k = last_node c (command_value k) ∙ last_value k

last_cluster :
    (k : ProxmoxCommand)
    → last_part b'/' (text "cluster/ha/status/" ++ command_value k) ≡ command_value k
last_cluster k =
    last_part_after (text "cluster/ha/status") (b'/' ∷ command_value k) (ground arith)
    ∙ last_value k

cluster_request-effect : (c : Command) → effect (cluster_request c) ≡ command_value c.command
unfolding cluster_request list_eq ℕ_discrete
cluster_request-effect c = ground (arith, last_cluster c.command)

node_request-effect : (c : Command) → effect (node_request c) ≡ command_value c.command
unfolding node_request list_eq ℕ_discrete
node_request-effect c = ground (arith, last_command c c.command)

guest_request-effect :
    (c : Command) (stamp : Text) → effect (guest_request c stamp) ≡ command_value c.command
unfolding guest_request list_eq ℕ_discrete
guest_request-effect c stamp = ground (arith, last_status c c.command)

-- The request of every command does what the command is named for.
pub command_request-effect :
    (c : Command) (storage : Option Text) (stamp : Text)
    → effect (command_request c storage stamp) ≡ command_value c.command
unfolding command_request vzdump_request list_eq ℕ_discrete
command_request-effect c storage stamp =
    ground (arith, cluster_request-effect c, node_request-effect c, guest_request-effect c stamp)

abbrev is_guest_id : Option ℕ → Option Param → Bool
is_guest_id (some n) (some (number m)) = n == m
is_guest_id none (some null) = true
is_guest_id _ _ = false

-- Whether a request is for the command's node or guest: below its path, or a backup on its node, of the guest.
abbrev pub reaches : Command → Request → Bool
reaches c r = elim c.subject [
  | cluster ↦ starts_with (text "cluster/ha/status/") r.api_path
  | whole_node ↦ starts_with (node_path c []) r.api_path
  | _ ↦
      starts_with (guest_path c []) r.api_path
      || (r.api_path == node_path c (text "vzdump")
          && (is_guest_id c.vm_id (lookup (text "vmid") r.params)
              || is_on (lookup (text "all") r.params)))
]

same_start : (a s t : Text) → starts_with (a ++ s) (a ++ t) ≡ starts_with s t
unfolding starts_with
same_start [] s t = refl
same_start (c ∷ a) s t = ground (arith, same_start a s t)

starts_all : (s : Text) → starts_with [] s ≡ true
unfolding starts_with
starts_all s = refl

starts_slash : (s t : Text) → starts_with (b'/' ∷ s) (b'/' ∷ t) ≡ starts_with s t
unfolding starts_with
starts_slash s t = ground arith

starts-node_path :
    (c : Command) (s t : Text) → starts_with (node_path c s) (node_path c t) ≡ starts_with s t
starts-node_path c s t =
    same_start (text "nodes/") (c.node ++ b'/' ∷ s) (c.node ++ b'/' ∷ t)
    ∙ (same_start c.node (b'/' ∷ s) (b'/' ∷ t) ∙ starts_slash s t)

starts-guest_path :
    (c : Command) (rest : Text) → starts_with (guest_path c []) (guest_path c rest) ≡ true
starts-guest_path c rest =
    let kind = type_value (category c.subject) in
    let below = λ (t : Text). b'/' ∷ (vm_text c.vm_id ++ b'/' ∷ t) in
    starts-node_path c (kind ++ below []) (kind ++ below rest)
    ∙ (same_start kind (below []) (below rest)
        ∙ (starts_slash (vm_text c.vm_id ++ b'/' ∷ []) (vm_text c.vm_id ++ b'/' ∷ rest)
            ∙ (same_start (vm_text c.vm_id) (b'/' ∷ []) (b'/' ∷ rest)
                ∙ (starts_slash [] rest ∙ starts_all rest))))

starts-node : (c : Command) (rest : Text) → starts_with (node_path c []) (node_path c rest) ≡ true
starts-node c rest = starts-node_path c [] rest ∙ starts_all rest

is_guest_id-same : (o : Option ℕ) → is_guest_id o (some (vm_param o)) ≡ true
is_guest_id-same none = refl
is_guest_id-same (some n) = ground arith

same_text : (t : Text) → (t == t) ≡ true
same_text t = ground arith

node_request-reaches : (c : Command) → starts_with (node_path c []) (node_request c).api_path ≡ true
unfolding node_request
node_request-reaches c =
    ground (arith, starts-node c (text "status"), starts-node c (command_value c.command))

guest_request-reaches :
    (c : Command) (stamp : Text)
    → starts_with (guest_path c []) (guest_request c stamp).api_path ≡ true
unfolding guest_request
guest_request-reaches c stamp = ground (
  arith,
  starts-guest_path c (text "status/suspend"),
  starts-guest_path c (text "snapshot"),
  starts-guest_path c (text "config"),
  starts-guest_path c (text "status/" ++ command_value c.command),
)

cluster_request-reaches :
    (c : Command) → starts_with (text "cluster/ha/status/") (cluster_request c).api_path ≡ true
unfolding cluster_request
cluster_request-reaches c =
    ground (arith, starts_with-append (text "cluster/ha/status/") (command_value c.command))

-- The request of every command is for the command's node or guest.
pub command_request-reaches :
    (c : Command) (storage : Option Text) (stamp : Text)
    → reaches c (command_request c storage stamp) ≡ true
unfolding command_request vzdump_request list_eq ℕ_discrete
command_request-reaches c storage stamp = ground (
  arith,
  cluster_request-reaches c,
  node_request-reaches c,
  guest_request-reaches c stamp,
  starts-node c (text "vzdump"),
  is_guest_id-same c.vm_id,
  same_text (node_path c (text "vzdump")),
)
