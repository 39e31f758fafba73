-- ===== src/UpdateEntity.antt =====
-- update.py: the update entity of a node, the version it compares, its summary and its release notes.
-- `packaging.Version` is a parameter: a type of versions, how a text is read as one, and the order.
pub mod Laws
mod Tests
use proxmoxve_integration.Prelude.{
  ℕ, zero, suc, ◌-◌, List, [], ◌∷◌, ◌++◌, Bool, true, false, not, Option, none, some, ◌==◌,
  if◌then◌else◌, list_eq, nat_eq, contains, first, is_empty, keep, length, map,
}
use proxmoxve_integration.Prelude.Text.{Text, text, decimal, int_text, join_by, partition, split}
use proxmoxve_integration.Prelude.Int.{ℤ}
use proxmoxve_integration.Updates.{Package, ProxmoxUpdateData}

-- The coordinator's data: none yet, none that could be read (`total is UNDEFINED`), or updates.
pub data Pending : Type 0 where
  no_updates : Pending
  unread : Text → Pending
  known : ProxmoxUpdateData → Pending

pub record ProxmoxUpdateInfo : Type 0 where
  pub latest_version : Text
  pub latest_version_id : Text
  pub total_updates : ℕ
  pub proxmox_updates : ℕ
  pub other_updates : ℕ

abbrev pub release_package : Text
release_package = text "pve-manager"

abbrev pub first_part : List Text → Text
first_part [] = []
first_part (p ∷ ps) = p

abbrev pub own_packages : List Package → List Package
own_packages ps = keep (λ p. p.proxmox) ps

-- `or`, of texts
abbrev pub or_text : Text → Text → Text
or_text [] t = t
or_text (c ∷ s) t = c ∷ s

module _ {V : Type 0} (zero_version : V) (version? : Text → Option V) (above : V → V → Bool) where
  unfoldable pub comparable : Text → V
  comparable version = elim (version? (partition b'-' version).0) [
    | none ↦ zero_version
    | some v ↦ v
  ]

  -- `max(…, key=_comparable)`: the first of the greatest.
  unfoldable pub latest_of : Text → List Text → Text
  unfolding comparable
  latest_of best [] = best
  latest_of best (v ∷ vs) =
      latest_of (if above (comparable v) (comparable best) then v else best) vs

  -- Of the versions with `installed` in front.
  unfoldable pub latest_version : Text → List Text → Text
  unfolding latest_of
  latest_version v vs =
      latest_of (first_part (split b'-' v)) (map (λ w. first_part (split b'-' w)) vs)

  unfoldable pub release_of : Text → List Package → Text
  unfolding latest_version
  release_of installed packages = elim (first (λ p. p.name == release_package) packages) [
    | none ↦ installed
    | some p ↦ if is_empty p.version then installed else latest_version installed (p.version ∷ [])
  ]

  unfoldable pub update_version : Text → List Package → ProxmoxUpdateInfo
  unfolding release_of
  update_version installed packages =
      let total = length packages in
      let proxmox = length (own_packages packages) in
      let other = total - proxmox in
      let latest = release_of installed packages in
      let id = latest ++ (text "-p" ++ (decimal proxmox ++ (text "-d" ++ decimal other))) in
      record {
        latest_version = if is_empty packages then installed else latest;
        latest_version_id = if is_empty packages then installed else id;
        total_updates = total;
        proxmox_updates = proxmox;
        other_updates = other;
      }

  -- `installed_version` of the node coordinator's data and its version
  unfoldable pub installed_version : Option (Option Text) → Text
  installed_version none = text "unknown"
  installed_version (some none) = text "unknown"
  installed_version (some (some version)) = version

  -- `_update_info`
  unfoldable pub update_info : Text → Pending → Option ProxmoxUpdateInfo
  unfolding update_version
  update_info installed no_updates = none
  update_info installed (unread node) = none
  update_info installed (known u) =
      some (update_version (or_text installed (text "unknown")) u.packages)

  -- `available`, of an entity whose coordinator last answered or not
  unfoldable pub available : Bool → Text → Pending → Bool
  unfolding update_info
  available answered installed pending =
      if answered
      then elim (update_info installed pending) [ none ↦ false | some i ↦ true ]
      else false

  -- The property `latest_version`
  unfoldable pub latest_version_id : Text → Pending → Option Text
  unfolding update_info
  latest_version_id installed pending = elim (update_info installed pending) [
    | none ↦ none
    | some i ↦ some i.latest_version_id
  ]

  abbrev pub release_sentence : Text → ProxmoxUpdateInfo → Text
  release_sentence installed i =
      if not (i.latest_version == installed)
      then text " The newest pending Proxmox version is " ++ (i.latest_version ++ text ".")
      else elim i.proxmox_updates [
        | zero ↦ []
        | suc n ↦ text " No new Proxmox VE release among them."
      ]

  abbrev pub summary_of : Text → ProxmoxUpdateInfo → Option Text
  summary_of installed i = elim i.total_updates [
    | zero ↦ none
    | suc n ↦ some (
        decimal (suc n)
        ++ (text " package update(s) pending: "
            ++ (decimal i.proxmox_updates
                ++ (text " from Proxmox, "
                    ++ (decimal i.other_updates
                        ++ (text " from other sources." ++ release_sentence installed i))))))
  ]

  unfoldable pub release_summary : Text → Pending → Option Text
  unfolding update_info
  release_summary installed pending = elim (update_info installed pending) [
    | none ↦ none
    | some i ↦ summary_of installed i
  ]

unfoldable pub version_is_newer : Text → Text → Bool
version_is_newer latest installed = not (latest == installed)

-- `_MARKDOWN_SPECIALS`
abbrev pub markdown_specials : Text
markdown_specials = text "\\`*_[]~"

unfoldable pub as_text : Text → Text
as_text [] = []
as_text (c ∷ s) =
    let rest = as_text s in if contains markdown_specials c then b'\\' ∷ c ∷ rest else c ∷ rest

abbrev pub code_span : Text → Text
code_span s = b'`' ∷ (s ++ text "`")

unfoldable pub package_line : Package → Text
unfolding as_text
package_line p =
    let change =
      if is_empty p.old
      then text "new: " ++ code_span p.version
      else code_span p.old ++ (text " → " ++ code_span p.version) in
    text "- " ++ (as_text p.title ++ (text " (" ++ (code_span p.name ++ (text ") — " ++ change))))

-- The packages under a heading.
abbrev pub under : Bool → List Package → List Package
under own ps = keep (λ p. if own then p.proxmox else not p.proxmox) ps

abbrev pub newline : Text
newline = 10 ∷ []

abbrev pub blank_line : Text
blank_line = 10 ∷ 10 ∷ []

unfoldable pub section_of : Text → Bool → List Package → List Text
unfolding package_line
section_of heading own packages =
    let lines = map package_line (under own packages) in
    if is_empty lines
    then []
    else (text "**" ++ (heading ++ (text "**" ++ (blank_line ++ join_by newline lines)))) ∷ []

abbrev pub notes_of : Text → List Package → Text
notes_of summary packages = join_by blank_line (
    summary
    ∷ (section_of (text "Proxmox") true packages ++ section_of (text "Other") false packages))

-- `release_notes`, behind the summary that `release_summary` gives
unfoldable pub release_notes : Option Text → Pending → Option Text
unfolding section_of
release_notes none pending = none
release_notes (some summary) no_updates = none
release_notes (some summary) (unread node) = none
release_notes (some summary) (known u) = some (notes_of summary u.packages)

abbrev pub node_of : Pending → Text
node_of no_updates = []
node_of (unread node) = node
node_of (known u) = u.node

unfoldable pub release_url : Text → ℤ → Pending → Option Text
release_url host port pending =
    let node = node_of pending in
    if is_empty node
    then none
    else some (
        text "https://"
        ++ (host
            ++ (b':'
                ∷ (int_text port ++ (text "/#v1:0:=node%2F" ++ (node ++ text ":4:31::::::"))))))
