-- ===== src/Issues.antt =====
-- issues.py: the repairs an entry raises about its resources, one per kind. Home Assistant's issue
-- registry is a parameter with the behaviour that the code relies on; the lists in `hass.data` are
-- part of the state.
pub mod Registry
pub mod Lines
pub mod InStep
pub mod Noted
pub mod Sweep
mod Tests
use proxmoxve_integration.Prelude.{
  ℕ, suc, List, [], ◌∷◌, ◌++◌, Bool, true, false, not, Option, none, some, ◌==◌, ◌&&◌, ◌||◌,
  contains, if◌then◌else◌, list_eq, nat_eq, option_eq, map, any, keep, length, is_empty,
}
use proxmoxve_integration.Prelude.Dict.{Dict, lookup, insert, erase, keys}
use proxmoxve_integration.Prelude.Sort.{sort_by}
use proxmoxve_integration.Prelude.Text.{
  Text, text, text_leb, join_by, decimal, starts_with, ends_with,
}
use Registry.{IssueRegistry, Issue}

pub data Kind : Type 0 where
  forbidden nonexistent : Kind

abbrev pub kind_value : Kind → Text
kind_value forbidden = text "forbidden"
kind_value nonexistent = text "nonexistent"

pub record ResourceLine : Type 0 where
  pub label : Text
  pub permission : Text
  pub tracked_as : Option Text

-- The equality of the dataclass.
abbrev pub same_line : ResourceLine → ResourceLine → Bool
same_line a b = a.label == b.label && a.permission == b.permission && a.tracked_as == b.tracked_as

abbrev pub Lines : Type 0
Lines = Dict Text ResourceLine

pub record Lists : Type 0 where
  pub forbidden : Lines
  pub nonexistent : Lines

abbrev pub no_lists : Lists
no_lists = record { forbidden = []; nonexistent = [] }

abbrev pub lines_of : Kind → Lists → Lines
lines_of forbidden l = l.forbidden
lines_of nonexistent l = l.nonexistent

abbrev pub with_lines : Kind → Lines → Lists → Lists
with_lines forbidden d l = record l { forbidden = d }
with_lines nonexistent d l = record l { nonexistent = d }

-- Of a config entry, what the repairs are made of: its id, and of its data `user`, `host`, `port` and the
-- credentials named in the label of a refused cluster-wide read.
pub record ConfigEntry : Type 0 where
  pub entry_id : Text
  pub username : Text
  pub host : Text
  pub port : Text
  pub ha_admin_username : Option Text

-- `f"{entry_id}_{kind}"`
abbrev pub issue_id : Text → Kind → Text
issue_id entry_id kind = entry_id ++ b'_' ∷ kind_value kind

abbrev by_key : Text × ResourceLine → Text × ResourceLine → Bool
by_key a b = text_leb a.0 b.0

-- A line of the repair's list, with a long dash between its parts.
abbrev item_text : Text × ResourceLine → Text
item_text (key, line) =
    text "* `" ++ (line.label ++ (text "` " ++ 8212 ∷ (text " `" ++ (line.permission ++ text "`"))))

-- The repair that lists the lines.
unfoldable pub issue_of : ConfigEntry → Kind → Lines → Issue
issue_of entry kind lines = record {
  translation_key = text "resources_" ++ kind_value kind;
  user = entry.username;
  host = entry.host;
  port = entry.port;
  count = decimal (length lines);
  items = join_by (text "\n") (map item_text (sort_by by_key lines));
}

-- The part of `hass` that issues.py reads and writes: the lists of each entry, and the registry.
pub record Hass (State : Type 0) : Type 0 where
  pub lists : Dict Text Lists
  pub registry : State

-- `_lists`: the entry's lists, put there empty if they are not there.
abbrev pub lists_in : Text → Dict Text Lists → Lists
lists_in entry_id lists = elim (lookup entry_id lists) [ none ↦ no_lists | some l ↦ l ]

module _ (R : IssueRegistry) where
  abbrev pub lists_of : Text → Hass R.State → Lists
  lists_of entry_id h = lists_in entry_id h.lists

  abbrev put_lists : Text → Lists → Hass R.State → Hass R.State
  put_lists entry_id l h = record h { lists = insert entry_id l h.lists }

  -- `_rewrite`
  unfoldable pub rewrite : ConfigEntry → Kind → Hass R.State → Hass R.State
  rewrite entry kind h =
      let lines = lines_of kind (lists_of entry.entry_id h) in
      let id = issue_id entry.entry_id kind in
      record h {
        registry =
            if is_empty lines
            then R.delete id h.registry
            else R.create id (issue_of entry kind lines) h.registry;
      }

  -- The lists with the lines of a kind given anew, and the repair rewritten from them.
  unfoldable pub update_lines : ConfigEntry → Kind → Lines → Hass R.State → Hass R.State
  update_lines entry kind lines h =
      rewrite entry kind
        (put_lists entry.entry_id (with_lines kind lines (lists_of entry.entry_id h)) h)

  -- `_lists` alone: what is left behind by a call that changes nothing.
  unfoldable pub touch : Text → Hass R.State → Hass R.State
  touch entry_id h = put_lists entry_id (lists_of entry_id h) h

  -- `note_resource(..., listed=True)`
  unfoldable pub list_resource :
      ConfigEntry → Kind → Text → Option ResourceLine → Hass R.State → Hass R.State
  list_resource entry kind key none h = touch entry.entry_id h
  list_resource entry kind key (some line) h =
      let lines = lines_of kind (lists_of entry.entry_id h) in
      elim (lookup key lines) [
        | none ↦ update_lines entry kind (insert key line lines) h
        | some old ↦
            if same_line old line
            then touch entry.entry_id h
            else update_lines entry kind (insert key line lines) h
      ]

  -- `note_resource(..., listed=False)`
  unfoldable pub unlist_resource : ConfigEntry → Kind → Text → Hass R.State → Hass R.State
  unlist_resource entry kind key h =
      let lines = lines_of kind (lists_of entry.entry_id h) in
      elim (lookup key lines) [
        | none ↦ touch entry.entry_id h
        | some old ↦ update_lines entry kind (erase key lines) h
      ]

  unfoldable pub note_resource :
      ConfigEntry → Kind → Text → Option ResourceLine → Bool → Hass R.State → Hass R.State
  note_resource entry kind key line true h = list_resource entry kind key line h
  note_resource entry kind key line false h = unlist_resource entry kind key h

-- The keys of the lines whose resource is tracked no more. Cluster-wide reads have no tracked id.
abbrev pub is_stale : List Text → ResourceLine → Bool
is_stale still_tracked line = elim line.tracked_as [
  | none ↦ false
  | some id ↦ not (contains still_tracked id)
]

abbrev pub stale_keys : List Text → Lines → List Text
stale_keys still_tracked [] = []
stale_keys still_tracked ((key, line) ∷ lines) =
    let rest = stale_keys still_tracked lines in
    if is_stale still_tracked line then key ∷ rest else rest

abbrev pub erase_all : List Text → Lines → Lines
erase_all [] lines = lines
erase_all (key ∷ keys) lines = erase_all keys (erase key lines)

unfoldable pub is_legacy : Text → Text → Bool
is_legacy entry_id id =
    starts_with (entry_id ++ text "_") id
    && (ends_with (text "_forbiden") id || ends_with (text "_resource_nonexistent") id)
    && not (ends_with (text "_command_forbiden") id)

module _ (R : IssueRegistry) where
  -- One round of the loop of `forget_untracked`.
  unfoldable pub forget_stale : ConfigEntry → List Text → Kind → Hass R.State → Hass R.State
  forget_stale entry still_tracked kind h =
      let lines = lines_of kind (lists_of R entry.entry_id h) in
      let stale = stale_keys still_tracked lines in
      if is_empty stale then h else update_lines R entry kind (erase_all stale lines) h

  unfoldable pub forget_untracked : ConfigEntry → List Text → Hass R.State → Hass R.State
  forget_untracked entry still_tracked h =
      forget_stale entry still_tracked nonexistent
        (forget_stale entry still_tracked forbidden (touch R entry.entry_id h))

  unfoldable pub forget_entry : Text → Hass R.State → Hass R.State
  forget_entry entry_id h = record {
    lists = erase entry_id h.lists;
    registry =
        R.delete (issue_id entry_id nonexistent)
          (R.delete (issue_id entry_id forbidden) h.registry);
  }

  unfoldable pub sweep_from : Text → List Text → R.State → R.State
  sweep_from entry_id [] s = s
  sweep_from entry_id (id ∷ ids) s =
      sweep_from entry_id ids (if is_legacy entry_id id then R.delete id s else s)

  unfoldable pub sweep_legacy_issues : Text → Hass R.State → Hass R.State
  sweep_legacy_issues entry_id h = record h {
    registry = sweep_from entry_id (R.ids h.registry) h.registry;
  }
