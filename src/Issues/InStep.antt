-- ===== src/Issues/InStep.antt =====
-- The repairs are in step with the lists: each entry has the repair of a kind exactly while that
-- kind's list has lines, and the repair shows those lines.
use proxmoxve_integration.Prelude.{
  ◌≡◌, ◌≢◌, List, [], Bool, true, false, Option, none, some, ◌==◌, ◌⊎◌, inl, inr, if◌then◌else◌,
  list_eq, nat_eq, arith, is_empty, Bool-cases, Option-cases,
}
use proxmoxve_integration.Prelude.Dict.{lookup, insert, erase, lookup-insert, lookup-erase}
use proxmoxve_integration.Prelude.Text.{Text}
use proxmoxve_integration.Issues.Registry.{IssueRegistry, Issue}
use proxmoxve_integration.Issues.{
  Kind, forbidden, nonexistent, issue_id, issue_of, Lines, with_lines, lists_of, ConfigEntry, Hass,
  rewrite, update_lines, touch, ResourceLine, list_resource, unlist_resource, note_resource,
  forget_stale, forget_untracked, forget_entry, same_line, stale_keys, erase_all,
}
use proxmoxve_integration.Issues.Lines.{
  kind_eq, issue_id-injective, lines_of-with_lines, lines_at, lines_at-touch, lines_at-update_lines,
}

-- The repair that stands for the lines of a kind.
abbrev pub expected : ConfigEntry → Kind → Lines → Option Issue
expected entry kind lines = if is_empty lines then none else some (issue_of entry kind lines)

module _ (R : IssueRegistry) where
  abbrev pub InStep : ConfigEntry → Hass R.State → Type 0
  InStep entry h =
      (k : Kind)
      → R.find (issue_id entry.entry_id k) h.registry
        ≡ expected entry k (lines_at R entry.entry_id k h)

  -- Entries are told apart by their ids.
  abbrev pub SameOrOther : ConfigEntry → ConfigEntry → Type 0
  SameOrOther a b = (a ≡ b) ⊎ (a.entry_id ≢ b.entry_id)

  find-rewrite :
      (entry : ConfigEntry) (kind : Kind) (h : Hass R.State) (id : Text)
      → R.find id (rewrite R entry kind h).registry ≡ (
          if id == issue_id entry.entry_id kind
          then expected entry kind (lines_at R entry.entry_id kind h)
          else R.find id h.registry)
  unfolding rewrite
  find-rewrite entry kind h id = ground (
    arith,
    R.find-create (issue_id entry.entry_id kind) id
        (issue_of entry kind (lines_at R entry.entry_id kind h)) h.registry,
    R.find-delete (issue_id entry.entry_id kind) id h.registry,
  )

  -- A repair after one kind's lines were given anew.
  find-update_lines :
      (entry : ConfigEntry) (kind : Kind) (lines : Lines) (h : Hass R.State) (id : Text)
      → R.find id (update_lines R entry kind lines h).registry ≡ (
          if id == issue_id entry.entry_id kind
          then expected entry kind lines
          else R.find id h.registry)
  unfolding update_lines
  find-update_lines entry kind lines h id = ground (
    arith,
    find-rewrite entry kind
        (record h {
          lists =
              insert entry.entry_id (with_lines kind lines (lists_of R entry.entry_id h)) h.lists;
        })
        id,
    lookup-insert entry.entry_id entry.entry_id
        (with_lines kind lines (lists_of R entry.entry_id h)) h.lists,
    lines_of-with_lines kind kind lines (lists_of R entry.entry_id h),
  )

  update_lines_own :
      (entry : ConfigEntry) (kind : Kind) (lines : Lines) (h : Hass R.State)
      → InStep entry h
      → InStep entry (update_lines R entry kind lines h)
  update_lines_own entry kind lines h s k = ground (
    arith,
    s k,
    find-update_lines entry kind lines h (issue_id entry.entry_id k),
    lines_at-update_lines R entry kind lines h entry.entry_id k,
    issue_id-injective entry.entry_id entry.entry_id k kind,
  )

  update_lines-InStep :
      (entry other : ConfigEntry) (kind : Kind) (lines : Lines) (h : Hass R.State)
      → SameOrOther other entry
      → InStep other h
      → InStep other (update_lines R entry kind lines h)
  update_lines-InStep entry other kind lines h (inl same) s k =
      rw same (update_lines_own entry kind lines h (rw (← same) s) k)
  update_lines-InStep entry other kind lines h (inr apart) s k = ground (
    arith,
    s k,
    find-update_lines entry kind lines h (issue_id other.entry_id k),
    lines_at-update_lines R entry kind lines h other.entry_id k,
    issue_id-injective other.entry_id entry.entry_id k kind,
  )

  touch-InStep :
      (id : Text) (other : ConfigEntry) (h : Hass R.State)
      → InStep other h
      → InStep other (touch R id h)
  unfolding touch
  touch-InStep id other h s k = ground (arith, s k, lines_at-touch R id other.entry_id k h)

  list_resource-InStep :
      (entry other : ConfigEntry) (kind : Kind) (key : Text) (line : Option ResourceLine)
      → (h : Hass R.State) → SameOrOther other entry
      → InStep other h
      → InStep other (list_resource R entry kind key line h)
  unfolding list_resource
  list_resource-InStep entry other kind key none h o s = touch-InStep entry.entry_id other h s
  list_resource-InStep entry other kind key (some line) h o s =
      let lines = lines_at R entry.entry_id kind h in
      let updated = update_lines-InStep entry other kind (insert key line lines) h o s in
      elim (Option-cases (lookup key lines)) [
        | inl missing ↦ rw (missing, list_resource) updated
        | inr (old, found) ↦
            rw (found, list_resource)
              (elim (Bool-cases (same_line old line)) [
                | inl same ↦ rw (same, list_resource) (touch-InStep entry.entry_id other h s)
                | inr changed ↦ rw (changed, list_resource) updated
              ])
      ]

  unlist_resource-InStep :
      (entry other : ConfigEntry) (kind : Kind) (key : Text) (h : Hass R.State)
      → SameOrOther other entry
      → InStep other h
      → InStep other (unlist_resource R entry kind key h)
  unfolding unlist_resource
  unlist_resource-InStep entry other kind key h o s =
      let lines = lines_at R entry.entry_id kind h in
      elim (Option-cases (lookup key lines)) [
        | inl missing ↦ rw (missing, unlist_resource) (touch-InStep entry.entry_id other h s)
        | inr (old, found) ↦
            rw (found, unlist_resource)
              (update_lines-InStep entry other kind (erase key lines) h o s)
      ]

  -- If every repair of an entry shows exactly the lines listed for it, and is absent where there
  -- are none, this is still so after a resource of this entry, or of another with another id, is
  -- listed or unlisted.
  pub note_resource-InStep :
      (entry other : ConfigEntry) (kind : Kind) (key : Text) (line : Option ResourceLine)
      → (listed : Bool) (h : Hass R.State) → SameOrOther other entry
      → InStep other h
      → InStep other (note_resource R entry kind key line listed h)
  unfolding note_resource
  note_resource-InStep entry other kind key line true h o s =
      list_resource-InStep entry other kind key line h o s
  note_resource-InStep entry other kind key line false h o s =
      unlist_resource-InStep entry other kind key h o s

  forget_stale-InStep :
      (entry other : ConfigEntry) (still : List Text) (kind : Kind) (h : Hass R.State)
      → SameOrOther other entry
      → InStep other h
      → InStep other (forget_stale R entry still kind h)
  unfolding forget_stale
  forget_stale-InStep entry other still kind h o s =
      let lines = lines_at R entry.entry_id kind h in
      let stale = stale_keys still lines in
      elim (Bool-cases (is_empty stale)) [
        | inl e ↦ rw e s
        | inr e ↦ rw e (update_lines-InStep entry other kind (erase_all stale lines) h o s)
      ]

  -- If every repair of an entry shows exactly the lines listed for it, this is still so after the
  -- lines of the resources that this entry, or another with another id, does not track any more
  -- are dropped.
  pub forget_untracked-InStep :
      (entry other : ConfigEntry) (still : List Text) (h : Hass R.State)
      → SameOrOther other entry
      → InStep other h
      → InStep other (forget_untracked R entry still h)
  unfolding forget_untracked
  forget_untracked-InStep entry other still h o s =
      forget_stale-InStep entry other still nonexistent _ o (
        forget_stale-InStep entry other still forbidden _ o (touch-InStep entry.entry_id other h s))

  forgotten_repair :
      (id : Text) (h : Hass R.State) (j : Text) (k : Kind)
      → R.find (issue_id j k) (forget_entry R id h).registry
        ≡ (if j == id then none else R.find (issue_id j k) h.registry)
  unfolding forget_entry
  forgotten_repair id h j forbidden = ground (
    arith,
    R.find-delete (issue_id id nonexistent) (issue_id j forbidden)
        (R.delete (issue_id id forbidden) h.registry),
    R.find-delete (issue_id id forbidden) (issue_id j forbidden) h.registry,
    issue_id-injective j id forbidden forbidden,
    issue_id-injective j id forbidden nonexistent,
  )
  forgotten_repair id h j nonexistent = ground (
    arith,
    R.find-delete (issue_id id nonexistent) (issue_id j nonexistent)
        (R.delete (issue_id id forbidden) h.registry),
    R.find-delete (issue_id id forbidden) (issue_id j nonexistent) h.registry,
    issue_id-injective j id nonexistent nonexistent,
    issue_id-injective j id nonexistent forbidden,
  )

  -- After an entry is forgotten it has no lines and none of its repairs, and every other entry's
  -- lines and repairs are what they were.
  forget_entry_clears :
      (id : Text) (h : Hass R.State) (j : Text) (k : Kind)
      → (lines_at R j k (forget_entry R id h) ≡ (if j == id then [] else lines_at R j k h))
        × (R.find (issue_id j k) (forget_entry R id h).registry
            ≡ (if j == id then none else R.find (issue_id j k) h.registry))
  unfolding forget_entry
  forget_entry_clears id h j k =
      (ground (arith, lookup-erase j id h.lists), forgotten_repair id h j k)
