-- ===== src/Issues/Noted.antt =====
-- What `note_resource` leaves in the lists of every entry.
use proxmoxve_integration.Prelude.{
  ◌≡◌, ap, Bool, true, false, Option, none, some, ◌==◌, ◌&&◌, if◌then◌else◌, list_eq, nat_eq,
  option_eq, arith, Bool-cases, Option-cases, inl, inr,
}
use proxmoxve_integration.Prelude.Dict.{lookup, insert, erase, lookup-insert, lookup-erase}
use proxmoxve_integration.Prelude.Text.{Text}
use proxmoxve_integration.Issues.Registry.{IssueRegistry}
use proxmoxve_integration.Issues.{
  Kind, Lines, ConfigEntry, Hass, update_lines, touch, ResourceLine, list_resource, unlist_resource,
  note_resource, same_line,
}
use proxmoxve_integration.Issues.Lines.{kind_eq, lines_at, lines_at-touch, lines_at-update_lines}

same_line-eq : (a b : ResourceLine) → same_line a b ≡ true → a ≡ b
same_line-eq a b h = ground (arith, h)

-- What stands under a key after a resource was noted there: the line given, the one before when no
-- line is given, and nothing when the resource is taken off the list.
abbrev pub noted : Option ResourceLine → Bool → Option ResourceLine → Option ResourceLine
noted none true old = old
noted (some line) true old = some line
noted line false old = none

module _ (R : IssueRegistry) where
  abbrev line_at : Text → Kind → Text → Hass R.State → Option ResourceLine
  line_at id k key h = lookup key (lines_at R id k h)

  lookup_updated :
      (entry : ConfigEntry) (kind : Kind) (lines : Lines) (h : Hass R.State)
      → (id : Text) (k : Kind) (key : Text)
      → line_at id k key (update_lines R entry kind lines h)
        ≡ (if id == entry.entry_id && k == kind then lookup key lines else line_at id k key h)
  lookup_updated entry kind lines h id k key =
      ground (arith, lines_at-update_lines R entry kind lines h id k)

  lookup_listed :
      (entry : ConfigEntry) (kind : Kind) (key : Text) (line : ResourceLine) (h : Hass R.State)
      → (id : Text) (k : Kind) (j : Text)
      → line_at id k j
          (update_lines R entry kind (insert key line (lines_at R entry.entry_id kind h)) h)
        ≡ (if id == entry.entry_id && k == kind && j == key then some line else line_at id k j h)
  lookup_listed entry kind key line h id k j = ground (
    arith,
    lookup_updated entry kind (insert key line (lines_at R entry.entry_id kind h)) h id k j,
    lookup-insert j key line (lines_at R entry.entry_id kind h),
  )

  lookup_unlisted :
      (entry : ConfigEntry) (kind : Kind) (key : Text) (h : Hass R.State)
      → (id : Text) (k : Kind) (j : Text)
      → line_at id k j (update_lines R entry kind (erase key (lines_at R entry.entry_id kind h)) h)
        ≡ (if id == entry.entry_id && k == kind && j == key then none else line_at id k j h)
  lookup_unlisted entry kind key h id k j = ground (
    arith,
    lookup_updated entry kind (erase key (lines_at R entry.entry_id kind h)) h id k j,
    lookup-erase j key (lines_at R entry.entry_id kind h),
  )

  lookup_touched :
      (entry_id id : Text) (k : Kind) (j : Text) (h : Hass R.State)
      → line_at id k j (touch R entry_id h) ≡ line_at id k j h
  lookup_touched entry_id id k j h = ap (lookup j) (lines_at-touch R entry_id id k h)

  lookup-list_resource :
      (entry : ConfigEntry) (kind : Kind) (key : Text) (line : ResourceLine) (h : Hass R.State)
      → (id : Text) (k : Kind) (j : Text)
      → line_at id k j (list_resource R entry kind key (some line) h)
        ≡ (if id == entry.entry_id && k == kind && j == key then some line else line_at id k j h)
  unfolding list_resource
  lookup-list_resource entry kind key line h id k j =
      elim (Option-cases (line_at entry.entry_id kind key h)) [
        | inl missing ↦ rw (missing, list_resource) (lookup_listed entry kind key line h id k j)
        | inr (old, found) ↦
            rw (found, list_resource)
              (elim (Bool-cases (same_line old line)) [
                | inl same ↦
                    rw (same, list_resource)
                      (ground (
                        arith,
                        found,
                        same_line-eq old line same,
                        lookup_touched entry.entry_id id k j h,
                      ))
                | inr changed ↦
                    rw (changed, list_resource) (lookup_listed entry kind key line h id k j)
              ])
      ]

  lookup-unlist_resource :
      (entry : ConfigEntry) (kind : Kind) (key : Text) (h : Hass R.State)
      → (id : Text) (k : Kind) (j : Text)
      → line_at id k j (unlist_resource R entry kind key h)
        ≡ (if id == entry.entry_id && k == kind && j == key then none else line_at id k j h)
  unfolding unlist_resource
  lookup-unlist_resource entry kind key h id k j =
      elim (Option-cases (line_at entry.entry_id kind key h)) [
        | inl missing ↦
            rw (missing, unlist_resource)
              (ground (arith, missing, lookup_touched entry.entry_id id k j h))
        | inr (old, found) ↦ rw (found, unlist_resource) (lookup_unlisted entry kind key h id k j)
      ]

  -- After a resource is noted, its key in its entry's list of that kind holds the line given, what it
  -- held if none is given, or nothing if it is taken off the list; every other line of every entry is
  -- what it was.
  pub lookup-note_resource :
      (entry : ConfigEntry) (kind : Kind) (key : Text) (line : Option ResourceLine)
      → (listed : Bool) (h : Hass R.State) (id : Text) (k : Kind) (j : Text)
      → lookup j (lines_at R id k (note_resource R entry kind key line listed h)) ≡ (
          if id == entry.entry_id && k == kind && j == key
          then noted line listed (lookup j (lines_at R id k h))
          else lookup j (lines_at R id k h))
  unfolding note_resource list_resource
  lookup-note_resource entry kind key none true h id k j =
      ground (arith, lookup_touched entry.entry_id id k j h)
  lookup-note_resource entry kind key (some line) true h id k j =
      lookup-list_resource entry kind key line h id k j
  lookup-note_resource entry kind key line false h id k j =
      lookup-unlist_resource entry kind key h id k j
