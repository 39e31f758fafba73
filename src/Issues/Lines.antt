-- ===== src/Issues/Lines.antt =====
-- What the operations of issues.py leave in the lists, and that repair ids tell entries and kinds
-- apart.
use mathlib.Core.List.{append_cancel_right}
use proxmoxve_integration.Prelude.{
  ◌≡◌, ◌≢◌, refl, ap, sym, ◌==◌, ◌&&◌, if◌then◌else◌, list_eq, nat_eq, Eq, arith,
}
use proxmoxve_integration.Prelude.Dict.{lookup-insert}
use proxmoxve_integration.Prelude.Text.{last_char, last_char-append, Text, text}
use proxmoxve_integration.Issues.Registry.{IssueRegistry}
use proxmoxve_integration.Issues.{
  Kind, forbidden, nonexistent, issue_id, Lines, Lists, lines_of, with_lines, ConfigEntry, Hass,
  lists_of, rewrite, update_lines, touch,
}

unfoldable pub Kind-discrete : Discrete Kind
Kind-discrete forbidden forbidden = yes refl
Kind-discrete forbidden nonexistent = no (λ p. cc)
Kind-discrete nonexistent forbidden = no (λ p. cc)
Kind-discrete nonexistent nonexistent = yes refl

instance unfoldable pub kind_eq : Eq Kind
unfolding Kind-discrete
kind_eq = record { dec = Kind-discrete }

-- The ids of the two kinds differ, whichever entries they belong to.
pub issue_id-ne : (a b : Text) → issue_id a forbidden ≢ issue_id b nonexistent
unfolding last_char
issue_id-ne a b e = absurd (
    omega (
      arith,
      ap last_char e,
      last_char-append a b'_' (text "forbidden"),
      last_char-append b b'_' (text "nonexistent"),
    ))

pub issue_id-injective : (a b : Text) (k j : Kind) → issue_id a k ≡ issue_id b j → (a ≡ b) × (k ≡ j)
issue_id-injective a b forbidden forbidden e = (append_cancel_right a b _ e, refl)
issue_id-injective a b forbidden nonexistent e = absurd (issue_id-ne a b e)
issue_id-injective a b nonexistent forbidden e = absurd (issue_id-ne b a (sym e))
issue_id-injective a b nonexistent nonexistent e = (append_cancel_right a b _ e, refl)

pub lines_of-with_lines :
    (k j : Kind) (lines : Lines) (l : Lists)
    → lines_of j (with_lines k lines l) ≡ (if j == k then lines else lines_of j l)
unfolding kind_eq
lines_of-with_lines forbidden forbidden lines l = refl
lines_of-with_lines forbidden nonexistent lines l = refl
lines_of-with_lines nonexistent forbidden lines l = refl
lines_of-with_lines nonexistent nonexistent lines l = refl

module _ (R : IssueRegistry) where
  -- The lines of a kind of an entry, as far as the entry has any.
  abbrev pub lines_at : Text → Kind → Hass R.State → Lines
  lines_at entry_id kind h = lines_of kind (lists_of R entry_id h)

  pub lines_at-touch :
      (id entry_id : Text) (k : Kind) (h : Hass R.State)
      → lines_at entry_id k (touch R id h) ≡ lines_at entry_id k h
  unfolding touch
  lines_at-touch id entry_id k h =
      ground (arith, lookup-insert entry_id id (lists_of R id h) h.lists)

  pub lines_at-update_lines :
      (entry : ConfigEntry) (kind : Kind) (lines : Lines) (h : Hass R.State) (id : Text) (k : Kind)
      → lines_at id k (update_lines R entry kind lines h)
        ≡ (if id == entry.entry_id && k == kind then lines else lines_at id k h)
  unfolding update_lines rewrite
  lines_at-update_lines entry kind lines h id k = ground (
    arith,
    lookup-insert id entry.entry_id (with_lines kind lines (lists_of R entry.entry_id h)) h.lists,
    lines_of-with_lines kind k lines (lists_of R entry.entry_id h),
  )
