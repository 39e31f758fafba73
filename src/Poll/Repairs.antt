-- ===== src/Poll/Repairs.antt =====
-- What `poll_api` does to the entry's repair of refused reads.
use proxmoxve_integration.Prelude.{
  ◌≡◌, refl, true, false, none, some, list_eq, nat_eq, ℕ_discrete, arith, Bool-cases, inl, inr,
}
use proxmoxve_integration.Prelude.Dict.{lookup}
use proxmoxve_integration.Prelude.Text.{Text}
use proxmoxve_integration.Json.{Value}
use proxmoxve_integration.Api.{api_error, Reply, answered, failed}
use proxmoxve_integration.Issues.Registry.{IssueRegistry}
use proxmoxve_integration.Issues.{forbidden, ConfigEntry, Hass, ResourceLine}
use proxmoxve_integration.Issues.Lines.{kind_eq, lines_at}
use proxmoxve_integration.Issues.InStep.{InStep, SameOrOther, note_resource-InStep}
use proxmoxve_integration.Issues.Noted.{lookup-note_resource}
use proxmoxve_integration.Poll.Needs.{needed, written_or_unmapped, permission_to_resource-needed}
use proxmoxve_integration.Poll.{
  data_read, not_permitted, Read, State, poll_api, read_api, settle, is_offline, is_listed_refusal,
  resource_key, resource_label, refused_line,
}

module _ (R : IssueRegistry) (W : Type 0) (request : W → Text → Reply Value × W) where
  settle-InStep :
      (entry other : ConfigEntry) (read : Read) (reply : Reply Value) (h : Hass R.State)
      → SameOrOther R other entry
      → InStep R other h
      → InStep R other (settle R W request entry read reply h).1
  unfolding settle
  settle-InStep entry other read (answered v) h o s =
      note_resource-InStep R entry other forbidden _ none false h o s
  settle-InStep entry other read (failed f) h o s =
      elim (Bool-cases (is_listed_refusal R W request read f)) [
        | inl listed ↦
            rw (listed, settle) (note_resource-InStep R entry other forbidden _ _ true h o s)
        | inr other_failure ↦ rw (other_failure, settle) s
      ]

  -- If every repair of an entry shows exactly the lines listed for it, this is still so after any
  -- read of this entry, or of another with another id, whatever the API replies.
  pub poll_api-InStep :
      (entry other : ConfigEntry) (read : Read) (s : State R W request)
      → SameOrOther R other entry
      → InStep R other s.hass
      → InStep R other (poll_api R W request entry read s).1.hass
  unfolding poll_api
  poll_api-InStep entry other read s o i = elim (Bool-cases (is_offline R W request read s)) [
    | inl off ↦ rw (off, poll_api) i
    | inr on ↦
        rw (on, poll_api)
          (settle-InStep entry other read (read_api R W request s.world read.api_path).0 s.hass o i)
  ]

  -- A read that is answered returns the data, and its resource is no more listed as refused.
  pub poll_api_answered :
      (entry : ConfigEntry) (read : Read) (s : State R W request) (v : Value)
      → is_offline R W request read s ≡ false
      → (read_api R W request s.world read.api_path).0 ≡ answered v
      → let after = poll_api R W request entry read s in
        (after.0 ≡ data_read v)
        × (lookup
              (resource_key read.api_category read.resource_id)
              (lines_at R entry.entry_id forbidden after.1.hass)
            ≡ none)
  unfolding poll_api settle ℕ_discrete
  poll_api_answered entry read s v on reply =
      rw (on, reply)
        (
          refl,
          ground (
            arith,
            lookup-note_resource R entry forbidden (resource_key read.api_category read.resource_id)
                none false s.hass entry.entry_id forbidden
                (resource_key read.api_category read.resource_id),
          ),
        )

  pub poll_api_refused :
      (entry : ConfigEntry) (read : Read) (s : State R W request) (m : Text)
      → is_offline R W request read s ≡ false
      → read.issue_create_permissions ≡ true
      → (read_api R W request s.world read.api_path).0 ≡ failed (api_error 403 m)
      → let after = poll_api R W request entry read s in
        (after.0 ≡ not_permitted)
        × (line : ResourceLine) × (lookup
              (resource_key read.api_category read.resource_id)
              (lines_at R entry.entry_id forbidden after.1.hass)
            ≡ some line)
        × (line.permission
            ≡ written_or_unmapped
                (needed read.api_path read.api_category (resource_label read.resource_id)))
  unfolding poll_api settle refused_line ℕ_discrete
  poll_api_refused entry read s m on wanted reply =
      rw (on, reply, wanted)
        (
          refl,
          refused_line entry read.api_path read.api_category read.resource_id,
          ground (
            arith,
            lookup-note_resource R entry forbidden (resource_key read.api_category read.resource_id)
                (some (refused_line entry read.api_path read.api_category read.resource_id)) true
                s.hass entry.entry_id forbidden (resource_key read.api_category read.resource_id),
          ),
          permission_to_resource-needed read.api_path read.api_category
              (resource_label read.resource_id),
        )
