-- ===== src/Node/Kept.antt =====
-- What an update of a node keeps: the repairs in step, and the addresses once they are read.
use proxmoxve_integration.Prelude.{
  ℕ, ◌≡◌, refl, List, Bool, true, false, Option, none, some, Bool-cases, inl, inr,
}
use proxmoxve_integration.Prelude.Text.{Text, text}
use proxmoxve_integration.Json.{
  Value, null, bool, int, float, str, arr, obj, Fields, truthy, iterate, is_text,
}
use proxmoxve_integration.Const.{ProxmoxType}
use proxmoxve_integration.Api.{Reply}
use proxmoxve_integration.Issues.Registry.{IssueRegistry}
use proxmoxve_integration.Issues.{forbidden, ConfigEntry}
use proxmoxve_integration.Issues.InStep.{InStep, SameOrOther, note_resource-InStep}
use proxmoxve_integration.Poll.{Read}
use proxmoxve_integration.Poll.Repairs.{poll_api-InStep}
use proxmoxve_integration.Sensors.{Readings}
use proxmoxve_integration.Hardware.{parse_mac_addresses}
use proxmoxve_integration.Coordinators.Monad.{Action, or_crash, ◌>>=◌}
use proxmoxve_integration.Coordinators.Keeps.{
  Keeps, Keeps-bind, Keeps-then, Keeps-pure, Keeps-fail, Keeps-or_crash,
}
use proxmoxve_integration.Coordinators.{is_null}
use proxmoxve_integration.Node.{
  Located, missing, at_row, locate, NodeRead, nothing_read, with_row, iterated, running_guests,
  nested,
}
use proxmoxve_integration.Node.Update.{
  NodeState, ask, node_is_invisible, keep_macs, macs_after, read_macs, unseen_or_unlisted,
  status_fields, ask_running, read_online, read_located, hold, version_of, node_data, listed_node,
  unseen_node, async_update_data,
}

module _ (repr : Value → Text) (loads : Text → Option Value) (dumps : Value → Text)
    (R : IssueRegistry) (W : Type 0) (request : W → Text → Reply Value × W) (entry : ConfigEntry)
    (now : ℕ) (node : Text) where
  abbrev Node : Type 0
  Node = NodeState repr loads dumps R W request entry now node

  module _ (P : Node → Type 0)
      (asks : (read : Read) → Keeps P (ask repr loads dumps R W request entry now node read))
      (holds : (r : Readings) → Keeps P (hold repr loads dumps R W request entry now node r))
      (macs : Keeps P (read_macs repr loads dumps R W request entry now node))
      (invisible : (v : Value)
        → Keeps P (node_is_invisible repr loads dumps R W request entry now node v)) where
    status_fields-Keeps :
        (v : Value) → Keeps P (status_fields repr loads dumps R W request entry now node v)
    status_fields-Keeps null = record { keep = λ s i. i }
    status_fields-Keeps (bool b) = record { keep = λ s i. i }
    status_fields-Keeps (int n) = record { keep = λ s i. i }
    status_fields-Keeps (float m k) = record { keep = λ s i. i }
    status_fields-Keeps (str t) = record { keep = λ s i. i }
    status_fields-Keeps (arr vs) = record { keep = λ s i. i }
    status_fields-Keeps (obj fs) = record { keep = λ s i. i }

    version_of-Keeps :
        (o : Option Value) → Keeps P (version_of repr loads dumps R W request entry now node o)
    version_of-Keeps none = record { keep = λ s i. i }
    version_of-Keeps (some null) = record { keep = λ s i. i }
    version_of-Keeps (some (bool b)) = record { keep = λ s i. i }
    version_of-Keeps (some (int n)) = record { keep = λ s i. i }
    version_of-Keeps (some (float m k)) = record { keep = λ s i. i }
    version_of-Keeps (some (str t)) = record { keep = λ s i. i }
    version_of-Keeps (some (arr vs)) = record { keep = λ s i. i }
    version_of-Keeps (some (obj fs)) = record { keep = λ s i. i }

    ask_running-Keeps :
        (category : ProxmoxType) (rest : Text) (runs : Value → Option Bool)
        → Keeps P (ask_running repr loads dumps R W request entry now node category rest runs)
    unfolding ask_running
    ask_running-Keeps category rest runs = Keeps-bind P _ _ (asks _) (λ status.
        Keeps-bind P _ _ (Keeps-or_crash P (iterated status))
          (λ guests. Keeps-or_crash P (running_guests repr runs guests)))

    read_online-Keeps :
        (row : Fields) → Keeps P (read_online repr loads dumps R W request entry now node row)
    unfolding read_online
    read_online-Keeps row = Keeps-bind P _ _ (asks _) (λ answer.
        Keeps-bind P _ _ (status_fields-Keeps answer) (λ status.
          Keeps-bind P _ _ (Keeps-or_crash P (with_row row status)) (λ api_status.
            Keeps-bind P _ _ (asks _) (λ version. Keeps-then P _ _ macs (
              Keeps-bind P _ _ (ask_running-Keeps _ _ _)
                (λ qemu. Keeps-bind P _ _ (ask_running-Keeps _ _ _) (λ lxc. Keeps-pure P _)))))))

    read_located-Keeps :
        (l : Located) → Keeps P (read_located repr loads dumps R W request entry now node l)
    read_located-Keeps missing = record { keep = λ s i. i }
    read_located-Keeps (at_row status row) = elim (Bool-cases (is_text (text "online") status)) [
      | inl on ↦ rw (on, read_located) (read_online-Keeps row)
      | inr off ↦ rw (off, read_located) (Keeps-pure P nothing_read)
    ]

    nested-Keeps :
        {A : Type 0} (o : Text) (i : Text) (fs : Fields) (f : Option Value → Action Node A)
        → ((v : Option Value) → Keeps P (f v))
        → Keeps P (or_crash (nested o i fs) >>= f)
    nested-Keeps o i fs f rest = Keeps-bind P _ f (Keeps-or_crash P (nested o i fs)) rest

    node_data-Keeps :
        (read : NodeRead) (r : Readings)
        → Keeps P (node_data repr loads dumps R W request entry now node read r)
    unfolding node_data
    node_data-Keeps read r =
        let fs = read.api_status in
        nested-Keeps (text "cpuinfo") (text "model") fs _ (λ model.
          Keeps-bind P _ _ (version_of-Keeps read.version) (λ version.
            nested-Keeps (text "memory") (text "total") fs _ (λ a.
              nested-Keeps (text "memory") (text "used") fs _ (λ b.
                nested-Keeps (text "memory") (text "free") fs _ (λ c.
                  nested-Keeps (text "swap") (text "total") fs _ (λ d.
                    nested-Keeps (text "swap") (text "free") fs _ (λ e.
                      nested-Keeps (text "swap") (text "used") fs _
                        (λ f. record { keep = λ s i. i }))))))))

    listed_node-Keeps :
        (v : Value) → Keeps P (listed_node repr loads dumps R W request entry now node v)
    listed_node-Keeps v = Keeps-bind P _ _ (Keeps-or_crash P (iterate v)) (λ rows.
        Keeps-bind P _ _ (Keeps-or_crash P (locate node rows)) (λ located.
          Keeps-bind P _ _ (read_located-Keeps located)
            (λ read. Keeps-bind P _ _ (holds _) (λ r. node_data-Keeps read r))))

    unseen_or_unlisted-Keeps :
        (b : Bool) → Keeps P (unseen_or_unlisted repr loads dumps R W request entry now node b)
    unseen_or_unlisted-Keeps true = Keeps-fail P _
    unseen_or_unlisted-Keeps false = Keeps-then P _ _ (holds _) (Keeps-fail P _)

    unseen_node-Keeps :
        (v : Value) → Keeps P (unseen_node repr loads dumps R W request entry now node v)
    unseen_node-Keeps v = Keeps-bind P _ _ (invisible v) unseen_or_unlisted-Keeps

    async_update_data-Keeps :
        Keeps P (async_update_data repr loads dumps R W request entry now node)
    unfolding async_update_data
    async_update_data-Keeps = Keeps-bind P _ _ (asks _) (λ v. elim (Bool-cases (truthy v)) [
      | inl some_rows ↦ rw (some_rows) (listed_node-Keeps v)
      | inr no_rows ↦ rw (no_rows) (unseen_node-Keeps v)
    ])

  abbrev OtherInStep : ConfigEntry → Node → Type 0
  OtherInStep other s = InStep R other s.polls.hass

  keep_macs-InStep :
      (other : ConfigEntry) (v : Value)
      → Keeps (OtherInStep other) (keep_macs repr loads dumps R W request entry now node v)
  keep_macs-InStep other v =
      Keeps-bind (OtherInStep other) _ _
        (Keeps-or_crash (OtherInStep other) (parse_mac_addresses v))
        (λ macs. record { keep = λ s i. i })

  ask-InStep :
      (other : ConfigEntry)
      → SameOrOther R other entry
      → (read : Read)
      → Keeps (OtherInStep other) (ask repr loads dumps R W request entry now node read)
  unfolding ask
  ask-InStep other o read = record {
    keep = λ s i. poll_api-InStep R W request entry other read s.polls o i;
  }

  macs_after-InStep :
      (other : ConfigEntry)
      → SameOrOther R other entry
      → (macs : Option (List Text))
      → Keeps (OtherInStep other) (macs_after repr loads dumps R W request entry now node macs)
  macs_after-InStep other o (some macs) = record { keep = λ s i. i }
  macs_after-InStep other o none = Keeps-bind (OtherInStep other) _ _ (ask-InStep other o _) (λ v.
      elim (Bool-cases (is_null v)) [
        | inl nothing ↦ rw (nothing) (Keeps-pure (OtherInStep other) tt)
        | inr answer ↦ rw (answer) (keep_macs-InStep other v)
      ])

  invisible-InStep :
      (other : ConfigEntry)
      → SameOrOther R other entry
      → (v : Value)
      → Keeps (OtherInStep other) (node_is_invisible repr loads dumps R W request entry now node v)
  unfolding node_is_invisible
  invisible-InStep other o v = record {
    keep = λ s i. elim (Bool-cases (truthy v)) [
      | inl some_rows ↦ rw (some_rows) i
      | inr no_rows ↦
          rw (no_rows) (note_resource-InStep R entry other forbidden _ _ true s.polls.hass o i)
    ];
  }

  read_macs-InStep :
      (other : ConfigEntry)
      → SameOrOther R other entry
      → Keeps (OtherInStep other) (read_macs repr loads dumps R W request entry now node)
  unfolding read_macs
  read_macs-InStep other o = record {
    keep = λ s i. (macs_after-InStep other o s.mac_addresses).keep s i;
  }

  -- If every repair of an entry shows exactly the lines listed for it, this is still so after an update of a
  -- node's coordinator, of this entry or of another with another id, whatever the API replies.
  pub async_update_data-InStep :
      (other : ConfigEntry) (s : Node)
      → SameOrOther R other entry
      → InStep R other s.polls.hass
      → InStep R other
          (async_update_data repr loads dumps R W request entry now node s).1.polls.hass
  async_update_data-InStep other s o i =
      (async_update_data-Keeps (OtherInStep other) (ask-InStep other o)
          (λ r. record { keep = λ t k. k }) (read_macs-InStep other o)
          (invisible-InStep other o)).keep
        s i

  abbrev HasMacs : List Text → Node → Type 0
  HasMacs macs s = s.mac_addresses ≡ some macs

  read_macs-HasMacs :
      (macs : List Text)
      → Keeps (HasMacs macs) (read_macs repr loads dumps R W request entry now node)
  unfolding read_macs
  read_macs-HasMacs macs = record { keep = λ s i. rw (i) refl }

  invisible-HasMacs :
      (macs : List Text) (v : Value)
      → Keeps (HasMacs macs) (node_is_invisible repr loads dumps R W request entry now node v)
  unfolding node_is_invisible
  invisible-HasMacs macs v = record {
    keep = λ s i. elim (Bool-cases (truthy v)) [
      | inl some_rows ↦ rw (some_rows) i
      | inr no_rows ↦ rw (no_rows) i
    ];
  }

  ask-HasMacs :
      (macs : List Text) (read : Read)
      → Keeps (HasMacs macs) (ask repr loads dumps R W request entry now node read)
  unfolding ask
  ask-HasMacs macs read = record { keep = λ s i. i }

  -- A node's addresses stay as they were read: once there are some, no update changes them.
  pub async_update_data-HasMacs :
      (macs : List Text) (s : Node)
      → s.mac_addresses ≡ some macs
      → (async_update_data repr loads dumps R W request entry now node s).1.mac_addresses
        ≡ some macs
  async_update_data-HasMacs macs s i =
      (async_update_data-Keeps (HasMacs macs) (ask-HasMacs macs) (λ r. record { keep = λ t k. k })
          (read_macs-HasMacs macs) (invisible-HasMacs macs)).keep
        s i
