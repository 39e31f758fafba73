-- ===== src/Node/Update.antt =====
-- coordinator.py: `_async_update_data` of the node coordinator and `node_is_invisible`. `now` is the time in
-- milliseconds at which the readings are held.
use proxmoxve_integration.Prelude.{
  ℕ, List, [], ◌∷◌, ◌++◌, Bool, true, false, Option, none, some, if◌then◌else◌, list_eq, nat_eq,
  length,
}
use proxmoxve_integration.Prelude.Text.{Text, text}
use proxmoxve_integration.Json.{
  Value, null, str, obj, nil, Fields, find, get, is_text, truthy, iterate,
}
use proxmoxve_integration.Const.{ProxmoxType, type_capital}
use proxmoxve_integration.Api.{Reply}
use proxmoxve_integration.Issues.Registry.{IssueRegistry}
use proxmoxve_integration.Issues.{forbidden, ResourceLine, ConfigEntry, note_resource}
use proxmoxve_integration.Poll.{Read, State, poll_api, resource_key}
use proxmoxve_integration.Sensors.{Readings, Held, hold_last_sensors}
use proxmoxve_integration.Hardware.{parse_load_average, parse_mac_addresses}
use proxmoxve_integration.Coordinators.Monad.{
  Action, pure, fail, crash, or_crash, answer_of, get_state, put_state, ◌>>=◌, ◌>>◌, done,
}
use proxmoxve_integration.Coordinators.{is_null, read_for, node_path}
use proxmoxve_integration.Node.{
  ProxmoxNodeData, nested, Located, missing, at_row, locate, qemu_running, lxc_running,
  running_guests, NodeRead, nothing_read, iterated, with_row, sensors_of,
}

module _ (repr : Value → Text) (loads : Text → Option Value) (dumps : Value → Text)
    (R : IssueRegistry) (W : Type 0) (request : W → Text → Reply Value × W) (entry : ConfigEntry)
    (now : ℕ) (node : Text) where
  -- The coordinator's state beside that of the reads: the readings that are held, and the addresses, once
  -- they are read.
  pub record NodeState : Type 0 where
    pub polls : State R W request
    pub held : Held
    pub mac_addresses : Option (List Text)

  abbrev pub Step : Type 0 → Type 0
  Step A = Action NodeState A

  unfoldable pub ask : Read → Step Value
  ask read s =
      let (outcome, after) = poll_api R W request entry read s.polls in
      (answer_of outcome, record s { polls = after })

  abbrev pub of_node : ProxmoxType → Text → Read
  of_node category rest = read_for (node_path node rest) category node

  abbrev pub listing_read : Read
  listing_read = read_for (text "nodes") ProxmoxType.node node

  abbrev pub invisible_line : ResourceLine
  invisible_line = record {
    label = type_capital ProxmoxType.node ++ b' ' ∷ node;
    permission = text "['perm','/nodes/" ++ (node ++ text "',['Sys.Audit']]");
    tracked_as = some node;
  }

  -- `node_is_invisible` of a listing that is empty: the credentials are noted as the reason.
  unfoldable pub node_is_invisible : Value → Step Bool
  node_is_invisible listing s =
      if truthy listing
      then (pure false s)
      else pure true (record s {
        polls = record s.polls {
          hass =
              note_resource R entry forbidden (resource_key ProxmoxType.node (some node))
                (some invisible_line) true s.polls.hass;
        };
      })

  abbrev pub unseen : Text
  unseen =
      text "The node listing is empty, so node "
      ++ (node ++ text " cannot be read - the credentials may not be allowed to see it")

  abbrev pub unlisted : Text
  unlisted =
      text "Node "
      ++ (node
          ++ (text " is not in the node listing of "
              ++ (entry.host
                  ++ text " - it was removed from the cluster, or the credentials may not see it")))

  abbrev pub keep_macs : Value → Step (Unit {0})
  keep_macs interfaces = do
    macs ← or_crash (parse_mac_addresses interfaces)
    s ← get_state
    put_state (record s { mac_addresses = some macs })

  -- The network is asked for while there are no addresses; an answer that was no list is final too.
  abbrev pub macs_after : Option (List Text) → Step (Unit {0})
  macs_after (some macs) = pure tt
  macs_after none = do
    interfaces ←
        ask
          (record (of_node ProxmoxType.node (text "/network")) { issue_create_permissions = false })
    if is_null interfaces then pure tt else keep_macs interfaces

  unfoldable pub read_macs : Step (Unit {0})
  unfolding ask
  read_macs = do s ← get_state; macs_after s.mac_addresses

  abbrev pub unread_message : Text
  unread_message =
      text "Node "
      ++ (node
          ++ (text " could not be read on "
              ++ (entry.host
                  ++ text
                      ": the read was refused, so the credentials may not be allowed to see it - see the repair the integration created")))

  abbrev pub status_fields : Value → Step Fields
  status_fields (obj fs) = pure fs
  status_fields null = fail unread_message
  status_fields _ = crash

  -- The guests of a kind that run on the node.
  unfoldable pub ask_running : ProxmoxType → Text → (Value → Option Bool) → Step (List Text)
  unfolding ask
  ask_running category rest runs = do
    status ← ask (of_node category rest)
    guests ← or_crash (iterated status)
    or_crash (running_guests repr runs guests)

  -- The reads of a node that is online.
  unfoldable pub read_online : Fields → Step NodeRead
  unfolding read_macs ask_running
  read_online row = do
    answer ← ask (of_node ProxmoxType.node (text "/status"))
    status ← status_fields answer
    api_status ← or_crash (with_row row status)
    version ← ask (of_node ProxmoxType.node (text "/version"))
    read_macs
    qemu ← ask_running ProxmoxType.qemu (text "/qemu") qemu_running
    lxc ← ask_running ProxmoxType.lxc (text "/lxc") lxc_running
    pure (record {
      api_status = api_status;
      version = some version;
      qemu = some qemu;
      lxc = some lxc;
    })

  abbrev pub read_located : Located → Step NodeRead
  read_located missing = pure nothing_read
  read_located (at_row status row) =
      if is_text (text "online") status then read_online row else pure nothing_read

  -- `_hold_last_sensors`
  abbrev pub hold : Readings → Step Readings
  hold r s =
      let (reported, after) = hold_last_sensors (record { at = now; readings = r }) s.held in
      (done reported, record s { held = after })

  -- `.get("version", UNDEFINED)` of the version that was read.
  abbrev pub version_of : Option Value → Step (Option Value)
  version_of none = pure none
  version_of (some (obj fs)) = pure (find (text "version") fs)
  version_of (some _) = crash

  abbrev pub cpus_of : Fields → Option Value
  cpus_of status = elim (get (text "cpuinfo") status) [ obj fs ↦ find (text "cpus") fs | _ ↦ none ]

  abbrev pub status_or_offline : Fields → Value
  status_or_offline status = elim (find (text "status") status) [
    | none ↦ str (text "Offline")
    | some v ↦ v
  ]

  abbrev pub count_of : Option (List Text) → ℕ
  count_of none = 0
  count_of (some lines) = length lines

  abbrev pub or_no_macs : Option (List Text) → List Text
  or_no_macs none = []
  or_no_macs (some macs) = macs

  unfoldable pub node_data : NodeRead → Readings → Step ProxmoxNodeData
  node_data read readings = do
    let status = read.api_status
    model ← or_crash (nested (text "cpuinfo") (text "model") status)
    version ← version_of read.version
    memory_total ← or_crash (nested (text "memory") (text "total") status)
    memory_used ← or_crash (nested (text "memory") (text "used") status)
    memory_free ← or_crash (nested (text "memory") (text "free") status)
    swap_total ← or_crash (nested (text "swap") (text "total") status)
    swap_free ← or_crash (nested (text "swap") (text "free") status)
    swap_used ← or_crash (nested (text "swap") (text "used") status)
    s ← get_state
    pure (record {
      model = model;
      status = status_or_offline status;
      version = version;
      uptime = find (text "uptime") status;
      cpu = find (text "cpu") status;
      io_wait = find (text "wait") status;
      load_average = parse_load_average (get (text "loadavg") status);
      cpus = cpus_of status;
      disk_total = find (text "disk_max") status;
      disk_used = find (text "disk_used") status;
      memory_total = memory_total;
      memory_used = memory_used;
      memory_free = memory_free;
      swap_total = swap_total;
      swap_free = swap_free;
      swap_used = swap_used;
      qemu_on = count_of read.qemu;
      qemu_on_list = read.qemu;
      lxc_on = count_of read.lxc;
      lxc_on_list = read.lxc;
      sensors = readings;
      mac_addresses = or_no_macs s.mac_addresses;
    })

  abbrev pub unlisted_node : Step ProxmoxNodeData
  unlisted_node = do hold (sensors_of loads dumps nil); fail unlisted

  abbrev pub unseen_or_unlisted : Bool → Step ProxmoxNodeData
  unseen_or_unlisted true = fail unseen
  unseen_or_unlisted false = unlisted_node

  abbrev pub unseen_node : Value → Step ProxmoxNodeData
  unseen_node nodes_api = do invisible ← node_is_invisible nodes_api; unseen_or_unlisted invisible

  abbrev pub listed_node : Value → Step ProxmoxNodeData
  listed_node nodes_api = do
    listed ← or_crash (iterate nodes_api)
    located ← or_crash (locate node listed)
    read ← read_located located
    readings ← hold (sensors_of loads dumps read.api_status)
    node_data read readings

  unfoldable pub async_update_data : Step ProxmoxNodeData
  unfolding ask node_is_invisible read_online node_data
  async_update_data = do
    nodes_api ← ask listing_read
    if truthy nodes_api then listed_node nodes_api else unseen_node nodes_api
