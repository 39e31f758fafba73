-- ===== src/Lib.antt =====
-- Verification library of the Proxmox VE integration for Home Assistant (custom_components/proxmoxve).
--
-- The integration polls the API of a Proxmox cluster, keeps repairs about what its credentials may not
-- read, discovers nodes, guests and storages, and acts on them by buttons and by a backup action. The
-- models below are of the parts that decide something; what only hands values to Home Assistant is left
-- out.
--
-- Conventions. Prelude holds Python's texts (lists of code points), dicts (association lists in insertion
-- order), sets (lists without repeats), stable sorting and integers. Json is an API answer as Python
-- holds it; how Python prints a float, a list or a dict is a parameter `repr`. Const and Api are const.py
-- and the failures of a request. What is no code of this repository is a parameter: a request acts on a
-- world of its own and answers with data or a failure, and the issue registry is a record of operations
-- with the laws relied on (Issues.Registry), which a dict fills.
--
-- Permissions: permissions.py, and `button_permitted` of button.py.
-- Disk: disk.py.
-- Storage: storage.py.
-- Issues: issues.py. `Hass` is the part of `hass` that it reads and writes, the lists of each entry and
--   the registry; every operation is a function on it.
-- Poll: `poll_api` of coordinator.py and `auth_error_status`, `is_auth_error` of api.py. The state is
--   that of Issues, the world of the requests and the nodes known to be off; a read returns data, nothing,
--   or one of the two exceptions as a value. Poll.Needs says what a read needs of the credentials.
-- Resources: `SharedResources` and `nodes_not_online` of coordinator.py, over Poll. Times are
--   milliseconds; each `get` is one step, as its lock makes it.
-- Discovery: discovery.py; Discovery.Devices its two clean-ups of the device registry;
--   Discovery.Coordinator the update of the discovery coordinator in coordinator.py, whose calls of the
--   integration are a sequence of events.
-- Services: services.py. Services.Targets gathers devices, Services.Plans makes one plan per node,
--   Services.Runs starts the runs.
-- Commands: `post_api_command`, `permission_check_from` and `snapshot_name` of api.py. Commands.Meaning is
--   how the API reads a request.
-- GuestAgents: `note_guest_agent_refusal` and `forget_untracked_guest_agents` of coordinator.py.
-- Client: `ProxmoxClient` of api.py, with aioproxmox's object as a record of operations.
-- HaStatus: `parse_ha_status` and `_parse_ha_enum` of coordinator.py.
-- Sensors: `_hold_last_sensors` of the node coordinator in coordinator.py, as steps that polls make.
-- Hardware: the parsers of coordinator.py of a node's readings (`_try_parse_float`, `parse_load_average`,
--   `_readings_of`, `_parse_sensors_dict`) and of its ports (`parse_mac_addresses`). A float is exact, as a
--   fraction (Prelude.Float).
-- Backups: `parse_backup`, `parse_running_backup` and `parse_backup_info` of coordinator.py.
-- Health: `parse_certificates`, `parse_subscription`, `parse_ceph` and `parse_replication` of
--   coordinator.py.
-- Coordinators: the `_async_update_data` of the certificate, subscription, replication, Ceph, backup,
--   backup coverage, HA resource and HA status coordinators in coordinator.py, over Poll.
--   Coordinators.Monad is the monad they are written in: a state, and a result that is data, an
--   UpdateFailed, a ConfigEntryAuthFailed or another exception.
-- Smart: `parse_smart_text`, `_leading_int` and `parse_smart_attributes` of coordinator.py.
-- Disks: the disk coordinator of coordinator.py.
-- Tasks: the task coordinator of coordinator.py.
-- Storages: the storage coordinator, over Resources, and the ZFS coordinator of coordinator.py.
-- Guests: the sizes of file systems in the update of the QEMU coordinator, and `qemu_memory_used`, of
--   coordinator.py.
-- Node: `ProxmoxNodeCoordinator` of coordinator.py, with `node_is_invisible`; Node.Update is its update.
-- UpdateEntity: the properties and the release notes of the entity in update.py.
-- Stagger: stagger.py. The timer that it sets is the sequence of the calls that it makes.
-- Migration: `async_migrate_entry` and `_async_rename_disk_devices` of __init__.py, in the same monad;
--   Migration.Steps has a step for each version. The registry is the list of the entry's devices.
-- Updates: `parse_updates` and `is_proxmox_package` of coordinator.py.
--
-- All loops are structural recursion on a list or a text, so no fuel is used, except that the digits of a
-- number are taken with as much fuel as the number plus one, and there are fewer. Not modelled: the sensor
-- platforms, config_flow.py, diagnostics.py, setup and unloading in __init__.py, the setup of update.py, the
-- rest of the guest coordinators and the update and cluster summary coordinators; logging; digits of other
-- scripts in `int`, `float` and `isdigit`.
pub mod Prelude
pub mod Json
pub mod Const
pub mod Api
pub mod Permissions
pub mod Disk
pub mod Disks
pub mod Storage
pub mod Storages
pub mod Issues
pub mod Poll
pub mod Resources
pub mod Services
pub mod Discovery
pub mod Commands
pub mod GuestAgents
pub mod Guests
pub mod Client
pub mod Updates
pub mod UpdateEntity
pub mod Stagger
pub mod Tasks
pub mod Backups
pub mod Health
pub mod Coordinators
pub mod Hardware
pub mod Node
pub mod Migration
pub mod Sensors
pub mod Smart
pub mod HaStatus
