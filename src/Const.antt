-- ===== src/Const.antt =====
-- const.py: the kinds of information and the commands, both `StrEnum`s.
use proxmoxve_integration.Prelude.Text.{Text, text}
use proxmoxve_integration.Prelude.{Eq}

pub data ProxmoxType : Type 0 where
  proxmox node qemu lxc storage update disk resources zfs tasks : ProxmoxType
  backup certificate backup_info subscription replication ceph : ProxmoxType

unfoldable pub ProxmoxType-discrete : Discrete ProxmoxType
ProxmoxType-discrete = hlevel

instance unfoldable pub type_eq : Eq ProxmoxType
unfolding ProxmoxType-discrete
type_eq = record { dec = ProxmoxType-discrete }

abbrev pub type_value : ProxmoxType → Text
type_value ProxmoxType.proxmox = text "proxmox"
type_value ProxmoxType.node = text "node"
type_value ProxmoxType.qemu = text "qemu"
type_value ProxmoxType.lxc = text "lxc"
type_value ProxmoxType.storage = text "storage"
type_value ProxmoxType.update = text "update"
type_value ProxmoxType.disk = text "disk"
type_value ProxmoxType.resources = text "resources"
type_value ProxmoxType.zfs = text "zfs"
type_value ProxmoxType.tasks = text "tasks"
type_value ProxmoxType.backup = text "backup"
type_value ProxmoxType.certificate = text "certificate"
type_value ProxmoxType.backup_info = text "backup_info"
type_value ProxmoxType.subscription = text "subscription"
type_value ProxmoxType.replication = text "replication"
type_value ProxmoxType.ceph = text "ceph"

-- `api_category.upper()`
abbrev pub type_upper : ProxmoxType → Text
type_upper ProxmoxType.proxmox = text "PROXMOX"
type_upper ProxmoxType.node = text "NODE"
type_upper ProxmoxType.qemu = text "QEMU"
type_upper ProxmoxType.lxc = text "LXC"
type_upper ProxmoxType.storage = text "STORAGE"
type_upper ProxmoxType.update = text "UPDATE"
type_upper ProxmoxType.disk = text "DISK"
type_upper ProxmoxType.resources = text "RESOURCES"
type_upper ProxmoxType.zfs = text "ZFS"
type_upper ProxmoxType.tasks = text "TASKS"
type_upper ProxmoxType.backup = text "BACKUP"
type_upper ProxmoxType.certificate = text "CERTIFICATE"
type_upper ProxmoxType.backup_info = text "BACKUP_INFO"
type_upper ProxmoxType.subscription = text "SUBSCRIPTION"
type_upper ProxmoxType.replication = text "REPLICATION"
type_upper ProxmoxType.ceph = text "CEPH"

-- `api_category.capitalize()`
abbrev pub type_capital : ProxmoxType → Text
type_capital ProxmoxType.proxmox = text "Proxmox"
type_capital ProxmoxType.node = text "Node"
type_capital ProxmoxType.qemu = text "Qemu"
type_capital ProxmoxType.lxc = text "Lxc"
type_capital ProxmoxType.storage = text "Storage"
type_capital ProxmoxType.update = text "Update"
type_capital ProxmoxType.disk = text "Disk"
type_capital ProxmoxType.resources = text "Resources"
type_capital ProxmoxType.zfs = text "Zfs"
type_capital ProxmoxType.tasks = text "Tasks"
type_capital ProxmoxType.backup = text "Backup"
type_capital ProxmoxType.certificate = text "Certificate"
type_capital ProxmoxType.backup_info = text "Backup_info"
type_capital ProxmoxType.subscription = text "Subscription"
type_capital ProxmoxType.replication = text "Replication"
type_capital ProxmoxType.ceph = text "Ceph"

pub data ProxmoxCommand : Type 0 where
  reboot resume shutdown start stop suspend reset start_all stop_all suspend_all : ProxmoxCommand
  hibernate snapshot backup backup_all wakeonlan unlock arm_ha disarm_ha : ProxmoxCommand

abbrev pub command_value : ProxmoxCommand → Text
command_value ProxmoxCommand.reboot = text "reboot"
command_value ProxmoxCommand.resume = text "resume"
command_value ProxmoxCommand.shutdown = text "shutdown"
command_value ProxmoxCommand.start = text "start"
command_value ProxmoxCommand.stop = text "stop"
command_value ProxmoxCommand.suspend = text "suspend"
command_value ProxmoxCommand.reset = text "reset"
command_value ProxmoxCommand.start_all = text "startall"
command_value ProxmoxCommand.stop_all = text "stopall"
command_value ProxmoxCommand.suspend_all = text "suspendall"
command_value ProxmoxCommand.hibernate = text "hibernate"
command_value ProxmoxCommand.snapshot = text "snapshot"
command_value ProxmoxCommand.backup = text "backup"
command_value ProxmoxCommand.backup_all = text "backup-all"
command_value ProxmoxCommand.wakeonlan = text "wakeonlan"
command_value ProxmoxCommand.unlock = text "unlock"
command_value ProxmoxCommand.arm_ha = text "arm-ha"
command_value ProxmoxCommand.disarm_ha = text "disarm-ha"
