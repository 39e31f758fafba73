-- ===== src/Poll/Needs.antt =====
-- What a read needs of the credentials, by what it reads, and how the documentation of the API writes that.
use proxmoxve_integration.Prelude.{
  ◌≡◌, refl, Bool, true, false, Option, none, some, ◌++◌, ◌||◌, if◌then◌else◌,
}
use proxmoxve_integration.Prelude.Text.{Text, text}
use proxmoxve_integration.Const.{ProxmoxType}
use proxmoxve_integration.Storage.{storage_name}
use proxmoxve_integration.Poll.{node_of_path, permission_to_resource, within}

-- A privilege on a path of the permission tree; `any_of` says that the check is written with its quantifier.
pub record Check : Type 0 where
  pub at : Text
  pub privilege : Text
  pub any_of : Bool

abbrev pub check_on : Text → Text → Check
check_on at privilege = record { at = at; privilege = privilege; any_of = false }

abbrev pub written : Check → Text
written c =
    text "['perm','"
    ++ (c.at
        ++ (text "',['"
            ++ (c.privilege ++ (text "']" ++ (if c.any_of then text ",'any',1]" else text "]")))))

-- SMART reports and pools are checked on the root, other reads of a node on the node.
abbrev pub audited : Text → Text → Text
audited api_path node =
    if within (text "/disks/smart") api_path || within (text "/disks/zfs") api_path
    then text "/"
    else text "/nodes/" ++ node

-- The privilege by what is read, `label` being its name; the other kinds are not polled.
abbrev pub needed : Text → ProxmoxType → Text → Option Check
needed api_path category label =
    let node = node_of_path api_path (some label) in
    elim category [
      | ProxmoxType.node ↦ some (check_on (audited api_path node) (text "Sys.Audit"))
      | ProxmoxType.disk ↦ some (check_on (audited api_path node) (text "Sys.Audit"))
      | ProxmoxType.zfs ↦ some (check_on (audited api_path node) (text "Sys.Audit"))
      | ProxmoxType.tasks ↦ some (check_on (audited api_path node) (text "Sys.Audit"))
      | ProxmoxType.qemu ↦ some (check_on (text "/vms/" ++ label) (text "VM.Audit"))
      | ProxmoxType.lxc ↦ some (check_on (text "/vms/" ++ label) (text "VM.Audit"))
      | ProxmoxType.storage ↦ some (record {
        at = text "/storage/" ++ storage_name label;
        privilege = text "Datastore.Audit";
        any_of = true;
      })
      | ProxmoxType.update ↦ some (check_on (text "/nodes/" ++ node) (text "Sys.Modify"))
      | ProxmoxType.proxmox ↦ some (check_on (text "/") (text "Sys.Audit"))
      | ProxmoxType.resources ↦ some (check_on (text "/") (text "VM.Audit"))
      | _ ↦ none
    ]

abbrev pub written_or_unmapped : Option Check → Text
written_or_unmapped none = text "Unmapped"
written_or_unmapped (some c) = written c

audited-written :
    (root : Bool) (node : Text)
    → (if root
        then text "['perm','/',['Sys.Audit']]"
        else text "['perm','/nodes/" ++ (node ++ text "',['Sys.Audit']]"))
      ≡ written (check_on (if root then text "/" else text "/nodes/" ++ node) (text "Sys.Audit"))
audited-written true node = refl
audited-written false node = refl

-- The permission that a repair shows for a refused read is the privilege that the read needs.
pub permission_to_resource-needed :
    (api_path : Text) (category : ProxmoxType) (label : Text)
    → permission_to_resource api_path category label
      ≡ written_or_unmapped (needed api_path category label)
unfolding permission_to_resource
permission_to_resource-needed p ProxmoxType.proxmox label = refl
permission_to_resource-needed p ProxmoxType.node label =
    audited-written (within (text "/disks/smart") p || within (text "/disks/zfs") p)
      (node_of_path p (some label))
permission_to_resource-needed p ProxmoxType.qemu label = refl
permission_to_resource-needed p ProxmoxType.lxc label = refl
permission_to_resource-needed p ProxmoxType.storage label = refl
permission_to_resource-needed p ProxmoxType.update label = refl
permission_to_resource-needed p ProxmoxType.disk label =
    audited-written (within (text "/disks/smart") p || within (text "/disks/zfs") p)
      (node_of_path p (some label))
permission_to_resource-needed p ProxmoxType.resources label = refl
permission_to_resource-needed p ProxmoxType.zfs label =
    audited-written (within (text "/disks/smart") p || within (text "/disks/zfs") p)
      (node_of_path p (some label))
permission_to_resource-needed p ProxmoxType.tasks label =
    audited-written (within (text "/disks/smart") p || within (text "/disks/zfs") p)
      (node_of_path p (some label))
permission_to_resource-needed p ProxmoxType.backup label = refl
permission_to_resource-needed p ProxmoxType.certificate label = refl
permission_to_resource-needed p ProxmoxType.backup_info label = refl
permission_to_resource-needed p ProxmoxType.subscription label = refl
permission_to_resource-needed p ProxmoxType.replication label = refl
permission_to_resource-needed p ProxmoxType.ceph label = refl
