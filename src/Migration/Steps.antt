-- ===== src/Migration/Steps.antt =====
-- __init__.py: `async_migrate_entry`, a step for each version.
use proxmoxve_integration.Prelude.{
  ℕ, List, [], ◌∷◌, ◌++◌, Bool, true, none, some, ◌==◌, if◌then◌else◌, list_eq, nat_eq,
}
use proxmoxve_integration.Prelude.Text.{Text, text}
use proxmoxve_integration.Json.{
  Value, str, arr, end, item, Fields, nil, field, find, get, str_of, iterate,
}
use proxmoxve_integration.Const.{ProxmoxType, type_upper}
use proxmoxve_integration.Api.{Reply}
use proxmoxve_integration.Discovery.Devices.{identifier_of}
use proxmoxve_integration.Coordinators.Monad.{
  Action, done, pure, or_crash, get_state, put_state, ◌>>=◌, ◌>>◌,
}
use proxmoxve_integration.Migration.{
  Migrated, Step, need, or_empty, drop_devices, path_id, link_or_serial, rename_disk_devices,
}

module _ (repr : Value → Text) (W : Type 0) (connects : W → Bool × W)
    (request : W → Text → Reply Value × W) (entry_id : Text) where
  abbrev pub State : Type 0
  State = Migrated repr W connects request entry_id

  abbrev pub Run : Type 0
  Run = Step repr W connects request entry_id

  abbrev wanted : Text → Fields → Action State Value
  wanted key fs = need repr W connects request entry_id key fs

  -- `async_update_entry`
  abbrev put_entry : ℕ → Fields → Fields → Run
  put_entry version data_of options s =
      (done tt, record s { version = version; data_of = data_of; options = options })

  abbrev drop_all : List Text → Run
  drop_all ids s = (done tt, record s { devices = drop_devices ids s.devices })

  abbrev ids_with : Text → List Value → List Text
  ids_with prefix [] = []
  ids_with prefix (v ∷ vs) = (prefix ++ str_of repr v) ∷ ids_with prefix vs

  -- The keys of the entry that every later version has, and the rest of the data.
  abbrev pub common : Fields → Value → Value → Fields → Fields
  common fs token_name nodes rest = field (text "host") (get (text "host") fs) (
      field (text "port") (get (text "port") fs) (
        field (text "username") (get (text "username") fs) (
          field (text "token_name") token_name (
            field (text "password") (get (text "password") fs) (
              field (text "realm") (get (text "realm") fs) (
                field (text "verify_ssl") (get (text "verify_ssl") fs) (
                  field (text "nodes") nodes (
                    field (text "qemu") (get (text "qemu") fs)
                      (field (text "lxc") (get (text "lxc") fs) rest)))))))))

  -- One entry per node becomes one with a list of nodes; its devices go.
  unfoldable pub from_1 : Run
  from_1 s =
      let fs = s.data_of in
      let node = str_of repr (get (text "node") fs) in
      (do
        host ← wanted (text "host") fs
        port ← wanted (text "port") fs
        let base = str_of repr host ++ b'_' ∷ str_of repr port
        let below = base ++ b'_' ∷ (node ++ text "_")
        qemu ← wanted (text "qemu") fs
        machines ← or_crash (iterate qemu)
        lxc ← wanted (text "lxc") fs
        containers ← or_crash (iterate lxc)
        put_entry 2
            (common fs (get (text "token_name") fs) (arr (item (get (text "node") fs) end)) nil) nil
        drop_all
            (base ∷ (base ++ b'_' ∷ node) ∷ (ids_with below machines ++ ids_with below containers)))
        s

  -- The devices go that were known by kind and id.
  unfoldable pub from_2 : Run
  from_2 s =
      let fs = s.data_of in
      (do
        nodes ← wanted (text "nodes") fs
        names ← or_crash (iterate nodes)
        qemu ← wanted (text "qemu") fs
        machines ← or_crash (iterate qemu)
        lxc ← wanted (text "lxc") fs
        containers ← or_crash (iterate lxc)
        put_entry 3 fs nil
        drop_all (
            ids_with (type_upper ProxmoxType.node ++ text "_") names
            ++ (ids_with (type_upper ProxmoxType.qemu ++ text "_") machines
                ++ ids_with (type_upper ProxmoxType.lxc ++ text "_") containers)))
        s

  unfoldable pub from_3 : Run
  from_3 s =
      let fs = s.data_of in
      put_entry 4
        (common fs (get (text "token_name") fs) (get (text "nodes") fs)
          (field (text "storage") (arr end) nil))
        nil s

  abbrev storage_prefix : Text
  storage_prefix = identifier_of entry_id (type_upper ProxmoxType.storage) []

  -- The storage devices that were known by name go.
  unfoldable pub from_4 : Run
  from_4 s =
      (do
        storages ←
            or_crash
              (iterate (or_empty repr W connects request entry_id (text "storage") s.data_of))
        drop_all (ids_with storage_prefix storages)
        t ← get_state
        put_state (record t { version = 5 }))
        s

  -- Disk devices move from the path to the disk id.
  unfoldable pub from_5 : Run
  from_5 = do
    rename_disk_devices repr W connects request entry_id path_id
    t ← get_state
    put_state (record t { version = 6 })

  abbrev pub token_or_empty : Fields → Value
  token_or_empty fs = elim (find (text "token_name") fs) [ none ↦ str [] | some v ↦ v ]

  -- Disk devices move from the by-id link or the serial to the disk id, and the storages start anew.
  unfoldable pub from_6 : Run
  from_6 = do
    rename_disk_devices repr W connects request entry_id link_or_serial
    t ← get_state
    let fs = t.data_of
    put_entry 7
        (common fs (token_or_empty fs) (get (text "nodes") fs)
          (field (text "storage") (arr end) nil))
        nil

  unfoldable pub when : ℕ → Run → Run
  when version step s = if s.version == version then step s else (done tt, s)

  unfoldable pub async_migrate_entry : Action State Bool
  unfolding when from_1 from_2 from_3 from_4 from_5 from_6
  async_migrate_entry = do
    when 1 from_1
    when 2 from_2
    when 3 from_3
    when 4 from_4
    when 5 from_5
    when 6 from_6
    pure true
