-- ===== src/Migration/Kept.antt =====
-- What the renaming of disk devices leaves: the version and the data of the entry.
use proxmoxve_integration.Prelude.{
  ℕ, ◌++◌, ◌≡◌, refl, and_true, ◌∙◌, List, [], ◌∷◌, Bool, true, false, Option, none, some, ◌==◌,
  ◌&&◌, ◌||◌, list_eq, nat_eq, arith, Option-cases, inl, inr,
}
use proxmoxve_integration.Prelude.Text.{Text, text}
use proxmoxve_integration.Json
use proxmoxve_integration.Json.{Value, Fields, find, get, iterate, rows}
use proxmoxve_integration.Api.{Reply, answered, failed}
use proxmoxve_integration.Disk.{Disk, colliding_disk_wwns, resolve_disk_id}
use proxmoxve_integration.Discovery.Devices.{Device}
use proxmoxve_integration.Updates.Laws.{is_some}
use proxmoxve_integration.Coordinators.Monad.{Action, done, or_crash, ◌>>=◌, ◌>>◌}
use proxmoxve_integration.Migration.{
  need, disks_of, rename_disks, rename_device, disk_prefix, put_devices, or_empty, rename_node,
  rename_nodes, rename_answer, connected, rename_disk_devices,
}
use proxmoxve_integration.Migration.Steps.{State, Run}

abbrev has_id : List Text → Disk → Bool
has_id colliding d = is_some (resolve_disk_id d colliding)

abbrev every_has_id : List Text → List Disk → Bool
every_has_id colliding [] = true
every_has_id colliding (d ∷ ds) = has_id colliding d && every_has_id colliding ds

abbrev all_have_ids : Option (List Disk) → Bool
all_have_ids none = false
all_have_ids (some ds) = every_has_id (colliding_disk_wwns ds) ds

-- An answer that stops no renaming: a failure, or a list of disks that each have an id.
abbrev pub is_harmless : Reply Value → Bool
is_harmless (answered v) = all_have_ids (disks_of (rows v))
is_harmless (failed f) = true

abbrev pub iterable : Value → Bool
iterable v = is_some (iterate v)

abbrev pub has_login : Fields → Bool
has_login fs =
    Json.has (text "host") fs
    && (Json.has (text "port") fs
        && (Json.has (text "username") fs
            && (Json.has (text "realm") fs
                && (Json.has (text "password") fs && Json.has (text "verify_ssl") fs))))

abbrev pub storages : Fields → Value
storages fs = elim (find (text "storage") fs) [ none ↦ Value.arr Json.end | some v ↦ v ]

-- The data of an entry has its login and, by its version, its lists.
unfoldable pub is_complete : ℕ → Fields → Bool
is_complete version fs =
    has_login fs
    && (iterable (get (text "qemu") fs)
        && (iterable (get (text "lxc") fs)
            && ((version == 1 || iterable (get (text "nodes") fs)) && iterable (storages fs))))

resolved : (o : Option Text) → is_some o ≡ true → (id : Text) × (o ≡ some id)
resolved none h = ground (arith, h)
resolved (some id) h = (id, refl)

-- Where each disk has an id, all of them are reached.
rename_disks-reached :
    (old_id : Disk → Option Text) (prefix : Text) (colliding : List Text) (ds : List Disk)
    (devices : List Device)
    → every_has_id colliding ds ≡ true
    → (rename_disks old_id prefix colliding ds devices).0 ≡ true
unfolding rename_disks
rename_disks-reached old_id prefix colliding [] devices h = refl
rename_disks-reached old_id prefix colliding (d ∷ ds) devices h =
    let (one, others) = and_true (has_id colliding d) (every_has_id colliding ds) h in
    let (new, found) = resolved (resolve_disk_id d colliding) one in
    elim (Option-cases (old_id d)) [
      | inl no_id ↦
          rw (rename_disks, no_id) (rename_disks-reached old_id prefix colliding ds devices others)
      | inr (old, known) ↦
          rw (rename_disks, known, found)
            (rename_disks-reached old_id prefix colliding ds
              (rename_device (prefix ++ old) (prefix ++ new) devices) others)
    ]

module _ (repr : Value → Text) (W : Type 0) (connects : W → Bool × W)
    (request : W → Text → Reply Value × W) (entry_id : Text)
    (harmless : (w : W) (path : Text) → is_harmless (request w path).0 ≡ true) where
  abbrev pub Entry : Type 0
  Entry = State repr W connects request entry_id

  abbrev pub Do : Type 0
  Do = Run repr W connects request entry_id

  -- An action that completes and leaves the version and the data.
  abbrev pub Stays : Do → Entry → Type 0
  Stays m s = ((m s).0 ≡ done tt) × ((m s).1.version ≡ s.version) × ((m s).1.data_of ≡ s.data_of)

  Stays-put :
      (old_id : Disk → Option Text) (name : Text) (o : Option (List Disk)) (s : Entry)
      → all_have_ids o ≡ true
      → Stays
          (λ t.
            put_devices repr W connects request entry_id
              (elim o [
                | none ↦ (false, t.devices)
                | some ds ↦
                    rename_disks old_id
                      (disk_prefix repr W connects request entry_id name)
                      (colliding_disk_wwns ds)
                      ds
                      t.devices
              ])
              t)
          s
  Stays-put old_id name none s h = ground (arith, h)
  Stays-put old_id name (some ds) s h =
      let reached =
        rename_disks-reached old_id (disk_prefix repr W connects request entry_id name)
          (colliding_disk_wwns ds) ds s.devices h in
      rw (reached) (refl, refl, refl)

  Stays-answer :
      (old_id : Disk → Option Text) (name : Text) (reply : Reply Value) (s : Entry)
      → is_harmless reply ≡ true
      → Stays (rename_answer repr W connects request entry_id old_id name reply) s
  Stays-answer old_id name (answered v) s h = Stays-put old_id name (disks_of (rows v)) s h
  Stays-answer old_id name (failed f) s h = (refl, refl, refl)

  Stays-rename_node :
      (old_id : Disk → Option Text) (node : Value) (s : Entry)
      → Stays (rename_node repr W connects request entry_id old_id node) s
  unfolding rename_node
  Stays-rename_node old_id node s = Stays-answer old_id _ _ _ (harmless s.world _)

  Stays-then : (m k : Do) (s : Entry) → Stays m s → Stays k (m s).1 → Stays (m >> k) s
  Stays-then m k s (a, b, c) (d, e, f) = rw (a) (d, e ∙ b, f ∙ c)

  Stays-rename_nodes :
      (old_id : Disk → Option Text) (nodes : List Value) (s : Entry)
      → Stays (rename_nodes repr W connects request entry_id old_id nodes) s
  unfolding rename_nodes
  Stays-rename_nodes old_id [] s = (refl, refl, refl)
  Stays-rename_nodes old_id (node ∷ nodes) s =
      let first = Stays-rename_node old_id node s in
      Stays-then (rename_node repr W connects request entry_id old_id node)
        (rename_nodes repr W connects request entry_id old_id nodes) s first
        (Stays-rename_nodes old_id nodes
          (rename_node repr W connects request entry_id old_id node s).1)

  pub or_crash-bind :
      {A B : Type 0} (o : Option A) (f : A → Action Entry B) (s : Entry)
      → is_some o ≡ true
      → (a : A) × ((or_crash o >>= f) s ≡ f a s)
  or_crash-bind none f s h = ground (arith, h)
  or_crash-bind (some a) f s h = (a, refl)

  pub is_some-find :
      (key : Text) (fs : Fields) → Json.has key fs ≡ true → is_some (find key fs) ≡ true
  is_some-find key fs h = ground (arith, h)

  need-then :
      {B : Type 0} (key : Text) (fs : Fields) (k : Action Entry B) (s : Entry)
      → Json.has key fs ≡ true
      → (need repr W connects request entry_id key fs >> k) s ≡ k s
  need-then key fs k s h = (or_crash-bind (find key fs) (λ v. k) s (is_some-find key fs h)).1

  Stays-need :
      (key : Text) (fs : Fields) (k : Do) (s : Entry)
      → Json.has key fs ≡ true
      → Stays k s
      → Stays (need repr W connects request entry_id key fs >> k) s
  Stays-need key fs k s h stays = rw (need-then key fs k s h) stays

  Stays-connected :
      (old_id : Disk → Option Text) (made : Bool) (s : Entry)
      → iterable (or_empty repr W connects request entry_id (text "nodes") s.data_of) ≡ true
      → Stays (connected repr W connects request entry_id old_id made) s
  Stays-connected old_id false s h = (refl, refl, refl)
  Stays-connected old_id true s h =
      let (nodes, same) =
        or_crash-bind (iterate (or_empty repr W connects request entry_id (text "nodes") s.data_of))
          (rename_nodes repr W connects request entry_id old_id) s h in
      rw (same) (Stays-rename_nodes old_id nodes s)

  pub Stays-rename_disk_devices :
      (old_id : Disk → Option Text) (s : Entry)
      → has_login s.data_of ≡ true
      → iterable (or_empty repr W connects request entry_id (text "nodes") s.data_of) ≡ true
      → Stays (rename_disk_devices repr W connects request entry_id old_id) s
  unfolding rename_disk_devices
  Stays-rename_disk_devices old_id s login nodes =
      let fs = s.data_of in
      let (host, a) = and_true (Json.has (text "host") fs) _ login in
      let (port, b) = and_true (Json.has (text "port") fs) _ a in
      let (user, c) = and_true (Json.has (text "username") fs) _ b in
      let (realm, d) = and_true (Json.has (text "realm") fs) _ c in
      let (password, ssl) =
        and_true (Json.has (text "password") fs) (Json.has (text "verify_ssl") fs) d in
      Stays-need (text "host") fs _ s host (
        Stays-need (text "port") fs _ s port (
          Stays-need (text "username") fs _ s user (
            Stays-need (text "realm") fs _ s realm (
              Stays-need (text "password") fs _ s password (
                Stays-need (text "verify_ssl") fs _ s ssl (
                  Stays-connected old_id (connects s.world).0
                    (record s { world = (connects s.world).1 }) nodes))))))
