-- ===== src/Migration/Versions.antt =====
-- The migration comes to an end: an entry that is complete is at the last version after one run.
use mathlib.Core.Path.{subst}
use proxmoxve_integration.Prelude.{
  ℕ, suc, ◌≤◌, ◌≡◌, refl, and_true, ap, sym, ◌∙◌, List, Bool, true, false, Option, none, some, ◌==◌,
  ◌||◌, list_eq, nat_eq, ℕ_discrete, arith, Bool-cases, inl, inr,
}
use proxmoxve_integration.Prelude.Text.{Text, text}
use proxmoxve_integration.Json
use proxmoxve_integration.Json.{Value, Fields, find, get, iterate, rows}
use proxmoxve_integration.Api.{Reply}
use proxmoxve_integration.Coordinators.Monad.{Action, Result, done, pure, or_crash, ◌>>=◌, ◌>>◌}
use proxmoxve_integration.Migration.{need, or_empty, path_id, link_or_serial}
use proxmoxve_integration.Migration.Steps.{
  from_1, from_2, from_3, from_4, from_5, from_6, State, Run, when, async_migrate_entry,
}
use proxmoxve_integration.Migration.Kept.{
  is_harmless, iterable, has_login, storages, is_complete, or_crash-bind, is_some-find,
  Stays-rename_disk_devices,
}

module _ (repr : Value → Text) (W : Type 0) (connects : W → Bool × W)
    (request : W → Text → Reply Value × W) (entry_id : Text)
    (harmless : (w : W) (path : Text) → is_harmless (request w path).0 ≡ true) where
  abbrev Entry : Type 0
  Entry = State repr W connects request entry_id

  abbrev Do : Type 0
  Do = Run repr W connects request entry_id

  -- At a version or a later one up to the last, with complete data.
  abbrev AtLeast : ℕ → Entry → Type 0
  AtLeast n s = (n ≤ s.version) × (s.version ≤ 7) × (is_complete s.version s.data_of ≡ true)

  -- A step that completes and leads from a version to the next.
  abbrev Leads : ℕ → Do → Type 0
  Leads n step =
      (s : Entry)
      → is_complete n s.data_of ≡ true
      → s.version ≡ n
      → ((step s).0 ≡ done tt)
        × ((step s).1.version ≡ suc n)
        × (is_complete (suc n) (step s).1.data_of ≡ true)

  same_version : (a b : ℕ) → (a == b) ≡ true → a ≡ b
  same_version a b h = ground (arith, h)

  later_version : (a b : ℕ) → b ≤ a → (a == b) ≡ false → suc b ≤ a
  later_version a b low h = ground (arith, low, h)

  when-AtLeast :
      (n : ℕ) (step : Do) (s : Entry)
      → suc n ≤ 7
      → Leads n step
      → AtLeast n s
      → ((when repr W connects request entry_id n step s).0 ≡ done tt)
        × AtLeast (suc n) (when repr W connects request entry_id n step s).1
  unfolding when
  when-AtLeast n step s below leads (low, high, complete) = elim (Bool-cases (s.version == n)) [
    | inl here ↦
        let same = same_version s.version n here in
        let (ends, next, good) =
          leads s (subst (λ v. is_complete v s.data_of ≡ true) same complete) same in
        rw (here) (ends, (omega (arith, next), omega (arith, next, below), rw (next) good))
    | inr past ↦ rw (past) (refl, (later_version s.version n low past, high, complete))
  ]

  complete_parts :
      (n : ℕ) (fs : Fields)
      → is_complete n fs ≡ true
      → (has_login fs ≡ true)
        × (iterable (get (text "qemu") fs) ≡ true)
        × (iterable (get (text "lxc") fs) ≡ true)
        × ((n == 1 || iterable (get (text "nodes") fs)) ≡ true)
        × (iterable (storages fs) ≡ true)
  unfolding is_complete
  complete_parts n fs h =
      let (login, a) = and_true (has_login fs) _ h in
      let (qemu, b) = and_true (iterable (get (text "qemu") fs)) _ a in
      let (lxc, c) = and_true (iterable (get (text "lxc") fs)) _ b in
      let (nodes, storage) =
        and_true (n == 1 || iterable (get (text "nodes") fs)) (iterable (storages fs)) c in
      (login, qemu, lxc, nodes, storage)

  found_list :
      (o : Option Value)
      → iterable (elim o [ none ↦ Value.null | some v ↦ v ]) ≡ true
      → (v : Value) × (o ≡ some v) × (iterable v ≡ true)
  found_list none h = ground (arith, h)
  found_list (some v) h = (v, refl, h)

  module _ (Q : Result (Unit {0}) × Entry → Type 0) where
    need-bind :
        (key : Text) (fs : Fields) (f : Value → Do) (s : Entry)
        → Json.has key fs ≡ true
        → ((v : Value) → Q (f v s))
        → Q ((need repr W connects request entry_id key fs >>= f) s)
    need-bind key fs f s h rest =
        let (v, same) =
          or_crash-bind repr W connects request entry_id harmless (find key fs) f s
            (is_some-find repr W connects request entry_id harmless key fs h) in
        subst Q (sym same) (rest v)

    list-bind :
        (key : Text) (fs : Fields) (f : List Value → Do) (s : Entry)
        → iterable (get key fs) ≡ true
        → ((vs : List Value) → Q (f vs s))
        → Q ((need repr W connects request entry_id key fs >>= λ v. or_crash (iterate v) >>= f) s)
    list-bind key fs f s h rest =
        let (v, there, good) = found_list (find key fs) h in
        let (vs, same) =
          or_crash-bind repr W connects request entry_id harmless (iterate v) f s good in
        subst Q (sym (ap (λ o. (or_crash o >>= λ w. or_crash (iterate w) >>= f) s) there ∙ same))
          (rest vs)

  from_3-Leads : Leads 3 (from_3 repr W connects request entry_id)
  unfolding from_3 is_complete ℕ_discrete list_eq
  from_3-Leads s complete here =
      let (login, qemu, lxc, nodes, storage) = complete_parts 3 s.data_of complete in
      (refl, refl, rw (qemu, lxc, nodes) refl)

  -- What a step from a version leads to.
  abbrev IsNext : ℕ → Result (Unit {0}) × Entry → Type 0
  IsNext n after =
      (after.0 ≡ done tt) × (after.1.version ≡ suc n) × (is_complete (suc n) after.1.data_of ≡ true)

  from_1-Leads : Leads 1 (from_1 repr W connects request entry_id)
  unfolding from_1 is_complete ℕ_discrete list_eq
  from_1-Leads s complete here =
      let fs = s.data_of in
      let (login, qemu, lxc, nodes, storage) = complete_parts 1 fs complete in
      let (host, a) = and_true (Json.has (text "host") fs) _ login in
      let (port, b) = and_true (Json.has (text "port") fs) _ a in
      need-bind (IsNext 1) (text "host") fs _ s host (λ h.
        need-bind (IsNext 1) (text "port") fs _ s port (λ p.
          list-bind (IsNext 1) (text "qemu") fs _ s qemu (λ machines.
            list-bind (IsNext 1) (text "lxc") fs _ s lxc
              (λ containers. (refl, refl, rw (qemu, lxc) refl)))))

  from_2-Leads : Leads 2 (from_2 repr W connects request entry_id)
  unfolding from_2 is_complete ℕ_discrete
  from_2-Leads s complete here =
      let fs = s.data_of in
      let (login, qemu, lxc, nodes, storage) = complete_parts 2 fs complete in
      list-bind (IsNext 2) (text "nodes") fs _ s nodes (λ names.
        list-bind (IsNext 2) (text "qemu") fs _ s qemu (λ machines.
          list-bind (IsNext 2) (text "lxc") fs _ s lxc (λ containers. (refl, refl, complete))))

  from_4-Leads : Leads 4 (from_4 repr W connects request entry_id)
  unfolding from_4 is_complete ℕ_discrete
  from_4-Leads s complete here =
      let (login, qemu, lxc, nodes, storage) = complete_parts 4 s.data_of complete in
      let (names, same) =
        or_crash-bind repr W connects request entry_id harmless {B = Unit {0}}
          (iterate (storages s.data_of)) _ s storage in
      subst (IsNext 4) (sym same) (refl, refl, complete)

  nodes_iterable :
      (fs : Fields)
      → iterable (get (text "nodes") fs) ≡ true
      → iterable (or_empty repr W connects request entry_id (text "nodes") fs) ≡ true
  nodes_iterable fs h =
      let (v, there, good) = found_list (find (text "nodes") fs) h in
      ap (λ o. iterable (elim o [ none ↦ Value.arr Json.end | some w ↦ w ])) there ∙ good

  from_5-Leads : Leads 5 (from_5 repr W connects request entry_id)
  unfolding from_5 is_complete ℕ_discrete
  from_5-Leads s complete here =
      let (login, qemu, lxc, nodes, storage) = complete_parts 5 s.data_of complete in
      let (ends, version, same) =
        Stays-rename_disk_devices repr W connects request entry_id harmless path_id s login
          (nodes_iterable s.data_of nodes) in
      rw (ends) (refl, refl, ap (is_complete 6) same ∙ complete)

  from_6-Leads : Leads 6 (from_6 repr W connects request entry_id)
  unfolding from_6 is_complete ℕ_discrete list_eq
  from_6-Leads s complete here =
      let (login, qemu, lxc, nodes, storage) = complete_parts 6 s.data_of complete in
      let (ends, version, same) =
        Stays-rename_disk_devices repr W connects request entry_id harmless link_or_serial s login
          (nodes_iterable s.data_of nodes) in
      rw (ends, same) (refl, refl, rw (qemu, lxc, nodes) refl)

  abbrev pub Arrives : Result Bool × Entry → Type 0
  Arrives after =
      (after.0 ≡ done true) × (after.1.version ≡ 7) × (is_complete 7 after.1.data_of ≡ true)

  Arrives-when :
      (n : ℕ) (step : Do) (k : Action Entry Bool) (s : Entry)
      → suc n ≤ 7
      → Leads n step
      → AtLeast n s
      → ((t : Entry) → AtLeast (suc n) t → Arrives (k t))
      → Arrives ((when repr W connects request entry_id n step >> k) s)
  Arrives-when n step k s below leads at_least rest =
      let (ends, later) = when-AtLeast n step s below leads at_least in
      rw (ends) (rest (when repr W connects request entry_id n step s).1 later)

  at_last : (s : Entry) → AtLeast 7 s → Arrives (pure true s)
  at_last s (low, high, complete) =
      let last : s.version ≡ 7 = omega (arith, low, high) in
      (refl, last, subst (λ v. is_complete v s.data_of ≡ true) last complete)

  -- The steps that are left from a version on.
  abbrev rest_6 : Action Entry Bool
  rest_6 =
      when repr W connects request entry_id 6 (from_6 repr W connects request entry_id) >> pure true

  abbrev rest_5 : Action Entry Bool
  rest_5 =
      when repr W connects request entry_id 5 (from_5 repr W connects request entry_id) >> rest_6

  abbrev rest_4 : Action Entry Bool
  rest_4 =
      when repr W connects request entry_id 4 (from_4 repr W connects request entry_id) >> rest_5

  abbrev rest_3 : Action Entry Bool
  rest_3 =
      when repr W connects request entry_id 3 (from_3 repr W connects request entry_id) >> rest_4

  abbrev rest_2 : Action Entry Bool
  rest_2 =
      when repr W connects request entry_id 2 (from_2 repr W connects request entry_id) >> rest_3

  -- The migration always ends, where each request fails or lists disks that each have an id: an entry of any
  -- version from the first to the last, with its login and lists, is migrated in one run, and is at version 7
  -- then, with its data complete.
  pub async_migrate_entry-version :
      (s : Entry)
      → 1 ≤ s.version
      → s.version ≤ 7
      → is_complete s.version s.data_of ≡ true
      → Arrives (async_migrate_entry repr W connects request entry_id s)
  unfolding async_migrate_entry
  async_migrate_entry-version s low high complete =
      Arrives-when 1 (from_1 repr W connects request entry_id) rest_2 s (omega arith) from_1-Leads
        (low, high, complete)
        (λ t1 a1.
          Arrives-when 2 (from_2 repr W connects request entry_id) rest_3 t1 (omega arith)
            from_2-Leads a1
            (λ t2 a2.
              Arrives-when 3 (from_3 repr W connects request entry_id) rest_4 t2 (omega arith)
                from_3-Leads a2
                (λ t3 a3.
                  Arrives-when 4 (from_4 repr W connects request entry_id) rest_5 t3 (omega arith)
                    from_4-Leads a3
                    (λ t4 a4.
                      Arrives-when 5 (from_5 repr W connects request entry_id) rest_6 t4
                        (omega arith) from_5-Leads a4
                        (λ t5 a5.
                          Arrives-when 6 (from_6 repr W connects request entry_id) (pure true) t5
                            (omega arith) from_6-Leads a5 at_last)))))
