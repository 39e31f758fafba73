-- ===== src/Issues/Sweep.antt =====
-- Which lines and repairs a cleanup drops: `forget_untracked` the lines of resources that are not
-- tracked any more, `sweep_legacy_issues` the repairs that releases before kept per resource.
use proxmoxve_integration.Prelude.{
  ◌≡◌, refl, List, [], ◌∷◌, Bool, true, false, none, some, ◌&&◌, contains, if◌then◌else◌, list_eq,
  nat_eq, arith, Bool-cases, inl, inr,
}
use proxmoxve_integration.Prelude.Dict.{lookup, erase, keys, has, lookup-erase, contains-keys}
use proxmoxve_integration.Prelude.Sets.{NoRepeat}
use proxmoxve_integration.Prelude.Text.{Text}
use proxmoxve_integration.Issues.Registry.{IssueRegistry}
use proxmoxve_integration.Issues.{
  Lines, is_stale, stale_keys, erase_all, is_legacy, sweep_from, sweep_legacy_issues, Hass,
}

lookup-erase_all :
    (key : Text) (ks : List Text) (lines : Lines)
    → lookup key (erase_all ks lines) ≡ (if contains ks key then none else lookup key lines)
lookup-erase_all key [] lines = refl
lookup-erase_all key (k ∷ ks) lines =
    ground (arith, lookup-erase_all key ks (erase k lines), lookup-erase key k lines)

-- Whether a key's line is one to drop.
abbrev pub stale_at : List Text → Text → Lines → Bool
stale_at still key lines = elim (lookup key lines) [
  | none ↦ false
  | some line ↦ is_stale still line
]

stale_keys-has :
    (still : List Text) (key : Text) (lines : Lines)
    → contains (stale_keys still lines) key ≡ true
    → has key lines ≡ true
stale_keys-has still key ((k, line) ∷ lines) h = ground (arith, stale_keys-has still key lines)
stale_keys-has still key [] h = ground arith

contains-stale_keys :
    (still : List Text) (key : Text) (lines : Lines)
    → NoRepeat (keys lines)
    → contains (stale_keys still lines) key ≡ stale_at still key lines
contains-stale_keys still key [] u = refl
contains-stale_keys still key ((k, line) ∷ lines) (fresh, u) = ground (
  arith,
  contains-stale_keys still key lines u,
  stale_keys-has still key lines,
  contains-keys k lines,
)

-- Of a dict of lines, where no key repeats, dropping the stale keys leaves under each key the line
-- that was there, if it is cluster-wide or its resource is still tracked, and nothing otherwise.
pub lookup-erase_stale :
    (still : List Text) (key : Text) (lines : Lines)
    → NoRepeat (keys lines)
    → lookup key (erase_all (stale_keys still lines) lines)
      ≡ (if stale_at still key lines then none else lookup key lines)
lookup-erase_stale still key lines u =
    rw (← contains-stale_keys still key lines u)
      (lookup-erase_all key (stale_keys still lines) lines)

module _ (R : IssueRegistry) where
  find-sweep_from :
      (id j : Text) (ids : List Text) (s : R.State)
      → R.find j (sweep_from R id ids s)
        ≡ (if contains ids j && is_legacy id j then none else R.find j s)
  unfolding sweep_from
  find-sweep_from id j [] s = refl
  find-sweep_from id j (i ∷ ids) s = elim (Bool-cases (is_legacy id i)) [
    | inl legacy ↦
        rw legacy
          (ground (arith, legacy, find-sweep_from id j ids (R.delete i s), R.find-delete i j s))
    | inr other ↦ rw other (ground (arith, other, find-sweep_from id j ids s))
  ]

  -- Sweeping an entry's legacy repairs deletes exactly the listed repairs whose id starts with the
  -- entry's id and ends as the earlier releases' did, the commands' repairs excepted; every other
  -- repair is still found, and the lists are not touched.
  pub find-sweep_legacy_issues :
      (id j : Text) (h : Hass R.State)
      → (R.find j (sweep_legacy_issues R id h).registry
          ≡ (if contains (R.ids h.registry) j && is_legacy id j then none else R.find j h.registry))
        × ((sweep_legacy_issues R id h).lists ≡ h.lists)
  unfolding sweep_legacy_issues
  find-sweep_legacy_issues id j h = (find-sweep_from id j (R.ids h.registry) h.registry, refl)
