-- ===== src/Discovery/Guests.antt =====
-- Which nodes and guests discovery finds in a listing.
use proxmoxve_integration.Prelude.{
  ◌≡◌, refl, ◌∙◌, List, [], ◌∷◌, Bool, some, ◌==◌, ◌&&◌, contains, any, map, list_eq, nat_eq, arith,
  Option-cases, inl, inr,
}
use proxmoxve_integration.Prelude.Int.{ℤ}
use proxmoxve_integration.Prelude.Sets.{contains-set_of}
use proxmoxve_integration.Prelude.Sort.{sort_by, contains-sort_by, any-sort_by}
use proxmoxve_integration.Prelude.Text.{Text, text, text_leb, parse_int}
use proxmoxve_integration.Json.{Value, Values, elements}
use proxmoxve_integration.Discovery.{
  Resources, lists_type, field_text, ids_from, ids_of, with_ints, by_int, second, sorted_by_int,
  discovered_resources,
}

abbrev is_second : Text → ℤ × Text → Bool
is_second v p = v == p.1

contains-second :
    (v : Text) (pairs : List (ℤ × Text)) → contains (map second pairs) v ≡ any (is_second v) pairs
contains-second v [] = refl
contains-second v (p ∷ ps) = ground (arith, contains-second v ps)

any-with_ints :
    (v : Text) (ts : List Text) (pairs : List (ℤ × Text))
    → with_ints ts ≡ some pairs
    → any (is_second v) pairs ≡ contains ts v
unfolding with_ints
any-with_ints v [] pairs = λ h. ground (arith, h)
any-with_ints v (t ∷ ts) pairs = elim (Option-cases (parse_int t)) [
  | inl bad ↦ rw (bad, with_ints) (λ h. absurd (ground (arith, h)))
  | inr (n, number) ↦
      rw (number, with_ints)
        (elim (Option-cases (with_ints ts)) [
          | inl bad ↦ rw (bad, with_ints) (λ h. absurd (ground (arith, h)))
          | inr (rest, good) ↦
              rw (good, with_ints) (λ h. ground (arith, h, any-with_ints v ts rest good))
        ])
]

contains-sorted_by_int :
    (v : Text) (ts us : List Text) → sorted_by_int ts ≡ some us → contains us v ≡ contains ts v
unfolding sorted_by_int
contains-sorted_by_int v ts us = elim (Option-cases (with_ints ts)) [
  | inl bad ↦ rw (bad, sorted_by_int) (λ h. absurd (ground (arith, h)))
  | inr (pairs, good) ↦
      rw (good, sorted_by_int)
        (λ h. ground (
          arith,
          h,
          contains-second v (sort_by by_int pairs),
          any-sort_by by_int (is_second v) pairs,
          any-with_ints v ts pairs good,
        ))
]

-- Whether a row is a resource of this type with this id.
abbrev pub is_listed : (Value → Text) → Text → Text → Text → Value → Bool
is_listed repr type key v row = lists_type type key row && v == field_text repr key row

contains-ids_of :
    (repr : Value → Text) (type key v : Text) (resources : Values)
    → contains (ids_of repr type key resources) v
      ≡ any (is_listed repr type key v) (elements resources)
unfolding ids_of
contains-ids_of repr type key v resources =
    contains-set_of (ids_from repr type key (elements resources)) v ∙ from_rows (elements resources)
  where
    from_rows :
        (vs : List Value)
        → contains (ids_from repr type key vs) v ≡ any (is_listed repr type key v) vs
    from_rows [] = refl
    from_rows (row ∷ vs) = ground (arith, from_rows vs)

-- Discovery that does not fail finds a node or a guest exactly if the listing has a row of its type
-- with its id that is no template; rows that are no dicts are passed over.
discovered_resources_exact :
    (repr : Value → Text) (resources : Values) (r : Resources) (v : Text)
    → discovered_resources repr resources ≡ some r
    → (contains r.nodes v ≡ any (is_listed repr (text "node") (text "node") v) (elements resources))
      × (contains r.qemu v
          ≡ any (is_listed repr (text "qemu") (text "vmid") v) (elements resources))
      × (contains r.lxc v ≡ any (is_listed repr (text "lxc") (text "vmid") v) (elements resources))
unfolding discovered_resources
discovered_resources_exact repr resources r v =
    let vms = ids_of repr (text "qemu") (text "vmid") resources in
    let containers = ids_of repr (text "lxc") (text "vmid") resources in
    let names = ids_of repr (text "node") (text "node") resources in
    elim (Option-cases (sorted_by_int vms)) [
      | inl bad ↦ rw (bad, discovered_resources) (λ h. absurd (ground (arith, h)))
      | inr (us, good) ↦
          rw (good, discovered_resources)
            (elim (Option-cases (sorted_by_int containers)) [
              | inl bad ↦ rw (bad, discovered_resources) (λ h. absurd (ground (arith, h)))
              | inr (ws, fine) ↦
                  rw (fine, discovered_resources)
                    (λ h. (
                      ground (
                        arith,
                        h,
                        contains-sort_by text_leb names v,
                        contains-ids_of repr (text "node") (text "node") v resources,
                      ),
                      ground (
                        arith,
                        h,
                        contains-sorted_by_int v vms us good,
                        contains-ids_of repr (text "qemu") (text "vmid") v resources,
                      ),
                      ground (
                        arith,
                        h,
                        contains-sorted_by_int v containers ws fine,
                        contains-ids_of repr (text "lxc") (text "vmid") v resources,
                      ),
                    ))
            ])
    ]
