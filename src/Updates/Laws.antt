-- ===== src/Updates/Laws.antt =====
-- The counts of a node's updates, and the order in which they are listed.
use proxmoxve_integration.Prelude.{
  ℕ, suc, ◌+◌, ◌≤◌, ◌≡◌, refl, ◌∙◌, List, [], ◌∷◌, Bool, true, false, Option, none, some, ◌||◌,
  if◌then◌else◌, ltb, any, list_eq, nat_eq, arith, length, map,
}
use proxmoxve_integration.Prelude.Sort.{
  insert_by, sort_by, IsSorted, sort_by-IsSorted, any-sort_by, length-sort_by,
}
use proxmoxve_integration.Prelude.Text.{Text, text_leb, text_leb_total, text_leb_trans}
use proxmoxve_integration.Json.{Value, Values, elements}
use proxmoxve_integration.Updates.{
  Package, read_row, read_rows, by_origin, package_line, count_proxmox, parse_updates,
}

abbrev pub is_some {ℓ} : {A : Type ℓ} → Option A → Bool
is_some none = false
is_some (some a) = true

-- The rows that name a package.
abbrev pub named_rows : (Value → Text) → List Value → ℕ
named_rows repr [] = 0
named_rows repr (v ∷ vs) =
    let rest = named_rows repr vs in if is_some (read_row repr v) then suc rest else rest

length-read_rows :
    (repr : Value → Text) (vs : List Value) → length (read_rows repr vs) ≡ named_rows repr vs
length-read_rows repr [] = refl
length-read_rows repr (v ∷ vs) = ground (arith, length-read_rows repr vs)

count_proxmox-le : (ps : List Package) → count_proxmox ps ≤ length ps
count_proxmox-le [] = omega arith
count_proxmox-le (p ∷ ps) = ground (arith, count_proxmox-le ps)

count_proxmox-insert_by :
    (p : Package) (ps : List Package)
    → count_proxmox (insert_by by_origin p ps) ≡ count_proxmox (p ∷ ps)
unfolding insert_by
count_proxmox-insert_by p [] = refl
count_proxmox-insert_by p (q ∷ ps) = ground (arith, count_proxmox-insert_by p ps)

count_proxmox-sort_by :
    (ps : List Package) → count_proxmox (sort_by by_origin ps) ≡ count_proxmox ps
unfolding sort_by
count_proxmox-sort_by [] = refl
count_proxmox-sort_by (p ∷ ps) =
    ground (arith, count_proxmox-insert_by p (sort_by by_origin ps), count_proxmox-sort_by ps)

length-map {ℓ κ} :
    {A : Type ℓ} {B : Type κ} (f : A → B) (xs : List A) → length (map f xs) ≡ length xs
length-map f [] = refl
length-map f (x ∷ xs) = ground (arith, length-map f xs)

by_origin_total : (a b : Package) → (by_origin a b || by_origin b a) ≡ true
by_origin_total a b = ground (arith, text_leb_total a.name b.name)

by_origin_trans :
    (a b c : Package) → by_origin a b ≡ true → by_origin b c ≡ true → by_origin a c ≡ true
by_origin_trans a b c p q = ground (arith, p, q, text_leb_trans a.name b.name c.name)

-- Of a node's updates, the total is the number of rows that name a package and the sum of Proxmox's own
-- and the others, and the list of names is as long; there is an update exactly if the total is not zero.
parse_updates_counts :
    (repr : Value → Text) (status : Values) (node : Text)
    → let u = parse_updates repr status node in
      (u.total ≡ named_rows repr (elements status))
      × (u.total ≡ u.proxmox_updates + u.other_updates)
      × (length u.updates_list ≡ u.total)
      × (u.proxmox_updates ≡ count_proxmox (read_rows repr (elements status)))
      × (u.update ≡ ltb 0 (named_rows repr (elements status)))
unfolding parse_updates
parse_updates_counts repr status node =
    let found = read_rows repr (elements status) in
    let packages = sort_by by_origin found in
    (
      length-sort_by by_origin found ∙ length-read_rows repr (elements status),
      omega (arith, count_proxmox-le packages),
      length-sort_by text_leb (map package_line packages) ∙ length-map package_line packages,
      count_proxmox-sort_by found,
      ground (arith, length-sort_by by_origin found, length-read_rows repr (elements status)),
    )

-- A node's updates come in order: the packages with Proxmox's own first and each group by name, the
-- lines of the list by their text. A package of any description is among them exactly if a row of
-- the answer is one.
parse_updates-IsSorted :
    (repr : Value → Text) (status : Values) (node : Text) (f : Package → Bool)
    → let u = parse_updates repr status node in
      IsSorted by_origin u.packages
      × IsSorted text_leb u.updates_list
      × (any f u.packages ≡ any f (read_rows repr (elements status)))
unfolding parse_updates
parse_updates-IsSorted repr status node f =
    let found = read_rows repr (elements status) in
    (
      sort_by-IsSorted by_origin by_origin_total by_origin_trans found,
      sort_by-IsSorted text_leb text_leb_total text_leb_trans
          (map package_line (sort_by by_origin found)),
      any-sort_by by_origin f found,
    )
