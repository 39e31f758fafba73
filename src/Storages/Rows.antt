-- ===== src/Storages/Rows.antt =====
-- Which row answers for a shared storage.
use proxmoxve_integration.Prelude.{
  ◌≡◌, refl, sym, ap, ◌∙◌, List, [], ◌∷◌, Bool, true, false, not, Option, none, some, ◌&&◌, any,
  all, keep, arith, list_eq, nat_eq,
}
use proxmoxve_integration.Prelude.Sort.{any-sort_by}
use proxmoxve_integration.Prelude.Text.{Text}
use proxmoxve_integration.Json.{Value, Fields}
use proxmoxve_integration.Storage.{storage_name, is_shared_storage_id}
use proxmoxve_integration.Storages.{
  is_named, is_available, head_of, or_list, candidates, by_node, storage_row,
}

any-keep :
    (f p : Fields → Bool) (rows : List Fields) → any f (keep p rows) ≡ any (λ r. p r && f r) rows
any-keep f p [] = refl
any-keep f p (row ∷ rows) = ground (arith, any-keep f p rows)

keep-all : (p : Fields → Bool) (rows : List Fields) → all p (keep p rows) ≡ true
keep-all p [] = refl
keep-all p (row ∷ rows) = ground (arith, keep-all p rows)

any_same : (p : Fields → Bool) (rows : List Fields) → any (λ r. p r && p r) rows ≡ any p rows
any_same p [] = refl
any_same p (row ∷ rows) = ground (arith, any_same p rows)

any_neither : (p : Fields → Bool) (rows : List Fields) → any (λ r. p r && not (p r)) rows ≡ false
any_neither p [] = refl
any_neither p (row ∷ rows) = ground (arith, any_neither p rows)

any_less :
    (f p : Fields → Bool) (rows : List Fields)
    → any f rows ≡ false
    → any (λ r. p r && f r) rows ≡ false
any_less f p [] h = refl
any_less f p (row ∷ rows) h = ground (arith, h, any_less f p rows)

is_this : (f : Fields → Bool) (a b : Fields) → Path (Option Fields) (some a) (some b) → f a ≡ f b
is_this f a b h = ap (λ o. elim o [ none ↦ false | some r ↦ f r ]) h

head_tells :
    (p : Fields → Bool) (chosen rows : List Fields) (row : Fields)
    → all p chosen ≡ true
    → any p chosen ≡ any p rows
    → head_of (or_list chosen rows) ≡ some row
    → p row ≡ any p rows
head_tells p [] [] row h k e = ground (arith, e)
head_tells p [] (r ∷ rows) row h k e = sym (is_this p r row e) ∙ ground (arith, k)
head_tells p (c ∷ chosen) rows row h k e = sym (is_this p c row e) ∙ (ground (arith, h) ∙ k)

head_lacks :
    (f : Fields → Bool) (chosen rows : List Fields) (row : Fields)
    → any f chosen ≡ false
    → any f rows ≡ false
    → head_of (or_list chosen rows) ≡ some row
    → f row ≡ false
head_lacks f [] [] row h k e = ground (arith, e)
head_lacks f [] (r ∷ rows) row h k e = sym (is_this f r row e) ∙ ground (arith, k)
head_lacks f (c ∷ chosen) rows row h k e = sym (is_this f c row e) ∙ ground (arith, h)

true_of_not : (b : Bool) → not b ≡ false → b ≡ true
true_of_not b h = ground (arith, h)

module _ (repr : Value → Text) where
  any-candidates :
      (f : Fields → Bool) (id : Text) (entries : List Fields)
      → any f (candidates repr id entries) ≡ any (λ r. is_named (storage_name id) r && f r) entries
  unfolding candidates
  any-candidates f id entries =
      any-sort_by (by_node repr) f (keep (is_named (storage_name id)) entries)
      ∙ any-keep f (is_named (storage_name id)) entries

  shared_row :
      (id : Text) (entries : List Fields)
      → is_shared_storage_id id ≡ true
      → (storage_row repr id entries).0
        ≡ head_of
            (or_list (keep is_available (candidates repr id entries)) (candidates repr id entries))
  unfolding storage_row
  shared_row id entries shared = rw (shared) refl

  -- The row that answers for a shared storage is one of its own, and it is available exactly if some node of
  -- the listing sees the storage as available.
  pub storage_row-any :
      (id : Text) (entries : List Fields) (row : Fields)
      → is_shared_storage_id id ≡ true
      → (storage_row repr id entries).0 ≡ some row
      → (is_named (storage_name id) row ≡ true)
        × (is_available row ≡ any (λ r. is_named (storage_name id) r && is_available r) entries)
  storage_row-any id entries row shared chosen =
      let cs = candidates repr id entries in
      let here : head_of (or_list (keep is_available cs) cs) ≡ some row =
        sym (shared_row id entries shared) ∙ chosen in
      let unnamed : any (λ r. not (is_named (storage_name id) r)) cs ≡ false =
        any-candidates (λ r. not (is_named (storage_name id) r)) id entries
        ∙ any_neither (is_named (storage_name id)) entries in
      (
        true_of_not (is_named (storage_name id) row) (
            head_lacks (λ r. not (is_named (storage_name id) r)) (keep is_available cs) cs row
              (any-keep (λ r. not (is_named (storage_name id) r)) is_available cs
                ∙ any_less (λ r. not (is_named (storage_name id) r)) is_available cs unnamed)
              unnamed here),
        head_tells is_available (keep is_available cs) cs row (keep-all is_available cs)
              (any-keep is_available is_available cs ∙ any_same is_available cs) here
            ∙ any-candidates is_available id entries,
      )
