-- ===== src/Issues/Registry.antt =====
-- Home Assistant's issue registry, as far as issues.py relies on it: under the integration's domain,
-- creating an issue puts it under its id, in place of one that is there, and deleting removes it.
use proxmoxve_integration.Prelude.{
  ◌≡◌, ◌==◌, if◌then◌else◌, Option, none, some, List, list_eq, nat_eq,
}
use proxmoxve_integration.Prelude.Dict.{
  Dict, lookup, insert, erase, keys, lookup-insert, lookup-erase,
}
use proxmoxve_integration.Prelude.Text.{Text}

-- What an issue shows: its translation and the placeholders in it.
pub record Issue : Type 0 where
  pub translation_key : Text
  pub user : Text
  pub host : Text
  pub port : Text
  pub count : Text
  pub items : Text

-- A registry of issues that show an `I`.
pub record RegistryOf (I : Type 0) : Type 1 where
  pub State : Type 0
  pub create : Text → I → State → State
  pub delete : Text → State → State
  pub find : Text → State → Option I
  pub ids : State → List Text
  pub find-create :
      (id j : Text) (i : I) (s : State)
      → find j (create id i s) ≡ (if j == id then some i else find j s)
  pub find-delete :
      (id j : Text) (s : State) → find j (delete id s) ≡ (if j == id then none else find j s)

abbrev pub IssueRegistry : Type 1
IssueRegistry = RegistryOf Issue

-- A registry kept in a dict meets the assumptions.
abbrev pub dict_registry : (I : Type 0) → RegistryOf I
dict_registry I = record {
  State = Dict Text I;
  create = insert;
  delete = erase;
  find = lookup;
  ids = keys;
  find-create = λ id j i s. lookup-insert j id i s;
  find-delete = λ id j s. lookup-erase j id s;
}
