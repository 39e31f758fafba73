-- ===== src/Stagger.antt =====
-- stagger.py: the delays after which the coordinators of an entry are refreshed once, so that they no
-- longer poll in the same second. A delay is a fraction of seconds, exact where Python's floats round.
pub mod Laws
pub mod Burst
mod Tests
use proxmoxve_integration.Prelude.{
  ℕ, suc, ◌+◌, ◌*◌, List, [], ◌∷◌, ◌++◌, Bool, true, false, not, Option, none, some, ◌&&◌,
  if◌then◌else◌, leb, ltb, list_eq, nat_eq, contains, length, map,
}
use proxmoxve_integration.Prelude.Dict.{Dict, insert, lookup}
use proxmoxve_integration.Prelude.Sort.{sort_by}
use proxmoxve_integration.Prelude.Text.{Text, text_leb, partition, decimal}

pub record Seconds : Type 0 where
  pub over : ℕ
  pub under : ℕ

-- `STAGGER_WINDOW` (the less of 12 and four fifths of the 15 of `RESOURCES_TTL`), `STAGGER_START`
-- and `MAX_STAGGERED_SECONDS`
abbrev pub stagger_window : ℕ
stagger_window = 12

abbrev pub stagger_start : ℕ
stagger_start = 2

abbrev pub max_staggered_seconds : ℕ
max_staggered_seconds = 300

-- A coordinator, its `update_interval` in milliseconds.
pub record Coordinator : Type 0 where
  pub name : Text
  pub update_interval : Option ℕ

-- What an item of the coordinators is: a coordinator or something else.
pub data Item : Type 0 where
  coordinator : Coordinator → Item
  other : Item

pub data Slot : Type 0 where
  one : Item → Slot
  many : List Item → Slot

abbrev pub items : Slot → List Item
items (one i) = i ∷ []
items (many is) = is

abbrev pub numbered : Text → ℕ → List Item → List (Text × Coordinator)
numbered key index [] = []
numbered key index (other ∷ is) = numbered key (suc index) is
numbered key index (coordinator c ∷ is) =
    (key ++ b'#' ∷ decimal index, c) ∷ numbered key (suc index) is

unfoldable pub flatten : Dict Text Slot → List (Text × Coordinator)
flatten [] = []
flatten ((key, slot) ∷ d) = numbered key 0 (items slot) ++ flatten d

abbrev pub offset_at : ℕ → ℕ → ℕ → Seconds
offset_at window count index = record { over = index * window; under = count }

-- The offsets of `ordered` from an index on, put into the dict so far.
unfoldable pub spread : ℕ → ℕ → ℕ → List Text → Dict Text Seconds → Dict Text Seconds
spread window count index [] offsets = offsets
spread window count index (key ∷ ordered) offsets =
    spread window count (suc index) ordered (insert key (offset_at window count index) offsets)

unfoldable pub stagger_offsets : List Text → ℕ → Dict Text Seconds
unfolding spread
stagger_offsets keys window =
    let ordered = sort_by text_leb keys in spread window (length ordered) 0 ordered []

abbrev pub takes_part : List Text → Text × Coordinator → Bool
takes_part skip (key, c) = not (contains skip (partition b'#' key).0) && elim c.update_interval [
  | none ↦ false
  | some interval ↦ leb interval (max_staggered_seconds * 1000)
]

abbrev pub candidates_of : List Text → List (Text × Coordinator) → List (Text × Coordinator)
candidates_of skip [] = []
candidates_of skip (c ∷ cs) =
    let rest = candidates_of skip cs in if takes_part skip c then c ∷ rest else rest

abbrev pub first_keys : List (Text × Coordinator) → List Text
first_keys [] = []
first_keys ((key, c) ∷ cs) = key ∷ first_keys cs

abbrev pub delayed : Seconds → Seconds
delayed s = record { over = stagger_start * s.under + s.over; under = s.under }

-- The calls of `async_call_later`, in order; `none` stands for a `KeyError`.
unfoldable pub schedule :
    Dict Text Seconds → List (Text × Coordinator) → Option (List (Seconds × Coordinator))
schedule offsets [] = some []
schedule offsets ((key, c) ∷ cs) =
    let rest = schedule offsets cs in
    elim (lookup key offsets) [
      | none ↦ none
      | some s ↦ elim rest [ none ↦ none | some calls ↦ some ((delayed s, c) ∷ calls) ]
    ]

-- The calls that are made and how many are returned.
unfoldable pub async_stagger_polling :
    Dict Text Slot → List Text → Option (List (Seconds × Coordinator) × ℕ)
unfolding schedule
async_stagger_polling coordinators skip =
    let candidates = candidates_of skip (flatten coordinators) in
    if ltb (length candidates) 2
    then some ([], 0)
    else elim (schedule (stagger_offsets (first_keys candidates) stagger_window) candidates) [
      | none ↦ none
      | some calls ↦ some (calls, length candidates)
    ]
