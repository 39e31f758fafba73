-- ===== src/Stagger/Tests.antt =====
-- Three coordinators that take part, one that is too slow and one that is skipped, and the theorems there.
use proxmoxve_integration.Prelude.{
  ◌*◌, ◌≡◌, refl, List, [], ◌∷◌, some, if◌then◌else◌, ltb, list_eq, nat_eq, ℕ_discrete, All, length,
}
use proxmoxve_integration.Prelude.Dict.{Dict, insert, lookup}
use proxmoxve_integration.Prelude.Sort.{sort_by}
use proxmoxve_integration.Prelude.Text.{Text, text, text_leb, partition, decimal}
use proxmoxve_integration.Stagger.{
  Seconds, Coordinator, Slot, one, many, coordinator, other, stagger_offsets, spread, flatten,
  schedule, candidates_of, async_stagger_polling,
}
use proxmoxve_integration.Stagger.Laws.{rank, stagger_offsets-rank}
use proxmoxve_integration.Stagger.Burst.{seconds_of, InBurst, async_stagger_polling-InBurst}

opened : Unit {0}
unfolding async_stagger_polling schedule stagger_offsets spread flatten insert sort_by text_leb
    partition decimal list_eq ℕ_discrete
opened = tt

abbrev minute : Text → Coordinator
minute name = record { name = name; update_interval = some 60000 }

abbrev hourly : Coordinator
hourly = record { name = text "hourly"; update_interval = some 3600000 }

abbrev coordinators : Dict Text Slot
coordinators =
    (text "qemu_1", one (coordinator (minute (text "q"))))
    ∷ (text "cert_a", one (coordinator hourly))
    ∷ (
      text "disk_a",
      many (coordinator (minute (text "d0")) ∷ other ∷ coordinator (minute (text "d2")) ∷ []),
    )
    ∷ (text "proxmox_discovery", one (coordinator (minute (text "x"))))
    ∷ []

abbrev skip : List Text
skip = text "proxmox_discovery" ∷ []

abbrev names : List Text
names = text "c" ∷ text "a" ∷ text "b" ∷ []

stagger_offsets-rank_example :
    lookup (text "b") (stagger_offsets names 12)
    ≡ some (record { over = rank names (text "b") * 12; under = length names })
unfolding opened
stagger_offsets-rank_example =
    stagger_offsets-rank names 12 (text "b") (refl, (refl, (refl, tt))) refl

async_stagger_polling-InBurst_example :
    let cs = candidates_of skip (flatten coordinators) in
    (calls : List (Seconds × Coordinator)) × (async_stagger_polling coordinators skip
      ≡ some (calls, length calls))
    × (seconds_of calls ≡ (if ltb (length cs) 2 then [] else seconds_of cs))
    × All InBurst calls
async_stagger_polling-InBurst_example = async_stagger_polling-InBurst coordinators skip

runs :
    async_stagger_polling coordinators skip
    ≡ some (
      (record { over = 30; under = 3 }, minute (text "q"))
          ∷ (record { over = 6; under = 3 }, minute (text "d0"))
          ∷ (record { over = 18; under = 3 }, minute (text "d2"))
          ∷ [],
      3,
    )
unfolding opened
runs = refl
