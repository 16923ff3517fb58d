-- ===== src/Tests/Emitted.antt =====
-- The emitter at concrete histories, the latest input first.
use mathlib.Core.List.{Sublist}
use vfobs.Prelude.{ℕ, ◌≤◌, ◌≡◌, refl, arith, true, false, List, [], ◌∷◌, ◌++◌, length}
use vfobs.Sdk.Emitter.{unstarted, Input, emitted, scheduled, answered, closing, after}
use vfobs.Sdk.Emitter.Drains.{IsDone, rounds, rounds-closing}
use vfobs.Sdk.Emitter.Order.{after-Sublist, after-emitted_in, posts-after}

-- Three events for two places: the first is dropped before the drain task runs.
abbrev crowded : List (Input ℕ)
crowded = scheduled false ∷ emitted true 3 ∷ emitted true 2 ∷ emitted true 1 ∷ []

after-Sublist_example :
    Sublist ((after 2 crowded).posts ++ (after 2 crowded).queue) (1 ∷ 2 ∷ 3 ∷ [])
    × (length (after 2 crowded).queue ≤ 2)
after-Sublist_example = after-Sublist 2 crowded

abbrev roomy : List (Input ℕ)
roomy = scheduled false ∷ answered ∷ scheduled false ∷ emitted true 2 ∷ emitted true 1 ∷ []

none_lost : (after 2 roomy).posts ++ (after 2 roomy).queue ≡ 1 ∷ 2 ∷ []
none_lost = after-emitted_in 2 roomy (omega arith)

abbrev outside : List (Input ℕ)
outside = scheduled false ∷ closing ∷ emitted false 1 ∷ []

posts-after_example : ((after 2 outside).drain ≡ unstarted) × ((after 2 outside).posts ≡ [])
posts-after_example = posts-after 2 outside (refl, tt)

-- One event is being posted and two are queued when the emitter is closed.
abbrev busy : List (Input ℕ)
busy = scheduled false ∷ emitted true 3 ∷ emitted true 2 ∷ emitted true 1 ∷ []

rounds-closing_example :
    IsDone
      (rounds 5 (false ∷ true ∷ false ∷ false ∷ []) (after 5 (closing ∷ busy)))
      (1 ∷ 2 ∷ 3 ∷ [])
unfolding after
rounds-closing_example = rounds-closing 5 busy (false ∷ true ∷ false ∷ false ∷ []) tt (omega arith)
