-- ===== src/Examples/Storing.antt =====
-- The state store at concrete inputs.
use kerdoos.Prelude.{◌≡◌, [], ◌∷◌, keep, ◌==◌}
use kerdoos.State.Scrapes.{history, latest_all}
use kerdoos.State.Scrapes.Latest.{latest_all-history}
use kerdoos.Examples.Data.{row_at}

latest_all-history_example :
    keep (λ r. r.source_id == "s") (latest_all "alice" (row_at 9 ∷ row_at 3 ∷ []))
    ≡ history "alice" "s" 1 (row_at 9 ∷ row_at 3 ∷ [])
latest_all-history_example = latest_all-history "alice" "s" (row_at 9 ∷ row_at 3 ∷ [])
