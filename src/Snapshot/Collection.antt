-- ===== src/Snapshot/Collection.antt =====
-- Collection of internal/snapshot/snapshot.go: what could not be read, and what was.
pub mod Steps
pub mod Calls
use kubewhy.Base.{◌==◌, Bool, ◌&&◌, String, String_eq, List, [], ◌∷◌, ◌++◌, if◌then◌else◌, any}
use kubewhy.Diagnosis.Report.{Degradation}

pub record Collection : Type 0 where
  pub degradations : List Degradation
  pub inspected : List String

unfoldable pub same_step : Degradation → Degradation → Bool
same_step a b = a.resource == b.resource && a.reason == b.reason

-- Collection.Degrade
unfoldable pub degrade : Collection → Degradation → Collection
unfolding same_step any
degrade c d =
    if any (λ e. same_step e d) c.degradations
    then c
    else record c { degradations = c.degradations ++ d ∷ [] }

-- Collection.Inspect
unfoldable pub inspect : Collection → String → Collection
unfolding any
inspect c what =
    if any (λ e. e == what) c.inspected
    then c
    else record c { inspected = c.inspected ++ what ∷ [] }
