-- ===== src/Logger/Tests.antt =====
-- The theorem about log events at two channels, of which one is full.
use goshire.Base.{ℕ, ◌≡◌, ◌==◌, [], ◌∷◌, List, if◌then◌else◌}
use goshire.Text.{codes}
use goshire.Logger.{LoggerEvent, Channel, unlisten, dispatch}
use goshire.Logger.Dispatch.{listens, all_told, dispatch_lem}

abbrev event : LoggerEvent
event = record { type = codes "log"; message = codes "hello" }

abbrev listeners : List ℕ
listeners = 1 ∷ 2 ∷ []

abbrev channels : List Channel
channels = record { id = 1; held = []; room = 3 } ∷ record { id = 2; held = []; room = 0 } ∷ []

dispatch_lem_example :
    (dispatch event listeners channels ≡ all_told event listeners channels)
    × ((c : ℕ) → listens c (unlisten listeners 2) ≡ (if 2 == c then 0 else listens c listeners))
dispatch_lem_example = dispatch_lem event listeners channels 2
