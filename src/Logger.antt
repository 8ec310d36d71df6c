-- ===== src/Logger.antt =====
-- log/logger.go: the listeners of log events. A channel is known by a number, and the store has what it
-- holds and how many more events it takes before its owner reads; a send that would wait is dropped.
-- The lock makes each of Listen, Unlisten and the dispatch of one event a single step.
pub mod Dispatch
pub mod Tests
use goshire.Base.{ℕ, zero, suc, ◌==◌, Bool, true, false, List, [], ◌∷◌, ◌++◌, if◌then◌else◌}
use goshire.Text.{Str}

pub record LoggerEvent : Type 0 where
  pub type : Str
  pub message : Str

pub record Channel : Type 0 where
  pub id : ℕ
  pub held : List LoggerEvent
  pub room : ℕ

-- Listen.
unfoldable pub listen : List ℕ → ℕ → List ℕ
listen outchans c = outchans ++ c ∷ []

-- Unlisten, by `remove`.
unfoldable pub unlisten : List ℕ → ℕ → List ℕ
unlisten [] c = []
unlisten (d ∷ outchans) c = let rest = unlisten outchans c in if d == c then rest else d ∷ rest

abbrev pub accepted : LoggerEvent → ℕ → Channel → Channel
accepted e zero ch = ch
accepted e (suc n) ch = record ch { held = ch.held ++ e ∷ []; room = n }

-- `select { case out <- e: default: }`.
unfoldable pub send : LoggerEvent → ℕ → List Channel → List Channel
send e out [] = []
send e out (ch ∷ store) =
    let rest = send e out store in if ch.id == out then accepted e ch.room ch ∷ rest else ch ∷ rest

-- The loop over the listeners, for one event.
unfoldable pub dispatch : LoggerEvent → List ℕ → List Channel → List Channel
dispatch e [] store = store
dispatch e (out ∷ outchans) store = dispatch e outchans (send e out store)
