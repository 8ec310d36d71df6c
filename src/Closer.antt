-- ===== src/Closer.antt =====
-- closer/closer.go: the values that are closed when the process is asked to stop. `C` is what an
-- io.Closer is known by.
pub mod Laws
use goshire.Base.{◌==◌, ◌++◌, Bool, if◌then◌else◌, List, suc, false, true, ◌∷◌, [], ℕ}

pub record Closer (C : Type 0) : Type 0 where
  pub items : List C
  -- once.Do has run.
  pub once : Bool
  -- How many goroutines of `listen` wait for the signal.
  pub listeners : ℕ

module _ {C : Type 0} where
  -- The value of the package.
  abbrev pub new_closer : Closer C
  new_closer = record { items = []; once = false; listeners = 0 }

  -- listen, up to the signal.
  abbrev pub listen : Closer C → Closer C
  listen c = record c { listeners = suc c.listeners }

  -- Register.
  unfoldable pub register_closer : Closer C → C → Closer C
  register_closer c item =
      let heard = if c.once then c else record (listen c) { once = true } in
      record heard { items = heard.items ++ item ∷ [] }

  -- What the goroutine does at the signal: the items that it closes, in order, where it waits. The
  -- process exits after them.
  unfoldable pub on_signal : Closer C → List C
  on_signal c = if c.listeners == 0 then [] else c.items
