-- ===== src/Stats.antt =====
-- stats/stats.go: counters for each of some time amounts, kept by one event loop. `now` is the epoch of
-- a time amount at the moment of a call. Loop has the channels and the event loop.
pub mod Counts
pub mod Loop
pub mod Tally
pub mod Fresh
pub mod Runs
pub mod Tests
use goshire.Base.{
  suc, ℕ, Bool, true, false, List, [], ◌∷◌, ◌++◌, ℤ, pos, negsuc, ◌+ℤ◌, ◌==◌, to_word, of_word,
  if◌then◌else◌,
}
use goshire.Text.{Str}
use goshire.DynMap.Fields.{int, Fields, end}
use goshire.DynMap.Path.{put_with_dot}
use goshire.DynMap.Copy.{clone}
use goshire.DynMap.Getters.{must_int64}
use goshire.DynMap.Number.{cutoff}
use goshire.TimeAmount.{TimeAmount}
use goshire.TimeAmount.Epoch.{int64}

-- statsItemType, but that no other value is sent.
pub data ItemType : Type 0 where
  set inc : ItemType

-- statsItem.
pub record StatsItem : Type 0 where
  pub key : Str
  pub val : ℤ
  pub type : ItemType

-- StatsSave.
pub record StatsSave : Type 0 where
  pub epoch : ℤ
  pub time_amount : TimeAmount
  pub values : Fields

abbrev pub same_epoch : ℤ → ℤ → Bool
same_epoch (pos m) (pos n) = m == n
same_epoch (negsuc m) (negsuc n) = m == n
same_epoch _ _ = false

-- The item, put into the values. The error of PutWithDot is dropped.
unfoldable pub update : StatsItem → ItemType → Fields → Fields
update item inc values =
    (put_with_dot values item.key (int (int64 (must_int64 values item.key (pos 0) +ℤ item.val)))).0
update item set values = (put_with_dot values item.key (int item.val)).0

-- The save of the epoch: a new one where the epoch has changed.
unfoldable pub current : ℤ → StatsSave → StatsSave
current epoch s =
    if same_epoch epoch s.epoch
    then s
    else record { epoch = epoch; time_amount = s.time_amount; values = end }

-- What is persisted of a save, before the new one.
unfoldable pub persisted : ℤ → StatsSave → List StatsSave
persisted epoch s = if same_epoch epoch s.epoch then [] else s ∷ []

abbrev pub updated : StatsItem → StatsSave → StatsSave
updated item s = record s { values = update item item.type s.values }

-- The loop of `add`: the saves afterwards, and what was persisted.
unfoldable pub add : (TimeAmount → ℤ) → StatsItem → List StatsSave → List StatsSave × List StatsSave
add now item [] = ([], [])
add now item (s ∷ saves) =
    let rest = add now item saves in
    (
      updated item (current (now s.time_amount) s) ∷ rest.0,
      persisted (now s.time_amount) s ++ rest.1,
    )

-- get: a clone of each save.
unfoldable pub get : List StatsSave → List StatsSave
get [] = []
get (s ∷ saves) = record s { values = clone s.values } ∷ get saves
