-- ===== src/Stats/Tests.antt =====
-- The theorem about Stats at a run of four events.
use goshire.Base.{arith, ◌≡◌, refl, [], ◌∷◌, List, pos, ℤ}
use goshire.Text.{codes, split}
use goshire.DynMap.Fields.{end, field, int}
use goshire.TimeAmount.{TimeAmount, minutes}
use goshire.Stats.{StatsItem, StatsSave, inc}
use goshire.Stats.Fresh.{IsFresh}
use goshire.Stats.Runs.{IsTallied, Reach-IsTallied}
use goshire.Base.{All}
use goshire.TimeAmount.{parse, find_class, take_class, atoi, timeframe_of, has_prefix}
use goshire.Text.{to_lower}
use goshire.DynMap.Number.{digits_from}
use goshire.Stats.Loop.{
  made, Stats, with_items, Event, accepts, asks, handles, answered, handle_item, handle_get, incs,
  gets, takes_item, takes_get, Reach, start, next, send_item, inc_key, ask, new, new_items,
  store_save,
}

abbrev minute : TimeAmount
minute = record { amount = pos 1; timeframe = minutes }

abbrev hit : StatsItem
hit = record { key = codes "hits"; val = pos 2; type = inc }

abbrev saves : List StatsSave
saves =
    record { epoch = pos 7; time_amount = minute; values = field (codes "hits") (int (pos 5)) end }
    ∷ []

abbrev now : TimeAmount → ℤ
now t = pos 8

-- A new Stats, an Inc at epoch 7 that is handled at epoch 8, and a Get.
abbrev then : TimeAmount → ℤ
then t = pos 7

abbrev fresh : List StatsSave
fresh = record { epoch = pos 7; time_amount = minute; values = end } ∷ []

abbrev asked : Stats
asked = record { item_chan = hit ∷ []; get_chan = 4 ∷ []; items = fresh; saved = []; answers = [] }

abbrev counted_hit : Stats
counted_hit = handle_item asked now hit []

abbrev told : Stats
told = handle_get counted_hit 4 []

new_stats : new then (codes "1 min" ∷ []) ≡ made (with_items fresh)
unfolding new new_items parse find_class take_class atoi digits_from timeframe_of has_prefix
    to_lower store_save
new_stats = refl

abbrev events : List Event
events = answered 4 ∷ handles now hit ∷ asks 4 ∷ accepts hit ∷ []

to_told : Reach (with_items fresh) events told
unfolding inc_key send_item ask handle_item
to_told =
    next
      (next (next (next start (incs (codes "hits") (pos 2))) (gets 4 (omega arith)))
        (takes_item now hit [] refl))
      (takes_get 4 [] refl)

Reach-IsTallied_example : All (IsFresh then) fresh × IsTallied (codes "hits") fresh events told
unfolding split
Reach-IsTallied_example =
    Reach-IsTallied then (codes "1 min" ∷ []) (codes "hits") (with_items fresh) told events
      new_stats refl to_told (refl, tt)
