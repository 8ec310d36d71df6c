-- ===== src/Stats/Loop.antt =====
-- New, Set, Inc, Get and eventLoop of stats/stats.go: goroutines that send to two buffered channels, and
-- one loop that receives from them. Each call is a step, and names what happened as an event.
use goshire.Base.{
  pos, ltb, ◌<◌, ◌++◌, ◌&&◌, Bool, none, some, ℕ, ℤ, List, [], ◌∷◌, length, ◌≡◌, if◌then◌else◌,
}
use goshire.Text.{Str, str_eq}
use goshire.DynMap.Fields.{end}
use goshire.TimeAmount.{TimeAmount, timeframe_text, parse}
use goshire.Stats.{get, StatsItem, StatsSave, set, inc, same_epoch, add}

-- ToTrendrrEpoch of a time amount, which is not 0, at the moment of a call.
abbrev pub Clock : Type 0
Clock = TimeAmount → ℤ

-- What the loop answers a getRequest with: the caller, and the saves.
abbrev pub GetResult : Type 0
GetResult = ℕ × List StatsSave

-- Stats. A getRequest is the number of its caller. `saved` are the saves that went to `persist`.
pub record Stats : Type 0 where
  pub item_chan : List StatsItem
  pub get_chan : List ℕ
  pub items : List StatsSave
  pub saved : List StatsSave
  pub answers : List GetResult

-- Go's == on time amounts.
abbrev pub same_amount : TimeAmount → TimeAmount → Bool
same_amount t u =
    same_epoch t.amount u.amount && str_eq (timeframe_text t.timeframe) (timeframe_text u.timeframe)

-- The assignment to the map of saves.
unfoldable pub store_save : StatsSave → List StatsSave → List StatsSave
store_save s [] = s ∷ []
store_save s (s' ∷ saves) =
    let rest = store_save s saves in
    if same_amount s.time_amount s'.time_amount then s ∷ saves else s' ∷ rest

-- What New ends in: a value, the error of a text that is no time amount, or the panic of
-- ToTrendrrEpoch, which divides by an amount of 0.
pub data Made (A : Type 0) : Type 0 where
  made : A → Made A
  failed panicked : Made A

-- The loop of New.
unfoldable pub new_items : Clock → List StatsSave → List Str → Made (List StatsSave)
new_items now items [] = made items
new_items now items (ta ∷ tas) = elim (parse ta) [
  | none ↦ failed
  | some t ↦
      let s : StatsSave = record { epoch = now t; time_amount = t; values = end } in
      let rest = new_items now (store_save s items) tas in
      if same_epoch t.amount (pos 0) then panicked else rest
]

abbrev pub with_items : List StatsSave → Stats
with_items items = record { item_chan = []; get_chan = []; items = items; saved = []; answers = [] }

-- New.
unfoldable pub new : Clock → List Str → Made Stats
new now tas = elim (new_items now [] tas) [
  | made items ↦ made (with_items items)
  | failed ↦ failed
  | panicked ↦ panicked
]

pub data Event : Type 0 where
  -- Set or Inc has put its item on the channel, or has logged that it could not.
  accepts refuses : StatsItem → Event
  asks : ℕ → Event
  handles : Clock → StatsItem → Event
  answered : ℕ → Event

-- The select of Set and of Inc, whose default drops the item.
unfoldable pub send_item : Stats → StatsItem → Stats × Event
send_item p item =
    if ltb (length p.item_chan) 5
    then (record p { item_chan = p.item_chan ++ item ∷ [] }, accepts item)
    else (p, refuses item)

-- Set.
unfoldable pub set_key : Stats → Str → ℤ → Stats × Event
set_key p key val = send_item p (record { key = key; val = val; type = set })

-- Inc.
unfoldable pub inc_key : Stats → Str → ℤ → Stats × Event
inc_key p key val = send_item p (record { key = key; val = val; type = inc })

-- Get, up to its receive from the channel of its own.
unfoldable pub ask : Stats → ℕ → Stats
ask p caller = record p { get_chan = p.get_chan ++ caller ∷ [] }

-- The loop has received an item; `rest` is what is left on the channel.
unfoldable pub handle_item : Stats → Clock → StatsItem → List StatsItem → Stats
handle_item p now item rest =
    let r = add now item p.items in
    record p { item_chan = rest; items = r.0; saved = p.saved ++ r.1 }

-- The loop has received a getRequest.
unfoldable pub handle_get : Stats → ℕ → List ℕ → Stats
handle_get p caller rest = record p { get_chan = rest; answers = (caller, get p.items) ∷ p.answers }

-- What may happen next. A Get waits for room; the loop takes from either channel.
pub data Step (p : Stats) : Event → Stats → Type 0 where
  sets : (key : Str) (val : ℤ) → Step p (set_key p key val).1 (set_key p key val).0
  incs : (key : Str) (val : ℤ) → Step p (inc_key p key val).1 (inc_key p key val).0
  gets : (caller : ℕ) → length p.get_chan < 10 → Step p (asks caller) (ask p caller)
  takes_item :
      (now : Clock) (item : StatsItem) (rest : List StatsItem)
      → p.item_chan ≡ item ∷ rest
      → Step p (handles now item) (handle_item p now item rest)
  takes_get :
      (caller : ℕ) (rest : List ℕ)
      → p.get_chan ≡ caller ∷ rest
      → Step p (answered caller) (handle_get p caller rest)

-- A run, with its events, the last one first.
pub data Reach (p : Stats) : List Event → Stats → Type 0 where
  start : Reach p [] p
  next :
      {q r : Stats} {e : Event} {es : List Event} → Reach p es q → Step q e r → Reach p (e ∷ es) r
