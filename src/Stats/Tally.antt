-- ===== src/Stats/Tally.antt =====
-- The event loop of stats/stats.go against a count of the events.
use goshire.Base.{
  negsuc, List, ℤ, pos, [], ◌∷◌, ◌++◌, ◌≡◌, ◌∙◌, ap, sym, refl, arith, Bool-cases, inl, inr,
  if◌then◌else◌, true, false, ◌≢◌,
}
use goshire.Text.{Str, split, str_eq, first_piece, first_piece_of_plain, str_eq_self, str_eq_sound}
use goshire.TimeAmount.{TimeAmount}
use goshire.Stats.{StatsItem, StatsSave, same_epoch, add, updated, current}
use goshire.Stats.Counts.{count, count_now, counted, added}
use goshire.Stats.Loop.{Clock, Event, accepts, handles}

-- The items that were put on the channel, in their order.
abbrev pub items_accepted : List Event → List StatsItem
items_accepted [] = []
items_accepted (accepts item ∷ es) = items_accepted es ++ item ∷ []
items_accepted (_ ∷ es) = items_accepted es

-- What the loop has handled, each with the clock of its moment, the last one first.
abbrev pub History : Type 0
History = List (Clock × StatsItem)

abbrev pub handled : List Event → History
handled [] = []
handled (handles now item ∷ es) = (now, item) ∷ handled es
handled (_ ∷ es) = handled es

abbrev pub handled_items : History → List StatsItem
handled_items [] = []
handled_items ((now, item) ∷ h) = handled_items h ++ item ∷ []

-- A key without a dot.
abbrev pub IsPlain : Str → Type 0
IsPlain key = split b'.' key ≡ key ∷ []

-- A counter under the key after one more item, from the epoch and the counter before it.
abbrev pub tally_step : ℤ → StatsItem → Str → ℤ × ℤ → ℤ × ℤ
tally_step epoch item key (e, n) =
    let old = if same_epoch epoch e then n else pos 0 in
    (epoch, if str_eq key item.key then counted item item.type old else old)

-- The epoch of the time amount and its counter under the key, counted off the history.
unfoldable pub tally : TimeAmount → Str → ℤ × ℤ → History → ℤ × ℤ
tally t key from [] = from
tally t key from ((now, item) ∷ h) = tally_step (now t) item key (tally t key from h)

-- Each save has the time amount of the one at its place at the beginning, and the counters and the
-- epoch that are counted from there.
abbrev pub AllTallied : Str → History → List StatsSave → List StatsSave → Type 0
AllTallied key h [] [] = Unit
AllTallied key h (s ∷ saves) (s' ∷ saves') =
    (s'.time_amount ≡ s.time_amount)
    × ((s'.epoch, count s' key) ≡ tally s.time_amount key (s.epoch, count s key) h)
    × AllTallied key h saves saves'
AllTallied key h _ _ = ⊥

pub tallied_none : (key : Str) (saves : List StatsSave) → AllTallied key [] saves saves
unfolding tally
tallied_none key [] = tt
tallied_none key (s ∷ saves) = (refl, refl, tallied_none key saves)

same_epoch_sound : (a b : ℤ) → same_epoch a b ≡ true → a ≡ b
same_epoch_sound (pos m) (pos n) h = ground arith
same_epoch_sound (negsuc m) (negsuc n) h = ground arith
same_epoch_sound (pos m) (negsuc n) h = ground arith
same_epoch_sound (negsuc m) (pos n) h = ground arith

epoch-current : (epoch : ℤ) (s : StatsSave) → (current epoch s).epoch ≡ epoch
unfolding current
epoch-current epoch s = elim (Bool-cases (same_epoch epoch s.epoch)) [
  | inl same ↦ rw same (sym (same_epoch_sound epoch s.epoch same))
  | inr new ↦ rw new refl
]

first_pieces_apart :
    (key j : Str)
    → IsPlain key
    → IsPlain j
    → str_eq key j ≡ false
    → first_piece b'.' key ≢ first_piece b'.' j
first_pieces_apart key j p q apart e =
    let same : key ≡ j =
      first_piece_of_plain b'.' key p ∙ e ∙ sym (first_piece_of_plain b'.' j q) in
    ground (arith, str_eq_self key, same, apart)

-- The counter of one save after one more item.
count-updated :
    (epoch : ℤ) (item : StatsItem) (s : StatsSave) (key : Str)
    → IsPlain key
    → IsPlain item.key
    → ((updated item (current epoch s)).epoch, count (updated item (current epoch s)) key)
      ≡ tally_step epoch item key (s.epoch, count s key)
count-updated epoch item s key p q =
    let done = added epoch item s q in
    elim (Bool-cases (str_eq key item.key)) [
      | inl same ↦
          let e = str_eq_sound key item.key same in
          let here : count (updated item (current epoch s)) key
              ≡ counted item item.type (count_now epoch s key) =
            ap (count (updated item (current epoch s))) e
            ∙ done.counts
            ∙ ap (λ k. counted item item.type (count_now epoch s k)) (sym e) in
          rw same (cc (epoch-current epoch s, here))
      | inr apart ↦
          rw apart (
            cc (epoch-current epoch s, done.others key (first_pieces_apart key item.key p q apart)))
    ]

-- A save of which the counters have been counted, after one more item.
pub AllTallied-add :
    (now : Clock) (item : StatsItem) (key : Str) (h : History) (from saves : List StatsSave)
    → IsPlain key
    → IsPlain item.key
    → AllTallied key h from saves
    → AllTallied key ((now, item) ∷ h) from (add now item saves).0
unfolding add tally
AllTallied-add now item key h [] [] p q t = tt
AllTallied-add now item key h (s ∷ from) (s' ∷ saves) p q (same, counts, t) = (
  (added (now s'.time_amount) item s' q).same_amount ∙ same,
  count-updated (now s'.time_amount) item s' key p q
      ∙ ap (tally_step (now s'.time_amount) item key) counts
      ∙ ap (λ t. tally_step (now t) item key (tally s.time_amount key (s.epoch, count s key) h))
          same,
  AllTallied-add now item key h from saves p q t,
)
AllTallied-add now item key h [] (s' ∷ saves) p q t = absurd t
AllTallied-add now item key h (s ∷ from) [] p q t = absurd t
