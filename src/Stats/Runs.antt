-- ===== src/Stats/Runs.antt =====
-- Runs of the event loop of stats/stats.go.
use goshire.Base.{
  subst, ltb, List, [], ◌∷◌, ◌++◌, ◌≡◌, ◌∙◌, ap, sym, refl, arith, Bool-cases, inl, inr, All,
  append_assoc, length, length-append, ◌≤◌,
}
use goshire.Text.{Str}
use goshire.Stats.{get, StatsItem, StatsSave, set, inc}
use goshire.Stats.Fresh.{IsFresh, with_new_items}
use goshire.Stats.Counts.{must_int64-clone}
use goshire.Stats.Tally.{
  items_accepted, History, handled, handled_items, IsPlain, AllTallied, tallied_none,
  AllTallied-add,
}
use goshire.Stats.Loop.{
  made, new, new_items, Clock, GetResult, Stats, with_items, Event, handles, send_item, set_key,
  inc_key, ask, handle_item, handle_get, Step, sets, incs, gets, takes_item, takes_get, Reach,
  start, next,
}

-- What Get answers with has been counted too.
AllTallied-get :
    (key : Str) (h : History) (from saves : List StatsSave)
    → AllTallied key h from saves
    → AllTallied key h from (get saves)
unfolding get
AllTallied-get key h [] [] t = tt
AllTallied-get key h (s ∷ from) (s' ∷ saves) (same, counts, t) = (
  same,
  ap (λ n. (s'.epoch, n)) (must_int64-clone s'.values key) ∙ counts,
  AllTallied-get key h from saves t,
)
AllTallied-get key h [] (s' ∷ saves) t = absurd t
AllTallied-get key h (s ∷ from) [] t = absurd t

-- The answer was counted off the items that had been handled by some moment.
abbrev pub WasTallied : Str → History → List StatsSave → GetResult → Type 0
WasTallied key h from a =
    (later : History) × (earlier : History) × (h ≡ later ++ earlier)
    × AllTallied key earlier from a.1

-- All the items handled were for keys without a dot.
abbrev pub ArePlain : History → Type 0
ArePlain h = All (λ (x : Clock × StatsItem). IsPlain x.1.key) h

-- The state after a run from the saves.
pub record IsTallied (key : Str) (from : List StatsSave) (es : List Event) (p : Stats)
    : Type 0 where
  pub in_order : items_accepted es ≡ handled_items (handled es) ++ p.item_chan
  pub has_room : length p.item_chan ≤ 5
  pub counts : AllTallied key (handled es) from p.items
  pub answers : All (WasTallied key (handled es) from) p.answers

WasTallied-later :
    (key : Str) (h : History) (from : List StatsSave) (x : Clock × StatsItem) (all : List GetResult)
    → All (WasTallied key h from) all
    → All (WasTallied key (x ∷ h) from) all
WasTallied-later key h from x [] t = tt
WasTallied-later key h from x (a ∷ all) ((later, earlier, e, t), ts) =
    ((x ∷ later, earlier, ap (λ l. x ∷ l) e, t), WasTallied-later key h from x all ts)

module _ (key : Str) (from : List StatsSave) (es : List Event) where
  IsTallied-send_item :
      (p : Stats) (item : StatsItem)
      → IsTallied key from es p
      → IsTallied key from ((send_item p item).1 ∷ es) (send_item p item).0
  unfolding send_item
  IsTallied-send_item p item t = elim (Bool-cases (ltb (length p.item_chan) 5)) [
    | inl room ↦ rw room (record {
      in_order =
          ap (λ l. l ++ item ∷ []) t.in_order
          ∙ append_assoc (handled_items (handled es)) p.item_chan (item ∷ []);
      has_room = ground (arith, length-append p.item_chan (item ∷ []));
      counts = t.counts;
      answers = t.answers;
    })
    | inr full ↦ rw full (record {
      in_order = t.in_order;
      has_room = t.has_room;
      counts = t.counts;
      answers = t.answers;
    })
  ]

  IsTallied-Step :
      {p q : Stats} {e : Event}
      → IsPlain key
      → IsTallied key from es p
      → Step p e q
      → ArePlain (handled (e ∷ es))
      → IsTallied key from (e ∷ es) q
  unfolding set_key inc_key ask handle_item handle_get
  IsTallied-Step {p} plain t (sets k val) plains =
      IsTallied-send_item p (record { key = k; val = val; type = set }) t
  IsTallied-Step {p} plain t (incs k val) plains =
      IsTallied-send_item p (record { key = k; val = val; type = inc }) t
  IsTallied-Step plain t (gets caller room) plains = record {
    in_order = t.in_order;
    has_room = t.has_room;
    counts = t.counts;
    answers = t.answers;
  }
  IsTallied-Step {p} plain t (takes_item now item rest e) (now_plain, plains) = record {
    in_order =
        t.in_order
        ∙ ap (λ l. handled_items (handled es) ++ l) e
        ∙ sym (append_assoc (handled_items (handled es)) (item ∷ []) rest);
    has_room = omega (arith, t.has_room, ap length e);
    counts = AllTallied-add now item key (handled es) from p.items plain now_plain t.counts;
    answers = WasTallied-later key (handled es) from (now, item) p.answers t.answers;
  }
  IsTallied-Step {p} plain t (takes_get caller rest e) plains = record {
    in_order = t.in_order;
    has_room = t.has_room;
    counts = t.counts;
    answers =
        (([], handled es, refl, AllTallied-get key (handled es) from p.items t.counts), t.answers);
  }

earlier_plain : (e : Event) (es : List Event) → ArePlain (handled (e ∷ es)) → ArePlain (handled es)
earlier_plain (handles now item) es h = h.1
earlier_plain _ es h = h

from_any :
    (key : Str) (from : List StatsSave) (es : List Event) (p : Stats)
    → IsPlain key
    → Reach (with_items from) es p
    → ArePlain (handled es)
    → IsTallied key from es p
from_any key from [] p plain start h = record {
  in_order = refl;
  has_room = omega arith;
  counts = tallied_none key from;
  answers = tt;
}
from_any key from (e ∷ es) p plain (next {q} r s) h =
    IsTallied-Step key from es plain (from_any key from es q plain r (earlier_plain e es h)) s h

-- Whatever goroutines call Set, Inc and Get after a New, and however their calls, the two channels and
-- the loop interleave, over keys without a dot: New begins with the epochs of its clock and no counters;
-- the items that were put on the channel are, in their order, those that the loop has handled and the
-- at most five that are still on the channel; in the save of every time amount the counter under the
-- key and the epoch are what a count of the handled items gives, which starts from 0 wherever the clock
-- has come to a new epoch, sets for each Set and adds, with the wrap-around of an int64, for each Inc
-- under the key; and every answer to a Get is such a count of the items handled by some moment.
pub Reach-IsTallied :
    (now : Clock) (tas : List Str) (key : Str) (p q : Stats) (es : List Event)
    → new now tas ≡ made p
    → IsPlain key
    → Reach p es q
    → ArePlain (handled es)
    → All (IsFresh now) p.items × IsTallied key p.items es q
Reach-IsTallied now tas key p q es e plain r h =
    let (same, fresh) = with_new_items now tas (new_items now [] tas) p refl e in
    (fresh, from_any key p.items es q plain (subst (λ t. Reach t es q) same r) h)
