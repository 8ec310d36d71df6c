-- ===== src/Stats/Counts.antt =====
-- What `add` of stats/stats.go does to the counters.
use goshire.Base.{
  arith, List, Bool-cases, none, refl, inr, inl, ◌∙◌, ◌≢◌, ap, ◌+ℤ◌, pos, if◌then◌else◌, ℤ, ◌∷◌, [],
  ◌≡◌,
}
use goshire.DynMap.Fields.{map, dynmap, Value}
use goshire.Base.{Option, some}
use goshire.DynMap.Copy.{clone, clone_value, clone_holds, clone_found}
use goshire.DynMap.Path.{walk}
use goshire.DynMap.Path.Laws.{get-put_with_dot_plain}
use goshire.DynMap.Fields.{lookup}
use goshire.Stats.{updated}
use goshire.Text.{first_piece, split_cases}
use goshire.Text.{first_piece, Str, split}
use goshire.DynMap.Fields.{int, Fields, end}
use goshire.DynMap.Path.{get, put_with_dot}
use goshire.DynMap.Path.Laws.{get-put_with_dot_frame}
use goshire.DynMap.Cast.{to_int64}
use goshire.DynMap.Getters.{must_int64, converted, or_default}
use goshire.TimeAmount.{TimeAmount}
use goshire.TimeAmount.Epoch.{int64}
use goshire.Stats.{
  ItemType, set, inc, StatsItem, StatsSave, same_epoch, update, current, persisted, add,
}

-- A counter of a save.
abbrev pub count : StatsSave → Str → ℤ
count s key = must_int64 s.values key (pos 0)

-- The counter in the epoch at hand: 0 in a new one.
abbrev pub count_now : ℤ → StatsSave → Str → ℤ
count_now epoch s key = if same_epoch epoch s.epoch then count s key else pos 0

-- What the item makes of a counter.
abbrev pub counted : StatsItem → ItemType → ℤ → ℤ
counted item inc old = int64 (old +ℤ item.val)
counted item set old = item.val

-- What one item does to the save of one time amount, in the epoch that is now.
pub record Added (epoch : ℤ) (item : StatsItem) (s s' : StatsSave) : Type 0 where
  pub same_amount : s'.time_amount ≡ s.time_amount
  pub counts : count s' item.key ≡ counted item item.type (count_now epoch s item.key)
  pub others :
      (key : Str)
      → first_piece b'.' key ≢ first_piece b'.' item.key
      → count s' key ≡ count_now epoch s key

must_int64-put :
    (m : Fields) (key : Str) (a : ℤ)
    → split b'.' key ≡ key ∷ []
    → must_int64 (put_with_dot m key (int a)).0 key (pos 0) ≡ a
unfolding must_int64
must_int64-put m key a plain =
    ap (λ o. or_default (pos 0) (converted to_int64 o)) (get-put_with_dot_plain m key (int a) plain)
    ∙ unfold to_int64 in refl

get_end : (key : Str) → get end key ≡ none
unfolding get lookup walk
get_end key = elim (split_cases b'.' key) [
  | inl e ↦ ground (arith, e)
  | inr (q, qs, e, l) ↦ ground (arith, e, walk_end (first_piece b'.' key) q qs)
]
  where
    walk_end : (k j : Str) (ks : List Str) → walk (k ∷ j ∷ ks) end ≡ none
    walk_end k j ks = refl

count_now-current :
    (epoch : ℤ) (s : StatsSave) (key : Str) → count (current epoch s) key ≡ count_now epoch s key
unfolding current
count_now-current epoch s key = elim (Bool-cases (same_epoch epoch s.epoch)) [
  | inl same ↦ rw same refl
  | inr new ↦
      rw new
        (unfold must_int64 in ap (λ o. or_default (pos 0) (converted to_int64 o)) (get_end key))
]

updated_counts :
    (item : StatsItem) (t : ItemType) (values : Fields)
    → split b'.' item.key ≡ item.key ∷ []
    → must_int64 (update item t values) item.key (pos 0)
      ≡ counted item t (must_int64 values item.key (pos 0))
unfolding update
updated_counts item inc values plain = must_int64-put values item.key _ plain
updated_counts item set values plain = must_int64-put values item.key item.val plain

updated_others :
    (item : StatsItem) (t : ItemType) (values : Fields) (key : Str)
    → first_piece b'.' key ≢ first_piece b'.' item.key
    → must_int64 (update item t values) key (pos 0) ≡ must_int64 values key (pos 0)
unfolding update must_int64
updated_others item inc values key apart =
    ap (λ o. or_default (pos 0) (converted to_int64 o))
      (get-put_with_dot_frame values item.key key _ apart)
updated_others item set values key apart =
    ap (λ o. or_default (pos 0) (converted to_int64 o))
      (get-put_with_dot_frame values item.key key _ apart)

current_amount : (epoch : ℤ) (s : StatsSave) → (current epoch s).time_amount ≡ s.time_amount
unfolding current
current_amount epoch s = ground arith

pub added :
    (epoch : ℤ) (item : StatsItem) (s : StatsSave)
    → split b'.' item.key ≡ item.key ∷ []
    → Added epoch item s (updated item (current epoch s))
added epoch item s plain = record {
  same_amount = current_amount epoch s;
  counts =
      updated_counts item item.type (current epoch s).values plain
      ∙ ap (counted item item.type) (count_now-current epoch s item.key);
  others = λ key apart.
      updated_others item item.type (current epoch s).values key apart
      ∙ count_now-current epoch s key;
}

-- Every save of the first list goes over into the one at its place in the second.
abbrev pub AllAdded : (TimeAmount → ℤ) → StatsItem → List StatsSave → List StatsSave → Type 0
AllAdded now item [] [] = Unit
AllAdded now item (s ∷ saves) (s' ∷ saves') =
    Added (now s.time_amount) item s s' × AllAdded now item saves saves'
AllAdded now item _ _ = ⊥

-- The saves whose epoch is over.
abbrev pub ended : (TimeAmount → ℤ) → List StatsSave → List StatsSave
ended now [] = []
ended now (s ∷ saves) =
    if same_epoch (now s.time_amount) s.epoch then ended now saves else s ∷ ended now saves

-- One item under a key without a dot: in every time amount its counter is set, or incremented with the
-- wrap-around of an int64, from 0 if a new epoch has begun; the counters under other first parts stay,
-- or are 0 in a new epoch; and exactly the saves whose epoch is over are persisted, as they were.
add_lem :
    (now : TimeAmount → ℤ) (item : StatsItem) (saves : List StatsSave)
    → split b'.' item.key ≡ item.key ∷ []
    → AllAdded now item saves (add now item saves).0 × ((add now item saves).1 ≡ ended now saves)
unfolding add persisted
add_lem now item [] plain = (tt, refl)
add_lem now item (s ∷ saves) plain =
    let (rest, gone) = add_lem now item saves plain in
    ((added (now s.time_amount) item s plain, rest), ground (arith, gone))

to_int64-clone : (v : Value) → to_int64 (clone_value v) ≡ to_int64 v
unfolding to_int64 clone
to_int64-clone (map m) = refl
to_int64-clone (dynmap m) = refl
to_int64-clone _ = refl

converted-clone : (o : Option Value) → converted to_int64 (clone_found o) ≡ converted to_int64 o
converted-clone none = refl
converted-clone (some v) = to_int64-clone v

pub must_int64-clone :
    (m : Fields) (key : Str) → must_int64 (clone m) key (pos 0) ≡ must_int64 m key (pos 0)
unfolding must_int64
must_int64-clone m key =
    ap (λ o. or_default (pos 0) (converted to_int64 o)) ((clone_holds m).0 key)
    ∙ ap (or_default (pos 0)) (converted-clone (get m key))
