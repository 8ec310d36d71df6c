-- ===== src/Stats/Fresh.antt =====
-- What New of stats/stats.go begins with.
use goshire.Base.{
  pos, subst, Option-cases, List, [], ◌∷◌, ◌≡◌, ◌∙◌, ap, sym, refl, arith, Bool-cases, inl, inr,
  All,
}
use goshire.Text.{Str}
use goshire.DynMap.Fields.{end}
use goshire.TimeAmount.{parse}
use goshire.Stats.{same_epoch, StatsSave}
use goshire.Stats.Loop.{
  Made, made, failed, panicked, store_save, same_amount, new, new_items, Clock, Stats, with_items,
}

-- A save with the epoch of the clock and no counters.
abbrev pub IsFresh : Clock → StatsSave → Type 0
IsFresh now s = (s.epoch ≡ now s.time_amount) × (s.values ≡ end)

store_save-IsFresh :
    (now : Clock) (s : StatsSave) (saves : List StatsSave)
    → IsFresh now s
    → All (IsFresh now) saves
    → All (IsFresh now) (store_save s saves)
unfolding store_save
store_save-IsFresh now s [] h hs = (h, tt)
store_save-IsFresh now s (s' ∷ saves) h (h', hs) =
    elim (Bool-cases (same_amount s.time_amount s'.time_amount)) [
      | inl same ↦ rw same (h, hs)
      | inr apart ↦ rw apart (h', store_save-IsFresh now s saves h hs)
    ]

abbrev made_items : {A : Type 0} → A → Made A → A
made_items d (made a) = a
made_items d _ = d

new_items-IsFresh :
    (now : Clock) (items : List StatsSave) (tas : List Str) (from : List StatsSave)
    → new_items now items tas ≡ made from
    → All (IsFresh now) items
    → All (IsFresh now) from
unfolding new_items
new_items-IsFresh now items [] from e h = subst (All (IsFresh now)) (ap (made_items items) e) h
new_items-IsFresh now items (ta ∷ tas) from e h = elim (Option-cases (parse ta)) [
  | inl bad ↦ ground (arith, bad, e)
  | inr (t, good) ↦ elim (Bool-cases (same_epoch t.amount (pos 0))) [
    | inl zero_amount ↦ ground (arith, good, zero_amount, e)
    | inr some_amount ↦
        let s : StatsSave = record { epoch = now t; time_amount = t; values = end } in
        new_items-IsFresh now (store_save s items) tas from (ground (arith, good, some_amount, e))
          (store_save-IsFresh now s items (refl, refl) h)
  ]
]

pub with_new_items :
    (now : Clock) (tas : List Str) (o : Made (List StatsSave)) (p : Stats)
    → new_items now [] tas ≡ o
    → new now tas ≡ made p
    → (p ≡ with_items p.items) × All (IsFresh now) p.items
unfolding new
with_new_items now tas failed p e h = ground (arith, e, h)
with_new_items now tas panicked p e h = ground (arith, e, h)
with_new_items now tas (made from) p e h =
    let done : new now tas ≡ made (with_items from) = ground (arith, e) in
    let same : with_items from ≡ p = ap (made_items p) (sym done ∙ h) in
    subst (λ q. (q ≡ with_items q.items) × All (IsFresh now) q.items) same
      (refl, new_items-IsFresh now [] tas from e tt)
