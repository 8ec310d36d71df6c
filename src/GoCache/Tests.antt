-- ===== src/GoCache/Tests.antt =====
-- A store that behaves as documented, and the theorem about Inc at it. Nothing expires in it, and a
-- number of another type is only kept.
use goshire.Base.{
  ◌∙◌, if◌then◌else◌, arith, ◌≡◌, ◌+ℤ◌, ap, Option, List, some, none, false, refl, ◌∷◌, [], ℤ, pos,
}
use goshire.Text.{str_eq_self, Str, codes, str_eq}
use goshire.GoCache.{Store, Item, other_number, bytes, number, other, inc}
use goshire.GoCache.Laws.{IsStore, IsCounted, is_number, inc_lem}

abbrev Held : Type 0
Held = List (Str × Item)

abbrev item_at : Held → Str → Option Item
item_at [] k = none
item_at ((j, v) ∷ c) k = if str_eq j k then some v else item_at c k

abbrev grown : Held → Str → ℤ → Option Item → Option Held
grown c k val (some (number n)) = some ((k, number (n +ℤ val)) ∷ c)
grown c k val (some (other_number t)) = some ((k, other_number t) ∷ c)
grown c k val _ = none

abbrev added : Held → Str → Item → Option Item → Option Held
added c k v none = some ((k, v) ∷ c)
added c k v (some w) = none

abbrev store : Store Held
store = record {
  get = item_at;
  set = λ c k v age. (k, v) ∷ c;
  add = λ c k v age. added c k v (item_at c k);
  increment = λ c k val. grown c k val (item_at c k);
  delete = λ c k. [];
}

just_set : (c : Held) (k : Str) (v : Item) → item_at ((k, v) ∷ c) k ≡ some v
just_set c k v = ground (arith, str_eq_self k)

no_number_grown :
    (c : Held) (k : Str) (v : Item) (val : ℤ) → is_number v ≡ false → grown c k val (some v) ≡ none
no_number_grown c k (bytes b) val h = refl
no_number_grown c k (number n) val h = cc h
no_number_grown c k (other_number t) val h = cc h
no_number_grown c k other val h = refl

store-IsStore : IsStore store
store-IsStore = record {
  sets = λ c k v age. just_set c k v;
  adds = λ c k v age e. ((k, v) ∷ c, ap (added c k v) e, just_set c k v);
  refuses = λ c k v w age e. ap (added c k v) e;
  increments = λ c k n val e fits.
      ((k, number (n +ℤ val)) ∷ c, ap (grown c k val) e, just_set c k (number (n +ℤ val)));
  increments_other = λ c k t val e.
      ((k, other_number t) ∷ c, t, ap (grown c k val) e, just_set c k (other_number t));
  not_found = λ c k val e. ap (grown c k val) e;
  no_number = λ c k v val e h. ap (grown c k val) e ∙ no_number_grown c k v val h;
}

abbrev held : Held
held = (codes "hits", number (pos 2)) ∷ []

inc_lem_example :
    IsCounted store store-IsStore held
      (codes "hits")
      (pos 5)
      60
      (some (number (pos 2)))
      (inc store held (codes "hits") (pos 5) 60)
unfolding str_eq
inc_lem_example =
    inc_lem store store-IsStore held (codes "hits") (pos 5) 60 (some (number (pos 2))) refl
      (unfold ◌+ℤ◌ in omega arith)
