-- ===== src/Closer/Laws.antt =====
-- The values of closer/closer.go are closed in the order in which they were registered.
use goshire.Closer.{Closer, new_closer, register_closer, on_signal}
use goshire.Base.{
  append_assoc, ap, ◌∙◌, refl, append-nil, sym, arith, ◌++◌, ◌≡◌, List, true, ◌∷◌, [],
}

module _ {C : Type 0} where
  abbrev pub register_items : Closer C → List C → Closer C
  register_items c [] = c
  register_items c (i ∷ rest) = register_items (register_closer c i) rest

  -- Register has been called before.
  abbrev IsOpen : Closer C → Type 0
  IsOpen c = (c.once ≡ true) × (c.listeners ≡ 1)

  register_closer-IsOpen :
      (c : Closer C) (i : C)
      → IsOpen c
      → IsOpen (register_closer c i) × ((register_closer c i).items ≡ c.items ++ i ∷ [])
  unfolding register_closer
  register_closer-IsOpen c i (once, one) = ground (arith, once, one)

  register_items-items :
      (c : Closer C) (is : List C)
      → IsOpen c
      → ((register_items c is).items ≡ c.items ++ is) × ((register_items c is).listeners ≡ 1)
  register_items-items c [] h = (sym (append-nil c.items), h.1)
  register_items-items c (i ∷ rest) h =
      let (open', items) = register_closer-IsOpen c i h in
      let (all, one) = register_items-items (register_closer c i) rest open' in
      (all ∙ ap (λ t. t ++ rest) items ∙ append_assoc c.items (i ∷ []) rest, one)

  -- However many values are registered, one after the other, the signal is listened for once, and when it
  -- comes every one of them is closed, in the order in which they were registered.
  on_signal-register_items :
      (i : C) (rest : List C)
      → (on_signal (register_items new_closer (i ∷ rest)) ≡ i ∷ rest)
        × ((register_items new_closer (i ∷ rest)).listeners ≡ 1)
  on_signal-register_items i rest =
      let first : register_closer new_closer i
          ≡ record { items = i ∷ []; once = true; listeners = 1 } =
        unfold register_closer in refl in
      let (items, one) =
        register_items-items (record { items = i ∷ []; once = true; listeners = 1 }) rest
          (refl, refl) in
      let all = ap (λ c. register_items c rest) first in
      (
        ap on_signal all ∙ unfold on_signal in ground (arith, items, one),
        ap (λ (c : Closer C). c.listeners) all ∙ one,
      )
