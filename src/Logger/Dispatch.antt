-- ===== src/Logger/Dispatch.antt =====
-- What the dispatch of an event in log/logger.go puts into the channels of the listeners.
use Prim.Native.Nat.{min}
use goshire.Base.{
  ◌-◌, ◌++◌, append_assoc, append-nil, sym, ◌∙◌, ap, false, true, ◌+◌, arith, ◌==◌, if◌then◌else◌,
  Bool-cases, ℕ, List, suc, zero, refl, inr, inl, ◌∷◌, [], ◌≡◌,
}
use goshire.Logger.{LoggerEvent, Channel, unlisten, accepted, send, dispatch}

-- How often the channel listens.
abbrev pub listens : ℕ → List ℕ → ℕ
listens c [] = 0
listens c (d ∷ outchans) = (if d == c then 1 else 0) + listens c outchans

-- The channel, offered the event `n` times.
abbrev offered : LoggerEvent → ℕ → Channel → Channel
offered e zero ch = ch
offered e (suc n) ch = offered e n (accepted e ch.room ch)

-- Every channel of the store, offered the event as often as it listens.
abbrev all_offered : LoggerEvent → List ℕ → List Channel → List Channel
all_offered e outchans [] = []
all_offered e outchans (ch ∷ store) =
    offered e (listens ch.id outchans) ch ∷ all_offered e outchans store

accepted_id : (e : LoggerEvent) (n : ℕ) (ch : Channel) → (accepted e n ch).id ≡ ch.id
accepted_id e zero ch = refl
accepted_id e (suc n) ch = refl

module _ (e : LoggerEvent) (out : ℕ) (ch : Channel) (store : List Channel) (outchans : List ℕ) where
  send_here :
      (ch.id == out) ≡ true → send e out (ch ∷ store) ≡ accepted e ch.room ch ∷ send e out store
  send_here h = unfold send in ground (arith, h)

  send_past : (ch.id == out) ≡ false → send e out (ch ∷ store) ≡ ch ∷ send e out store
  send_past h = unfold send in ground (arith, h)

  listens_here :
      (ch.id == out) ≡ true → listens ch.id (out ∷ outchans) ≡ suc (listens ch.id outchans)
  listens_here h = ground (arith, h)

  listens_past : (ch.id == out) ≡ false → listens ch.id (out ∷ outchans) ≡ listens ch.id outchans
  listens_past h = ground (arith, h)

offered-send :
    (e : LoggerEvent) (out : ℕ) (outchans : List ℕ) (store : List Channel)
    → all_offered e outchans (send e out store) ≡ all_offered e (out ∷ outchans) store
offered-send e out outchans [] = unfold send in refl
offered-send e out outchans (ch ∷ store) = elim (Bool-cases (ch.id == out)) [
  | inl same ↦
      ap (all_offered e outchans) (send_here e out ch store outchans same)
      ∙ ap
          (λ i.
            offered e (listens i outchans) (accepted e ch.room ch)
            ∷ all_offered e outchans (send e out store))
          (accepted_id e ch.room ch)
      ∙ ap (λ t. offered e (listens ch.id outchans) (accepted e ch.room ch) ∷ t)
          (offered-send e out outchans store)
      ∙ sym (
          ap (λ n. offered e n ch ∷ all_offered e (out ∷ outchans) store)
            (listens_here e out ch store outchans same))
  | inr other ↦
      ap (all_offered e outchans) (send_past e out ch store outchans other)
      ∙ ap (λ t. offered e (listens ch.id outchans) ch ∷ t) (offered-send e out outchans store)
      ∙ sym (
          ap (λ n. offered e n ch ∷ all_offered e (out ∷ outchans) store)
            (listens_past e out ch store outchans other))
]

none_offered : (e : LoggerEvent) (store : List Channel) → store ≡ all_offered e [] store
none_offered e [] = refl
none_offered e (ch ∷ store) = ap (λ t. ch ∷ t) (none_offered e store)

dispatch-all_offered :
    (e : LoggerEvent) (outchans : List ℕ) (store : List Channel)
    → dispatch e outchans store ≡ all_offered e outchans store
unfolding dispatch
dispatch-all_offered e [] store = none_offered e store
dispatch-all_offered e (out ∷ outchans) store =
    dispatch-all_offered e outchans (send e out store) ∙ offered-send e out outchans store

listens-unlisten :
    (c d : ℕ) (outchans : List ℕ)
    → listens c (unlisten outchans d) ≡ (if d == c then 0 else listens c outchans)
unfolding unlisten
listens-unlisten c d [] = ground arith
listens-unlisten c d (o ∷ outchans) = ground (arith, listens-unlisten c d outchans)

abbrev pub copies : ℕ → LoggerEvent → List LoggerEvent
copies zero e = []
copies (suc n) e = e ∷ copies n e

-- Every channel holds what it held and then the event once for each time that it listens, up to its
-- room, of which so much is taken.
abbrev pub all_told : LoggerEvent → List ℕ → List Channel → List Channel
all_told e outchans [] = []
all_told e outchans (ch ∷ store) =
    let n = listens ch.id outchans in
    record { id = ch.id; held = ch.held ++ copies (min n ch.room) e; room = ch.room - n }
    ∷ all_told e outchans store

-- A channel that holds `n` copies more.
abbrev behind : LoggerEvent → ℕ → List LoggerEvent → ℕ → ℕ → Channel
behind e id held n room = record { id = id; held = held ++ copies n e; room = room }

offered-copies :
    (e : LoggerEvent) (n id room : ℕ) (held : List LoggerEvent)
    → offered e n (record { id = id; held = held; room = room })
      ≡ record { id = id; held = held ++ copies (min n room) e; room = room - n }
offered-copies e zero id room held =
    let none_held : min 0 room ≡ 0 = omega arith in
    ap (λ l. record { id = id; held = l; room = room }) (sym (append-nil held))
    ∙ ap (λ n. behind e id held n room) (sym none_held)
    ∙ ap (behind e id held (min 0 room)) (omega arith)
offered-copies e (suc n) id zero held =
    let none_held : min n 0 ≡ min (suc n) 0 = omega arith in
    offered-copies e n id zero held
    ∙ ap (λ m. behind e id held m (0 - n)) none_held
    ∙ ap (behind e id held (min (suc n) 0)) (omega arith)
offered-copies e (suc n) id (suc room) held =
    let one_more : suc (min n room) ≡ min (suc n) (suc room) = omega arith in
    offered-copies e n id room (held ++ e ∷ [])
    ∙ ap (λ l. record { id = id; held = l; room = room - n })
        (append_assoc held (e ∷ []) (copies (min n room) e))
    ∙ ap (λ m. behind e id held m (room - n)) one_more
    ∙ ap (behind e id held (min (suc n) (suc room))) (omega arith)

all_offered-all_told :
    (e : LoggerEvent) (outchans : List ℕ) (store : List Channel)
    → all_offered e outchans store ≡ all_told e outchans store
all_offered-all_told e outchans [] = refl
all_offered-all_told e outchans (ch ∷ store) = cc (
  offered-copies e (listens ch.id outchans) ch.id ch.room ch.held,
  all_offered-all_told e outchans store,
)

-- Dispatching an event puts it behind what a channel holds, once for each time that the channel
-- listens and as long as there is room, and drops it for the rest; a channel that does not listen is as
-- it was. After Unlisten a channel no longer listens, however often it had been registered, and every
-- other channel listens as often as before.
pub dispatch_lem :
    (e : LoggerEvent) (outchans : List ℕ) (store : List Channel) (d : ℕ)
    → (dispatch e outchans store ≡ all_told e outchans store)
      × ((c : ℕ) → listens c (unlisten outchans d) ≡ (if d == c then 0 else listens c outchans))
dispatch_lem e outchans store d = (
  dispatch-all_offered e outchans store ∙ all_offered-all_told e outchans store,
  λ c. listens-unlisten c d outchans,
)
