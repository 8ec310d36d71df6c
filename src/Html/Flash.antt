-- ===== src/Html/Flash.antt =====
-- Flash and contxt of cheshire/html.go: a flash is shown once.
use goshire.Html.{flash, contxt}
use goshire.DynMap.Slices.{IsSlice, add_to_slice_lem}
use goshire.DynMap.Fields.{
  map, other, end, str, list, dynmap, maps, Items, no_items, item, to_map, Rows, no_rows, row,
  Fields, lookup, put, lookup-put,
}
use goshire.DynMap.Path.{append_item}
use goshire.DynMap.Path.Laws.{get-plain}
use goshire.DynMap.Getters.{rows_of, get_dyn_map_slice}
use goshire.Strest.Responses.{lookup-remove}
use goshire.Base.{sym, arith, ◌∙◌, ap, Option-cases, none, inl, ◌≡◌, List, some, refl, inr, ◌∷◌, []}
use goshire.Text.{str_eq_self, str_eq, split, codes, Str}

-- A severity and a message.
abbrev pub Message : Type 0
Message = Str × Str

-- The map that Flash makes of a message.
abbrev pub flash_row : Message → Fields
flash_row (severity, message) =
    put (codes "message") (str message) (put (codes "severity") (str severity) end)

-- Flash, for each message in turn.
abbrev pub flash_all : Fields → List Message → Fields
flash_all session [] = session
flash_all session ((severity, message) ∷ fs) = flash_all (flash session severity message) fs

abbrev pub flash_rows : List Message → Rows
flash_rows [] = no_rows
flash_rows (f ∷ fs) = row (flash_row f) (flash_rows fs)

abbrev items_after : Items → List Message → Items
items_after ys [] = ys
items_after ys (f ∷ fs) = items_after (append_item ys (dynmap (flash_row f))) fs

key_plain : split b'.' (codes "_flash") ≡ codes "_flash" ∷ []
unfolding split
key_plain = refl

flash-lookup :
    (session : Fields) (f : Message) (ys : Items)
    → IsSlice session (codes "_flash") ys
    → lookup (codes "_flash") (flash session f.0 f.1)
      ≡ some (list (append_item ys (dynmap (flash_row f))))
unfolding flash
flash-lookup session f ys h =
    (add_to_slice_lem (codes "_flash") key_plain session (dynmap (flash_row f)) ys h).0

flash_all_lem :
    (session : Fields) (f : Message) (fs : List Message) (ys : Items)
    → IsSlice session (codes "_flash") ys
    → lookup (codes "_flash") (flash_all session (f ∷ fs)) ≡ some (list (items_after ys (f ∷ fs)))
flash_all_lem session f [] ys h = flash-lookup session f ys h
flash_all_lem session f (g ∷ fs) ys h =
    flash_all_lem (flash session f.0 f.1) g fs (append_item ys (dynmap (flash_row f)))
      (inr (flash-lookup session f ys h))

abbrev append_rows : Rows → Rows → Rows
append_rows no_rows ss = ss
append_rows (row r rs) ss = row r (append_rows rs ss)

rows-append_item :
    (ys : Items) (rs : Rows) (m : Fields)
    → rows_of ys ≡ some rs
    → rows_of (append_item ys (dynmap m)) ≡ some (append_rows rs (row m no_rows))
unfolding rows_of append_item
rows-append_item no_items rs m e = cc e
rows-append_item (item v vs) no_rows m e = elim (Option-cases (to_map v)) [
  | inl no_map ↦ ground (arith, e, no_map)
  | inr (q, found) ↦ elim (Option-cases (rows_of vs)) [
    | inl bad ↦ ground (arith, e, found, bad)
    | inr (rs, rest) ↦ ground (arith, e, found, rest)
  ]
]
rows-append_item (item v vs) (row p rs) m e = elim (Option-cases (to_map v)) [
  | inl no_map ↦ ground (arith, e, no_map)
  | inr (q, found) ↦ elim (Option-cases (rows_of vs)) [
    | inl bad ↦ ground (arith, e, found, bad)
    | inr (ss, rest) ↦
        let same : ss ≡ rs = ground (arith, e, found, rest) in
        let more = rows-append_item vs rs m (rest ∙ ap some same) in
        ground (arith, e, found, rest, more)
  ]
]

append_rows_assoc :
    (xs ys zs : Rows) → append_rows (append_rows xs ys) zs ≡ append_rows xs (append_rows ys zs)
append_rows_assoc no_rows ys zs = refl
append_rows_assoc (row x xs) ys zs = ap (row x) (append_rows_assoc xs ys zs)

append_no_rows : (xs : Rows) → append_rows xs no_rows ≡ xs
append_no_rows no_rows = refl
append_no_rows (row x xs) = ap (row x) (append_no_rows xs)

rows-items_after :
    (ys : Items) (rs : Rows) (fs : List Message)
    → rows_of ys ≡ some rs
    → rows_of (items_after ys fs) ≡ some (append_rows rs (flash_rows fs))
rows-items_after ys rs [] e = e ∙ ap some (sym (append_no_rows rs))
rows-items_after ys rs (f ∷ fs) e =
    rows-items_after (append_item ys (dynmap (flash_row f)))
      (append_rows rs (row (flash_row f) no_rows)) fs (rows-append_item ys rs (flash_row f) e)
    ∙ ap some (append_rows_assoc rs (row (flash_row f) no_rows) (flash_rows fs))

-- The flashes that contxt finds in a session.
found_rows :
    (session : Fields) (f : Message) (fs : List Message)
    → lookup (codes "_flash") session ≡ none
    → get_dyn_map_slice (flash_all session (f ∷ fs)) (codes "_flash") ≡ some (flash_rows (f ∷ fs))
unfolding get_dyn_map_slice
found_rows session f fs e =
    let there = flash_all_lem session f fs no_items (inl (e, refl)) in
    let rows = rows-items_after no_items no_rows (f ∷ fs) (unfold rows_of in refl) in
    let got = get-plain (codes "_flash") key_plain (flash_all session (f ∷ fs)) ∙ there in
    ground (arith, got, rows)

module _ (request : Str) (params context session : Fields) where
  -- The session after contxt has no flashes.
  flash_removed : lookup (codes "_flash") (contxt request params context session).1 ≡ none
  unfolding contxt
  flash_removed =
      lookup-remove (codes "_flash") (codes "_flash") session
      ∙ ground (arith, str_eq_self (codes "_flash"))

  flash_put :
      (rows : Rows)
      → get_dyn_map_slice session (codes "_flash") ≡ some rows
      → lookup (codes "flash") (contxt request params context session).0 ≡ some (maps rows)
  unfolding contxt
  flash_put rows e =
      let b = put (codes "params") (map params) (put (codes "request") (other request) context) in
      ground (
        arith,
        e,
        lookup-put (codes "flash") (codes "flash") (maps rows) b,
        str_eq_self (codes "flash"),
      )

  flash_absent :
      lookup (codes "_flash") session ≡ none
      → lookup (codes "flash") (contxt request params context session).0
        ≡ lookup (codes "flash") context
  unfolding contxt get_dyn_map_slice
  flash_absent e =
      let got = get-plain (codes "_flash") key_plain session ∙ e in
      let a = put (codes "request") (other request) context in
      let over_params : lookup (codes "flash") (put (codes "params") (map params) a)
          ≡ lookup (codes "flash") a =
        lookup-put (codes "params") (codes "flash") (map params) a ∙ unfold str_eq in refl in
      let over_request : lookup (codes "flash") a ≡ lookup (codes "flash") context =
        lookup-put (codes "request") (codes "flash") (other request) context
        ∙ unfold str_eq in refl in
      ground (arith, got, over_params, over_request)

-- The messages of Flash on a session that has none are shown once: the next page finds them all in its
-- context under "flash", in the order of the calls, each with its severity and message; and a page
-- after it, on the session that the first left, finds under "flash" what its own context has there.
pub flash_all_once :
    (session : Fields) (f : Message) (fs : List Message) (request later : Str)
    (params context params' context' : Fields)
    → lookup (codes "_flash") session ≡ none
    → (lookup (codes "flash") (contxt request params context (flash_all session (f ∷ fs))).0
        ≡ some (maps (flash_rows (f ∷ fs))))
      × (lookup
            (codes "flash")
            (contxt later params' context'
              (contxt request params context (flash_all session (f ∷ fs))).1).0
          ≡ lookup (codes "flash") context')
flash_all_once session f fs request later params context params' context' e =
    let all = flash_all session (f ∷ fs) in
    (
      flash_put request params context all (flash_rows (f ∷ fs)) (found_rows session f fs e),
      flash_absent later params' context' (contxt request params context all).1
          (flash_removed request params context all),
    )
