-- ===== src/Strest/Responses.antt =====
-- The values of a response that NewResponseDynMap of cheshire/strestpackets.go makes of a map.
use goshire.Base.{◌≡◌, ◌∙◌, none, Option-cases, inl, inr, arith, if◌then◌else◌}
use goshire.Text.{Str, codes, str_eq, str_eq_iff}
use goshire.DynMap.Fields.{Value, Fields, lookup, remove, lookup-delete}
use goshire.Strest.Convert.{new_response_dyn_map}

pub lookup-remove :
    (k j : Str) (m : Fields) → lookup j (remove k m).1 ≡ (if str_eq k j then none else lookup j m)
unfolding remove
lookup-remove k j m = elim (Option-cases (lookup k m)) [
  | inl e ↦ ground (arith, e, str_eq_iff k j)
  | inr (v, e) ↦ ground (arith, e, lookup-delete k j m)
]

-- The values of the response are the entries of the map but for "strest" and "status", which are taken
-- out of it.
new_response_values :
    (sprint : Value → Str) (m : Fields) (key : Str)
    → lookup key (new_response_dyn_map sprint m).values ≡ (
        if str_eq (codes "strest") key
        then none
        else if str_eq (codes "status") key
        then none
        else lookup key m)
unfolding new_response_dyn_map
new_response_values sprint m key =
    lookup-remove (codes "status") key (remove (codes "strest") m).1
    ∙ ground (arith, lookup-remove (codes "strest") key m)
