-- ===== src/DynMap/Tests.antt =====
-- The theorems about dotted keys at a map with a map inside it.
use goshire.Base.{◌≡◌, some, pos, if◌then◌else◌, refl}
use goshire.Text.{codes, split, str_eq}
use goshire.DynMap.Fields.{Fields, end, field, map, int, str, lookup}
use goshire.DynMap.Path.{get, put_path, put_with_dot}
use goshire.DynMap.Path.Laws.{is_dotted, or_else, get-put_with_dot, put_with_dot_error}

-- {"a": {"b": 1}, "c": "x"}
abbrev nested : Fields
nested =
    field (codes "a") (map (field (codes "b") (int (pos 1)) end))
      (field (codes "c") (str (codes "x")) end)

get-put_with_dot_example :
    get (put_with_dot nested (codes "a.d") (int (pos 2))).0 (codes "a.d")
    ≡ some (
        if is_dotted (codes "a.d")
        then or_else (lookup (codes "a.d") nested) (int (pos 2))
        else int (pos 2))
unfolding put_with_dot put_path split lookup str_eq
get-put_with_dot_example = get-put_with_dot nested (codes "a.d") (int (pos 2)) refl

put_with_dot_error_example : (put_with_dot nested (codes "c.d") (int (pos 2))).0 ≡ nested
unfolding put_with_dot put_path split lookup str_eq
put_with_dot_error_example = put_with_dot_error nested (codes "c.d") (int (pos 2)) refl
