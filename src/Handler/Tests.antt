-- ===== src/Handler/Tests.antt =====
-- The theorems about filters and handlers at two filters that count.
use goshire.Base.{ℕ, ◌+◌, ◌≡◌, ◌⊎◌, true, false, [], ◌∷◌, some, none}
use goshire.Handler.{Filter, handle_request}
use goshire.Handler.Filters.{Passed, Stopped, handle_request_lem}

-- Lets every request pass, and counts its calls.
abbrev counting : Filter ℕ
counting = record {
  before = λ n. (n + 1, true);
  hooks = some (record { before_write = λ r n. (r, n + 10); after_write = λ r n. (r, n + 100) });
}

-- Stops every request.
abbrev closed : Filter ℕ
closed = record { before = λ n. (n + 1000, false); hooks = none }

handle_request_lem_example :
    ((n : ℕ) × Passed (counting ∷ closed ∷ []) 0 n
      × (handle_request (counting ∷ []) (some (closed ∷ [])) (λ fs n. n) 0 ≡ n))
    ⊎ Stopped
        (counting ∷ closed ∷ [])
        0
        (handle_request (counting ∷ []) (some (closed ∷ [])) (λ fs n. n) 0)
handle_request_lem_example = handle_request_lem (counting ∷ []) (some (closed ∷ [])) (λ fs n. n) 0
