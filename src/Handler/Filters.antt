-- ===== src/Handler/Filters.antt =====
-- The filter stack of HandleRequest and of Txn.Write, in cheshire/controllers.go.
use goshire.Base.{
  some, none, append-nil, sym, subst, ap, true, false, List, [], ◌∷◌, ◌++◌, Option, ◌≡◌, refl, ◌⊎◌,
  inl, inr, Bool-cases, ◌∙◌,
}
use goshire.Handler.{
  Response, txn_write, before_writes, after_writes, Filter, run_filters, handle_request,
  all_filters,
}

module _ {W : Type 0} where
  -- Every filter of the list in turn lets the request pass, from the first state to the second.
  pub data Passed : List (Filter W) → W → W → Type 0 where
    nothing : {w : W} → Passed [] w w
    passes :
        {f : Filter W} {fs : List (Filter W)} {w w' w'' : W}
        → f.before w ≡ (w', true)
        → Passed fs w' w''
        → Passed (f ∷ fs) w w''

  -- The filters up to the first that stops the request, the state that it leaves, and those after it.
  pub record Stopped (filters : List (Filter W)) (w end : W) : Type 0 where
    pub before : List (Filter W)
    pub filter : Filter W
    pub after : List (Filter W)
    pub split : filters ≡ before ++ filter ∷ after
    pub reached : W
    pub passed : Passed before w reached
    pub refused : filter.before reached ≡ (end, false)

  further :
      (f : Filter W) (fs : List (Filter W)) (w w' end : W)
      → f.before w ≡ (w', true)
      → Stopped fs w' end
      → Stopped (f ∷ fs) w end
  further f fs w w' end e s = record {
    before = f ∷ s.before;
    filter = s.filter;
    after = s.after;
    split = ap (λ t. f ∷ t) s.split;
    reached = s.reached;
    passed = passes e s.passed;
    refused = s.refused;
  }

  at_once :
      (f : Filter W) (fs : List (Filter W)) (w end : W)
      → f.before w ≡ (end, false)
      → Stopped (f ∷ fs) w end
  at_once f fs w end e = record {
    before = [];
    filter = f;
    after = fs;
    split = refl;
    reached = w;
    passed = nothing;
    refused = e;
  }

  -- One filter of the loop, on either result.
  module _ (f : Filter W) (fs : List (Filter W)) (handle : W → W) (w w' : W) where
    run_passes : f.before w ≡ (w', true) → run_filters (f ∷ fs) handle w ≡ run_filters fs handle w'
    run_passes e = unfold run_filters in rw e refl

    run_stops : f.before w ≡ (w', false) → run_filters (f ∷ fs) handle w ≡ w'
    run_stops e = unfold run_filters in rw e refl

  pub run_filters_lem :
      (fs : List (Filter W)) (handle : W → W) (w : W)
      → ((w' : W) × Passed fs w w' × (run_filters fs handle w ≡ handle w'))
        ⊎ Stopped fs w (run_filters fs handle w)
  run_filters_lem [] handle w = inl (w, nothing, unfold run_filters in refl)
  run_filters_lem (f ∷ fs) handle w = elim (Bool-cases (f.before w).1) [
    | inl go_on ↦
        let step : f.before w ≡ ((f.before w).0, true) = ap (λ b. ((f.before w).0, b)) go_on in
        let same = run_passes f fs handle w (f.before w).0 step in
        elim (run_filters_lem fs handle (f.before w).0) [
          | inl (w', p, e) ↦ inl (w', passes step p, same ∙ e)
          | inr s ↦ inr (subst (Stopped (f ∷ fs) w) (sym same) (further f fs w _ _ step s))
        ]
    | inr refused ↦
        let step : f.before w ≡ ((f.before w).0, false) = ap (λ b. ((f.before w).0, b)) refused in
        inr (
          subst (Stopped (f ∷ fs) w) (sym (run_stops f fs handle w (f.before w).0 step))
            (at_once f fs w _ step))
  ]

  -- The controller's filters; it has none without a Config.
  abbrev pub own_filters : Option (List (Filter W)) → List (Filter W)
  own_filters none = []
  own_filters (some own) = own

  all_filters-append :
      (server : List (Filter W)) (own : Option (List (Filter W)))
      → all_filters server own ≡ server ++ own_filters own
  all_filters-append server none = sym (append-nil server)
  all_filters-append server (some own) = refl

  -- HandleRequest runs the server's filters and then the controller's, in order, each on the state
  -- that the one before left. Either all let the request pass, and the controller handles it in the
  -- state of the last; or one refuses it, the filters after it and the controller are not called, and
  -- its state is the last.
  pub handle_request_lem :
      (server : List (Filter W)) (own : Option (List (Filter W))) (handle : List (Filter W) → W → W)
      (w : W)
      → ((w' : W) × Passed (server ++ own_filters own) w w'
          × (handle_request server own handle w ≡ handle (server ++ own_filters own) w'))
        ⊎ Stopped (server ++ own_filters own) w (handle_request server own handle w)
  unfolding handle_request
  handle_request_lem server own handle w =
      subst
        (λ fs.
          ((w' : W) × Passed fs w w' × (handle_request server own handle w ≡ handle fs w'))
          ⊎ Stopped fs w (handle_request server own handle w))
        (all_filters-append server own)
        (run_filters_lem (all_filters server own) (handle (all_filters server own)) w)

  before_writes-append :
      (fs gs : List (Filter W)) (r : Response) (w : W)
      → before_writes (fs ++ gs) r w
        ≡ before_writes gs (before_writes fs r w).0 (before_writes fs r w).1
  unfolding before_writes
  before_writes-append [] gs r w = refl
  before_writes-append (f ∷ fs) gs r w = before_writes-append fs gs _ _

  after_writes-append :
      (fs gs : List (Filter W)) (r : Response) (w : W)
      → after_writes (fs ++ gs) r w
        ≡ after_writes gs (after_writes fs r w).0 (after_writes fs r w).1
  unfolding after_writes
  after_writes-append [] gs r w = refl
  after_writes-append (f ∷ fs) gs r w = after_writes-append fs gs _ _

  -- Txn.Write with two filter lists in a row: the hooks before the write of the first list run, then
  -- those of the second, on the response and the state that the first left; the same order holds for
  -- the hooks after the write, which get the response as the hooks before it left it.
  txn_write-append :
      {R : Type 0} (fs gs : List (Filter W)) (write : Response → W → R × W) (r : Response) (w : W)
      → txn_write (fs ++ gs) write r w ≡ (
          let (r1, w1) = before_writes fs r w in
          let (r2, w2) = before_writes gs r1 w1 in
          let (c, w3) = write r2 w2 in
          let (r3, w4) = after_writes fs r2 w3 in
          let (r4, w5) = after_writes gs r3 w4 in (c, r4, w5))
  unfolding txn_write
  txn_write-append fs gs write r w =
      rw (before_writes-append fs gs r w, after_writes-append fs gs) refl
