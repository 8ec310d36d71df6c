-- ===== src/Client/Pool/Effects.antt =====
-- What each step of client/pool.go does to the ledger.
use goshire.Client.Pool.Ledger.{away, of_list, with_one, Move, ledger, held}
use goshire.Client.Pool.Ledger.{rests, lends, takes_back, retires, makes, swaps, drops, SameItems}
use mathlib.Core.Quot
use goshire.Base.{
  true, Option, some, none, false, [], ◌+◌, sym, ap, ◌++◌, subst, arith, suc, List-cases, ℕ-cases,
  Bool-cases, ◌≡◌, ℕ, List, refl, inr, inl, ◌∷◌,
}
use goshire.Client.Pool.{
  finish_create, start_return_broken, replacement, finish_send, close_round, after_send, sent,
  plain, time_out, start_return, Insert, start_borrow, receive, Sending, Pool,
}
use goshire.Client.Pool.Count.{
  occurs_sending-Insert, occurs_sending, occurs-append, occurs-Insert, occurs,
}

same_bag : (xs ys : List ℕ) → SameItems xs ys → of_list xs ≡ of_list ys
same_bag xs ys h = Quot.sound h

occurs-held : (x : ℕ) (ss : List Sending) → occurs x (held ss) ≡ occurs_sending x ss
occurs-held x [] = refl
occurs-held x (s ∷ ss) =
    omega (arith, occurs-held x ss, occurs-append x (sent s ∷ after_send s) (held ss))

-- How often a connection is out.
occurs_out :
    (x : ℕ) (ss : List Sending) (rs bs : List ℕ)
    → occurs x (held ss ++ (rs ++ bs)) ≡ occurs_sending x ss + occurs x rs + occurs x bs
occurs_out x ss rs bs =
    omega (arith, occurs-append x (held ss) (rs ++ bs), occurs-append x rs bs, occurs-held x ss)

module _ (p : Pool) where
  -- The ledger after a step that is known.
  to_move : (q r : Pool) → q ≡ r → Move (ledger p) (ledger r) → Move (ledger p) (ledger q)
  to_move q r e m = subst (λ t. Move (ledger p) (ledger t)) (sym e) m

  pub borrow_rests : Move (ledger p) (ledger (start_borrow p))
  borrow_rests = elim (Bool-cases p.shutdown) [
    | inl e ↦ to_move (start_borrow p) p (unfold start_borrow in ground (arith, e)) (rests refl)
    | inr e ↦
        to_move (start_borrow p) (record p { waiting = suc p.waiting })
          (unfold start_borrow in ground (arith, e)) (rests refl)
  ]

  pub timeout_rests : Move (ledger p) (ledger (time_out p))
  timeout_rests = elim (ℕ-cases p.waiting) [
    | inl e ↦ to_move (time_out p) p (unfold time_out in ground (arith, e)) (rests refl)
    | inr (n, e) ↦
        to_move (time_out p) (record p { waiting = n }) (unfold time_out in ground (arith, e))
          (rests refl)
  ]

  pub receive_lends : Move (ledger p) (ledger (receive p))
  unfolding with_one
  receive_lends = elim (ℕ-cases p.waiting) [
    | inl e ↦ to_move (receive p) p (unfold receive in ground (arith, e)) (rests refl)
    | inr (n, e) ↦ elim (List-cases p.clients) [
      | inl f ↦ to_move (receive p) p (unfold receive in ground (arith, e, f)) (rests refl)
      | inr (c, cs, f) ↦
          to_move (receive p) (record p { clients = cs; borrowed = c ∷ p.borrowed; waiting = n })
            (unfold receive in ground (arith, e, f))
            (lends c refl (ap of_list f)
              (same_bag _ _ λ x. omega (
                arith,
                occurs_out x p.returning p.replacing (c ∷ p.borrowed),
                occurs_out x p.returning p.replacing p.borrowed,
              ))
              refl)
    ]
  ]

  -- A send that is over.
  pub send_moves :
      (s : Sending) (rest : List Sending)
      → Insert s rest p.returning
      → Move (ledger p) (ledger (finish_send p s rest))
  unfolding finish_send with_one
  send_moves (plain c) rest i =
      takes_back c refl (same_bag _ _ λ x. omega (arith, occurs-append x p.clients (c ∷ [])))
        (same_bag _ _ λ x. omega (
          arith,
          occurs_out x p.returning p.replacing p.borrowed,
          occurs_out x rest p.replacing p.borrowed,
          occurs_sending-Insert x i,
        ))
        refl
  send_moves (replacement d c) rest i =
      swaps d c refl (same_bag _ _ λ x. omega (arith, occurs-append x p.clients (d ∷ [])))
        (same_bag _ _ λ x. omega (
          arith,
          occurs_out x p.returning p.replacing p.borrowed,
          occurs_out x rest p.replacing p.borrowed,
          occurs_sending-Insert x i,
        ))
        refl

  module _ (c : ℕ) (rest : List ℕ) (i : Insert c rest p.borrowed) where
    -- A borrowed connection is one of those that are out.
    out_one :
        of_list (held p.returning ++ away p)
        ≡ with_one c (of_list (held p.returning ++ (p.replacing ++ rest)))
    unfolding with_one
    out_one = same_bag _ _ λ x. omega (
      arith,
      occurs-Insert x i,
      occurs_out x p.returning p.replacing p.borrowed,
      occurs_out x p.returning p.replacing rest,
    )

    -- A send that has begun holds it.
    sending_one :
        of_list (held p.returning ++ away p)
        ≡ of_list (held (plain c ∷ p.returning) ++ (p.replacing ++ rest))
    sending_one = same_bag _ _ λ x. omega (
      arith,
      occurs-Insert x i,
      occurs_out x p.returning p.replacing p.borrowed,
      occurs_out x (plain c ∷ p.returning) p.replacing rest,
    )

    -- So does a Create that has begun.
    replacing_one :
        of_list (held p.returning ++ away p)
        ≡ of_list (held p.returning ++ ((c ∷ p.replacing) ++ rest))
    replacing_one = same_bag _ _ λ x. omega (
      arith,
      occurs-Insert x i,
      occurs_out x p.returning p.replacing p.borrowed,
      occurs_out x p.returning (c ∷ p.replacing) rest,
    )

    pub return_moves : Move (ledger p) (ledger (start_return p c rest))
    return_moves = elim (Bool-cases p.shutdown) [
      | inl e ↦
          to_move (start_return p c rest) (record p { borrowed = rest; cleaned = c ∷ p.cleaned })
            (unfold start_return in ground (arith, e))
            (retires c e e refl out_one (unfold with_one in refl))
      | inr e ↦
          to_move (start_return p c rest)
            (record p { borrowed = rest; returning = plain c ∷ p.returning })
            (unfold start_return in ground (arith, e))
            (rests (ap (λ b. record (ledger p) { out = b }) sending_one))
    ]

    pub broken_moves : Move (ledger p) (ledger (start_return_broken p c rest))
    broken_moves = elim (Bool-cases p.shutdown) [
      | inl e ↦
          to_move (start_return_broken p c rest)
            (record p { borrowed = rest; cleaned = c ∷ p.cleaned })
            (unfold start_return_broken in ground (arith, e))
            (retires c e e refl out_one (unfold with_one in refl))
      | inr e ↦
          to_move (start_return_broken p c rest)
            (record p { borrowed = rest; replacing = c ∷ p.replacing })
            (unfold start_return_broken in ground (arith, e))
            (rests (ap (λ b. record (ledger p) { out = b }) replacing_one))
    ]

  module _ (c : ℕ) (rest : List ℕ) (i : Insert c rest p.replacing) where
    replaced_one :
        of_list (held p.returning ++ away p)
        ≡ with_one c (of_list (held p.returning ++ (rest ++ p.borrowed)))
    unfolding with_one
    replaced_one = same_bag _ _ λ x. omega (
      arith,
      occurs-Insert x i,
      occurs_out x p.returning p.replacing p.borrowed,
      occurs_out x p.returning rest p.borrowed,
    )

    sending_back :
        of_list (held p.returning ++ away p)
        ≡ of_list (held (plain c ∷ p.returning) ++ (rest ++ p.borrowed))
    sending_back = same_bag _ _ λ x. omega (
      arith,
      occurs-Insert x i,
      occurs_out x p.returning p.replacing p.borrowed,
      occurs_out x (plain c ∷ p.returning) rest p.borrowed,
    )

    fresh_one :
        (d : ℕ)
        → of_list (held (replacement d c ∷ p.returning) ++ (rest ++ p.borrowed))
          ≡ with_one d (of_list (held p.returning ++ away p))
    unfolding with_one
    fresh_one d = same_bag _ _ λ x. omega (
      arith,
      occurs-Insert x i,
      occurs_out x p.returning p.replacing p.borrowed,
      occurs_out x (replacement d c ∷ p.returning) rest p.borrowed,
    )

    pub create_moves : (fresh : Option ℕ) → Move (ledger p) (ledger (finish_create p c rest fresh))
    create_moves none = elim (Bool-cases p.shutdown) [
      | inl e ↦
          to_move (finish_create p c rest none)
            (record p { replacing = rest; cleaned = c ∷ p.cleaned })
            (unfold finish_create in ground (arith, e))
            (retires c e e refl replaced_one (unfold with_one in refl))
      | inr e ↦
          to_move (finish_create p c rest none)
            (record p { replacing = rest; returning = plain c ∷ p.returning })
            (unfold finish_create in ground (arith, e))
            (rests (ap (λ b. record (ledger p) { out = b }) sending_back))
    ]
    create_moves (some d) = unfold finish_create in makes d refl refl (fresh_one d) refl

  pub drain_moves : p.shutdown ≡ true → Move (ledger p) (ledger (close_round p))
  drain_moves shut = elim (List-cases p.clients) [
    | inl f ↦
        to_move (close_round p) (record p { closing = false })
          (unfold close_round in ground (arith, f)) (rests refl)
    | inr (c, cs, f) ↦
        to_move (close_round p) (record p { clients = cs; cleaned = c ∷ p.cleaned })
          (unfold close_round in ground (arith, f))
          (unfold with_one in drops c shut shut (ap of_list f) refl refl)
  ]
