-- ===== src/Client/Conn/Requests.antt =====
-- The map of requests of a connection, in client/connection.go: each txn id stands once.
use goshire.Base.{
  refl, [], inr, inl, some, Bool-cases, ◌∷◌, true, none, if◌then◌else◌, false, arith, List, ◌≡◌,
}
use goshire.Text.{Str, str_eq, str_eq_iff}
use goshire.Client.Conn.{Call, find, forget, remember}

-- Each txn id stands once.
abbrev pub IsKeyed : List Call → Type 0
IsKeyed [] = Unit
IsKeyed (c ∷ cs) = (find c.txn_id cs ≡ none) × IsKeyed cs

pub find-forget_other :
    (id other : Str) (cs : List Call)
    → str_eq id other ≡ false
    → find other (forget id cs) ≡ find other cs
unfolding find forget
find-forget_other id other [] h = refl
find-forget_other id other (c ∷ cs) h = ground (
  arith,
  find-forget_other id other cs h,
  str_eq_iff c.txn_id id,
  str_eq_iff c.txn_id other,
  str_eq_iff id other,
)

pub find-forget_self : (id : Str) (cs : List Call) → IsKeyed cs → find id (forget id cs) ≡ none
unfolding find forget
find-forget_self id [] u = refl
find-forget_self id (c ∷ cs) (fresh, u) =
    ground (arith, find-forget_self id cs u, str_eq_iff c.txn_id id, fresh)

pub find-remember :
    (d : Call) (id : Str) (cs : List Call)
    → find id (remember d cs) ≡ (if str_eq d.txn_id id then some d else find id cs)
unfolding find remember
find-remember d id [] = refl
find-remember d id (c ∷ cs) = ground (
  arith,
  find-remember d id cs,
  str_eq_iff c.txn_id d.txn_id,
  str_eq_iff c.txn_id id,
  str_eq_iff d.txn_id id,
)

find-forget-none :
    (id other : Str) (cs : List Call) → find other cs ≡ none → find other (forget id cs) ≡ none
unfolding find forget
find-forget-none id other [] h = refl
find-forget-none id other (c ∷ cs) h = ground (arith, find-forget-none id other cs)

pub IsKeyed-forget : (id : Str) (cs : List Call) → IsKeyed cs → IsKeyed (forget id cs)
unfolding forget
IsKeyed-forget id [] u = u
IsKeyed-forget id (c ∷ cs) (fresh, u) = elim (Bool-cases (str_eq c.txn_id id)) [
  | inl same ↦ ground (arith, same)
  | inr other ↦ ground (arith, other, IsKeyed-forget id cs u, find-forget-none id c.txn_id cs fresh)
]

pub IsKeyed-remember : (d : Call) (cs : List Call) → IsKeyed cs → IsKeyed (remember d cs)
unfolding remember find
IsKeyed-remember d [] u = ground arith
IsKeyed-remember d (c ∷ cs) (fresh, u) = elim (Bool-cases (str_eq c.txn_id d.txn_id)) [
  | inl same ↦ ground (arith, same, fresh, u, str_eq_iff c.txn_id d.txn_id)
  | inr other ↦ ground (
    arith,
    other,
    IsKeyed-remember d cs u,
    find-remember d c.txn_id cs,
    str_eq_iff c.txn_id d.txn_id,
    str_eq_iff d.txn_id c.txn_id,
  )
]

-- The second request under a txn id takes the place of the first: nothing is left of the first.
pub remember-remember :
    (c d : Call) (cs : List Call)
    → str_eq c.txn_id d.txn_id ≡ true
    → remember d (remember c cs) ≡ remember d cs
unfolding remember
remember-remember c d [] h = ground arith
remember-remember c d (e ∷ cs) h = ground (
  arith,
  remember-remember c d cs h,
  str_eq_iff c.txn_id d.txn_id,
  str_eq_iff e.txn_id c.txn_id,
  str_eq_iff e.txn_id d.txn_id,
)
