-- ===== src/Bootstrap/Controllers.antt =====
-- InitControllers of cheshire/bootstrap.go: everything in the queue is found, and so is /ping.
use goshire.Bootstrap.Keeps.{
  KeepsRoutes, register_keeps, Keeps-self, keeps_trans, IsListed, listed_stays,
}
use goshire.Base.{
  ◌∙◌, ap, sym, arith, Bool-cases, subst, ◌||◌, All, ◌≡◌, if◌then◌else◌, ℕ, List, Bool, false, true,
  refl, inr, inl, ◌∷◌, [],
}
use goshire.Router.{mux_of, match, RegisterPanic, Router}
use goshire.Bootstrap.{
  get_string, exists, init_web_sockets, init_static_files, and_then, Fields, run_init_methods,
  Value, Registered, ping_controller, panicked, registered, register, init_controllers, codes,
  str_eq, register_all, Controller, ControllerWrapper,
}
use goshire.Text.{str_eq_self, Str}
use goshire.Router.Register.{router_of, entry_of, Registered-cases, IsValid}
use goshire.Handler.Dispatch.{names_method}
use goshire.Router.Found.{register-IsValid, match_exact}

-- `Match` finds the controller, by its own route, for every one of the methods.
abbrev pub IsFound : Router → List Str → Controller → Type 0
IsFound r methods c = (m : Str) → names_method methods m ≡ true → match r m c.route ≡ c

module _ {H F : Type 0} where
  abbrev pub AreListed : Router → List (ControllerWrapper H F) → Type 0
  AreListed r queue =
      All (λ w. (m : Str) → names_method w.methods m ≡ true → IsListed r m w.c) queue

  -- Some controller of the queue has the route "/ping".
  abbrev pub has_ping : List (ControllerWrapper H F) → Bool
  has_ping [] = false
  has_ping (w ∷ queue) = str_eq w.c.route (codes "/ping") || has_ping queue

pub found_of_listed :
    (r : Router) (m : Str) (c : Controller) → IsValid r → IsListed r m c → match r m c.route ≡ c
found_of_listed r m c v (w, known, l) = match_exact r m c.route w (entry_of c) v known l

pub registered-IsValid :
    (r r' : Router) (methods : List Str) (c : Controller)
    → IsValid r
    → register r methods c ≡ registered r'
    → IsValid r'
registered-IsValid r r' methods c v e =
    subst (λ g. IsValid (router_of g)) e (register-IsValid r methods c v)

abbrev flag : Bool → Bool → Bool
flag b ping = if b then true else ping

flag_twice : (a b ping : Bool) → flag b (flag a ping) ≡ flag (a || b) ping
flag_twice true true ping = refl
flag_twice true false ping = refl
flag_twice false b ping = refl

names_get : names_method (codes "GET" ∷ []) (codes "GET") ≡ true
names_get = ground (arith, str_eq_self (codes "GET"))

module _ {H F : Type 0} where
  -- What register_all has done where it did not panic.
  record Done (r : Router) (queue : List (ControllerWrapper H F)) (ping : Bool) (r' : Router)
      : Type 0 where
    valid : IsValid r → IsValid r'
    keeps : KeepsRoutes r r'
    listed : AreListed r' queue
    flagged : (register_all r queue ping).1 ≡ flag (has_ping queue) ping

  module _ (r : Router) (w : ControllerWrapper H F) (queue : List (ControllerWrapper H F))
      (ping : Bool) where
    all_goes_on :
        (r' : Router)
        → register r w.methods w.c ≡ registered r'
        → register_all r (w ∷ queue) ping
          ≡ register_all r' queue (flag (str_eq w.c.route (codes "/ping")) ping)
    unfolding register_all
    all_goes_on r' e = rw (e, register_all) refl

    all_stops :
        (p : RegisterPanic) (r' : Router)
        → register r w.methods w.c ≡ panicked p r'
        → register_all r (w ∷ queue) ping ≡ (panicked p r', ping)
    unfolding register_all
    all_stops p r' e = rw (e, register_all) refl

  register_all_lem :
      (r r' : Router) (queue : List (ControllerWrapper H F)) (ping : Bool)
      → (register_all r queue ping).0 ≡ registered r'
      → Done r queue ping r'
  register_all_lem r r' [] ping e =
      unfold register_all in
      let same : r ≡ r' = cc e in
      record {
        valid = subst IsValid same;
        keeps = subst (KeepsRoutes r) same (λ v. Keeps-self (mux_of r v));
        listed = tt;
        flagged = refl;
      }
  register_all_lem r r' (w ∷ queue) ping e = elim (Registered-cases (register r w.methods w.c)) [
    | inl (r1, f) ↦
        let step = all_goes_on r w queue ping r1 f in
        let a = str_eq w.c.route (codes "/ping") in
        let rest = register_all_lem r1 r' queue (flag a ping) (sym (ap (λ t. t.0) step) ∙ e) in
        let one = register_keeps r r1 w.methods w.c f in
        record {
          valid = λ v. rest.valid (registered-IsValid r r1 w.methods w.c v f);
          keeps = keeps_trans r r1 r' one.keeps rest.keeps;
          listed = (λ m h. listed_stays r1 r' m w.c rest.keeps (one.listed m h), rest.listed);
          flagged = ap (λ t. t.1) step ∙ rest.flagged ∙ flag_twice a (has_ping queue) ping;
        }
    | inr (p, r1, f) ↦ cc (all_stops r w queue ping p r1 f, e)
  ]

  IsFound-All :
      (r : Router) (queue : List (ControllerWrapper H F))
      → IsValid r
      → AreListed r queue
      → All (λ w. IsFound r w.methods w.c) queue
  IsFound-All r [] v h = tt
  IsFound-All r (w ∷ queue) v (h, hs) =
      (λ m named. found_of_listed r m w.c v (h m named), IsFound-All r queue v hs)

  listed_all_stay :
      (r r' : Router) (queue : List (ControllerWrapper H F))
      → KeepsRoutes r r'
      → AreListed r queue
      → AreListed r' queue
  listed_all_stay r r' [] k h = tt
  listed_all_stay r r' (w ∷ queue) k (h, hs) =
      (λ m named. listed_stays r r' m w.c k (h m named), listed_all_stay r r' queue k hs)

  -- What InitControllers has done where it did not panic.
  pub record Served (id : ℕ) (r : Router) (queue : List (ControllerWrapper H F)) (r' : Router)
      : Type 0 where
    pub valid : IsValid r'
    pub keeps : KeepsRoutes r r'
    pub listed : AreListed r' queue
    pub ping : has_ping queue ≡ false → IsListed r' (codes "GET") (ping_controller id)

  init_controllers_lem :
      (id : ℕ) (r r' : Router) (queue : List (ControllerWrapper H F))
      → IsValid r
      → init_controllers id r queue ≡ registered r'
      → Served id r queue r'
  init_controllers_lem id r r' queue v e = elim (Registered-cases (register_all r queue false).0) [
    | inl (r1, f) ↦
        let all = register_all_lem r r1 queue false f in
        elim (Bool-cases (has_ping queue)) [
          | inl own ↦
              let same : r1 ≡ r' =
                unfold init_controllers in ground (arith, e, f, all.flagged, own) in
              record {
                valid = subst IsValid same (all.valid v);
                keeps = subst (KeepsRoutes r) same all.keeps;
                listed = subst (λ t. AreListed t queue) same all.listed;
                ping = λ h. cc (own, h);
              }
          | inr default ↦
              let last : register r1 (codes "GET" ∷ []) (ping_controller id) ≡ registered r' =
                unfold init_controllers in ground (arith, e, f, all.flagged, default) in
              let one = register_keeps r1 r' (codes "GET" ∷ []) (ping_controller id) last in
              record {
                valid = registered-IsValid r1 r' _ (ping_controller id) (all.valid v) last;
                keeps = keeps_trans r r1 r' all.keeps one.keeps;
                listed = listed_all_stay r1 r' queue one.keeps all.listed;
                ping = λ h. one.listed (codes "GET") names_get;
              }
        ]
    | inr (p, r1, f) ↦ unfold init_controllers in ground (arith, e, f)
  ]

-- Where it does not panic, the call has only added routes.
abbrev Adds : Router → Registered → Type 0
Adds r g = (r' : Router) → g ≡ registered r' → KeepsRoutes r r' × (IsValid r → IsValid r')

registered-Adds : (r : Router) → Adds r (registered r)
registered-Adds r r' e =
    let same : r ≡ r' = cc e in
    (subst (KeepsRoutes r) same (λ v. Keeps-self (mux_of r v)), subst IsValid same)

register-Adds : (r : Router) (methods : List Str) (c : Controller) → Adds r (register r methods c)
register-Adds r methods c r' e =
    ((register_keeps r r' methods c e).keeps, λ v. registered-IsValid r r' methods c v e)

module _ (sprint : Value → Str) (id : ℕ) (conf : Fields) (r : Router) where
  static_files-Adds : Adds r (init_static_files sprint id conf r)
  unfolding init_static_files
  static_files-Adds = elim (Bool-cases (exists conf (codes "http.static_files.route"))) [
    | inl there ↦ elim (Bool-cases (get_string sprint conf (codes "http.static_files.route")).1) [
      | inl route ↦
          elim (Bool-cases (get_string sprint conf (codes "http.static_files.directory")).1) [
            | inl path ↦ rw (there, route, path) (register-Adds r _ _)
            | inr no_path ↦ rw (there, route, no_path) (registered-Adds r)
          ]
      | inr no_route ↦ rw (there, no_route) (registered-Adds r)
    ]
    | inr absent ↦ rw absent (registered-Adds r)
  ]

  web_sockets-Adds : Adds r (init_web_sockets sprint id conf r)
  unfolding init_web_sockets
  web_sockets-Adds = elim (Bool-cases (exists conf (codes "http.websockets.route"))) [
    | inl there ↦ elim (Bool-cases (get_string sprint conf (codes "http.websockets.route")).1) [
      | inl route ↦ rw (there, route) (register-Adds r _ _)
      | inr no_route ↦ rw (there, no_route) (registered-Adds r)
    ]
    | inr absent ↦ rw absent (registered-Adds r)
  ]

and_then-Adds :
    (r : Router) (g : Registered) (next : Router → Registered)
    → Adds r g
    → ((r1 : Router) → Adds r1 (next r1))
    → Adds r (and_then g next)
and_then-Adds r (registered r1) next h k r' e =
    let (keeps, valid) = h r1 refl in
    let (keeps', valid') = k r1 r' e in (keeps_trans r r1 r' keeps keeps', λ v. valid' (valid v))
and_then-Adds r (panicked p r1) next h k r' e = cc e

and_then_cases :
    (g : Registered) (next : Router → Registered) (r' : Router)
    → and_then g next ≡ registered r'
    → (r1 : Router) × (g ≡ registered r1) × (next r1 ≡ registered r')
and_then_cases (registered r1) next r' e = (r1, refl, e)
and_then_cases (panicked p r1) next r' e = cc e

-- Where the Init methods do not panic, every controller of the queue is found afterwards: for each of
-- its methods, a request for its route goes to it, whatever the others, the static files and the
-- websockets have registered; and where no controller of the queue has the route "/ping", a GET of
-- /ping goes to the ping controller.
pub run_init_methods_lem :
    {H F : Type 0} (sprint : Value → Str) (ids : ℕ × ℕ × ℕ) (conf : Fields) (r r' : Router)
    (queue : List (ControllerWrapper H F))
    → IsValid r
    → run_init_methods sprint ids conf r queue ≡ registered r'
    → All (λ w. IsFound r' w.methods w.c) queue
      × (has_ping queue ≡ false → match r' (codes "GET") (codes "/ping") ≡ ping_controller ids.0)
unfolding run_init_methods
run_init_methods_lem sprint (ping, files, sockets) conf r r' queue v e =
    let (r1, f, g) = and_then_cases (init_controllers ping r queue) _ r' e in
    let served = init_controllers_lem ping r r1 queue v f in
    let (keeps, valid) =
      and_then-Adds r1 (init_static_files sprint files conf r1)
        (init_web_sockets sprint sockets conf) (static_files-Adds sprint files conf r1)
        (web_sockets-Adds sprint sockets conf) r' g in
    let sound = valid served.valid in
    (
      IsFound-All r' queue sound (listed_all_stay r1 r' queue keeps served.listed),
      λ h.
          found_of_listed r' (codes "GET") (ping_controller ping) sound
            (listed_stays r1 r' (codes "GET") (ping_controller ping) keeps (served.ping h)),
    )
