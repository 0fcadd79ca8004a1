-- ===== src/Kernel/Api/Routes/Sessions.antt =====
-- kernel/api/server.go: requests as they arrive, with their tokens, and sequences of them.
use mathlib.Core.Path.{subst}
use pegasus_suite.Prelude.{
  String, ◌≡◌, refl, ap, sym, ◌∙◌, Bool, true, false, Option, none, some, List, [], ◌∷◌, arith,
  if_case,
}
use pegasus_suite.Clients.{Result, ok, Store, result_case}
use pegasus_suite.Kernel.Host.{Host}
use pegasus_suite.Kernel.State.{Kernel}
use pegasus_suite.Kernel.Runs.{exec-IsConsistent}
use pegasus_suite.Kernel.Invariant.{IsConsistent}
use pegasus_suite.Kernel.Api.{Request, Response}
use pegasus_suite.Kernel.Api.Routes.{
  Route, health_route, Access, access, authed, admin_only, open_to_all, handler, behind, serve,
}
use pegasus_suite.Kernel.Api.Routes.Safety.{
  Effect, untouched, on_process, on_runtime, Guarding, handler-Effect,
}
use pegasus_suite.Platform.Claims.{
  Claims, Guarded, refused, passed, has_role, is_admin, require_auth, check_role, require_role,
}

-- a request as it arrives: its route, its bearer token and the rest
pub record Arrival : Type 0 where
  pub route : Route
  pub token : Option String
  pub request : Request

-- a guard lets through the claims that `parse` finds in the token
require_auth-passed :
    (configured : Bool) (token : Option String) (parse : String → Result String Claims) (c : Claims)
    → require_auth configured token parse ≡ passed c
    → (raw : String) × (token ≡ some raw) × (parse raw ≡ ok c)
unfolding require_auth
require_auth-passed false token parse c = λ e. absurd cc
require_auth-passed true none parse c = λ e. absurd cc
require_auth-passed true (some raw) parse c =
    result_case
      (λ (g : Guarded). g ≡ passed c → (t : String) × (some raw ≡ some t) × (parse t ≡ ok c))
      (parse raw) _ _ (λ m f e. absurd cc) (λ found f e. (raw, refl, f ∙ ground (arith, e)))

check_role-passed :
    (role : String) (g : Guarded) (c : Claims)
    → check_role role g ≡ passed c
    → (g ≡ passed c) × (has_role role (some c) ≡ true)
unfolding check_role
check_role-passed role (refused status m) c = λ e. absurd cc
check_role-passed role (passed found) c =
    if_case
      (λ (g : Guarded). g ≡ passed c → (passed found ≡ passed c) × (has_role role (some c) ≡ true))
      (has_role role (some found)) _ _
      (λ b e.
        let same : found ≡ c = ground (arith, e) in
        (ap passed same, ap (λ x. has_role role (some x)) (sym same) ∙ b))
      (λ b e. absurd cc)

by_access {ℓ κ} :
    {A : Type ℓ} (P : A → Type κ) (a : Access) (x y z : A)
    → (a ≡ authed → P x)
    → (a ≡ admin_only → P y)
    → (a ≡ open_to_all → P z)
    → P (elim a [ authed ↦ x | admin_only ↦ y | open_to_all ↦ z ])
by_access P authed x y z p q r = p refl
by_access P admin_only x y z p q r = q refl
by_access P open_to_all x y z p q r = r refl

module _ {st : Store} {h : Host} where
  -- What a request with a token may do to the kernel: nothing, or what the claims that `parse` finds
  -- in the token allow.
  pub data Outcome (parse : String → Result String Claims) (token : Option String) (k : Kernel st h)
      : Kernel st h → Type 1 where
    denied : Outcome parse token k k
    granted :
        (raw : String) (c : Claims) (k' : Kernel st h)
        → token ≡ some raw
        → parse raw ≡ ok c
        → Effect c k k'
        → Outcome parse token k k'

  behind-Outcome :
      (sort : List String → List String) (route : Route) (parse : String → Result String Claims)
      (token : Option String) (r : Request) (k : Kernel st h) (g : Guarded)
      → ((c : Claims)
          → g ≡ passed c
          → ((raw : String) × (token ≡ some raw) × (parse raw ≡ ok c)) × Guarding route c)
      → Outcome parse token k (behind sort (handler sort route) g r k).0
  unfolding behind
  behind-Outcome sort route parse token r k (refused status m) p = denied
  behind-Outcome sort route parse token r k (passed c) p =
      let ((raw, t, f), guarding) = p c refl in
      granted raw c _ t f
        (handler-Effect sort route c (record r { claims = some c }) k refl guarding)

  open_handler :
      (sort : List String → List String) (route : Route) (r : Request) (k : Kernel st h)
      → access route ≡ open_to_all
      → (handler sort route r k).0 ≡ k
  unfolding access handler
  open_handler sort health_route r k e = refl
  open_handler sort _ r k e = absurd cc

  -- A request at any route of the table leaves the kernel as it is, unless its token parses to claims
  -- that allow what is done: one call about a process of a registered application, with a well-formed
  -- process id and under the caller's own user id or, for an admin, another that is well formed; or,
  -- for an admin, one call about the runtime or its settings.
  pub serve-Outcome :
      (sort : List String → List String) (configured : Bool) (parse : String → Result String Claims)
      (route : Route) (token : Option String) (r : Request) (k : Kernel st h)
      → Outcome parse token k (serve sort configured parse route token r k).0
  unfolding serve require_role is_admin
  serve-Outcome sort configured parse route token r k =
      by_access (λ (o : Kernel st h × Response). Outcome parse token k o.0) (access route) _ _ _
        (λ e.
          behind-Outcome sort route parse token r k _
            (λ c f. (require_auth-passed configured token parse c f, rw (e, Guarding) tt)))
        (λ e. behind-Outcome sort route parse token r k _ (λ c f.
          let (g, a) = check_role-passed "admin" _ c f in
          (require_auth-passed configured token parse c g, rw (e, Guarding) a)))
        (λ e. subst (Outcome parse token k) (sym (open_handler sort route r k e)) denied)

  Effect-IsConsistent :
      (c : Claims) (k k' : Kernel st h) → Effect c k k' → IsConsistent k → IsConsistent k'
  Effect-IsConsistent c k _ untouched i = i
  Effect-IsConsistent c k _ (on_process call key q a m w) i = exec-IsConsistent call k i
  Effect-IsConsistent c k _ (on_runtime call q a) i = exec-IsConsistent call k i

  Outcome-IsConsistent :
      (parse : String → Result String Claims) (token : Option String) (k k' : Kernel st h)
      → Outcome parse token k k'
      → IsConsistent k
      → IsConsistent k'
  Outcome-IsConsistent parse token k _ denied i = i
  Outcome-IsConsistent parse token k _ (granted raw c k' t f e) i = Effect-IsConsistent c k k' e i

  -- the requests of a session, one after the other
  unfoldable pub serve_all :
      (List String → List String)
      → Bool
      → (String → Result String Claims)
      → List Arrival
      → Kernel st h
      → Kernel st h
  serve_all sort configured parse [] k = k
  serve_all sort configured parse (a ∷ rest) k =
      serve_all sort configured parse rest
        (serve sort configured parse a.route a.token a.request k).0

  -- Whatever requests arrive in whatever order, allowed or not, a consistent kernel stays consistent.
  pub serve_all-IsConsistent :
      (sort : List String → List String) (configured : Bool) (parse : String → Result String Claims)
      (arrivals : List Arrival) (k : Kernel st h)
      → IsConsistent k
      → IsConsistent (serve_all sort configured parse arrivals k)
  unfolding serve_all
  serve_all-IsConsistent sort configured parse [] k i = i
  serve_all-IsConsistent sort configured parse (a ∷ rest) k i =
      serve_all-IsConsistent sort configured parse rest _ (
        Outcome-IsConsistent parse a.token k _
          (serve-Outcome sort configured parse a.route a.token a.request k) i)
