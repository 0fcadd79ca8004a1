-- ===== src/Kernel/Api/Guards.antt =====
-- kernel/api/: what the checks on a request have shown when they let it through.
use mathlib.Core.Path.{subst}
use pegasus_suite.Prelude.{
  ◌≤◌, String, ◌≡◌, ap, sym, ◌∙◌, ◌⊎◌, true, not, ◌&&◌, none, some, arith, str_eq, option_case,
  if_case,
}
use pegasus_suite.Clients.{ProcessKey, Result, ok, Store, result_case}
use pegasus_suite.Kernel.Host.{
  Host, Error, err_not_running, err_already_running, err_unknown_app, err_app_down, err_not_found,
  err_no_settings, err_exists, err_unknown_settings, err_invalid_settings, err_not_reloaded,
  process_removed, store_failed, no_applications, app_error,
}
use pegasus_suite.Kernel.State.{Kernel, has_app}
use pegasus_suite.Kernel.Api.{
  Request, Response, check_id, err_status, asked_user, app_user, process_key,
}
use pegasus_suite.Platform.Claims.{Claims, user_id, is_admin}

-- the user that a caller may act for: itself, or as an admin any whose id is well formed
abbrev pub MayActFor : Claims → String → Type 0
MayActFor c user = (user ≡ c.subject) ⊎ ((is_admin (some c) ≡ true) × (check_id user ≡ none))

pub asked_user-MayActFor :
    (asked user : String) (c : Claims) → asked_user asked (some c) ≡ ok user → MayActFor c user
unfolding asked_user user_id
asked_user-MayActFor asked user c =
    if_case (λ (r : Result Response String). r ≡ ok user → MayActFor c user)
      (not (str_eq asked "") && not (str_eq asked c.subject)) _ _
      (λ b.
        if_case (λ (r : Result Response String). r ≡ ok user → MayActFor c user)
          (not (is_admin (some c))) _ _ (λ a q. absurd cc)
          (λ a.
            option_case (λ (r : Result Response String). r ≡ ok user → MayActFor c user)
              (check_id asked) _ _ (λ e q. ground (arith, a, e, q)) (λ m e q. absurd cc)))
      (λ b q. ground (arith, q))

module _ {st : Store} {h : Host} where
  -- what is known of the key of a request that `processKey` lets through
  pub record IsAllowed (r : Request) (k : Kernel st h) (key : ProcessKey) : Type 0 where
    pub caller : Claims
    pub authenticated : r.claims ≡ some caller
    pub registered : has_app key.app k ≡ true
    pub allowed : MayActFor caller key.user_id
    pub well_formed : check_id key.process_id ≡ none

  abbrev Known : Request → Kernel st h → String → String → Type 0
  Known r k app user =
      (c : Claims) × (r.claims ≡ some c) × (has_app app k ≡ true) × MayActFor c user

  app_user-ok :
      (r : Request) (k : Kernel st h) (app user : String)
      → app_user r k ≡ ok (app, user)
      → Known r k app user
  unfolding app_user
  app_user-ok r k app user =
      if_case (λ (o : Result Response (String × String)). o ≡ ok (app, user) → Known r k app user)
        (not (has_app (r.path_value "app") k)) _ _ (λ b q. absurd cc)
        (λ b.
          option_case
            (λ (o : Result Response (String × String)). o ≡ ok (app, user) → Known r k app user)
            r.claims _ _ (λ e q. absurd cc)
            (λ c e.
              result_case
                (λ (o : Result Response (String × String)). o ≡ ok (app, user) → Known r k app user)
                (asked_user (r.query "userId") (some c)) _ _ (λ m f q. absurd cc)
                (λ u f q. (
                  c,
                  e,
                  ground (arith, b, q),
                  asked_user-MayActFor (r.query "userId") user c (f ∙ ground (arith, q)),
                ))))

  pub process_key-IsAllowed :
      (r : Request) (k : Kernel st h) (key : ProcessKey)
      → process_key r k ≡ ok key
      → IsAllowed r k key
  unfolding process_key
  process_key-IsAllowed r k key =
      result_case (λ (o : Result Response ProcessKey). o ≡ ok key → IsAllowed r k key)
        (app_user r k) _ _ (λ e f q. absurd cc)
        (λ (app, user) f.
          option_case (λ (o : Result Response ProcessKey). o ≡ ok key → IsAllowed r k key)
            (check_id (r.query "processId")) _ _
            (λ e q.
              let (c, a, b, m) = app_user-ok r k app user f in
              let same : record { app = app; user_id = user; process_id = r.query "processId" }
                  ≡ key =
                ground (arith, q) in
              record {
                caller = c;
                authenticated = a;
                registered = ap (λ (x : ProcessKey). has_app x.app k) (sym same) ∙ b;
                allowed = subst (λ (x : ProcessKey). MayActFor c x.user_id) same m;
                well_formed = ap (λ (x : ProcessKey). check_id x.process_id) (sym same) ∙ e;
              })
            (λ m e q. absurd cc))

-- An error of the kernel is never answered as a success.
pub err_status-le : (e : Error) → 400 ≤ err_status e
unfolding err_status
err_status-le err_not_running = omega arith
err_status-le err_already_running = omega arith
err_status-le err_unknown_app = omega arith
err_status-le err_app_down = omega arith
err_status-le err_not_found = omega arith
err_status-le err_no_settings = omega arith
err_status-le err_exists = omega arith
err_status-le err_unknown_settings = omega arith
err_status-le (err_invalid_settings m) = omega arith
err_status-le (err_not_reloaded e) = omega arith
err_status-le (process_removed e) = err_status-le e
err_status-le (store_failed m e) = omega arith
err_status-le no_applications = omega arith
err_status-le (app_error m) = omega arith
