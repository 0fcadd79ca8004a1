-- ===== src/Kernel/Api/Handlers/Status.antt =====
-- kernel/api/server.go: the status of an answer and what was done.
use pegasus_suite.Prelude.{
  ◌≤◌, String, ◌≡◌, refl, ◌∙◌, ◌⊎◌, inl, inr, Option, none, some, arith, not, ◌&&◌, str_eq,
  option_case, if_case,
}
use pegasus_suite.Clients.{ProcessKey, Result, ok, err, Store, result_case}
use pegasus_suite.Kernel.Host.{Host, Error}
use pegasus_suite.Kernel.State.{Kernel, has_app}
use pegasus_suite.Kernel.Api.{
  Request, Response, answer, failure, word, err_status, check_id, asked_user, app_user, process_key,
}
use pegasus_suite.Kernel.Api.Guards.{err_status-le}
use pegasus_suite.Kernel.Api.Handlers.{fail, reply, process_op}
use pegasus_suite.Platform.Claims.{Claims, is_admin, user_id}

-- a refusal of the checks on a request
abbrev Refuses : {A : Type 0} → Result Response A → Type 0
Refuses {A} o = (e : Response) → o ≡ err e → (400 ≤ e.status) × (e.status ≤ 404)

asked_user-Refuses : (asked : String) (c : Option Claims) → Refuses (asked_user asked c)
unfolding asked_user
asked_user-Refuses asked c =
    if_case Refuses (not (str_eq asked "") && not (str_eq asked (user_id c))) _ _
      (λ b.
        if_case Refuses (not (is_admin c)) _ _ (λ a e f. ground (arith, f))
          (λ a.
            option_case Refuses (check_id asked) _ _ (λ g e f. absurd cc)
              (λ m g e f. ground (arith, f))))
      (λ b e f. absurd cc)

module _ {st : Store} {h : Host} where
  app_user-Refuses : (r : Request) (k : Kernel st h) → Refuses (app_user r k)
  unfolding app_user
  app_user-Refuses r k =
      if_case Refuses (not (has_app (r.path_value "app") k)) _ _ (λ b e f. ground (arith, f))
        (λ b.
          option_case Refuses r.claims _ _ (λ a e f. ground (arith, f))
            (λ c a.
              result_case Refuses (asked_user (r.query "userId") (some c)) _ _
                (λ m g e f.
                  asked_user-Refuses (r.query "userId") (some c) e (g ∙ ground (arith, f)))
                (λ u g e f. absurd cc)))

  process_key-Refuses : (r : Request) (k : Kernel st h) → Refuses (process_key r k)
  unfolding process_key
  process_key-Refuses r k =
      result_case Refuses (app_user r k) _ _
        (λ m g e f. app_user-Refuses r k e (g ∙ ground (arith, f)))
        (λ (app, user) g.
          option_case Refuses (check_id (r.query "processId")) _ _ (λ a e f. absurd cc)
            (λ m a e f. ground (arith, f)))

  -- what came of a request for an operation on a process
  pub data Handled (done : String) (op : ProcessKey → Kernel st h → Kernel st h × Option Error)
      (r : Request) (k : Kernel st h) : Kernel st h × Response → Type 1 where
    refused_by_check :
        (e : Response)
        → process_key r k ≡ err e
        → 400 ≤ e.status
        → e.status ≤ 404
        → Handled done op r k (k, e)
    succeeded :
        (key : ProcessKey)
        → process_key r k ≡ ok key
        → (op key k).1 ≡ none
        → Handled done op r k ((op key k).0, answer 200 (word done))
    failed_with :
        (key : ProcessKey) (e : Error)
        → process_key r k ≡ ok key
        → (op key k).1 ≡ some e
        → 400 ≤ err_status e
        → Handled done op r k ((op key k).0, answer (err_status e) (failure e))

  reply-cases :
      (done : Response) (x : Kernel st h × Option Error)
      → ((x.1 ≡ none) × (reply done x ≡ (x.0, done)))
        ⊎ ((e : Error) × (x.1 ≡ some e) × (reply done x ≡ (x.0, answer (err_status e) (failure e))))
  unfolding reply fail
  reply-cases done (k, none) = inl (refl, refl)
  reply-cases done (k, some e) = inr (e, refl, refl)

  -- A request for an operation on a process is answered in one of three ways: a check refuses it
  -- with a status from 400 to 404 and the kernel is untouched; the operation runs without an error
  -- and the status is 200; or it runs with an error, and the answer is the error's text under its
  -- own status, which is no success.
  pub process_op-Handled :
      (done : String) (op : ProcessKey → Kernel st h → Kernel st h × Option Error) (r : Request)
      (k : Kernel st h)
      → Handled done op r k (process_op done op r k)
  unfolding process_op
  process_op-Handled done op r k =
      result_case (Handled done op r k) (process_key r k) _ _
        (λ e f. let (low, high) = process_key-Refuses r k e f in refused_by_check e f low high)
        (λ key f. elim (reply-cases (answer 200 (word done)) (op key k)) [
          | inl (n, same) ↦ rw same (succeeded key f n)
          | inr (e, n, same) ↦ rw same (failed_with key e f n (err_status-le e))
        ])
