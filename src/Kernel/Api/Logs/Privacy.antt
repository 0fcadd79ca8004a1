-- ===== src/Kernel/Api/Logs/Privacy.antt =====
-- kernel/api/handlers.go `handleLogs`: whose records an answer holds, and how many.
use mathlib.Core.Path.{subst}
use pegasus_suite.Prelude.{
  ℕ, ◌≤◌, ◌<◌, String, ◌≡◌, ◌≢◌, refl, ap, sym, ◌∙◌, Bool, true, false, not, ◌&&◌, Option, some,
  List, [], ◌∷◌, ◌++◌, All, All-concat, length, length-append, arith, str_eq, str_eq_iff, if_case,
  option_case,
}
use pegasus_suite.Prelude.Int.{ℤ, pos, negsuc, lt_ℤ, le_ℤ}
use pegasus_suite.Prelude.Time.{GoTime}
use pegasus_suite.Clients.{Result, ok, result_case}
use pegasus_suite.Kernel.Api.{Request, Response}
use pegasus_suite.Kernel.Api.Logs.{
  LogsAnswer, records, with_limit, with_since, base_query, log_query, handle_logs, min_ℤ,
}
use pegasus_suite.Logger.Ring.{Record, Query, matches, Buffer, snapshot, reverse, collect, recent}
use pegasus_suite.Platform.Claims.{Claims, user_id, is_admin}

module _ {ℓ} {A : Type ℓ} where
  collect-All :
      {P : A → Type 0} (p : A → Bool) (limit : ℤ) (xs out : List A)
      → ((x : A) → p x ≡ true → P x)
      → All P out
      → All P (collect p limit xs out)
  unfolding collect
  collect-All p limit [] out f h = h
  collect-All {P} p limit (x ∷ xs) out f h =
      if_case (All P) (not (p x)) _ _ (λ b. collect-All p limit xs out f h)
        (λ b.
          let all = All-concat P out x h (f x (ground (arith, b))) in
          if_case (All P) (lt_ℤ (pos 0) limit && le_ℤ limit (pos (length (out ++ x ∷ [])))) _ _
            (λ c. all) (λ c. collect-All p limit xs (out ++ x ∷ []) f all))

  collect-length :
      (p : A → Bool) (n : ℕ) (xs out : List A)
      → length out < n
      → length (collect p (pos n) xs out) ≤ n
  unfolding collect
  collect-length p n [] out h = omega (arith, h)
  collect-length p n (x ∷ xs) out h =
      let l = length-append out (x ∷ []) in
      if_case (λ (r : List A). length r ≤ n) (not (p x)) _ _ (λ b. collect-length p n xs out h)
        (λ b.
          if_case (λ (r : List A). length r ≤ n)
            (lt_ℤ (pos 0) (pos n) && le_ℤ (pos n) (pos (length (out ++ x ∷ [])))) _ _
            (λ c. omega (arith, l, h))
            (λ c. collect-length p n xs (out ++ x ∷ []) (ground (arith, l, h, c))))

-- the records of one user, or of anybody where the user is empty; and a limit between 1 and 2000
abbrev Restricts : {tm : GoTime} → String → Query tm → Type 0
Restricts user q = (q.user_id ≡ user) × ((n : ℕ) × (q.limit ≡ pos n) × (1 ≤ n) × (n ≤ 2000))

-- a query, if there is one, that restricts
abbrev Yields : {tm : GoTime} → String → Result Response (Query tm) → Type 0
Yields {tm} user o = (q : Query tm) → o ≡ ok q → Restricts user q

min-capped :
    (z : ℤ) → lt_ℤ z (pos 1) ≡ false → (n : ℕ) × (min_ℤ z (pos 2000) ≡ pos n) × (1 ≤ n) × (n ≤ 2000)
min-capped (pos n) h =
    if_case (λ z. (m : ℕ) × (z ≡ pos m) × (1 ≤ m) × (m ≤ 2000)) (le_ℤ (pos n) (pos 2000)) _ _
      (λ b. (n, refl, ground (arith, h), ground (arith, b)))
      (λ b. (2000, refl, omega arith, omega arith))
min-capped (negsuc n) h = absurd (ground (arith, h))

kept : {tm : GoTime} {user : String} (q : Query tm) → Restricts user q → Yields user (ok q)
kept {tm} {user} q k = λ q' e. subst (Restricts user) {x = q} {y = q'} (ground (arith, e)) k

module _ {tm : GoTime} (atoi : String → Option ℤ) (equal_fold : String → String → Bool) where
  with_limit-Yields :
      (user : String) (r : Request) (q : Query tm)
      → Restricts user q
      → Yields user (with_limit atoi equal_fold r q)
  unfolding with_limit
  with_limit-Yields user r q k =
      if_case (Yields user) (str_eq (r.query "limit") "") _ _ (λ b. kept q k)
        (λ b.
          option_case (Yields user) (atoi (r.query "limit")) _ _ (λ f q' e. absurd cc)
            (λ n f.
              if_case (Yields user) (lt_ℤ n (pos 1)) _ _ (λ c q' e. absurd cc)
                (λ c. kept _ (k.0, min-capped n c))))

  with_since-Yields :
      (user : String) (r : Request) (q : Query tm)
      → Restricts user q
      → Yields user (with_since atoi equal_fold r q)
  unfolding with_since
  with_since-Yields user r q k =
      if_case (Yields user) (str_eq (r.query "since") "") _ _ (λ b. kept q k)
        (λ b.
          option_case (Yields user) (tm.parse "2006-01-02T15:04:05Z07:00" (r.query "since")) _ _
            (λ f q' e. absurd cc) (λ t f. kept (record q { since = t }) k))

  log_query-Yields :
      (r : Request) (c : Claims)
      → r.claims ≡ some c
      → is_admin (some c) ≡ false
      → Yields {tm = tm} c.subject (log_query atoi equal_fold r)
  unfolding log_query base_query user_id
  log_query-Yields r c a n =
      option_case (Yields c.subject) r.claims _ _ (λ e q f. absurd cc)
        (λ d e.
          result_case (Yields c.subject)
            (with_since atoi equal_fold r (base_query atoi equal_fold r)) _ _ (λ m f q g. absurd cc)
            (λ q f. with_limit-Yields c.subject r q (
              with_since-Yields c.subject r (base_query atoi equal_fold r)
                (rw (a, n, base_query) refl, (200, refl, omega arith, omega arith)) q f)))

  matches-user :
      (q : Query tm) (x : Record tm)
      → q.user_id ≢ ""
      → matches equal_fold q x ≡ true
      → x.user_id ≡ q.user_id
  unfolding matches
  matches-user q x n m = ground (arith, m, str_eq_iff q.user_id "", str_eq_iff q.user_id x.user_id)

  -- Whatever a caller who is no admin asks for, if its claims name a user, then the records of the
  -- answer are all that user's own, and there are at most 2000 of them.
  pub handle_logs-IsPrivate :
      (r : Request) (ring : Buffer (Record tm)) (c : Claims) (out : List (Record tm))
      → r.claims ≡ some c
      → is_admin (some c) ≡ false
      → c.subject ≢ ""
      → handle_logs atoi equal_fold r ring ≡ records out
      → All (λ x. x.user_id ≡ c.subject) out × (length out ≤ 2000)
  unfolding handle_logs recent
  handle_logs-IsPrivate r ring c out a n s =
      result_case
        (λ (o : LogsAnswer tm).
          o ≡ records out → All (λ x. x.user_id ≡ c.subject) out × (length out ≤ 2000))
        (log_query atoi equal_fold r) _ _ (λ e f g. absurd cc)
        (λ q f g.
          let (own, (k, limit, low, high)) = log_query-Yields r c a n q f in
          let same : collect (matches equal_fold q) q.limit (reverse (snapshot ring)) [] ≡ out =
            ground (arith, g) in
          (
            subst (All (λ x. x.user_id ≡ c.subject)) same (
                collect-All (matches equal_fold q) q.limit _ []
                  (λ x m. matches-user q x (λ e. s (sym own ∙ e)) m ∙ own) tt),
            omega (
              arith,
              subst (λ xs. length xs ≤ k)
                  (ap (λ l. collect (matches equal_fold q) l (reverse (snapshot ring)) [])
                      (sym limit)
                    ∙ same)
                  (collect-length (matches equal_fold q) k _ [] (omega (arith, low))),
              high,
            ),
          ))
