-- ===== src/Logger/Ring.antt =====
-- logger/ring.go: the last records in memory, and the queries on them. A call runs under the ring's
-- lock, so it is one step.
mod Refine
mod Recent
mod Tests
use pegasus_suite.Prelude.{
  ℕ, suc, String, Bool, true, false, ◌&&◌, ◌||◌, not, Option, none, some, List, [], ◌∷◌, ◌++◌,
  length, set, take, drop, replicate, ltb, leb, ◌==◌, ◌+◌, str_eq, if◌then◌else◌,
}
use pegasus_suite.Prelude.Int.{ℤ, pos, lt_ℤ, le_ℤ}
use pegasus_suite.Prelude.Time.{GoTime}

-- `Record`, as far as the queries read it; `rest` stands for the other fields
pub record Record (tm : GoTime) : Type 0 where
  pub time : tm.Time
  pub level : String
  pub application : String
  pub message : String
  pub user_id : String
  pub process_id : String
  pub rest : String

pub record Query (tm : GoTime) : Type 0 where
  pub level : String
  pub application : String
  pub user_id : String
  pub process_id : String
  pub since : tm.Time
  pub limit : ℤ

-- `matches`; the parameter is `strings.EqualFold`
unfoldable pub matches : {tm : GoTime} → (String → String → Bool) → Query tm → Record tm → Bool
matches {tm} equal_fold q r =
    if not (str_eq q.level "") && not (equal_fold q.level r.level)
      || not (str_eq q.application "") && not (str_eq q.application r.application)
      || not (str_eq q.user_id "") && not (str_eq q.user_id r.user_id)
      || not (str_eq q.process_id "") && not (str_eq q.process_id r.process_id)
      || not (tm.is_zero q.since) && tm.is_after q.since r.time
    then false
    else true

pub record Buffer {ℓ} (A : Type ℓ) : Type ℓ where
  pub buf : List A
  pub next : ℕ
  pub full : Bool

module _ {ℓ} {A : Type ℓ} where
  -- `newRing`: `zero_record` is the record that `make` fills the slice with
  unfoldable pub new_ring : A → ℕ → Buffer A
  new_ring zero_record size = record { buf = replicate size zero_record; next = 0; full = false }

  -- `add`; none is the panic of a write out of range
  unfoldable pub add : A → Buffer A → Option (Buffer A)
  add rec r =
      if ltb r.next (length r.buf)
      then (let buf = set r.buf r.next rec in
          some (
            if r.next + 1 == length buf
            then record { buf = buf; next = 0; full = true }
            else record { buf = buf; next = r.next + 1; full = r.full }))
      else none

  -- the copy that `recent` takes, oldest first
  unfoldable pub snapshot : Buffer A → List A
  snapshot r = if r.full then drop r.next r.buf ++ take r.next r.buf else take r.next r.buf

  abbrev pub reverse : List A → List A
  reverse [] = []
  reverse (x ∷ xs) = reverse xs ++ x ∷ []

  -- the loop of `recent`, over the records in the order in which it reads them
  unfoldable pub collect : (A → Bool) → ℤ → List A → List A → List A
  collect matches limit [] out = out
  collect matches limit (rec ∷ rest) out =
      if not (matches rec)
      then collect matches limit rest out
      else if lt_ℤ (pos 0) limit && le_ℤ limit (pos (length (out ++ rec ∷ [])))
      then out ++ rec ∷ []
      else collect matches limit rest (out ++ rec ∷ [])

  unfoldable pub recent : (A → Bool) → ℤ → Buffer A → List A
  recent matches limit r = collect matches limit (reverse (snapshot r)) []
