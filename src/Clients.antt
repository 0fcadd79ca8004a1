-- ===== src/Clients.antt =====
-- clients/clients.go: the identity of a process, its recorded state, and the interface of the client
-- store. A settings document (`json.RawMessage`) is the text that the store holds; only its readers
-- look inside.
pub mod Mem
pub mod Doc
use pegasus_suite.Prelude.{
  String, ◌≡◌, refl, ◌⊎◌, inl, inr, ◌↔◌, Bool, true, ◌&&◌, Option, List, arith, str_eq, str_eq_iff,
}
use pegasus_suite.Prelude.Assoc.{Eq}

pub record ProcessKey : Type 0 where
  pub app : String
  pub user_id : String
  pub process_id : String

-- Go's `==` on the struct: field by field
abbrev pub key_beq : ProcessKey → ProcessKey → Bool
key_beq a b = str_eq a.app b.app && (str_eq a.user_id b.user_id && str_eq a.process_id b.process_id)

pub key_beq_iff : (a b : ProcessKey) → (key_beq a b ≡ true) ↔ (a ≡ b)
key_beq_iff a b = ground (
  arith,
  str_eq_iff a.app b.app,
  str_eq_iff a.user_id b.user_id,
  str_eq_iff a.process_id b.process_id,
)

instance abbrev pub key_eq : Eq ProcessKey
key_eq = record { beq = key_beq; beq_iff = key_beq_iff }

pub data State : Type 0 where
  state_running state_stopped : State

pub record ProcessRef : Type 0 where
  pub key : ProcessKey
  pub state : State

abbrev pub RawMessage : Type 0
RawMessage = String

-- `ErrNotFound`, or any other failure of the backend
pub data StoreError : Type 0 where
  err_not_found : StoreError
  failed : String → StoreError

pub data Result (E A : Type 0) : Type 0 where
  ok : A → Result E A
  err : E → Result E A

pub Result-cases :
    {E A : Type 0} (r : Result E A) → ((e : E) × (r ≡ err e)) ⊎ ((a : A) × (r ≡ ok a))
Result-cases (ok a) = inr (a, refl)
Result-cases (err e) = inl (e, refl)

pub result_case {ℓ κ} :
    {E B : Type 0} {A : Type ℓ} (P : A → Type κ) (r : Result E B) (f : E → A) (g : B → A)
    → ((e : E) → r ≡ err e → P (f e))
    → ((b : B) → r ≡ ok b → P (g b))
    → P (elim r [ err e ↦ f e | ok b ↦ g b ])
result_case P (err e) f g p q = p e refl
result_case P (ok b) f g p q = q b refl

-- The interface `Store`. A call that writes returns the store that it leaves and its error, if any.
pub record Store : Type 1 where
  pub S : Type 0
  pub process : ProcessKey → S → Result StoreError RawMessage
  pub app_settings : String → S → Result StoreError RawMessage
  pub put_process : ProcessKey → RawMessage → S → S × Option StoreError
  pub put_app_settings : String → RawMessage → S → S × Option StoreError
  pub process_ids : String → String → S → Result StoreError (List String)
  pub delete_process : ProcessKey → S → S × Option StoreError
  pub processes : String → S → Result StoreError (List ProcessRef)
  pub set_state : ProcessKey → State → S → S × Option StoreError
  pub forget : ProcessKey → S → S × Option StoreError
