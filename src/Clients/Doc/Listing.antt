-- ===== src/Clients/Doc/Listing.antt =====
-- clients/doc/doc.go: what the listings `ProcessIDs` and `Processes` find.
use Prim.Native.String
use mathlib.Core.Path.{subst}
use text.Mathlib.TextLemmas.{append_assoc, cons-append, nil-append}
use pegasus_suite.Prelude.{
  String, ◌≡◌, ◌↔◌, ◌⊎◌, inl, inr, refl, sym, ap, ◌∙◌, true, false, some, List, [], ◌∷◌, arith,
  if_case, option_case,
}
use pegasus_suite.Prelude.Text.{
  strip_suffix, trim_prefix, has_slash, trim_prefix-append, strip_suffix-append, strip_suffix-joins,
  has_slash-append,
}
use pegasus_suite.Clients.{ProcessKey, key_eq, Result-cases, ok}
use pegasus_suite.Clients.Doc.Keys.{is_plain, IsDocKey, of_process, plain-no_slash}
use pegasus_suite.Clients.Doc.{
  Bucket, no_such_key, broken, StateJson, join, process_dir, process_doc_key, ids_from, process,
  process_ids,
}

abbrev pub In : {A : Type 0} → A → List A → Type 0
In x [] = ⊥
In x (y ∷ ys) = (y ≡ x) ⊎ In x ys

-- a key below a directory
abbrev pub Under : String → String → Type 0
Under dir key = (rest : String) × (String.◌++◌ dir rest ≡ key)

-- The two kinds of directories that are listed, under plain names.
pub data IsDocDir : String → Type 0 where
  of_user :
      (app user : String)
      → is_plain app ≡ true
      → is_plain user ≡ true
      → IsDocDir (String.◌++◌ "settings/processes/" (join app user))
  of_states : (app : String) → is_plain app ≡ true → IsDocDir (String.◌++◌ "state/" app)

-- A bucket that lists, below such a directory, keys that it reads, and all those of documents with
-- plain names that it holds there.
pub record Lists (b : Bucket) : Type 0 where
  pub listed :
      (dir : String) (w : b.W)
      → IsDocDir dir
      → (keys : List String) × (b.list (String.◌++◌ dir "/") w ≡ ok keys)
        × ((k : String)
            → In k keys
            → Under (String.◌++◌ dir "/") k × ((body : String) × (b.get k w ≡ ok body)))
        × ((k : String)
            → IsDocKey k
            → Under (String.◌++◌ dir "/") k × ((body : String) × (b.get k w ≡ ok body))
            → In k keys)

-- the key of a listing that gives the process id
abbrev Names : String → String → String → Type 0
Names dir id key =
    (strip_suffix ".json" (trim_prefix dir key) ≡ some id)
    × (has_slash (trim_prefix dir key) ≡ false)

in-ids_from :
    (dir id : String) (keys : List String)
    → In id (ids_from dir keys)
    → (key : String) × In key keys × Names dir id key
unfolding ids_from
in-ids_from dir id [] = λ h. absurd h
in-ids_from dir id (k ∷ keys) =
    let rest : In id (ids_from dir keys) → (key : String) × In key (k ∷ keys) × Names dir id key =
      λ h. let (key, i, n) = in-ids_from dir id keys h in (key, inr i, n) in
    option_case
      (λ (l : List String). In id l → (key : String) × In key (k ∷ keys) × Names dir id key)
      (strip_suffix ".json" (trim_prefix dir k)) _ _ (λ e. rest)
      (λ x e.
        if_case
          (λ (l : List String). In id l → (key : String) × In key (k ∷ keys) × Names dir id key)
          (has_slash (trim_prefix dir k)) _ _ (λ c. rest)
          (λ c h. elim h [
            | inl same ↦ (k, inl refl, (e ∙ ap some same, c))
            | inr later ↦ rest later
          ]))

ids_from-in :
    (dir id key : String) (keys : List String)
    → In key keys
    → Names dir id key
    → In id (ids_from dir keys)
unfolding ids_from
ids_from-in dir id key [] h n = absurd h
ids_from-in dir id key (k ∷ keys) (inl same) (a, b) =
    let (a', b') = subst (Names dir id) (sym same) (a, b) in rw (ids_from, a', b') (inl refl)
ids_from-in dir id key (k ∷ keys) (inr later) n =
    option_case (In id) (strip_suffix ".json" (trim_prefix dir k)) _ _
      (λ e. ids_from-in dir id key keys later n)
      (λ x e.
        if_case (In id) (has_slash (trim_prefix dir k)) _ _
          (λ c. ids_from-in dir id key keys later n)
          (λ c. inr (ids_from-in dir id key keys later n)))

pub slash_append : (s : String) → String.◌++◌ "/" s ≡ String.◌∷◌ "/" s
slash_append s = cons-append "/" "" s ∙ ap (String.◌∷◌ "/") (nil-append s)

-- the key of a process, behind its directory
doc_key_in_dir :
    (app user id : String)
    → process_doc_key (record { app = app; user_id = user; process_id = id })
      ≡ String.◌++◌ (process_dir app user) (String.◌++◌ id ".json")
unfolding process_doc_key
doc_key_in_dir app user id =
    simp (append_assoc, cons-append, slash_append (String.◌++◌ id ".json"), process_doc_key)

dir_ends :
    (app user : String)
    → process_dir app user ≡ String.◌++◌ (String.◌++◌ "settings/processes/" (join app user)) "/"
dir_ends app user = simp (append_assoc, cons-append)

json_plain : has_slash ".json" ≡ false
unfolding has_slash
json_plain = refl

Names-doc_key :
    (dir id : String)
    → has_slash id ≡ false
    → Names dir id (String.◌++◌ dir (String.◌++◌ id ".json"))
Names-doc_key dir id h =
    let t = trim_prefix-append dir (String.◌++◌ id ".json") in
    (
      ap (strip_suffix ".json") t ∙ strip_suffix-append id ".json",
      ap has_slash t ∙ has_slash-append id ".json" ∙ ground (arith, h, json_plain),
    )

Names-joins :
    (dir id key : String)
    → Under dir key
    → Names dir id key
    → (key ≡ String.◌++◌ dir (String.◌++◌ id ".json")) × (has_slash id ≡ false)
Names-joins dir id key (rest, e) (a, b) =
    let t : trim_prefix dir key ≡ rest =
      ap (trim_prefix dir) (sym e) ∙ trim_prefix-append dir rest in
    let joins : String.◌++◌ id ".json" ≡ rest =
      strip_suffix-joins ".json" rest id (ap (strip_suffix ".json") (sym t) ∙ a) in
    let plain : has_slash (String.◌++◌ id ".json") ≡ false = ap has_slash (joins ∙ sym t) ∙ b in
    (sym e ∙ ap (String.◌++◌ dir) (sym joins), ground (arith, plain, has_slash-append id ".json"))

module _ (b : Bucket) (json : StateJson) where
  process-found :
      (key : ProcessKey) (w : b.W) {body : String}
      → (process b json key w ≡ ok body) ↔ (b.get (process_doc_key key) w ≡ ok body)
  unfolding process
  process-found key w = elim (Result-cases (b.get (process_doc_key key) w)) [
    | inl (no_such_key, q) ↦ ground (arith, q)
    | inl (broken m, q) ↦ ground (arith, q)
    | inr (body, q) ↦ ground (arith, q)
  ]

  -- Over a bucket that lists and reads the documents of plain names, the process ids of an application's
  -- user, both with plain names, are listed without an error, and a plain id is among them exactly if
  -- its document is there.
  pub process_ids_lem :
      Lists b
      → (application user_id : String) (w : b.W) → is_plain application ≡ true
      → is_plain user_id ≡ true
      → (ids : List String) × (process_ids b json application user_id w ≡ ok ids)
        × ((id : String)
            → is_plain id ≡ true
            → In id ids ↔ (
                (doc : String) × (process b json
                    (record { app = application; user_id = user_id; process_id = id })
                    w
                  ≡ ok doc)))
  unfolding process_ids
  process_ids_lem l application user_id w pa pu =
      let dir = process_dir application user_id in
      let bare = String.◌++◌ "settings/processes/" (join application user_id) in
      let (keys, e, i, i') = l.listed bare w (of_user application user_id pa pu) in
      let same = dir_ends application user_id in
      (
        ids_from dir keys,
        rw (ap (λ d. b.list d w) same ∙ e, process_ids) refl,
        λ id plain. (
          λ h.
              let (key, in_keys, names) = in-ids_from dir id keys h in
              let (under, (body, got)) = i key in_keys in
              let (joins, bare_id) =
                Names-joins dir id key (subst (λ d. Under d key) (sym same) under) names in
              let at_key =
                ap (λ k. b.get k w) (doc_key_in_dir application user_id id ∙ sym joins) ∙ got in
              (body, (process-found _ w).1 at_key),
          λ (doc, found).
              let key = String.◌++◌ dir (String.◌++◌ id ".json") in
              let got =
                ap (λ k. b.get k w) (sym (doc_key_in_dir application user_id id))
                ∙ (process-found _ w).0 found in
              ids_from-in dir id key keys
                (i' key
                  (subst IsDocKey (doc_key_in_dir application user_id id) (
                    of_process (record { app = application; user_id = user_id; process_id = id })
                      (pa, pu, plain)))
                  (subst (λ d. Under d key) same (String.◌++◌ id ".json", refl), (doc, got)))
                (Names-doc_key dir id (plain-no_slash id plain)),
        ),
      )
