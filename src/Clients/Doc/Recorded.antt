-- ===== src/Clients/Doc/Recorded.antt =====
-- clients/doc/doc.go: `Processes` finds every process whose state was recorded.
use Prim.Native.String
use mathlib.Core.Path.{subst}
use text.Mathlib.TextLemmas.{append_assoc, cons-append}
use pegasus_suite.Prelude.{
  String, ◌≡◌, inl, inr, refl, sym, ap, ◌∙◌, false, Option-cases, some, List, [], ◌∷◌, arith,
}
use pegasus_suite.Prelude.Assoc.{lookup}
use pegasus_suite.Prelude.Text.{
  trim_prefix, trim_suffix, has_slash, trim_prefix-append, trim_suffix-append,
}
use pegasus_suite.Clients.{ProcessKey, key_eq, State, ProcessRef, ok}
use pegasus_suite.Clients.Mem.{MemStore}
use pegasus_suite.Clients.Doc.{Bucket, StateJson, join, state_key, owner_of, refs_from, processes}
use pegasus_suite.Clients.Doc.Keys.{IsClean, of_state, plain-no_slash}
use pegasus_suite.Clients.Doc.Laws.{Represents, found, marshalled}
use pegasus_suite.Clients.Doc.Listing.{In, Under, Lists, of_states, slash_append}
use pegasus_suite.Pegasus.Scope.{cut_slash}
use pegasus_suite.Pegasus.Scope.RoundTrip.{cut_slash-append}

abbrev state_dir : String → String
state_dir application = String.◌++◌ "state/" (String.◌++◌ application "/")

state_key_in_dir :
    (key : ProcessKey)
    → state_key key
      ≡ String.◌++◌ (state_dir key.app) (String.◌++◌ (join key.user_id key.process_id) ".json")
unfolding state_key
state_key_in_dir key = simp (
  append_assoc,
  cons-append,
  slash_append (String.◌++◌ key.user_id (String.◌∷◌ "/" (String.◌++◌ key.process_id ".json"))),
  state_key,
)

state_dir_ends :
    (application : String)
    → state_dir application ≡ String.◌++◌ (String.◌++◌ "state/" application) "/"
state_dir_ends application = simp (append_assoc)

owner_of-state_key :
    (key : ProcessKey)
    → has_slash key.user_id ≡ false
    → has_slash key.process_id ≡ false
    → owner_of (state_dir key.app) (state_key key) ≡ some (key.user_id, key.process_id)
unfolding owner_of
owner_of-state_key key u p =
    let inner = join key.user_id key.process_id in
    let t : trim_suffix ".json" (trim_prefix (state_dir key.app) (state_key key)) ≡ inner =
      ap (λ k. trim_suffix ".json" (trim_prefix (state_dir key.app) k)) (state_key_in_dir key)
      ∙ ap (trim_suffix ".json")
          (trim_prefix-append (state_dir key.app) (String.◌++◌ inner ".json"))
      ∙ trim_suffix-append inner ".json" in
    let c : cut_slash (trim_suffix ".json" (trim_prefix (state_dir key.app) (state_key key)))
        ≡ some (key.user_id, key.process_id) =
      ap cut_slash t ∙ cut_slash-append key.user_id key.process_id u in
    rw (c, owner_of, p) refl

module _ (b : Bucket) (json : StateJson) where
  -- each key of a list can be read
  abbrev Readable : b.W → List String → Type 0
  Readable w keys = (k : String) → In k keys → (body : String) × (b.get k w ≡ ok body)

  -- `refs_from` succeeds, and finds what one key of the list says
  abbrev Finds : String → String → List String → b.W → Type 0
  Finds app dir keys w =
      (refs : List ProcessRef) × (refs_from b json app dir keys w ≡ ok refs)
      × ((key user pid body : String) (s : State)
          → In key keys
          → owner_of dir key ≡ some (user, pid)
          → b.get key w ≡ ok body
          → json.unmarshal body ≡ some s
          → In (record { key = record { app = app; user_id = user; process_id = pid }; state = s })
              refs)

  refs_from-Finds :
      (app dir : String) (keys : List String) (w : b.W) → Readable w keys → Finds app dir keys w
  unfolding refs_from
  refs_from-Finds app dir [] w r = ([], refl, λ key user pid body s i. absurd i)
  refs_from-Finds app dir (k ∷ keys) w r =
      let (refs, e, f) = refs_from-Finds app dir keys w (λ j i. r j (inr i)) in
      let (body, g) = r k (inl refl) in
      elim (Option-cases (owner_of dir k)) [
        | inl o ↦ (
          refs,
          rw (refs_from, o) e,
          λ key user pid text s i p q u. elim i [
            | inl same ↦ ground (arith, o, p, ap (owner_of dir) same)
            | inr later ↦ f key user pid text s later p q u
          ],
        )
        | inr (owner, o) ↦ elim (Option-cases (json.unmarshal body)) [
          | inl n ↦ (
            refs,
            rw (refs_from, o, g, n) e,
            λ key user pid text s i p q u. elim i [
              | inl same ↦ ground (arith, n, g, q, u, ap (λ x. b.get x w) same)
              | inr later ↦ f key user pid text s later p q u
            ],
          )
          | inr (state, n) ↦ (
            record {
              key = record { app = app; user_id = owner.0; process_id = owner.1 };
              state = state;
            }
                ∷ refs,
            rw (refs_from, o, g, n, e) refl,
            λ key user pid text s i p q u. elim i [
              | inl same ↦ inl (
                  ground
                    (arith, ap (owner_of dir) same, ap (λ x. b.get x w) same, o, p, q, g, n, u))
              | inr later ↦ inr (f key user pid text s later p q u)
            ],
          )
        ]
      ]

  -- Over a bucket that lists and reads the documents of plain names, and that represents the store in
  -- memory: the recorded processes of an application are listed without an error, and every process of
  -- it that the store in memory records is among them with its state, where the application, the user
  -- and the process have plain names.
  pub processes-Recorded :
      Lists b
      → ((s : State) → json.unmarshal (json.marshal s) ≡ some s)
      → (m : MemStore) (w : b.W) → Represents b json m w
      → (key : ProcessKey) (s : State) → IsClean key
      → lookup key m.states ≡ some s
      → (refs : List ProcessRef) × (processes b json key.app w ≡ ok refs)
        × In (record { key = key; state = s }) refs
  unfolding processes
  processes-Recorded l j m w r key s c q =
      let bare = String.◌++◌ "state/" key.app in
      let (keys, e, i, i') = l.listed bare w (of_states key.app c.0) in
      let same = state_dir_ends key.app in
      let (refs, f, g) = refs_from-Finds key.app (state_dir key.app) keys w (λ k h. (i k h).1) in
      let got : b.get (state_key key) w ≡ ok (json.marshal s) =
        r.states key c ∙ ap (λ x. found (marshalled json.marshal x)) q in
      let under : Under (String.◌++◌ bare "/") (state_key key) =
        subst (λ d. Under d (state_key key)) same
          (String.◌++◌ (join key.user_id key.process_id) ".json", sym (state_key_in_dir key)) in
      let held = i' (state_key key) (of_state key c) (under, (json.marshal s, got)) in
      (
        refs,
        rw (ap (λ d. b.list d w) same ∙ e, processes) f,
        g (state_key key) key.user_id key.process_id (json.marshal s) s held
            (owner_of-state_key key (plain-no_slash key.user_id c.1)
              (plain-no_slash key.process_id c.2))
            got (j s),
      )
