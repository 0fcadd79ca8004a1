-- ===== src/Clients/Doc/Tests.antt =====
-- clients/doc/doc.go over a bucket in memory.
use Prim.Native.String
use pegasus_suite.Prelude.{
  true, String, ◌≡◌, inl, inr, refl, sym, ap, ◌∙◌, none, some, List, [], ◌∷◌, All, arith,
  Bool-cases, str_eq, str_eq_iff, if◌then◌else◌, option_case,
}
use pegasus_suite.Prelude.Assoc.{
  Assoc, lookup, insert, erase, string_eq, lookup-insert, lookup-erase,
}
use pegasus_suite.Prelude.Text.{
  has_slash, strip_prefix, strip_suffix, strip_prefix-append, strip_prefix-joins,
}
use pegasus_suite.Clients.{
  ProcessKey, key_eq, State, state_running, state_stopped, ProcessRef, Result, ok, err,
}
use pegasus_suite.Clients.Mem
use pegasus_suite.Clients.Mem.{MemStore}
use pegasus_suite.Clients.Doc.{
  Bucket, BucketError, no_such_key, StateJson, process, app_settings, ids_from, process_ids,
  processes,
}
use pegasus_suite.Clients.Doc.Keys.{IsClean, is_plain, has_plain_chars}
use pegasus_suite.Clients.Doc.Laws.{
  Works, Write, save_process, save_app_settings, record_state, IsCleanWrite, mem_writes, doc_writes,
  Represents, reads_agree, writes-Represents,
}
use pegasus_suite.Clients.Doc.Listing.{In, Under, Lists}
use pegasus_suite.Clients.Doc.Objects.{
  Objects, IsConsistent, IsListing, s3_bucket, s3_bucket-Serves,
}
use pegasus_suite.Clients.Doc.Recorded.{processes-Recorded}

abbrev read : String → Assoc String String → Result BucketError String
read k w = elim (lookup k w) [ none ↦ err no_such_key | some v ↦ ok v ]

below : String → Assoc String String → List String
below dir [] = []
below dir ((k, v) ∷ w) =
    let more = below dir w in elim (strip_prefix dir k) [ none ↦ more | some rest ↦ k ∷ more ]

abbrev cells : Bucket
cells = record {
  W = Assoc String String;
  get = read;
  put = λ k v w. (insert k v w, none);
  delete = λ k w. (erase k w, none);
  list = λ dir w. ok (below dir w);
}

cells-Works : Works cells
cells-Works = record {
  put_ok = λ k v w d. refl;
  delete_ok = λ k w d. refl;
  get-put = λ k v j w d e. ground (arith, lookup-insert k j v w);
  get-delete = λ k j w d e. ground (arith, lookup-erase k j w);
}

Holds : String → Assoc String String → String → Type 0
Holds dir w k = Under dir k × ((body : String) × (read k w ≡ ok body))

-- what is found further on is found, since an earlier cell of the key has a value too
read_later :
    (k j v : String) (w : Assoc String String) {body : String}
    → read k w ≡ ok body
    → (b : String) × (read k ((j, v) ∷ w) ≡ ok b)
unfolding lookup
read_later k j v w {body} e = elim (Bool-cases (str_eq j k)) [
  | inl c ↦ (v, ground (arith, c))
  | inr c ↦ (body, ground (arith, c, e))
]

in-below : (dir k : String) (w : Assoc String String) → In k (below dir w) → Holds dir w k
unfolding below Holds
in-below dir k [] = λ h. absurd h
in-below dir k ((j, v) ∷ w) =
    let later : In k (below dir w) → Holds dir ((j, v) ∷ w) k =
      λ h. let (u, (body, e)) = in-below dir k w h in (u, read_later k j v w e) in
    option_case (λ (l : List String). In k l → Holds dir ((j, v) ∷ w) k) (strip_prefix dir j) _ _
      (λ e. later)
      (λ rest e h. elim h [
        | inl same ↦ (
          (rest, strip_prefix-joins dir j rest e ∙ same),
          (v, unfold lookup in ground (arith, (str_eq_iff j k).1 same)),
        )
        | inr more ↦ later more
      ])

below-in : (dir k : String) (w : Assoc String String) → Holds dir w k → In k (below dir w)
unfolding below Holds lookup
below-in dir k [] (u, (body, e)) = absurd cc
below-in dir k ((j, v) ∷ w) ((rest, u), (body, e)) = elim (Bool-cases (str_eq j k)) [
  | inl c ↦
      (let same = (str_eq_iff j k).0 c in
        let starts : strip_prefix dir j ≡ some rest =
          ap (strip_prefix dir) (same ∙ sym u) ∙ strip_prefix-append dir rest in
        rw (starts, below) (inl same))
  | inr c ↦
      (let more = below-in dir k w ((rest, u), (body, ground (arith, c, e))) in
        option_case (In k) (strip_prefix dir j) _ _ (λ n. more) (λ x n. inr more))
]

cells-Lists : Lists cells
unfolding Holds
cells-Lists = record {
  listed = λ dir w d. (
    below (String.◌++◌ dir "/") w,
    refl,
    λ k. in-below (String.◌++◌ dir "/") k w,
    λ k e. below-in (String.◌++◌ dir "/") k w,
  );
}

abbrev json : StateJson
json = record {
  marshal = λ s. elim s [ state_running ↦ "running" | state_stopped ↦ "stopped" ];
  unmarshal = λ s.
      if str_eq s "running"
      then some state_running
      else if str_eq s "stopped"
      then some state_stopped
      else none;
}

json_reads : (s : State) → json.unmarshal (json.marshal s) ≡ some s
json_reads state_running = refl
json_reads state_stopped = refl

abbrev first : ProcessKey
first = record { app = "pegasus"; user_id = "u"; process_id = "1" }

first-IsClean : IsClean first
unfolding has_plain_chars
first-IsClean = (refl, refl, refl)

plain_app : is_plain "pegasus" ≡ true
unfolding has_plain_chars
plain_app = refl

abbrev writes : List Write
writes =
    save_process first "doc"
    ∷ save_app_settings "pegasus" "{}"
    ∷ record_state first state_running
    ∷ []

abbrev writes_clean : All IsCleanWrite writes
writes_clean = (first-IsClean, (plain_app, (first-IsClean, tt)))

empty-Represents : Represents cells json Mem.new []
unfolding lookup
empty-Represents = record { docs = λ k c. refl; apps = λ name p. refl; states = λ k c. refl }

reads_agree_example :
    (process cells json first (doc_writes cells json writes [])
      ≡ Mem.process first (mem_writes writes Mem.new))
    × (app_settings cells json "pegasus" (doc_writes cells json writes [])
        ≡ Mem.app_settings "pegasus" (mem_writes writes Mem.new))
reads_agree_example =
    reads_agree cells json cells-Works writes Mem.new [] writes_clean empty-Represents first
      "pegasus" first-IsClean plain_app

abbrev saved : Assoc String String
saved = ("settings/processes/pegasus/u/1.json", "doc") ∷ []

listed_once : process_ids cells json "pegasus" "u" saved ≡ ok ("1" ∷ [])
unfolding process_ids ids_from below strip_prefix strip_suffix has_slash
listed_once = refl

recorded : lookup first (mem_writes writes Mem.new).states ≡ some state_running
unfolding mem_writes Mem.put_process Mem.put_app_settings Mem.set_state lookup insert
recorded = refl

processes-Recorded_example :
    (refs : List ProcessRef) × (processes cells json "pegasus" (doc_writes cells json writes [])
      ≡ ok refs)
    × In (record { key = first; state = state_running }) refs
processes-Recorded_example =
    processes-Recorded cells json cells-Lists json_reads (mem_writes writes Mem.new)
      (doc_writes cells json writes [])
      (writes-Represents cells json cells-Works writes Mem.new [] writes_clean empty-Represents)
      first state_running first-IsClean recorded

abbrev objects : Objects
objects = record {
  W = Assoc String String;
  get_object = read;
  put_object = λ k v w. (insert k v w, none);
  delete_object = λ k w. (erase k w, none);
  list_objects = λ start w. ok (below start w);
}

objects-IsConsistent : IsConsistent objects
objects-IsConsistent = record {
  put_ok = λ k v w. refl;
  delete_ok = λ k w. refl;
  get-put = λ k v j w. ground (arith, lookup-insert k j v w);
  get-delete = λ k j w. ground (arith, lookup-erase k j w);
}

objects-IsListing : IsListing objects
unfolding Holds
objects-IsListing = record {
  lists = λ start w. (below start w, refl, λ k. (in-below start k w, below-in start k w));
}

s3_bucket-Serves_example : Works (s3_bucket objects "suite") × Lists (s3_bucket objects "suite")
s3_bucket-Serves_example = s3_bucket-Serves objects "suite" objects-IsConsistent objects-IsListing
