-- ===== src/Clients/Doc/Laws.antt =====
-- clients/doc/doc.go: over a bucket that works, the documents answer as the store in memory of
-- clients/mem/mem.go does.
use pegasus_suite.Prelude.{
  String, ◌≡◌, ◌≢◌, refl, sym, ap, ◌∙◌, false, Option, none, some, List, [], ◌∷◌, All, true, arith,
  str_eq, str_eq_iff, if◌then◌else◌,
}
use pegasus_suite.Prelude.Assoc.{lookup, string_eq, lookup-insert, lookup-erase}
use pegasus_suite.Clients.{ProcessKey, key_eq, State, RawMessage, StoreError, Result, ok, err}
use pegasus_suite.Clients.Mem
use pegasus_suite.Clients.Mem.{MemStore}
use pegasus_suite.Clients.Doc.{
  Bucket, BucketError, no_such_key, StateJson, outcome, process_doc_key, state_key,
  app_settings_key, process, app_settings, put_process, put_app_settings, delete_process, set_state,
  forget,
}
use pegasus_suite.Clients.Doc.Keys.{
  IsClean, is_plain, IsDocKey, of_process, of_state, of_app, doc_key_eq, state_key_eq, app_key_eq,
  apart,
}

-- A bucket whose calls succeed: the key of a document with plain names reads as it was last written or
-- deleted. Nothing is asked of other keys, which the buckets clean, trim or refuse.
pub record Works (b : Bucket) : Type 0 where
  pub put_ok : (k v : String) (w : b.W) → IsDocKey k → (b.put k v w).1 ≡ none
  pub delete_ok : (k : String) (w : b.W) → IsDocKey k → (b.delete k w).1 ≡ none
  pub get-put :
      (k v j : String) (w : b.W)
      → IsDocKey k
      → IsDocKey j
      → b.get j (b.put k v w).0 ≡ (if str_eq k j then ok v else b.get j w)
  pub get-delete :
      (k j : String) (w : b.W)
      → IsDocKey k
      → IsDocKey j
      → b.get j (b.delete k w).0 ≡ (if str_eq k j then err no_such_key else b.get j w)

-- the calls that write
pub data Write : Type 0 where
  save_process : ProcessKey → RawMessage → Write
  save_app_settings : String → RawMessage → Write
  remove_process : ProcessKey → Write
  record_state : ProcessKey → State → Write
  forget_state : ProcessKey → Write

abbrev pub IsCleanWrite : Write → Type 0
IsCleanWrite (save_process k doc) = IsClean k
IsCleanWrite (save_app_settings name doc) = is_plain name ≡ true
IsCleanWrite (remove_process k) = IsClean k
IsCleanWrite (record_state k s) = IsClean k
IsCleanWrite (forget_state k) = IsClean k

abbrev pub mem_write : Write → MemStore → MemStore × Option StoreError
mem_write (save_process k doc) = Mem.put_process k doc
mem_write (save_app_settings name doc) = Mem.put_app_settings name doc
mem_write (remove_process k) = Mem.delete_process k
mem_write (record_state k s) = Mem.set_state k s
mem_write (forget_state k) = Mem.forget k

-- what a key holds
abbrev pub found : Option String → Result BucketError String
found none = err no_such_key
found (some s) = ok s

abbrev pub marshalled : (State → String) → Option State → Option String
marshalled f none = none
marshalled f (some s) = some (f s)

ne-false : (a b : String) → a ≢ b → str_eq a b ≡ false
ne-false a b n = ground (arith, n, str_eq_iff a b)

outcome-fst : {W : Type 0} (r : W × Option BucketError) → (outcome r).0 ≡ r.0
outcome-fst (w, none) = refl
outcome-fst (w, some e) = refl

outcome-ok : {W : Type 0} (r : W × Option BucketError) → r.1 ≡ none → (outcome r).1 ≡ none
outcome-ok (w, none) h = refl
outcome-ok (w, some e) h = absurd cc

unfoldable pub mem_writes : List Write → MemStore → MemStore
mem_writes [] m = m
mem_writes (op ∷ rest) m = mem_writes rest (mem_write op m).0

module _ (b : Bucket) (json : StateJson) where
  abbrev pub doc_write : Write → b.W → b.W × Option StoreError
  doc_write (save_process k doc) = put_process b json k doc
  doc_write (save_app_settings name doc) = put_app_settings b json name doc
  doc_write (remove_process k) = delete_process b json k
  doc_write (record_state k s) = set_state b json k s
  doc_write (forget_state k) = forget b json k

  -- the bucket holds the documents of the store in memory, each under its key
  pub record Represents (m : MemStore) (w : b.W) : Type 0 where
    pub docs :
        (k : ProcessKey) → IsClean k → b.get (process_doc_key k) w ≡ found (lookup k m.processes)
    pub apps :
        (name : String)
        → is_plain name ≡ true
        → b.get (app_settings_key name) w ≡ found (lookup name m.apps)
    pub states :
        (k : ProcessKey)
        → IsClean k
        → b.get (state_key k) w ≡ found (marshalled json.marshal (lookup k m.states))

  got_put :
      Works b
      → (k v j : String) (w : b.W) → IsDocKey k
      → IsDocKey j
      → b.get j (outcome (b.put k v w)).0 ≡ (if str_eq k j then ok v else b.get j w)
  got_put c k v j w x y = ap (b.get j) (outcome-fst (b.put k v w)) ∙ c.get-put k v j w x y

  got_delete :
      Works b
      → (k j : String) (w : b.W) → IsDocKey k
      → IsDocKey j
      → b.get j (outcome (b.delete k w)).0 ≡ (if str_eq k j then err no_such_key else b.get j w)
  got_delete c k j w x y = ap (b.get j) (outcome-fst (b.delete k w)) ∙ c.get-delete k j w x y

  -- A write under another key leaves what a key holds.
  put_apart :
      Works b
      → (k v j : String) (w : b.W) {r : Result BucketError String} → IsDocKey k
      → IsDocKey j
      → k ≢ j
      → b.get j w ≡ r
      → b.get j (outcome (b.put k v w)).0 ≡ r
  put_apart c k v j w x y n e = ground (arith, got_put c k v j w x y, ne-false k j n, e)

  delete_apart :
      Works b
      → (k j : String) (w : b.W) {r : Result BucketError String} → IsDocKey k
      → IsDocKey j
      → k ≢ j
      → b.get j w ≡ r
      → b.get j (outcome (b.delete k w)).0 ≡ r
  delete_apart c k j w x y n e = ground (arith, got_delete c k j w x y, ne-false k j n, e)

  -- Each write keeps the bucket in step with the store in memory, and reports as little.
  write-Represents :
      Works b
      → (op : Write) (m : MemStore) (w : b.W) → IsCleanWrite op
      → Represents m w
      → Represents (mem_write op m).0 (doc_write op w).0 × ((doc_write op w).1 ≡ (mem_write op m).1)
  unfolding put_process Mem.put_process put_app_settings Mem.put_app_settings delete_process
      Mem.delete_process set_state Mem.set_state forget Mem.forget
  write-Represents c (save_process k doc) m w i r =
      let at = of_process k i in
      (
        record {
          docs = λ j q. ground (
            arith,
            got_put c (process_doc_key k) doc (process_doc_key j) w at (of_process j q),
            doc_key_eq k j i q,
            lookup-insert k j doc m.processes,
            r.docs j q,
          );
          apps = λ n q. put_apart c _ doc _ w at (of_app n q) (apart k k n).1 (r.apps n q);
          states = λ j q. put_apart c _ doc _ w at (of_state j q) (apart k j "").0 (r.states j q);
        },
        outcome-ok _ (c.put_ok (process_doc_key k) doc w at),
      )
  write-Represents c (save_app_settings name doc) m w i r =
      let at = of_app name i in
      (
        record {
          docs = λ j q.
              put_apart c _ doc _ w at (of_process j q) (λ e. (apart j j name).1 (sym e))
                (r.docs j q);
          apps = λ n q. ground (
            arith,
            got_put c (app_settings_key name) doc (app_settings_key n) w at (of_app n q),
            app_key_eq name n,
            lookup-insert name n doc m.apps,
            r.apps n q,
          );
          states = λ j q.
              put_apart c _ doc _ w at (of_state j q) (λ e. (apart j j name).2 (sym e))
                (r.states j q);
        },
        outcome-ok _ (c.put_ok (app_settings_key name) doc w at),
      )
  write-Represents c (remove_process k) m w i r =
      let at = of_process k i in
      (
        record {
          docs = λ j q. ground (
            arith,
            got_delete c (process_doc_key k) (process_doc_key j) w at (of_process j q),
            doc_key_eq k j i q,
            lookup-erase k j m.processes,
            r.docs j q,
          );
          apps = λ n q. delete_apart c _ _ w at (of_app n q) (apart k k n).1 (r.apps n q);
          states = λ j q. delete_apart c _ _ w at (of_state j q) (apart k j "").0 (r.states j q);
        },
        outcome-ok _ (c.delete_ok (process_doc_key k) w at),
      )
  write-Represents c (record_state k s) m w i r =
      let at = of_state k i in
      (
        record {
          docs = λ j q.
              put_apart c _ _ _ w at (of_process j q) (λ e. (apart j k "").0 (sym e)) (r.docs j q);
          apps = λ n q. put_apart c _ _ _ w at (of_app n q) (apart k k n).2 (r.apps n q);
          states = λ j q. ground (
            arith,
            got_put c (state_key k) (json.marshal s) (state_key j) w at (of_state j q),
            state_key_eq k j i q,
            lookup-insert k j s m.states,
            r.states j q,
          );
        },
        outcome-ok _ (c.put_ok (state_key k) (json.marshal s) w at),
      )
  write-Represents c (forget_state k) m w i r =
      let at = of_state k i in
      (
        record {
          docs = λ j q.
              delete_apart c _ _ w at (of_process j q) (λ e. (apart j k "").0 (sym e)) (r.docs j q);
          apps = λ n q. delete_apart c _ _ w at (of_app n q) (apart k k n).2 (r.apps n q);
          states = λ j q. ground (
            arith,
            got_delete c (state_key k) (state_key j) w at (of_state j q),
            state_key_eq k j i q,
            lookup-erase k j m.states,
            r.states j q,
          );
        },
        outcome-ok _ (c.delete_ok (state_key k) w at),
      )

  -- the writes, one after the other
  unfoldable pub doc_writes : List Write → b.W → b.W
  doc_writes [] w = w
  doc_writes (op ∷ rest) w = doc_writes rest (doc_write op w).0

  pub writes-Represents :
      Works b
      → (ops : List Write) (m : MemStore) (w : b.W) → All IsCleanWrite ops
      → Represents m w
      → Represents (mem_writes ops m) (doc_writes ops w)
  unfolding mem_writes doc_writes
  writes-Represents c [] m w i r = r
  writes-Represents c (op ∷ rest) m w (i, is) r =
      writes-Represents c rest _ _ is (write-Represents c op m w i r).0

  -- Over a bucket whose calls succeed for the documents of plain names (letters, digits, dashes and
  -- underscores, and not empty), and from a bucket that holds what the store in memory holds of these:
  -- after any sequence of writes about applications, users and processes with plain names, such a
  -- process's document and such an application's settings read the same in both stores, the empty
  -- document included.
  pub reads_agree :
      Works b
      → (ops : List Write) (m : MemStore) (w : b.W) → All IsCleanWrite ops
      → Represents m w
      → (key : ProcessKey) (name : String) → IsClean key
      → is_plain name ≡ true
      → (process b json key (doc_writes ops w) ≡ Mem.process key (mem_writes ops m))
        × (app_settings b json name (doc_writes ops w) ≡ Mem.app_settings name (mem_writes ops m))
  unfolding process app_settings Mem.process Mem.app_settings
  reads_agree c ops m w i r key name q n =
      let end = writes-Represents c ops m w i r in
      (ground (arith, end.docs key q), ground (arith, end.apps name n))
