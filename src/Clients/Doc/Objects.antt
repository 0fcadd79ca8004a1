-- ===== src/Clients/Doc/Objects.antt =====
-- platform/store/s3.go: the bucket over S3. The client of the AWS SDK is a parameter, `Objects`, on one
-- bucket; of its errors only a missing key is told apart.
use Prim.Native.String
use mathlib.Core.Path.{subst}
use text.Mathlib.TextLemmas.{append_cancel_left, append_assoc, cons-append, nil-append}
use pegasus_suite.Prelude.{
  String, ◌≡◌, ◌↔◌, refl, sym, ap, ◌∙◌, Option, none, List, [], ◌∷◌, str_eq, str_eq_iff,
  if◌then◌else◌, Bool-cases, inl, inr,
}
use pegasus_suite.Prelude.Text.{trim_prefix, strip_prefix, trim_prefix-append}
use pegasus_suite.Clients.{Result, ok, err}
use pegasus_suite.Clients.Doc.{
  Bucket, BucketError, no_such_key, app_settings_key, process_doc_key, state_key,
}
use pegasus_suite.Clients.Doc.Keys.{IsDocKey, of_process, of_state, of_app, str_eq-reflects}
use pegasus_suite.Clients.Doc.Laws.{Works}
use pegasus_suite.Clients.Doc.Listing.{In, Under, IsDocDir, of_user, of_states, Lists}

pub record Objects : Type 1 where
  pub W : Type 0
  pub get_object : String → W → Result BucketError String
  pub put_object : String → String → W → W × Option BucketError
  pub delete_object : String → W → W × Option BucketError
  -- the keys of all pages
  pub list_objects : String → W → Result BucketError (List String)

-- `s3Bucket.key`
unfoldable pub object_key : String → String → String
object_key prefix k =
    let bare = trim_prefix "/" k in
    if str_eq prefix "" then bare else String.◌++◌ prefix (String.◌++◌ "/" bare)

unfoldable pub trim_each : String → List String → List String
trim_each prefix [] = []
trim_each prefix (k ∷ rest) = trim_prefix prefix k ∷ trim_each prefix rest

-- what stands before a key in the name of its object
abbrev pub before : String → String
before prefix = if str_eq prefix "" then "" else String.◌++◌ prefix "/"

-- `List`
unfoldable pub list_keys : (s : Objects) → String → String → s.W → Result BucketError (List String)
unfolding object_key trim_each
list_keys s prefix dir w = elim (s.list_objects (object_key prefix dir) w) [
  | err e ↦ err e
  | ok keys ↦ ok (trim_each (before prefix) keys)
]

-- `OpenS3`, of a client and the prefix of the URL
unfoldable pub s3_bucket : Objects → String → Bucket
unfolding object_key list_keys
s3_bucket s prefix = record {
  W = s.W;
  get = λ k w. s.get_object (object_key prefix k) w;
  put = λ k v w. s.put_object (object_key prefix k) v w;
  delete = λ k w. s.delete_object (object_key prefix k) w;
  list = λ dir w. list_keys s prefix dir w;
}

-- What S3 documents of an object that can be written: it reads as it was last put or deleted.
pub record IsConsistent (s : Objects) : Type 0 where
  pub put_ok : (k v : String) (w : s.W) → (s.put_object k v w).1 ≡ none
  pub delete_ok : (k : String) (w : s.W) → (s.delete_object k w).1 ≡ none
  pub get-put :
      (k v j : String) (w : s.W)
      → s.get_object j (s.put_object k v w).0 ≡ (if str_eq k j then ok v else s.get_object j w)
  pub get-delete :
      (k j : String) (w : s.W)
      → s.get_object j (s.delete_object k w).0
        ≡ (if str_eq k j then err no_such_key else s.get_object j w)

-- a key that starts as those of documents do, and so not with a slash
abbrev Settled : String → Type 0
Settled k = (rest : String) × (k ≡ String.◌∷◌ "s" rest)

Settled-append : (a b : String) → Settled a → Settled (String.◌++◌ a b)
Settled-append a b (rest, e) =
    (String.◌++◌ rest b, ap (λ x. String.◌++◌ x b) e ∙ cons-append "s" rest b)

doc_key-Settled : (k : String) → IsDocKey k → Settled k
unfolding process_doc_key state_key app_settings_key
doc_key-Settled k (of_process key c) =
    Settled-append "settings/processes/" _ ("ettings/processes/", refl)
doc_key-Settled k (of_state key c) = Settled-append "state/" _ ("tate/", refl)
doc_key-Settled k (of_app name c) = Settled-append "settings/apps/" _ ("ettings/apps/", refl)

doc_dir-Settled : (dir : String) → IsDocDir dir → Settled dir
doc_dir-Settled dir (of_user app user p q) =
    Settled-append "settings/processes/" _ ("ettings/processes/", refl)
doc_dir-Settled dir (of_states app p) = Settled-append "state/" _ ("tate/", refl)

trim-Settled : (k : String) → Settled k → trim_prefix "/" k ≡ k
unfolding strip_prefix
trim-Settled k (rest, e) = ap (trim_prefix "/") e ∙ sym e

object_key-Settled :
    (prefix k : String) → Settled k → object_key prefix k ≡ String.◌++◌ (before prefix) k
unfolding object_key
object_key-Settled prefix k x = elim (Bool-cases (str_eq prefix "")) [
  | inl b ↦ rw (trim-Settled k x, b) (sym (nil-append k))
  | inr b ↦ rw (trim-Settled k x, b) (sym (append_assoc prefix "/" k))
]

object_key-injective :
    (prefix k j : String)
    → IsDocKey k
    → IsDocKey j
    → object_key prefix k ≡ object_key prefix j
    → k ≡ j
object_key-injective prefix k j x y e = append_cancel_left (before prefix) k j (
    sym (object_key-Settled prefix k (doc_key-Settled k x))
    ∙ (e ∙ object_key-Settled prefix j (doc_key-Settled j y)))

object_key_eq :
    (prefix k j : String)
    → IsDocKey k
    → IsDocKey j
    → str_eq (object_key prefix k) (object_key prefix j) ≡ str_eq k j
object_key_eq prefix k j x y =
    str_eq-reflects (object_key prefix k) (object_key prefix j) (str_eq k j)
      (λ e. (str_eq_iff k j).1 (object_key-injective prefix k j x y e))
      (λ e. ap (object_key prefix) ((str_eq_iff k j).0 e))

-- the documents of plain names read as they were last written or deleted
s3_bucket-Works : (s : Objects) (prefix : String) → IsConsistent s → Works (s3_bucket s prefix)
unfolding s3_bucket
s3_bucket-Works s prefix c = record {
  put_ok = λ k v w x. c.put_ok (object_key prefix k) v w;
  delete_ok = λ k w x. c.delete_ok (object_key prefix k) w;
  get-put = λ k v j w x y.
      c.get-put (object_key prefix k) v (object_key prefix j) w
      ∙ ap (λ b. if b then ok v else s.get_object (object_key prefix j) w)
          (object_key_eq prefix k j x y);
  get-delete = λ k j w x y.
      c.get-delete (object_key prefix k) (object_key prefix j) w
      ∙ ap (λ b. if b then err no_such_key else s.get_object (object_key prefix j) w)
          (object_key_eq prefix k j x y);
}

-- What S3 documents of a listing: the objects that are there, of those whose names start as asked.
pub record IsListing (s : Objects) : Type 0 where
  pub lists :
      (start : String) (w : s.W)
      → (names : List String) × (s.list_objects start w ≡ ok names)
        × ((o : String)
            → In o names ↔ (Under start o × ((body : String) × (s.get_object o w ≡ ok body))))

trim_each-in :
    (p k : String) (names : List String) → In k names → In (trim_prefix p k) (trim_each p names)
unfolding trim_each
trim_each-in p k [] h = h
trim_each-in p k (n ∷ names) (inl e) = inl (ap (trim_prefix p) e)
trim_each-in p k (n ∷ names) (inr h) = inr (trim_each-in p k names h)

in-trim_each :
    (p k : String) (names : List String)
    → In k (trim_each p names)
    → (o : String) × In o names × (trim_prefix p o ≡ k)
unfolding trim_each
in-trim_each p k [] h = absurd h
in-trim_each p k (n ∷ names) (inl e) = (n, inl refl, e)
in-trim_each p k (n ∷ names) (inr h) = let (o, i, e) = in-trim_each p k names h in (o, inr i, e)

-- the listings of the directories of documents
s3_bucket-Lists : (s : Objects) (prefix : String) → IsListing s → Lists (s3_bucket s prefix)
unfolding s3_bucket list_keys
s3_bucket-Lists s prefix c = record {
  listed = λ dir w d.
      let p = before prefix in
      let below = String.◌++◌ dir "/" in
      let settled = Settled-append dir "/" (doc_dir-Settled dir d) in
      let at = object_key-Settled prefix below settled in
      let (names, e, i) = c.lists (object_key prefix below) w in
      (
        trim_each p names,
        rw (e, list_keys) refl,
        λ k h.
            let (o, o_in, o_k) = in-trim_each p k names h in
            let ((rest, u), (body, got)) = (i o).0 o_in in
            let whole : String.◌++◌ p (String.◌++◌ below rest) ≡ o =
              sym (append_assoc p below rest) ∙ (ap (λ x. String.◌++◌ x rest) (sym at) ∙ u) in
            let is_k : String.◌++◌ below rest ≡ k =
              sym (trim_prefix-append p (String.◌++◌ below rest))
              ∙ (ap (trim_prefix p) whole ∙ o_k) in
            let named : object_key prefix k ≡ o =
              ap (object_key prefix) (sym is_k)
              ∙ (object_key-Settled prefix (String.◌++◌ below rest)
                    (Settled-append below rest settled)
                  ∙ whole) in
            ((rest, is_k), (body, ap (λ x. s.get_object x w) named ∙ got)),
        λ k x ((rest, u), (body, got)).
            let named = object_key-Settled prefix k (doc_key-Settled k x) in
            let under : Under (object_key prefix below) (object_key prefix k) = (
              rest,
              ap (λ y. String.◌++◌ y rest) at
                  ∙ (append_assoc p below rest ∙ (ap (String.◌++◌ p) u ∙ sym named)),
            ) in
            let held = trim_each-in p (object_key prefix k) names ((i _).1 (under, (body, got))) in
            subst (λ y. In y (trim_each p names))
              (ap (trim_prefix p) named ∙ trim_prefix-append p k) held,
      );
}

-- Over a client whose calls succeed, whose objects read as they were last put or deleted and whose
-- listings give the objects that are there: the S3 bucket, whatever the prefix of its URL, keeps what
-- the document store relies on. The document of plain names reads as it was last written or deleted,
-- and the listing of a directory of documents gives keys below it that can be read, all those of
-- documents of plain names that are there among them.
pub s3_bucket-Serves :
    (s : Objects) (prefix : String)
    → IsConsistent s
    → IsListing s
    → Works (s3_bucket s prefix) × Lists (s3_bucket s prefix)
s3_bucket-Serves s prefix c l = (s3_bucket-Works s prefix c, s3_bucket-Lists s prefix l)
