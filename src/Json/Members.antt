-- ===== src/Json/Members.antt =====
-- The members of an object after a row of assignments.
use cppmcp.Base.{
  String, ◌==◌, string_eq, ◌≡◌, refl, ◌∙◌, List, [], ◌∷◌, Option, none, some, arith, if◌then◌else◌,
}
use cppmcp.Json.{Kind, Json, IsJson, lookup, put_some, put_all}

-- The member that is read after an assignment of `o`, over what was there.
abbrev pub or_some : {A : Type 0} → Option A → Option A → Option A
or_some none old = old
or_some (some a) old = some a

pub or_some-none : {A : Type 0} (o : Option A) → or_some o none ≡ o
or_some-none none = refl
or_some-none (some a) = refl

abbrev pub last_of : {A : Type 0} → List (String × Option A) → String → Option A → Option A
last_of [] k old = old
last_of ((j, o) ∷ fields) k old = last_of fields k (if j == k then or_some o old else old)

module _ {V : Type 0} ⦃json : Json V⦄ (laws : IsJson json) where
  kind-put_some :
      (v : V) (key : String) (o : Option V)
      → json.kind v ≡ Kind.object
      → json.kind (put_some v key o) ≡ Kind.object
  kind-put_some v key none h = h
  kind-put_some v key (some x) h = laws.kind-put v key x h

  at?-put_some :
      (v : V) (key : String) (o : Option V) (k : String)
      → json.kind v ≡ Kind.object
      → json.at? (put_some v key o) k
        ≡ (if key == k then or_some o (json.at? v k) else json.at? v k)
  at?-put_some v key none k h = ground arith
  at?-put_some v key (some x) k h = laws.at?-put v key x k h

  pub kind-put_all :
      (v : V) (fields : List (String × Option V))
      → json.kind v ≡ Kind.object
      → json.kind (put_all v fields) ≡ Kind.object
  kind-put_all v [] h = h
  kind-put_all v ((key, o) ∷ fields) h =
      kind-put_all (put_some v key o) fields (kind-put_some v key o h)

  at?-put_all_of :
      (v : V) (fields : List (String × Option V)) (k : String)
      → json.kind v ≡ Kind.object
      → json.at? (put_all v fields) k ≡ last_of fields k (json.at? v k)
  at?-put_all_of v [] k h = refl
  at?-put_all_of v ((key, o) ∷ fields) k h =
      at?-put_all_of (put_some v key o) fields k (kind-put_some v key o h)
      ∙ rw (at?-put_some v key o k h)

  -- An object literal, and the assignments that follow it.
  pub at?-put_all :
      (ms : List (String × V)) (fields : List (String × Option V)) (k : String)
      → json.at? (put_all (json.from_object ms) fields) k ≡ last_of fields k (lookup k ms)
  at?-put_all ms fields k =
      at?-put_all_of (json.from_object ms) fields k (laws.kind-from_object ms)
      ∙ rw (laws.at?-from_object ms k)
