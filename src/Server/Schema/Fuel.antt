-- ===== src/Server/Schema/Fuel.antt =====
-- src/server.cpp: how much fuel schema_validate needs.
use cppmcp.Base.{
  ℕ, zero, suc, ◌+◌, ◌<◌, ◌≤◌, String, ◌≡◌, refl, ap, Bool, true, List, [], ◌∷◌, Option, none, some,
  if◌then◌else◌, is_empty, any, All, OnSome, ◌<>◌, arith, Bool-cases, Option-cases, inl, inr,
}
use cppmcp.Json.{Json, is_object, is_array, is_string}
use cppmcp.Decimal.{to_string}
use cppmcp.Server.Schema.{
  member_with, type_schema, type_ok, validate_members, validate_items, validate_parts,
  schema_validate, below, members_violation, items_violation, has_type, text_of, properties_of,
  items_of,
}

-- JSON values are finite trees: a value is larger than its members and elements, and an object of one
-- member is larger by one.
pub record IsSized {V : Type 0} (json : Json V) (size : V → ℕ) : Type 0 where
  pub at?-size : (v : V) (k : String) (x : V) → json.at? v k ≡ some x → size x < size v
  pub elements-size : (v : V) → All (λ x. size x < size v) (json.elements v)
  pub members-size :
      (v : V) → All (λ (member : String × V). size member.1 < size v) (json.members v)
  pub size-from_object : (k : String) (x : V) → size (json.from_object ((k, x) ∷ [])) ≡ suc (size x)

any-cong :
    {A : Type 0} (p q : A → Bool) (xs : List A) → All (λ x. p x ≡ q x) xs → any p xs ≡ any q xs
any-cong p q [] h = refl
any-cong p q (x ∷ xs) (e, h) = rw (e, any-cong p q xs h) refl

module _ {V : Type 0} ⦃json : Json V⦄ where
  type_ok-cong :
      (f g : V → V → Bool) (value : V) (t : Option V)
      → OnSome
          (λ t.
            All (λ alt. f value (type_schema alt) ≡ g value (type_schema alt)) (json.elements t))
          t
      → type_ok f value t ≡ type_ok g value t
  unfolding type_ok
  type_ok-cong f g value none same = refl
  type_ok-cong f g value (some t) same =
      ap (λ b. if is_string t then has_type value (text_of t) else if is_array t then b else true)
        (any-cong (λ alt. f value (type_schema alt)) (λ alt. g value (type_schema alt))
          (json.elements t) same)

  -- The validators agree on what is smaller than the value and the schema together.
  abbrev Agree : (size : V → ℕ) (n : ℕ) (f g : V → V → String → String) → Type 0
  Agree size n f g = (v s : V) (path : String) → size v + size s < n → f v s path ≡ g v s path

  validate_members-cong :
      (size : V → ℕ)
      → IsSized json size
      → (n : ℕ) (f g : V → V → String → String) (value properties : V) (path : String)
        (members : List (String × V))
      → Agree size n f g
      → size value + size properties ≤ n
      → All (λ (member : String × V). size member.1 < size value) members
      → validate_members f properties path members ≡ validate_members g properties path members
  unfolding validate_members
  validate_members-cong size sized n f g value properties path [] agree le smaller = refl
  validate_members-cong size sized n f g value properties path ((key, v) ∷ members) agree le
        (lt, smaller) =
      let rest =
        validate_members-cong size sized n f g value properties path members agree le smaller in
      elim (Option-cases (json.at? properties key)) [
        | inl e ↦ rw e rest
        | inr (sub, e) ↦
            rw
              (
                e,
                agree v sub (below path key)
                    (omega (arith, lt, le, sized.at?-size properties key sub e)),
                rest,
              )
              refl
      ]

  validate_items-cong :
      (size : V → ℕ) (n : ℕ) (f g : V → V → String → String) (value items : V) (path : String)
      (i : ℕ) (values : List V)
      → Agree size n f g
      → size value + size items ≤ n
      → All (λ v. size v < size value) values
      → validate_items f items path i values ≡ validate_items g items path i values
  unfolding validate_items
  validate_items-cong size n f g value items path i [] agree le smaller = refl
  validate_items-cong size n f g value items path i (v ∷ values) agree le (lt, smaller) =
      rw
        (
          agree v items (path <> ("[" <> (to_string i <> "]"))) (omega (arith, lt, le)),
          validate_items-cong size n f g value items path (suc i) values agree le smaller,
        )
        refl

  smaller-member :
      (size : V → ℕ)
      → IsSized json size
      → (schema : V) (key : String) (test : V → Bool) (v : V)
      → member_with test (json.at? schema key) ≡ some v
      → size v < size schema
  smaller-member size sized schema key test v e =
      at_some (json.at? schema key) (sized.at?-size schema key) e
    where
      at_some :
          (o : Option V)
          → ((x : V) → o ≡ some x → size x < size schema)
          → member_with test o ≡ some v
          → size v < size schema
      at_some none small h = absurd (ground arith)
      at_some (some x) small h = elim (Bool-cases (test x)) [
        | inl passed ↦ ground (arith, small x refl, passed, h)
        | inr failed ↦ absurd (ground (arith, failed, h))
      ]

  validate_parts-cong :
      (size : V → ℕ)
      → IsSized json size
      → (f g : V → V → String → String) (value schema : V) (path : String)
      → Agree size (size value + size schema) f g
      → validate_parts f value schema path ≡ validate_parts g value schema path
  unfolding validate_parts
  validate_parts-cong size sized f g value schema path agree =
      rw
        (
          in_members (properties_of schema)
              (smaller-member size sized schema "properties" is_object),
          in_items (items_of schema) (smaller-member size sized schema "items" is_object),
        )
        refl
    where
      in_members :
          (o : Option V)
          → ((p : V) → o ≡ some p → size p < size schema)
          → members_violation f value path o ≡ members_violation g value path o
      in_members none small = refl
      in_members (some p) small =
          validate_members-cong size sized (size value + size schema) f g value p path
            (json.members value) agree (omega (arith, small p refl)) (sized.members-size value)

      in_items :
          (o : Option V)
          → ((p : V) → o ≡ some p → size p < size schema)
          → items_violation f value path o ≡ items_violation g value path o
      in_items none small = refl
      in_items (some p) small =
          validate_items-cong size (size value + size schema) f g value p path 0
            (json.elements value) agree (omega (arith, small p refl)) (sized.elements-size value)

  abbrev passes : (V → V → String → String) → String → V → V → Bool
  passes validate path v s = is_empty (validate v s path)

  types-cong :
      (size : V → ℕ)
      → IsSized json size
      → (f g : V → V → String → String) (value schema : V) (path : String)
      → Agree size (size value + size schema) f g
      → type_ok (passes f path) value (json.at? schema "type")
        ≡ type_ok (passes g path) value (json.at? schema "type")
  types-cong size sized f g value schema path agree =
      types (json.at? schema "type") (sized.at?-size schema "type")
    where
      alternatives :
          (t : V)
          → size t < size schema
          → (alts : List V) → All (λ x. size x < size t) alts
          → All
              (λ alt. passes f path value (type_schema alt) ≡ passes g path value (type_schema alt))
              alts
      alternatives t small [] h = tt
      alternatives t small (alt ∷ alts) (p, h) = (
        ap is_empty (
            agree value (type_schema alt) path
              (omega (arith, small, p, sized.size-from_object "type" alt))),
        alternatives t small alts h,
      )

      types :
          (o : Option V)
          → ((t : V) → o ≡ some t → size t < size schema)
          → type_ok (passes f path) value o ≡ type_ok (passes g path) value o
      types none small = type_ok-cong (passes f path) (passes g path) value none tt
      types (some t) small =
          type_ok-cong (passes f path) (passes g path) value (some t)
            (alternatives t (small t refl) (json.elements t) (sized.elements-size t))

  -- The check of arguments ends: where parts of a value are smaller than the value, every fuel above the
  -- sizes of the value and the schema gives the same.
  pub schema_validate-enough :
      (size : V → ℕ)
      → IsSized json size
      → (n m : ℕ) (value schema : V) (path : String) → size value + size schema < n
      → size value + size schema < m
      → schema_validate n value schema path ≡ schema_validate m value schema path
  unfolding schema_validate
  schema_validate-enough size sized zero m value schema path lt lt' = absurd (omega (arith, lt))
  schema_validate-enough size sized (suc n) zero value schema path lt lt' =
      absurd (omega (arith, lt'))
  schema_validate-enough size sized (suc n) (suc m) value schema path lt lt' =
      let agree : Agree size (size value + size schema) (schema_validate n) (schema_validate m) =
        λ v s p small.
          schema_validate-enough size sized n m v s p (omega (arith, small, lt))
            (omega (arith, small, lt')) in
      rw
        (
          types-cong size sized (schema_validate n) (schema_validate m) value schema path agree,
          validate_parts-cong size sized (schema_validate n) (schema_validate m) value schema path
              agree,
        )
        refl
