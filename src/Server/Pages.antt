-- ===== src/Server/Pages.antt =====
-- Pages of a list: what a client that follows the cursors receives.
use cppmcp.Base.{
  ℕ, zero, suc, ◌+◌, ◌-◌, ◌^◌, ◌≤◌, ◌<◌, min, ltb, ◌≡◌, refl, sym, ◌∙◌, ap, true, List, [], ◌∷◌,
  ◌++◌, Option, none, some, if◌then◌else◌, length, take, drop, arith, length-take, length-drop,
  take-append-drop, Bool-cases, inl, inr,
}
use cppmcp.Outcome.{ok, throw, std}
use cppmcp.Json.{Json, is_string}
use cppmcp.Decimal.{to_string, stoull-to_string, all_digits-to_string, to_string-ne-empty}
use cppmcp.Server.Lists.{page_end, page_of, list_offset}

module _ {V : Type 0} where
  page_of-ok :
      (offset p : ℕ) (items : List V)
      → offset + p < 2 ^ 64
      → offset ≤ length items
      → page_of offset p items
        ≡ ok (
          take (min (offset + p) (length items) - offset) (drop offset items),
          if ltb (offset + p) (length items) then some (offset + p) else none,
        )
  unfolding page_of page_end
  page_of-ok offset p items fits inside = ground arith

  -- The items that a client collects which starts at `offset` and follows the offset of each page,
  -- for at most so many pages; none if it has not reached the last page.
  unfoldable pub follow : (pages offset page_size : ℕ) → List V → Option (List V)
  follow zero offset p items = none
  follow (suc pages) offset p items = elim (page_of offset p items) [
    | throw e ↦ none
    | ok (page, next) ↦ elim next [
      | none ↦ some page
      | some n ↦ elim (follow pages n p items) [ none ↦ none | some rest ↦ some (page ++ rest) ]
    ]
  ]

  drop-nil : (n : ℕ) → drop {A = V} n [] ≡ []
  drop-nil zero = refl
  drop-nil (suc n) = refl

  drop-add : (m n : ℕ) (xs : List V) → drop n (drop m xs) ≡ drop (m + n) xs
  drop-add zero n xs = ground arith
  drop-add (suc m) n [] = drop-nil n ∙ sym (drop-nil (suc m + n))
  drop-add (suc m) n (x ∷ xs) =
      let sum : suc (m + n) ≡ suc m + n = omega arith in
      drop-add m n xs ∙ ap (λ k. drop k (x ∷ xs)) sum

  take-all : (n : ℕ) (xs : List V) → length xs ≤ n → take n xs ≡ xs
  take-all zero [] h = refl
  take-all zero (x ∷ xs) h = absurd (omega arith)
  take-all (suc n) [] h = refl
  take-all (suc n) (x ∷ xs) h = ap (◌∷◌ x) (take-all n xs (omega arith))

  follow-drop :
      (pages offset p : ℕ) (items : List V)
      → 0 < p
      → p + length items < 2 ^ 64
      → offset ≤ length items
      → length items < offset + pages
      → follow pages offset p items ≡ some (drop offset items)
  unfolding follow
  follow-drop zero offset p items _ _ inside enough = absurd (omega arith)
  follow-drop (suc pages) offset p items positive fits inside enough =
      elim (Bool-cases (ltb (offset + p) (length items))) [
        | inl more ↦ ground (
          arith,
          page_of-ok offset p items (omega arith) inside,
          follow-drop pages (offset + p) p items positive fits (ground arith) (omega arith),
          take-append-drop p (drop offset items),
          drop-add offset p items,
        )
        | inr last ↦ ground (
          arith,
          page_of-ok offset p items (omega arith) inside,
          take-all (length items - offset) (drop offset items)
              (omega (arith, length-drop offset items)),
        )
      ]

  -- A client that starts without a cursor and follows the offset of each page has, after at most one
  -- page more than there are items, every item of the list once and in order, whatever the size of a
  -- page is, if that and the number of items together are below 2^64.
  pub follow-all :
      (p : ℕ) (items : List V)
      → 0 < p
      → p + length items < 2 ^ 64
      → follow (suc (length items)) 0 p items ≡ some items
  follow-all p items positive fits =
      follow-drop (suc (length items)) 0 p items positive fits (omega arith) (omega arith)

  -- A page never has more items than the size of a page, and its next page starts after it does and
  -- before the end of the list, if the offset and the size are below 2^63.
  pub page_of-bounded :
      (offset p next : ℕ) (items page : List V)
      → 0 < p
      → offset < 2 ^ 63
      → p < 2 ^ 63
      → page_of offset p items ≡ ok (page, some next)
      → (length page ≤ p) × (offset < next) × (next < length items)
  unfolding page_of page_end
  page_of-bounded offset p next items page positive h k e = ground (
    arith,
    length-take (min (offset + p) (length items) - min offset (length items))
        (drop (min offset (length items)) items),
  )

  -- A cursor near 2^64 wraps around: if the sum of the offset and the size of a page is 2^64 or more,
  -- and what is left of it is less than the number of items and that at most the offset, then the page throws.
  pub page_of-wraps :
      (offset p : ℕ) (items : List V)
      → offset < 2 ^ 64
      → p < 2 ^ 64
      → 2 ^ 64 ≤ offset + p
      → offset + p < 2 ^ 64 + length items
      → length items ≤ offset
      → page_of offset p items ≡ throw (std "cannot create std::vector larger than max_size()")
  unfolding page_of page_end
  page_of-wraps offset p items h k wraps small beyond = ground arith

module _ {V : Type 0} ⦃json : Json V⦄ where
  -- The cursor that a page writes for an offset is read as this offset, whatever 64-bit number it is,
  -- with no loss and no refusal.
  pub list_offset-to_string :
      (p n : ℕ) (params cursor : V)
      → 0 < p
      → n < 2 ^ 64
      → json.at? params "cursor" ≡ some cursor
      → is_string cursor ≡ true
      → json.get_string cursor ≡ ok (to_string n)
      → list_offset p params ≡ ok (some n)
  unfolding list_offset
  list_offset-to_string p n params cursor positive fits there text reads =
      ground (arith, stoull-to_string {V = V} n fits, all_digits-to_string n, to_string-ne-empty n)
