-- ===== src/Pagination/Walk.antt =====
-- src/common/pagination/page.ts: a client that follows the cursors sees every row once.
use mathlib.Core.List.{append-nil, append_assoc}
use flyer_g_be.Base.{
  ℕ, zero, suc, ◌+◌, ◌≤◌, ◌<◌, ◌≡◌, refl, ap, sym, subst, ◌∙◌, ltb, Bool, true, Bool-cases, inl,
  inr, Option, none, some, List, [], ◌∷◌, ◌++◌, map, filter, length, All, arith,
}
use flyer_g_be.Pagination.{take, last, to_page, is_after, list}

module _ {Row : Type 0} (key : Row → ℕ) where
  -- The rows in the order of their keys, which differ.
  abbrev pub IsIncreasing : List Row → Type 0
  IsIncreasing [] = Unit
  IsIncreasing (r ∷ rows) = All (λ s. key r < key s) rows × IsIncreasing rows

module _ {Row Item : Type 0} (key : Row → ℕ) (to_item : Row → Item) where
  -- The items that a client gets that asks for page after page.
  unfoldable pub walk : (fuel limit now : ℕ) → (Row → Bool) → Option ℕ → List Row → List Item
  walk zero limit now hit cursor rows = []
  walk (suc fuel) limit now hit cursor rows =
      let page = list key to_item hit limit now cursor rows in
      page.items
      ++ elim page.next_cursor [ none ↦ [] | some next ↦ walk fuel limit now hit (some next) rows ]

  -- A list that is longer than `n`, cut after its element number `n`.
  record Cut (n : ℕ) (xs : List Row) : Type 0 where
    pub first : List Row
    pub at : Row
    pub rest : List Row
    pub whole : xs ≡ first ++ at ∷ rest
    pub size : length xs ≡ suc n + length rest
    pub taken : take (suc n) xs ≡ first ++ at ∷ []

  cut : (n : ℕ) (xs : List Row) → n < length xs → Cut n xs
  cut n [] h = absurd (omega arith)
  cut zero (x ∷ xs) h = record {
    first = [];
    at = x;
    rest = xs;
    whole = refl;
    size = omega arith;
    taken = refl;
  }
  cut (suc n) (x ∷ xs) h =
      let c = cut n xs (omega arith) in
      record {
        first = x ∷ c.first;
        at = c.at;
        rest = c.rest;
        whole = ap (λ l. x ∷ l) c.whole;
        size = omega (arith, c.size);
        taken = ap (λ l. x ∷ l) c.taken;
      }

  last-snoc : (first : List Row) (at : Row) → last (first ++ at ∷ []) ≡ some at
  last-snoc [] at = refl
  last-snoc (x ∷ []) at = refl
  last-snoc (x ∷ y ∷ first) at = last-snoc (y ∷ first) at

  All-at :
      (P : Row → Type 0) (first : List Row) (at : Row) (rest : List Row)
      → All P (first ++ at ∷ rest)
      → P at
  All-at P [] at rest (p, h) = p
  All-at P (x ∷ first) at rest (p, h) = All-at P first at rest h

  take_all : (n : ℕ) (xs : List Row) → length xs ≤ n → take n xs ≡ xs
  take_all zero [] h = refl
  take_all zero (x ∷ xs) h = absurd (omega arith)
  take_all (suc n) [] h = refl
  take_all (suc n) (x ∷ xs) h = ap (λ l. x ∷ l) (take_all n xs (omega arith))

  take-take : (n : ℕ) (xs : List Row) → take n (take (suc n) xs) ≡ take n xs
  take-take zero xs = refl
  take-take (suc n) [] = refl
  take-take (suc n) (x ∷ xs) = ap (λ l. x ∷ l) (take-take n xs)

  length-take : (n : ℕ) (xs : List Row) → n ≤ length xs → length (take n xs) ≡ n
  length-take zero xs h = refl
  length-take (suc n) [] h = absurd (omega arith)
  length-take (suc n) (x ∷ xs) h = omega (arith, length-take n xs (omega arith))

  map-append_items :
      (first : List Row) (at : Row) (rest : List Row)
      → map to_item (first ++ at ∷ []) ++ map to_item rest ≡ map to_item (first ++ at ∷ rest)
  map-append_items [] at rest = refl
  map-append_items (x ∷ first) at rest = ap (λ l. to_item x ∷ l) (map-append_items first at rest)

  filter_above :
      (n : ℕ) (xs : List Row) → All (λ s. n < key s) xs → filter (λ s. ltb n (key s)) xs ≡ xs
  filter_above n [] h = refl
  filter_above n (x ∷ xs) (p, h) = ground (arith, filter_above n xs h)

  -- After the key of a row come the rows after it.
  filter_after :
      (first : List Row) (at : Row) (rest : List Row)
      → IsIncreasing key (first ++ at ∷ rest)
      → filter (λ s. ltb (key at) (key s)) (first ++ at ∷ rest) ≡ rest
  filter_after [] at rest (h, o) = ground (arith, filter_above (key at) rest h)
  filter_after (x ∷ first) at rest (h, o) =
      let less = All-at (λ s. key x < key s) first at rest h in
      ground (arith, filter_after first at rest o)

  -- A page of what is left: all of it, or as much as fits, and where to go on.
  page_whole :
      (limit total now : ℕ) (left : List Row)
      → length left ≤ limit
      → let page = to_page key to_item limit total now (take (suc limit) left) in
        (page.items ≡ map to_item left) × (page.next_cursor ≡ none)
  unfolding to_page
  page_whole limit total now left h =
      let whole = take_all (suc limit) left (omega arith) in (ground arith, ground arith)

  page_part :
      (m total now : ℕ) (left : List Row) (c : Cut m left)
      → suc m < length left
      → let page = to_page key to_item (suc m) total now (take (suc (suc m)) left) in
        (page.items ≡ map to_item (c.first ++ c.at ∷ [])) × (page.next_cursor ≡ some (key c.at))
  unfolding to_page
  page_part m total now left c h =
      let longer = length-take (suc (suc m)) left (omega arith) in
      let fitting = take-take (suc m) left ∙ c.taken in
      let end = last-snoc c.first c.at in (ground arith, ground arith)

  walk_left :
      (fuel m now : ℕ) (hit : Row → Bool) (cursor : Option ℕ) (rows before left : List Row)
      → IsIncreasing key (filter hit rows)
      → filter hit rows ≡ before ++ left
      → filter (is_after key cursor) (filter hit rows) ≡ left
      → length left < fuel
      → walk fuel (suc m) now hit cursor rows ≡ map to_item left
  unfolding walk list
  walk_left zero m now hit cursor rows before left o whole e k = absurd (omega arith)
  walk_left (suc fuel) m now hit cursor rows before left o whole e k =
      elim (Bool-cases (ltb (suc m) (length left))) [
        | inr all_fit ↦
            let (items, none_next) =
              page_whole (suc m) (length (filter hit rows)) now left (ground arith) in
            rw (e, items, none_next) (append-nil (map to_item left))
        | inl longer ↦
            let c = cut m left (ground arith) in
            let (items, next) = page_part m (length (filter hit rows)) now left c (ground arith) in
            let whole' : filter hit rows ≡ (before ++ c.first) ++ c.at ∷ c.rest =
              whole
              ∙ ap (λ l. before ++ l) c.whole
              ∙ sym (append_assoc before c.first (c.at ∷ c.rest)) in
            let o' = subst (IsIncreasing key) whole' o in
            let e' =
              subst (λ l. filter (is_after key (some (key c.at))) l ≡ c.rest) (sym whole')
                (filter_after (before ++ c.first) c.at c.rest o') in
            let rest =
              walk_left fuel m now hit (some (key c.at)) rows ((before ++ c.first) ++ c.at ∷ [])
                c.rest o (whole' ∙ sym (append_assoc (before ++ c.first) (c.at ∷ []) c.rest)) e'
                (omega (arith, c.size)) in
            rw (e, items, next)
              (ap (λ l. map to_item (c.first ++ c.at ∷ []) ++ l) rest
                ∙ map-append_items c.first c.at c.rest
                ∙ ap (map to_item) (sym c.whole))
      ]

  filter-true : (xs : List Row) → filter (λ _. true) xs ≡ xs
  filter-true [] = refl
  filter-true (x ∷ xs) = ap (λ l. x ∷ l) (filter-true xs)

  -- A client that follows the cursors from the first page on sees every row that matches once and
  -- in order, for every page limit from 1 on, if the keys of the rows are in order and differ and
  -- the rows do not change in between; one page more than there are rows is always enough.
  pub walk-filter :
      (fuel m now : ℕ) (hit : Row → Bool) (rows : List Row)
      → IsIncreasing key (filter hit rows)
      → length (filter hit rows) < fuel
      → walk fuel (suc m) now hit none rows ≡ map to_item (filter hit rows)
  walk-filter fuel m now hit rows o k =
      walk_left fuel m now hit none rows [] (filter hit rows) o refl (filter-true (filter hit rows))
        k
