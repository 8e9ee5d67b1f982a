-- ===== src/Paging/Walk.antt =====
-- A client that follows the cursors sees every row once.
use waleed_bus.Base.{
  ℕ, zero, suc, ◌+◌, ◌-◌, ◌≤◌, ◌<◌, min, ◌≡◌, ◌≢◌, refl, ap, sym, subst, ◌∙◌, true, false, Option,
  none, some, inl, inr, List, [], ◌∷◌, ◌++◌, ◌==◌, ltb, length, count, arith, Bool-cases,
}
use waleed_bus.Base.Text.{Text, truthy}
use waleed_bus.Paging.{
  CursorPage, page_size_of, build_cursor_args, take, drop, last?, from_key, find_many,
  to_cursor_page, list_page, walk,
}

page_size-bounds :
    (limit : Option ℕ) (size : ℕ)
    → 1 ≤ size
    → (1 ≤ page_size_of limit size) × (page_size_of limit size ≤ 100)
page_size-bounds none size h = (omega arith, omega arith)
page_size-bounds (some zero) size h = (omega arith, omega arith)
page_size-bounds (some (suc n)) size h = (omega arith, omega arith)

module _ {A : Type 0} where
  take-short : (n : ℕ) (xs : List A) → length xs ≤ n → take n xs ≡ xs
  unfolding take
  take-short zero [] h = refl
  take-short zero (x ∷ xs) h = absurd (omega arith)
  take-short (suc n) [] h = refl
  take-short (suc n) (x ∷ xs) h = ap (λ ys. x ∷ ys) (take-short n xs (omega arith))

  take-take : (n m : ℕ) (xs : List A) → n ≤ m → take n (take m xs) ≡ take n xs
  unfolding take
  take-take zero m xs h = refl
  take-take (suc n) zero xs h = absurd (omega arith)
  take-take (suc n) (suc m) [] h = refl
  take-take (suc n) (suc m) (x ∷ xs) h = ap (λ ys. x ∷ ys) (take-take n m xs (omega arith))

  length-take : (n : ℕ) (xs : List A) → length (take n xs) ≡ min n (length xs)
  unfolding take
  length-take zero xs = omega arith
  length-take (suc n) [] = omega arith
  length-take (suc n) (x ∷ xs) = omega (arith, length-take n xs)

  last?-snoc : (front : List A) (x : A) → last? (front ++ x ∷ []) ≡ some x
  unfolding last?
  last?-snoc [] x = refl
  last?-snoc (f ∷ fs) x = rw (last?-snoc fs x) refl

  ++-assoc : (a b c : List A) → (a ++ b) ++ c ≡ a ++ (b ++ c)
  ++-assoc [] b c = refl
  ++-assoc (x ∷ a) b c = ap (λ ys. x ∷ ys) (++-assoc a b c)

  -- A page that is full, by its last row.
  split :
      (n : ℕ) (xs : List A)
      → suc n ≤ length xs
      → (front : List A) × (x : A) × (rest : List A) × (xs ≡ front ++ x ∷ rest)
        × (take (suc n) xs ≡ front ++ x ∷ [])
        × (length rest + suc n ≡ length xs)
  unfolding take
  split n [] h = absurd (omega arith)
  split zero (x ∷ xs) h = ([], x, xs, refl, refl, omega arith)
  split (suc n) (x ∷ xs) h =
      let (front, y, rest, e, t, len) = split n xs (omega arith) in
      (x ∷ front, y, rest, ap (λ ys. x ∷ ys) e, ap (λ ys. x ∷ ys) t, omega arith)

module _ {A : Type 0} (key : A → ℕ) where
  -- One row at most has each key.
  abbrev pub DistinctKeys : List A → Type 0
  DistinctKeys rows = (k : ℕ) → count (λ a. key a == k) rows ≤ 1

  count-at :
      (k : ℕ) (front : List A) (x : A) (rest : List A)
      → key x ≡ k
      → 1 ≤ count (λ a. key a == k) (front ++ x ∷ rest)
  unfolding count
  count-at k [] x rest h = ground arith
  count-at k (f ∷ fs) x rest h = ground (arith, count-at k fs x rest h)

  -- The cursor leads back to its row.
  from_key-at :
      (front : List A) (x : A) (rest : List A)
      → count (λ a. key a == key x) (front ++ x ∷ rest) ≤ 1
      → from_key key (key x) (front ++ x ∷ rest) ≡ x ∷ rest
  unfolding from_key count
  from_key-at [] x rest h = ground arith
  from_key-at (f ∷ fs) x rest h =
      ground (arith, count-at (key x) fs x rest refl, from_key-at fs x rest)

truthy-filled : (t : Text) → t ≢ [] → truthy (some t) ≡ some t
truthy-filled [] h = absurd (h refl)
truthy-filled (c ∷ t) h = refl

module _ {A : Type 0} (key : A → ℕ) (encode : ℕ → Text) (decode : Text → ℕ) (limit : Option ℕ)
    (size : ℕ) where
  -- The page that shows the head of the rows that are left.
  unfoldable page_of : List A → CursorPage A
  unfolding to_cursor_page
  page_of rest =
      to_cursor_page key encode (take (page_size_of limit size + 1) rest) (page_size_of limit size)

  first-page :
      (rows : List A)
      → list_page key encode decode (record { cursor = none; limit = limit }) size rows
        ≡ page_of rows
  unfolding list_page build_cursor_args find_many drop page_of
  first-page rows = refl

  next-page :
      (k : ℕ) (rows rest : List A) (x : A)
      → ((i : ℕ) → decode (encode i) ≡ i)
      → ((i : ℕ) → encode i ≢ [])
      → from_key key k rows ≡ x ∷ rest
      → list_page key encode decode (record { cursor = some (encode k); limit = limit }) size rows
        ≡ page_of rest
  unfolding list_page build_cursor_args find_many drop page_of
  next-page k rows rest x round filled at =
      rw (truthy-filled (encode k) (filled k), round k, at) refl

  -- The last page, and a page before it.
  page_of-last :
      (rest : List A)
      → length rest ≤ page_size_of limit size
      → page_of rest ≡ record { items = rest; next_cursor = none }
  unfolding page_of to_cursor_page
  page_of-last rest h =
      let n = page_size_of limit size in
      let all : take (n + 1) rest ≡ rest = take-short (n + 1) rest (omega arith) in
      let short : ltb n (length rest) ≡ false = ground arith in
      rw (all, short, take-short n rest h) refl

  page_of-full :
      (rest : List A)
      → 1 ≤ page_size_of limit size
      → suc (page_size_of limit size) ≤ length rest
      → (front : List A) × (x : A) × (after : List A) × (rest ≡ front ++ x ∷ after)
        × (length after < length rest)
        × (page_of rest ≡ record { items = front ++ x ∷ []; next_cursor = some (encode (key x)) })
  unfolding page_of to_cursor_page
  page_of-full rest room h =
      let (front, x, after, e, shown, len) =
        split (page_size_of limit size - 1) rest (omega arith) in
      let n = page_size_of limit size in
      let suc_n : suc (n - 1) ≡ n = omega arith in
      let shown' : take n (take (n + 1) rest) ≡ front ++ x ∷ [] =
        take-take n (n + 1) rest (omega arith)
        ∙ subst (λ k. take k rest ≡ front ++ x ∷ []) suc_n shown in
      let more : ltb n (length (take (n + 1) rest)) ≡ true =
        ground (arith, length-take (n + 1) rest) in
      (front, x, after, e, omega arith, rw (more, shown', last?-snoc front x) refl)

  module _ (round : (i : ℕ) → decode (encode i) ≡ i) (filled : (i : ℕ) → encode i ≢ [])
      (room : 1 ≤ size) (rows : List A) (distinct : DistinctKeys key rows) where
    walk-last :
        (fuel : ℕ) (cursor : Option Text) (rest : List A)
        → length rest ≤ page_size_of limit size
        → list_page key encode decode (record { cursor = cursor; limit = limit }) size rows
          ≡ page_of rest
        → walk key encode decode limit size (suc fuel) cursor rows ≡ some rest
    unfolding walk
    walk-last fuel cursor rest short shows = rw (shows, page_of-last rest short) refl

    walk-rest :
        (fuel : ℕ) (cursor : Option Text) (front rest : List A)
        → rows ≡ front ++ rest
        → length rest < suc fuel
        → list_page key encode decode (record { cursor = cursor; limit = limit }) size rows
          ≡ page_of rest
        → walk key encode decode limit size (suc fuel) cursor rows ≡ some rest
    unfolding walk
    walk-rest zero cursor front rest e enough shows =
        let fits = (page_size-bounds limit size room).0 in
        walk-last zero cursor rest (omega arith) shows
    walk-rest (suc fuel) cursor front rest e enough shows =
        elim (Bool-cases (ltb (page_size_of limit size) (length rest))) [
          | inr short ↦ walk-last (suc fuel) cursor rest (ground arith) shows
          | inl more ↦
              let fits = (page_size-bounds limit size room).0 in
              let (init, x, after, parts, less, full) = page_of-full rest fits (ground arith) in
              let whole : rows ≡ (front ++ init) ++ x ∷ after =
                e ∙ ap (λ r. front ++ r) parts ∙ sym (++-assoc front init (x ∷ after)) in
              let one = subst (λ r. count (λ a. key a == key x) r ≤ 1) whole (distinct (key x)) in
              let at : from_key key (key x) rows ≡ x ∷ after =
                ap (λ r. from_key key (key x) r) whole
                ∙ from_key-at key (front ++ init) x after one in
              let ih =
                walk-rest fuel (some (encode (key x))) (front ++ init ++ x ∷ []) after
                  (whole ∙ sym (++-assoc (front ++ init) (x ∷ []) after)) (omega arith)
                  (next-page (key x) rows after x round filled at) in
              rw (shows, full, ih) (ap (λ r. some r) (++-assoc init (x ∷ []) after ∙ sym parts))
        ]

    -- A client that follows the cursors from the first page sees every row once and in order, and
    -- comes to an end: whatever limit it gives, no more pages than rows and one are read, and the
    -- pages joined are the listing. The keys of the rows are distinct, a cursor decodes to the key
    -- that it encodes and is not empty, and the default size of a page is not 0.
    pub walk-rows :
        (fuel : ℕ)
        → length rows ≤ fuel
        → walk key encode decode limit size (suc fuel) none rows ≡ some rows
    walk-rows fuel enough = walk-rest fuel none [] rows refl (omega arith) (first-page rows)
