-- ===== src/Paging.antt =====
-- src/common/pagination.ts: pages of a listing by an opaque cursor. The encoding of the cursor
-- (`Buffer`, base64url) is a parameter, and `findMany` with a cursor is a query on the rows.
pub mod Walk
use waleed_bus.Base.{
  ℕ, zero, suc, ◌+◌, min, Bool, true, false, ◌&&◌, Option, none, some, List, [], ◌∷◌, ◌++◌, ◌==◌,
  ltb, if◌then◌else◌, length,
}
use waleed_bus.Base.Text.{Text, truthy}

abbrev pub default_page_size : ℕ
default_page_size = 20

abbrev pub max_page_size : ℕ
max_page_size = 100

-- `query`: the limit is `Number(query.limit)` where that is an integer above or at 0.
pub record PageQuery : Type 0 where
  pub cursor : Option Text
  pub limit : Option ℕ

pub record CursorArgs : Type 0 where
  pub take : ℕ
  pub page_size : ℕ
  pub skip : ℕ
  pub after : Option ℕ

pub record CursorPage (A : Type 0) : Type 0 where
  pub items : List A
  pub next_cursor : Option Text

-- `Number.isInteger(rawLimit) && rawLimit > 0 ? rawLimit : defaultSize`.
abbrev pub limit_or : Option ℕ → ℕ → ℕ
limit_or none size = size
limit_or (some zero) size = size
limit_or (some (suc n)) size = suc n

abbrev pub page_size_of : Option ℕ → ℕ → ℕ
page_size_of limit size = min (limit_or limit size) max_page_size

abbrev pub cursor_args : (Text → ℕ) → Option Text → ℕ → CursorArgs
cursor_args decode none size = record { take = size + 1; page_size = size; skip = 0; after = none }
cursor_args decode (some c) size = record {
  take = size + 1;
  page_size = size;
  skip = 1;
  after = some (decode c);
}

unfoldable pub build_cursor_args : (Text → ℕ) → PageQuery → ℕ → CursorArgs
build_cursor_args decode query size =
    cursor_args decode (truthy query.cursor) (page_size_of query.limit size)

module _ {A : Type 0} where
  -- `items.slice(0, n)`, and what it leaves.
  unfoldable pub take : ℕ → List A → List A
  take zero xs = []
  take (suc n) [] = []
  take (suc n) (x ∷ xs) = x ∷ take n xs

  unfoldable pub drop : ℕ → List A → List A
  drop zero xs = xs
  drop (suc n) [] = []
  drop (suc n) (x ∷ xs) = drop n xs

  -- `page[page.length - 1]`, where there is one.
  unfoldable pub last? : List A → Option A
  last? [] = none
  last? (x ∷ xs) = elim (last? xs) [ none ↦ some x | some y ↦ some y ]

  module _ (key : A → ℕ) where
    -- The rows from the one of the cursor on; none, if it is gone.
    unfoldable pub from_key : ℕ → List A → List A
    from_key k [] = []
    from_key k (x ∷ xs) = if key x == k then x ∷ xs else from_key k xs

    abbrev pub start : Option ℕ → List A → List A
    start none rows = rows
    start (some k) rows = from_key k rows

    -- `findMany({ ...cursorArgs, take })` over the rows in their order.
    unfoldable pub find_many : CursorArgs → List A → List A
    find_many args rows = take args.take (drop args.skip (start args.after rows))

    abbrev pub cursor_of : (ℕ → Text) → Option A → Option Text
    cursor_of encode none = none
    cursor_of encode (some x) = some (encode (key x))

    unfoldable pub to_cursor_page : (ℕ → Text) → List A → ℕ → CursorPage A
    to_cursor_page encode items size =
        let page = take size items in
        record {
          items = page;
          next_cursor = if ltb size (length items) then cursor_of encode (last? page) else none;
        }

    -- A listing: the arguments, the query, and the page.
    unfoldable pub list_page : (ℕ → Text) → (Text → ℕ) → PageQuery → ℕ → List A → CursorPage A
    unfolding build_cursor_args find_many to_cursor_page
    list_page encode decode query size rows =
        let args = build_cursor_args decode query size in
        to_cursor_page encode (find_many args rows) args.page_size

    abbrev pub joined : List A → Option (List A) → Option (List A)
    joined items none = none
    joined items (some rest) = some (items ++ rest)

    abbrev pub follow : List A → Option Text → (Text → Option (List A)) → Option (List A)
    follow items none next = some items
    follow items (some c) next = joined items (next c)

    -- A client that follows the cursors to the end, if the fuel lasts.
    unfoldable pub walk :
        (ℕ → Text) → (Text → ℕ) → Option ℕ → ℕ → ℕ → Option Text → List A → Option (List A)
    walk encode decode limit size zero cursor rows = none
    walk encode decode limit size (suc fuel) cursor rows =
        let page = list_page encode decode (record { cursor = cursor; limit = limit }) size rows in
        follow page.items page.next_cursor (λ c. walk encode decode limit size fuel (some c) rows)
