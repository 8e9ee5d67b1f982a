-- ===== src/Config.antt =====
-- src/service-config: the entries that the passengers see to reach the service
-- (service-config-math.ts and service-config.service.ts).
pub mod Stable
use waleed_bus.Base.{
  ℕ, zero, suc, ◌+◌, Bool, true, false, not, ◌&&◌, ◌||◌, Option, none, some, List, [], ◌∷◌, ◌++◌,
  ◌==◌, leb, ltb, map, if◌then◌else◌, is_none, is_some, find?, select, update, delete_many, length,
  Result, ok, err, ◌>>=◌, ◌>>◌, refuse_if, require, coded, not_found, invalid_config_value,
  invalid_config_type, config_too_large, config_entry_not_found,
}
use waleed_bus.Base.Text.{Text, text_eq, trim, is_space, is_digit, every, within}
use waleed_bus.Schema.{ConfigEntry, ConfigEntryType, Action, Db, log}

abbrev pub max_config_entries : ℕ
max_config_entries = 100

-- `ConfigEntryInput`.
pub record EntryInput : Type 0 where
  pub id : Option ℕ
  pub text : Text
  pub kind : Text
  pub value : Text
  pub is_active : Option Bool

pub record NormalizedEntry : Type 0 where
  pub id : Option ℕ
  pub text : Text
  pub kind : ConfigEntryType
  pub value : Text
  pub is_active : Bool
  pub sort_order : ℕ

-- "PHONE", "WHATSAPP" and "WEBSITE".
unfoldable pub word_of : ConfigEntryType → Text
word_of ConfigEntryType.phone = b'P' ∷ b'H' ∷ b'O' ∷ b'N' ∷ b'E' ∷ []
word_of ConfigEntryType.whatsapp = b'W' ∷ b'H' ∷ b'A' ∷ b'T' ∷ b'S' ∷ b'A' ∷ b'P' ∷ b'P' ∷ []
word_of ConfigEntryType.website = b'W' ∷ b'E' ∷ b'B' ∷ b'S' ∷ b'I' ∷ b'T' ∷ b'E' ∷ []

unfoldable pub kind_of : Text → Option ConfigEntryType
unfolding word_of
kind_of w =
    if text_eq w (word_of ConfigEntryType.phone)
    then some ConfigEntryType.phone
    else if text_eq w (word_of ConfigEntryType.whatsapp)
    then some ConfigEntryType.whatsapp
    else if text_eq w (word_of ConfigEntryType.website)
    then some ConfigEntryType.website
    else none

abbrev pub solid : ℕ → Bool
solid c = not (is_space c)

-- `\S{1,500}` to the end.
unfoldable pub is_rest : Text → Bool
is_rest t = within 1 500 (length t) && every solid t

-- What follows a prefix.
unfoldable pub after_prefix : Text → Text → Option Text
after_prefix [] t = some t
after_prefix (p ∷ ps) [] = none
after_prefix (p ∷ ps) (c ∷ t) = if p == c then after_prefix ps t else none

abbrev pub http : Text
http = b'h' ∷ b't' ∷ b't' ∷ b'p' ∷ []

abbrev pub plain_mark : Text
plain_mark = b':' ∷ b'/' ∷ b'/' ∷ []

abbrev pub secure_mark : Text
secure_mark = b's' ∷ b':' ∷ b'/' ∷ b'/' ∷ []

abbrev pub rest_of : Option Text → Bool
rest_of none = false
rest_of (some t) = is_rest t

abbrev pub after_http : Option Text → Bool
after_http none = false
after_http (some t) = rest_of (after_prefix plain_mark t) || rest_of (after_prefix secure_mark t)

-- `^https?:\/\/\S{1,500}$`.
unfoldable pub is_website : Text → Bool
is_website value = after_http (after_prefix http value)

-- `value.replace(/[\s-]/g, '')`.
unfoldable pub compacted : Text → Text
compacted [] = []
compacted (c ∷ t) = let rest = compacted t in if is_space c || c == b'-' then rest else c ∷ rest

abbrev pub are_digits : Text → Bool
are_digits t = within 7 15 (length t) && every is_digit t

-- `^\+?[0-9]{7,15}$`.
unfoldable pub is_phone_value : Text → Bool
is_phone_value [] = false
is_phone_value (c ∷ t) = if c == b'+' then are_digits t else are_digits (c ∷ t)

abbrev pub value_fits : ConfigEntryType → Text → Bool
value_fits ConfigEntryType.website value = is_website value
value_fits _ value = is_phone_value (compacted value)

abbrev pub or_true : Option Bool → Bool
or_true none = true
or_true (some b) = b

unfoldable pub normalize_entry : ℕ → EntryInput → Result NormalizedEntry
normalize_entry index entry = do
  let text = trim entry.text
  let value = trim entry.value
  refuse_if (not (within 1 200 (length text))) 422 invalid_config_value
  kind ← require (kind_of entry.kind) 422 invalid_config_type
  refuse_if (not (value_fits kind value)) 422 invalid_config_value
  ok (record {
    id = entry.id;
    text = text;
    kind = kind;
    value = value;
    is_active = or_true entry.is_active;
    sort_order = index;
  })

-- The entries in their order, which throw as the first that is refused does.
unfoldable pub normalize_from : ℕ → List EntryInput → Result (List NormalizedEntry)
normalize_from index [] = ok []
normalize_from index (e ∷ es) =
    let rest = normalize_from (suc index) es in
    normalize_entry index e >>= λ n. rest >>= λ ns. ok (n ∷ ns)

unfoldable pub normalize_config_entries : List EntryInput → Result (List NormalizedEntry)
normalize_config_entries entries =
    refuse_if (ltb max_config_entries (length entries)) 422 config_too_large
    >> normalize_from 0 entries

abbrev pub has_entry_id : ℕ → ConfigEntry → Bool
has_entry_id i e = e.id == i

-- The ids of the entries that have one.
unfoldable pub given_ids : List NormalizedEntry → List ℕ
given_ids [] = []
given_ids (n ∷ ns) = let rest = given_ids ns in elim n.id [ none ↦ rest | some i ↦ i ∷ rest ]

abbrev pub is_given : List ℕ → ConfigEntry → Bool
is_given ids e = is_some (find? (λ i. i == e.id) ids)

abbrev pub is_spoofed : List ConfigEntry → ℕ → Bool
is_spoofed rows i = is_none (find? (has_entry_id i) rows)

unfoldable pub entry_row : ℕ → NormalizedEntry → ConfigEntry
entry_row i n = record {
  id = i;
  text = n.text;
  kind = n.kind;
  value = n.value;
  is_active = n.is_active;
  sort_order = n.sort_order;
}

abbrev pub save_entry : ℕ → NormalizedEntry → Option ℕ → List ConfigEntry → List ConfigEntry
save_entry fresh n none rows = rows ++ entry_row fresh n ∷ []
save_entry fresh n (some i) rows = update (has_entry_id i) (λ _. entry_row i n) rows

unfoldable pub save_entries : ℕ → List NormalizedEntry → List ConfigEntry → List ConfigEntry
save_entries fresh [] rows = rows
save_entries fresh (n ∷ ns) rows = save_entries (suc fresh) ns (save_entry fresh n n.id rows)

unfoldable pub replace_all : ℕ → ℕ → List EntryInput → Db → Result Db
replace_all fresh actor inputs db = do
  entries ← normalize_config_entries inputs
  let ids = given_ids entries
  refuse_if (is_some (find? (is_spoofed db.config_entries) ids)) 422 config_entry_not_found
  let rows = save_entries fresh entries (select (is_given ids) db.config_entries)
  ok (log (some actor) Action.config_update none (record db { config_entries = rows }))

-- `orderBy: [{ sortOrder: 'asc' }, { createdAt: 'asc' }]`: the rows stand in the order of creation.
unfoldable pub insert_entry : ConfigEntry → List ConfigEntry → List ConfigEntry
insert_entry e [] = e ∷ []
insert_entry e (x ∷ xs) =
    if leb e.sort_order x.sort_order then e ∷ x ∷ xs else x ∷ insert_entry e xs

unfoldable pub order_entries : List ConfigEntry → List ConfigEntry
order_entries [] = []
order_entries (e ∷ es) = insert_entry e (order_entries es)

unfoldable pub list_all : Db → List ConfigEntry
list_all db = order_entries db.config_entries

abbrev pub is_shown : ConfigEntry → Bool
is_shown e = e.is_active

unfoldable pub list_public : Db → List ConfigEntry
list_public db = order_entries (select is_shown db.config_entries)
