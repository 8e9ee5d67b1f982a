-- ===== src/Tests/Entries.antt =====
-- The service configuration.
use waleed_bus.Base.{
  ℕ, ◌≡◌, refl, true, false, List, [], ◌∷◌, some, none, map, Result, ok, ok_value,
}
use waleed_bus.Schema.{ConfigEntryType}
use waleed_bus.Config.{EntryInput, NormalizedEntry, word_of, normalize_config_entries}
use waleed_bus.Config.Stable.{sent_again, normalize-sent_again}

-- " Call " with the number "+20 100-0000".
abbrev hotline : EntryInput
hotline = record {
  id = none;
  text = b' ' ∷ b'C' ∷ b'a' ∷ b'l' ∷ b'l' ∷ b' ' ∷ [];
  kind = word_of ConfigEntryType.phone;
  value = b'+' ∷ b'2' ∷ b'0' ∷ b' ' ∷ b'1' ∷ b'0' ∷ b'0' ∷ b'-' ∷ b'0' ∷ b'0' ∷ b'0' ∷ b'0' ∷ [];
  is_active = none;
}

abbrev site : EntryInput
site = record {
  id = some 4;
  text = b'S' ∷ [];
  kind = word_of ConfigEntryType.website;
  value = b'h' ∷ b't' ∷ b't' ∷ b'p' ∷ b's' ∷ b':' ∷ b'/' ∷ b'/' ∷ b'w' ∷ [];
  is_active = some false;
}

abbrev reading : Result (List NormalizedEntry)
reading = normalize_config_entries (hotline ∷ site ∷ [])

read : (ns : List NormalizedEntry) × (reading ≡ ok ns)
unfolding normalize_config_entries waleed_bus.Config.normalize_from
    waleed_bus.Config.normalize_entry waleed_bus.Base.Text.trim waleed_bus.Config.kind_of
    waleed_bus.Base.Text.text_eq waleed_bus.Config.is_phone_value waleed_bus.Config.compacted
    waleed_bus.Base.Text.every waleed_bus.Base.Text.is_digit waleed_bus.Config.is_website
    waleed_bus.Config.after_prefix waleed_bus.Config.is_rest
read = ok_value reading refl

normalize-sent_again_example : normalize_config_entries (map sent_again read.0) ≡ ok read.0
normalize-sent_again_example = normalize-sent_again (hotline ∷ site ∷ []) read.0 read.1
