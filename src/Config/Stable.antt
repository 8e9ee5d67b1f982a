-- ===== src/Config/Stable.antt =====
-- A normalized list of entries, sent again.
use waleed_bus.Base.{
  ℕ, suc, ◌≡◌, refl, ap, sym, subst, ◌∙◌, false, not, some, inl, inr, ◌⊎◌, List, [], ◌∷◌, ◌++◌, map,
  ltb, length, ok, ok_eq, >>=-eq-ok, require-eq-ok, refuse_if-eq-ok, Bool-cases,
}
use mathlib.Core.List.{reverse, reverse-cons, reverse-append, reverse-reverse}
use waleed_bus.Base.Text.{Text, drop_spaces, is_space, trim, text_eq, within}
use waleed_bus.Schema.{ConfigEntryType}
use waleed_bus.Config.{
  EntryInput, NormalizedEntry, word_of, kind_of, value_fits, normalize_entry, normalize_from,
  normalize_config_entries, max_config_entries,
}

drop_spaces-drop_spaces : (t : Text) → drop_spaces (drop_spaces t) ≡ drop_spaces t
unfolding drop_spaces
drop_spaces-drop_spaces [] = refl
drop_spaces-drop_spaces (c ∷ t) = elim (Bool-cases (is_space c)) [
  | inl blank ↦ rw blank (drop_spaces-drop_spaces t)
  | inr mark ↦ rw (mark, mark) refl
]

-- A mark at the end keeps the drop from going past it.
drop_spaces-snoc :
    (t : Text) (c : ℕ) → is_space c ≡ false → drop_spaces (t ++ c ∷ []) ≡ drop_spaces t ++ c ∷ []
unfolding drop_spaces
drop_spaces-snoc [] c mark = rw mark refl
drop_spaces-snoc (x ∷ t) c mark = elim (Bool-cases (is_space x)) [
  | inl blank ↦ rw blank (drop_spaces-snoc t c mark)
  | inr other ↦ rw other refl
]

-- A text with no blank at its head is blank-free there after the drop at its end.
drop_spaces-cases :
    (t : Text)
    → (drop_spaces t ≡ []) ⊎ ((c : ℕ) × (v : Text) × (drop_spaces t ≡ c ∷ v) × (is_space c ≡ false))
unfolding drop_spaces
drop_spaces-cases [] = inl refl
drop_spaces-cases (c ∷ t) = elim (Bool-cases (is_space c)) [
  | inl blank ↦ rw blank (drop_spaces-cases t)
  | inr mark ↦ rw mark (inr (c, t, refl, mark))
]

drop_spaces-mark : (c : ℕ) (v : Text) → is_space c ≡ false → drop_spaces (c ∷ v) ≡ c ∷ v
unfolding drop_spaces
drop_spaces-mark c v mark = rw mark refl

unfoldable tail_of : Text → Text
tail_of v = reverse (drop_spaces (reverse v))

drop_end-cons :
    (c : ℕ) (v : Text)
    → is_space c ≡ false
    → reverse (drop_spaces (reverse (c ∷ v))) ≡ c ∷ tail_of v
unfolding tail_of
drop_end-cons c v mark =
    ap (λ r. reverse (drop_spaces r)) (reverse-cons c v)
    ∙ ap reverse (drop_spaces-snoc (reverse v) c mark)
    ∙ reverse-append (drop_spaces (reverse v)) (c ∷ [])

tail_of-tail_of : (v : Text) → tail_of (tail_of v) ≡ tail_of v
unfolding tail_of
tail_of-tail_of v =
    ap (λ r. reverse (drop_spaces r)) (reverse-reverse (drop_spaces (reverse v)))
    ∙ ap reverse (drop_spaces-drop_spaces (reverse v))

pub trim-trim : (t : Text) → trim (trim t) ≡ trim t
unfolding trim
trim-trim t = elim (drop_spaces-cases t) [
  | inl blank ↦ rw blank refl
  | inr (c, v, e, mark) ↦
      let once : reverse (drop_spaces (reverse (drop_spaces t))) ≡ c ∷ tail_of v =
        ap (λ r. reverse (drop_spaces (reverse r))) e ∙ drop_end-cons c v mark in
      let headed : drop_spaces (c ∷ tail_of v) ≡ c ∷ tail_of v =
        drop_spaces-mark c (tail_of v) mark in
      ap (λ r. reverse (drop_spaces (reverse (drop_spaces r)))) once
      ∙ ap (λ r. reverse (drop_spaces (reverse r))) headed
      ∙ drop_end-cons c (tail_of v) mark
      ∙ ap (λ r. c ∷ r) (tail_of-tail_of v)
      ∙ sym once
]

kind_of-word_of : (k : ConfigEntryType) → kind_of (word_of k) ≡ some k
unfolding kind_of word_of text_eq
kind_of-word_of ConfigEntryType.phone = refl
kind_of-word_of ConfigEntryType.whatsapp = refl
kind_of-word_of ConfigEntryType.website = refl

-- An entry as a client that has read it sends it.
abbrev pub sent_again : NormalizedEntry → EntryInput
sent_again n = record {
  id = n.id;
  text = n.text;
  kind = word_of n.kind;
  value = n.value;
  is_active = some n.is_active;
}

normalize_entry-sent_again :
    (i : ℕ) (e : EntryInput) (n : NormalizedEntry)
    → normalize_entry i e ≡ ok n
    → normalize_entry i (sent_again n) ≡ ok n
unfolding normalize_entry
normalize_entry-sent_again i e n h =
    let (sized, h1) = refuse_if-eq-ok (not (within 1 200 (length (trim e.text)))) _ _ _ h in
    let (k, named, h2) = require-eq-ok (kind_of e.kind) _ _ _ h1 in
    let (fits, last) = refuse_if-eq-ok (not (value_fits k (trim e.value))) _ _ _ h2 in
    subst (λ m. normalize_entry i (sent_again m) ≡ ok m) (ok_eq last)
      (rw (trim-trim e.text, trim-trim e.value, sized, kind_of-word_of k, fits) refl)

normalize_from-sent_again :
    (i : ℕ) (es : List EntryInput) (ns : List NormalizedEntry)
    → normalize_from i es ≡ ok ns
    → (normalize_from i (map sent_again ns) ≡ ok ns) × (length (map sent_again ns) ≡ length es)
unfolding normalize_from
normalize_from-sent_again i [] ns h =
    subst (λ ms. (normalize_from i (map sent_again ms) ≡ ok ms) × (length (map sent_again ms) ≡ 0))
      (ok_eq h) (refl, refl)
normalize_from-sent_again i (e ∷ es) ns h =
    let (n, first, h1) = >>=-eq-ok (normalize_entry i e) _ h in
    let (rest, others, last) = >>=-eq-ok (normalize_from (suc i) es) _ h1 in
    let (again, long) = normalize_from-sent_again (suc i) es rest others in
    subst
      (λ ms.
        (normalize_from i (map sent_again ms) ≡ ok ms)
        × (length (map sent_again ms) ≡ suc (length es)))
      (ok_eq last) (rw (normalize_entry-sent_again i e n first, again) refl, ap (λ k. suc k) long)

-- What the configuration gives back it accepts: the normal form of a list that was accepted, sent
-- again with every entry as it was normalized, is accepted and normalized to itself, order and
-- activity included.
pub normalize-sent_again :
    (es : List EntryInput) (ns : List NormalizedEntry)
    → normalize_config_entries es ≡ ok ns
    → normalize_config_entries (map sent_again ns) ≡ ok ns
unfolding normalize_config_entries
normalize-sent_again es ns h =
    let (small, h1) = refuse_if-eq-ok (ltb max_config_entries (length es)) _ _ _ h in
    let (again, long) = normalize_from-sent_again 0 es ns h1 in rw (long, small) again
