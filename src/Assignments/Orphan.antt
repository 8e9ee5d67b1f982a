-- ===== src/Assignments/Orphan.antt =====
-- An addition to the roster that fails after it has opened an account.
use waleed_bus.Base.{
  ℕ, ◌≡◌, refl, ap, sym, ◌∙◌, true, false, ◌||◌, Option, some, none, find?-append, ltb, length,
  is_some, Error, ok, err, coded, ok_eq, require-eq-ok, refuse_if-eq-ok, phone_already_registered,
}
use waleed_bus.Base.Text.{Text, text_eq_iff, truthy}
use waleed_bus.Schema.{User, Db}
use waleed_bus.Phone.{normalize_phone}
use waleed_bus.Driver.Anchor.{FleetContext}
use waleed_bus.Otp.Verify.{phone_owner, has_phone}
use waleed_bus.Assignments.Roster.{
  DriverInput, open_account, resolve_new, resolve_target, enrol, add, new_driver,
}

module _ (hash : Text → Text) (fresh now : ℕ) (input : DriverInput) (written password : Text)
    (db : Db) where
  absent : (o : Option User) → is_some o ≡ false → o ≡ none
  absent none h = refl
  absent (some u) h = cc

  -- The account that was opened, and the number that it took.
  opened :
      (target : ℕ × Db)
      → open_account hash fresh now input written password db ≡ ok target
      → (phone : Text) × (normalize_phone written ≡ some phone)
        × ((ltb (length password) 8 || ltb 128 (length password)) ≡ false)
        × (phone_owner phone target.1 ≡ some (new_driver hash fresh now input phone password))
  unfolding open_account new_driver
  opened target h =
      let (phone, read, h1) = require-eq-ok (normalize_phone written) _ _ _ h in
      let (sized, h2) =
        refuse_if-eq-ok (ltb (length password) 8 || ltb 128 (length password)) _ _ _ h1 in
      let (free, last) = refuse_if-eq-ok (is_some (phone_owner phone db)) _ _ _ h2 in
      let new = new_driver hash fresh now input phone password in
      let own : has_phone phone new ≡ true = (text_eq_iff phone phone).1 refl in
      let there =
        find?-append (has_phone phone) db.users new (absent (phone_owner phone db) free) own in
      (phone, read, sized, ap (λ (t : ℕ × Db). phone_owner phone t.1) (sym (ok_eq last)) ∙ there)

  again_refused :
      (phone : Text) (u : User) (fresh' now' : ℕ) (db' : Db)
      → normalize_phone written ≡ some phone
      → (ltb (length password) 8 || ltb 128 (length password)) ≡ false
      → phone_owner phone db' ≡ some u
      → open_account hash fresh' now' input written password db'
        ≡ err (coded 409 phone_already_registered)
  unfolding open_account
  again_refused phone u fresh' now' db' read sized there = rw (read, sized, there) refl

  resolved_new :
      (fresh' now' : ℕ) (db' : Db) (p q : Option Text)
      → p ≡ some written
      → q ≡ some password
      → resolve_new hash fresh' now' input p q db'
        ≡ open_account hash fresh' now' input written password db'
  resolved_new fresh' now' db' p q h k = rw (h, k) refl

  resolved :
      (fresh' now' : ℕ) (db' : Db) (i : Option ℕ)
      → i ≡ none
      → truthy input.phone ≡ some written
      → truthy input.password ≡ some password
      → resolve_target hash fresh' now' input i db'
        ≡ open_account hash fresh' now' input written password db'
  resolved fresh' now' db' i h p q = rw h (resolved_new fresh' now' db' _ _ p q)

  -- An addition that fails once the account of the driver is open leaves the account behind: the
  -- call throws what its second step threw, and every later call with the same request, for any
  -- fleet, is refused with PHONE_ALREADY_REGISTERED.
  pub add-add :
      (member : ℕ) (ctx : FleetContext) (actor : ℕ) (target : ℕ × Db) (e : Error)
      → input.user_id ≡ none
      → truthy input.phone ≡ some written
      → truthy input.password ≡ some password
      → open_account hash fresh now input written password db ≡ ok target
      → enrol member ctx actor input.role_slug target ≡ err e
      → (fresh' member' now' : ℕ) (ctx' : FleetContext) (actor' : ℕ)
      → ((add hash fresh member now ctx actor input db).0 ≡ err e)
        × ((add hash fresh' member' now' ctx' actor' input
              (add hash fresh member now ctx actor input db).1).0
            ≡ err (coded 409 phone_already_registered))
  unfolding add
  add-add member ctx actor target e no_id phone_given password_given first failed fresh' member'
        now' ctx' actor' =
      let (phone, read, sized, there) = opened target first in
      let again = again_refused phone _ fresh' now' target.1 read sized there in
      let now_opens =
        resolved fresh now db input.user_id no_id phone_given password_given ∙ first in
      let then_opens =
        resolved fresh' now' target.1 input.user_id no_id phone_given password_given ∙ again in
      (rw (now_opens, failed) refl, rw (now_opens, failed, then_opens) refl)
