-- ===== src/Buses/Lifecycle.antt =====
-- A bus that is disabled and reactivated, and the guard on departed trips.
use waleed_bus.Base.{
  ℕ, ◌≡◌, refl, ap, sym, subst, ◌∙◌, Bool, true, false, not, ◌&&◌, Option, some, none, inl, inr,
  List, [], ◌∷◌, ◌==◌, is_none, is_some, find?, find?-holds, find?-update, update, AllRows, arith,
  ok, ok_eq, if-eq, >>=-eq-ok, require-eq-ok, refuse_if-eq-ok, refuse_if, forbidden, Bool-cases,
}
use waleed_bus.Schema.{Bus, Trip, Db, bus_by_id, log, Action}
use waleed_bus.Driver.Anchor.{FleetContext, fleet_path, sees}
use waleed_bus.Buses.{
  visible_bus, departed_on, has_bus_id, set_active, with_buses, disable, reactivate,
}

-- A bus that a path shows is there.
visible-found :
    (ctx : FleetContext) (o : Option Bus) (b : Bus)
    → visible_bus ctx o ≡ some b
    → (o ≡ some b) × (sees ctx b.fleet_id ≡ true)
visible-found ctx none b h = cc
visible-found ctx (some x) b h = elim (if-eq (sees ctx x.fleet_id) (some x) none h) [
  | inl (shown, e) ↦
      (e, let same : x ≡ b = cc in subst (λ (y : Bus). sees ctx y.fleet_id ≡ true) same shown)
  | inr (_, e) ↦ cc
]

update-back :
    (i : ℕ) (bs : List Bus) (b : Bus)
    → find? (has_bus_id i) bs ≡ some b
    → b.is_active ≡ true
    → update (has_bus_id i) (set_active true) (update (has_bus_id i) (set_active false) bs) ≡ bs
unfolding find? update set_active
update-back i [] b h on = cc
update-back i (x ∷ xs) b h on = elim (Bool-cases (x.id == i)) [
  | inl met ↦
      let same : x ≡ b = ground arith in
      let was : x.is_active ≡ true = rw same on in
      rw (met, met) (ap (λ y. y ∷ xs) (ap (λ v. record x { is_active = v }) (sym was)))
  | inr unmet ↦
      let below : find? (has_bus_id i) xs ≡ some b = ground arith in
      rw (unmet, unmet) (ap (λ ys. x ∷ ys) (update-back i xs b below on))
]

-- A bus that has been disabled can be reactivated on the same path, by any actor, and the buses are
-- then as they were before.
pub disable-reactivate :
    (ctx : FleetContext) (actor again bus : ℕ) (db : Db) (b : Bus) (db' : Db)
    → disable ctx actor bus db ≡ ok (b, db')
    → (b' : Bus) × (db'' : Db) × (reactivate ctx again bus db' ≡ ok (b', db''))
      × (db''.buses ≡ db.buses)
unfolding disable reactivate bus_by_id set_active
disable-reactivate ctx actor again bus db b db' h =
    let (_, path, h1) = >>=-eq-ok (fleet_path ctx) _ h in
    let (x, shown, h2) = require-eq-ok (visible_bus ctx (bus_by_id db bus)) _ _ _ h1 in
    let (active, h3) = refuse_if-eq-ok (not x.is_active) _ _ _ h2 in
    let (_, last) = refuse_if-eq-ok (is_some (find? (departed_on ctx bus) db.trips)) _ _ _ h3 in
    let (found, seen) = visible-found ctx (bus_by_id db bus) x shown in
    let on : x.is_active ≡ true = ground arith in
    let off = set_active false x in
    let met = find?-holds (has_bus_id bus) db.buses x found in
    let there = find?-update (has_bus_id bus) (set_active false) db.buses x found met in
    let rows : update (has_bus_id bus) (set_active false) db.buses ≡ db'.buses =
      ap (λ (r : Bus × Db). (r.1).buses) (ok_eq last) in
    let now : find? (has_bus_id bus) db'.buses ≡ some off =
      ap (λ bs. find? (has_bus_id bus) bs) (sym rows) ∙ there in
    (
      set_active true off,
      log (some again) Action.bus_reactivate (some bus) (with_buses db' (set_active true) bus),
      rw (path, now, seen) refl,
      ap (λ bs. update (has_bus_id bus) (set_active true) bs) (sym rows)
          ∙ update-back bus db.buses x found on,
    )

-- The trips of a bus are of its fleet.
abbrev pub RunsForFleet : Bus → Trip → Type 0
RunsForFleet b t = t.bus_id ≡ b.id → t.fleet_id ≡ b.fleet_id

none_departed :
    (ctx : FleetContext) (b : Bus) (ts : List Trip)
    → (b.fleet_id == ctx.fleet_id) ≡ false
    → AllRows (RunsForFleet b) ts
    → find? (departed_on ctx b.id) ts ≡ none
unfolding find?
none_departed ctx b [] other all = refl
none_departed ctx b (t ∷ ts) other all = elim (Bool-cases (t.bus_id == b.id)) [
  | inl on ↦
      let its = all.0 (ground arith) in
      let differ : (t.fleet_id == ctx.fleet_id) ≡ false = rw its other in
      let unmet : departed_on ctx b.id t ≡ false = ground arith in
      rw unmet (none_departed ctx b ts other all.1)
  | inr off ↦ rw off (none_departed ctx b ts other all.1)
]

guard_open : (s t : Bool) → s ≡ true → refuse_if (t && not s) 403 forbidden ≡ ok tt
guard_open true true h = refl
guard_open true false h = refl
guard_open false t h = cc

is_none-none : {A : Type 0} (o : Option A) → o ≡ none → is_none o ≡ true
is_none-none none h = refl
is_none-none (some a) h = cc

visible_all :
    (ctx : FleetContext) (b : Bus)
    → is_none ctx.membership_id ≡ true
    → visible_bus ctx (some b) ≡ some b
visible_all ctx b h = rw h refl

run :
    (ctx : FleetContext) (actor : ℕ) (db : Db) (b : Bus)
    → refuse_if (is_none ctx.membership_id && not ctx.is_super_admin) 403 forbidden ≡ ok tt
    → bus_by_id db b.id ≡ some b
    → visible_bus ctx (some b) ≡ some b
    → b.is_active ≡ true
    → find? (departed_on ctx b.id) db.trips ≡ none
    → disable ctx actor b.id db
      ≡ ok (
        set_active false b,
        log (some actor) Action.bus_disable (some b.id) (with_buses db (set_active false) b.id),
      )
unfolding disable fleet_path
run ctx actor db b path found shown active quiet =
    let seen : visible_bus ctx (bus_by_id db b.id) ≡ some b = ap (visible_bus ctx) found ∙ shown in
    rw (path, seen, active, quiet) refl

-- The guard on departed trips fails for a bus of another fleet: on the platform path, `disable`
-- of an active bus that is not of the fleet of the context succeeds, whatever trips run on the bus,
-- if these are of the bus's own fleet.
pub disable-other_fleet :
    (ctx : FleetContext) (actor : ℕ) (db : Db) (b : Bus)
    → ctx.membership_id ≡ none
    → ctx.is_super_admin ≡ true
    → bus_by_id db b.id ≡ some b
    → b.is_active ≡ true
    → (b.fleet_id == ctx.fleet_id) ≡ false
    → AllRows (RunsForFleet b) db.trips
    → (b' : Bus) × (db' : Db) × (disable ctx actor b.id db ≡ ok (b', db')) × (b'.is_active ≡ false)
unfolding set_active
disable-other_fleet ctx actor db b platform admin found active other all =
    let quiet = none_departed ctx b db.trips other all in
    let open_path = guard_open ctx.is_super_admin (is_none ctx.membership_id) admin in
    let shown = visible_all ctx b (is_none-none ctx.membership_id platform) in
    (
      set_active false b,
      log (some actor) Action.bus_disable (some b.id) (with_buses db (set_active false) b.id),
      run ctx actor db b open_path found shown active quiet,
      refl,
    )
