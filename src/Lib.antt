-- ===== src/Lib.antt =====
-- Waleed Bus is the server of a bus booking service: passengers reserve seats on trips, drivers
-- record what happens on board, administrators review bookings and payments, and phone numbers are
-- verified by one-time codes. Every request is a handler of a NestJS service over one PostgreSQL
-- database.
--
-- A handler is a function of its arguments and the database. A handler that throws leaves the
-- database as it was, because its transaction is rolled back: its result is `err` with the status
-- and the code of the exception, or `ok` with the response and the new database. `verifyChallenge`
-- and `verifyTripShare` keep what they wrote when they fail, and return the database on both paths.
-- The database is a record of tables, and a table is a list of rows; the queries of Prisma are the
-- functions of Base/Rows (`findUnique` is `find?`, `updateMany` is `update_many`, `aggregate` is
-- `sum_of`).
--
--   Schema       prisma/schema.prisma, src/audit/audit.service.ts: rows, shared queries, audit trail
--   Promotions   src/promotions: promotion-math.ts, resolveInTx of promotions.service.ts, and the
--                administration there (Edit)
--   Bookings     src/bookings: createPassengerBooking (Create, Stops), cancelPassengerBooking
--                (Cancel), passenger-rating.service.ts (Rating), trip-shares.service.ts (Shares),
--                fleet-booking.service.ts (Fleet)
--   Admin        src/bookings/admin-booking-lifecycle.service.ts (Lifecycle) and
--                admin-payment.service.ts (Payment)
--   Driver       src/driver-ops/driver-ops.service.ts: assertAssignment (Anchor), board (Board),
--                dropOff (DropOff), cashPayment (CashPayment); the path to the database is that of
--                src/authorization/services/fleet-path.service.ts
--   Assignments  src/fleet-owner/driver-assignment.service.ts and claimBus of the driver operations;
--                driver-roster.service.ts (Roster); View is the abstract view of who operates which
--                bus, and Step the calls and the labelled steps of the view that they ask for
--   Buses        src/fleet-owner/bus-lifecycle.service.ts and bus-trip-line.service.ts
--   Config       src/service-config: service-config-math.ts and service-config.service.ts
--   Lines        src/routes/trip-lines.service.ts: the stops of a direction
--   Trips        src/trips/trips.service.ts: trips of a fleet, and the search
--   Paging       src/common/pagination.ts, and a client that follows the cursors
--   Retry        src/common/prisma-tx-retry.ts
--   Notifications  src/notifications/notifications.service.ts
--   Throttle     src/passenger-auth/throttle.service.ts
--   Phone, Otp   src/passenger-auth/phone.util.ts and otp.service.ts
--   Inventory    the seats that trips have sold, over histories of the operations on bookings; under
--                which condition those of a fleet oversell nothing stands in Inventory/History
--   Consistency  the columns of one booking, over the same histories, with a condition on the
--                operations of a fleet that stands in Consistency/History
--   Base         results, tables, text and conditional updates
--   Tests        a sample database, and runs on it
--
-- The services meet in the table of bookings: a trip has no counter of seats, and its free seats are
-- the capacity of its bus less the seats of its confirmed bookings. Inventory/History puts the
-- handlers together: a history is a list of requests that write bookings, each served as a whole
-- before the next. Requests that overlap are not modelled in general: createPassengerBooking, the
-- payments and forceCancel lock the row that they work on, but cancelPassengerBooking, the read of
-- the booking in reinstate and overrideOperational do not, and an overlap of these with another
-- write of the same booking is outside the histories. Changes of trips and of buses, the capacity
-- of a bus among them, are no requests of a history either, and the rating of a passenger by the
-- driver writes columns that the model does not keep. The writes of the drivers, of ratings and of
-- codes that guard against a lost race are functions of their own over the database that they meet.
--
-- Numbers: identifiers are natural numbers; a time is in milliseconds; money is in thousandths of a
-- pound, so that the tolerance of 0.001 is 1 and whole piastres are the multiples of 10. Seat
-- counts, amounts and fares are natural numbers, as the validation of the requests ensures; the value
-- of a promotion is rounded to two decimals as its column stores it. Amounts finer than thousandths
-- and above the range of their columns are left out. Text is
-- a list of UTF-16 code units. All recursion of the code is on lists, and on the number of attempts
-- that are left; only the client of Paging that follows the cursors uses fuel, of which one more than
-- the number of rows is enough.
--
-- Not modelled: the columns that no modelled operation reads (coordinates, labels, creation
-- times), the shaping of responses, most paged reads, the failure of a write to the audit trail,
-- which is swallowed, the reports of passengers and with them the removal of a trip, the
-- geography, and the creation of buses and the services of accounts, favourites, sign-in and the
-- administration of users and fleets. The rows that the database would refuse for their length are
-- not told apart. The fixed one-time code, the clock, the identifiers of new rows, the random code
-- of a share, the hash of a password, the encoding of a cursor and the comparison of names without
-- case are arguments.
pub mod Base
pub mod Schema
pub mod Promotions
pub mod Bookings
pub mod Admin
pub mod Driver
pub mod Assignments
pub mod Inventory
pub mod Throttle
pub mod Notifications
pub mod Buses
pub mod Config
pub mod Trips
pub mod Lines
pub mod Paging
pub mod Retry
pub mod Phone
pub mod Otp
pub mod Consistency
pub mod Tests
