-- ===== src/Lib.antt =====
-- A model of the business platform's server and what is proved of it.
--
-- The server is a set of services on one PostgreSQL database that they reach through the Prisma
-- client. Every row belongs to a tenant, and a client extension restricts each statement to the rows
-- of the tenant that a request runs for. The services sell stock (src/inventory, src/order,
-- src/payment), from carts (src/cart) and at a till as well (src/pos), and rent out equipment and time
-- (src/reservation, src/booking). A till may sell while it has no connection: it registers as a
-- device, pushes the sales it took, and has the server execute each of them later. Who may do what
-- follows from the roles of a tenant (src/rbac) and its members (src/member).
--
-- Schema      prisma/schema.prisma: one record for each table that the modelled services use, with
--             the columns that they read or write, and the database as a record of tables. 0 is the
--             empty identifier, which the code treats as absent.
-- Prisma      The client and PostgreSQL, which are not part of the repository: a record of operations
--             with their documented laws, an argument of all that follows. A table is a list of rows.
--             Any statement may fail only by a constraint of its table. Tests.Memory is an instance.
-- Platform    src/common/database/prisma/tenant-scoping.extension.ts and src/common/tenant-context:
--             Scoping is scopeArgs, Client the statements after it, Constraints what the migrations
--             under prisma/migrations declare, Models one descriptor for each table. Effects is the
--             monad of the services: a request carries its tenant, if it has one, and the time; a
--             throw keeps what was written, unless a transaction undoes it. Facts, Frames, Leaves,
--             Ends, Unique and Isolation are its proof rules.
-- Inventory   src/inventory/inventory.service.ts, every method.
-- Order       src/order/order.service.ts, every method.
-- Payment     src/payment/payment.service.ts, every method.
-- Reservation src/reservation/reservation.service.ts, every method.
-- Booking     src/booking/booking.service.ts, every method.
-- Pos         src/pos/pos-session.service.ts and src/pos/pos-sale.service.ts, every method, of which
--             Listing has listSessionSales and, of pos-device.service.ts, listDevices.
--             Device is the rest of pos-device.service.ts;
--             Operation and Validation with Sync are pos-operation.service.ts and
--             pos-sync.service.ts, where Wait, a parameter, is what other requests do to the database
--             while one waits for a result; Feed is pullFeed, Reconciliation the two reports of
--             pos-reconciliation.service.ts. Crypto, a parameter too, has the digest of a secret, the
--             random secrets and the comparison's lengths.
-- Cart        src/cart/cart.service.ts: Editing changes a cart, Summary adds it up.
-- Catalog     src/category/category.service.ts and src/product/product.service.ts, every method:
--             Listing has the lists, Deletion has deleteProduct with the cascades of the migrations,
--             Requests the requests that change something.
-- Rbac        src/rbac: Catalog is permission-catalog.ts, Permission is permission.service.ts with the
--             memo of a request as a state that is handed on, Role is role.service.ts with
--             last-active-owner.ts.
-- Member      src/member/member.service.ts, all but createMember.
-- Pagination  src/common/pagination: cursor.ts, and paginate.ts, with the body that the list methods
--             repeat as one function of the table, its sort column and the filters (Listing). JSON and
--             base64url are taken as one step, from a payload to a token and back. Runtime, a
--             parameter, has the digest of a filter set, the reading of a date and its text. The list
--             methods stand in a module Listing of their service.
-- Api         The requests that reach these services, as one type, Call: all but createRole,
--             deleteRole, assignPermissions, discardCart and deleteProduct. perform runs one and serve
--             runs a sequence. Removal, in Cascades, has the other five: they touch rows by a cascading
--             foreign key or by the key of a role alone, whatever the tenant of those rows, which the
--             statements on Call could not allow for. Requests run one after the other; inside of one,
--             statements run in the order of the code, and a branch that only a race reaches is
--             modelled but reads the same state, but for the wait of Sync.
-- Tests       An in-memory client, a sample shop and the theorems at requests to it.
--
-- Numbers: identifiers, instants, currencies and amounts in minor units (BIGINT, bigint in the code)
-- are natural numbers; a delta of an adjustment is an integer. A stock quantity is an INTEGER column,
-- and a statement that would leave its range fails with an out-of-range error. Instants are
-- milliseconds. The loops of the code go over lists, but for the one that waits for the result of a
-- concurrent synchronisation: it has at most 200 rounds in the code (RESULT_POLL_MAX), and recurses on
-- the rounds that are left.
--
-- Not modelled: the onboarding of a member, authentication, the
-- administration of tenants, and the services that only keep records (variants, customers, stores,
-- assets, equipment). Controllers, validation pipes, configuration, logging and health checks are
-- input and output. Foreign keys are left out, since the services look the rows that they refer to
-- up before they write, but for the three deletions that cascade and for those of a category that a
-- product names and of a product that was ordered, which are refused.
pub mod Prelude
pub mod Schema
pub mod Prisma
pub mod Platform
pub mod Pagination
pub mod Inventory
pub mod Payment
pub mod Order
pub mod Reservation
pub mod Booking
pub mod Rbac
pub mod Member
pub mod Cart
pub mod Catalog
pub mod Pos
pub mod Api
pub mod Tests
