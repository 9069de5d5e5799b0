-- ===== src/Lib.antt =====
-- The server side of Tinai Cloud (platform/services/tinai-api) and the realtime part of its client
-- library (platform/packages/tinai-js), as far as they keep state of their own.
--
-- The server is a set of Fastify routes over a PostgreSQL database. Every request goes through the
-- preHandler of src/server.ts, which reads the user, the tenant and the role out of a signed token;
-- a route then makes its checks, each of them an early return, and writes. Here a table is a list of
-- rows (Prelude/Tables), a SELECT is `find` or `select`, an UPDATE is `update_where`, a DELETE is
-- `delete_where`, and a route is a function from the database to a reply and a database, made of a
-- `do` block of checks and a body (`commit`, Prelude/Http). Statements of one route follow one another
-- without another request between them, and no statement fails but where a parameter says so.
--
--   Prelude       tests on numbers, tables and replies.
--   Auth          src/routes/auth.ts: `signJwt`, `verifyJwt`, `makeToken`. Auth/Sessions has the refresh
--                 tokens, magic links and the logout, Auth/Passwords registration and login, Auth/Sms
--                 the sign-in by SMS, and Auth/Gateway the preHandler of src/server.ts.
--   Teams         src/routes/teams.ts: teams, members, roles and invitations.
--   Plans         src/middleware/planGate.ts. Plans/Gate is the gate with its cache, Plans/Payments
--                 the upgrade of src/routes/plans.ts and the payments of src/routes/razorpay.ts.
--   Flags         src/routes/featureFlags.ts: rules, rollouts and the updates of flags.
--   Compliance    src/routes/erasure.ts, consent.ts and breach.ts with src/utils/audit.ts; the requests
--                 that change a table are one step in Compliance/Requests.
--   Billing       src/routes/billing.ts: the generation of an invoice, its payment order and the webhook.
--   Workloads     src/routes/workloads.ts: Workloads/Manifests builds the objects, Workloads/Deploy is
--                 `deployToK8s` and `deleteK8sResources`, Workloads/Rows has the tables and bodies, and
--                 Workloads/Routes the routes, which call the gate of Plans/Gate.
--   EnvVars       src/routes/envVars.ts: EnvVars/Vars and EnvVars/Secrets are the routes, and
--                 EnvVars/Requests runs them as one machine.
--   Domains       src/routes/customDomains.ts: the rows of custom domains and the Ingress rules.
--   Projects      src/routes/projects.ts: the slugs.
--   Metering      src/jobs/usageMetering.ts: one tick over the pods.
--   Realtime      platform/packages/tinai-js/src/realtime.ts: the connection as a machine of events;
--                 Realtime/Handlers has the messages that arrive and src/channel.ts beside it.
--
-- Paths that start with src/ stand under platform/services/tinai-api.
--
-- Ids, e-mail addresses, mobiles, tokens and digests are natural numbers, of which only equality is
-- used (the keys of variables have an order, too), and zero is the empty text where the code tests for
-- one; times are milliseconds. Random values, the ids of
-- new rows and the time are arguments. What node's crypto, the payment provider, the SMS provider, the
-- DNS and the language model give is a parameter: the `Crypto` record of Auth, `Kdf` of
-- Auth/Passwords, `hmac` and `provider` of Plans/Payments, `sent` of Auth/Sms, the records of a lookup
-- in Domains, the draft of Compliance/Breach, and so are the rows of the usage query in Billing. The
-- Kubernetes API is the record `Api` of Workloads, over a state that it keeps, and its documented
-- behaviour the record `Laws`; Domains has a smaller such record for Ingresses. All loops run over
-- lists and are structural, so that no fuel is used. The cost of a quantity in Billing, which is
-- rounded from a floating-point product, is a parameter, and so is the reading of numbers in texts in
-- Metering; the remaining hours of a breach are given before they are rounded. A context of Flags has
-- what every object inherits as a part of it; a user id that is an array, which the rollout would spread,
-- is taken for one that throws.
--
-- Not modelled: most listings that only read, the rate limiter, the tables of projects and cron jobs,
-- the other routes that drive Kubernetes or further services (apps, databases, storage), and the user
-- interfaces.
pub mod Prelude
pub mod Auth
pub mod Teams
pub mod Plans
pub mod Flags
pub mod Compliance
pub mod Billing
pub mod Workloads
pub mod EnvVars
pub mod Domains
pub mod Metering
pub mod Projects
pub mod Realtime
