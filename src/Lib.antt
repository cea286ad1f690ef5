-- ===== src/Lib.antt =====
-- The workflow of VowGrid's API: an intent of an agent is proposed, simulated, judged by policies,
-- approved by people, queued, executed by a connector and perhaps rolled back, and every step is
-- written to a trail of audit events; billing decides what a workspace may do.
--
-- Parts (paths from the root of the repository; S is apps/api/src/modules):
--   States           S/intents/state-machine.ts, packages/contracts/src/intent-states.ts
--   Policies         S/policies/engine.ts: evaluatePolicy, evaluatePolicies; Policies.Service has
--                    S/policies/service.ts
--   Intents          S/intents/service.ts: transitionIntent, proposeIntent; Intents.Create has
--                    createIntent
--   Audits           S/audits/service.ts: emitAuditEvent; apps/api/src/lib/audit-integrity.ts
--   Approvals        S/approvals/model.ts (Approvals.Model), and service.ts: submitForApproval, and
--                    in Approvals.Review processApprovalDecision
--   Simulations      S/simulations/service.ts: simulateIntent
--   Executions       S/executions/service.ts: queueExecution, requestRollback
--   Jobs             apps/api/src/jobs/execution.worker.ts: processExecution; Jobs.Rollback has
--                    processRollback of rollback.worker.ts
--   Connectors       S/connectors/framework/runtime-context.ts; Connectors.Secrets has
--                    apps/api/src/lib/connector-secrets.ts; Github, Http, Mock and Registry have the
--                    connectors of S/connectors/framework and their registry; Routes has the route
--                    of S/connectors/routes.ts that registers a connector, Remote what they call
--   Billing          S/billing and packages/contracts/src/billing.ts: Catalog, Usage, Entitlements,
--                    Customer, CustomerEdits, Contact, Invoices, Proration, Prorating; mercado-pago.ts
--                    in Provider, Payments and Signature; service.ts in Checkout and in Webhook, whose
--                    children Snapshot and Sync are what follows a valid signature
--   Auth             S/auth/service.ts: Sessions, Recovery (password reset, email verification), Signup,
--                    Oauth, Invites, Slug, and what they share in Tables and Memberships; Security is
--                    S/auth/security.ts, Plugin apps/api/src/plugins/auth.plugin.ts and common/api-keys.ts
--   Admin            S/workspace-admin/service.ts: Members, Changes, Invites, Keys
--   Web              apps/web/src/lib/vowgrid: oauth.ts in Web.Oauth (Cookies, Exchange, Identity) and
--                    csrf.ts in Web.Csrf
--   Json, Rows       the JSON values and the rows of apps/api/prisma/schema.prisma
--   World            the state of all services and the monad of their handlers
--   Workflow         the states into which each handler moves intents; Workflow.Calls puts all calls
--                    together, in any order
--   Tests            a small workspace; its children apply the theorems to it
--
-- A handler is a function from the world to an answer or an error and the world after it. What was
-- written before an error stays written, but in a transaction. Services call each other as the
-- source does: each change of an intent's status goes through transition_intent, which emits an
-- event, and the checks of billing stand where the source awaits them.
--
-- What is not under the repository is a parameter (Env): the database client (Prisma, a record of
-- tables and queries whose documented laws are the record IsLawful; Prisma.in_memory has them), the
-- clock, the queues, the mails, the connectors, the hashes, the cipher, random tokens, the order and the
-- trimming of texts, the doubles of the language. What the outside world decides depends on the moment
-- of the call (World.ticks). No fuel is used: every recursion is structural, and the search for a slug
-- counts down the source's own thousand rounds. Amounts are natural numbers or integers; Math.round
-- of a fraction that is not negative is a quotient. Ids are numbers that are only compared.
--
-- The services take their connectors from Env, and the invoices the payment provider. The connectors of
-- Connectors and the requests of Billing.Payments are over more parameters: Remote (fetch and texts),
-- Provider (the payment provider's settings, its keyed hash, URLs and dates), Ratios with the law
-- IsRounding (the product of a price and a ratio), and WebSettings (cookies, headers, URLs).
--
-- Handlers run one at a time: two runs that interleave are not modelled, nor are the other HTTP routes,
-- the export of a workspace and other reads, the pages of the web application and the SDK, which are
-- calls of services, user interface or a later extension. Of a date before 1970 only that it has passed
-- is held. That a row is refused because the row it refers to is missing, such as the agent of an
-- intent, is not modelled either. An error keeps its message, but where the message says what no caller reads. The find_first
-- of a table finds the oldest row.
pub mod Common
pub mod States
pub mod Json
pub mod Policies
pub mod Prisma
pub mod Env
pub mod Rows
pub mod Billing
pub mod Auth
pub mod Admin
pub mod Web
pub mod World
pub mod Audits
pub mod Intents
pub mod Approvals
pub mod Connectors
pub mod Executions
pub mod Jobs
pub mod Simulations
pub mod Workflow
pub mod Tests
