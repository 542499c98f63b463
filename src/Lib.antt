-- ===== src/Lib.antt =====
-- A model of the account, subscription, CV and job services of the PrismaCV backend, a NestJS server over a
-- Prisma database, and proofs about them.
--
-- Parts, and how they interact
--   * Host: what the services take from packages, as one record of operations and of the documented
--     behaviour they rely on: configuration (ConfigService.get), the password hash (bcryptjs, which
--     reads 72 bytes), tokens (JwtService) and the primitives of node's crypto.
--   * Shared: tests, lists, text, errors, and a state monad whose state survives an error, as the
--     writes before a `throw` do. Shared/Table is the interface of a table of the Prisma client;
--     Shared/Table/InMemory fills it with a list of rows.
--   * Encryption (src/shared/utils/encryption.util.ts): encrypt and decrypt of stored OAuth tokens.
--   * Auth/Model, Auth/Patch, Auth/Users, Auth/OtpStore (src/modules/auth/users.service.ts,
--     src/modules/auth/entities, prisma/schema.prisma): rows, entities, and the operations on them.
--   * Auth/Otp (src/modules/auth/otp.service.ts): one-time codes: draw, store and mail, verify with a
--     limit of attempts, resend.
--   * Auth/Session (src/modules/auth/auth.service.ts): login, sign-up and the refresh of tokens for
--     users and administrators. It calls Users and Otp.
--   * Auth/Password (src/modules/auth/auth.service.ts): forgotten, reset and changed passwords.
--   * OAuth (src/modules/oauth/services/oauth.service.ts, src/modules/auth/users.service.ts): login by
--     a provider: the account is found, linked or made. It calls Users and Session.
--   * Billing/Model, Billing/PlanAccess (src/modules/billing/plan-access.service.ts and
--     requires-plan.guard.ts): the plan of a user, kept for a while, and the guard of the routes.
--   * Billing/Seen, Billing/Sync, Billing/Webhook (src/modules/billing/billing.service.ts): events of
--     Stripe are verified, processed once, written in a transaction, and drop the kept plan of the user.
--   * Billing/Checkout (src/modules/billing/billing.service.ts): checkout and portal sessions.
--   * AiUsage (src/modules/ai/ai-usage.service.ts): the monthly quota of calls of each feature.
--   * Pagination (src/shared/dto): the pages of a list, each of them a query of its own.
--   * Cv/Model, Cv/Items (prisma/schema.prisma, src/modules/cv/dto): the rows of CVs and requests.
--   * Cv/Slug (src/modules/cv/slug.util.ts): the slug of a title, and a free one by a search of at most
--     twenty lookups.
--   * Cv/Section, Cv/Sections, Cv/Place, Cv/Upserts (src/modules/cv/cv.service.ts): the bulk upserts. The
--     seven of them differ in the columns of their rows, so a section is a record of the operations on
--     these, and its place says where its rows stand in the state.
--   * Cv/Editor, Cv/Duplicate, Cv/Share (src/modules/cv/cv.service.ts): CVs made, listed, changed, removed
--     and copied, and their public link.
--   * Cv/Controller (src/modules/cv/cv.controller.ts): the routes that change a CV, as requests; that of
--     sharing carries the answer of the guard of Billing/PlanAccess.
--   * Jobs/Model, Jobs/Service, Jobs/Controller (src/modules/jobs): the tracker of job applications, its
--     counts, and the routes that change a job, as requests.
--   * Ats/Regex, Ats/Words, Ats/Keywords, Ats/Sections, Ats/Score (src/modules/ats/ats.service.ts): the
--     score of a CV for a job description, and its suggestions. Ats/Number is what it takes of the
--     language's floating point numbers; the search of a regular expression runs on fuel, the length
--     of the text, and each step takes a character of it.
--   * Ats/Analyze (src/modules/ats/ats.service.ts): the score with the suggestions of a language model,
--     which takes a call of the quota of AiUsage, and gives it back where the model fails.
--   * Examples: a host and a database in memory, on which each theorem is applied.
--
-- Conventions
--   * A method is a function into `M State A`, State → Result A × State. What a method draws at
--     random, and each reading of the clock, is an argument.
--   * A field that is `undefined` or `null` is `none`. `update` of a partial entity leaves the fields
--     that are `none`, as the Prisma client leaves the fields that are `undefined`.
--   * Times are milliseconds. Logging is left out.
--   * The loop of generateOtpCode runs on fuel, the number of draws that are made: 16200000 of the
--     16777216 values of a draw end it. The search for a free
--     slug makes twenty attempts, as the code does. No other loop of the services is unbounded.
--
-- Not modelled: the controllers but the routes that change CVs and jobs, guards other than the plan guard,
-- mappers to responses, the mail templates, the imports and exports of CVs, the calls of
-- language models, queues, feature flags and metrics, which are glue, or calls of services outside the
-- repository, or prose.
pub mod Shared
pub mod Host
pub mod Encryption
pub mod Auth
pub mod OAuth
pub mod Billing
pub mod AiUsage
pub mod Pagination
pub mod Cv
pub mod Jobs
pub mod Ats
pub mod Examples
