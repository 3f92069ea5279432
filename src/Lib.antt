-- ===== src/Lib.antt =====
-- The backend of PR Sentinel: GitHub delivers webhooks about installations of an app and about
-- pull requests; the service stores them, queues reviews, and lets a user link an installation to
-- an account. Users sign in with a password or through GitHub, and choose with which key a
-- language model is asked.
--
-- The parts, with the files that model them:
--   Schema, Database: the models of prisma/schema.prisma as records, and the tables together as
--     one value; the filters by which a read is scoped to a user, and the cascade of a deleted
--     installation.
--   Prisma: the Prisma client, a parameter. Prisma/Keyed has reads, updates and upserts by a
--     unique key, Prisma/Orders the order of rows; Prisma/InMemory and Prisma/Insertion have a
--     client on lists.
--   Payloads: src/webhook/types/github-webhook.types.ts and
--     src/webhook/constants/github-events.ts.
--   Repository: src/repository/repository.service.ts. Installations and Repositories have its
--     operations on either table, Events the two webhook handlers (handleInstallationEvent,
--     handleInstallationRepositoriesEvent); Lookups, Status, Ownership and Sync the proofs.
--   PullRequest: src/pull-request/pull-request.service.ts; PullRequest/Delivery and
--     PullRequest/Files the proofs.
--   Github/Service: src/github/github.service.ts, with Github/Service/Pages on its pagination.
--     Github/Install: the install flow of src/github/github.controller.ts (verifyAndSync,
--     startInstall, completeInstall, claimInstall), with Github/Install/Ownership.
--   Redis: src/shared/redis/redis.service.ts; Redis/States: src/github/install-state.service.ts
--     and src/auth/oauth-state.service.ts; Redis/InMemory a client on a list.
--   Webhook: Signature is src/webhook/signature.service.ts, Handler
--     src/webhook/webhook.service.ts (with the proofs in PullRequests, Jobs and Suspension),
--     Controller src/webhook/webhook.controller.ts.
--   Reviews: src/reviews. Prompts is prompts/review-prompt.builder.ts, Answer
--     utils/parse-review-response.ts, Generation services/review-generation.service.ts,
--     Publication services/review-publisher.service.ts with processors/review.processor.ts
--     (Publication/Posting on what is posted), Retry the reads and the retry of
--     reviews.service.ts, Chat and ChatPrompt its chat; Generation/Life has the proofs on the
--     outcome of a review, Chat/Turns those on conversations.
--   Auth: Api is src/auth/auth.types.ts and what the service calls, Accounts
--     src/auth/auth.service.ts with the strategy of src/auth/jwt.strategy.ts, Controller
--     src/auth/auth.controller.ts; Columns, Unique, Login and Again have the proofs.
--   Llm: src/llm. Quota is services/free-quota.service.ts, Encryption
--     encryption/api-key-encryption.service.ts, Config services/llm-config.service.ts, Provider
--     llm.factory.ts with providers/openrouter/openrouter.provider.ts, Service llm.service.ts
--     with guards/free-quota.quard.ts, Controller llm.controller.ts; Quota/Day, Config/Keys and
--     Service/Keys have the proofs.
--   Http: src/shared/filters/all-exceptions.filter.ts and
--     src/shared/interceptor/response-format.interceptor.ts; Http/Disclosure has what the filter
--     shows of a failed chat.
--   Routes: the routes of src/repository/repository.controller.ts,
--     src/pull-request/pull-request.controller.ts, src/reviews/reviews.controller.ts, and in
--     Installations those of src/github/github.controller.ts that are not of the install flow;
--     Agreement compares two of them.
--   Database/Links, with the modules named Links below Repository, PullRequest, Webhook/Handler,
--     Reviews and Github/Install: the foreign keys of the schema. History: any sequence of
--     webhooks, installs, synchronisations, retries and jobs.
--   Errors: exceptions with their status codes, and results. Base: shared names and lemmas.
--   Tests: concrete clients and payloads, and the theorems at them.
--
-- How they interact: the webhook controller checks the signature and calls the webhook service,
-- which calls the repository, pull request and GitHub services and adds jobs to the review queue.
-- The worker makes a review for each job and posts it on GitHub. The GitHub controller consumes
-- an install state, asks GitHub about the installation, and links and synchronises it through the
-- repository service. A sign-in through GitHub consumes an OAuth state in the same way. Reviews
-- and chats ask LlmService, which takes the key of the user, or that of the service and one of
-- the free reviews of the day.
--
-- How code corresponds to definitions: a method keeps its name in snake case. The database, the
-- queue and the Redis store are passed in and out; a thrown exception is the `err` of a result,
-- and null is `none`. Each request runs alone and reads the time once. Ids that the database
-- makes are numbers in place of uuids, times are numbers (milliseconds in rows, seconds in
-- Redis), and GitHub's ids are natural numbers.
--
-- Parameters: the Prisma client, the Redis client, JSON of a payload and of the answer of a
-- language model, the language models for the reviews (LlmService, an interface that Llm/Service
-- fills), crypto (signatures and AES-256-GCM), bcrypt, the signing of tokens and the requests of
-- a sign-in (AuthApi), URLs, the client of the package openai, the order of rows in the database
-- (Orders), and the environment with the requests to GitHub (GithubApi), each with the documented
-- behaviour that is assumed of it; the instances in Prisma/InMemory, Prisma/Insertion,
-- Redis/InMemory and Tests meet the assumptions.
--
-- Fuel: only the pagination of listInstallationRepositories is on fuel, one unit for each
-- request. One more than there are repositories is enough, if GitHub pages as it documents;
-- Github/Service/Pages also says when no fuel is enough. A request that uses up its fuel has no
-- answer and its database is not given; what it has written by then, the installation, is a step
-- of its own in History.
--
-- Not modelled: log lines; failures of the database, except for the unique address of a user;
-- requests that interleave; JSON.parse on a text of Redis that the service has not written;
-- numbers that are no natural numbers, for the line of a finding or as the daily limit. The
-- checks of the DTOs and of tokens in requests are the framework's, and the start of the
-- application (src/main.ts, src/app.module.ts) is its wiring.
pub mod Base
pub mod Errors
pub mod Schema
pub mod Prisma
pub mod Payloads
pub mod Database
pub mod Repository
pub mod PullRequest
pub mod Redis
pub mod Github
pub mod Webhook
pub mod Reviews
mod Tests
pub mod Llm
pub mod Auth
pub mod Http
pub mod Routes
pub mod History
