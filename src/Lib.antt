-- ===== src/Lib.antt =====
-- CredTrail issues digital badges as verifiable credentials. This library models the parts that
-- decide about a badge, and proves what makes each of them correct.
--
-- The parts, each a module with children:
--
-- Rules: the engine of apps/api-worker/src/rules/engine.ts that evaluates a badge rule over the
-- facts about a learner. Rules holds the conditions (the schema of packages/validation/src/index.ts)
-- and the nodes of an evaluation, Rules.Facts the facts and their searches, Rules.Leaf
-- evaluatePredicate, Rules.Evaluate evaluateCondition and the entry point, Rules.Summary the
-- summary, Rules.Requirements extractBadgeIssuanceRuleRequirements. Rules.Meaning states
-- independently when a condition holds.
-- Approval: submitBadgeIssuanceRuleVersionForApproval, decideBadgeIssuanceRuleVersion (both in
-- Approval.Workflow) and activateBadgeIssuanceRuleVersion (Approval.Activate) of
-- packages/db/src/index.ts, over the steps of Approval.Steps. A rule is in use once a version of it
-- is approved and activated.
-- Lifecycle: the states of an issued assertion in packages/db/src/index.ts.
-- Lifecycle.Revoke is recordAssertionRevocation, Lifecycle.Transition
-- recordAssertionLifecycleTransition, which calls it, Lifecycle.Resolve
-- resolveAssertionLifecycleState, and Lifecycle.Projection the form that the ledger reads.
-- Queue: the jobs that issue and revoke. Queue.Lease and Queue.Finish are the functions on
-- job_queue_messages of packages/db/src/index.ts, Queue.Process is
-- apps/api-worker/src/queue/processing.ts, which calls them and Lifecycle.Revoke. Queue.Step has
-- the interleavings of the statements of several workers.
-- Base58: base58Encode and base58Decode of packages/core-domain/src/index.ts, which write the
-- signature of a credential.
-- OrgUnits: the org units of a tenant and its members, in packages/db/src/index.ts: OrgUnits is
-- createTenantOrgUnit, OrgUnits.Ancestors the recursive query that climbs from a unit to its
-- ancestors, OrgUnits.Scopes upsertTenantMembershipRole, upsertTenantMembershipOrgUnitScope and the
-- functions that remove and read scopes. OrgUnits.Assigned has sequences of them.
-- Delegation: the grants of packages/db/src/index.ts by which a member may issue or revoke badges of
-- a unit for a time. Delegation.Create is createDelegatedIssuingAuthorityGrant, Delegation.Resolve
-- the revocation, the list and the lookup, Delegation.Apart sequences of calls. Delegation.Covering
-- states on the fields of a grant when it covers a request.
-- Access: apps/api-worker/src/auth/tenant-access.ts, which reads the tables of OrgUnits and
-- Delegation: Access is requireTenantRole and the bootstrap token, Access.Permission the permissions
-- on org units, Access.Reports the access to reports. Access.Meaning states who may act on the rows of
-- the tables.
-- OAuth: the codes and tokens of Open Badges 3.0. OAuth has the statements of
-- packages/db/src/index.ts, OAuth.Endpoint handleOAuthTokenRequest of
-- apps/api-worker/src/routes/ob3-routes.ts with the helpers of apps/api-worker/src/ob3, and
-- OAuth.Once the interleavings of the statements of several requests.
-- Templates: the badge templates of packages/db/src/index.ts and the events of their ownership.
-- Templates is createBadgeTemplate, Templates.Transfer transferBadgeTemplateOwnership,
-- Templates.Update updateBadgeTemplate and setBadgeTemplateArchivedState.
-- Templates.History follows the events of one template, over sequences of calls.
--
-- Prelude holds the shared tests, list functions and lemmas; Prelude.Results computations that
-- throw, Prelude.Marks rows that are marked once and for all, Prelude.Members members of lists.
--
-- How the code is modelled. A table is the list of its rows, an SQL UPDATE a map over it, an INSERT
-- an append with the unique keys written out, a SELECT a filter with its order. Each call takes the
-- tables and gives the tables after it; an error that is thrown is a value of the reply. Identifiers
-- that the code draws at random and the clock are arguments. Timestamps of the lifecycle and of
-- approvals stay texts, compared by a parameter, and so do those of grants, which the code also
-- parses, by another parameter; those of the queue and of OAuth, which the code adds seconds to, are
-- milliseconds. Where a call on grants throws, the events that it may have written before are
-- arbitrary. The hashes and the test of a PKCE verifier are parameters. Texts that the code only
-- compares are native strings; the base58 functions work on lists of bytes and of character codes.
-- Queue and OAuth have the statements of several callers in any order; in the other parts each call
-- runs as a whole. Numbers of the rule engine (scores, dates) are a parameter with their
-- comparison, so nothing is assumed about floating point. Loops are structural recursion on the
-- list that they run over, and the digits that a carry pushes recurse on a fuel that is the carry
-- itself, which each step divides. The recursive query over org units runs on a fuel of four rows,
-- one for each type of unit, which is enough in every table that createTenantOrgUnit builds, and is
-- not the query's answer in other tables; no other fuel is used.
--
-- What is not modelled: the creation of missing tables when a statement fails, failures of the
-- database itself, logs and error reports, columns that the modelled functions neither read nor
-- write, the retry of failed imports in the queue, the creation of rules and versions,
-- upsertBadgeTemplateById and the lists of badge templates, the registration and authentication of
-- OAuth clients, and the parts that only call other services or render pages. Issuing a badge, the
-- audit log and the import of learner records are parameters of the queue's loop.
mod Prelude
pub mod Base58
pub mod Lifecycle
pub mod Rules
pub mod Queue
pub mod Approval
pub mod OrgUnits
pub mod Delegation
pub mod Access
pub mod OAuth
pub mod Templates
