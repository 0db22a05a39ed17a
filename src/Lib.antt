-- ===== src/Lib.antt =====
-- Verification of the atlas library (packages/python/atlas): the evidence kernel of the exposure
-- atlas, from byte anchors in canonical text to the operator's decisions and the publication gate.
--
-- The parts and how they interact. A source text is anchored byte for byte (Anchors); a proposal
-- quotes anchors, and the verifier checks it mechanically (Verify); the operator's decision turns
-- a verified proposal into an assertion (Kernel), which the publication policy may release
-- (Policy). Every state change is an event of a hash-chained log (Audit). Revisions of a record
-- move along a state machine (States, Revisions). Reviewers see decision cards (ReviewCard) and
-- act through the authenticated command core (ReviewerActions). Approved assertions are projected
-- into a release, and the read path serves it under the overlay in force (Release). Matters are
-- identified by their keys (Identity) and background work goes through the job queue (Jobs).
-- Beside the library stand the tools of its own construction: the plan and its gates (Plan), and
-- the builder's policy, budget and completion gate (Builder), which closes a task only on the
-- evidence that the plan tools verify.
--
-- Files and code, from packages/python/atlas/:
--   Anchors           anchors.py: create_anchor, verify_anchor
--   Verify            verify.py: verify_proposal
--   Kernel            kernel.py: Kernel.add_anchor, propose, verify, approve, policy_check, _audit
--   Policy            policy.py: evaluate
--   Audit             audit.py: append_event, verify_chain
--   States            states.py: the tables and transition
--   Revisions         revisions.py: the manifests, append_lifecycle_event, derive_state
--   ReviewCard        review_card.py: build_card and its checks, channel_safe_summary
--   ReviewerActions   reviewer_actions.py: Session.check, ActionProcessor
--   Timestamp         the `_parse` and `_iso` of the reviewer modules, as a proleptic calendar
--   ReviewQueue       review_queue.py: make_task, ReviewQueue but for its metrics
--   DecisionPack      decision_pack.py: build_pack, transport_payload, ViewLinkStore, envelopes
--   Migration         migration.py: MigrationImporter, with make_relationship of identity.py
--   Monitoring        monitoring.py: apply_check, target_freshness, aggregate_record_freshness
--   Triage            triage.py: evaluate
--   Release           suppression.py, release.py, readpath.py: overlays, the projection, the
--                     builder and verifier of a release, and the read path
--   Jobs              jobs.py: every operation of the queue, over the rows of its table
--   Identity          identity.py: identifiers, their keys and IdentityResolver
--   Evaluation        evalgov.py: partitions, slices, held-out readers, certification
--   Plan              tools/atlas_plan.py: validate with its search for cycles (Graph), task_verify,
--                     gate_verify, plan_next
--   Builder           builder/core: the tool policy, the budget ledger, close_task
--   Base              shared helpers: tests on numbers and texts, lists, dicts in insertion order,
--                     results, decimal texts, and sorting
--
-- Paths of Plan and Builder are from the root of the repository.
--
-- How the code is modelled. A dict is an association list in insertion order, and a missing key is
-- `none` or the error that the code raises. A call that may raise returns a `Result`; a method
-- that writes its object is an `Exec`, which returns the object also beside an error, so that what
-- was written before a raise stays written. Random identifiers and the clock are arguments, as in
-- the code or in place of `secrets`. SHA-256, the JSON schemas and the hash of an event are
-- parameters; theorems on releases assume that JSON reads back what it wrote, and none assumes
-- more. A release directory is a dict from relative paths to bytes, where different texts are
-- different files. Dates and instants are read from ISO texts by `parse`.
--
-- Fuel and recursion. The loop of `create_anchor` runs on fuel, one more than the length of the
-- text, and each round starts behind the last match, so it always ends by itself. The calendar
-- runs through at most twelve months. The search for a cycle in a plan runs on fuel, the edges it
-- counts and the nodes that wait at the start, which is enough for every plan. Every other
-- function is structural.
--
-- Not modelled: ingestion and canonicalization of documents (html.parser and PyMuPDF), the
-- evidence store on disk, the PostgreSQL schema, live fetching, the metrics of the review queue,
-- and the generators of plan data and reports. The kernel is modelled without an engine, where its
-- persistence does nothing.
pub mod Anchors
pub mod Audit
pub mod Base
pub mod Builder
pub mod DecisionPack
pub mod Evaluation
pub mod Identity
pub mod Jobs
pub mod Kernel
pub mod Migration
pub mod Monitoring
pub mod Plan
pub mod Policy
pub mod Release
pub mod ReviewCard
pub mod ReviewQueue
pub mod ReviewerActions
pub mod Revisions
pub mod States
pub mod Timestamp
pub mod Triage
pub mod Verify
