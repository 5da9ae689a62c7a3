-- ===== src/Lib.antt =====
-- The paper evaluation service: a FastAPI backend, apps/api, that grades handwritten answer sheets
-- with an AI provider's proposals, human review, moderation and grievances. The parts modelled:
--
-- Assessment: an assessment's life from DRAFT to ARCHIVED. A version becomes READY when marks,
-- answer keys and rubrics reconcile, and its configuration is frozen from then on. Its leaf questions are what grading
-- finalizes.
--   Assessment/Status.antt       apps/api/app/services/assessment_transitions.py and
--                                academic_freeze.py
--   Assessment/Marks.antt        apps/api/app/services/mark_reconciliation.py
--   Assessment/Rubric.antt       apps/api/app/services/rubric_reconciliation.py
--   Assessment/Readiness.antt    apps/api/app/services/readiness.py, and `transition_assessment`
--                                of apps/api/app/api/v1/curriculum_assessment.py
--
-- Grading: the ledger of question evaluations. Reviewers accept, override, comment and escalate rows,
-- under the ownership of work items that a pool allocates; a submission whose leaves are all decided
-- is finalized, through moderation where a policy asks for it; a grievance against the published
-- result starts a new run.
--   Grading/Ledger.antt, Work.antt, Store.antt
--                                apps/api/app/db/models/evaluation.py and enterprise_ops.py
--   Grading/Access.antt          apps/api/app/services/grading_access.py
--   Grading/Review.antt, Criteria.antt, Finalize.antt
--                                the review and `finalize_evaluation` of
--                                apps/api/app/services/evaluation.py, with the review routes of
--                                apps/api/app/api/v1/evaluation.py
--   Grading/Proposal.antt        of the same file `validate_provider_result`, and of
--                                `_evaluate_one_leaf` what follows the provider's reply
--   Grading/Pools.antt and below, Moderation.antt and below, Grievance.antt
--                                apps/api/app/services/enterprise_ops.py
--
-- Mastery: the derivation of concept, execution and procedure signals from a final score and its
-- error codes, and their aggregation.
--   Mastery/Derivation.antt, Codes.antt
--                                apps/api/app/services/mastery_derivation.py
--   Mastery/Aggregation.antt     apps/api/app/services/b12_algorithm.py and
--                                reassessment_mastery.py
--
-- Learning: the graph of prerequisites behind a weak curriculum node.
--   Learning/Graph.antt, Closure.antt, Cycles.antt, Path.antt
--                                apps/api/app/services/learning_algorithm.py
--
-- Publication: versions of an approved ledger's results, their files, and their release.
--   Publication.antt and below, Grading/Published.antt
--                                apps/api/app/services/publication.py, with
--                                `ensure_analytics_job` of analytics.py,
--                                `record_outbound_event` of webhooks.py, the write-once
--                                exports of storage.py and apps/api/app/db/models/publication.py
--
-- Benchmark: datasets of published answers, regressions of candidates on them, and the release gate.
--   Benchmark.antt and below     apps/api/app/services/benchmark.py,
--                                apps/api/app/ai/providers/benchmark.py, of ai/registry.py
--                                `get_benchmark_candidate_executor`, and
--                                apps/api/app/db/models/benchmark.py
--
-- A definition has the name of the function that it models,
-- without a leading underscore; a route or a loop body that Python does not name has a name of its
-- own. The files below a component hold its theorems. Prelude.antt passes on what all files share;
-- the Samples files hold tests and the theorems at concrete inputs.
--
-- State. A database is a record of tables, a table the list of its rows in the order in which the
-- database returns them. An operation takes the database and returns it changed, or an error, and
-- then the database is as before, since the routes commit only what returned. Identifiers and
-- instants are natural numbers, and identifiers compare as their texts do. Marks are integers of
-- the last decimal of their column. Requests carry the caller, the time, the fresh identifiers and
-- the snapshot hash, which are parameters: `uuid4` and SHA-256 are code of others. Two requests do
-- not interleave within an operation.
--
-- Publication keeps jobs, outbound events and the object storage beside the tables of grading. The
-- storage is not rolled back when a job fails. SHA-256 is a parameter there too, of the canonical
-- snapshot and of the bytes of a file, and one theorem needs that no two snapshots have the hash
-- of the row that is published. The life of a published result is stated apart from the operations
-- (Publication/LifeCycle.antt), which refine it; a step of another part may come between, if it
-- leaves the published results alone.
--
-- Readiness is stated apart from its queries in Assessment/Readiness/Needs.antt, the conditions of
-- a moderation decision in Grading/Moderation/Admission.antt, and those of a review in
-- Grading/Review/Ownership.antt.
--
-- The benchmark has tables of its own beside those of grading, which it reads. A provider of
-- evaluations is a parameter, any function of the fixture. A rate is compared as a fraction with a
-- threshold of millionths, where the code compares the nearest binary floats.
--
-- Loops are over lists, but for the search of prerequisites: its fuel is one more than the number
-- of edges, since the target and then at most one node for each edge enter the queue; and for
-- `_detect_cycle`: its fuel is one more than the number of nodes, since each call within a call
-- visits a node that was not being visited. For `_order_required_prereq_nodes` the fuel is an
-- argument: on a graph that passed the checks, any number above that of the visited nodes is
-- enough, since calls nest along required edges. The limit that Python sets to the depth of calls
-- is not modelled.
--
-- Not modelled: AI providers, storage, drawing of reports, identity protocols, the web client;
-- what a learning plan recommends, what a job draws into the annotated paper and the reports,
-- curriculum, reassessment and analytics; the columns `created_at` and `updated_at`, the removal
-- of secrets from audit payloads, the digits of a provider's numbers beyond the fourth, column
-- lengths, and the errors of unique constraints.
mod Prelude
pub mod Assessment
pub mod Mastery
pub mod Grading
pub mod Learning
pub mod Publication
pub mod Benchmark
