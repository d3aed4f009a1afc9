-- ===== src/Lib.antt =====
-- gxassessms: the pipeline of a security assessment of cloud tenants. Adapters collect the output of
-- assessment tools, which is parsed into observations, normalized into findings, consolidated across
-- tools, reviewed, and rendered as reports. An engagement moves through the states of
-- src/gxassessms/core/domain/enums.py; the database holds its state and an append-only journal.
--
-- The parts, and the files that model them:
--   Base, Exec        shared lists, tables, sorts; methods that change a store and may raise
--   Json              values as Python's json.loads gives them, and how the code tests and reads them
--   Errors            core/contracts/errors.py: the exceptions, as far as handlers tell them apart
--   Domain            core/domain: Enums, Findings, Manifests and Credentials (models.py),
--                     Lifecycle (EngagementState), PathValidation (path_validation.py), Configs
--                     (config.py)
--   Persistence       persistence: Journal (event_repo.py), Engagements (engagement_repo.py),
--                     Findings (finding_repo.py, coverage_repo.py), over the tables of Store;
--                     Artifacts (artifacts.py): Naming, Staging, Committing, Saving, Archiving, with
--                     purge in Archiving.Purging
--   Pipeline          pipeline: State (state.py), Stages and Collaborators (stages.py),
--                     Orchestrator (orchestrator.py), Handlers and Runner (_runner.py),
--                     Confinement (confinement.py), Replay (replay.py)
--   Consolidation     consolidation: DisjointSet and Dedup (dedup.py), Rule (rules.py); Dedup.Keys
--                     relates the table of keys to the findings
--   Policy            policy: Severity (severity.py), Reporting (reporting.py),
--                     Consolidation (consolidation.py), Normalization (normalization.py),
--                     Roadmap (roadmap.py)
--   Adapters          adapters: Arguments, Outputs, Directories and Processes (_base.py), Prowler
--                     (prowler/), Scubagear (scubagear/), Verification (_verification.py and
--                     core/contracts/verification.py)
--   Examples          the theorems at concrete inputs
-- All paths are below src/gxassessms. A definition has the name of the function, method or type that
-- it models, without a leading underscore.
--
-- How they interact: Runner.run_stages takes the engagement's lock (State.hold), recovers a state that
-- a crash has left (recover_stale_state), loads what earlier runs saved (rehydrate), and runs the
-- stages in order. Each stage moves the engagement by Orchestrator.transition_state, which writes the
-- table and then the journal, and calls its handler; a raise moves the engagement to FAILED. The
-- store that all of this changes is a record (Store); a method is a function from a store to a result
-- and the store behind it, also where it raises, since what was written stays written.
--
-- Collected output is checked and copied to a staging directory (Staging), and then put in place by
-- renames (Committing). What is loaded from there passes the trust boundary (Confinement) before an
-- adapter parses it. An operator overrides severities, adds findings and brings in output under the same
-- lock, with an event in the journal (Orchestrator.Interventions).
--
-- An adapter runs its tool by a command that it builds from the engagement's configuration
-- (Adapters.Arguments, Prowler.Commands) and, where the tool is a PowerShell module, after it has been
-- checked against a policy (Verification, Scubagear.Collecting). It then checks the shape of the output, parses it into
-- observations and states which checks they cover (Prowler.Observing, Scubagear). Runner reaches an
-- adapter only through the Collaborators of a stage, which any adapter may fill.
--
-- Bounds and fuel: the loops of the disjoint set's `find` run on fuel, one round more than the greatest
-- rank; ranks grow along every path of parents, so the fuel is enough (Consolidation.DisjointSet.Roots).
-- Every other loop is recursion on a list. Scores and thresholds stand in ten-thousandths, since the
-- code rounds a score to four places; a score is a Float, which may be negative, until it is checked.
-- Other numbers are never negative in what is modelled.
--
-- The commits, archives and purges of Artifacts run with a fuse: the number of operations of the file
-- system that succeed before one fails, or none. The operation that fails has changed nothing, but for
-- rmtree in a purge, which leaves any files, and those behind it succeed again. The theorems hold for every fuse.
--
-- Taken as parameters: the adapters, policies, rules, QA strategies and renderers that stages call
-- (Collaborators), the files that Confinement and Staging look at, tarfile (Archiving), content hashes,
-- Python's str.strip, str.lower, str.isspace and str.format, floats (Policy.Floats), JSON's
-- decoding (Replay), uuid4, and the clock's pace. For the adapters: Python's `\w`, digits and white
-- space, str of a list, environment variables, subprocess, directories, json.loads and SHA-256. The
-- clock does not go back. The database accepts every statement but a second engagement or consolidated
-- finding of one id and the deletion of an engagement that other rows refer to: that it refuses another
-- one, as an insert into the journal behind the update of the table, is not modelled. A value that is
-- saved as JSON is loaded as it was.
--
-- Not modelled: the command line, the reading of YAML configuration, the registry of plugins, the
-- other tools' adapters, Prowler's check_prerequisites, the PowerShell that checks a module,
-- configuration snapshots, renderers, messages and logs.
pub mod Base
pub mod Errors
pub mod Json
pub mod Adapters
pub mod Exec
pub mod Domain
pub mod Persistence
pub mod Pipeline
pub mod Policy
pub mod Consolidation
pub mod Examples
