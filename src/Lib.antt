-- ===== src/Lib.antt =====
-- A model of the core of the coding agent: what a session may do (its state machine, its budgets and
-- its policy) and what it writes down so that a crash cannot make it do a thing twice (the operation
-- journal and the audit log); what it may disclose, how it shows a change, and when a task is done.
--
-- Parts and files:
--   Common                  texts, lists, results and numbers as the JavaScript code uses them
--   Shared/OperationId      src/shared/operation-id.ts
--   Session/StateMachine    src/session/state-machine.ts: transitionSession and its table; Reach has
--                           the runs of transitions, Moving the runtime's `move` (in
--                           src/orchestrator/agent-runtime.ts)
--   Session/Budgets         src/session/budgets.ts: BudgetMeter (assertTime, consume, refund,
--                           remaining); PostHoc has applyPostHoc, Within runs of all of them
--   Session/Journal         src/session/operation-journal.ts: OperationJournal over a store of files
--                           (register, markExecuting and the other markings, read, update);
--                           Resolving has resolveTerminalCompleted
--   Audit/Log               src/audit/audit-log.ts and types.ts: AuditLog over the text of its file
--   Policy/Types            src/policy/types.ts
--   Policy/Tools            TOOL_REGISTRY and its tests in src/protocol/types.ts
--   Policy/Patterns         src/policy/patterns.ts
--   Policy/Rules            decideRule, resolveCheck, isApproved, finish, strictest of
--                           src/policy/engine.ts
--   Policy/Layers, Limits   evaluatePath, evaluateCommand, evaluateDisclosure; evaluateNetwork,
--                           evaluateChange, evaluateBudgets
--   Policy/Facts            evaluateOperationFacts
--   Policy/Engine           PolicyEngine: evaluateMode, evaluateTool, evaluateRequiredContext, evaluate;
--                           the effective limits
--   Policy/Grants           expandGrant, expansionDecision, applyExpansion, addAllowed
--   Protocol/Fences         scanMarkdownFences and extractCbaEnvelope of src/protocol/parser.ts
--   Protocol/Parser         parseProtocolEnvelope and ProtocolParser of the same file
--   Orchestrator/Completion src/orchestrator/completion.ts: verifyCompletion; Types has the claim and
--                           the session's records, Repository, Claims and Gate its parts
--   Security/Secrets        src/security/secrets.ts: SecretScanner
--   Security/DisclosureLedger  src/security/disclosure-ledger.ts: DisclosureLedger over its file
--   Security/ContentSecurity   src/security/content-security.ts: ContentSecurity over both
--   Orchestrator/DisclosureBudget  src/orchestrator/disclosure-budget.ts
--   Repository/LineDiff     src/repository/snapshot-diff.ts from lcsDiff to diffHunks
--   Repository/DiffText     BoundedTextWriter, renderFileDiff, decodeLines of the same file, and
--                           looksBinary of src/repository/text-file.ts
--   Repository/ExactTextEdit  src/repository/exact-text-edit.ts: planExactTextEdit and its counts
--
-- How they interact: the parser turns a response of the model into operations; the runtime asks the
-- engine about an operation, charges the meter, registers the operation in the journal before it runs
-- and marks its end there, and appends each event to the audit log; the state machine says when
-- operations run at all. Journal and log take their identifiers from Shared/OperationId, and the
-- engine takes paths through Policy/Patterns. What is sent to the model goes through
-- Security/ContentSecurity, which redacts or blocks it and has the ledger record it. A claim that the
-- task is done goes through Orchestrator/Completion.
--
-- State is passed explicitly: a method takes the state and returns the new one, and a thrown error is
-- a value of Result that leaves the state as it was; the disclosure ledger keeps its failed write, and
-- a session whose move could not be put into the audit log stays moved. A file is its content; the
-- journal's directory is a function from names to what the checks of a read make of a file's text.
-- Loops are structural recursion, but for the decimal digits of a number: their fuel is the number and
-- one more, and each digit leaves at most a tenth of it. Numbers are natural; where the code tests for
-- safe integers, the tests are written out with 2 ^ 53 - 1.
--
-- Parameters, because they are not code of the repository: SHA-256 of stable JSON (digest), printing
-- and parsing of JSON, the test on ISO timestamps, minimatch, and the key of a repository path on its
-- file system, and what JSON.parse and the schema validator make of an envelope (decode), the write to
-- the session store and the append that follows a move, the matches of the secret rules' regular
-- expressions and their keyed hash, and appendFile of the ledger, TextDecoder and JSON.stringify of a
-- path in the text of a diff. A caller of the journal passes on records that a call gave it, with the
-- hash of their contents, and results on sequences of calls ask for that. What a theorem asks of the
-- parameters is among its hypotheses; a result on hashes names the collision that would break it.
--
-- Not modelled: messages and details of errors and checks; toLowerCase beyond ASCII; the file modes,
-- locks and the fsync of writes; the terminal artifacts, but for the check of a recovered result's
-- metadata; the browser, the command line, Git, checkpoints and patches other than the exact text
-- edit, which are input and output.
pub mod Common
pub mod Shared
pub mod Session
pub mod Audit
pub mod Policy
pub mod Protocol
pub mod Repository
pub mod Orchestrator
pub mod Security
