-- ===== src/Lib.antt =====
-- AgentPay: an auditor that decides whether an agent may pay for a service, keeps the reservations
-- against its operator's daily cap, and records what the chain says of a payment. The program is
-- TypeScript: a core package (packages/agent-pay-core), an API server with a SQLite store
-- (apps/report-api), a server of tools, a command line client and a web application.
--
-- The files follow the program's parts.
--
-- Common: exceptions as a Result, tests and lists over the native numbers, decimal numerals.
-- Payment/Types, Artifacts, Runtime: packages/agent-pay-core/src/payment/types.ts and artifacts.ts,
--   the JSON of the records that are hashed, and what the code
--   uses of its platform: Date.parse, toISOString, URL, SHA-256 and the EIP-712 hash of ethers.
-- Json: payment/canonical.ts, the canonical text of a value and its hash.
-- Payment/Amount: payment/amount.ts, amounts of base units within 256 bits.
-- Payment/Authorization: payment/authorization.ts, the intent that a buyer signs and its window.
-- Payment/Normalize: payment/normalize.ts, the terms that an answer PAYMENT-REQUIRED asks for. A parser
--   returns its value or the reason of a refusal; Terms has normalizePaymentRequired.
-- Payment/Policy: payment/policy.ts. `evaluate_payment` is evaluatePayment; each of the six
--   functions that push reasons is a file, whose child Clear says when it pushes none that bars the
--   payment. Approval states these conditions apart from the code.
-- Payment/Settlement: payment/settlement.ts, the decoding of the node's answer about a transaction,
--   any JSON value, and in Comparing compareSettlement.
-- Auditor/Tables, Prepare, Reserve, Transitions, Settle: apps/report-api/src/auditor/repository.ts
--   and sqliteRepository.ts. A table is the list of its rows, a statement is a function on them, and
--   a method is a function from the database to its result or exception and the database after it.
-- Auditor/Cancel: updateCheck of the store, and cancelCheck of apps/report-api/src/auditor/service.ts.
-- Auditor/Ledger: what the calls keep of the tables. Histories has the calls as a data type and
--   runs sequences of them; Caps is about the daily cap; Moving, Applying and Late are about
--   transitionReservation and applySettlement.
-- Limits: apps/report-api/src/securityLimits.ts and the limiter of apps/mcp-server/src/publicAccess.ts,
--   which count the requests of each client in a bounded Map.
-- Access: apps/report-api/src/auditor/auth.ts and the methods of the store for challenges, sessions and
--   agent tokens. A method is an Act: it takes the store to its value or exception and the store
--   after it. Calls has the calls that write as a data type and runs sequences of them.
-- Evidence, Merkle: packages/agent-pay-core/src/types.ts, hash.ts and merkle.ts, the data sets of
--   evidence records and the proofs that a record belongs to one.
-- Trust: packages/agent-pay-core/src/trust, the signals of tokens and accounts, the rules that score
--   them, and the vocabulary of the policies whose hash is recorded.
--
-- The policy check reads the totals of the store, and the store tests the cap again when it reserves.
--
-- A time is its milliseconds since the epoch. An amount is a canonical decimal numeral, read as a
-- natural number, as BigInt does. The window of an authorization is a sum of doubles, rounded as
-- they are. The digits of a number are printed with the number and one as fuel,
-- which is at least the number of its digits. The levels of a Merkle tree have the number of the leaves
-- as fuel: a level of more than one entry has at most as many less one above it.
--
-- Not modelled: HTTP, the user interfaces, the chain's node, the contract and the deployment. Of the
-- store, the methods for policies, receipts and anchor jobs. What ethers recovers from a signature
-- and what is drawn at random are parameters. A property of a JSON object is the first of its key.
pub mod Access
pub mod Auditor
pub mod Common
pub mod Evidence
pub mod Json
pub mod Limits
pub mod Merkle
pub mod Payment
pub mod Trust
