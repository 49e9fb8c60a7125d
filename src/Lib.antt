-- ===== src/Lib.antt =====
-- Vaultline: a retail bank's back end (src/ of the repository, TypeScript).
--
-- The program's core is the ledger, the only code that changes balances. A request for a transfer goes
-- through three decorators (audit, fraud screening, fee) to the ledger; a deposit or a withdrawal goes
-- to it directly; commands are run through an invoker that remembers them and undoes them by a
-- reversal; a nightly job posts profits through it. The ledger asks a chain of validators, writes rows
-- and entries in one database transaction, and publishes an event after the commit. Fraud screening
-- interprets rules of a small language. Accounts are opened by a factory from a product and change
-- their status through state objects; the onboarding of a customer opens, funds and activates one, or
-- takes the deposit back and closes it. Loans are collected in a draft, built, decided by a mediator and saved. Events go
-- over a bus to observers, one of which forwards them to a worker that writes notifications. An
-- account's history is read page by page, and statements and exports are written from it. An
-- assistant answers questions from documents that are stored as vectors.
--
-- Which file models which code (paths are below src/):
--   Entities                    database/entities/
--   Common, Common/HttpErrors   common/errors/domain.errors.ts, common/filters/domain-exception.filter.ts
--   Core/Currency               modules/core/currency.flyweight.ts
--   Core/References             modules/core/reference-number.singleton.ts, as it prints
--   Messaging/Events            modules/messaging/domain-events.ts, as the other parts publish them
--   Messaging/Bus               modules/messaging/domain-event-bus.observer.ts, observers.ts,
--                               in-memory-event-publisher.ts, messaging.module.ts
--   Messaging/Contracts         modules/messaging/domain-events.ts (names, schemas, topics, keys),
--                               kafka-event-publisher.adapter.ts
--   Messaging/Consumer          modules/messaging/consumers/
--   Accounts/State              modules/accounts/domain/account-state.ts
--   Accounts/Products, Factory  modules/accounts/domain/account-product.prototype.ts, account.factory.ts
--   Accounts/Service, Reads,    modules/accounts/accounts.service.ts
--   Numbers
--   Accounts/Interest           modules/accounts/domain/interest.strategy.ts
--   Accounts/MonthEnd           modules/accounts/domain/account.visitor.ts, `monthEndReport` of the service
--   Accounts/Portfolio          modules/accounts/domain/portfolio.composite.ts, `portfolio` of the service
--   Transactions/Validation     modules/transactions/validation/transaction-validation.chain.ts
--   Transactions/Ledger         modules/transactions/ledger.service.ts: `Tables` has `lockAccount`,
--                               `withdrawnToday` and the queries, `Postings` has `post` and the
--                               counter of references, `Operations` has
--                               `deposit`, `withdraw` and `transfer`, `Reversal` has `reverse`
--   Transactions/Transfer       modules/transactions/transfer/money-transfer.decorators.ts
--   Transactions/Commands       modules/transactions/commands/bank.commands.ts
--   Transactions/History        modules/transactions/ledger-history.iterator.ts, transaction-history.service.ts;
--                               `Export` has `exportCsv` of transactions.controller.ts
--   Statements                  modules/statements/statement.bridge.ts; `Controller` has
--                               statements.controller.ts
--   Fraud                       modules/fraud/fraud-rule.interpreter.ts, fraud-rule.engine.ts
--   Loans/Builder, Approval,    modules/loans/domain/loan-application.builder.ts,
--   Drafts                      loan-approval.mediator.ts, loan-draft.memento.ts
--   Loans/Bureau                modules/loans/domain/credit-bureau.adapter.ts
--   Loans/Service               modules/loans/loans.service.ts
--   Payments                    modules/payments/payment-rail.abstract-factory.ts
--   Banking                     modules/banking/banking.facade.ts
--   Fx                          modules/fx/exchange-rate.proxy.ts
--   Ai/Store, Ingestion, Rag    modules/ai/rag/pgvector.store.ts, knowledge-ingestion.service.ts,
--                               rag.service.ts, and the stream of modules/ai/ai.controller.ts
--   Ai/FakeModels               `HashingEmbeddings` of modules/ai/llm/fake-models.ts
--   Operations                  modules/operations/end-of-day.template-method.ts, jobs.ts
--   Samples, the Tests modules  examples
--
-- State and errors. A service's method takes the clock's readings and the state and returns its result
-- with the state after it; what is thrown is an `err`. A database transaction that throws gives back
-- the tables as they were. Calls of the ledger run one after another, as the row locks make them do on
-- one account. A call of the rate provider is two steps, its beginning and its end, so that other calls
-- may come between. Money is an integer of minor units (`ℤ`); the bounds of a double are not modelled.
-- Identifiers are numbers, references are records of their parts.
-- The database keeps a time in microseconds, and an entity has it in milliseconds. It refuses a row whose
-- account number is taken, and a loan whose name or purpose is longer than its column; such an error is
-- `unexpected`. A delivery whose dead letter cannot be sent is one that the consumer threw on.
-- What is written of a source of knowledge is one database transaction, the files one after another.
--
-- Bounds and fuel. The tokenizer has a unit of fuel for each character and one more; a token takes a
-- character at least. The parser runs on fuel of four for each token and four more; every call of it that
-- does not read a token goes to a lower level of the grammar, of which there are four. The mediator's
-- fuel is three, the number of desks. The loop over a history runs on fuel of one more than the rows
-- that it gives; a statement and an export have one for each row of the table and one more. The
-- ingestion is tried sixty times. The invoker's history has 500 records, the month-end report 1000 accounts.
--
-- Parameters. `Number` of a text, `trim`, `toLowerCase`, `toUpperCase`, `includes`, the credit bureau,
-- the floating-point formula of an instalment, the rounded fee of a wire, the form in which the database keeps a uuid, the arithmetic of doubles in the interest strategies, the
-- answers of the rate provider, the models of the assistant with the splitter of texts and the
-- distances of vectors, JSON and its validator (Joi), and the formats of times and amounts are
-- arguments of the definitions that use them.
--
-- Not modelled: the text of log lines, controllers that only pass a request on, the framework's wiring
-- and its configuration, the broker's client, the stand-in chat model of the assistant, and the catalogue
-- of patterns. A number in a rule is a whole one where it is printed. A code of a currency that is the name of a method of every object is taken for an
-- unknown one, as is such a name of a variable in a rule. A field of a change of a draft is absent or has a value.
pub mod Prelude
pub mod Common
pub mod Entities
pub mod Accounts
pub mod Ai
pub mod Messaging
pub mod Fraud
pub mod Transactions
pub mod Loans
pub mod Core
pub mod Banking
pub mod Fx
pub mod Operations
pub mod Statements
pub mod Payments
pub mod Samples
