-- ===== src/Lib.antt =====
-- The offer-file kernel: models of the kernel's token accounting, quoting and book keeping, and the
-- theorems about them.
--
-- The models are translated from the TypeScript of packages/. A `string` is a list of code units
-- (Prelude/Text.antt; `toLowerCase` is that of ASCII, which is all that a hex id holds), a `bigint`
-- an integer over the native numbers (Prelude/Int.antt), a `Map` or a `Set` of strings a list in
-- insertion order (Prelude/Map.antt), a value from outside a tree (Prelude/Json.antt), and a throw
-- the error of a result (Prelude/Results.antt).
--
-- Balance.antt, with its children, is packages/solver-core/whole-offer-balance.ts: `account` is
-- accountWholeOfferBalances, `evaluate` evaluateWholeOfferPair, `build_receipts`
-- buildWholeOfferReceipts, and `find_safe_order` of Balance/Merge.antt
-- findSafeWholeOfferMergeOrder. The recursion of its `search` runs on fuel, one more than there are
-- sources: each call sets one more bit of the mask. `shouldAbort` is a function from the number of
-- transitions to what it does. serializeWholeOfferTokenBalances is not modelled.
--
-- Stock.antt is packages/solver/src/stock.ts: the reservations of the solver, with `reserve`,
-- `release` and `setBalances` as functions of the stock, and Stock/Calls.antt their histories. A
-- claim is released in the form in which it was reserved, or when none with its key is live; the
-- release of a claim whose lists are permuted is not in the histories. claimFor and isOfferClaimed,
-- which read offers of the book, are in OfferBook/Claims.antt.
--
-- Ladder.antt is packages/solver-core/ladder-schema.ts with the LadderBook of
-- packages/solver/src/ladder.ts: `reject_levels` and `reject_pair` test a value from outside,
-- `interpolate_quote` is interpolateQuote, and `set_pair` and `max_payout` the book. `BigInt` of a
-- string is `big_int` of Prelude/BigInt.antt, and where it throws the error of a result. The throw
-- of LadderBook.set carries the rejection, not the message built of it.
--
-- Liveness.antt is packages/validator/liveness.ts with its callers in
-- packages/node/offer-liveness.ts. The database is a parameter, a record of the number of rows that
-- each query finds; getRootCutoffMs is a function of how often it was called, and the promise that
-- is kept of it a state. A throw is the error of a result.
--
-- Journal.antt is packages/solver/src/operation-journal.ts: its checks. Journal/Store.antt has the
-- two tables as lists in the order of their ids, a row of journal_receipts as a field of its
-- operation; Journal/Operations.antt and Journal/Dust.antt have the operations, as functions of what
-- the clock reads and of the journal, and a transaction that throws leaves the journal as it was.
-- JSON columns are the values that they hold, the decimal text of an amount the integer, a UNIQUE or
-- CHECK that a statement breaks the error `constraint`, and the size of the database a parameter.
-- Journal/History.antt is the step relation of the operations, each at any reading of the clock, with
-- an account of the DUST beside it in Journal/History/Ledger.antt; Journal/Opening.antt is
-- normalizeOptions, and Journal/Reads.antt list and countsByState. Errors of the disk are not modelled.
--
-- OfferBook.antt is packages/solver/src/book.ts: the book with its index by nullifier and its index by
-- pair, every call a function of the book. OfferBook/Spec.antt is its specification, a function from
-- hashes to offers; OfferBook/Api.antt is the parser of the API's rows, with Date.parse as a
-- parameter and the blob of a row a string or absent, as its type says. A time is an integer number
-- of milliseconds.
--
-- SyncHealth.antt is packages/node/sync-health.ts: the verdict deriveSyncStatus, whose numbers are
-- integers or not finite and whose lag is counted in thousandths of a second, and the cache of
-- createSingleFlightCache, with a promise as a number and its `then` and `finally` as steps.
--
-- Amount.antt is packages/solver-core/amount.ts: coinsToBaseUnits and baseUnitsToCoins, of decimals
-- that are a natural number; a `number` of coins comes as the string that it is spelled by.
pub mod Prelude
pub mod Balance
pub mod Stock
pub mod Ladder
pub mod Liveness
pub mod Journal
pub mod OfferBook
pub mod SyncHealth
pub mod Amount
