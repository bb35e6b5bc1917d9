-- ===== src/Lib.antt =====
-- 404.directory: the catalog of agent tools, who may write to it, its search, the verification of
-- its tools and of their providers' ownership, and the risk preflights.
--
-- The program keeps a catalog of tools and providers (src/domain/memory-store.ts, behind the
-- interface of src/domain/store.ts). A tool is registered as pending, claimed from a queue under a
-- lease, checked over the network (src/domain/verification.ts), and moved through a lifecycle
-- (src/domain/lifecycle.ts); its checks and its use give it a trust profile (src/domain/trust.ts).
-- Before an agent acts it asks for a preflight (src/domain/risk-evaluation.ts), which reads all of
-- this, decides allow, review or block, and leaves a receipt for which one outcome can be reported.
-- A caller registers a tool over HTTP with a bearer token (src/domain/auth.ts), proves that it owns
-- its identity by a challenge (src/domain/ownership.ts), and finds tools by a lexical search
-- (src/domain/catalog-search.ts). Before it acts on a prediction market it asks for another preflight
-- (src/domain/prediction-market-risk.ts). The service fetches pages for its users only from public
-- addresses (src/security/url.ts), on its own (src/verify/verify.ts) or through a proxy for a browser
-- (src/security/egress-proxy.ts).
--
-- Common        shared names, Boolean tests, lists and arrays, text as code points, a stable sort,
--               startsWith and includes
-- Types         the enums of src/domain/types.ts; Types/Records the records that the store keeps
-- Slug          slugify of src/domain/memory-store.ts
-- Lifecycle     nextLifecycleStatus; Lifecycle/Laws runs of it over attempts
-- Store         the state of MemoryCatalogStore and its lookups; Store/Register registerTool,
--               ensureTool and createTool; Store/Providers the provider methods; Store/Queue the
--               verification queue; Store/Evidence checks, endpoints and trust profiles;
--               Store/Invariant and Store/Steps what every method keeps; Store/Queue/Order and
--               Store/Leases what a claim takes and for how long; Store/Register/Refused what a refused
--               update leaves; Store/Maps laws of maps;
--               Store/Providers/Laws what a lookup finds after a write to a provider
-- Trust         computeTrustProfile and refreshTrustForTool
-- Receipts      recordRiskEvaluation, getRiskEvaluation, recordRiskEvaluationOutcome, and the same
--               three methods for prediction markets
-- Verification  the checks of an endpoint; Verification/Run verifyTool over the store;
--               Verification/Admission what the checks mean; Verification/Refinement and
--               Verification/Activation what a run does to the tool
-- Risk          Risk/Terms and Risk/Records the vocabulary, Risk/Evidence the evidence, Risk/Decide
--               the rules of evaluateToolRisk in their order, Risk/Evaluate the service; Risk/Rules,
--               Risk/Permissions, Risk/Allow, Risk/Coverage, Risk/Latest and Risk/Service their theorems
-- Search        src/domain/catalog-search.ts: terms, relevance and filters; Search/Rank the ranking and
--               searchTools of the store; Search/Terms, Search/Laws, Search/Sound and Search/Order their
--               theorems
-- Ownership     src/domain/ownership.ts: createOwnershipChallenge and verifyOwnershipChallenge over the
--               store; Ownership/Identity how an identity is read; Ownership/Verify when a provider
--               counts as verified; Ownership/Proven and Ownership/Effects what the two leave in the store
-- Auth          src/domain/auth.ts: who may write; Auth/Register the handler of POST /v1/tools in
--               src/domain/http/v1-routes.ts; Auth/Laws who can register a tool with it; Auth/Routes the
--               ownership routes and GET /v1/tools/:idOrSlug; Auth/RouteLaws who can use them
-- Discovery     src/domain/discovery.ts: the lookup of a tool, with and without quarantine
-- PredictionMarket  src/domain/prediction-market-risk.ts: the data; PredictionMarket/Reference the parsing
--               of a reference, Freshness the age of evidence, RuleText the text of the rules, Depth the
--               order book, Terms addRisk, Assess the rules in their order with the score and expiry,
--               Evidence and Records what is read and kept, Service the three functions;
--               Reference/Laws, Reference/Canonical, Assess/Calls, Assess/Laws, Assess/Decision,
--               Assess/Bounds, Assess/Expiry and Service/Laws their theorems
-- Egress        src/security/url.ts: resolvePublicHttpUrl; Egress/Fetch and Egress/VerifyWeb
--               src/verify/verify.ts; Egress/Proxy src/security/egress-proxy.ts and, of
--               src/security/pinned-http.ts, the test of a pinned fetch; Egress/Names and Egress/Policy
--               which URLs are resolved; Egress/Runs the redirect loop as a relation; Egress/Laws, Egress/Verified,
--               Egress/ProxyLaws and Egress/Bodies the theorems
-- Cohorts       src/domain/evaluation-metric-scopes.ts: the cohorts of evaluations; Cohorts/Kinds and
--               Cohorts/Laws their theorems
-- Tests         concrete inputs, runs on them, and the theorems at them
--
-- A method of the store takes the state and returns the new one; the clock, the ids of randomUUID,
-- tokens and hashes are arguments. The network, DNS and the MCP SDK are given by what they answer; a
-- lookup or request of Egress has a time, so that each may be answered otherwise than the one before.
-- Times are milliseconds. Scores are ten-thousandths, as toFixed(4) leaves them; inside
-- computeTrustProfile a score is a whole number of units of 1/6000000, so that all but the score of
-- usage is exact, and Math.log10 is a parameter. The two maps of the store by slug and by id hold
-- the same objects, so the model has one list, searched by either key. A call reads the clock once,
-- and the awaits of one call are not interleaved with other calls. What
-- normalize("NFKC").toLowerCase() does and which characters are letters or digits are parameters of
-- the search; a text is a list of code points, and the search counts UTF-16 units where the source
-- tests the length of a term. toLowerCase is written out for the characters whose small form is or
-- contains an ASCII letter: a slug keeps no other, and the hostname of a URL has no other. The doubles
-- of the prediction market are an interface of numbers. The only recursions with fuel are
-- parsePredictionMarketReference, for which two rounds are enough, and the redirect loop, whose rounds
-- are those of the source; every other loop is a recursion on a list.
--
-- Not modelled: the PostgreSQL store, whose behaviour rests on the database; the HTTP routes but
-- those of Auth, and the MCP adapters; the fetching of market data and the snapshot of a market with
-- its hash; sockets, TLS and the life of the proxy's server; the browser and the language model that
-- read web pages; the other dashboards and metrics; the timer of the worker; free-form JSON,
-- explanations and fixed texts.
pub mod Common
pub mod Types
pub mod Lifecycle
pub mod Slug
pub mod Store
pub mod Trust
pub mod Receipts
pub mod Verification
pub mod Risk
pub mod Tests
pub mod Search
pub mod Ownership
pub mod Auth
pub mod PredictionMarket
pub mod Egress
pub mod Discovery
pub mod Cohorts
