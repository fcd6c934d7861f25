-- ===== src/Lib.antt =====
-- RelayScope watches relay sites for language models: it collects their models, prices and health on a
-- schedule, matches raw model names to canonical ones, and runs a membership with paid orders, wishes for
-- new sites, free monthly credit and redeem codes. This library models the parts that keep money, rights
-- and schedules, from the Go sources.
--
-- The store (internal/store). Store.antt holds the rows, the database as one list for each table, and
-- transactions: a body from a database to a result with a database, whose failure gives the old one back,
-- which SQLite is taken to do at the deferred Rollback. Base/Rows.antt has SELECT, UPDATE and COUNT with a WHERE test on lists
-- of rows. UNIQUE, CHECK and foreign keys are tests that give the error `constraint`; errors of the
-- driver and of the disk are not modelled, nor are concurrent transactions, which SQLite runs one after
-- another. Store/Membership.antt with Usernames is membership.go, Store/Orders.antt is ldc_orders.go,
-- Store/Refunds.antt is membership_refunds.go with MarkOrderRefunded, Store/Wishes.antt is wishes.go,
-- Store/Credits.antt is wish_credits.go and Store/Redeem.antt is redeem.go. Each function has its name in
-- snake case, takes the time as an argument, and gives the database and its result. The parts meet in the
-- database: a payment delivers a membership or reaches a wish, a refund takes that back, a pledge writes
-- an order, a code extends a membership. Store/Intervals.antt and its children state what the tables keep
-- true together; Store/Intervals/Steps.antt has all calls that change these tables as steps.
--
-- Store/Users.antt is the users of feedback.go, who log in by UpsertUser.
-- Store/Orders/Listing.antt has the lists of orders and codes, Store/Reminders.antt is
-- renewal_reminders.go with a table of its own.
--
-- Store/Notifications.antt with Channels is notifications.go: the outbox, its deliveries and the
-- subscriptions, in a record `Mail` of their own tables. Store/Announcements.antt is ApplyAnnouncements of
-- announcements.go, on a board of announcements and the versions that were seen of each, and
-- Store/Announcements/Cleanup.antt has its cleanup and lists.
--
-- Store/Catalog.antt has the tables of sites, models, groups, snapshots, buckets and matches, with
-- Store/Catalog/Observed.antt and Store/Catalog/Collect.antt, which are collection_apply.go, and
-- Store/Catalog/Matches.antt, which is the refreshing of matches in rules_matches.go. They take a collection of
-- Domain.antt and the rules of Matcher.antt; Store/Catalog/Calls.antt has what changes these tables, in any
-- order. Their statements fail only on a foreign or a primary key. Where the source takes an interval from a
-- time, the time stops at 1970.
--
-- Store/Preferences.antt is prefs.go, with a table of its own whose columns hold what was encoded.
--
-- The notifier (internal/notifier). Notifier.antt is the limiter of ratelimit.go. Notifier/Dispatch.antt is
-- dispatcher.go, which reads the pending entries in rounds and sends them, a platform at a time, and
-- Notifier/Enqueue.antt is what adds entries for new announcements: it reads the membership in the store
-- and the subscriptions. A round is a sequence of steps of a Courier: the list is read, each entry is checked
-- again, each send ends, its UPDATE included. Notifier/Calls.antt mixes them with announcements, each a single
-- step, and with the changes of subscriptions in any order. The UPDATEs after a send look only at the id, so
-- that an entry that is cancelled during its send, or whose platform has no sender, is overwritten: the
-- statement there leaves these out. The errors of the database in a round are not modelled. Grants are computed
-- anew where the code caches them in a call. Notifier/Reminders.antt has the rounds that remind members, on
-- the claims of Store/Reminders.antt; the text of a reminder is a parameter.
--
-- Payments. Payment.antt is internal/payment/payment.go, a record of operations, and Payment/Epay.antt
-- is internal/payment/epay/epay.go, which signs and checks. Server.antt and its children are
-- the payments of internal/httpserver/user_routes.go: the rate limiter, the creation of a charge, and the
-- handlers of a recharge, a pledge, an order and a payment notice, which take a provider, the store and
-- the decoded request, and give the store and the reply.
--
-- Admin.antt is internal/admin/auth.go, Domain.antt is internal/domain/domain.go, Matcher.antt is
-- internal/matcher/matcher.go, Pricing.antt with Tokens, Parser and Tiers is internal/pricing/expr.go,
-- Routing.antt is internal/routing/observations.go, on JSON that was decoded, and Scheduler.antt is
-- internal/scheduler/scheduler.go, where dispatches and ends of workers are steps in any order. The
-- children of each module are named for what they prove; Examples has the inputs.
--
-- Numbers and texts. A signed integer that the code first compares with 0 is a natural number, where 0
-- stands for what is not positive; days and amounts are bounded by the code, so that 64 bits suffice.
-- Times are milliseconds since 1970 in the store and in the rounds of the notifier, and nanoseconds in
-- collections and elsewhere, 0 for the zero time. Tokens of a rate limit are billionths. A number of a metric, which is only stored, is the 64
-- bits of its float64. A text is a list of code points, and letters and spaces are those of ASCII. A month
-- is 100 * year + month. A map is an association list. sort.Slice is an insertion sort.
--
-- Parameters: url.Parse, regexp.Compile, strconv.ParseFloat, bcrypt, md5 and sha256, the random tokens, codes
-- and jitter, the encoding of messages as JSON, the order in which a map is walked, what a platform answers
-- to a request or a send, and float64, of which only 0 + 0 = 0 and 0 - 0 = 0 are asked.
--
-- Fuel. The tokenizer has one unit for each character and one more, the parser four for each token and
-- four more, the search for tiers one for each character and one more: each round of a loop and each
-- four calls in a row consume one. GenerateRedeemCodes draws from a list in place of the random source.
--
-- Not modelled: feedback texts, the other HTTP handlers, the adapters and the collector, which decode answers
-- of other services, the requests of the senders and of the payment platform, sessions, the encoding of
-- observations, the edits of sites and of rules in the store and its queries for display, configuration, and
-- the front ends.
pub mod Admin
pub mod Base
pub mod Domain
pub mod Examples
pub mod Matcher
pub mod Notifier
pub mod Payment
pub mod Pricing
pub mod Routing
pub mod Scheduler
pub mod Server
pub mod Store
