-- ===== src/Lib.antt =====
-- pgfathom: verification of the discovery core.
--
-- pgfathom reads a PostgreSQL catalog, infers the foreign keys that nobody declared, discards the
-- arithmetically impossible ones with planner statistics, and validates the rest against the data.
-- This library models that core, package by package, and proves what makes each step correct.
--
-- The parts and their files (paths from the repository's root):
--
--   Base          what every part shares: Boolean tests on the native numbers, lists, integers,
--                 byte strings with the functions of package strings, dictionaries, decimal text,
--                 and float64 as an instance argument (Base/Floats).
--   Db            internal/db/dsn.go: ResolveDSN and Describe.
--   Model         internal/model. Refs and Table are schema.go (keys, tables, IndexLeads,
--                 PromotableUnique), Usage is stats.go, Candidate is candidate.go and the tallies
--                 of result.go, Coverage is coverage.go, Evidence is evidence.go and extension.go,
--                 Finding is finding.go, Naming is naming.go, Result the record of result.go.
--   Profile       internal/profile: the naming profile of profile.go, Validation (Validate), and
--                 all of normalize.go in Normalize (EntityName, TableForms, Match).
--   Infer         internal/infer. Types is types.go, Score is score.go (the score, and cutScore,
--                 which the threshold sees), Similarity is similarity.go. generate.go is Signals (the
--                 options, resolveKeyTarget, buildSignals), Matches (eligible, generateFor and both
--                 ways to match a name), Generate (the walk over the schemas, polymorphicPairs),
--                 Finalize (the cut at the threshold and the order of the result) and Run (Generate
--                 as a whole). Keys (targets by column set), Composite (readings of a key) and
--                 Emission (ties, the candidates) are composite.go; Evidence is evidence.go.
--   Stats         internal/stats/stats.go: Columns is the store of planner statistics, Evaluate is
--                 the prefilter.
--   Sqlprobe      internal/sqlprobe. token.go is Scan (the routines that skip and read) and Token
--                 (the loop of tokenize); extract.go is Extract (names, aliases, parts) and Walk (the
--                 walk over the tokens); Resolve is probe.go after its queries: references against
--                 the catalog.
--   Validate      internal/validate. Options, Verdict, Session (runQuery, resolveError), Group (the
--                 goroutines of Run) and Run are validate.go; Sample and Query are query.go; KeyProbe
--                 is keyprobe.go.
--   Audit         internal/audit/audit.go: every check of Findings, and the order of the findings.
--   Discovery     internal/discovery/discovery.go: the stages, timeline and findings of a run;
--                 Pipeline has Run, stage by stage.
--   Report        internal/report/sql.go: Names (identifiers and their quoting), Lines (the header
--                 of a file), Suggestions (the keys and indexes that are suggested), Relations (the
--                 files of confirmed and broken relations, DiscoverArtifacts) and Pending (the file of
--                 constraints to validate, AuditArtifacts).
--   Witnesses     concrete instances of the parameters, and each theorem at a concrete input.
--
-- How they interact: a profile turns names into entities and forms; inference matches them, raises
-- candidates from columns, from composite keys and from the joins that Sqlprobe reads out of the
-- database's own SQL and resolves against Model.Table, and keeps those whose cutScore passes;
-- Stats.Evaluate takes candidates and the row estimates and returns the kept and the rejected;
-- Validate.Run takes the kept, builds one query for each, and gives each a verdict. Discovery runs
-- these stages in a row. Audit reads the declared schema alone. Report writes the candidates and the
-- findings out as SQL.
--
-- Conventions. A Go function is the definition of the same name in snake_case. An error is a value of
-- Validate.Session.Result; a panic by an index out of range is `none`. A string is its bytes. An int
-- of the source that cannot be negative is a natural number, and any other an integer; none of the
-- counts comes near 2^63. A duration is a number of nanoseconds.
--
-- Parameters. float64 is the instance `Float`: a carrier, the operations, and laws of IEEE 754 that
-- the reasoning rests on (comparison, monotone rounding, exact doubling). NaN is allowed for: neither
-- `lt` nor `le` is the negation of the other. What package strings does with text outside ASCII rests
-- on Unicode tables and is the instance `Unicode`. The database is a `Session`: what it answers to the
-- statements of one transaction. pgx's Identifier.Sanitize is a function of the names, and so are the
-- FNV hash in hexadecimal, utf8.ValidString and the RFC 3339 form of a time. The order in which
-- goroutines finish is a list of indices, and the order in which Go walks a map whose entries the
-- program does not sort is a function; what Wait of errgroup gives, the first error that a goroutine
-- returned, is written out in Validate/Group. What the queries of the SQL probe return is an argument.
--
-- Loops. Loops over slices are structural recursion. tokenize runs on fuel, the length of the text,
-- since every round reads a byte at least. Counts are printed on fuel one more than the number, since
-- every round divides it by ten.
--
-- sort.SliceStable is the stable insertion sort of Base/Sorting. A Go map is an association list whose
-- newest entry wins; where the program walks a map, it sorts the keys first, and so does the model.
--
-- Not modelled: the JSON and RFC 3339 encodings of values, such as UsageStats.MarshalJSON; the catalog
-- and statistics queries, the connection pool, the benchmark, flags and prompts, which are I/O around
-- text; the terminal and JSON reports, which are layout. The detection of a naming profile
-- (internal/profile/detect.go) is not modelled: it is a parameter of Discovery.
pub mod Base
pub mod Db
pub mod Model
pub mod Profile
pub mod Infer
pub mod Stats
pub mod Sqlprobe
pub mod Validate
pub mod Audit
pub mod Discovery
pub mod Report
pub mod Witnesses
