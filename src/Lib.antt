-- ===== src/Lib.antt =====
-- sqlite-mem: an in-memory SQLite in TypeScript. What is modelled of it, part by part.
--
-- Lexer (src/lexer/tokenize.ts). `tokenize` turns a text, a list of UTF-16 code units, into tokens.
--   Lexer/Keywords and Lexer/Tokens have the kinds and the keyword table, Lexer/Scan the scanning
--   loops, Lexer/State, Lexer/Words and Lexer/Operators one function for each branch of the loop, and
--   Lexer `lex_step` (one round), `lex_loop` and `tokenize`. The scanning loops recurse on the text.
--   The main loop has one unit of fuel for each character: a round reads a character at least. The
--   value of a real is kept as its digits, since the conversion is another file's.
-- Errors (src/errors/index.ts). `SqliteError`, and `Result` for code that may throw it.
-- Catalog (src/storage/database-state.ts). Two states can hold the same table or index object, and a
--   frozen object is copied before it is written. Storage/Cow models one map of the catalog over a
--   heap of objects: `mark` (freezeShared, thawShared), `ensure_writable`, `get_writable`, `clone_all`.
--   Storage/Cow/Maps is the JavaScript `Map`; Views says what a map shows, Owned, Marking, Writing and
--   Writes prove what the operations keep. Storage/State has a state's two maps and its other values,
--   with clone, replaceWith and recordChange. The content of a table, of an index and of the other
--   values (views, triggers, virtual tables, flags) are type parameters: what a statement does to them
--   is a function. An index is copied by value: in the source the copy shares the maps of a store, which
--   is frozen, until the copy's first write, which copies them. Attached databases and names with a
--   schema before them are not modelled.
-- Table storage (src/storage/table.ts, src/storage/row.ts). Storage/Table has the record of a table and
--   the map of its rows, Columns the cells by name and the preparation of values, Rowids the allocation
--   of rowids, Hashes the equality hashes, Validation what a row must satisfy, ClusterKeys the keys of
--   WITHOUT ROWID tables, Storing and Editing insert, update and delete,
--   Scanning the order of a scan. Invariant and Numbering say what
--   holds of rowids, RowMaps and RowidOrder are about the map and the order, Allocation about new rowids,
--   Changes, Inserted, Updated and Deleted about what each operation does, and Edits about tables that are reached
--   from new ones. A call that throws gives an error only: what it left behind is not modelled. The search
--   for a free rowid is on fuel, one more than the rows; in a reached table the first rowid is free. The
--   columnar slab and the catalog's use of tables are not modelled.
-- Random generator (src/runtime/prng.ts). Runtime/Prng has the state step, what is drawn from it, and
--   the seeds; Runtime/Prng/Draws the ranges. `nextInt`, which computes its range in doubles, and the
--   float, entropy and hash functions are left out.
-- Transactions (src/transactions/manager.ts). Transactions has every operation of the manager, and
--   `step` over commands; a command that throws leaves the manager as it was. Transactions/Spec is the
--   meaning of transactions on plain values, Abstraction the database that a manager stands for and
--   the invariant, and Shared, Points, Control, RollingBack, Savepoints, Releases, Statements and
--   Refinement prove that the manager does what Spec says; Unwinding, Returns and Laws say what a
--   rollback returns to. The content of a table there is what its copy has: its fields and the
--   references to its `Row` objects. Transactions/RowObjects adds these objects, which tables and their
--   copies share, and the statements that make new ones or change them in place (ALTER TABLE ADD COLUMN
--   and DROP COLUMN, src/executor/ddl.ts); Refining and Restoring take the laws over to it.
-- Snapshots (src/api/snapshot.ts). Api captures and opens a snapshot over the shared objects;
--   Api/Thawing says which writes show in it. Bytes, clock and seed are left out.
--
-- Wire format (src/serialization/wire.ts). Serialization/Wire has the varints and the bytes of the
--   writer and the reader, Serialization/Wire/Intern the pool of strings, and Serialization/Wire/Json
--   the binary form of JSON-like values. Reading a value is on fuel for its nesting: a value's size is
--   enough. JavaScript's numbers are a type parameter, and what the language does with them is the
--   record `Host`, whose laws are `IsHost`. A key `__proto__` makes no entry. How the
--   writer's buffer grows, the reader's alignment, the table of interned strings are not modelled.
-- Index store (src/indexes/index.ts). Indexes has insertion, the uniqueness check, lookup and removal,
--   and Indexes/Keys the string that is the key of a row of values. The rendering of a number that is
--   no integer is a parameter. Indexes/Search has the order of the keys and the search of a range: Points
--   says where a binary search ends, Sorting and Heads what the order of the keys is, and Lookup what a
--   search finds. A search's fuel is the number of keys. The search of a prefix is not modelled.
-- Values (src/types/value.ts, src/types/collation.ts, src/types/strict.ts). Types/Value has the values,
--   Types/Comparison their order, Types/Conversion the affinities and Types/Strict the columns of STRICT
--   tables; Types itself normalizes values for a collation, and Types/Collation says what the collations
--   identify. Doubles are a type parameter with `<` and the rounding of BigInts (`Doubles`, whose laws
--   are `IsOrdered`) and the other things that the platform does with them (`Numbers`, `IsExact`);
--   Types/Evens is an instance. The text of a real and the number at the start of a text are parameters,
--   as are capitals.
-- Operators (src/expressions/eval.ts). Expressions/Operators compares two values as an expression does,
--   with affinities and a collation, and has AND and OR, which may leave their right side unevaluated.
-- LIKE (src/expressions/like.ts). Expressions/Like has the pattern's atoms, which stand for the regular
--   expression that the source writes, and their test; Matching and Escaping say what it matches.
--   GLOB is not modelled.
--
-- The modules named Runs hold concrete runs. Prelude has what all of this shares: Boolean tests, lists
-- over native numbers, texts and integers; `to_lower` has Unicode's small letters for letters of one
-- UTF-16 unit, but for U+0130 and for a capital sigma at the end of a word.
--
-- Not modelled: the parser, the planner, the executor (but for what ALTER TABLE does to rows), the rest
-- of the evaluator, functions, JSON, full text search, constraints and the snapshot's codec, which
-- later modules can build on these; the API's glue; and files, clocks and benchmarks, which are input and output.
pub mod Prelude
pub mod Errors
pub mod Lexer
pub mod Storage
pub mod Runtime
pub mod Transactions
pub mod Api
pub mod Serialization
pub mod Indexes
pub mod Types
pub mod Expressions
