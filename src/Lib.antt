-- ===== src/Lib.antt =====
-- Verification library of tortoise-extended, an extension of Tortoise ORM for PostgreSQL: caching in
-- Redis, trees kept as label paths, graphs, soft deletion, streams of events and their column types.
-- The models are the Python of src/tortoise_extended; the paths below are under it.
--
-- Parts and files:
--   Common, Common/*: shared types and lemmas. A `str` is the list of its code points (Texts), `len`
--     counts them; fallible code returns an Outcome (Outcomes); code with a state is an Act (Actions);
--     signed integers are Int; sorting of items by key is Sorting; `str` of a number is Decimal.
--   Cache/Key: `CacheKey` and `CacheNamespace` of cache/base.py, a key as its prefix, separator and
--     parts, `build` with the length before each component. Cache/Key/Unambiguous has the proofs.
--   Cache/Flight: `SingleFlight` of cache/base.py and the wrapper of `cached` in cache/decorators.py
--     around it. The event loop is a list of events, one resumption of one task each, so an
--     interleaving of tasks is a list; `claim`, `release`, `enter`, `wake`, `finish` and `abort` are the
--     stretches of code between two awaits. Invariant and Safety hold what every interleaving keeps.
--   Cache/Backend: `RedisCacheBackend` of cache/redis.py, operation by operation, and `get_many` and
--     `set_many` of `CacheBackend`, which it overrides. Its parameters are the serializer and the driver.
--     Laws has the reads after writes, Batch the comparison with the inherited loops, Purge
--     `delete_pattern`.
--   Cache/Decorators: the wrappers of cache/decorators.py, as a call runs them that no other overlaps;
--     Signature has the keys of calls, Served the theorems on what a decorated function returns.
--   Cache/Pool: `RedisCache` of cache/redis.py, `init`, `close`, `get_pool`, `get_backend`, over the
--     pools that are open. Lifecycle has the invariant.
--   Models/Orm: what the tree model uses of the mapper and of PostgreSQL, as records with laws.
--   Models/Hierarchy: `BaseHierarchyModel` of models/hierarchy_model.py, `move_to` with its guards and
--     its two updates; Paths and Forest say when a table is a forest of label paths, Landing where each
--     row of a move lands, Move treats `move_to`, Query the tree queries, Validate `validate_hierarchy`.
--   Models/GraphNode: `save`, `delete` and the queries of models/graph_node.py. Counters has the
--     arithmetic of the counter of children, Save the operations.
--     Walk is the loop of `path_to_root`: Ends has its termination, Chain its result. Subtree is the
--     search of `subtree`: Ends has its termination and the rules of its loops, Closed its result.
--   Models/SoftDelete: the query sets of models/soft_delete.py. Conditions says what a chain of calls
--     selects, Restore what deleting and restoring do to the rows.
--   Models/Cacheable: the cache record of models/cacheable_model.py and the coercions of
--     cache/_coerce.py; Records has the round trip. Operations has the cached reads, the writes and the
--     refresh: Transparent compares the reads with the database, Fresh composes them with the records
--     and the backend.
--   Models/EventStream: `bulk_insert` of models/event_stream.py with its helpers; Copy has the proofs.
--   Fields/Ltree and Fields/Vector: the conversions of fields/ltree.py and fields/vector.py; the proofs
--     on the binary layout are in Fields/Vector/Binary.
--   Sql: `quote_ident` and `quote_literal` of _quote.py and the f-strings that statements are written
--     as. Lexer is a lexer of SQL quotes that knows nothing of them, Templates says what a statement
--     is made of.
--   Timescale: the managers of timescale/hypertable.py, retention.py, compression.py and
--     continuous_aggregate.py over a connection. Hypertable/Names treats schema-qualified names, Sends
--     says what it means to send a statement, Injection and Policies hold it for the methods.
--   Migrations: the operations of migrations/operations.py over a schema editor; Runs has the proofs.
--   Expressions: `et_clause` of expressions/_edge_filter.py; Paths is expressions/pathfinding.py,
--     Traversal is expressions/graph_traversal.py, each with its texts in Statements and its proofs in
--     Bound; Placeholders reads the placeholders `$n` of a text, each with its line so far.
--   The modules called Tests run the definitions on concrete inputs.
--
-- How they interact: the wrapper of `cached` builds its key by `CacheKey`, asks a backend and shares
-- its work by `SingleFlight`; a backend is made over the pool of `RedisCache`;
-- the cached reads of a model ask that backend under a `CacheKey`; the tree model reads its
-- paths through the label path field. Where a component rests on the serializer, the driver, the
-- mapper, the database or `struct`, these are parameters, with their documented behaviour as named
-- hypotheses or as fields of a record of laws, which the modules called Tests meet by concrete
-- functions. The laws of Redis say nothing of a SET whose time to live is not above zero or of an MGET
-- without keys, which it refuses; those of the mapper are of updates that the database takes, so a
-- label that PostgreSQL refuses is outside the model. What gives a cache its backend may raise.
--
-- A statement's text is its f-string, with constants that adjoin joined to one. The lexer knows
-- strings and quoted identifiers with doubled quotes, as PostgreSQL reads them with
-- standard_conforming_strings on; no statement has comments with quotes, dollar quotes or escape
-- strings of its own.
--
-- Bounds: every loop of the modelled code is over a list but those of `path_to_root` and `subtree`,
-- which run on fuel, two rounds and one round more than there are rows; each round of the first visits
-- a row that was not visited, each of the second takes a node from a queue in which each row stands
-- at most once. The header of a stored vector holds two 16-bit numbers, written out. Python's
-- integers are ℕ or ℤ.
--
-- Not modelled: the orderings of query sets; the SQL of indexes, of filters and of the searches in
-- expressions; `ContinuousAggregateManager.create`, which checks its query by regular expressions;
-- timescale/stream.py; the writer of migrations, patched by reflection; the cached query sets; the
-- user model; logging; the text of messages outside timescale.
pub mod Common
pub mod Cache
pub mod Fields
pub mod Models
pub mod Sql
pub mod Timescale
pub mod Migrations
pub mod Expressions
