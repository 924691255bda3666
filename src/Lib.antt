-- ===== src/Lib.antt =====
-- Verification of rtdb_common, an embedded real-time database in a shared memory image, with a
-- network protocol and a subset of SQL.
--
-- Parts and files (paths are from the repository's root):
-- - Common holds names shared by all modules: tests on numbers, lists by native numbers, integers.
-- - Types: error codes, column types and values (include/rtdb/err.hpp, table_def.hpp,
--   column_value.hpp). Texts are lists of bytes, a double is its 64-bit pattern. A function that
--   returns `Err` or `Result` returns `Result` here; messages are left out.
-- - Infra.Crc32: the checksum (src/infra/crc32.hpp). Infra.Slab: the allocator of the image
--   (src/infra/slab_allocator.cpp). Its state is the control block with the header in front of each
--   user offset and the link at it; `attach`, `allocate`, `deallocate` and `reserve_permanent` are
--   the methods of the class.
-- - Infra.BTree: the B+ tree of the image (src/infra/shared_btree.hpp), on trees as values. Update has
--   `Insert`, `Remove`, `Reset` and `Destroy`, Range the cursor, which follows the links that the image
--   stores, OrderedInt the integer keys. Links is about these links, Listed and Simulation compare the
--   cursor with the list of the leaves, and the other modules prove that the tree is the sorted list of
--   its entries. A leaf is named by the number of nodes that the allocator had left before it gave the
--   leaf out; where the allocator gets nodes back meanwhile, two leaves may have one name, and no image
--   holds such a tree.
-- - Net.Writer and Net.Reader: the two classes of src/net/codec.hpp, on lists of bytes. A reader is
--   the bytes that are left and the flag for poison. Net.Values: values and rows
--   (src/net/value_codec.cpp). Net.Wire: frames over a transport (src/net/wire.cpp).
-- - Storage.Wal: the ring of the write-ahead log (src/storage/wal_ring.cpp), a record with the fields
--   of its header and the area as a function; Scan has ScanValid and ScanRange, Replay has ReplayWal,
--   whose variables are a record that the callback of the scan passes on.
-- - Storage.Layout: the layout of a row (src/storage/schema.hpp). Storage.Catalog: the catalog
--   (src/storage/catalog.cpp), a record with the two trees of the root, the descriptors by their
--   offsets and the counters; Tables has its invariant, Create, Hang and Creation the proofs on
--   `CreateTable`, Drop those on `DropTable`.
-- - Sql.Ast: syntax trees (include/rtdb/sql.hpp). Sql.Lexer: the lexer of src/sql/parser.cpp, whose
--   state is the text that is left; Sql.Token and Sql.Parser: its parser on tokens; Sql.Text: both
--   on a text. Sql.Values, Sql.Eval and Sql.KeyRange: literals,
--   comparisons, WHERE clauses and the key range taken from them; Sql.Select: the scan of a SELECT
--   without ORDER BY, on the pages that the engine delivers; Sql.Write: INSERT, UPDATE and DELETE
--   (src/sql/exec.cpp).
-- - Server: the decisions of src/server/authz.cpp.
-- - Examples: tests, and the theorems applied to concrete inputs.
--
-- Interaction: frames use the writer, the reader and the checksum; the ring uses the checksum; the
-- replay uses the scan and the rewinding of the ring; the catalog uses the B+ tree twice, its keys
-- and the row layout; the evaluation of WHERE clauses relies on the
-- shape of the trees that the parser builds, and the key range on the evaluation.
--
-- Parameters: the socket (`Net.Wire.Transport`, with the documented laws of a stream in
-- `Net.Wire.Frame.Stream`), the table store as recovery calls it (`Storage.Wal.Replay.TableOps`), and
-- the conversions and comparisons of the language (`Sql.Values.Runtime`), and the engine's batches as
-- the executor calls them (`execute_batch` of Sql.Write).
--
-- What the allocator and `TableStore::Format` answer while the catalog makes a table is an argument of
-- the call (`Storage.Catalog.Answers`).
--
-- Bounds and fuel: offsets, sequence numbers and sizes are natural numbers without a bound, since
-- they stay far below 2^64 in an image; bytes written, checksums and the prefixes of lengths wrap as
-- in the source. A scan has the step bound of the source. The loop of a reclaim has no bound in the
-- source, so its fuel is an argument and running out of it an outcome of its own. The parser
-- takes fuel too: four rounds for each token are enough for a statement, and a token for each
-- character and one more for a text, as is shown.
-- A descent in the B+ tree has the 64 rounds of the source for an insertion and
-- fuel elsewhere; both are enough for a tree of fewer levels, as is shown.
--
-- Not modelled: null pointers, messages, positions in the SQL text, the points of failure
-- injection, atomics and threads. The rest of the storage engine (tables,
-- indexes, snapshots, group commit), the engine, the server's sessions and the client are not
-- modelled either; file, socket and memory mapping calls are the operating system's.
pub mod Common
pub mod Types
pub mod Infra
pub mod Net
pub mod Storage
pub mod Sql
pub mod Server
pub mod Examples
