-- ===== src/Lib.antt =====
-- A model of ODPI-C, the C layer of godror in odpi/, which the Go driver reaches by cgo. The Oracle
-- client library OCI and the database lie behind it and are parameters of the model.
--
-- The parts, and how they interact:
-- Number: numbers between text and the OCINumber structure. Number.Parse is
--   dpiUtils__parseNumberString and Number.Oracle is dpiUtils__parseOracleNumber of
--   odpi/src/dpiUtils.c and dpiDataBuffer__toOracleNumberFromText of odpi/src/dpiData.c, which calls
--   the parser; Number.Text is dpiDataBuffer__fromOracleNumberAsText, which calls the reader. Text and
--   structures are lists of bytes; the array of digits of Number.Text is
--   bounded, by `none` for digits past its end, and other bounds are stated. Number.Literal describes
--   the documented number format apart from the parser, and Number.Proper how many digits are read.
-- Handles: the ring of error handles of odpi/src/dpiHandlePool.c (Handles.Pool), against a queue
--   in Handles.Queue, and the slots of open handles of odpi/src/dpiHandleList.c (Handles.Table). A
--   handle is a number, and whether an allocation succeeds is an argument.
-- Gen: the base of every public handle of odpi/src/dpiGen.c: the table of types (Gen.Types), the
--   check of a handle and its reference count (Gen.Handle), against a counter in Gen.Counts;
--   a call on a handle that was freed is `none` there.
-- OracleTypes: the table of the types of odpi/src/dpiOracleType.c with the lookup in it
--   (OracleTypes.Table), the conversion of OCI type codes (OracleTypes.Convert), and the description
--   of a column up to its default native type (OracleTypes.Describe).
-- Stmt: binding, fetching and scrolling of odpi/src/dpiStmt.c. Stmt.State has the fields of dpiStmt that
--   they use, and the record Oci of what they call of OCI; a function is an action on the statement
--   and the state of the database. Stmt.Fetch has dpiStmt_fetch, dpiStmt_fetchRows,
--   dpiStmt_setFetchArraySize and what they call, with dpiOci__stmtFetch2 of odpi/src/dpiOci.c;
--   Stmt.Scroll has dpiStmt_scroll. Stmt.Close has dpiStmt__close, which uses Handles.Table, on the
--   fields that it reads and a list of the calls that it makes of others; Stmt.Bind has dpiStmt__bind.
-- Var: variables of odpi/src/dpiVar.c. Var.State has the fields of dpiVar and dpiVarBuffer with the
--   bytes of the memory behind them. Var.Allocate has dpiVar__allocate and dpiVar__initBuffer, which
--   use OracleTypes and Gen; Var.Types has dpiVar__validateTypes and the choice of conversions.
--   Var.Store has byte strings in place, from dpiVar_setFromBytes over dpiVar__setValue to
--   dpiVar__getValue; Var.Chunks has dynamic bytes, which values of unknown size use: OCI fills the
--   chunks that dpiVar__defineCallback offers. `none` stands for undefined access to memory there.
--   Var.References has the handles that a variable refers to, with a list of handles and their counts
--   by Gen. Var.Returning has dpiVar__outBindCallback for the rows that a statement returns.
-- Json: JSON values of odpi/src/dpiJson.c, between the documents of OCI and trees of nodes. Json.Tree
--   has the nodes, and Json.Dom what is called of a document, with Represents for the finite tree that
--   a node of it stands for. Json.Read is dpiJsonNode__fromOracleToNative with the functions that it
--   calls, over Json.Scalars and Json.Buffers, which has the buffers for the texts of numbers by
--   Number.Text; Json.Native describes the result apart from batches. Json.Write is
--   dpiJsonNode__toOracleFromNative with the functions that it calls, which uses Number.Oracle, and
--   dpiJson__setValue. The calls that build a document, and the conversions of dates and floating
--   point numbers, are parameters; a floating point number is the number that its bits make.
-- Queue: queues of messages of odpi/src/dpiQueue.c. Queue.Buffer is dpiQueue__freeBuffer and
--   dpiQueue__allocateBuffer, with the blocks of memory that are allocated; `none` stands for a block
--   that is freed again. Queue.Messages has dpiMsgProps and the checks of payloads, Queue.Enqueue and
--   Queue.Dequeue are dpiQueue__enq and dpiQueue__deq from the allocated buffer on, whose arrays are
--   lists; what the server answers is a parameter.
-- Version: the checks of versions of odpi/src/dpiUtils.c.
-- Base: the names that the others share: tests on numbers, lists as C arrays, signed integers, and
--   the error numbers of odpi/src/dpiImpl.h as results.
--
-- Numbers and bounds: C integers are natural numbers, or signed integers of Base.Int, with the
-- wrap-around written out where a value of the code can reach it: the bytes of an OCINumber, the
-- reference counts, the rows and offsets of dpiStmt_scroll, the sizes and offsets of variables, the
-- lengths of field names. The counts of slots, the rows that dpiStmt_fetch counts, and the items and
-- buffers of a JSON value are taken not to reach the end of their types. Loops recur on the list or on
-- the count that they go through, so no fuel is needed but in three places: the search of a free slot
-- has as many rounds as there are slots; the loop over the batches of a JSON array or object has as
-- many as there are items, since one that takes more has met an empty batch, for which the code
-- asks without end; and Json.Read.from_oracle has fuel for the depth of the calls, of which the
-- depth of the document is enough.
--
-- Left out: mutexes, since each call under one is a single step; debugging output and the texts of
-- messages; the checks for NULL pointers of arguments; dpiStmt__check beyond the open handle;
-- in fetches, the buffers of variables but for their size and the success of conversions; in variables,
-- the conversion to a LOB, and the OCI descriptors in `data`; in JSON values, the nodes that a failed
-- call has filled in, and how they are freed; in queues, the options, the indicators, what a call leaves in the
-- arrays for OCI, which every call fills before it uses them, the offset in the error and the check of
-- the connection. The other files of odpi/src/, the Go driver and the Go
-- packages are not modelled.
pub mod Base
pub mod Version
pub mod Number
pub mod Handles
pub mod Gen
pub mod OracleTypes
pub mod Stmt
pub mod Var
pub mod Json
pub mod Queue
