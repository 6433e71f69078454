-- ===== src/Lib.antt =====
-- The Go binding of ObjectBox: a model of the core of the package objectbox and what its parts
-- guarantee.
--
-- The package gives Go programs typed access to a database whose engine is a C library. A program
-- describes its entities by generated bindings, opens an ObjectBox, and works with the Box of each
-- entity: it puts, reads, removes and relates objects, inside transactions or not, and it queries them
-- with conditions that a query builder hands to the engine. Where the engine calls back into Go, it
-- is given numbers that registries map to Go functions.
--
-- The engine, the FlatBuffers library and the bindings of a program's own entities are not in the
-- repository. Their functions are the fields of records (Native.Errors, Transactions.TxnApi,
-- Box.BoxApi, Box.Binding, QueryBuilder.QueryApi, Model.ModelApi, Query.QueryCalls,
-- Native.Getters.ArrayApi, PropertyQuery.PropertyCalls, SyncClient.SyncApi, Store.StoreApi,
-- Store.Boxes.BoxCalls, AsyncBox.AsyncApi, FbUtils.Getters.Table, FbUtils.Setters.FbBuilder,
-- FbUtils.Buffers.FlatBuffers), which every definition that calls them takes as an argument; what a
-- theorem needs of them is a record of laws (TxnLaws, StoreLaws, Untouched, RelationLaws, CloseLaws,
-- FindLaws, OptionLaws, FlatBuffersLaws, TaskStoreLaws, TaskHeapLaws) that states the documented
-- behaviour. The examples fill each of them with a small store in memory.
--
-- A Go function that changes something is an Exec: it takes the state of the world and gives back an
-- Outcome (a value, an error or a panic) and the world after it; a `defer` is `finally`. A pointer of
-- C is a handle, none if it is null, and an array of C is a handle with its items. uint64 and the
-- other unsigned integers are natural numbers with their wrap-around written out, signed ones are
-- integers. Maps are association lists; where Go walks a map, the order is an argument.
--
--   Base            tests, lists, maps, outcomes and integers that the other files share
--   Version         objectbox/version.go: LessThan is less_than
--   Slots           the search for a free number in objectbox/c-callbacks.go and datavisitor.go
--   Callbacks       objectbox/c-callbacks.go, c-callbacks-c.go: cCallbackRegister is register,
--                   cCallbackLookup is find, the dispatchers are in Callbacks/Dispatch
--   Visitors        objectbox/datavisitor.go, datavisitorc.go
--   Native          objectbox/c-tools.go: cCall is c_call, cGetIds is c_get_ids in Native/Getters;
--                   objectbox/c-arrays.go: cIdsArrayToGo is ids_to_go in Native/Arrays
--   Transactions    objectbox/objectbox.go: runInTxn is run_in_txn; callbacks that run transactions
--                   themselves are in Transactions/Nested
--   Box             objectbox/box.go: put is put_object, PutMany put_many in Box/Batch, the reads are in
--                   Box/Reads, those with a data visitor in Box/Visiting, and the relations in
--                   Box/Links; goBytesArrayToC and goIdsArrayToC of objectbox/c-arrays.go stand
--                   beside their callers
--   QueryBuilder    objectbox/querybuilder.go: Build and Close are in QueryBuilder/Finish, the methods
--                   for single conditions in QueryBuilder/Methods
--   Condition       objectbox/condition.go and relation.go: applyTo and the links in Condition/Apply
--   Properties      objectbox/property.go: each kind of property is the record of its conditions
--   Model           objectbox/model.go: the methods of Model are the cases of run, RegisterBinding is
--                   register_binding
--   Query           objectbox/query.go: each method by its name; SetInt64Params is set_int64_params;
--                   QueryOrError of box.go is query_or_error in Query/Making
--   Converters      objectbox/converters.go: TimeInt64ConvertToEntityProperty is time_to_property
--   PropertyQuery   objectbox/propertyquery.go: FindUint64s is find_uint64s
--   SyncClient      objectbox/sync-client.go and sync.go: NewSyncClient is new_sync_client in
--                   SyncClient/Open, the listeners are in SyncClient/Listeners
--   Store           objectbox/builder.go: BuildOrError is build_or_error; objectbox/objectbox.go and
--                   newBox of box.go in Store/Boxes and Store/Closing
--   AsyncBox        objectbox/asyncbox.go: put is put_async
--   FbUtils         objectbox/fbutils: GetBoolSlot is get_bool_slot in FbUtils/Getters, SetBoolSlot is
--                   set_bool_slot in FbUtils/Setters; FbUtils/Buffers says what the library writes and
--                   reads back
--   Tasks           examples/tasks: the generated binding of internal/model/task.obx.go is task_binding
--                   in Tasks/Binding, TaskBox is in Tasks/Boxes, AddToModel and objectbox-model.go in
--                   Tasks/Schema; the shell of main.go is run_interactive_shell in Tasks/Shell, its
--                   setup is in Tasks/Setup; Tasks/Texts has what it uses of bufio and strings
--
-- The registries' search takes at most 2 ^ 32 rounds, which is its fuel: the numbers are 32-bit and
-- the loop stops when it is back at its start. A number is printed with 20 rounds, since a uint64
-- has at most 20 digits. The loop over the texts of a FlatBuffers vector takes as many rounds as the
-- vector has elements, which is enough since a buffer ends below 2 ^ 32. The shell of the
-- tasks runs as many rounds as its input has bytes and one more, which is enough since every round but
-- the last one reads a byte. Every other loop is a recursion on a list or on a count.
--
-- Not modelled: mutexes and the locking of threads (an operation is one step), finalizers, pools of
-- builders, reflection (a slice of objects is a list), the converters of times in texts and bytes,
-- which only call the package time, the pointers by which Go hands slices of numbers and texts to C,
-- which are lists here, how the list of tasks writes a time, the thread on which its sync listener
-- runs, and its main, which calls the functions of its setup and then the shell.
pub mod Base
pub mod Version
mod Slots
pub mod Callbacks
pub mod Visitors
pub mod Native
pub mod Transactions
pub mod Box
pub mod QueryBuilder
pub mod Condition
pub mod Properties
pub mod Model
pub mod Query
pub mod Converters
pub mod PropertyQuery
pub mod SyncClient
pub mod Store
pub mod AsyncBox
pub mod FbUtils
pub mod Tasks
