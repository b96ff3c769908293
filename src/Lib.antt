-- ===== src/Lib.antt =====
-- A model of parts of the Descartes Labs Python client, with theorems on it. The client talks to remote
-- services; the parts modelled here are those that compute something themselves.
--
-- * Graft (descarteslabs/common/graft): a graft is a JSON syntax for functions. Graft/Syntax.antt and
--   Graft/Syntax/Arguments.antt are syntax/syntax.py; Graft/Client.antt (value_graft, keyref_graft,
--   apply_graft), Graft/Client/Functions.antt (function_graft) and Graft/Client/Scopes.antt
--   (merge_value_grafts, isolate_keys, parametrize, consistent_guid) are client/client.py;
--   Graft/Interpreter.antt (interpret, get, evaluate, as_function), Graft/Interpreter/Classify.antt (the
--   tests of evaluate) and Graft/Interpreter/Scopes.antt (scopedchainmap.py) are interpreter/. The
--   client's state is the counter behind guid() and the mark of consistent_guid; its operations pass it
--   along and may raise. The interpreter's state is a heap of the scopes of keys that were evaluated,
--   since closures share and change them. Graft/Value.antt and Graft/Fields.antt are the Python values.
-- * Filtering (descarteslabs/common/property_filtering/filtering.py): filter expressions, with the
--   operators & and |, which change an operand in place, and their two serializations. A model class is
--   known by the serialize of its attributes; Filtering/Serialized.antt has what catalog_base.py
--   (_serialize_filter_attribute) does with it.
-- * Catalog (descarteslabs/catalog/search.py): a search, the request that it makes, and the loop that
--   reads the pages of its results. It uses the expressions of Filtering and sends them serialized, which
--   may raise.
-- * Catalog/Model (descarteslabs/catalog/attributes.py and catalog_base.py): the objects of the catalog.
--   Attribute.antt is Attribute and TypedAttribute and the state of an object (_attributes, _modified,
--   _saved, _deleted); Object.antt is _initialize, _serialize and update; Calls.antt is check_deleted,
--   save, reload and _instance_delete, with the service that answers them. An operation leaves the
--   object changed also when it raises.
-- * Scaling (descarteslabs/scenes/_scaling.py): the scales and the data type of the arrays that are made
--   of a scene's bands. Parse.antt reads one scaling, Modes.antt merges the modes of the bands,
--   DataType.antt finds a common data type, Parameters.antt puts the parts together and Products.antt
--   does so for the bands of several products.
-- * Retry (descarteslabs/common/retry/retry.py): calling a function again after exceptions, and
--   Retry/Delays.antt, the delays between the calls.
-- * Collection (descarteslabs/scenes/collection.py): indexing, assignment, sorting and grouping.
-- * Dotdict (descarteslabs/common/dotdict/dotdict.py): dictionaries and lists that box the containers in
--   them when they are read. Methods.antt is the methods and chains of attributes and indices,
--   Builtin.antt the built-in methods that they stand for, and Unboxed.antt asdict and aslist.
-- * Tasks (descarteslabs/common/tasks/futuretask.py): waiting for the result of a task, and loading its
--   value once.
-- * Threading (descarteslabs/common/threading/local.py): a wrapper that makes an object in each thread
--   of each process.
-- * Python holds exceptions, `dict`s and the conversions between numbers and texts, and Prelude the
--   names that all parts share. Examples applies the theorems to concrete inputs.
--
-- Fuel. In the interpreter it bounds the depth of calls, as Python's own stack does. In Retry, Catalog
-- and Tasks a unit is a round of the loop, and the theorems say how much is enough.
--
-- Parameters. The service that answers a search, the serialize of the attributes of a model class, the builtins of an
-- interpreter (which may call back, and keep no state of their own), the function that is retried with
-- the clock and the random draws, the arithmetic of floats, the order of sort keys, the factory of a
-- thread's object, the values that filters compare with, the floats of scales, the values of a
-- catalog object with their types, and the service, the clock and the storage of a task.
--
-- Choices. Texts are read by `int` over ASCII. A float is known by its `repr`. A "parameters" entry of
-- a graft that is not a list of texts is taken to raise a TypeError in apply_graft. The text of a JSON
-- parameter is known by its value. A number of retries is natural. In filters only the two operands of
-- an operator are followed when they change, not expressions that share a part. Sort keys compare
-- without raising. The properties of a band have values of the types that Scaling expects. `evaluate`
-- appends `{}` to a call in the graft itself, which the model leaves out. In Dotdict a value is a tree,
-- keys are texts that are no names of dict's own attributes, and a method or a step that a value does
-- not have raises a TypeError.
--
-- Not modelled: debug output and messages, catalog attributes that hold references, lists, mappings or
-- times, the classes of the catalog's objects, the clients of the services, the log of a task, the repr
-- of Dotdict and slices of its lists, workflows (which builds grafts with the client modelled here),
-- scenes but for Collection and Scaling, vectors, the generated protocol buffers and the copy of
-- boltons.
pub mod Prelude
pub mod Python
pub mod Graft
pub mod Filtering
pub mod Catalog
pub mod Retry
pub mod Collection
pub mod Dotdict
pub mod Scaling
pub mod Tasks
pub mod Threading
pub mod Examples
