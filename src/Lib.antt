-- ===== src/Lib.antt =====
-- The sample and event pipeline of Ceilometer, the transformers and publishers behind it, the
-- polling agent in front of it, the meters that notifications are turned into, and the checks
-- of the queries of the API.
--
-- A polling agent (ceilometer/agent/manager.py) asks pollsters for samples of the resources
-- that its sources name or discover, and sends them to the notification agent. There a pipeline
-- (ceilometer/pipeline.py) joins a source, which says by patterns which meters or events it
-- takes, to a sink, which passes them through a chain of transformers (ceilometer/transformer)
-- and hands them to its publishers (ceilometer/publisher). Other samples are made of
-- notifications, by definitions of meters (ceilometer/meter/notifications.py) whose fields are
-- paths (ceilometer/declarative.py). What is stored is read by the API (ceilometer/api), which
-- limits a query to the project of its request.
--
-- The files:
--
-- - Pipeline/Source: `Source` and its subclasses of ceilometer/pipeline.py: the pattern checks
--   of `check_source_filtering`, `is_supported`, `check_sinks`, and the constructors. Python's
--   truth tests and `x[0]` of an empty pattern, which raises, are written out.
-- - Pipeline/Sink: `Sink`, `SampleSink` and `EventSink`. A transformer is a state with the
--   operations of `TransformerBase`; a publisher is a URL, and publishing acts on a world, so
--   that what it does to the outside is any function.
-- - Pipeline/Publishers: `PublisherManager` and the loading of a sink's publishers.
-- - Pipeline/Config: `PipelineManager.__init__`, `PollingManager.__init__`, `Sink.__init__`,
--   `_setup_transformers` and `Pipeline`.
-- - Pipeline/Publish: `publish_data`, `_validate_volume` and `PublishContext`.
-- - Event/Converter: which definition of ceilometer/event/converter.py an event type is
--   converted by. `TraitDefinition` and the conversion itself are not modelled.
-- - Publisher/Messaging: `MessagingPublisher` of ceilometer/publisher/messaging.py.
-- - Publisher/CsvFile: ceilometer/publisher/csvfile.py: the rollover of
--   `CompressingRotatingFileHandler` over the files that exist; in Settings how a
--   `CSVFilePublisher` is configured, and in Rows the cells of a sample's row.
-- - Publisher/Gnocchi: ceilometer/publisher/gnocchi.py: `ResourcesDefinition` in Definition,
--   the samples left out in Activity, what `publish_samples` gathers in Measures,
--   `batch_measures`, `_if_not_cached` and the rest of `publish_samples` in Posting,
--   `publish_events` in Ending.
-- - Publisher/Signature: the signatures and messages of ceilometer/publisher/utils.py.
-- - Utils: nested dicts, `decode_unicode`, `recursive_keypairs` and the lower case of
--   `lowercase_keys` of ceilometer/utils.py.
-- - Sample: `Sample` of ceilometer/sample.py.
-- - Transformer: ceilometer/transformer/accumulator.py, ceilometer/transformer/arithmetic.py,
--   and, by class, ceilometer/transformer/conversions.py.
-- - Agent/Discovery and Agent/Polling: `AgentManager.keystone` and `discover`, `Resources`,
--   `PollingTask` and `setup_polling_tasks` of ceilometer/agent/manager.py.
-- - Api/Rbac: `enforce`, `get_limited_to` and `get_limited_to_project` of
--   ceilometer/api/rbac.py.
-- - Api/Query: ceilometer/api/controllers/v2/utils.py, from `validate_query` to
--   `query_to_kwargs`, and the items of ceilometer/api/controllers/v2/base.py. A request is its
--   headers with the enforcer; the names of the arguments that `inspect.getargspec` reads off a
--   storage function are a list.
-- - Api/ComplexQuery: `ValidatedComplexQuery` and the handler of samples of
--   ceilometer/api/controllers/v2/query.py. A filter is a tree of the shape that the JSON
--   schema of `__init__` allows, with operators in any case; a visitor that mutates a node
--   returns the changed node.
-- - Declarative: `Definition` of ceilometer/declarative.py.
-- - Meter: `MeterDefinition` and `process_notification` of ceilometer/meter/notifications.py,
--   in Loading how definitions are made of the configuration and which of several is kept. A
--   notification that a lookup expands is a list of columns of values.
-- - Prelude: results and exceptions, Boolean tests, lists, dicts as association lists in the
--   order of insertion, sorting by strings, lists of strings as sets, and integers over native
--   numbers.
-- - Tests: concrete runs, and the theorems applied to concrete inputs.
--
-- What can fail is a `Result`, `ok` or `raise` of an exception; an operation that changes an
-- object returns the new object, also where it raises. Sets and dicts of Python are lists in
-- the order of insertion. Volumes are of any type with the operations of `Arithmetic`, since
-- Python mixes integers and floats; what a theorem needs of them is a hypothesis.
--
-- Loops are structural recursion on the list that they read. The `while` of `_process_queue`
-- recurs on the retries that are left and on the queue; it needs no fuel. `SampleSink.flush`
-- goes over the indices of the transformers.
--
-- Parameters are what stands outside of the repository or reads the outside: fnmatch, re.sub,
-- eval of configured expressions, oslo_utils.timeutils, the message bus, keystone, hash rings
-- of tooz, gzip, hmac, the keywords, paths and the parser of numbers of Python, the Gnocchi
-- client and its cache, publisher drivers, and plugins of pollsters, discovery and
-- transformers. The traits of an event, which are read by jsonpath, are made by a parameter, as
-- are the matches of a path in a notification. Of the API, the enforcer of oslo.policy,
-- json.loads with jsonschema, and the conversions of values and dates are parameters. Logging
-- is left out. The configuration files' reading, timers and threads, storage drivers,
-- dispatchers, the controllers of the API beyond its queries, and the single pollsters are not
-- modelled: they are input and output, or calls of other services.
pub mod Agent
pub mod Api
pub mod Declarative
pub mod Event
pub mod Meter
pub mod Pipeline
pub mod Prelude
pub mod Publisher
pub mod Sample
pub mod Tests
pub mod Transformer
pub mod Utils
