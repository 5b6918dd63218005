-- ===== src/Lib.antt =====
-- A model of the core of the StackState agent (sts-agent), with its theorems.
--
-- Forwarder follows transaction.py: the queue of payloads that the forwarder daemon (stsagent.py)
-- holds, and its callback on_response. An object is a reference into a store, so the queue, the flush
-- in progress and the event loop share it as they do in the program. Forwarder.Transaction is class
-- Transaction; under Forwarder.Manager, State has the attributes of TransactionManager, Queue has
-- append and _remove, Outcomes has tr_success, tr_error and tr_error_reject_request, Flush has
-- flush_next, flush and on_response, and Loop has the event loop as a step relation: a payload
-- arrives, the periodic flush is due, a response arrives, a timeout fires. The clock, sys.getsizeof,
-- the outcome of a transaction's own flush method and tornado's state are the fields of the record
-- World. Times are microseconds, datetime.utcnow() is the n-th reading of a clock.
--
-- flush_next calls itself as its last act; it takes fuel, and one call for each transaction of the
-- flush and one more is enough, which Loop proves, unless the flag of the unit tests makes it sleep
-- and try again. Log lines and the status file are not modelled, and a transaction's flush method is
-- one that returns while its response is awaited, as that of stsagent.py does, or raises.
--
-- Aggregator follows aggregator.py. Aggregator.Number has the operators of Python's numbers as a
-- parameter, a record that the definitions take, since the values of metrics are int or float as the
-- client sends them; times are microseconds in the native numbers. An int that is too great for a float
-- overflows where it meets one: the sums and the quotients of a flush raise then, while the samples of
-- one metric are taken not to overflow as they are added. Aggregator.Metric has the metric
-- classes: a record for what they share, a data type with one constructor for each class, and sample
-- by clauses; under it Flush has their flush, Histogram what a histogram computes, Point the
-- dictionary of api_formatter and get_formatter. Aggregator.State has contexts and the arguments of
-- submit_metric; Aggregator.Metrics is MetricsAggregator, Aggregator.Buckets is
-- MetricsBucketAggregator with its flush in Buckets.Flush; its current_mbc is an entry of
-- metric_by_bucket, or the dictionary that is left of a deleted one. A dictionary is an association list in
-- the order of insertion, where Python 2 iterates in an order of its own. An exception is a value
-- beside the state that it leaves. The two aggregators run on one clock, whose readings are
-- arguments. Not modelled: log lines, and the creation time that Raw and Gauge note and never report.
-- Aggregator.Packets has parse_metric_packet and _extract_magic_tags; what int() and float() make of a
-- text is a parameter.
--
-- Aggregator.Received is the rest of class Aggregator: submit_packets, the queues of events and service
-- checks and their flushes, over an interface to an aggregator of metrics that Received.Aggregators
-- fills with both; Received.Counted and Received.Queues have their counts. Aggregator.Events has
-- parse_event_packet and event, Aggregator.ServiceChecks parse_sc_packet and service_check;
-- Aggregator.Keywords has the dictionaries that go from the one to the other as keyword arguments, and
-- Bound, under each, that they fit. Events.Framed has the lengths in an event packet. The decoding of
-- bytes is a parameter; without utf8_decoding a character stands for a byte. Not modelled:
-- packets_per_second.
--
-- Topology follows class TopologyInstance of checks/__init__.py, and Topology.Snapshots its use over
-- the runs of a check. Topology.Instances has the dictionary of the instances of a check, the calls on
-- them and get_topology_instances, which takes the topologies and clears the dictionary; under it Views
-- has what a call on one instance leaves of the others, Reported the reports of one instance.
--
-- Election follows utils/kubernetes/leader_elector.py: an elector and the ConfigMap that the API
-- server holds, and one function for each method of class LeaderElector; what the clock and the
-- requests answer in a round is the record Outside. Election.Lease and Election.Rounds say what one
-- round does to the map, Election.Cluster has the electors of several nodes that take rounds in turn,
-- Election.Overlap two rounds that overlap, Election.Progress when a round makes a leader. The
-- responses are a ConfigMap with its two annotations and three fields of the server; the text form of
-- a time is the time. A ConfigMap of another name, and a map whose creator is not a text, are not
-- modelled.
--
-- Ucmdb follows utils/ucmdb: Ucmdb.Parser is ucmdb_parser.py on the sequence of tags that the XML
-- library ends, with the shape of its results in Parser.Keys and Parser.Roundtrip; Ucmdb.Dump is
-- ucmdb_file_dump.py, where the contents of a path are an argument, with Changes, Order, Merge and
-- Returns for its comparison, its file order, its result and its errors; Ucmdb.Trees is
-- ucmdb_component_trees.py, whose search from a root takes fuel: Trees.Weights has the number of
-- turns that is enough, Trees.Reach the paths of relations, Trees.Turns one turn, Trees.Search the
-- loop, Trees.Labels all roots, Trees.Outgoing the graph. A component is referred to by its key.
-- Ucmdb.Groups is
-- ucmdb_component_groups.py, with the package's UF as a parameter, its documented laws in Groups.Sets,
-- which has the sets of connected components, and the labels in Groups.Connected.
-- KeyError and the exception for an unknown operation are `none` or `raised`. The listing of a
-- directory is not modelled.
--
-- Emitter follows emitter.py: a payload of series is serialized and compressed, and cut into chunks
-- where it is too big, by nested calls of which four are enough; Emitter.Parts has the parts of the
-- series, Emitter.Sanitize the cleaning of texts, Emitter.Posts the conversion of a message and its
-- three kinds of posts. The texts of json, the compression of zlib and the answers to the posts are
-- parameters. The ratio of two sizes is a float in the program and a quotient of integers here.
--
-- Checks follows class Check of checks/__init__.py: the store of samples, in which the key of a sample
-- is its tags and its device, counter, gauge, save_sample, save_gauge, _rate and
-- get_sample_with_timestamp; Checks.Metrics has the loops over all metrics, Checks.Stored and
-- Checks.Calls the number of samples of a key after any calls, Checks.Rates the rates of a counter,
-- Checks.Reports the report of a whole store.
-- cast_metric_val is an argument, and so is the answer of time.time(). Checks.Names has normalize, which
-- class AgentCheck has too, step by step as its regular expressions; the names in another case
-- (fix_case), the decomposition of unicode characters and the names of devices are not modelled.
--
-- Checks.Agent is class AgentCheck of the same file: what a check saves by its calls, what the getters
-- take from it, and run. The method check of a subclass is a list of calls, some of which it catches
-- the exceptions of; the aggregator is the interface of Aggregator.Received, and the topology
-- instances are those of Topology.Instances. An instance in a run comes with the time that the clock
-- gives. Agent.Statuses has the statuses of instances, Agent.Runs the loop over them. Agent.Historate has
-- historate and the function that generate_histogram_func makes, on the dictionary of the last values
-- and the aggregator. Not modelled: the
-- statistics of the developer mode, proxies, versions and log lines.
--
-- Services follows utils/kubernetes/pod_service_mapper.py: the state of class PodServiceMapper, its
-- cache of services, match_services_for_pod and search_pods_for_service, with what the request for the
-- services answers as an argument; Services.Events has process_events. Services.Counted and
-- Services.Valid have the state after any calls, Services.Members lemmas on the sets, Services.Impact
-- the pods that process_events returns. A list that is returned is a value here, where the program
-- returns the list of its cache.
pub mod Prelude
pub mod Services
pub mod Forwarder
pub mod Aggregator
pub mod Topology
pub mod Election
pub mod Ucmdb
pub mod Emitter
pub mod Checks
