-- ===== src/Lib.antt =====
-- CupidMQ, a broker that matches producers with consumers: the master keeps registries of both and
-- sends a producer an ASGN with the address of a consumer, to which the producer then delivers a
-- batch itself.
--
-- The parts, their files here and their sources:
--   Ring         the byte-capped queue, drop-oldest       master/src/ring/byte_ring.rs, ring.rs
--   Accumulator  batches by size and by time              master/src/producer/accumulator.rs
--   Protocol     the frames: Wire is the reader monad, Batch the frames of items, Control the
--                others                                   master/src/protocol.rs
--   Producer     the producer's state: publish_batch puts a message on the pending ring, the
--                accumulator round and flush_ingress_to_ring move it to the ring, deliver_assign
--                (Delivery) drains the ring for an ASGN and requeues what was not delivered, and
--                run_control (Control) is the task that talks to the master; Pool is the pool of
--                connections that batches are delivered on, Settings the builder
--                                        master/src/producer/client.rs, delivery_pool.rs
--   Consumer     the consumer's tasks: Serving is a data connection, Moves the steps of the tasks and
--                the states that they reach, Settings the builder of its configuration
--                                                         master/src/consumer/client.rs
--   Link         a delivery from the ring of the producer to the handler of the consumer
--   Config       the master's configuration: File is the file, Numbers its sizes, Address the
--                addresses, Resolve what counts           master/src/config.rs
--   Master       Producers is the registry of the producers: their states, backlogs and counters,
--                Reports what their frames change, Ranking the choice of the next producer
--                                                         master/src/producers.rs
--                Consumers is the registry of the consumers, with the index of those that await a
--                batch of each producer                   master/src/consumers.rs
--                Ticks is the buffer of ticks, Metrics the counters of transfers, History the samples
--                for the charts          master/src/tick_buffer.rs, metrics.rs, metrics_history.rs
--                Dashboard is what the dashboard shows: the rows of the registries, the capacities,
--                Snapshot puts all together, and Sampler keeps it, as server.rs does
--                        master/src/consumers.rs, producers.rs, capacity.rs, metrics.rs, server.rs,
--                                                         metrics_cache.rs
--                Matchmaker joins a consumer that waits with a producer of the pool: Matching is
--                try_match, Events the other methods, Race two tasks in try_match at once
--                                                         master/src/producers.rs
--                Server is what the frames and the ends of connections do to all of these: Frames
--                reads a frame of a producer, Sessions is handle_control, from the bytes of a
--                connection, Events the steps of all tasks and the states that they reach, of which
--                Reachable and Asked say what holds in them
--                                                         master/src/server.rs
--   Text         what Config and Settings use of Rust's `str`
--   Common       lists, tests and machine words that all of them share
--
-- A method with `&mut self` is a function that returns the new state; a type, a field or a function
-- has the name that it has in the source. A call is one step, and what other tasks do between the steps
-- of a call that gives the lock up is an argument of it. Clocks and the outcomes of the network are
-- arguments. `usize` and `u64` have 64 bits, and sums wrap or saturate where the source's do. A
-- `HashMap` is a list of entries by id.
-- Fuel: `drain_pending` has the length of the queue that it pops, one for each round; `try_match` one
-- round more than the pool has producers, as each round takes one out of it; the loops that read a
-- connection one more than its bytes, as each frame has at least one. A delivery has two attempts and
-- a connect four, as in the source.
-- Not modelled: sockets, HTTP, the command line, the dashboard and the client in Python.
pub mod Common
pub mod Text
pub mod Config
pub mod Ring
pub mod Accumulator
pub mod Protocol
pub mod Producer
pub mod Master
pub mod Consumer
pub mod Link
