-- ===== src/Lib.antt =====
-- kitsune2: the DHT model of the crates `api` and `dht`, and the gossip rounds of the crate `gossip`.
--
-- A peer keeps data by location (a 32-bit number on a circle) and by time. To find what two peers
-- do not share without listing it, the DHT cuts the locations into 512 sectors and the time of
-- each sector into slices, full ones of one size in the past and partial ones that halve towards
-- the present, and keeps for each slice one combined hash of the ops created in it. Peers compare
-- combined hashes and go into the slices that differ, restricted to the sectors that the storage
-- arcs of both cover.
--
-- The parts, and the files that model them:
--   Arc          `DhtArc` of crates/api/src/arc.rs: dist, contains, overlaps, arc_span. Arc.Distance
--                and Arc.Overlap compare them with the circle of locations.
--   ArcSet       `ArcSet` of crates/dht/src/arc_set.rs: new, intersection, encode, decode, as_arcs.
--                ArcSet.Cover, ArcSet.Build and ArcSet.Whole are about `new`, ArcSet.Encode, ArcSet.Decode and
--                ArcSet.Codec about the bit set, ArcSet.Arcs about `as_arcs`.
--   Combine      combine_hashes and combine_op_hashes of crates/dht/src/combine.rs.
--   Timestamp    the arithmetic of crates/api/src/timestamp.rs.
--   OpStore      the trait `OpStore` of crates/api/src/op_store.rs as a record that the host
--                fills, and StoreLaws, what the model relies on of it.
--   Time         `TimePartition` of crates/dht/src/time.rs. Time has the durations and the layout of
--                the partial slices, Time.Partition the state and the methods that do not call the
--                store, Time.Update `update` and `try_from_store`, Time.Inform `inform_ops_stored`.
--                Time.Sizes, Time.Layout, Time.Links and Time.Contiguity are about the layout, Time.Matches and Time.Hashes about
--                the combined hashes in `update`, Time.Slices, Time.Stored, Time.Informed,
--                Time.Informing and Time.StoredHashes about those in `inform_ops_stored`: the ops of
--                a slice with one more, the loop over the slices, one round, the loop over the ops,
--                the partition against the store. Time.Bounds is about the queries by index.
--   Hash         `HashPartition` of crates/dht/src/hash.rs: one time partition for each of 512
--                sectors. Hash.Sectors is about their arcs, Hash.Routing about the way stored ops
--                come to their sectors. The location of an op id, which the host can set, is a
--                parameter.
--                Hash.Queries has the hashes of rings, sectors and slices.
--   Snapshot     `DhtSnapshot` and `compare` of crates/dht/src/dht/snapshot.rs. Snapshot.Equal,
--                Snapshot.Discs and Snapshot.Rings are about what is reported.
--   Dht          `Dht` of crates/dht/src/dht.rs: its state and its snapshots. Dht.Fetch has the loops
--                that collect op ids, Dht.Handle `handle_snapshot`. Dht.Budget is about the limit
--                on the op data, Dht.Rounds about one answer, Dht.Exchange about two peers that
--                answer in turn, Dht.Agreement about peers in sync.
--   Gossip       `K2Gossip` of crates/gossip/src/gossip.rs and its rounds (state.rs). A message from a
--                peer goes to the handler of its kind, which checks it against the round, asks the
--                DHT model what to do about the snapshot in it, changes the round and answers.
--                Gossip.Wire and Gossip.Protocol have the messages (protocol.rs, and the generated
--                crates/gossip/proto/gen/kitsune2.gossip.rs), Gossip.Wire.Codec is about their
--                snapshots. Gossip.Host is what an instance calls, and the monad of its actions.
--                Gossip.Burst is `AcceptBurstTracker` of burst.rs, with Gossip.Burst.Window,
--                Gossip.Burst.Sweeps and Gossip.Burst.Limit about it; Gossip.Validate has the checks of the messages, Gossip.Peers
--                the helpers of respond.rs, Gossip.Initiate the beginning of a round,
--                Gossip.Rounds the changes of a round, and Gossip.Accept, Gossip.Discs, Gossip.Rings
--                and Gossip.Close the other handlers (respond/*.rs), which Gossip.Respond puts
--                together; Gossip.Storage is storage_arc.rs, with Gossip.Storage.Chosen and
--                Gossip.Storage.Inside about it. Gossip.Runs has a rule for each way to
--                build an action; with them Gossip.Limits, Gossip.Quiet, Gossip.Kept, Gossip.Opened
--                and Gossip.Bounded are about what the handlers do to the accepted rounds. Gossip.Ties
--                is about peers that initiate with each other.
--   Prelude      shared helpers: Boolean tests, lists, sets as lists, maps as lists of pairs, bits
--                of a number, results, and a state monad.
--   Tests        the model at concrete inputs.
--
-- How the source is read:
--   - `K2Result` and panics are the type Outcome: ok, err with the text, panic. A method of
--     `&mut self` over the op store is a function of the partition and the state of the store that
--     gives the outcome and the new ones, also after an error (Prelude.Exec). An asynchronous call
--     of the store is a call.
--   - `u32` arithmetic is written with its wrap-around at 2 ^ 32, `i64` timestamps are their 64-bit
--     patterns with the order of the sign, `u64` products are taken modulo 2 ^ 64: the arithmetic of
--     a build without overflow checks.
--   - A `std::time::Duration` is its number of microseconds, which is as fine as a Timestamp;
--     taking a larger one from a smaller one panics.
--   - A `HashSet<u32>` is a list without duplicates, whose order stands for the order of iteration.
--     A `HashMap` is a list of pairs with no key twice. A buffer of bytes is a list of byte values.
--   - A handler of gossip runs whole: it holds the lock of its round throughout, but other handlers
--     may run between its other steps, and that is not modelled. A lock of a round that is held is
--     the entry of the round. A `Url` is a number, a time of `Instant` a number of milliseconds, and
--     the text of an error is shortened. The feature `sharding` is a Boolean parameter.
--   - Every loop is structural recursion, on the list or on the number of rounds; none needs fuel.
--
-- Not modelled: the in-memory stores, the tasks of gossip that pick a peer and end rounds that take
-- too long, the controller of storage arcs, which computes with floating-point numbers, the summary
-- of the gossip state, fetch, publish, spaces, bootstrap and transports; logging, the clock,
-- serialisation with serde and prost, and cryptography, which is third-party code.
pub mod Prelude
pub mod Arc
pub mod ArcSet
pub mod Combine
pub mod Timestamp
pub mod OpStore
pub mod Time
pub mod Hash
pub mod Snapshot
pub mod Dht
pub mod Gossip
pub mod Tests
