-- ===== src/Lib.antt =====
-- A verification library for rust-shed, a collection of Rust crates. It covers six of them:
-- - shed/sorted_vector_map: ordered maps and sets that keep a sorted vector, `SortedVectorMap` in
--   src/map.rs and `SortedVectorSet` in src/set.rs;
-- - shed/netstring: the codec of src/decode.rs and src/encode.rs;
-- - shed/buffered_weighted: the stream adaptor of src/buffered_weighted_stream.rs, with
--   src/global_weight.rs, src/memory_bound.rs and src/peekable_fused.rs;
-- - shed/bounded_traversal: the traversals of a tree in src/tree.rs and of a graph in
--   src/dag.rs, and the streams of src/stream.rs;
-- - shed/futures_retry: the retry of a future in src/lib.rs, with the back-offs of src/backoff.rs;
-- - shed/hash_memo: the hasher that takes a memo, and the memoizers, in src/lib.rs.
-- They do not call each other.
--
-- Files. `Prelude` has what all share: Boolean tests, lists over native numbers, the operations of
-- Rust's `Vec` and its panics as values (`Outcome`), and `Ord` as an instance. An order may call
-- different keys equal, so that a statement can tell which of two equal keys is kept.
--
-- `SortedVector` is the code that the map and the set share, for entries with a key: the binary
-- search (`Search`), the iterators `DedupIter` and `MergeIter` (`Iter`), the stable sort (`Sort`) and
-- the shortcut of `extend_with_vec` (`Extend`). The other files there are the theory of sorted
-- vectors: `find` is the entry that a scan finds, and `upsert` and `delete` are the changes as
-- recursions on the vector.
--
-- `SortedVectorMap` has the functions of map.rs by their names, `SortedVectorMap.Entry` its entry API
-- and `SortedVectorMap.Iterators` its iterators. `SortedVectorSet` and `SortedVectorSet.Operations`
-- are set.rs. A method that takes `&mut self` returns the new collection, and a `&mut` reference to a
-- value is the value with the function that writes it back. The binary search is that of the
-- standard library on a slice, `sort_by` a stable insertion sort.
--
-- `Netstring` is decode.rs and encode.rs over any implementation of `BytesMut` that keeps what the
-- bytes crate documents. Bytes are numbers, and the length of a netstring is computed with the
-- wrap-around of a 64-bit `usize`.
--
-- `BufferedWeighted` is `poll_next` over a stream, futures and a `FuturesOrdered` queue that are
-- parameters; `BufferedWeighted.Weights` is the accounting, `BufferedWeighted.Peekable` the stream with
-- an item peeked. What the process reads of its resident memory is a parameter.
--
-- `BoundedTraversal` is tree.rs: `schedule`, `process` and `poll_round` are one round of the loop in
-- `poll`, and `run` is the rounds. The closures are functions, a future is the call it makes, and which
-- future of a `FuturesUnordered` is done next is a parameter. `BoundedTraversal.Reference` is what a
-- traversal computes, as a recursion on the tree, with the number of calls; `BoundedTraversal.Ledger`
-- is the invariant: each result that is waited for is that of one job or of one node.
-- `BoundedTraversal.Streams` and `BoundedTraversal.ByKey` are the two functions of stream.rs, and
-- `BoundedTraversal.Dag` is dag.rs, with the values of the graph as numbers.
--
-- `FuturesRetry` has the builder of lib.rs; `turn` is one round of the loop in its `poll`, and `drive`
-- polls until the result is there. `FuturesRetry.Intervals` is backoff.rs, with durations as numbers of
-- nanoseconds. What `inspect_err` is called with and how long the sleeps are is recorded in the state.
--
-- `HashMemo` is lib.rs of hash_memo over any hasher; a value is the list of the writes that it feeds.
--
-- Fuel. Collecting an iterator takes one round for each entry and one to see the end. The loop of
-- `decode_buf` makes two rounds at most. The digits of a number are no more than the number and one.
-- The loop that fills the queue takes one round for each item that the stream gives at once, and
-- one more: a stream that is always ready with items of no weight would keep it going for ever.
-- A traversal makes a round for each call of its closures, and a retry a turn for each time that it is
-- polled; what these numbers are is part of the theorems.
--
-- Not modelled: formatting, conversions, capacity, pinning and wakers, and the other crates, which
-- are glue to runtimes and services, macros, or work that is still to be done.
pub mod Prelude
pub mod SortedVector
pub mod SortedVectorMap
pub mod SortedVectorSet
pub mod Netstring
pub mod BufferedWeighted
pub mod BoundedTraversal
pub mod FuturesRetry
pub mod HashMemo
pub mod Tests
