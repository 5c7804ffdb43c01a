-- ===== src/Lib.antt =====
-- A model of the data structures of this repository, and proofs about it.
--
-- The program. `hotring/` is a hash table whose buckets are rings: a slot of the table points to a
-- `struct head`, whose 48 low bits address the hottest node of the ring, and each node links to the
-- next by an address of 48 bits; the spare bits of both words count accesses. The nodes of a ring
-- stand in the cyclic order of their tags, and searches stop early by that order.
-- `chaining_hash/` is a table whose slots point to a `struct head`, which points to the first of a ring
-- of nodes that the doubly linked lists of chaining_hash/list.h hold together; a new node goes to the
-- end, and no node holds its key. `radix_tree/` is a tree of nodes of 64 slots, whose entries carry
-- a tag in their two low bits, with lookups, insertions, deletions and an iterator.
-- `tools/page_flags_interpreter.c` names the bits of a number. `JIFS/` is a kernel module, a file system
-- whose files show a counter that each reading of the file raises. `device/virtual_device/` is a character
-- device over a buffer. `producer_consumer/` has C++ programs whose threads share a buffer.
--
-- Prelude.antt and its children: names of the libraries, lists and numbers.
-- Memory.antt: typed memory. Each C type has its cells, addressed by number; an access that no cell
-- backs is a fault, which is the undefined behaviour of the code. Field addresses are not modelled:
-- a node is named by the address of its link, which is its first field.
-- HotRing/State.antt: the structs of hotring/hotring.h, the operations of hotring/list.h, and
-- `calloc` as a parameter. HotRing/Table.antt: `hashCode`, `hash_alloc` and the reads of a bucket.
-- HotRing/Get.antt: `__hash_get`, by the name `raw_hash_get`. HotRing/Create.antt: `__hash_create`,
-- `insert_entries`, `hash_insert`. HotRing/Delete.antt: `hotring_delete`, `hotring_delete_head`.
-- HotRing/Rehash.antt: `__hash_get_largest`, `display`, `hotring_rehash`. HotRing/Hotspot.antt:
-- `hotspot_shift` and `hash_get`, with the operations on `double` as a parameter.
-- HotRing/Iterate.antt: the iterator of hotring/hotring.h.
-- The other files of HotRing/ hold the proofs: Order on the order of tags, Ring and Valid on the
-- invariant of a table, Lookup, Count, Change, Access and Request on searches, Frame, Place,
-- Insert, Growth, Grown, Founded, Adding and RoundTrip on insertions, Cut, Removal, Removed and Dropped on
-- deletions, Fresh and Range on the empty table and on keys out of range. Rotate, Resets, Coldest, Turned
-- and Shifted are on `do_hotspot_shift`: a ring from another of its nodes on, the counters set to 0, the
-- choice of a node, the table around the ring, and the run. Once and Settled are on a `hash_get` that shifts.
-- Still is on what only counters tell apart, Amounts on how often a key stands in a ring, Reach with its
-- modules Stands, Deletes and Lookups on the memories that sequences of calls lead to.
-- DoubleList/Links.antt: chaining_hash/list.h, with the cells of `next` and of `prev` apart. Path on
-- paths through such lists; Add, Del, Splice and Move on the operations.
-- ChainHash/State.antt and ChainHash/Table.antt: chaining_hash/hash.h and hash.c. Valid on the
-- invariant, Append, Found and Insert on insertions and reads.
-- RadixTree/Entry.antt and RadixTree/State.antt: the tags of entries, and the structs of
-- radix_tree/radix-tree.h; a `void **` is the root's field or a node's slot. Create, Lookup, Remove and
-- Iterate: radix_tree/radix-tree.c, `radix_tree_insert` by the name `tree_insert` and so on.
-- RadixTree/Shape/: trees of any height. A node has a place, its level and the prefix of the indices
-- below it (Place); a tree stands for a map from indices to items. Digits on the digits of an index,
-- Frame and Clear on what a change leaves, Search on lookups. RadixTree/Grow/: a node added below
-- (Branch), the walk down (Walk), a new root (Raise, Extend), the item (Store) and the whole (Insert).
-- RadixTree/Shed/: an item taken out (Take), a node taken off (Prune), the root taken off (Lower), their
-- loops (Shrunk) and the whole (Delete). RadixTree/Visit/: the iteration over the items, with the indices
-- below a slot (Blocks), the empty slots of a node (Hole), a node of the walk (Ahead, Round, Chunk),
-- the next chunk (Next), the next slot in it (Slots) and the loop (Each). Start on
-- `radix_tree_root_alloc`, Reach on the memories that calls lead to. Shift on the tags and the height,
-- Leaf on trees whose root is a leaf, Absent on a deletion of an index that holds nothing and on
-- insertions in a tree without a root node.
-- Jifs/State.antt: what the kernel keeps of JIFS/: inodes, names, open files, counters. Jifs/File.antt:
-- JIFS/file.c. Options, Files and Super: JIFS/super.c; what the kernel's calls return is a parameter, and
-- `d_alloc_name`, `d_add`, `dput` and `inode_init_owner` write what their documentation gives. Read,
-- Parse, Created and Mount hold the proofs.
-- Device.antt: device/virtual_device/virtual_device.c, the copies to and from the caller a parameter;
-- Device/Served on runs of requests.
-- ProducerConsumer/: producer_consumer/, with Threads on the threads of a program. Buffer on the class
-- `Buffer` of example.cpp, of which parallel_tcpip/socket_server.cpp has a copy; Queue on
-- syncQueue.cpp; Average on producer-consumer-average.cpp. Each is a relation of the steps between the
-- accesses that threads share, in any order; Kept and Progress, Held, Order, Wakes and Lost, and Finishes
-- are on the states that such steps lead to.
-- PageFlags.antt: tools/page_flags_interpreter.c.
-- Tests/: concrete tables, runs of the model, and the theorems at concrete inputs.
--
-- Bounds and fuel. `unsigned long` has 64 bits. A shift by the width or more, and a shift of an `int`
-- past its 31 bits, are undefined: `hash_alloc` asks for `kbits` up to 30, the invariant of a table for
-- `n - k` up to 30, and the tree's shifts stay below 64. A loop over a ring takes as fuel the number
-- of its rounds; a theorem asks for more fuel than the ring has nodes behind its head, and shows that
-- the run returns.
-- The loops of the tree take the number of its levels, at most 11 for indices of 64 bits; a deletion goes
-- up those levels and then down. For the walk of `radix_tree_next_chunk` and the loop of
-- `radix_tree_for_each_slot` a theorem shows that some number of rounds is enough.
--
-- Not modelled: printing, RCU (the accessors are plain loads and stores, and `call_rcu` frees at once),
-- concurrent access but for producer_consumer/, the directory operations of JIFS/ that its superblock does
-- not use, what `d_make_root` does to an inode when it fails, device/open_dev/ and the modules under
-- kernel_modules/, and the components that the repository copies from elsewhere.
pub mod Prelude
pub mod Memory
pub mod HotRing
pub mod DoubleList
pub mod ChainHash
pub mod RadixTree
pub mod PageFlags
pub mod Jifs
pub mod Device
pub mod ProducerConsumer
mod Tests
