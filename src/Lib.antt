-- ===== src/Lib.antt =====
-- simp_dserver is a recursive DNS server for A records. A datagram that arrives at the socket
-- (net_bundle) becomes a request node, which travels through lock-free rings (net_ring) between
-- threads: a worker (net_work) parses the question and looks the host up in a map (net_hashmap);
-- a known host is answered by the bundle's writer thread, an unknown one is forwarded to an
-- upstream server (net_forward).
--
-- The library and the code:
--   Prelude          shared names, lists and tests over the native numbers, words, bits, faults
--   Ring             net_ring/net_ring_common.{h,c}: create, enqueue, dequeue as functions on the
--                    record of `struct net_ring_common`; 32-bit indices wrap explicitly
--   Ring.Queue       the abstract queue; Ring.Window, Ring.Inv, Ring.Refine, Ring.Align: proofs
--   Message          net_common/net_common_struct.h: the request node, and fields of its buffer
--   Work             net_work/net_work.c: `net_work_module_inside_parser`
--   Work.Name        names as lists of labels; Work.Overflow, Work.Parser: proofs
--   Hashmap          net_hashmap/net_hashmap_core.c: init, insert, search on the memory of nodes
--   Hashmap.Memory   nodes with parent pointers, and commands over them
--   Hashmap.Text     the hash of a domain and the comparison of two; Text.Hash, Text.Order: proofs
--   Hashmap.Rbtree   net_hashmap/net_hashmap_rbtree.{h,c}: linking, rotations, rebalancing
--   Hashmap.Walk     rb_first, rb_last, rb_next, rb_prev, rb_replace_node; Walk.Ends: proofs
--   Hashmap.Erase    rb_erase and its rebalancing, which the server does not call
--   Hashmap.Tree     the tree that a bucket stands for; Hashmap.Search, Hashmap.Duplicate: proofs
--   Hashmap.Zipper   a bucket with a hole; Zipper.Edit, Zipper.Frames: its fields and their writes
--   Hashmap.Rbtree.Rotate, .Inverse, .Tops, .Steps, .Repair, .Turned, .Settle, .Balance   proofs about
--                    the rotations and rb_insert_color on a bucket with a hole; Hashmap.Balanced: red-black trees
--   Hashmap.Sorted, Hashmap.Descent, Hashmap.Attach, Hashmap.Insert   proofs about inside_insert;
--                    Hashmap.Height: the height of a bucket
--   Hashmap.Table    the whole map as a function; Table.Put, Table.Grow, Table.Add, Table.Session: proofs
--   Hooks            net_common/net_common_list.h: doubly linked lists on a memory of hooks
--   Hooks.Chain      the sequence of a list; Hooks.Append, Hooks.Delete, Hooks.Empty: proofs
--   Hooks.Ops        moves, replacement, splices, cuts and loops; Ops.Loops, Ops.Move: proofs
--   Hooks.Ops.Entries   the loops over structures; Entries.Split: proofs
--   Forward          net_forward/net_forward.c: the hash of identifiers, the waiting nodes, the response
--                    parser; a list head with its hooks is the list of the nodes it joins
--   Forward.Records  answer records; Forward.Scan, Forward.Pending, Forward.Filed,
--                    Forward.Flags: proofs
--   Bundle           net_bundle/net_bundle_core.c: `udp_cb` and `write_back`
--   Bundle.Response, Bundle.Bounds   proofs about the response and its room
--   Pipeline         the callback of the socket and a round of each thread on the shared nodes and rings:
--                    net_bundle/net_bundle_core.c, net_work/net_work.c, net_forward/net_forward.c
--   Pipeline.Answer, Pipeline.Forwarded, Pipeline.Awaited   a request from the socket to the socket, or
--                    to the upstream server and back; Pipeline.Cached: a host asked for again;
--                    Pipeline.Safe: all orders of the rounds
--   Xml              net_xml/net_xml_common.c: documents as a memory of nodes, searching and adding
--   Xml.Path, Xml.Add   the tree of elements a document shows, and proofs about paths in it
--   Xml.Load         net_xml/net_xml_common.c: `config_load` and freeing
--   Xml.Config       net_xml/net_xml_config.c; Config.Described: what its elements mean; Config.Sources,
--                    Config.Parse: proofs
--   Start            the start of the server as the sequence of its calls of the system: Start.Sockets,
--                    Start.Bundle (net_bundle/net_bundle_core.c), Start.Threads (net_work/net_work.c),
--                    Start.Forward (net_forward/net_forward.c), Start.Main (net_main/net_main.c)
--   Start.Order      the order of the calls, and Order.Close what a failed start closes: proofs
--
-- Conventions. A byte is a number below 256; memory is a list of bytes, and `none` is a read or
-- write outside it. The machine is little-endian with signed `char`, as on the x86 that net_ring's
-- assembler needs. Loops take fuel: the ring's loops need one round when a thread is alone (the
-- refinement theorems hold for every positive fuel), the label loop is given the length of the
-- buffer plus one, and each round consumes at least one byte; the doubling loop of `align_pow2`
-- has fewer than 30 rounds until its shift of an `int` is undefined; a walk down a tree and the rebalancing on the way
-- up need more fuel than its height, which in a red-black tree is at most twice the logarithm of
-- its size; a loop over a list needs more than its length, and a search in a document more than its
-- elements.
-- A call of the system or of a library while the server starts is answered by a function of the
-- call, and is written to a log. A callback or a round of a thread is one step of
-- Pipeline.Safe; the ring's own steps are not interleaved.
--
-- Not modelled: libxml2, libevent, sockets and pthreads themselves, which are parameters; the
-- waiting of the threads on their condition variables; the list hook of a node; nodes that are
-- dropped, which the code does not free; the locks of the buckets, which make each operation on a
-- tree atomic; creating and saving a configuration. Where the code has no defined behaviour, or goes on
-- with what is no node, as on a response from upstream whose identifier no node waits for, the model
-- has a fault, `none`.
pub mod Bundle
pub mod Forward
pub mod Hashmap
pub mod Hooks
pub mod Message
pub mod Pipeline
pub mod Prelude
pub mod Ring
pub mod Start
pub mod Work
pub mod Xml
