-- ===== src/Lib.antt =====
-- The MIT distributed systems labs of this repository: a Raft peer (src/raft), the master and the
-- workers of a MapReduce job (src/mr) with the sequential version (src/main/mrsequential.go), and
-- the simulated network and services around them.
--
-- Raft (src/raft/raft.go). A peer answers RPCs, runs two timer loops and an applier, and starts
-- goroutines that send requests and handle the replies. The lock makes every critical section
-- atomic, so each is one function of the state, and the interleaving of goroutines is the order
-- of these functions. Channels hold one bit (the election reset); the RPC layer enters as
-- requests and replies that arrive in any order.
--
-- - Raft/State: the struct Raft, Make, Start, startElection, Kill, persist, readPersist.
--
-- - Raft/Vote: RequestVote (its arguments, and the goroutine's treatment of a reply) and the
--   handler RequestVoteReply.
--
-- - Raft/Append: the handler RequestAppendEntriesReply with its index loop, as a recursion on
--   lists. Raft/Guards has the handler a second time, with every index written out and a panic
--   where one is out of range.
--
-- - Raft/Replicate: RequestHeartBeat (the arguments for one peer, and the treatment of the reply
--   with the commit loop) and applier.
--
-- - Raft/Timers: one round of electionLoop and of leaderBeatLoop, with the time and the random
--   value as arguments.
--
-- - Raft/Step: the events of one peer, and sequences of them. Raft/Terms, Raft/Invariant,
--   Raft/Ballots, Raft/Merge, Raft/Replication, Raft/Commit, Raft/Hazards and Raft/StaleMatches
--   prove theorems about them, and Raft/Examples has concrete peers.
--
-- - Raft/Cluster: a cluster of peers with its messages: the vote rounds of RequestVote with one
--   call to each peer (sendRequestVote), and the requests of RequestHeartBeat. Any message may be
--   late or lost, and a request to append may arrive again; a reply to it is arbitrary.
--   Raft/Cluster/Ghost has the invariant for elections, Raft/Cluster/Moves and
--   Raft/Cluster/Elections its proof, Raft/Cluster/Rooted and Raft/Cluster/Logs have the
--   invariant for logs, Raft/Cluster/Effects, Raft/Cluster/Advances and Raft/Cluster/Matching its
--   proof, and Raft/Cluster/Examples has runs of three peers, with a late goroutine of
--   RequestHeartBeat too. Raft/Rivals is about such a goroutine's request and the votes.
--
-- The test configuration of Raft (src/raft/config.go, src/raft/persister.go) puts peers on the
-- simulated network, and cuts them off, crashes and restarts them.
--
-- - Raft/Persister: the struct Persister with its methods, in a store of objects by address.
--
-- - Raft/Harness: the struct config, make_config, start1, crash1, connect and disconnect.
--   Raft/Harness/Apply has the listener on an apply channel and nCommitted, Raft/Harness/Checks
--   has checkOneLeader, checkTerms and checkNoLeader, Raft/Harness/Agreement has wait and one.
--   Raft/Harness/Wiring, Raft/Harness/Loops, Raft/Harness/Ends, Raft/Harness/Starts and
--   Raft/Harness/Partition are about who can reach whom, Raft/Harness/Restart about the
--   persisters, Raft/Harness/Committed about nCommitted, Raft/Harness/Submitted about one,
--   Raft/Harness/Leaders about checkOneLeader on the cluster of Raft/Cluster.
--
-- The network (src/labrpc/labrpc.go). A client's end sends a request to the network, which looks
-- up the server that the end is connected to, has it run the handler, and delivers the reply,
-- late or not at all.
--
-- - Labrpc/Network: the struct Network with its methods, and processReq: what decides whether a
--   request reaches a server (admit), the wait for the handler (wait_for), and what happens to
--   the reply (finish_req). Random numbers, and the network as it is at each look, are arguments.
--
-- - Labrpc/Server: Server and Service with the dispatch of a request to a method. Gob, reflection
--   and the handlers are parameters.
--
-- - Labrpc/Client: Call, and a call during which nothing else happens. Labrpc/Requests,
--   Labrpc/Fates and Labrpc/Calls have the proofs.
--
-- The test configuration of the key/value service (src/kvraft/config.go) partitions its servers,
-- shuts them down and starts them again, and makes clerks with ends of their own. The
-- configuration of src/shardmaster/config.go has the same code, for another server.
--
-- - KvRaft: the struct config, connectUnlocked, disconnectUnlocked, All, ConnectAll, partition,
--   makeClient, deleteClient, ConnectClientUnlocked, DisconnectClientUnlocked, ShutdownServer,
--   StartServer and make_config. KvRaft/Leader has Leader and make_partition, KvRaft/Sizes has
--   LogSize and SnapshotSize. KvRaft/Links is about the loops over ends, KvRaft/Partition about
--   partition, KvRaft/Halves about make_partition, KvRaft/Minority about both together,
--   KvRaft/Started and KvRaft/Starts about make_config.
--
-- The test configuration of the sharded store (src/shardkv/config.go) has master servers and
-- groups of servers.
--
-- - ShardKv: the structs group and config, ShutdownServer, ShutdownGroup, StartServer,
--   StartGroup, StartMasterServer, shardclerk, makeClient, deleteClient, joinm and leavem (what
--   they hand to the clerk of the masters), the tests of checklogs. ShardKv/Setup has
--   make_config. The names that mastername and servername build are parameters. ShardKv/Shutdown,
--   ShardKv/Restart and ShardKv/Panics have the proofs.
--
-- The checks before gob (src/labgob/labgob.go). Labgob has checkType, checkDefault and the checks
-- of Decode, on numbered types and values; Labgob/Search is about the search through the types
-- that a type is made of.
--
-- The clients of the sharded store (src/shardmaster, src/shardkv).
--
-- - Shards/Master: the configuration, and Query, Join, Leave and Move of
--   src/shardmaster/client.go with src/shardmaster/common.go.
--
-- - Shards/Client: key2shard, Get, PutAppend, Put and Append of src/shardkv/client.go with
--   src/shardkv/common.go. Shards/Loops is about the inner loops, Shards/Answers about what comes
--   back, Shards/Recovery about the end of the loops.
--
-- The sequential model (src/models/kv.go) that the tests of the key/value services check
-- histories against.
--
-- - Models/Kv: Partition, Init and Step; Models/Kv/Partition is about histories of several keys.
--
-- MapReduce (src/mr/master.go, src/mr/rpc.go, src/mr/worker.go). The master hands map tasks and
-- then reduce tasks to workers that ask for work, and takes a task back after five seconds.
--
-- - Mr/Master: the struct Master, GiveTask with mIsFinished and rIsFinished, TaskFinish, Done and
--   MakeMaster. Maps are association lists, and the order in which Go ranges over the map of
--   tasks is an argument. Mr/Master/Phases and Mr/Master/Progress have the proofs, and
--   Mr/Examples has a small job.
--
-- - Mr/Worker: the worker's doMap and doReduce (src/mr/worker.go) and main of
--   src/main/mrsequential.go, on the contents of files. The sort, the FNV hash, the JSON encoding
--   and the application's functions are parameters; a line of output is a pair of the key and the
--   result. Mr/Worker/Partition is about the intermediate files, Mr/Worker/Groups,
--   Mr/Worker/Reduces and Mr/Worker/Sorted about the loops that group pairs by key.
--
-- - Mr/Apps: the applications word count and index (src/mrapps/wc.go, src/mrapps/indexer.go);
--   Mr/Apps/WordCount is about word count in a reduce task.
--
-- - Mr/Protocol: a round of the loop of Worker against the master's handlers. Mr/Protocol/Reduces
--   is about a round that does a reduce task.
--
-- Numbers. Terms, indices, peer and task numbers are natural numbers. An int that the code also
-- sets to -1 or decrements (voteFor, the previous and last log term, nextIndex) is an integer
-- with a sign. The network's counters wrap, at 32 and 64 bits; no other counter does. A function
-- whose result is none has panicked: an index or a slice bound was out of range. Every loop
-- recurs on a list, but for the outer loop of the sequential program: it has fuel for one more
-- round than there are pairs, which always suffices, since each round consumes a pair; and the
-- index loop of Raft/Guards has one step more than there are new entries, which suffices since
-- each step but the last consumes an entry. The retry loops of the shard clients, which end only
-- if a server answers, have fuel for their rounds: Shards/Recovery says how much is enough, and
-- when. The fuel of checkType bounds the depth of its recursion, and one more than the number of
-- types is enough.
--
-- Not modelled: the applications that crash or measure time (src/mrapps); the sending of
-- messages, sleeping and the goroutines themselves, printing, the HTTP server of the master, the
-- gob encoding; the porcupine checker, which is a copy of another project's library; the servers
-- whose handlers are empty; the rest of the test configurations of the services; the clock and
-- the statistics of src/raft/config.go.
pub mod Base
pub mod Raft
pub mod Mr
pub mod Labrpc
pub mod Labgob
pub mod Models
pub mod Shards
pub mod KvRaft
pub mod ShardKv
