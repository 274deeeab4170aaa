-- ===== src/Lib.antt =====
-- Verification library for MyResource: C components under fram/module, as definitions translated
-- from the source with the theorems that say what they do. The components are libraries; a
-- program links those it wants. The thread pool calls its lists, and the configuration parser
-- calls its own; apart from that they do not call each other.
--
-- * Ds (fram/module/ds): the binary search tree of stree.c (Ds/Stree) and the red-black tree of
--   rbtree.c (Ds/Rbtree), both against the ordered map of Ds/SortedMap; the word tree of
--   trietree.c (Ds/Trie). The functions keep their names less the prefix: stree_delete is
--   Ds.Stree.delete, trietree_update is Ds.Trie.update_data; rbtree_insert and its fix up stand
--   in Ds/Rbtree/Insert, rbtree_delete and its own in Ds/Rbtree/Delete, the walk, the destruction
--   and LevelOrder in Ds/Rbtree/Walks.
--
-- * Ini (fram/module/ini): the item list and the section list (Ini, from itemlist.c and
--   sectionlist.c; ItemADD is item_add) and LoadINI of parserINI.c (Ini/Parse, load_ini).
--
-- * ThreadPool (fram/module/threadpool): the list of tasks of eventlist.c (ThreadPool/EventList),
--   the event queue of Tpoolevent.c over it (ThreadPool/EventQueue, where Tpool_popevt is
--   pop_evt; ThreadPool/EventQueue/Steps has the calls as steps), and the list of workers of
--   workerlist.c (ThreadPool/WorkerList).
--
-- * Ipc (fram/module/ipc): the blocks of data in a shared memory segment of blockshm.c. Ipc/Shm
--   has the segment, its creation and the functions that write it, Ipc/Shm/Query those that read
--   it, with shm_bsearch; Ipc/Sort has the sorts _shm_ssort and, in Ipc/Sort/Quick, _shm_qsort
--   over the records of a block (Ipc/Rows), and Ipc/Shm/Order the functions that call them, with
--   Ipc/Shm/Sorting on what they leave for shm_bsearch; Ipc/Bytes is memcmp of the C library, as
--   it is documented, on bytes that are numbers below 256. _shm_upload is Ipc.Shm.upload, and a
--   function that takes the key keeps its name. Ipc/RwLock has the lock for readers and writers
--   of ipcsem.c, one operation on a semaphore to a step, with any number of processes;
--   vipc_sem_Wlocked is the event w_locked, and then go. Ipc/Shm/Safe has the functions on blocks
--   that take this lock; there the result of the wait is an argument.
--
-- * Ipc/ArrShm (fram/module/ipc): the arrays of arrshm.c, a segment as its head and the bytes
--   behind it; ArrShmInsert is Ipc.ArrShm.insert and the macro ArrShmDelete is Ipc.ArrShm.delete.
--   Ipc/ArrShm/Create has ArrShmCreate and ArrShmGetAttr, with what the system calls and the lock
--   return as an argument; Ipc/ArrShm/Memory has what a write to the bytes changes,
--   Ipc/ArrShm/Blocks where the blocks lie.
--
-- * Public (fram/module/public): the circular lists of rlist.c (Public/RList), on a store of
--   nodes with next and prev; RList_add_tail is Public.RList.add_tail. Public/RList/Chain and
--   Public/RList/Rings say when the nodes form a list, and what linking nodes in or out does to
--   it.
--
-- * ThreadPool/Core (fram/module/threadpool): the size of the pool, from Tpoolcore.c:
--   _Tpool_sizectl is ThreadPool.Core.size_ctl, and what the monitor does when its wait times out
--   is ThreadPool.Core.check. The list of workers behind the monitor is part of the pool.
--   ThreadPool/Calls has the calls of Tpool.c, and the steps of the program and the monitor over
--   the command that they share; Tpool_sizectl is the move calls_size and then returns or
--   gives_up.
--
-- * MemPool (fram/module/mempool): mem_pool_init, mem_pool_palloc and mem_pool_pnalloc of
--   mem_pool.c, with addresses in bytes from the start of a page; MemPool/Reach has the requests
--   as steps, MemPool/Release mem_pool_reset and mem_pool_destory, MemPool/Counts the number of
--   pages.
--
-- * Xml (fram/module/xml): xmlFindNode of xmlList.c in both modes, xmlGetListByKey and
--   xmlGetListByAttr, which leave out the entries of an earlier search that stay in the array.
--   Xml/Fills is about the array, Xml/Found about what is found.
--
-- Pointers: a tree of C nodes with parent links is a data type, and a pointer to one of its nodes
-- is a position: a path of frames, one for each parent link up to the root, and the fields of the
-- node. Following parent takes the first frame of the path. A linked list is the list of its
-- nodes, but for the circular lists of rlist.c, whose nodes are at addresses. A read through
-- NULL, and a write to a link that would leave no tree, is the outcome fault of Base/Fault; a
-- loop that recurs on fuel has the outcome out_of_fuel, and the predicate Holds excludes it.
-- Where a read is of memory already freed, or a copy has a negative length, the outcome is fault
-- too. A segment of shared memory is its head, the bytes of data up to pin_head, and the list of
-- the descriptions from pin_tail on; a read of data outside these bytes, which may lie in the
-- segment or not, is a fault.
--
-- Bounds: keys, thread ids and priorities are unbounded natural numbers, since the code only
-- compares them; the counters of the word tree and the sizes and counters of the memory pool wrap
-- at 2 ^ 32. The fix up of a red-black insertion is given 2 n + 4 rounds at a path of n parent
-- links, and Ds/Rbtree/Insert/Rounds shows that each round costs at least one of them; that of a
-- deletion is given two rounds for each node beside the path, one for each parent link and one
-- more, and Ds/Rbtree/Delete/Rounds shows that each round takes from these. The reader of lines
-- has as many rounds as the file has bytes, and each round takes at least one. The quick sort of
-- a block has one round more than the block has records, and each round takes from the lengths of
-- the parts that are pending. The loops around a record of a sorted block have one round for each
-- byte of the head and the data, and one more. malloc is an argument, the outcome of each call.
-- Memory that is never freed is not part of the state.
--
-- Not modelled: the copies of the zlog and cJSON libraries, code that wraps system calls
-- (sockets, processes, signals, the terminal), log calls and the printing of the walks; and of
-- the components above mem_pool_pfree, the search for a path and the parser of the XML module,
-- calls of several threads on the thread pool at once, and the steps of a worker while it is
-- cancelled.
mod Base
pub mod Ds
pub mod Ini
pub mod Ipc
pub mod MemPool
pub mod Public
pub mod ThreadPool
pub mod Xml
