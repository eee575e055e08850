-- ===== src/Lib.antt =====
-- dedup, a command that replaces duplicate files by copy-on-write clones: the data structures in which
-- it finds duplicates, the choice of the file that the others become clones of, and the replacement
-- itself.
--
-- How the parts of the program interact. main walks the given directories and queues the regular files
-- that it finds. visit_entry (dedup.c) reads the metadata of a file and asks the visited tree (map.c)
-- whether a file with the same device, size, first and last character and SHA-256 was seen. If so, both
-- go on a list (alist.c) in the tree of duplicates. When all files are read, deduplicate (dedup.c) picks
-- an origin for each list, with a tree that counts clone ids (map.c), and has the other files replaced
-- (clone.c), which it checks by the files' attributes (utils.c).
--
-- The files of the model:
--   AList            alist.c: the growable array, with size_t arithmetic modulo 2^64
--   Rb               rbtree(3), which map.c uses: an interface (RbTree) with its documented laws (IsRbTree),
--                    the comparisons of map.c, and a list of nodes in order that meets the laws
--   Metadata         map.h, map.c: FileMetadata and populate_sha256_if_empty
--   Visited          map.c: the visited tree; a pointer into a tree is its target with the effect of a
--                    write (Ref), and visited_tree_insert returns the new tree and the metadata with
--                    the digest that it may have computed
--   Entry            utils.c, queue.h: FileEntry and metadata_from_entry, over stdio(3)
--   Duplicates       map.c: the tree of duplicates, over the same interface
--   Visit            dedup.c: visit_entry, from the metadata that Entry gives; visit_all is
--                    a sequence of such calls, in the order in which the workers take the mutex
--   CloneIds         map.c: clone_id_tree_increment and clone_id_tree_max
--   Os               the calls of the operating system, over a state that is not seen, with what their
--                    manual pages say of files (IsPosix), and a system in memory that meets it
--   Clone, Symlink   clone.c: replace_with_clone, replace_with_link, replace_with_symlink
--   Utils            utils.c: the attributes clone id, private size and extended flags
--   Replacing        dedup.c: deduplicate, with its counters
--   Freeing          map.c, alist.c, queue.c: what the functions that free memory give to free(3)
--   Queue            queue.c: the queue between main and the workers, over the macros of sys/queue.h, an
--                    interface (Stailq) with their documented laws (IsStailq)
--   Workers          dedup.c: dedup_work, which several threads run while main queues files, as a relation
--                    between the states before and after one step (Step); Reach is any number of steps
--   Main             dedup.c: the loop of main over the tree of duplicates; Main/Options is its options,
--                    Main/Traversal its loop over the entries of fts(3), Main/Serial its scan where the
--                    number of threads is 0, Main/Parallel that scan against the one
--                    by threads, Main/Contents the way from the scan to the end, Main/Program
--                    main from the command line to its status, Main/Human the sizes that -h asks for
--   Double           the arithmetic of double in dedup.c and progress.c, rounded to 53 bits
--   Progress         progress.c: display_progress, the bar and the percentage that it draws
--   Tests            runs on small inputs, and each result at concrete data
--
-- Bounds and fuel. The loop of alist_ensure takes rounds. alist_ensure gives it one more than the
-- required capacity, and a capacity above 0 doubles in each round; lists are below 2^59 items. The loops
-- of path_relative_to take as many rounds as the path has bytes, and consume a byte in each. dedup_work
-- without threads takes rounds, of which it needs one, since main has just queued a file. The loops
-- that free a tree take as many rounds as it has nodes. A number below 2^117 is halved 64 times at most
-- before it is rounded to the 53 bits of a double, one below 2^181 128 times, and one below 2^64 12 times.
--
-- Choices. A C string is the list of its bytes, an int is its bit pattern, dev_t and char are signed.
-- malloc, realloc and strdup succeed. A path stands for a file by its bytes: that two spellings lead
-- to one file, or a symbolic link to another path, is not modelled. The address of a FileMetadata
-- stands beside it (Pointer), since deduplicate compares addresses. rb_tree_init takes the operations
-- of a tree once; the interface RbTree takes them with each call, and each tree is used with those of
-- its rb_tree_init only. What happens behind the end of a buffer is a call of Os of which nothing is
-- known (overrun), and none is the result of main where a NULL is dereferenced.
--
-- Hashing. Visited/Hashing says what open(2), mmap(2) and CommonCrypto do with a file: either the file
-- can be opened, mapping as many bytes as it has gives its content, and CommonCrypto gives its SHA-256,
-- which is not all zeros; or one of these calls fails. Each file of the scan keeps its content and does
-- the one or the other at each call; the size in its metadata is the length of that content.
--
-- Threads. What a thread does while it holds one mutex is one step, as are the reads of done and of a file's
-- metadata; a thread's local variables stand in its state (Worker). For the threads, the files stay as
-- they are throughout the scan, and there are fewer than 2^57 of them, since an entry may put two
-- items on a list.
--
-- Not modelled: what is printed other than the progress bar and the sizes, when the bar is drawn, the
-- addresses of freed memory, the FreeBSD branch of genfile_clone, failures of pthread_create(3), and how
-- getopt_long(3) and fts(3) come to what they give.
pub mod Prelude
pub mod AList
pub mod Rb
pub mod Metadata
pub mod Visited
pub mod Os
pub mod Clone
pub mod Double
pub mod Progress
pub mod Duplicates
pub mod Visit
pub mod Entry
pub mod Queue
pub mod Workers
pub mod Main
pub mod CloneIds
pub mod Utils
pub mod Replacing
pub mod Symlink
pub mod Freeing
pub mod Tests
