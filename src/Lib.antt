-- ===== src/Lib.antt =====
-- The clipboard of MINIX: a character device that keeps texts for the processes of the system, the
-- call of the process manager by which clients tell who may use a text, and the functions of the C
-- library through which they do it. Paths below start at the root of the repository.
--
-- The parts and how they interact
--
-- A client calls copy_to_clipboard and paste_from_clipboard of the C library, which open the device,
-- send a message of clipboard_protocol.h and close it. The driver answers a write that carries a lock
-- or a set message, told apart by their sizes, and a read whose size is itself a query: the pid that
-- wrote an entry, or the text that a pid has locked. Its 100 entries point to blocks of the heap; the
-- numbers of the free ones are on a stack. Before it pastes, the library asks the process manager
-- whether the writer is an ancestor of the caller. Texts can be compressed and ciphered before.
--
-- Which file models what
--
--   Prelude: names and lemmas that all share. Run is the result of C code: `done` with a value,
--     `abort` for a failed assert, `undefined` where C leaves open what happens. Arrays are functions
--     of the index, and `load` and `store` are undefined out of range.
--   Memory: malloc, free and memcpy on a heap of live blocks.
--   Stack: stack.h and stack.c of new/usr/src/minix/drivers/examples/clipboard. Its pointer `current`
--     is an index; Stack/Refine compares it with a bounded list, Stack/Init is about `init`.
--   Protocol: clipboard_protocol.h (in the folder of the driver and in new/usr/src/lib/libc/misc):
--     messages, the macros for queries, and the bytes of the messages on i386.
--   Clipboard: bw386389.h and bw386389.c, the driver. do_clipboard_lock is split in `unlock_held` and
--     `lock_slot`, do_clipboard_get in the search and `take_entry`; clipboard_read and clipboard_write
--     take the caller's grant as a function. Clipboard/Invariant is what holds of the state between
--     requests; Search, Delete, Fill and Lock say what each operation does; View is the store of texts
--     that clients see, View/Refine the requests as operations on it, View/Count how many texts it has;
--     Requests is about the two entry points; Init about the start; Reach about every sequence of
--     requests; Others and Turns about what one process holds while requests come that do not carry its
--     pid; Log is clipboard_log.
--   LiveUpdate: sef_cb_lu_state_save, lu_state_restore and sef_cb_init of bw386389.c. Save is the old
--     instance, Restore the loop of the new one, Slots what they do to the entries, Whole both. The
--     stack's pointer is published as an address and read back as one: where it does not point into the
--     array of the new instance, or is the null pointer of a static object, the model stops, as undefined.
--   Sef, Main: sef_local_startup and main of bw386389.c. Main/Serve is about the start and every request
--     after it with its reply, Main/Panic about a query that ends the driver, Main/Traffic about the texts that go in and come out meanwhile, also across a live
--     update, and when there is room for one more.
--   Pm: do_check_if_ancestor.c, table.c and the numbers of callnr.h of the process manager
--     (new/usr/src/minix). Pm/Find is about the search for a pid, Pm/Climb about the climb to the root,
--     Pm/Depth and Pm/Fuel about its fuel, Pm/Ancestor about the whole call, Pm/Endless about tables where
--     it does not end, Pm/Table about the table, Pm/Declared about the prototypes of proto.h.
--   Libc: copy_paste_clipboard.c and check_if_ancestor.c of new/usr/src/lib/libc/misc. Libc/Size is
--     about expected_decompressed_size, Libc/Copy about copy_to_clipboard.
--   Session: the C library over the driver, whose system calls reach it through an interface, Device.
--     Copy, Fetch, Lock and Paste follow the calls of a client, Refused its errors, Whole a copy and the
--     paste of another process. Family adds the process manager, behind an interface Manager, to which
--     check_if_ancestor reaches through the table of calls; Updated puts a live update between copy and
--     paste.
--   Headers: the numbers in minix/callnr.h and minix/dmap.h, which the patch changes, in four copies each
--     (new and get, usr/src/minix/include and usr/include). CallNumbers and DeviceNumbers compare them.
--   Unistd: the first section of unistd.h, which declares the functions of the library, in the same four
--     copies. Unistd/Declared compares them with each other and with the definitions; Prototypes is the
--     search in a list of prototypes.
--   Compress, Cipher: test/compress.c with its header. Compress/Runs is about one run of a character,
--     Roundtrip about both directions, Size about the library's count of what is compressed, Length
--     about the room that it takes, Place about a text that is compressed over itself. Cipher/Key is
--     about the key, Cipher/Roundtrip about both modes.
--   Safe: copy_safely and paste_safely of test/compress.c, over cipher, compress and the C library.
--     Safe/Copy is about the message that the first sends, Zeros about slen, Paste about what the second
--     makes of a text, Whole about both over the driver, Family with the process manager.
--   Hello: hello.c of new/usr/src/minix/drivers/examples/hello. Hello/Read is about the bounds of a read,
--     Hello/Update about its counter, Hello/Start about sef_local_startup and main.
--   Simulator: the earlier clipboard without locks under test/asm (clipboard.h, clipboard.c and
--     copy_paste_clipboard.c), on which compress.asm is tested. Invariant is what holds between calls,
--     Shelf what clients see, Write, Read and Start what the calls do, Runs any number of them, Session
--     a copy and the pastes after it.
--   Tests: concrete states and runs.
--
-- Integers, loops and bounds
--
-- Integers are natural numbers; a w-bit operation that can wrap is written with its remainder, and a
-- pid_t or an int is kept as its 32 bits or as a ℤ. Loops over the 100 entries count the rounds that
-- are left. The climb of do_checkifancestor runs on fuel, a parameter: NR_PROCS rounds are enough, since
-- no slot stands twice on the way up to pid 1, and more change nothing. itoa_inverse has 16 rounds, the
-- size of its buffer; a number of 32 bits takes 10.
--
-- What is a parameter
--
-- Code that is not the repository's own: where malloc puts a block (it is never over a live block; a
-- theorem that needs room says so), what sys_safecopyfrom and sys_safecopyto return, the system calls
-- under the C library, the data store of MINIX (a name gives what was published under it last, where
-- that did not fail), the addresses of the stack's array in the instances of a live update, what
-- libchardriver does with the code of a request (CharDriver), the table of callbacks of SEF, the way of a system call to the driver and to the process manager
-- (Session), the constants NR_PROCS and IN_USE of MINIX, HELLO_MESSAGE, and for paste_safely the first
-- contents of its local and the address of its local length.
--
-- What is not modelled
--
-- log_msg and other printing, but for what clipboard_log prints of the entries;
-- libchardriver, which is MINIX's own and calls the handlers one at a time; the sections of unistd.h
-- that the patch does not change; compress.asm and its tester under test/asm; scripts and configuration.
-- The manual tests under test print what the library does.
pub mod Prelude
pub mod Stack
pub mod Memory
pub mod Protocol
pub mod Clipboard
pub mod LiveUpdate
pub mod Sef
pub mod Main
pub mod Compress
pub mod Cipher
pub mod Safe
pub mod Prototypes
pub mod Pm
pub mod Unistd
pub mod Headers
pub mod Libc
pub mod Session
pub mod Hello
pub mod Simulator
pub mod Tests
