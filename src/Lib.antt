-- ===== src/Lib.antt =====
-- A model of the kernel: its devices, its file system, its page tables and its processes.
--
-- The parts, with the file that models each, and the file of the repository that it is about:
--   Pic         i8259.c      the masks in memory and the bytes that the two controllers receive
--   Rtc         RTC.c        the clock's frequency, its interrupts, and the wait of rtc_read
--   Screen      lib.c, cursor.c    video memory, the cursor, scrolling
--   Strings     lib.c        printf, itoa, and the functions on C strings and memory; Strings/Sets
--               has memset and memmove, Strings/Digits reads the text of itoa back, Strings/Formats
--               takes a format of printf apart
--   Terminal    terminal.c   Terminal/Output has terminal_write, which the keyboard calls too
--   Keyboard    keyboard.c   the scancode table, the modifiers, the line buffer
--   FileSystem  filesystem.c the boot block, entries, index nodes and data blocks of the image
--   Paging      paging.c     the page directory and table, and the control registers; map_user is what
--               execute and halt store; Paging/Access is the processor's translation by the tables
--   Idt         idt.c, x86_desc.h    the interrupt descriptors
--   FileOps     fileoptable.c        the four tables of operations
--   Process     process.c    Process/Execute has execute and initialize_PCB, Process/Calls has open
--               and write, Process/Reading has read, Process/Closing has close and halt; the state
--               (slots, control blocks, descriptors) is in Process itself; Process/Running takes the
--               calls as steps
--   Boot        kernel.c, x86_desc.h    entry: Boot/Info prints the boot information, Boot/Devices
--               starts the devices; the descriptors of the local table and of the task
--   Entry       syscall.S, Keyboard_Interrupt_wrapper.S      the processor's registers and stack at a
--               system call (Entry/Calls), at an interrupt (Entry/Wrappers), and at the end of execute
--               and of halt in process.c (Entry/Switch, Entry/Resume);
--               the macros of lib.h on the flags (Entry/Flags)
--   SelfTests   tests.c      the kernel's own tests of the tables, the vectors and the clock
-- Function and field names are the source's, in lower case with underscores (getRate is get_rate).
-- A function that changes globals takes their record and returns it with its result.
--
-- How they interact: the keyboard handler writes to the screen through terminal_write and sends its
-- end of interrupt through Pic; terminal_read gives what the keyboard's buffer holds; execute and
-- open look names up in the file system and read the image by read_data, which copies by memcpy.
-- Keyboard/Editor is an abstract line editor: the line as a list, with no storage behind it.
-- Screen/Paper is an abstract printer: rows without end, of which the screen shows the last 25. A
-- program reaches the functions of process.c by the table in Entry/Calls, and each call of one is a
-- step of Process/Running.
--
-- Memory is a function from addresses to bytes, one for the image, the strings and the buffers, so
-- that pointers that alias do so here; it has no end. Only a pointer that points to no object, and
-- the tests in SelfTests, ask the page tables: an address that they do not map faults. Numbers are of any size,
-- with the reduction modulo 2^32 or 2^8 written where the source can wrap; -1 is negsuc 0. A port
-- write is an entry of a trace, the newest first.
--
-- Fuel: the loops of strlen, strcpy, the two loops over spaces and the argument loop of execute, and
-- the loop of get_rate run on fuel, and none says that it was too little. For a string of n bytes
-- any fuel above n is enough (strlen-IsText, strcpy-IsText), and for a command of n characters too.
-- For a directory entry 32 is enough (read_dentry_by_index-IsDirectory), for the boot loader's map a
-- round for every entry and one more (entry_returns).
-- The wait of rtc_read runs on a list of events, interrupts and looks at the flag.
--
-- A call that can fault or wait gives a Run (Prelude/Runs): a result, the vector of an exception, a
-- wait for an interrupt that has not come, or unknown, for what C leaves undefined and for too
-- little fuel. An exception's handler does not return. `execute` has no result where it faults, on a
-- null command and on a file that is too long for the page, nor where the name passes the 32 bytes
-- of its array on the stack.
--
-- Parameters: the addresses of the interrupt handlers, of the tables and of the text "shell", the
-- addresses of execute's local variables, the values of uninitialised pointers, the bytes read from
-- the clock's registers, and the memory that a program's addresses show once its page is mapped.
--
-- The machine code that C compiles to is a parameter of Entry: a function on the processor that keeps to
-- the calling convention (IsCdecl). The words of the kernel's stack are the processor's, apart from
-- the memory of the other parts.
--
-- Not modelled: the rest of the assembly (boot.S, the tables of x86_desc.S but for two sizes), the
-- flush of the translation buffer, the direction flag, the value that printf returns, the port
-- macros of lib.h but for outb, and the header lines of the tests.
pub mod Boot
pub mod Entry
pub mod Prelude
pub mod Pic
pub mod Rtc
pub mod Screen
pub mod Strings
pub mod Terminal
pub mod FileSystem
pub mod Paging
pub mod Idt
pub mod FileOps
pub mod Process
pub mod SelfTests
pub mod Keyboard
