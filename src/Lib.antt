-- ===== src/Lib.antt =====
-- A model of the kernel, the file system, the C library, the compiler and the assembler of
-- ikanOS v5. All paths are below ikanOSv5-1-Bootloader-Base/.
--
-- The kernel keeps its tables at fixed addresses. Semaphores (vm.cpp) guard the other tables; the
-- process table (vm.cpp), the object table (file.cpp) and the page frame map
-- (frame-allocator.cpp) are changed between an acquireLock and a releaseLock. The file system
-- (fs.cpp) reads and writes blocks of four sectors through a cache, and finds free blocks and
-- inodes in bitmaps. The handlers of system calls (syscalls.cpp) work on all of these.
-- libc-main.cpp holds the conversions that all of them and the user programs share; the user
-- programs cc.cpp and al.cpp are a compiler and the assembler of what it emits, and edlin.cpp is
-- a line editor. net.cpp sends and receives datagrams; in the system calls it is a parameter.
--
-- Prelude (with Prelude/Tests, Lists, Bytes): shared names, Boolean tests on numbers, lists and
--   the bits of a byte.
-- Ext2/Bitmap: the loops of allocateFreeBlock, allocateInode, freeBlock, readNextAvailableBlock
--   and readTotalBlocksUsed on the bytes of a map. Ext2/Bitmap/Allocate, Free and Count hold the
--   theorems.
-- Disk: diskReadSector, diskWriteSector, readBlock and writeBlock of fs.cpp over a drive,
--   `Device`; Disk/Coherence, Disk/Blocks and Disk/Eviction hold the theorems.
-- Ext2/Volume: the functions of fs.cpp that allocate and free on the disk, up to freeAllBlocks
--   and writeBufferToDisk; Ext2/Volume/Usage and Ext2/Volume/Buffers hold the theorems.
-- Ext2/Directory: the walks over a directory's entries and the removal and the addition of one,
--   on the bytes of a directory; Ext2/Directory/Lookup and Ext2/Directory/Remove (Chains,
--   Entries, Lookups) hold the theorems.
-- Ext2/Files: the same functions of fs.cpp on the disk, from loadInode to getInodeFromPath;
--   Ext2/Files/Paths has the theorem on paths.
-- Semaphore: acquireLock, releaseLock and createSemaphore; Semaphore/Locking holds the theorems.
-- Kernel: the tables as one record, and the monad of kernel functions, which return, panic or
--   spin; Kernel/Slots is the scan for a free entry, Kernel/Locks the effect of a lock around a
--   function.
-- Process: initializeTask and updateTaskState; Process/Entry and Process/Table hold the theorems.
-- Objects: all of file.cpp; Objects/Entry, Objects/Table and Objects/FileLocks hold the theorems.
-- Frames: freeFrame, processFramesUsed and totalFramesUsed, with their theorems.
-- Libc/Strings: strcmp and strcpyRemoveNewline; Libc/Numbers: itoa, atoi, itoaHex, hextoi,
--   ceiling, power and the character tests; Libc/Time: convertToUnixTime and convertFromUnixTime;
--   Libc/Addresses: itoIPAddressString and ipAddressTointeger.
-- Heap: malloc, free, freeAll and countHeapObjects, for the user's and the kernel's heap;
--   Heap/Objects holds the theorems.
-- Syscalls: what the handlers of syscalls.cpp work on (`System`), insertKernelLog, kMalloc,
--   kFree, bytecpy and fillMemory; Syscalls/Steps and Syscalls/Copies hold lemmas about steps and
--   copies. Syscalls/Pipes: sysWrite and sysRead, with Pipes/Effects and Pipes/Transfer;
--   Syscalls/Opening: sysCreatePipe, sysOpenPipe and sysCreateNetworkPipe, with
--   Opening/Connection; Syscalls/Tasks: sysExit, sysSwitchToParent, sysToggleScheduler and
--   sysMmap, with Tasks/Exit.
-- Assembler: all of al.cpp except the opening and creating of files. Assembler/Operands: labels,
--   registers, numbers and memory operands; Assembler/Lines: getNextLine and parseLine, with
--   Lines/Bounds for the buffers; Assembler/Sizes: getInstructionSize; Assembler/Encoding: the
--   bytes that secondPass emits for an instruction, with Encoding/Agreement (against the sizes)
--   and Encoding/Jumps; Assembler/Passes: firstPass and secondPass, with Passes/Addresses and
--   Passes/Resolution (what labels stand for); Assembler/Elf: writeElf; Assembler/Program: what
--   main makes of a source, with Program/Image.
-- Compiler: Compiler/Lexer is getNextToken of cc.cpp, with Lexer/Progress; Compiler/Symbols the
--   symbol table, with Symbols/Slots; Compiler/Expressions parseExpressionInfo, with
--   Expressions/Chains and Expressions/Assembled, which relates its code to the assembler;
--   Compiler/Statements the statements without a body, from parseDeclaration to
--   parseSyscallStatement, with Statements/Slots and Statements/Growth (code and
--   symbol table); Compiler/Control
--   parseIfStatement, parseWhileStatement, parseFunctionCall, parseStatement and
--   parseStatementList, with Control/Growth and Control/Rounds; Compiler/Functions from
--   parseFunctionDefinition to compileSource, with Functions/Frames (the frame of a function).
-- Editor: the operations of edlin.cpp on the text in memory; Editor/Keyboard: readInputLine, with
--   Keyboard/Typing; Editor/Commands: the loop of main, and the states that it comes to;
--   Editor/Rows, Text, Files, Bounds, Invariant, Inside and Sessions hold the theorems.
-- Network: checkSum and netUDPSend of net.cpp, with Network/Checksum; Network/Receiving:
--   netUDPRcv, with Network/Exchange and Network/Delivery on packets that were sent.
-- Tests: concrete runs, on a drive held in memory and on small tables.
--
-- A C function of one name is one definition, in snake case: `initialize_task` is initializeTask.
-- A table in memory is a list, and reading past its end gives an entry of zeros. A C string is
-- the list of its character codes without the final zero.
--
-- Numbers are natural; a `uint32_t` that can wrap is reduced modulo 2^32. Loops with a fixed
-- number of rounds recur on the rounds left, with the bound of the source: 8 bits of a byte, the
-- bytes of a map, the entries of a table, 10 digits of a 32-bit number. A walk over a directory
-- recurs on BLOCK_SIZE rounds, since each goes at least one byte ahead, and a path on its length.
-- The loops of writeBufferToDisk recur on 13 and on the number of blocks of the buffer, which
-- their conditions do not exceed. The lines of a source are read on as many rounds as it has
-- characters (`source_lines_enough` in Lines/Bounds), comments are skipped on one round more than
-- that. A checksum of 32 bits is folded in two rounds (`fold_carry_lem` in Network/Checksum). The
-- loops of the compiler can be endless, so their rounds are an argument and running out of them
-- is a result of its own, as is the use of a variable that was never set. The compiler's arrays
-- have no checks: a state says whether something was written behind the end of one of them (a
-- token, an expression, the symbols, the function names, the output), and such a compilation has
-- no result. The busy wait for a
-- lock is one attempt: a lock that cannot be taken stays so while no other code runs, and the
-- function is then spinning.
--
-- Not modelled: the port I/O of a sector, which is the parameter `Device` with the hypotheses
-- that a sector has 512 bytes, is read back as written, and that writing it changes no other; the
-- functions whose bodies the repository leaves to the student (allocateFrame, freeAllFrames,
-- initializePageTables, scheduler, loadElfFile; requestAvailablePage, requestSpecificPage and
-- findBuffer, which are parameters of Syscalls/Opening and Syscalls/Tasks;
-- loadFileFromInodeStruct is the parameter `load_file` of Ext2/Files); the parts of createFile
-- outside the directory's bytes; the remaining handlers of syscalls.cpp; writeInodeEntry,
-- moveFile and deleteFile; interrupts, screen, sound, the keyboard driver, the registers of the
-- network card, boot loaders, main of the compiler and the other user programs.
pub mod Prelude
pub mod Editor
pub mod Network
pub mod Ext2
pub mod Disk
pub mod Semaphore
pub mod Kernel
pub mod Process
pub mod Objects
pub mod Frames
pub mod Libc
pub mod Tests
pub mod Heap
pub mod Assembler
pub mod Syscalls
pub mod Compiler
