-- ===== src/Lib.antt =====
-- A verification library for the C library of the Axiome toolchain, the code under sdk/src that user
-- programs are linked with. It holds the string and memory functions, an allocator over one static
-- array, the parsers of numbers and of the environment, formatted output, streams, and the wrappers of
-- the system calls, with which all of it reaches the kernel. strdup, calloc and realloc
-- stand on the allocator and on the memory functions; printf renders into a buffer of 256 bytes that it
-- empties by `write`, and snprintf into memory. A stream keeps no buffer: fgets and fputs
-- come down to one system call for each byte or block, fprintf renders by vsnprintf_internal, and fopen
-- takes its `FILE` from malloc.
--
-- The parts, and where they are modelled:
-- - Memory: bytes by address, pointers as addresses, null as 0; strings in memory.
-- - Strings: sdk/src/string.c. Copy (memcpy, memmove, memset), Scan (strlen, strchr, strrchr,
--   memchr), Compare (memcmp, strcmp, strncmp), Span (strspn, strcspn, strpbrk), Build (strcpy,
--   strcat, strncpy, strncat), Search (strstr), Token (strtok), Duplicate (strdup).
-- - Stdlib: sdk/src/stdlib.c. Heap (init_heap, split_block, merge_free_blocks, malloc, free), Alloc
--   (calloc, realloc), Client (these calls as a program sees them: a store of separate objects),
--   Number (atoi, atol), Environment (getenv), Process (exit, abort).
-- - Stdio: sdk/src/stdio.c. Buffer (flush, emit, emit_str), Digits (the digit loops), Format (the
--   loop over a format, which vprintf and vsnprintf_internal share), Snprintf (vsnprintf_internal,
--   snprintf, vsnprintf, sprintf), Printf (the width printers, vprintf, printf, puts), Console
--   (sequences of calls that print, with the writes they come down to), Streams (fread,
--   fwrite, fgets, fgetc, fputs, fputc, getchar, putchar, fprintf, feof, ferror, clearerr, fflush),
--   Opening (fopen, fclose).
-- - Time: sdk/src/time.c. The broken-down time, with Calendar, Printed and Before (times before 1970) on
--   time_to_tm, localtime, gmtime, asctime and ctime, and Clock (time, gettimeofday, sleep, usleep,
--   nanosleep).
-- - World: the variables of the library, memory and the kernel's state, which the parts below pass on.
-- - System: sdk/src/syscall.c. Call (syscall), Sys (the numbers of sdk/include/syscall_numbers.h), and
--   the wrappers in Files, Processes, Channels and Users; `open` is `open_file` there.
-- - Errno: sdk/src/errno.c (strerror_internal, perror). Signal: sdk/src/signal.c (sigaction, kill,
--   sigreturn). Util: sdk/include/util.h (ax_strerror, ax_mode_str, ax_join_path, ax_basename).
-- - Start: sdk/src/crt0.c (_start, instruction by instruction) and __axiome_set_environ.
-- - Filetest: examples/filetest.c, a program on write, malloc, strcpy, free and printf. Hello:
--   examples/hello.c.
-- - Base: shared names, Boolean tests, lists, integers. Examples: concrete inputs.
--
-- A function that changes memory takes it and returns it. A loop that ends at a byte or a pointer it
-- finds takes fuel, the number of rounds it may start, and returns `none` or `overrun` when it
-- runs out; the theorems name an amount that is enough, such as more than the length of the string or
-- more than the number of blocks. The array has room for 174762 blocks, so that 174763 rounds are enough
-- for every program. A loop that the source counts down is structural. The loop over a
-- format has one round for each of its bytes, and the digit loop 64, one for each bit. A format is the
-- list of its bytes up to the terminator; a step behind that is an `overrun`, as lack of fuel is.
--
-- Sizes are numbers below 2^64 and wrap around where the source's `size_t` does (`% 2 ^ 64`); `int` and
-- `long` are bit patterns. The headers of the allocator's blocks are kept by address, apart from the
-- bytes: a program that writes past its block and destroys a header is outside the model. The array
-- `heap` has 4 MiB at an address that is a parameter, with its end at least 16 bytes below 2^64. In a
-- call of a formatter the arguments are values, a string argument by its bytes, so a target that
-- overlaps an argument is outside the model too.
--
-- The kernel is not part of the repository. It is a function from a number, six arguments, memory and
-- its state to a result, memory and a state, and a theorem that rests on what it does names that as a
-- record: IsSource (a descriptor that read delivers bytes from), IsSink (one that write takes bytes at,
-- all or some, or fails), IsTerminal (one that takes all) and IsTable (descriptors that open takes and
-- close gives back). What compiled code leaves in the registers and on the stack is a parameter of
-- Start. A local variable whose address is passed on, and a string literal, stand at an
-- address that is a parameter. A `FILE` is kept by address, apart from the bytes, as a header is.
--
-- Not modelled: the loop of `hlt` behind the system call in exit and abort;
-- the trampoline of signal.c; the build scripts; the headers under sdk/tcc-host, which are another
-- project's.
pub mod Base
pub mod Memory
pub mod Strings
pub mod Stdlib
pub mod Stdio
pub mod Time
pub mod World
pub mod System
pub mod Util
pub mod Signal
pub mod Errno
pub mod Filetest
pub mod Hello
pub mod Start
pub mod Examples
