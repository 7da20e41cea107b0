-- ===== src/Lib.antt =====
-- The code of the headers of targets/m68k-amigaos: C headers for AmigaOS and for the AmiTCP
-- network, whose routines are inline assembly, inline stubs of library calls and macros.
--
-- Parts:
--   * Machine and Machine/Run: the part of the 68000 that the inline assembly uses. A state has the
--     registers d0, d1, d2, a0, a1, three flags and a memory of bytes; `exec` is one instruction,
--     with the sizes and address errors of the processor, and `run` follows the program counter
--     through a list of instructions, `*+k` being counted from behind the branch's first word.
--   * StringAsm: targets/m68k-amigaos/include/string.h. A list of instructions per routine
--     (`strlen_code` for `__asm_strlen`), and `memmove_call` for the macro `memmove`. Each child
--     proves one routine; StringAsm/Tests runs them on a small memory. StringAsm/For68020 has the
--     variants for the 68020 (`memcpy_020_code` and so on), where `move_any` is the move of that
--     processor, which takes words and longs at any address.
--   * Abi: the calls of libraries. A stub is the loads and the vector offset of a function of
--     targets/m68k-amigaos/netinclude/inline/socket.h or include/inline/*_protos.h; a pragma is
--     an offset and a magic number of netinclude/pragmas/socket_pragmas.h or
--     ndk/include_h/pragmas/*_pragmas.h. Exec, Dos, Graphics and Intuition are a library each, and
--     Abi/Support has 23 smaller ones. `enter_stub` and `enter_pragma` give what the
--     library's function sees. Abi/Decode is about the reading of the magic numbers.
--   * ExecLists: the list macros of targets/m68k-amigaos/ndk/include_i/exec/lists.i, instruction by
--     instruction (`addhead_code` for `ADDHEAD`), and `IsListEmpty` of ndk/include_h/exec/lists.h.
--     ExecLists/Links says what a doubly linked list in memory is, and ExecLists/Calls compares
--     sequences of the macros with sequences of operations on a list of nodes.
--   * Layout: structures of targets/m68k-amigaos/ndk/include_h as lists of fields (`node_fields` for
--     `struct Node`), which `place` and `struct_of` lay out as C does on the 68000, where nothing is
--     aligned to more than a word; and the same structures of ndk/include_i as lines of macros
--     (`node_source`), which `assemble` expands as exec/types.i does. Layout/Agree compares them.
--   * Rstat: the statistics service of targets/m68k-amigaos/netinclude/rpcsvc/rstat_proc.c with the
--     replies of rstat.x. `Service` is the global variables, the union of the three replies being
--     an array of words that all of them read (`s1`, `s2`, `s3` in Rstat/Replies); `Kernel` stands
--     for the system calls. The functions have the names of the source.
--   * CharRead: the macros of targets/m68k-amigaos/netinclude/charread.h. `char_read` is `charRead`,
--     with the calls of `recv` taken from a list; `char_reads` is a number of calls.
--   * NameServer: `GETSHORT`, `GETLONG`, `PUTSHORT` and `PUTLONG` of
--     targets/m68k-amigaos/netinclude/arpa/nameser.h.
--
-- A routine of StringAsm or ExecLists returns when some fuel runs it to its end with no address
-- error (`Returns`). List headers and nodes are at even addresses above 0. Strings and areas
-- are assumed to end below 2^32, the end of the address space. In Rstat only the loop of
-- `setup` runs on fuel, one step more than the chain has interfaces being enough; `updatestat`
-- is bounded by `numintfs`, an `int` that is taken to be below 2^31, for want of room for more
-- interfaces in the address space. Words are numbers with their wrap-around at 2^32 written out, and a
-- failing process ends in `exit`. In CharRead an overflow of the counter is an outcome of
-- its own. Pointers in NameServer are numbers with no bound.
--
-- Not modelled: stubs with a variable number of arguments, the stubs of the double-precision math
-- libraries and of usergroup.library, the structures of libraries, prefs and workbench, structures
-- that only one of the two languages has or that differ (the structures that both have and that
-- the tables leave out are named at the top of Layout/Exec, Layout/Devices, Layout/Graphics and
-- Layout/Intuition), and headers that only declare constants and prototypes.
-- In Rstat the build options EXIT_WHEN_IDLE, DEBUG and vax are off. The supervisor state of the
-- processor and its time are not part of the model.

pub mod Common
pub mod Machine
pub mod StringAsm
pub mod Abi
pub mod CharRead
pub mod ExecLists
pub mod Layout
pub mod NameServer
pub mod Rstat
