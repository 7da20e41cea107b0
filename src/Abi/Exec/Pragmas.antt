-- ===== src/Abi/Exec/Pragmas.antt =====
-- The `syscall` pragmas of targets/m68k-amigaos/ndk/include_h/pragmas/exec_pragmas.h.
use amiga_dev.Common.{[], ◌∷◌, ◌++◌}
use amiga_dev.Abi.{Pragma, pragma, Table}

-- `Supervisor` to `AllocTrap`.
unfoldable pub pragmas_supervisor_to_alloctrap : Table Pragma
pragmas_supervisor_to_alloctrap =
    ("Supervisor", pragma 0x1e 0xD01)
    ∷ ("InitCode", pragma 0x48 0x1002)
    ∷ ("InitStruct", pragma 0x4e 0x0A903)
    ∷ ("MakeLibrary", pragma 0x54 0x10A9805)
    ∷ ("MakeFunctions", pragma 0x5a 0xA9803)
    ∷ ("FindResident", pragma 0x60 0x901)
    ∷ ("InitResident", pragma 0x66 0x1902)
    ∷ ("Alert", pragma 0x6c 0x701)
    ∷ ("Debug", pragma 0x72 0x001)
    ∷ ("Disable", pragma 0x78 0x00)
    ∷ ("Enable", pragma 0x7e 0x00)
    ∷ ("Forbid", pragma 0x84 0x00)
    ∷ ("Permit", pragma 0x8a 0x00)
    ∷ ("SetSR", pragma 0x90 0x1002)
    ∷ ("SuperState", pragma 0x96 0x00)
    ∷ ("UserState", pragma 0x9c 0x001)
    ∷ ("SetIntVector", pragma 0xa2 0x9002)
    ∷ ("AddIntServer", pragma 0xa8 0x9002)
    ∷ ("RemIntServer", pragma 0xae 0x9002)
    ∷ ("Cause", pragma 0xb4 0x901)
    ∷ ("Allocate", pragma 0xba 0x0802)
    ∷ ("Deallocate", pragma 0xc0 0x09803)
    ∷ ("AllocMem", pragma 0xc6 0x1002)
    ∷ ("AllocAbs", pragma 0xcc 0x9002)
    ∷ ("FreeMem", pragma 0xd2 0x0902)
    ∷ ("AvailMem", pragma 0xd8 0x101)
    ∷ ("AllocEntry", pragma 0xde 0x801)
    ∷ ("FreeEntry", pragma 0xe4 0x801)
    ∷ ("Insert", pragma 0xea 0xA9803)
    ∷ ("AddHead", pragma 0xf0 0x9802)
    ∷ ("AddTail", pragma 0xf6 0x9802)
    ∷ ("Remove", pragma 0xfc 0x901)
    ∷ ("RemHead", pragma 0x102 0x801)
    ∷ ("RemTail", pragma 0x108 0x801)
    ∷ ("Enqueue", pragma 0x10e 0x9802)
    ∷ ("FindName", pragma 0x114 0x9802)
    ∷ ("AddTask", pragma 0x11a 0xBA903)
    ∷ ("RemTask", pragma 0x120 0x901)
    ∷ ("FindTask", pragma 0x126 0x901)
    ∷ ("SetTaskPri", pragma 0x12c 0x0902)
    ∷ ("SetSignal", pragma 0x132 0x1002)
    ∷ ("SetExcept", pragma 0x138 0x1002)
    ∷ ("Wait", pragma 0x13e 0x001)
    ∷ ("Signal", pragma 0x144 0x0902)
    ∷ ("AllocSignal", pragma 0x14a 0x001)
    ∷ ("FreeSignal", pragma 0x150 0x001)
    ∷ ("AllocTrap", pragma 0x156 0x001)
    ∷ []

-- `FreeTrap` to `CopyMemQuick`.
unfoldable pub pragmas_freetrap_to_copymemquick : Table Pragma
pragmas_freetrap_to_copymemquick =
    ("FreeTrap", pragma 0x15c 0x001)
    ∷ ("AddPort", pragma 0x162 0x901)
    ∷ ("RemPort", pragma 0x168 0x901)
    ∷ ("PutMsg", pragma 0x16e 0x9802)
    ∷ ("GetMsg", pragma 0x174 0x801)
    ∷ ("ReplyMsg", pragma 0x17a 0x901)
    ∷ ("WaitPort", pragma 0x180 0x801)
    ∷ ("FindPort", pragma 0x186 0x901)
    ∷ ("AddLibrary", pragma 0x18c 0x901)
    ∷ ("RemLibrary", pragma 0x192 0x901)
    ∷ ("OldOpenLibrary", pragma 0x198 0x901)
    ∷ ("CloseLibrary", pragma 0x19e 0x901)
    ∷ ("SetFunction", pragma 0x1a4 0x08903)
    ∷ ("SumLibrary", pragma 0x1aa 0x901)
    ∷ ("AddDevice", pragma 0x1b0 0x901)
    ∷ ("RemDevice", pragma 0x1b6 0x901)
    ∷ ("OpenDevice", pragma 0x1bc 0x190804)
    ∷ ("CloseDevice", pragma 0x1c2 0x901)
    ∷ ("DoIO", pragma 0x1c8 0x901)
    ∷ ("SendIO", pragma 0x1ce 0x901)
    ∷ ("CheckIO", pragma 0x1d4 0x901)
    ∷ ("WaitIO", pragma 0x1da 0x901)
    ∷ ("AbortIO", pragma 0x1e0 0x901)
    ∷ ("AddResource", pragma 0x1e6 0x901)
    ∷ ("RemResource", pragma 0x1ec 0x901)
    ∷ ("OpenResource", pragma 0x1f2 0x901)
    ∷ ("RawDoFmt", pragma 0x20a 0xBA9804)
    ∷ ("GetCC", pragma 0x210 0x00)
    ∷ ("TypeOfMem", pragma 0x216 0x901)
    ∷ ("Procure", pragma 0x21c 0x9802)
    ∷ ("Vacate", pragma 0x222 0x9802)
    ∷ ("OpenLibrary", pragma 0x228 0x0902)
    ∷ ("InitSemaphore", pragma 0x22e 0x801)
    ∷ ("ObtainSemaphore", pragma 0x234 0x801)
    ∷ ("ReleaseSemaphore", pragma 0x23a 0x801)
    ∷ ("AttemptSemaphore", pragma 0x240 0x801)
    ∷ ("ObtainSemaphoreList", pragma 0x246 0x801)
    ∷ ("ReleaseSemaphoreList", pragma 0x24c 0x801)
    ∷ ("FindSemaphore", pragma 0x252 0x901)
    ∷ ("AddSemaphore", pragma 0x258 0x901)
    ∷ ("RemSemaphore", pragma 0x25e 0x901)
    ∷ ("SumKickData", pragma 0x264 0x00)
    ∷ ("AddMemList", pragma 0x26a 0x9821005)
    ∷ ("CopyMem", pragma 0x270 0x09803)
    ∷ ("CopyMemQuick", pragma 0x276 0x09803)
    ∷ []

-- `CacheClearU` to `AVL_FindLastNode`.
unfoldable pub pragmas_cacheclearu_to_avl_findlastnode : Table Pragma
pragmas_cacheclearu_to_avl_findlastnode =
    ("CacheClearU", pragma 0x27c 0x00)
    ∷ ("CacheClearE", pragma 0x282 0x10803)
    ∷ ("CacheControl", pragma 0x288 0x1002)
    ∷ ("CreateIORequest", pragma 0x28e 0x0802)
    ∷ ("DeleteIORequest", pragma 0x294 0x801)
    ∷ ("CreateMsgPort", pragma 0x29a 0x00)
    ∷ ("DeleteMsgPort", pragma 0x2a0 0x801)
    ∷ ("ObtainSemaphoreShared", pragma 0x2a6 0x801)
    ∷ ("AllocVec", pragma 0x2ac 0x1002)
    ∷ ("FreeVec", pragma 0x2b2 0x901)
    ∷ ("CreatePool", pragma 0x2b8 0x21003)
    ∷ ("DeletePool", pragma 0x2be 0x801)
    ∷ ("AllocPooled", pragma 0x2c4 0x0802)
    ∷ ("FreePooled", pragma 0x2ca 0x09803)
    ∷ ("AttemptSemaphoreShared", pragma 0x2d0 0x801)
    ∷ ("ColdReboot", pragma 0x2d6 0x00)
    ∷ ("StackSwap", pragma 0x2dc 0x801)
    ∷ ("CachePreDMA", pragma 0x2fa 0x09803)
    ∷ ("CachePostDMA", pragma 0x300 0x09803)
    ∷ ("AddMemHandler", pragma 0x306 0x901)
    ∷ ("RemMemHandler", pragma 0x30c 0x901)
    ∷ ("ObtainQuickVector", pragma 0x312 0x801)
    ∷ ("NewMinList", pragma 0x33c 0x801)
    ∷ ("AVL_AddNode", pragma 0x354 0xA9803)
    ∷ ("AVL_RemNodeByAddress", pragma 0x35a 0x9802)
    ∷ ("AVL_RemNodeByKey", pragma 0x360 0xA9803)
    ∷ ("AVL_FindNode", pragma 0x366 0xA9803)
    ∷ ("AVL_FindPrevNodeByAddress", pragma 0x36c 0x801)
    ∷ ("AVL_FindPrevNodeByKey", pragma 0x372 0xA9803)
    ∷ ("AVL_FindNextNodeByAddress", pragma 0x378 0x801)
    ∷ ("AVL_FindNextNodeByKey", pragma 0x37e 0xA9803)
    ∷ ("AVL_FindFirstNode", pragma 0x384 0x801)
    ∷ ("AVL_FindLastNode", pragma 0x38a 0x801)
    ∷ []

unfoldable pub exec_pragmas : Table Pragma
unfolding pragmas_supervisor_to_alloctrap pragmas_freetrap_to_copymemquick
    pragmas_cacheclearu_to_avl_findlastnode
exec_pragmas =
    pragmas_supervisor_to_alloctrap
    ++ (pragmas_freetrap_to_copymemquick ++ pragmas_cacheclearu_to_avl_findlastnode)
