-- ===== src/Abi/Exec/Stubs.antt =====
-- The stubs with a fixed number of arguments of targets/m68k-amigaos/include/inline/exec_protos.h.
use amiga_dev.Common.{[], ◌∷◌, ◌++◌}
use amiga_dev.Abi.{d, a, Stub, stub, in_order, Table}

-- `Supervisor` to `AddPort`.
unfoldable pub stubs_supervisor_to_addport : Table Stub
stubs_supervisor_to_addport =
    ("Supervisor", stub 30 (in_order (a 5 ∷ [])))
    ∷ ("InitCode", stub 72 (in_order (d 0 ∷ d 1 ∷ [])))
    ∷ ("InitStruct", stub 78 (in_order (a 1 ∷ a 2 ∷ d 0 ∷ [])))
    ∷ ("MakeLibrary", stub 84 (in_order (a 0 ∷ a 1 ∷ a 2 ∷ d 0 ∷ d 1 ∷ [])))
    ∷ ("MakeFunctions", stub 90 (in_order (a 0 ∷ a 1 ∷ a 2 ∷ [])))
    ∷ ("FindResident", stub 96 (in_order (a 1 ∷ [])))
    ∷ ("InitResident", stub 102 (in_order (a 1 ∷ d 1 ∷ [])))
    ∷ ("Alert", stub 108 (in_order (d 7 ∷ [])))
    ∷ ("Debug", stub 114 (in_order (d 0 ∷ [])))
    ∷ ("Disable", stub 120 [])
    ∷ ("Enable", stub 126 [])
    ∷ ("Forbid", stub 132 [])
    ∷ ("Permit", stub 138 [])
    ∷ ("SetSR", stub 144 (in_order (d 0 ∷ d 1 ∷ [])))
    ∷ ("SuperState", stub 150 [])
    ∷ ("UserState", stub 156 (in_order (d 0 ∷ [])))
    ∷ ("SetIntVector", stub 162 (in_order (d 0 ∷ a 1 ∷ [])))
    ∷ ("AddIntServer", stub 168 (in_order (d 0 ∷ a 1 ∷ [])))
    ∷ ("RemIntServer", stub 174 (in_order (d 0 ∷ a 1 ∷ [])))
    ∷ ("Cause", stub 180 (in_order (a 1 ∷ [])))
    ∷ ("Allocate", stub 186 (in_order (a 0 ∷ d 0 ∷ [])))
    ∷ ("Deallocate", stub 192 (in_order (a 0 ∷ a 1 ∷ d 0 ∷ [])))
    ∷ ("AllocMem", stub 198 (in_order (d 0 ∷ d 1 ∷ [])))
    ∷ ("AllocAbs", stub 204 (in_order (d 0 ∷ a 1 ∷ [])))
    ∷ ("FreeMem", stub 210 (in_order (a 1 ∷ d 0 ∷ [])))
    ∷ ("AvailMem", stub 216 (in_order (d 1 ∷ [])))
    ∷ ("AllocEntry", stub 222 (in_order (a 0 ∷ [])))
    ∷ ("FreeEntry", stub 228 (in_order (a 0 ∷ [])))
    ∷ ("Insert", stub 234 (in_order (a 0 ∷ a 1 ∷ a 2 ∷ [])))
    ∷ ("AddHead", stub 240 (in_order (a 0 ∷ a 1 ∷ [])))
    ∷ ("AddTail", stub 246 (in_order (a 0 ∷ a 1 ∷ [])))
    ∷ ("Remove", stub 252 (in_order (a 1 ∷ [])))
    ∷ ("RemHead", stub 258 (in_order (a 0 ∷ [])))
    ∷ ("RemTail", stub 264 (in_order (a 0 ∷ [])))
    ∷ ("Enqueue", stub 270 (in_order (a 0 ∷ a 1 ∷ [])))
    ∷ ("FindName", stub 276 (in_order (a 0 ∷ a 1 ∷ [])))
    ∷ ("AddTask", stub 282 (in_order (a 1 ∷ a 2 ∷ a 3 ∷ [])))
    ∷ ("RemTask", stub 288 (in_order (a 1 ∷ [])))
    ∷ ("FindTask", stub 294 (in_order (a 1 ∷ [])))
    ∷ ("SetTaskPri", stub 300 (in_order (a 1 ∷ d 0 ∷ [])))
    ∷ ("SetSignal", stub 306 (in_order (d 0 ∷ d 1 ∷ [])))
    ∷ ("SetExcept", stub 312 (in_order (d 0 ∷ d 1 ∷ [])))
    ∷ ("Wait", stub 318 (in_order (d 0 ∷ [])))
    ∷ ("Signal", stub 324 (in_order (a 1 ∷ d 0 ∷ [])))
    ∷ ("AllocSignal", stub 330 (in_order (d 0 ∷ [])))
    ∷ ("FreeSignal", stub 336 (in_order (d 0 ∷ [])))
    ∷ ("AllocTrap", stub 342 (in_order (d 0 ∷ [])))
    ∷ ("FreeTrap", stub 348 (in_order (d 0 ∷ [])))
    ∷ ("AddPort", stub 354 (in_order (a 1 ∷ [])))
    ∷ []

-- `RemPort` to `CreateMsgPort`.
unfoldable pub stubs_remport_to_createmsgport : Table Stub
stubs_remport_to_createmsgport =
    ("RemPort", stub 360 (in_order (a 1 ∷ [])))
    ∷ ("PutMsg", stub 366 (in_order (a 0 ∷ a 1 ∷ [])))
    ∷ ("GetMsg", stub 372 (in_order (a 0 ∷ [])))
    ∷ ("ReplyMsg", stub 378 (in_order (a 1 ∷ [])))
    ∷ ("WaitPort", stub 384 (in_order (a 0 ∷ [])))
    ∷ ("FindPort", stub 390 (in_order (a 1 ∷ [])))
    ∷ ("AddLibrary", stub 396 (in_order (a 1 ∷ [])))
    ∷ ("RemLibrary", stub 402 (in_order (a 1 ∷ [])))
    ∷ ("OldOpenLibrary", stub 408 (in_order (a 1 ∷ [])))
    ∷ ("CloseLibrary", stub 414 (in_order (a 1 ∷ [])))
    ∷ ("SetFunction", stub 420 (in_order (a 1 ∷ a 0 ∷ d 0 ∷ [])))
    ∷ ("SumLibrary", stub 426 (in_order (a 1 ∷ [])))
    ∷ ("AddDevice", stub 432 (in_order (a 1 ∷ [])))
    ∷ ("RemDevice", stub 438 (in_order (a 1 ∷ [])))
    ∷ ("OpenDevice", stub 444 (in_order (a 0 ∷ d 0 ∷ a 1 ∷ d 1 ∷ [])))
    ∷ ("CloseDevice", stub 450 (in_order (a 1 ∷ [])))
    ∷ ("DoIO", stub 456 (in_order (a 1 ∷ [])))
    ∷ ("SendIO", stub 462 (in_order (a 1 ∷ [])))
    ∷ ("CheckIO", stub 468 (in_order (a 1 ∷ [])))
    ∷ ("WaitIO", stub 474 (in_order (a 1 ∷ [])))
    ∷ ("AbortIO", stub 480 (in_order (a 1 ∷ [])))
    ∷ ("AddResource", stub 486 (in_order (a 1 ∷ [])))
    ∷ ("RemResource", stub 492 (in_order (a 1 ∷ [])))
    ∷ ("OpenResource", stub 498 (in_order (a 1 ∷ [])))
    ∷ ("RawDoFmt", stub 522 (in_order (a 0 ∷ a 1 ∷ a 2 ∷ a 3 ∷ [])))
    ∷ ("GetCC", stub 528 [])
    ∷ ("TypeOfMem", stub 534 (in_order (a 1 ∷ [])))
    ∷ ("Procure", stub 540 (in_order (a 0 ∷ a 1 ∷ [])))
    ∷ ("Vacate", stub 546 (in_order (a 0 ∷ a 1 ∷ [])))
    ∷ ("OpenLibrary", stub 552 (in_order (a 1 ∷ d 0 ∷ [])))
    ∷ ("InitSemaphore", stub 558 (in_order (a 0 ∷ [])))
    ∷ ("ObtainSemaphore", stub 564 (in_order (a 0 ∷ [])))
    ∷ ("ReleaseSemaphore", stub 570 (in_order (a 0 ∷ [])))
    ∷ ("AttemptSemaphore", stub 576 (in_order (a 0 ∷ [])))
    ∷ ("ObtainSemaphoreList", stub 582 (in_order (a 0 ∷ [])))
    ∷ ("ReleaseSemaphoreList", stub 588 (in_order (a 0 ∷ [])))
    ∷ ("FindSemaphore", stub 594 (in_order (a 1 ∷ [])))
    ∷ ("AddSemaphore", stub 600 (in_order (a 1 ∷ [])))
    ∷ ("RemSemaphore", stub 606 (in_order (a 1 ∷ [])))
    ∷ ("SumKickData", stub 612 [])
    ∷ ("AddMemList", stub 618 (in_order (d 0 ∷ d 1 ∷ d 2 ∷ a 0 ∷ a 1 ∷ [])))
    ∷ ("CopyMem", stub 624 (in_order (a 0 ∷ a 1 ∷ d 0 ∷ [])))
    ∷ ("CopyMemQuick", stub 630 (in_order (a 0 ∷ a 1 ∷ d 0 ∷ [])))
    ∷ ("CacheClearU", stub 636 [])
    ∷ ("CacheClearE", stub 642 (in_order (a 0 ∷ d 0 ∷ d 1 ∷ [])))
    ∷ ("CacheControl", stub 648 (in_order (d 0 ∷ d 1 ∷ [])))
    ∷ ("CreateIORequest", stub 654 (in_order (a 0 ∷ d 0 ∷ [])))
    ∷ ("DeleteIORequest", stub 660 (in_order (a 0 ∷ [])))
    ∷ ("CreateMsgPort", stub 666 [])
    ∷ []

-- `DeleteMsgPort` to `AVL_FindLastNode`.
unfoldable pub stubs_deletemsgport_to_avl_findlastnode : Table Stub
stubs_deletemsgport_to_avl_findlastnode =
    ("DeleteMsgPort", stub 672 (in_order (a 0 ∷ [])))
    ∷ ("ObtainSemaphoreShared", stub 678 (in_order (a 0 ∷ [])))
    ∷ ("AllocVec", stub 684 (in_order (d 0 ∷ d 1 ∷ [])))
    ∷ ("FreeVec", stub 690 (in_order (a 1 ∷ [])))
    ∷ ("CreatePool", stub 696 (in_order (d 0 ∷ d 1 ∷ d 2 ∷ [])))
    ∷ ("DeletePool", stub 702 (in_order (a 0 ∷ [])))
    ∷ ("AllocPooled", stub 708 (in_order (a 0 ∷ d 0 ∷ [])))
    ∷ ("FreePooled", stub 714 (in_order (a 0 ∷ a 1 ∷ d 0 ∷ [])))
    ∷ ("AttemptSemaphoreShared", stub 720 (in_order (a 0 ∷ [])))
    ∷ ("ColdReboot", stub 726 [])
    ∷ ("StackSwap", stub 732 (in_order (a 0 ∷ [])))
    ∷ ("CachePreDMA", stub 762 (in_order (a 0 ∷ a 1 ∷ d 0 ∷ [])))
    ∷ ("CachePostDMA", stub 768 (in_order (a 0 ∷ a 1 ∷ d 0 ∷ [])))
    ∷ ("AddMemHandler", stub 774 (in_order (a 1 ∷ [])))
    ∷ ("RemMemHandler", stub 780 (in_order (a 1 ∷ [])))
    ∷ ("ObtainQuickVector", stub 786 (in_order (a 0 ∷ [])))
    ∷ ("NewMinList", stub 828 (in_order (a 0 ∷ [])))
    ∷ ("AVL_AddNode", stub 852 (in_order (a 0 ∷ a 1 ∷ a 2 ∷ [])))
    ∷ ("AVL_RemNodeByAddress", stub 858 (in_order (a 0 ∷ a 1 ∷ [])))
    ∷ ("AVL_RemNodeByKey", stub 864 (in_order (a 0 ∷ a 1 ∷ a 2 ∷ [])))
    ∷ ("AVL_FindNode", stub 870 (in_order (a 0 ∷ a 1 ∷ a 2 ∷ [])))
    ∷ ("AVL_FindPrevNodeByAddress", stub 876 (in_order (a 0 ∷ [])))
    ∷ ("AVL_FindPrevNodeByKey", stub 882 (in_order (a 0 ∷ a 1 ∷ a 2 ∷ [])))
    ∷ ("AVL_FindNextNodeByAddress", stub 888 (in_order (a 0 ∷ [])))
    ∷ ("AVL_FindNextNodeByKey", stub 894 (in_order (a 0 ∷ a 1 ∷ a 2 ∷ [])))
    ∷ ("AVL_FindFirstNode", stub 900 (in_order (a 0 ∷ [])))
    ∷ ("AVL_FindLastNode", stub 906 (in_order (a 0 ∷ [])))
    ∷ []

unfoldable pub exec_stubs : Table Stub
unfolding stubs_supervisor_to_addport stubs_remport_to_createmsgport
    stubs_deletemsgport_to_avl_findlastnode
exec_stubs =
    stubs_supervisor_to_addport
    ++ (stubs_remport_to_createmsgport ++ stubs_deletemsgport_to_avl_findlastnode)
