-- ===== src/Abi/Dos/Stubs.antt =====
-- The stubs with a fixed number of arguments of targets/m68k-amigaos/include/inline/dos_protos.h.
use amiga_dev.Common.{[], ◌∷◌, ◌++◌}
use amiga_dev.Abi.{d, a, Stub, stub, in_order, Table}

-- `Open` to `UnLockRecords`.
unfoldable pub stubs_open_to_unlockrecords : Table Stub
stubs_open_to_unlockrecords =
    ("Open", stub 30 (in_order (d 1 ∷ d 2 ∷ [])))
    ∷ ("Close", stub 36 (in_order (d 1 ∷ [])))
    ∷ ("Read", stub 42 (in_order (d 1 ∷ d 2 ∷ d 3 ∷ [])))
    ∷ ("Write", stub 48 (in_order (d 1 ∷ d 2 ∷ d 3 ∷ [])))
    ∷ ("Input", stub 54 [])
    ∷ ("Output", stub 60 [])
    ∷ ("Seek", stub 66 (in_order (d 1 ∷ d 2 ∷ d 3 ∷ [])))
    ∷ ("DeleteFile", stub 72 (in_order (d 1 ∷ [])))
    ∷ ("Rename", stub 78 (in_order (d 1 ∷ d 2 ∷ [])))
    ∷ ("Lock", stub 84 (in_order (d 1 ∷ d 2 ∷ [])))
    ∷ ("UnLock", stub 90 (in_order (d 1 ∷ [])))
    ∷ ("DupLock", stub 96 (in_order (d 1 ∷ [])))
    ∷ ("Examine", stub 102 (in_order (d 1 ∷ d 2 ∷ [])))
    ∷ ("ExNext", stub 108 (in_order (d 1 ∷ d 2 ∷ [])))
    ∷ ("Info", stub 114 (in_order (d 1 ∷ d 2 ∷ [])))
    ∷ ("CreateDir", stub 120 (in_order (d 1 ∷ [])))
    ∷ ("CurrentDir", stub 126 (in_order (d 1 ∷ [])))
    ∷ ("IoErr", stub 132 [])
    ∷ ("CreateProc", stub 138 (in_order (d 1 ∷ d 2 ∷ d 3 ∷ d 4 ∷ [])))
    ∷ ("Exit", stub 144 (in_order (d 1 ∷ [])))
    ∷ ("LoadSeg", stub 150 (in_order (d 1 ∷ [])))
    ∷ ("UnLoadSeg", stub 156 (in_order (d 1 ∷ [])))
    ∷ ("DeviceProc", stub 174 (in_order (d 1 ∷ [])))
    ∷ ("SetComment", stub 180 (in_order (d 1 ∷ d 2 ∷ [])))
    ∷ ("SetProtection", stub 186 (in_order (d 1 ∷ d 2 ∷ [])))
    ∷ ("DateStamp", stub 192 (in_order (d 1 ∷ [])))
    ∷ ("Delay", stub 198 (in_order (d 1 ∷ [])))
    ∷ ("WaitForChar", stub 204 (in_order (d 1 ∷ d 2 ∷ [])))
    ∷ ("ParentDir", stub 210 (in_order (d 1 ∷ [])))
    ∷ ("IsInteractive", stub 216 (in_order (d 1 ∷ [])))
    ∷ ("Execute", stub 222 (in_order (d 1 ∷ d 2 ∷ d 3 ∷ [])))
    ∷ ("AllocDosObject", stub 228 (in_order (d 1 ∷ d 2 ∷ [])))
    ∷ ("FreeDosObject", stub 234 (in_order (d 1 ∷ d 2 ∷ [])))
    ∷ ("DoPkt", stub 240 (in_order (d 1 ∷ d 2 ∷ d 3 ∷ d 4 ∷ d 5 ∷ d 6 ∷ d 7 ∷ [])))
    ∷ ("DoPkt0", stub 240 (in_order (d 1 ∷ d 2 ∷ [])))
    ∷ ("DoPkt1", stub 240 (in_order (d 1 ∷ d 2 ∷ d 3 ∷ [])))
    ∷ ("DoPkt2", stub 240 (in_order (d 1 ∷ d 2 ∷ d 3 ∷ d 4 ∷ [])))
    ∷ ("DoPkt3", stub 240 (in_order (d 1 ∷ d 2 ∷ d 3 ∷ d 4 ∷ d 5 ∷ [])))
    ∷ ("DoPkt4", stub 240 (in_order (d 1 ∷ d 2 ∷ d 3 ∷ d 4 ∷ d 5 ∷ d 6 ∷ [])))
    ∷ ("SendPkt", stub 246 (in_order (d 1 ∷ d 2 ∷ d 3 ∷ [])))
    ∷ ("WaitPkt", stub 252 [])
    ∷ ("ReplyPkt", stub 258 (in_order (d 1 ∷ d 2 ∷ d 3 ∷ [])))
    ∷ ("AbortPkt", stub 264 (in_order (d 1 ∷ d 2 ∷ [])))
    ∷ ("LockRecord", stub 270 (in_order (d 1 ∷ d 2 ∷ d 3 ∷ d 4 ∷ d 5 ∷ [])))
    ∷ ("LockRecords", stub 276 (in_order (d 1 ∷ d 2 ∷ [])))
    ∷ ("UnLockRecord", stub 282 (in_order (d 1 ∷ d 2 ∷ d 3 ∷ [])))
    ∷ ("UnLockRecords", stub 288 (in_order (d 1 ∷ [])))
    ∷ []

-- `SelectInput` to `MaxCli`.
unfoldable pub stubs_selectinput_to_maxcli : Table Stub
stubs_selectinput_to_maxcli =
    ("SelectInput", stub 294 (in_order (d 1 ∷ [])))
    ∷ ("SelectOutput", stub 300 (in_order (d 1 ∷ [])))
    ∷ ("FGetC", stub 306 (in_order (d 1 ∷ [])))
    ∷ ("FPutC", stub 312 (in_order (d 1 ∷ d 2 ∷ [])))
    ∷ ("UnGetC", stub 318 (in_order (d 1 ∷ d 2 ∷ [])))
    ∷ ("FRead", stub 324 (in_order (d 1 ∷ d 2 ∷ d 3 ∷ d 4 ∷ [])))
    ∷ ("FWrite", stub 330 (in_order (d 1 ∷ d 2 ∷ d 3 ∷ d 4 ∷ [])))
    ∷ ("FGets", stub 336 (in_order (d 1 ∷ d 2 ∷ d 3 ∷ [])))
    ∷ ("FPuts", stub 342 (in_order (d 1 ∷ d 2 ∷ [])))
    ∷ ("VFWritef", stub 348 (in_order (d 1 ∷ d 2 ∷ d 3 ∷ [])))
    ∷ ("VFPrintf", stub 354 (in_order (d 1 ∷ d 2 ∷ d 3 ∷ [])))
    ∷ ("Flush", stub 360 (in_order (d 1 ∷ [])))
    ∷ ("SetVBuf", stub 366 (in_order (d 1 ∷ d 2 ∷ d 3 ∷ d 4 ∷ [])))
    ∷ ("DupLockFromFH", stub 372 (in_order (d 1 ∷ [])))
    ∷ ("OpenFromLock", stub 378 (in_order (d 1 ∷ [])))
    ∷ ("ParentOfFH", stub 384 (in_order (d 1 ∷ [])))
    ∷ ("ExamineFH", stub 390 (in_order (d 1 ∷ d 2 ∷ [])))
    ∷ ("SetFileDate", stub 396 (in_order (d 1 ∷ d 2 ∷ [])))
    ∷ ("NameFromLock", stub 402 (in_order (d 1 ∷ d 2 ∷ d 3 ∷ [])))
    ∷ ("NameFromFH", stub 408 (in_order (d 1 ∷ d 2 ∷ d 3 ∷ [])))
    ∷ ("SplitName", stub 414 (in_order (d 1 ∷ d 2 ∷ d 3 ∷ d 4 ∷ d 5 ∷ [])))
    ∷ ("SameLock", stub 420 (in_order (d 1 ∷ d 2 ∷ [])))
    ∷ ("SetMode", stub 426 (in_order (d 1 ∷ d 2 ∷ [])))
    ∷ ("ExAll", stub 432 (in_order (d 1 ∷ d 2 ∷ d 3 ∷ d 4 ∷ d 5 ∷ [])))
    ∷ ("ReadLink", stub 438 (in_order (d 1 ∷ d 2 ∷ d 3 ∷ d 4 ∷ d 5 ∷ [])))
    ∷ ("MakeLink", stub 444 (in_order (d 1 ∷ d 2 ∷ d 3 ∷ [])))
    ∷ ("ChangeMode", stub 450 (in_order (d 1 ∷ d 2 ∷ d 3 ∷ [])))
    ∷ ("SetFileSize", stub 456 (in_order (d 1 ∷ d 2 ∷ d 3 ∷ [])))
    ∷ ("SetIoErr", stub 462 (in_order (d 1 ∷ [])))
    ∷ ("Fault", stub 468 (in_order (d 1 ∷ d 2 ∷ d 3 ∷ d 4 ∷ [])))
    ∷ ("PrintFault", stub 474 (in_order (d 1 ∷ d 2 ∷ [])))
    ∷ ("ErrorReport", stub 480 (in_order (d 1 ∷ d 2 ∷ d 3 ∷ d 4 ∷ [])))
    ∷ ("Cli", stub 492 [])
    ∷ ("CreateNewProc", stub 498 (in_order (d 1 ∷ [])))
    ∷ ("RunCommand", stub 504 (in_order (d 1 ∷ d 2 ∷ d 3 ∷ d 4 ∷ [])))
    ∷ ("GetConsoleTask", stub 510 [])
    ∷ ("SetConsoleTask", stub 516 (in_order (d 1 ∷ [])))
    ∷ ("GetFileSysTask", stub 522 [])
    ∷ ("SetFileSysTask", stub 528 (in_order (d 1 ∷ [])))
    ∷ ("GetArgStr", stub 534 [])
    ∷ ("SetArgStr", stub 540 (in_order (d 1 ∷ [])))
    ∷ ("FindCliProc", stub 546 (in_order (d 1 ∷ [])))
    ∷ ("MaxCli", stub 552 [])
    ∷ []

-- `SetCurrentDirName` to `StrToLong`.
unfoldable pub stubs_setcurrentdirname_to_strtolong : Table Stub
stubs_setcurrentdirname_to_strtolong =
    ("SetCurrentDirName", stub 558 (in_order (d 1 ∷ [])))
    ∷ ("GetCurrentDirName", stub 564 (in_order (d 1 ∷ d 2 ∷ [])))
    ∷ ("SetProgramName", stub 570 (in_order (d 1 ∷ [])))
    ∷ ("GetProgramName", stub 576 (in_order (d 1 ∷ d 2 ∷ [])))
    ∷ ("SetPrompt", stub 582 (in_order (d 1 ∷ [])))
    ∷ ("GetPrompt", stub 588 (in_order (d 1 ∷ d 2 ∷ [])))
    ∷ ("SetProgramDir", stub 594 (in_order (d 1 ∷ [])))
    ∷ ("GetProgramDir", stub 600 [])
    ∷ ("SystemTagList", stub 606 (in_order (d 1 ∷ d 2 ∷ [])))
    ∷ ("AssignLock", stub 612 (in_order (d 1 ∷ d 2 ∷ [])))
    ∷ ("AssignLate", stub 618 (in_order (d 1 ∷ d 2 ∷ [])))
    ∷ ("AssignPath", stub 624 (in_order (d 1 ∷ d 2 ∷ [])))
    ∷ ("AssignAdd", stub 630 (in_order (d 1 ∷ d 2 ∷ [])))
    ∷ ("RemAssignList", stub 636 (in_order (d 1 ∷ d 2 ∷ [])))
    ∷ ("GetDeviceProc", stub 642 (in_order (d 1 ∷ d 2 ∷ [])))
    ∷ ("FreeDeviceProc", stub 648 (in_order (d 1 ∷ [])))
    ∷ ("LockDosList", stub 654 (in_order (d 1 ∷ [])))
    ∷ ("UnLockDosList", stub 660 (in_order (d 1 ∷ [])))
    ∷ ("AttemptLockDosList", stub 666 (in_order (d 1 ∷ [])))
    ∷ ("RemDosEntry", stub 672 (in_order (d 1 ∷ [])))
    ∷ ("AddDosEntry", stub 678 (in_order (d 1 ∷ [])))
    ∷ ("FindDosEntry", stub 684 (in_order (d 1 ∷ d 2 ∷ d 3 ∷ [])))
    ∷ ("NextDosEntry", stub 690 (in_order (d 1 ∷ d 2 ∷ [])))
    ∷ ("MakeDosEntry", stub 696 (in_order (d 1 ∷ d 2 ∷ [])))
    ∷ ("FreeDosEntry", stub 702 (in_order (d 1 ∷ [])))
    ∷ ("IsFileSystem", stub 708 (in_order (d 1 ∷ [])))
    ∷ ("Format", stub 714 (in_order (d 1 ∷ d 2 ∷ d 3 ∷ [])))
    ∷ ("Relabel", stub 720 (in_order (d 1 ∷ d 2 ∷ [])))
    ∷ ("Inhibit", stub 726 (in_order (d 1 ∷ d 2 ∷ [])))
    ∷ ("AddBuffers", stub 732 (in_order (d 1 ∷ d 2 ∷ [])))
    ∷ ("CompareDates", stub 738 (in_order (d 1 ∷ d 2 ∷ [])))
    ∷ ("DateToStr", stub 744 (in_order (d 1 ∷ [])))
    ∷ ("StrToDate", stub 750 (in_order (d 1 ∷ [])))
    ∷ ("InternalLoadSeg", stub 756 (in_order (d 0 ∷ a 0 ∷ a 1 ∷ a 2 ∷ [])))
    ∷ ("InternalUnLoadSeg", stub 762 (in_order (d 1 ∷ a 1 ∷ [])))
    ∷ ("NewLoadSeg", stub 768 (in_order (d 1 ∷ d 2 ∷ [])))
    ∷ ("AddSegment", stub 774 (in_order (d 1 ∷ d 2 ∷ d 3 ∷ [])))
    ∷ ("FindSegment", stub 780 (in_order (d 1 ∷ d 2 ∷ d 3 ∷ [])))
    ∷ ("RemSegment", stub 786 (in_order (d 1 ∷ [])))
    ∷ ("CheckSignal", stub 792 (in_order (d 1 ∷ [])))
    ∷ ("ReadArgs", stub 798 (in_order (d 1 ∷ d 2 ∷ d 3 ∷ [])))
    ∷ ("FindArg", stub 804 (in_order (d 1 ∷ d 2 ∷ [])))
    ∷ ("ReadItem", stub 810 (in_order (d 1 ∷ d 2 ∷ d 3 ∷ [])))
    ∷ ("StrToLong", stub 816 (in_order (d 1 ∷ d 2 ∷ [])))
    ∷ []

-- `MatchFirst` to `SetOwner`.
unfoldable pub stubs_matchfirst_to_setowner : Table Stub
stubs_matchfirst_to_setowner =
    ("MatchFirst", stub 822 (in_order (d 1 ∷ d 2 ∷ [])))
    ∷ ("MatchNext", stub 828 (in_order (d 1 ∷ [])))
    ∷ ("MatchEnd", stub 834 (in_order (d 1 ∷ [])))
    ∷ ("ParsePattern", stub 840 (in_order (d 1 ∷ d 2 ∷ d 3 ∷ [])))
    ∷ ("MatchPattern", stub 846 (in_order (d 1 ∷ d 2 ∷ [])))
    ∷ ("FreeArgs", stub 858 (in_order (d 1 ∷ [])))
    ∷ ("FilePart", stub 870 (in_order (d 1 ∷ [])))
    ∷ ("PathPart", stub 876 (in_order (d 1 ∷ [])))
    ∷ ("AddPart", stub 882 (in_order (d 1 ∷ d 2 ∷ d 3 ∷ [])))
    ∷ ("StartNotify", stub 888 (in_order (d 1 ∷ [])))
    ∷ ("EndNotify", stub 894 (in_order (d 1 ∷ [])))
    ∷ ("SetVar", stub 900 (in_order (d 1 ∷ d 2 ∷ d 3 ∷ d 4 ∷ [])))
    ∷ ("GetVar", stub 906 (in_order (d 1 ∷ d 2 ∷ d 3 ∷ d 4 ∷ [])))
    ∷ ("DeleteVar", stub 912 (in_order (d 1 ∷ d 2 ∷ [])))
    ∷ ("FindVar", stub 918 (in_order (d 1 ∷ d 2 ∷ [])))
    ∷ ("CliInitNewcli", stub 930 (in_order (a 0 ∷ [])))
    ∷ ("CliInitRun", stub 936 (in_order (a 0 ∷ [])))
    ∷ ("WriteChars", stub 942 (in_order (d 1 ∷ d 2 ∷ [])))
    ∷ ("PutStr", stub 948 (in_order (d 1 ∷ [])))
    ∷ ("VPrintf", stub 954 (in_order (d 1 ∷ d 2 ∷ [])))
    ∷ ("ParsePatternNoCase", stub 966 (in_order (d 1 ∷ d 2 ∷ d 3 ∷ [])))
    ∷ ("MatchPatternNoCase", stub 972 (in_order (d 1 ∷ d 2 ∷ [])))
    ∷ ("SameDevice", stub 984 (in_order (d 1 ∷ d 2 ∷ [])))
    ∷ ("ExAllEnd", stub 990 (in_order (d 1 ∷ d 2 ∷ d 3 ∷ d 4 ∷ d 5 ∷ [])))
    ∷ ("SetOwner", stub 996 (in_order (d 1 ∷ d 2 ∷ [])))
    ∷ []

unfoldable pub dos_stubs : Table Stub
unfolding stubs_open_to_unlockrecords stubs_selectinput_to_maxcli
    stubs_setcurrentdirname_to_strtolong stubs_matchfirst_to_setowner
dos_stubs =
    stubs_open_to_unlockrecords
    ++ (stubs_selectinput_to_maxcli
        ++ (stubs_setcurrentdirname_to_strtolong ++ stubs_matchfirst_to_setowner))
