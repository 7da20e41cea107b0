-- ===== src/Abi/Dos/Pragmas.antt =====
-- The `libcall` pragmas of targets/m68k-amigaos/ndk/include_h/pragmas/dos_pragmas.h.
use amiga_dev.Common.{[], ◌∷◌, ◌++◌}
use amiga_dev.Abi.{Pragma, pragma, Table}

-- `Open` to `LockRecords`.
unfoldable pub pragmas_open_to_lockrecords : Table Pragma
pragmas_open_to_lockrecords =
    ("Open", pragma 0x1e 0x2102)
    ∷ ("Close", pragma 0x24 0x101)
    ∷ ("Read", pragma 0x2a 0x32103)
    ∷ ("Write", pragma 0x30 0x32103)
    ∷ ("Input", pragma 0x36 0x00)
    ∷ ("Output", pragma 0x3c 0x00)
    ∷ ("Seek", pragma 0x42 0x32103)
    ∷ ("DeleteFile", pragma 0x48 0x101)
    ∷ ("Rename", pragma 0x4e 0x2102)
    ∷ ("Lock", pragma 0x54 0x2102)
    ∷ ("UnLock", pragma 0x5a 0x101)
    ∷ ("DupLock", pragma 0x60 0x101)
    ∷ ("Examine", pragma 0x66 0x2102)
    ∷ ("ExNext", pragma 0x6c 0x2102)
    ∷ ("Info", pragma 0x72 0x2102)
    ∷ ("CreateDir", pragma 0x78 0x101)
    ∷ ("CurrentDir", pragma 0x7e 0x101)
    ∷ ("IoErr", pragma 0x84 0x00)
    ∷ ("CreateProc", pragma 0x8a 0x432104)
    ∷ ("Exit", pragma 0x90 0x101)
    ∷ ("LoadSeg", pragma 0x96 0x101)
    ∷ ("UnLoadSeg", pragma 0x9c 0x101)
    ∷ ("DeviceProc", pragma 0xae 0x101)
    ∷ ("SetComment", pragma 0xb4 0x2102)
    ∷ ("SetProtection", pragma 0xba 0x2102)
    ∷ ("DateStamp", pragma 0xc0 0x101)
    ∷ ("Delay", pragma 0xc6 0x101)
    ∷ ("WaitForChar", pragma 0xcc 0x2102)
    ∷ ("ParentDir", pragma 0xd2 0x101)
    ∷ ("IsInteractive", pragma 0xd8 0x101)
    ∷ ("Execute", pragma 0xde 0x32103)
    ∷ ("AllocDosObject", pragma 0xe4 0x2102)
    ∷ ("AllocDosObjectTagList", pragma 0xe4 0x2102)
    ∷ ("FreeDosObject", pragma 0xea 0x2102)
    ∷ ("DoPkt", pragma 0xf0 0x765432107)
    ∷ ("DoPkt0", pragma 0xf0 0x2102)
    ∷ ("DoPkt1", pragma 0xf0 0x32103)
    ∷ ("DoPkt2", pragma 0xf0 0x432104)
    ∷ ("DoPkt3", pragma 0xf0 0x5432105)
    ∷ ("DoPkt4", pragma 0xf0 0x65432106)
    ∷ ("SendPkt", pragma 0xf6 0x32103)
    ∷ ("WaitPkt", pragma 0xfc 0x00)
    ∷ ("ReplyPkt", pragma 0x102 0x32103)
    ∷ ("AbortPkt", pragma 0x108 0x2102)
    ∷ ("LockRecord", pragma 0x10e 0x5432105)
    ∷ ("LockRecords", pragma 0x114 0x2102)
    ∷ []

-- `UnLockRecord` to `SetFileSysTask`.
unfoldable pub pragmas_unlockrecord_to_setfilesystask : Table Pragma
pragmas_unlockrecord_to_setfilesystask =
    ("UnLockRecord", pragma 0x11a 0x32103)
    ∷ ("UnLockRecords", pragma 0x120 0x101)
    ∷ ("SelectInput", pragma 0x126 0x101)
    ∷ ("SelectOutput", pragma 0x12c 0x101)
    ∷ ("FGetC", pragma 0x132 0x101)
    ∷ ("FPutC", pragma 0x138 0x2102)
    ∷ ("UnGetC", pragma 0x13e 0x2102)
    ∷ ("FRead", pragma 0x144 0x432104)
    ∷ ("FWrite", pragma 0x14a 0x432104)
    ∷ ("FGets", pragma 0x150 0x32103)
    ∷ ("FPuts", pragma 0x156 0x2102)
    ∷ ("VFWritef", pragma 0x15c 0x32103)
    ∷ ("VFPrintf", pragma 0x162 0x32103)
    ∷ ("Flush", pragma 0x168 0x101)
    ∷ ("SetVBuf", pragma 0x16e 0x432104)
    ∷ ("DupLockFromFH", pragma 0x174 0x101)
    ∷ ("OpenFromLock", pragma 0x17a 0x101)
    ∷ ("ParentOfFH", pragma 0x180 0x101)
    ∷ ("ExamineFH", pragma 0x186 0x2102)
    ∷ ("SetFileDate", pragma 0x18c 0x2102)
    ∷ ("NameFromLock", pragma 0x192 0x32103)
    ∷ ("NameFromFH", pragma 0x198 0x32103)
    ∷ ("SplitName", pragma 0x19e 0x5432105)
    ∷ ("SameLock", pragma 0x1a4 0x2102)
    ∷ ("SetMode", pragma 0x1aa 0x2102)
    ∷ ("ExAll", pragma 0x1b0 0x5432105)
    ∷ ("ReadLink", pragma 0x1b6 0x5432105)
    ∷ ("MakeLink", pragma 0x1bc 0x32103)
    ∷ ("ChangeMode", pragma 0x1c2 0x32103)
    ∷ ("SetFileSize", pragma 0x1c8 0x32103)
    ∷ ("SetIoErr", pragma 0x1ce 0x101)
    ∷ ("Fault", pragma 0x1d4 0x432104)
    ∷ ("PrintFault", pragma 0x1da 0x2102)
    ∷ ("ErrorReport", pragma 0x1e0 0x432104)
    ∷ ("Cli", pragma 0x1ec 0x00)
    ∷ ("CreateNewProc", pragma 0x1f2 0x101)
    ∷ ("CreateNewProcTagList", pragma 0x1f2 0x101)
    ∷ ("RunCommand", pragma 0x1f8 0x432104)
    ∷ ("GetConsoleTask", pragma 0x1fe 0x00)
    ∷ ("SetConsoleTask", pragma 0x204 0x101)
    ∷ ("GetFileSysTask", pragma 0x20a 0x00)
    ∷ ("SetFileSysTask", pragma 0x210 0x101)
    ∷ []

-- `GetArgStr` to `FindSegment`.
unfoldable pub pragmas_getargstr_to_findsegment : Table Pragma
pragmas_getargstr_to_findsegment =
    ("GetArgStr", pragma 0x216 0x00)
    ∷ ("SetArgStr", pragma 0x21c 0x101)
    ∷ ("FindCliProc", pragma 0x222 0x101)
    ∷ ("MaxCli", pragma 0x228 0x00)
    ∷ ("SetCurrentDirName", pragma 0x22e 0x101)
    ∷ ("GetCurrentDirName", pragma 0x234 0x2102)
    ∷ ("SetProgramName", pragma 0x23a 0x101)
    ∷ ("GetProgramName", pragma 0x240 0x2102)
    ∷ ("SetPrompt", pragma 0x246 0x101)
    ∷ ("GetPrompt", pragma 0x24c 0x2102)
    ∷ ("SetProgramDir", pragma 0x252 0x101)
    ∷ ("GetProgramDir", pragma 0x258 0x00)
    ∷ ("SystemTagList", pragma 0x25e 0x2102)
    ∷ ("System", pragma 0x25e 0x2102)
    ∷ ("AssignLock", pragma 0x264 0x2102)
    ∷ ("AssignLate", pragma 0x26a 0x2102)
    ∷ ("AssignPath", pragma 0x270 0x2102)
    ∷ ("AssignAdd", pragma 0x276 0x2102)
    ∷ ("RemAssignList", pragma 0x27c 0x2102)
    ∷ ("GetDeviceProc", pragma 0x282 0x2102)
    ∷ ("FreeDeviceProc", pragma 0x288 0x101)
    ∷ ("LockDosList", pragma 0x28e 0x101)
    ∷ ("UnLockDosList", pragma 0x294 0x101)
    ∷ ("AttemptLockDosList", pragma 0x29a 0x101)
    ∷ ("RemDosEntry", pragma 0x2a0 0x101)
    ∷ ("AddDosEntry", pragma 0x2a6 0x101)
    ∷ ("FindDosEntry", pragma 0x2ac 0x32103)
    ∷ ("NextDosEntry", pragma 0x2b2 0x2102)
    ∷ ("MakeDosEntry", pragma 0x2b8 0x2102)
    ∷ ("FreeDosEntry", pragma 0x2be 0x101)
    ∷ ("IsFileSystem", pragma 0x2c4 0x101)
    ∷ ("Format", pragma 0x2ca 0x32103)
    ∷ ("Relabel", pragma 0x2d0 0x2102)
    ∷ ("Inhibit", pragma 0x2d6 0x2102)
    ∷ ("AddBuffers", pragma 0x2dc 0x2102)
    ∷ ("CompareDates", pragma 0x2e2 0x2102)
    ∷ ("DateToStr", pragma 0x2e8 0x101)
    ∷ ("StrToDate", pragma 0x2ee 0x101)
    ∷ ("InternalLoadSeg", pragma 0x2f4 0xA98004)
    ∷ ("InternalUnLoadSeg", pragma 0x2fa 0x9102)
    ∷ ("NewLoadSeg", pragma 0x300 0x2102)
    ∷ ("NewLoadSegTagList", pragma 0x300 0x2102)
    ∷ ("AddSegment", pragma 0x306 0x32103)
    ∷ ("FindSegment", pragma 0x30c 0x32103)
    ∷ []

-- `RemSegment` to `SetOwner`.
unfoldable pub pragmas_remsegment_to_setowner : Table Pragma
pragmas_remsegment_to_setowner =
    ("RemSegment", pragma 0x312 0x101)
    ∷ ("CheckSignal", pragma 0x318 0x101)
    ∷ ("ReadArgs", pragma 0x31e 0x32103)
    ∷ ("FindArg", pragma 0x324 0x2102)
    ∷ ("ReadItem", pragma 0x32a 0x32103)
    ∷ ("StrToLong", pragma 0x330 0x2102)
    ∷ ("MatchFirst", pragma 0x336 0x2102)
    ∷ ("MatchNext", pragma 0x33c 0x101)
    ∷ ("MatchEnd", pragma 0x342 0x101)
    ∷ ("ParsePattern", pragma 0x348 0x32103)
    ∷ ("MatchPattern", pragma 0x34e 0x2102)
    ∷ ("FreeArgs", pragma 0x35a 0x101)
    ∷ ("FilePart", pragma 0x366 0x101)
    ∷ ("PathPart", pragma 0x36c 0x101)
    ∷ ("AddPart", pragma 0x372 0x32103)
    ∷ ("StartNotify", pragma 0x378 0x101)
    ∷ ("EndNotify", pragma 0x37e 0x101)
    ∷ ("SetVar", pragma 0x384 0x432104)
    ∷ ("GetVar", pragma 0x38a 0x432104)
    ∷ ("DeleteVar", pragma 0x390 0x2102)
    ∷ ("FindVar", pragma 0x396 0x2102)
    ∷ ("CliInitNewcli", pragma 0x3a2 0x801)
    ∷ ("CliInitRun", pragma 0x3a8 0x801)
    ∷ ("WriteChars", pragma 0x3ae 0x2102)
    ∷ ("PutStr", pragma 0x3b4 0x101)
    ∷ ("VPrintf", pragma 0x3ba 0x2102)
    ∷ ("ParsePatternNoCase", pragma 0x3c6 0x32103)
    ∷ ("MatchPatternNoCase", pragma 0x3cc 0x2102)
    ∷ ("SameDevice", pragma 0x3d8 0x2102)
    ∷ ("ExAllEnd", pragma 0x3de 0x5432105)
    ∷ ("SetOwner", pragma 0x3e4 0x2102)
    ∷ []

unfoldable pub dos_pragmas : Table Pragma
unfolding pragmas_open_to_lockrecords pragmas_unlockrecord_to_setfilesystask
    pragmas_getargstr_to_findsegment pragmas_remsegment_to_setowner
dos_pragmas =
    pragmas_open_to_lockrecords
    ++ (pragmas_unlockrecord_to_setfilesystask
        ++ (pragmas_getargstr_to_findsegment ++ pragmas_remsegment_to_setowner))
