-- ===== src/Abi/Intuition/Pragmas.antt =====
-- The `libcall` pragmas of targets/m68k-amigaos/ndk/include_h/pragmas/intuition_pragmas.h.
use amiga_dev.Common.{[], ◌∷◌, ◌++◌}
use amiga_dev.Abi.{Pragma, pragma, Table}

-- `OpenIntuition` to `WindowToFront`.
unfoldable pub pragmas_openintuition_to_windowtofront : Table Pragma
pragmas_openintuition_to_windowtofront =
    ("OpenIntuition", pragma 0x1e 0x00)
    ∷ ("Intuition", pragma 0x24 0x801)
    ∷ ("AddGadget", pragma 0x2a 0x09803)
    ∷ ("ClearDMRequest", pragma 0x30 0x801)
    ∷ ("ClearMenuStrip", pragma 0x36 0x801)
    ∷ ("ClearPointer", pragma 0x3c 0x801)
    ∷ ("CloseScreen", pragma 0x42 0x801)
    ∷ ("CloseWindow", pragma 0x48 0x801)
    ∷ ("CloseWorkBench", pragma 0x4e 0x00)
    ∷ ("CurrentTime", pragma 0x54 0x9802)
    ∷ ("DisplayAlert", pragma 0x5a 0x18003)
    ∷ ("DisplayBeep", pragma 0x60 0x801)
    ∷ ("DoubleClick", pragma 0x66 0x321004)
    ∷ ("DrawBorder", pragma 0x6c 0x109804)
    ∷ ("DrawImage", pragma 0x72 0x109804)
    ∷ ("EndRequest", pragma 0x78 0x9802)
    ∷ ("GetDefPrefs", pragma 0x7e 0x0802)
    ∷ ("GetPrefs", pragma 0x84 0x0802)
    ∷ ("InitRequester", pragma 0x8a 0x801)
    ∷ ("ItemAddress", pragma 0x90 0x0802)
    ∷ ("ModifyIDCMP", pragma 0x96 0x0802)
    ∷ ("ModifyProp", pragma 0x9c 0x43210A9808)
    ∷ ("MoveScreen", pragma 0xa2 0x10803)
    ∷ ("MoveWindow", pragma 0xa8 0x10803)
    ∷ ("OffGadget", pragma 0xae 0xA9803)
    ∷ ("OffMenu", pragma 0xb4 0x0802)
    ∷ ("OnGadget", pragma 0xba 0xA9803)
    ∷ ("OnMenu", pragma 0xc0 0x0802)
    ∷ ("OpenScreen", pragma 0xc6 0x801)
    ∷ ("OpenWindow", pragma 0xcc 0x801)
    ∷ ("OpenWorkBench", pragma 0xd2 0x00)
    ∷ ("PrintIText", pragma 0xd8 0x109804)
    ∷ ("RefreshGadgets", pragma 0xde 0xA9803)
    ∷ ("RemoveGadget", pragma 0xe4 0x9802)
    ∷ ("ReportMouse", pragma 0xea 0x8002)
    ∷ ("ReportMouse1", pragma 0xea 0x0802)
    ∷ ("Request", pragma 0xf0 0x9802)
    ∷ ("ScreenToBack", pragma 0xf6 0x801)
    ∷ ("ScreenToFront", pragma 0xfc 0x801)
    ∷ ("SetDMRequest", pragma 0x102 0x9802)
    ∷ ("SetMenuStrip", pragma 0x108 0x9802)
    ∷ ("SetPointer", pragma 0x10e 0x32109806)
    ∷ ("SetWindowTitles", pragma 0x114 0xA9803)
    ∷ ("ShowTitle", pragma 0x11a 0x0802)
    ∷ ("SizeWindow", pragma 0x120 0x10803)
    ∷ ("ViewAddress", pragma 0x126 0x00)
    ∷ ("ViewPortAddress", pragma 0x12c 0x801)
    ∷ ("WindowToBack", pragma 0x132 0x801)
    ∷ ("WindowToFront", pragma 0x138 0x801)
    ∷ []

-- `WindowLimits` to `BuildEasyRequestArgs`.
unfoldable pub pragmas_windowlimits_to_buildeasyrequestargs : Table Pragma
pragmas_windowlimits_to_buildeasyrequestargs =
    ("WindowLimits", pragma 0x13e 0x3210805)
    ∷ ("SetPrefs", pragma 0x144 0x10803)
    ∷ ("IntuiTextLength", pragma 0x14a 0x801)
    ∷ ("WBenchToBack", pragma 0x150 0x00)
    ∷ ("WBenchToFront", pragma 0x156 0x00)
    ∷ ("AutoRequest", pragma 0x15c 0x3210BA9808)
    ∷ ("BeginRefresh", pragma 0x162 0x801)
    ∷ ("BuildSysRequest", pragma 0x168 0x210BA9807)
    ∷ ("EndRefresh", pragma 0x16e 0x0802)
    ∷ ("FreeSysRequest", pragma 0x174 0x801)
    ∷ ("MakeScreen", pragma 0x17a 0x801)
    ∷ ("RemakeDisplay", pragma 0x180 0x00)
    ∷ ("RethinkDisplay", pragma 0x186 0x00)
    ∷ ("AllocRemember", pragma 0x18c 0x10803)
    ∷ ("FreeRemember", pragma 0x198 0x0802)
    ∷ ("LockIBase", pragma 0x19e 0x001)
    ∷ ("UnlockIBase", pragma 0x1a4 0x801)
    ∷ ("GetScreenData", pragma 0x1aa 0x910804)
    ∷ ("RefreshGList", pragma 0x1b0 0x0A9804)
    ∷ ("AddGList", pragma 0x1b6 0xA109805)
    ∷ ("RemoveGList", pragma 0x1bc 0x09803)
    ∷ ("ActivateWindow", pragma 0x1c2 0x801)
    ∷ ("RefreshWindowFrame", pragma 0x1c8 0x801)
    ∷ ("ActivateGadget", pragma 0x1ce 0xA9803)
    ∷ ("NewModifyProp", pragma 0x1d4 0x543210A9809)
    ∷ ("QueryOverscan", pragma 0x1da 0x09803)
    ∷ ("MoveWindowInFrontOf", pragma 0x1e0 0x9802)
    ∷ ("ChangeWindowBox", pragma 0x1e6 0x3210805)
    ∷ ("SetEditHook", pragma 0x1ec 0x801)
    ∷ ("SetMouseQueue", pragma 0x1f2 0x0802)
    ∷ ("ZipWindow", pragma 0x1f8 0x801)
    ∷ ("LockPubScreen", pragma 0x1fe 0x801)
    ∷ ("UnlockPubScreen", pragma 0x204 0x9802)
    ∷ ("LockPubScreenList", pragma 0x20a 0x00)
    ∷ ("UnlockPubScreenList", pragma 0x210 0x00)
    ∷ ("NextPubScreen", pragma 0x216 0x9802)
    ∷ ("SetDefaultPubScreen", pragma 0x21c 0x801)
    ∷ ("SetPubScreenModes", pragma 0x222 0x001)
    ∷ ("PubScreenStatus", pragma 0x228 0x0802)
    ∷ ("ObtainGIRPort", pragma 0x22e 0x801)
    ∷ ("ReleaseGIRPort", pragma 0x234 0x801)
    ∷ ("GadgetMouse", pragma 0x23a 0xA9803)
    ∷ ("GetDefaultPubScreen", pragma 0x246 0x801)
    ∷ ("EasyRequestArgs", pragma 0x24c 0xBA9804)
    ∷ ("BuildEasyRequestArgs", pragma 0x252 0xB09804)
    ∷ []

-- `SysReqHandler` to `HelpControl`.
unfoldable pub pragmas_sysreqhandler_to_helpcontrol : Table Pragma
pragmas_sysreqhandler_to_helpcontrol =
    ("SysReqHandler", pragma 0x258 0x09803)
    ∷ ("OpenWindowTagList", pragma 0x25e 0x9802)
    ∷ ("OpenScreenTagList", pragma 0x264 0x9802)
    ∷ ("DrawImageState", pragma 0x26a 0xA2109806)
    ∷ ("PointInImage", pragma 0x270 0x8002)
    ∷ ("EraseImage", pragma 0x276 0x109804)
    ∷ ("NewObjectA", pragma 0x27c 0xA9803)
    ∷ ("DisposeObject", pragma 0x282 0x801)
    ∷ ("SetAttrsA", pragma 0x288 0x9802)
    ∷ ("GetAttr", pragma 0x28e 0x98003)
    ∷ ("SetGadgetAttrsA", pragma 0x294 0xBA9804)
    ∷ ("NextObject", pragma 0x29a 0x801)
    ∷ ("MakeClass", pragma 0x2a6 0x10A9805)
    ∷ ("AddClass", pragma 0x2ac 0x801)
    ∷ ("GetScreenDrawInfo", pragma 0x2b2 0x801)
    ∷ ("FreeScreenDrawInfo", pragma 0x2b8 0x9802)
    ∷ ("ResetMenuStrip", pragma 0x2be 0x9802)
    ∷ ("RemoveClass", pragma 0x2c4 0x801)
    ∷ ("FreeClass", pragma 0x2ca 0x801)
    ∷ ("AllocScreenBuffer", pragma 0x300 0x09803)
    ∷ ("FreeScreenBuffer", pragma 0x306 0x9802)
    ∷ ("ChangeScreenBuffer", pragma 0x30c 0x9802)
    ∷ ("ScreenDepth", pragma 0x312 0x90803)
    ∷ ("ScreenPosition", pragma 0x318 0x43210806)
    ∷ ("ScrollWindowRaster", pragma 0x31e 0x543210907)
    ∷ ("LendMenus", pragma 0x324 0x9802)
    ∷ ("DoGadgetMethodA", pragma 0x32a 0xBA9804)
    ∷ ("SetWindowPointerA", pragma 0x330 0x9802)
    ∷ ("TimedDisplayAlert", pragma 0x336 0x918004)
    ∷ ("HelpControl", pragma 0x33c 0x0802)
    ∷ []

unfoldable pub intuition_pragmas : Table Pragma
unfolding pragmas_openintuition_to_windowtofront pragmas_windowlimits_to_buildeasyrequestargs
    pragmas_sysreqhandler_to_helpcontrol
intuition_pragmas =
    pragmas_openintuition_to_windowtofront
    ++ (pragmas_windowlimits_to_buildeasyrequestargs ++ pragmas_sysreqhandler_to_helpcontrol)
