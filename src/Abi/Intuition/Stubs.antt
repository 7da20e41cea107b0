-- ===== src/Abi/Intuition/Stubs.antt =====
-- The stubs with a fixed number of arguments of targets/m68k-amigaos/include/inline/intuition_protos.h.
use amiga_dev.Common.{[], ◌∷◌, ◌++◌}
use amiga_dev.Abi.{d, a, Stub, stub, in_order, Table}

-- `OpenIntuition` to `SetPrefs`.
unfoldable pub stubs_openintuition_to_setprefs : Table Stub
stubs_openintuition_to_setprefs =
    ("OpenIntuition", stub 30 [])
    ∷ ("Intuition", stub 36 (in_order (a 0 ∷ [])))
    ∷ ("AddGadget", stub 42 (in_order (a 0 ∷ a 1 ∷ d 0 ∷ [])))
    ∷ ("ClearDMRequest", stub 48 (in_order (a 0 ∷ [])))
    ∷ ("ClearMenuStrip", stub 54 (in_order (a 0 ∷ [])))
    ∷ ("ClearPointer", stub 60 (in_order (a 0 ∷ [])))
    ∷ ("CloseScreen", stub 66 (in_order (a 0 ∷ [])))
    ∷ ("CloseWindow", stub 72 (in_order (a 0 ∷ [])))
    ∷ ("CloseWorkBench", stub 78 [])
    ∷ ("CurrentTime", stub 84 (in_order (a 0 ∷ a 1 ∷ [])))
    ∷ ("DisplayAlert", stub 90 (in_order (d 0 ∷ a 0 ∷ d 1 ∷ [])))
    ∷ ("DisplayBeep", stub 96 (in_order (a 0 ∷ [])))
    ∷ ("DoubleClick", stub 102 (in_order (d 0 ∷ d 1 ∷ d 2 ∷ d 3 ∷ [])))
    ∷ ("DrawBorder", stub 108 (in_order (a 0 ∷ a 1 ∷ d 0 ∷ d 1 ∷ [])))
    ∷ ("DrawImage", stub 114 (in_order (a 0 ∷ a 1 ∷ d 0 ∷ d 1 ∷ [])))
    ∷ ("EndRequest", stub 120 (in_order (a 0 ∷ a 1 ∷ [])))
    ∷ ("GetDefPrefs", stub 126 (in_order (a 0 ∷ d 0 ∷ [])))
    ∷ ("GetPrefs", stub 132 (in_order (a 0 ∷ d 0 ∷ [])))
    ∷ ("InitRequester", stub 138 (in_order (a 0 ∷ [])))
    ∷ ("ItemAddress", stub 144 (in_order (a 0 ∷ d 0 ∷ [])))
    ∷ ("ModifyIDCMP", stub 150 (in_order (a 0 ∷ d 0 ∷ [])))
    ∷ ("ModifyProp", stub 156 (in_order (a 0 ∷ a 1 ∷ a 2 ∷ d 0 ∷ d 1 ∷ d 2 ∷ d 3 ∷ d 4 ∷ [])))
    ∷ ("MoveScreen", stub 162 (in_order (a 0 ∷ d 0 ∷ d 1 ∷ [])))
    ∷ ("MoveWindow", stub 168 (in_order (a 0 ∷ d 0 ∷ d 1 ∷ [])))
    ∷ ("OffGadget", stub 174 (in_order (a 0 ∷ a 1 ∷ a 2 ∷ [])))
    ∷ ("OffMenu", stub 180 (in_order (a 0 ∷ d 0 ∷ [])))
    ∷ ("OnGadget", stub 186 (in_order (a 0 ∷ a 1 ∷ a 2 ∷ [])))
    ∷ ("OnMenu", stub 192 (in_order (a 0 ∷ d 0 ∷ [])))
    ∷ ("OpenScreen", stub 198 (in_order (a 0 ∷ [])))
    ∷ ("OpenWindow", stub 204 (in_order (a 0 ∷ [])))
    ∷ ("OpenWorkBench", stub 210 [])
    ∷ ("PrintIText", stub 216 (in_order (a 0 ∷ a 1 ∷ d 0 ∷ d 1 ∷ [])))
    ∷ ("RefreshGadgets", stub 222 (in_order (a 0 ∷ a 1 ∷ a 2 ∷ [])))
    ∷ ("RemoveGadget", stub 228 (in_order (a 0 ∷ a 1 ∷ [])))
    ∷ ("ReportMouse", stub 234 (in_order (d 0 ∷ a 0 ∷ [])))
    ∷ ("Request", stub 240 (in_order (a 0 ∷ a 1 ∷ [])))
    ∷ ("ScreenToBack", stub 246 (in_order (a 0 ∷ [])))
    ∷ ("ScreenToFront", stub 252 (in_order (a 0 ∷ [])))
    ∷ ("SetDMRequest", stub 258 (in_order (a 0 ∷ a 1 ∷ [])))
    ∷ ("SetMenuStrip", stub 264 (in_order (a 0 ∷ a 1 ∷ [])))
    ∷ ("SetPointer", stub 270 (in_order (a 0 ∷ a 1 ∷ d 0 ∷ d 1 ∷ d 2 ∷ d 3 ∷ [])))
    ∷ ("SetWindowTitles", stub 276 (in_order (a 0 ∷ a 1 ∷ a 2 ∷ [])))
    ∷ ("ShowTitle", stub 282 (in_order (a 0 ∷ d 0 ∷ [])))
    ∷ ("SizeWindow", stub 288 (in_order (a 0 ∷ d 0 ∷ d 1 ∷ [])))
    ∷ ("ViewAddress", stub 294 [])
    ∷ ("ViewPortAddress", stub 300 (in_order (a 0 ∷ [])))
    ∷ ("WindowToBack", stub 306 (in_order (a 0 ∷ [])))
    ∷ ("WindowToFront", stub 312 (in_order (a 0 ∷ [])))
    ∷ ("WindowLimits", stub 318 (in_order (a 0 ∷ d 0 ∷ d 1 ∷ d 2 ∷ d 3 ∷ [])))
    ∷ ("SetPrefs", stub 324 (in_order (a 0 ∷ d 0 ∷ d 1 ∷ [])))
    ∷ []

-- `IntuiTextLength` to `OpenWindowTagList`.
unfoldable pub stubs_intuitextlength_to_openwindowtaglist : Table Stub
stubs_intuitextlength_to_openwindowtaglist =
    ("IntuiTextLength", stub 330 (in_order (a 0 ∷ [])))
    ∷ ("WBenchToBack", stub 336 [])
    ∷ ("WBenchToFront", stub 342 [])
    ∷ ("AutoRequest", stub 348 (in_order (a 0 ∷ a 1 ∷ a 2 ∷ a 3 ∷ d 0 ∷ d 1 ∷ d 2 ∷ d 3 ∷ [])))
    ∷ ("BeginRefresh", stub 354 (in_order (a 0 ∷ [])))
    ∷ ("BuildSysRequest", stub 360 (in_order (a 0 ∷ a 1 ∷ a 2 ∷ a 3 ∷ d 0 ∷ d 1 ∷ d 2 ∷ [])))
    ∷ ("EndRefresh", stub 366 (in_order (a 0 ∷ d 0 ∷ [])))
    ∷ ("FreeSysRequest", stub 372 (in_order (a 0 ∷ [])))
    ∷ ("MakeScreen", stub 378 (in_order (a 0 ∷ [])))
    ∷ ("RemakeDisplay", stub 384 [])
    ∷ ("RethinkDisplay", stub 390 [])
    ∷ ("AllocRemember", stub 396 (in_order (a 0 ∷ d 0 ∷ d 1 ∷ [])))
    ∷ ("FreeRemember", stub 408 (in_order (a 0 ∷ d 0 ∷ [])))
    ∷ ("LockIBase", stub 414 (in_order (d 0 ∷ [])))
    ∷ ("UnlockIBase", stub 420 (in_order (a 0 ∷ [])))
    ∷ ("GetScreenData", stub 426 (in_order (a 0 ∷ d 0 ∷ d 1 ∷ a 1 ∷ [])))
    ∷ ("RefreshGList", stub 432 (in_order (a 0 ∷ a 1 ∷ a 2 ∷ d 0 ∷ [])))
    ∷ ("AddGList", stub 438 (in_order (a 0 ∷ a 1 ∷ d 0 ∷ d 1 ∷ a 2 ∷ [])))
    ∷ ("RemoveGList", stub 444 (in_order (a 0 ∷ a 1 ∷ d 0 ∷ [])))
    ∷ ("ActivateWindow", stub 450 (in_order (a 0 ∷ [])))
    ∷ ("RefreshWindowFrame", stub 456 (in_order (a 0 ∷ [])))
    ∷ ("ActivateGadget", stub 462 (in_order (a 0 ∷ a 1 ∷ a 2 ∷ [])))
    ∷ (
      "NewModifyProp",
      stub 468 (in_order (a 0 ∷ a 1 ∷ a 2 ∷ d 0 ∷ d 1 ∷ d 2 ∷ d 3 ∷ d 4 ∷ d 5 ∷ [])),
    )
    ∷ ("QueryOverscan", stub 474 (in_order (a 0 ∷ a 1 ∷ d 0 ∷ [])))
    ∷ ("MoveWindowInFrontOf", stub 480 (in_order (a 0 ∷ a 1 ∷ [])))
    ∷ ("ChangeWindowBox", stub 486 (in_order (a 0 ∷ d 0 ∷ d 1 ∷ d 2 ∷ d 3 ∷ [])))
    ∷ ("SetEditHook", stub 492 (in_order (a 0 ∷ [])))
    ∷ ("SetMouseQueue", stub 498 (in_order (a 0 ∷ d 0 ∷ [])))
    ∷ ("ZipWindow", stub 504 (in_order (a 0 ∷ [])))
    ∷ ("LockPubScreen", stub 510 (in_order (a 0 ∷ [])))
    ∷ ("UnlockPubScreen", stub 516 (in_order (a 0 ∷ a 1 ∷ [])))
    ∷ ("LockPubScreenList", stub 522 [])
    ∷ ("UnlockPubScreenList", stub 528 [])
    ∷ ("NextPubScreen", stub 534 (in_order (a 0 ∷ a 1 ∷ [])))
    ∷ ("SetDefaultPubScreen", stub 540 (in_order (a 0 ∷ [])))
    ∷ ("SetPubScreenModes", stub 546 (in_order (d 0 ∷ [])))
    ∷ ("PubScreenStatus", stub 552 (in_order (a 0 ∷ d 0 ∷ [])))
    ∷ ("ObtainGIRPort", stub 558 (in_order (a 0 ∷ [])))
    ∷ ("ReleaseGIRPort", stub 564 (in_order (a 0 ∷ [])))
    ∷ ("GadgetMouse", stub 570 (in_order (a 0 ∷ a 1 ∷ a 2 ∷ [])))
    ∷ ("GetDefaultPubScreen", stub 582 (in_order (a 0 ∷ [])))
    ∷ ("EasyRequestArgs", stub 588 (in_order (a 0 ∷ a 1 ∷ a 2 ∷ a 3 ∷ [])))
    ∷ ("BuildEasyRequestArgs", stub 594 (in_order (a 0 ∷ a 1 ∷ d 0 ∷ a 3 ∷ [])))
    ∷ ("SysReqHandler", stub 600 (in_order (a 0 ∷ a 1 ∷ d 0 ∷ [])))
    ∷ ("OpenWindowTagList", stub 606 (in_order (a 0 ∷ a 1 ∷ [])))
    ∷ []

-- `OpenScreenTagList` to `HelpControl`.
unfoldable pub stubs_openscreentaglist_to_helpcontrol : Table Stub
stubs_openscreentaglist_to_helpcontrol =
    ("OpenScreenTagList", stub 612 (in_order (a 0 ∷ a 1 ∷ [])))
    ∷ ("DrawImageState", stub 618 (in_order (a 0 ∷ a 1 ∷ d 0 ∷ d 1 ∷ d 2 ∷ a 2 ∷ [])))
    ∷ ("PointInImage", stub 624 (in_order (d 0 ∷ a 0 ∷ [])))
    ∷ ("EraseImage", stub 630 (in_order (a 0 ∷ a 1 ∷ d 0 ∷ d 1 ∷ [])))
    ∷ ("NewObjectA", stub 636 (in_order (a 0 ∷ a 1 ∷ a 2 ∷ [])))
    ∷ ("DisposeObject", stub 642 (in_order (a 0 ∷ [])))
    ∷ ("SetAttrsA", stub 648 (in_order (a 0 ∷ a 1 ∷ [])))
    ∷ ("GetAttr", stub 654 (in_order (d 0 ∷ a 0 ∷ a 1 ∷ [])))
    ∷ ("SetGadgetAttrsA", stub 660 (in_order (a 0 ∷ a 1 ∷ a 2 ∷ a 3 ∷ [])))
    ∷ ("NextObject", stub 666 (in_order (a 0 ∷ [])))
    ∷ ("MakeClass", stub 678 (in_order (a 0 ∷ a 1 ∷ a 2 ∷ d 0 ∷ d 1 ∷ [])))
    ∷ ("AddClass", stub 684 (in_order (a 0 ∷ [])))
    ∷ ("GetScreenDrawInfo", stub 690 (in_order (a 0 ∷ [])))
    ∷ ("FreeScreenDrawInfo", stub 696 (in_order (a 0 ∷ a 1 ∷ [])))
    ∷ ("ResetMenuStrip", stub 702 (in_order (a 0 ∷ a 1 ∷ [])))
    ∷ ("RemoveClass", stub 708 (in_order (a 0 ∷ [])))
    ∷ ("FreeClass", stub 714 (in_order (a 0 ∷ [])))
    ∷ ("AllocScreenBuffer", stub 768 (in_order (a 0 ∷ a 1 ∷ d 0 ∷ [])))
    ∷ ("FreeScreenBuffer", stub 774 (in_order (a 0 ∷ a 1 ∷ [])))
    ∷ ("ChangeScreenBuffer", stub 780 (in_order (a 0 ∷ a 1 ∷ [])))
    ∷ ("ScreenDepth", stub 786 (in_order (a 0 ∷ d 0 ∷ a 1 ∷ [])))
    ∷ ("ScreenPosition", stub 792 (in_order (a 0 ∷ d 0 ∷ d 1 ∷ d 2 ∷ d 3 ∷ d 4 ∷ [])))
    ∷ ("ScrollWindowRaster", stub 798 (in_order (a 1 ∷ d 0 ∷ d 1 ∷ d 2 ∷ d 3 ∷ d 4 ∷ d 5 ∷ [])))
    ∷ ("LendMenus", stub 804 (in_order (a 0 ∷ a 1 ∷ [])))
    ∷ ("DoGadgetMethodA", stub 810 (in_order (a 0 ∷ a 1 ∷ a 2 ∷ a 3 ∷ [])))
    ∷ ("SetWindowPointerA", stub 816 (in_order (a 0 ∷ a 1 ∷ [])))
    ∷ ("TimedDisplayAlert", stub 822 (in_order (d 0 ∷ a 0 ∷ d 1 ∷ a 1 ∷ [])))
    ∷ ("HelpControl", stub 828 (in_order (a 0 ∷ d 0 ∷ [])))
    ∷ []

unfoldable pub intuition_stubs : Table Stub
unfolding stubs_openintuition_to_setprefs stubs_intuitextlength_to_openwindowtaglist
    stubs_openscreentaglist_to_helpcontrol
intuition_stubs =
    stubs_openintuition_to_setprefs
    ++ (stubs_intuitextlength_to_openwindowtaglist ++ stubs_openscreentaglist_to_helpcontrol)
