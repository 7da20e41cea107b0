-- ===== src/Abi/Support/Gadtools.antt =====
-- The stubs with a fixed number of arguments of targets/m68k-amigaos/include/inline/gadtools_protos.h and the
-- `libcall` pragmas of targets/m68k-amigaos/ndk/include_h/pragmas/gadtools_pragmas.h.
use amiga_dev.Common.{[], ◌∷◌}
use amiga_dev.Abi.{d, a, Stub, stub, in_order, Pragma, pragma, Table}

-- `CreateGadgetA` to `GT_GetGadgetAttrsA`.
unfoldable pub gadtools_stubs : Table Stub
gadtools_stubs =
    ("CreateGadgetA", stub 30 (in_order (d 0 ∷ a 0 ∷ a 1 ∷ a 2 ∷ [])))
    ∷ ("FreeGadgets", stub 36 (in_order (a 0 ∷ [])))
    ∷ ("GT_SetGadgetAttrsA", stub 42 (in_order (a 0 ∷ a 1 ∷ a 2 ∷ a 3 ∷ [])))
    ∷ ("CreateMenusA", stub 48 (in_order (a 0 ∷ a 1 ∷ [])))
    ∷ ("FreeMenus", stub 54 (in_order (a 0 ∷ [])))
    ∷ ("LayoutMenuItemsA", stub 60 (in_order (a 0 ∷ a 1 ∷ a 2 ∷ [])))
    ∷ ("LayoutMenusA", stub 66 (in_order (a 0 ∷ a 1 ∷ a 2 ∷ [])))
    ∷ ("GT_GetIMsg", stub 72 (in_order (a 0 ∷ [])))
    ∷ ("GT_ReplyIMsg", stub 78 (in_order (a 1 ∷ [])))
    ∷ ("GT_RefreshWindow", stub 84 (in_order (a 0 ∷ a 1 ∷ [])))
    ∷ ("GT_BeginRefresh", stub 90 (in_order (a 0 ∷ [])))
    ∷ ("GT_EndRefresh", stub 96 (in_order (a 0 ∷ d 0 ∷ [])))
    ∷ ("GT_FilterIMsg", stub 102 (in_order (a 1 ∷ [])))
    ∷ ("GT_PostFilterIMsg", stub 108 (in_order (a 1 ∷ [])))
    ∷ ("CreateContext", stub 114 (in_order (a 0 ∷ [])))
    ∷ ("DrawBevelBoxA", stub 120 (in_order (a 0 ∷ d 0 ∷ d 1 ∷ d 2 ∷ d 3 ∷ a 1 ∷ [])))
    ∷ ("GetVisualInfoA", stub 126 (in_order (a 0 ∷ a 1 ∷ [])))
    ∷ ("FreeVisualInfo", stub 132 (in_order (a 0 ∷ [])))
    ∷ ("GT_GetGadgetAttrsA", stub 174 (in_order (a 0 ∷ a 1 ∷ a 2 ∷ a 3 ∷ [])))
    ∷ []

-- `CreateGadgetA` to `GT_GetGadgetAttrsA`.
unfoldable pub gadtools_pragmas : Table Pragma
gadtools_pragmas =
    ("CreateGadgetA", pragma 0x1e 0xA98004)
    ∷ ("FreeGadgets", pragma 0x24 0x801)
    ∷ ("GT_SetGadgetAttrsA", pragma 0x2a 0xBA9804)
    ∷ ("CreateMenusA", pragma 0x30 0x9802)
    ∷ ("FreeMenus", pragma 0x36 0x801)
    ∷ ("LayoutMenuItemsA", pragma 0x3c 0xA9803)
    ∷ ("LayoutMenusA", pragma 0x42 0xA9803)
    ∷ ("GT_GetIMsg", pragma 0x48 0x801)
    ∷ ("GT_ReplyIMsg", pragma 0x4e 0x901)
    ∷ ("GT_RefreshWindow", pragma 0x54 0x9802)
    ∷ ("GT_BeginRefresh", pragma 0x5a 0x801)
    ∷ ("GT_EndRefresh", pragma 0x60 0x0802)
    ∷ ("GT_FilterIMsg", pragma 0x66 0x901)
    ∷ ("GT_PostFilterIMsg", pragma 0x6c 0x901)
    ∷ ("CreateContext", pragma 0x72 0x801)
    ∷ ("DrawBevelBoxA", pragma 0x78 0x93210806)
    ∷ ("GetVisualInfoA", pragma 0x7e 0x9802)
    ∷ ("FreeVisualInfo", pragma 0x84 0x801)
    ∷ ("GT_GetGadgetAttrsA", pragma 0xae 0xBA9804)
    ∷ []
