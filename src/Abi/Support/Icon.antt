-- ===== src/Abi/Support/Icon.antt =====
-- The stubs with a fixed number of arguments of targets/m68k-amigaos/include/inline/icon_protos.h and the
-- `libcall` pragmas of targets/m68k-amigaos/ndk/include_h/pragmas/icon_pragmas.h.
use amiga_dev.Common.{[], ◌∷◌}
use amiga_dev.Abi.{d, a, Stub, stub, in_order, Pragma, pragma, Table}

-- `FreeFreeList` to `ChangeToSelectedIconColor`.
unfoldable pub icon_stubs : Table Stub
icon_stubs =
    ("FreeFreeList", stub 54 (in_order (a 0 ∷ [])))
    ∷ ("AddFreeList", stub 72 (in_order (a 0 ∷ a 1 ∷ a 2 ∷ [])))
    ∷ ("GetDiskObject", stub 78 (in_order (a 0 ∷ [])))
    ∷ ("PutDiskObject", stub 84 (in_order (a 0 ∷ a 1 ∷ [])))
    ∷ ("FreeDiskObject", stub 90 (in_order (a 0 ∷ [])))
    ∷ ("FindToolType", stub 96 (in_order (a 0 ∷ a 1 ∷ [])))
    ∷ ("MatchToolValue", stub 102 (in_order (a 0 ∷ a 1 ∷ [])))
    ∷ ("BumpRevision", stub 108 (in_order (a 0 ∷ a 1 ∷ [])))
    ∷ ("GetDefDiskObject", stub 120 (in_order (d 0 ∷ [])))
    ∷ ("PutDefDiskObject", stub 126 (in_order (a 0 ∷ [])))
    ∷ ("GetDiskObjectNew", stub 132 (in_order (a 0 ∷ [])))
    ∷ ("DeleteDiskObject", stub 138 (in_order (a 0 ∷ [])))
    ∷ ("DupDiskObjectA", stub 150 (in_order (a 0 ∷ a 1 ∷ [])))
    ∷ ("IconControlA", stub 156 (in_order (a 0 ∷ a 1 ∷ [])))
    ∷ ("DrawIconStateA", stub 162 (in_order (a 0 ∷ a 1 ∷ a 2 ∷ d 0 ∷ d 1 ∷ d 2 ∷ a 3 ∷ [])))
    ∷ ("GetIconRectangleA", stub 168 (in_order (a 0 ∷ a 1 ∷ a 2 ∷ a 3 ∷ a 4 ∷ [])))
    ∷ ("NewDiskObject", stub 174 (in_order (d 0 ∷ [])))
    ∷ ("GetIconTagList", stub 180 (in_order (a 0 ∷ a 1 ∷ [])))
    ∷ ("PutIconTagList", stub 186 (in_order (a 0 ∷ a 1 ∷ a 2 ∷ [])))
    ∷ ("LayoutIconA", stub 192 (in_order (a 0 ∷ a 1 ∷ a 2 ∷ [])))
    ∷ ("ChangeToSelectedIconColor", stub 198 (in_order (a 0 ∷ [])))
    ∷ []

-- `FreeFreeList` to `ChangeToSelectedIconColor`.
unfoldable pub icon_pragmas : Table Pragma
icon_pragmas =
    ("FreeFreeList", pragma 0x36 0x801)
    ∷ ("AddFreeList", pragma 0x48 0xA9803)
    ∷ ("GetDiskObject", pragma 0x4e 0x801)
    ∷ ("PutDiskObject", pragma 0x54 0x9802)
    ∷ ("FreeDiskObject", pragma 0x5a 0x801)
    ∷ ("FindToolType", pragma 0x60 0x9802)
    ∷ ("MatchToolValue", pragma 0x66 0x9802)
    ∷ ("BumpRevision", pragma 0x6c 0x9802)
    ∷ ("GetDefDiskObject", pragma 0x78 0x001)
    ∷ ("PutDefDiskObject", pragma 0x7e 0x801)
    ∷ ("GetDiskObjectNew", pragma 0x84 0x801)
    ∷ ("DeleteDiskObject", pragma 0x8a 0x801)
    ∷ ("DupDiskObjectA", pragma 0x96 0x9802)
    ∷ ("IconControlA", pragma 0x9c 0x9802)
    ∷ ("DrawIconStateA", pragma 0xa2 0xB210A9807)
    ∷ ("GetIconRectangleA", pragma 0xa8 0xCBA9805)
    ∷ ("NewDiskObject", pragma 0xae 0x001)
    ∷ ("GetIconTagList", pragma 0xb4 0x9802)
    ∷ ("PutIconTagList", pragma 0xba 0xA9803)
    ∷ ("LayoutIconA", pragma 0xc0 0xA9803)
    ∷ ("ChangeToSelectedIconColor", pragma 0xc6 0x801)
    ∷ []
