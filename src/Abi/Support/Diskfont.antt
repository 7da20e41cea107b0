-- ===== src/Abi/Support/Diskfont.antt =====
-- The stubs with a fixed number of arguments of targets/m68k-amigaos/include/inline/diskfont_protos.h and the
-- `libcall` pragmas of targets/m68k-amigaos/ndk/include_h/pragmas/diskfont_pragmas.h.
use amiga_dev.Common.{[], ◌∷◌}
use amiga_dev.Abi.{d, a, Stub, stub, in_order, Pragma, pragma, Table}

-- `OpenDiskFont` to `SetDiskFontCtrlA`.
unfoldable pub diskfont_stubs : Table Stub
diskfont_stubs =
    ("OpenDiskFont", stub 30 (in_order (a 0 ∷ [])))
    ∷ ("AvailFonts", stub 36 (in_order (a 0 ∷ d 0 ∷ d 1 ∷ [])))
    ∷ ("NewFontContents", stub 42 (in_order (a 0 ∷ a 1 ∷ [])))
    ∷ ("DisposeFontContents", stub 48 (in_order (a 1 ∷ [])))
    ∷ ("NewScaledDiskFont", stub 54 (in_order (a 0 ∷ a 1 ∷ [])))
    ∷ ("GetDiskFontCtrl", stub 60 (in_order (d 0 ∷ [])))
    ∷ ("SetDiskFontCtrlA", stub 66 (in_order (a 0 ∷ [])))
    ∷ []

-- `OpenDiskFont` to `SetDiskFontCtrlA`.
unfoldable pub diskfont_pragmas : Table Pragma
diskfont_pragmas =
    ("OpenDiskFont", pragma 0x1e 0x801)
    ∷ ("AvailFonts", pragma 0x24 0x10803)
    ∷ ("NewFontContents", pragma 0x2a 0x9802)
    ∷ ("DisposeFontContents", pragma 0x30 0x901)
    ∷ ("NewScaledDiskFont", pragma 0x36 0x9802)
    ∷ ("GetDiskFontCtrl", pragma 0x3c 0x001)
    ∷ ("SetDiskFontCtrlA", pragma 0x42 0x801)
    ∷ []
