-- ===== src/Abi/Support/Locale.antt =====
-- The stubs with a fixed number of arguments of targets/m68k-amigaos/include/inline/locale_protos.h and the
-- `libcall` pragmas of targets/m68k-amigaos/ndk/include_h/pragmas/locale_pragmas.h.
use amiga_dev.Common.{[], ◌∷◌}
use amiga_dev.Abi.{d, a, Stub, stub, in_order, Pragma, pragma, Table}

-- `CloseCatalog` to `StrnCmp`.
unfoldable pub locale_stubs : Table Stub
locale_stubs =
    ("CloseCatalog", stub 36 (in_order (a 0 ∷ [])))
    ∷ ("CloseLocale", stub 42 (in_order (a 0 ∷ [])))
    ∷ ("ConvToLower", stub 48 (in_order (a 0 ∷ d 0 ∷ [])))
    ∷ ("ConvToUpper", stub 54 (in_order (a 0 ∷ d 0 ∷ [])))
    ∷ ("FormatDate", stub 60 (in_order (a 0 ∷ a 1 ∷ a 2 ∷ a 3 ∷ [])))
    ∷ ("FormatString", stub 66 (in_order (a 0 ∷ a 1 ∷ a 2 ∷ a 3 ∷ [])))
    ∷ ("GetCatalogStr", stub 72 (in_order (a 0 ∷ d 0 ∷ a 1 ∷ [])))
    ∷ ("GetLocaleStr", stub 78 (in_order (a 0 ∷ d 0 ∷ [])))
    ∷ ("IsAlNum", stub 84 (in_order (a 0 ∷ d 0 ∷ [])))
    ∷ ("IsAlpha", stub 90 (in_order (a 0 ∷ d 0 ∷ [])))
    ∷ ("IsCntrl", stub 96 (in_order (a 0 ∷ d 0 ∷ [])))
    ∷ ("IsDigit", stub 102 (in_order (a 0 ∷ d 0 ∷ [])))
    ∷ ("IsGraph", stub 108 (in_order (a 0 ∷ d 0 ∷ [])))
    ∷ ("IsLower", stub 114 (in_order (a 0 ∷ d 0 ∷ [])))
    ∷ ("IsPrint", stub 120 (in_order (a 0 ∷ d 0 ∷ [])))
    ∷ ("IsPunct", stub 126 (in_order (a 0 ∷ d 0 ∷ [])))
    ∷ ("IsSpace", stub 132 (in_order (a 0 ∷ d 0 ∷ [])))
    ∷ ("IsUpper", stub 138 (in_order (a 0 ∷ d 0 ∷ [])))
    ∷ ("IsXDigit", stub 144 (in_order (a 0 ∷ d 0 ∷ [])))
    ∷ ("OpenCatalogA", stub 150 (in_order (a 0 ∷ a 1 ∷ a 2 ∷ [])))
    ∷ ("OpenLocale", stub 156 (in_order (a 0 ∷ [])))
    ∷ ("ParseDate", stub 162 (in_order (a 0 ∷ a 1 ∷ a 2 ∷ a 3 ∷ [])))
    ∷ ("StrConvert", stub 174 (in_order (a 0 ∷ a 1 ∷ a 2 ∷ d 0 ∷ d 1 ∷ [])))
    ∷ ("StrnCmp", stub 180 (in_order (a 0 ∷ a 1 ∷ a 2 ∷ d 0 ∷ d 1 ∷ [])))
    ∷ []

-- `CloseCatalog` to `StrnCmp`.
unfoldable pub locale_pragmas : Table Pragma
locale_pragmas =
    ("CloseCatalog", pragma 0x24 0x801)
    ∷ ("CloseLocale", pragma 0x2a 0x801)
    ∷ ("ConvToLower", pragma 0x30 0x0802)
    ∷ ("ConvToUpper", pragma 0x36 0x0802)
    ∷ ("FormatDate", pragma 0x3c 0xBA9804)
    ∷ ("FormatString", pragma 0x42 0xBA9804)
    ∷ ("GetCatalogStr", pragma 0x48 0x90803)
    ∷ ("GetLocaleStr", pragma 0x4e 0x0802)
    ∷ ("IsAlNum", pragma 0x54 0x0802)
    ∷ ("IsAlpha", pragma 0x5a 0x0802)
    ∷ ("IsCntrl", pragma 0x60 0x0802)
    ∷ ("IsDigit", pragma 0x66 0x0802)
    ∷ ("IsGraph", pragma 0x6c 0x0802)
    ∷ ("IsLower", pragma 0x72 0x0802)
    ∷ ("IsPrint", pragma 0x78 0x0802)
    ∷ ("IsPunct", pragma 0x7e 0x0802)
    ∷ ("IsSpace", pragma 0x84 0x0802)
    ∷ ("IsUpper", pragma 0x8a 0x0802)
    ∷ ("IsXDigit", pragma 0x90 0x0802)
    ∷ ("OpenCatalogA", pragma 0x96 0xA9803)
    ∷ ("OpenLocale", pragma 0x9c 0x801)
    ∷ ("ParseDate", pragma 0xa2 0xBA9804)
    ∷ ("StrConvert", pragma 0xae 0x10A9805)
    ∷ ("StrnCmp", pragma 0xb4 0x10A9805)
    ∷ []
