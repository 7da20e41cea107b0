-- ===== src/Abi/Support/Expansion.antt =====
-- The stubs with a fixed number of arguments of targets/m68k-amigaos/include/inline/expansion_protos.h and the
-- `libcall` pragmas of targets/m68k-amigaos/ndk/include_h/pragmas/expansion_pragmas.h.
use amiga_dev.Common.{[], ◌∷◌}
use amiga_dev.Abi.{d, a, Stub, stub, in_order, Pragma, pragma, Table}

-- `AddConfigDev` to `AddDosNode`.
unfoldable pub expansion_stubs : Table Stub
expansion_stubs =
    ("AddConfigDev", stub 30 (in_order (a 0 ∷ [])))
    ∷ ("AddBootNode", stub 36 (in_order (d 0 ∷ d 1 ∷ a 0 ∷ a 1 ∷ [])))
    ∷ ("AllocBoardMem", stub 42 (in_order (d 0 ∷ [])))
    ∷ ("AllocConfigDev", stub 48 [])
    ∷ ("AllocExpansionMem", stub 54 (in_order (d 0 ∷ d 1 ∷ [])))
    ∷ ("ConfigBoard", stub 60 (in_order (a 0 ∷ a 1 ∷ [])))
    ∷ ("ConfigChain", stub 66 (in_order (a 0 ∷ [])))
    ∷ ("FindConfigDev", stub 72 (in_order (a 0 ∷ d 0 ∷ d 1 ∷ [])))
    ∷ ("FreeBoardMem", stub 78 (in_order (d 0 ∷ d 1 ∷ [])))
    ∷ ("FreeConfigDev", stub 84 (in_order (a 0 ∷ [])))
    ∷ ("FreeExpansionMem", stub 90 (in_order (d 0 ∷ d 1 ∷ [])))
    ∷ ("ReadExpansionByte", stub 96 (in_order (a 0 ∷ d 0 ∷ [])))
    ∷ ("ReadExpansionRom", stub 102 (in_order (a 0 ∷ a 1 ∷ [])))
    ∷ ("RemConfigDev", stub 108 (in_order (a 0 ∷ [])))
    ∷ ("WriteExpansionByte", stub 114 (in_order (a 0 ∷ d 0 ∷ d 1 ∷ [])))
    ∷ ("ObtainConfigBinding", stub 120 [])
    ∷ ("ReleaseConfigBinding", stub 126 [])
    ∷ ("SetCurrentBinding", stub 132 (in_order (a 0 ∷ d 0 ∷ [])))
    ∷ ("GetCurrentBinding", stub 138 (in_order (a 0 ∷ d 0 ∷ [])))
    ∷ ("MakeDosNode", stub 144 (in_order (a 0 ∷ [])))
    ∷ ("AddDosNode", stub 150 (in_order (d 0 ∷ d 1 ∷ a 0 ∷ [])))
    ∷ []

-- `AddConfigDev` to `AddDosNode`.
unfoldable pub expansion_pragmas : Table Pragma
expansion_pragmas =
    ("AddConfigDev", pragma 0x1e 0x801)
    ∷ ("AddBootNode", pragma 0x24 0x981004)
    ∷ ("AllocBoardMem", pragma 0x2a 0x001)
    ∷ ("AllocConfigDev", pragma 0x30 0x00)
    ∷ ("AllocExpansionMem", pragma 0x36 0x1002)
    ∷ ("ConfigBoard", pragma 0x3c 0x9802)
    ∷ ("ConfigChain", pragma 0x42 0x801)
    ∷ ("FindConfigDev", pragma 0x48 0x10803)
    ∷ ("FreeBoardMem", pragma 0x4e 0x1002)
    ∷ ("FreeConfigDev", pragma 0x54 0x801)
    ∷ ("FreeExpansionMem", pragma 0x5a 0x1002)
    ∷ ("ReadExpansionByte", pragma 0x60 0x0802)
    ∷ ("ReadExpansionRom", pragma 0x66 0x9802)
    ∷ ("RemConfigDev", pragma 0x6c 0x801)
    ∷ ("WriteExpansionByte", pragma 0x72 0x10803)
    ∷ ("ObtainConfigBinding", pragma 0x78 0x00)
    ∷ ("ReleaseConfigBinding", pragma 0x7e 0x00)
    ∷ ("SetCurrentBinding", pragma 0x84 0x0802)
    ∷ ("GetCurrentBinding", pragma 0x8a 0x0802)
    ∷ ("MakeDosNode", pragma 0x90 0x801)
    ∷ ("AddDosNode", pragma 0x96 0x81003)
    ∷ []
