-- ===== src/Abi/Support/Mathffp.antt =====
-- The stubs with a fixed number of arguments of targets/m68k-amigaos/include/inline/mathffp_protos.h and the
-- `libcall` pragmas of targets/m68k-amigaos/ndk/include_h/pragmas/mathffp_pragmas.h.
use amiga_dev.Common.{[], ◌∷◌}
use amiga_dev.Abi.{d, Stub, stub, in_order, Pragma, pragma, Table}

-- `SPFix` to `SPCeil`.
unfoldable pub mathffp_stubs : Table Stub
mathffp_stubs =
    ("SPFix", stub 30 (in_order (d 0 ∷ [])))
    ∷ ("SPFlt", stub 36 (in_order (d 0 ∷ [])))
    ∷ ("SPCmp", stub 42 (in_order (d 1 ∷ d 0 ∷ [])))
    ∷ ("SPTst", stub 48 (in_order (d 1 ∷ [])))
    ∷ ("SPAbs", stub 54 (in_order (d 0 ∷ [])))
    ∷ ("SPNeg", stub 60 (in_order (d 0 ∷ [])))
    ∷ ("SPAdd", stub 66 (in_order (d 1 ∷ d 0 ∷ [])))
    ∷ ("SPSub", stub 72 (in_order (d 1 ∷ d 0 ∷ [])))
    ∷ ("SPMul", stub 78 (in_order (d 1 ∷ d 0 ∷ [])))
    ∷ ("SPDiv", stub 84 (in_order (d 1 ∷ d 0 ∷ [])))
    ∷ ("SPFloor", stub 90 (in_order (d 0 ∷ [])))
    ∷ ("SPCeil", stub 96 (in_order (d 0 ∷ [])))
    ∷ []

-- `SPFix` to `SPCeil`.
unfoldable pub mathffp_pragmas : Table Pragma
mathffp_pragmas =
    ("SPFix", pragma 0x1e 0x001)
    ∷ ("SPFlt", pragma 0x24 0x001)
    ∷ ("SPCmp", pragma 0x2a 0x0102)
    ∷ ("SPTst", pragma 0x30 0x101)
    ∷ ("SPAbs", pragma 0x36 0x001)
    ∷ ("SPNeg", pragma 0x3c 0x001)
    ∷ ("SPAdd", pragma 0x42 0x0102)
    ∷ ("SPSub", pragma 0x48 0x0102)
    ∷ ("SPMul", pragma 0x4e 0x0102)
    ∷ ("SPDiv", pragma 0x54 0x0102)
    ∷ ("SPFloor", pragma 0x5a 0x001)
    ∷ ("SPCeil", pragma 0x60 0x001)
    ∷ []
