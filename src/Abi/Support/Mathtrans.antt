-- ===== src/Abi/Support/Mathtrans.antt =====
-- The stubs with a fixed number of arguments of targets/m68k-amigaos/include/inline/mathtrans_protos.h and the
-- `libcall` pragmas of targets/m68k-amigaos/ndk/include_h/pragmas/mathtrans_pragmas.h.
use amiga_dev.Common.{[], ◌∷◌}
use amiga_dev.Abi.{d, Stub, stub, in_order, Pragma, pragma, Table}

-- `SPAtan` to `SPLog10`.
unfoldable pub mathtrans_stubs : Table Stub
mathtrans_stubs =
    ("SPAtan", stub 30 (in_order (d 0 ∷ [])))
    ∷ ("SPSin", stub 36 (in_order (d 0 ∷ [])))
    ∷ ("SPCos", stub 42 (in_order (d 0 ∷ [])))
    ∷ ("SPTan", stub 48 (in_order (d 0 ∷ [])))
    ∷ ("SPSincos", stub 54 (in_order (d 1 ∷ d 0 ∷ [])))
    ∷ ("SPSinh", stub 60 (in_order (d 0 ∷ [])))
    ∷ ("SPCosh", stub 66 (in_order (d 0 ∷ [])))
    ∷ ("SPTanh", stub 72 (in_order (d 0 ∷ [])))
    ∷ ("SPExp", stub 78 (in_order (d 0 ∷ [])))
    ∷ ("SPLog", stub 84 (in_order (d 0 ∷ [])))
    ∷ ("SPPow", stub 90 (in_order (d 1 ∷ d 0 ∷ [])))
    ∷ ("SPSqrt", stub 96 (in_order (d 0 ∷ [])))
    ∷ ("SPTieee", stub 102 (in_order (d 0 ∷ [])))
    ∷ ("SPFieee", stub 108 (in_order (d 0 ∷ [])))
    ∷ ("SPAsin", stub 114 (in_order (d 0 ∷ [])))
    ∷ ("SPAcos", stub 120 (in_order (d 0 ∷ [])))
    ∷ ("SPLog10", stub 126 (in_order (d 0 ∷ [])))
    ∷ []

-- `SPAtan` to `SPLog10`.
unfoldable pub mathtrans_pragmas : Table Pragma
mathtrans_pragmas =
    ("SPAtan", pragma 0x1e 0x001)
    ∷ ("SPSin", pragma 0x24 0x001)
    ∷ ("SPCos", pragma 0x2a 0x001)
    ∷ ("SPTan", pragma 0x30 0x001)
    ∷ ("SPSincos", pragma 0x36 0x0102)
    ∷ ("SPSinh", pragma 0x3c 0x001)
    ∷ ("SPCosh", pragma 0x42 0x001)
    ∷ ("SPTanh", pragma 0x48 0x001)
    ∷ ("SPExp", pragma 0x4e 0x001)
    ∷ ("SPLog", pragma 0x54 0x001)
    ∷ ("SPPow", pragma 0x5a 0x0102)
    ∷ ("SPSqrt", pragma 0x60 0x001)
    ∷ ("SPTieee", pragma 0x66 0x001)
    ∷ ("SPFieee", pragma 0x6c 0x001)
    ∷ ("SPAsin", pragma 0x72 0x001)
    ∷ ("SPAcos", pragma 0x78 0x001)
    ∷ ("SPLog10", pragma 0x7e 0x001)
    ∷ []
