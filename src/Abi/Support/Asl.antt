-- ===== src/Abi/Support/Asl.antt =====
-- The stubs with a fixed number of arguments of targets/m68k-amigaos/include/inline/asl_protos.h and the
-- `libcall` pragmas of targets/m68k-amigaos/ndk/include_h/pragmas/asl_pragmas.h.
use amiga_dev.Common.{[], ◌∷◌}
use amiga_dev.Abi.{d, a, Stub, stub, in_order, Pragma, pragma, Table}

-- `AllocFileRequest` to `ActivateAslRequest`.
unfoldable pub asl_stubs : Table Stub
asl_stubs =
    ("AllocFileRequest", stub 30 [])
    ∷ ("FreeFileRequest", stub 36 (in_order (a 0 ∷ [])))
    ∷ ("RequestFile", stub 42 (in_order (a 0 ∷ [])))
    ∷ ("AllocAslRequest", stub 48 (in_order (d 0 ∷ a 0 ∷ [])))
    ∷ ("FreeAslRequest", stub 54 (in_order (a 0 ∷ [])))
    ∷ ("AslRequest", stub 60 (in_order (a 0 ∷ a 1 ∷ [])))
    ∷ ("AbortAslRequest", stub 78 (in_order (a 0 ∷ [])))
    ∷ ("ActivateAslRequest", stub 84 (in_order (a 0 ∷ [])))
    ∷ []

-- `AllocFileRequest` to `ActivateAslRequest`.
unfoldable pub asl_pragmas : Table Pragma
asl_pragmas =
    ("AllocFileRequest", pragma 0x1e 0x00)
    ∷ ("FreeFileRequest", pragma 0x24 0x801)
    ∷ ("RequestFile", pragma 0x2a 0x801)
    ∷ ("AllocAslRequest", pragma 0x30 0x8002)
    ∷ ("FreeAslRequest", pragma 0x36 0x801)
    ∷ ("AslRequest", pragma 0x3c 0x9802)
    ∷ ("AbortAslRequest", pragma 0x4e 0x801)
    ∷ ("ActivateAslRequest", pragma 0x54 0x801)
    ∷ []
