-- ===== src/Abi/Support/Disk.antt =====
-- The stubs with a fixed number of arguments of targets/m68k-amigaos/include/inline/disk_protos.h and the
-- `libcall` pragmas of targets/m68k-amigaos/ndk/include_h/pragmas/disk_pragmas.h.
use amiga_dev.Common.{[], ◌∷◌}
use amiga_dev.Abi.{d, a, Stub, stub, in_order, Pragma, pragma, Table}

-- `AllocUnit` to `ReadUnitID`.
unfoldable pub disk_stubs : Table Stub
disk_stubs =
    ("AllocUnit", stub 6 (in_order (d 0 ∷ [])))
    ∷ ("FreeUnit", stub 12 (in_order (d 0 ∷ [])))
    ∷ ("GetUnit", stub 18 (in_order (a 1 ∷ [])))
    ∷ ("GiveUnit", stub 24 [])
    ∷ ("GetUnitID", stub 30 (in_order (d 0 ∷ [])))
    ∷ ("ReadUnitID", stub 36 (in_order (d 0 ∷ [])))
    ∷ []

-- `AllocUnit` to `ReadUnitID`.
unfoldable pub disk_pragmas : Table Pragma
disk_pragmas =
    ("AllocUnit", pragma 0x6 0x001)
    ∷ ("FreeUnit", pragma 0xc 0x001)
    ∷ ("GetUnit", pragma 0x12 0x901)
    ∷ ("GiveUnit", pragma 0x18 0x00)
    ∷ ("GetUnitID", pragma 0x1e 0x001)
    ∷ ("ReadUnitID", pragma 0x24 0x001)
    ∷ []
