-- ===== src/Abi/Support/Iffparse.antt =====
-- The stubs with a fixed number of arguments of targets/m68k-amigaos/include/inline/iffparse_protos.h and the
-- `libcall` pragmas of targets/m68k-amigaos/ndk/include_h/pragmas/iffparse_pragmas.h.
use amiga_dev.Common.{[], ◌∷◌}
use amiga_dev.Abi.{d, a, Stub, stub, in_order, Pragma, pragma, Table}

-- `AllocIFF` to `IDtoStr`.
unfoldable pub iffparse_stubs : Table Stub
iffparse_stubs =
    ("AllocIFF", stub 30 [])
    ∷ ("OpenIFF", stub 36 (in_order (a 0 ∷ d 0 ∷ [])))
    ∷ ("ParseIFF", stub 42 (in_order (a 0 ∷ d 0 ∷ [])))
    ∷ ("CloseIFF", stub 48 (in_order (a 0 ∷ [])))
    ∷ ("FreeIFF", stub 54 (in_order (a 0 ∷ [])))
    ∷ ("ReadChunkBytes", stub 60 (in_order (a 0 ∷ a 1 ∷ d 0 ∷ [])))
    ∷ ("WriteChunkBytes", stub 66 (in_order (a 0 ∷ a 1 ∷ d 0 ∷ [])))
    ∷ ("ReadChunkRecords", stub 72 (in_order (a 0 ∷ a 1 ∷ d 0 ∷ d 1 ∷ [])))
    ∷ ("WriteChunkRecords", stub 78 (in_order (a 0 ∷ a 1 ∷ d 0 ∷ d 1 ∷ [])))
    ∷ ("PushChunk", stub 84 (in_order (a 0 ∷ d 0 ∷ d 1 ∷ d 2 ∷ [])))
    ∷ ("PopChunk", stub 90 (in_order (a 0 ∷ [])))
    ∷ ("EntryHandler", stub 102 (in_order (a 0 ∷ d 0 ∷ d 1 ∷ d 2 ∷ a 1 ∷ a 2 ∷ [])))
    ∷ ("ExitHandler", stub 108 (in_order (a 0 ∷ d 0 ∷ d 1 ∷ d 2 ∷ a 1 ∷ a 2 ∷ [])))
    ∷ ("PropChunk", stub 114 (in_order (a 0 ∷ d 0 ∷ d 1 ∷ [])))
    ∷ ("PropChunks", stub 120 (in_order (a 0 ∷ a 1 ∷ d 0 ∷ [])))
    ∷ ("StopChunk", stub 126 (in_order (a 0 ∷ d 0 ∷ d 1 ∷ [])))
    ∷ ("StopChunks", stub 132 (in_order (a 0 ∷ a 1 ∷ d 0 ∷ [])))
    ∷ ("CollectionChunk", stub 138 (in_order (a 0 ∷ d 0 ∷ d 1 ∷ [])))
    ∷ ("CollectionChunks", stub 144 (in_order (a 0 ∷ a 1 ∷ d 0 ∷ [])))
    ∷ ("StopOnExit", stub 150 (in_order (a 0 ∷ d 0 ∷ d 1 ∷ [])))
    ∷ ("FindProp", stub 156 (in_order (a 0 ∷ d 0 ∷ d 1 ∷ [])))
    ∷ ("FindCollection", stub 162 (in_order (a 0 ∷ d 0 ∷ d 1 ∷ [])))
    ∷ ("FindPropContext", stub 168 (in_order (a 0 ∷ [])))
    ∷ ("CurrentChunk", stub 174 (in_order (a 0 ∷ [])))
    ∷ ("ParentChunk", stub 180 (in_order (a 0 ∷ [])))
    ∷ ("AllocLocalItem", stub 186 (in_order (d 0 ∷ d 1 ∷ d 2 ∷ d 3 ∷ [])))
    ∷ ("LocalItemData", stub 192 (in_order (a 0 ∷ [])))
    ∷ ("SetLocalItemPurge", stub 198 (in_order (a 0 ∷ a 1 ∷ [])))
    ∷ ("FreeLocalItem", stub 204 (in_order (a 0 ∷ [])))
    ∷ ("FindLocalItem", stub 210 (in_order (a 0 ∷ d 0 ∷ d 1 ∷ d 2 ∷ [])))
    ∷ ("StoreLocalItem", stub 216 (in_order (a 0 ∷ a 1 ∷ d 0 ∷ [])))
    ∷ ("StoreItemInContext", stub 222 (in_order (a 0 ∷ a 1 ∷ a 2 ∷ [])))
    ∷ ("InitIFF", stub 228 (in_order (a 0 ∷ d 0 ∷ a 1 ∷ [])))
    ∷ ("InitIFFasDOS", stub 234 (in_order (a 0 ∷ [])))
    ∷ ("InitIFFasClip", stub 240 (in_order (a 0 ∷ [])))
    ∷ ("OpenClipboard", stub 246 (in_order (d 0 ∷ [])))
    ∷ ("CloseClipboard", stub 252 (in_order (a 0 ∷ [])))
    ∷ ("GoodID", stub 258 (in_order (d 0 ∷ [])))
    ∷ ("GoodType", stub 264 (in_order (d 0 ∷ [])))
    ∷ ("IDtoStr", stub 270 (in_order (d 0 ∷ a 0 ∷ [])))
    ∷ []

-- `AllocIFF` to `IDtoStr`.
unfoldable pub iffparse_pragmas : Table Pragma
iffparse_pragmas =
    ("AllocIFF", pragma 0x1e 0x00)
    ∷ ("OpenIFF", pragma 0x24 0x0802)
    ∷ ("ParseIFF", pragma 0x2a 0x0802)
    ∷ ("CloseIFF", pragma 0x30 0x801)
    ∷ ("FreeIFF", pragma 0x36 0x801)
    ∷ ("ReadChunkBytes", pragma 0x3c 0x09803)
    ∷ ("WriteChunkBytes", pragma 0x42 0x09803)
    ∷ ("ReadChunkRecords", pragma 0x48 0x109804)
    ∷ ("WriteChunkRecords", pragma 0x4e 0x109804)
    ∷ ("PushChunk", pragma 0x54 0x210804)
    ∷ ("PopChunk", pragma 0x5a 0x801)
    ∷ ("EntryHandler", pragma 0x66 0xA9210806)
    ∷ ("ExitHandler", pragma 0x6c 0xA9210806)
    ∷ ("PropChunk", pragma 0x72 0x10803)
    ∷ ("PropChunks", pragma 0x78 0x09803)
    ∷ ("StopChunk", pragma 0x7e 0x10803)
    ∷ ("StopChunks", pragma 0x84 0x09803)
    ∷ ("CollectionChunk", pragma 0x8a 0x10803)
    ∷ ("CollectionChunks", pragma 0x90 0x09803)
    ∷ ("StopOnExit", pragma 0x96 0x10803)
    ∷ ("FindProp", pragma 0x9c 0x10803)
    ∷ ("FindCollection", pragma 0xa2 0x10803)
    ∷ ("FindPropContext", pragma 0xa8 0x801)
    ∷ ("CurrentChunk", pragma 0xae 0x801)
    ∷ ("ParentChunk", pragma 0xb4 0x801)
    ∷ ("AllocLocalItem", pragma 0xba 0x321004)
    ∷ ("LocalItemData", pragma 0xc0 0x801)
    ∷ ("SetLocalItemPurge", pragma 0xc6 0x9802)
    ∷ ("FreeLocalItem", pragma 0xcc 0x801)
    ∷ ("FindLocalItem", pragma 0xd2 0x210804)
    ∷ ("StoreLocalItem", pragma 0xd8 0x09803)
    ∷ ("StoreItemInContext", pragma 0xde 0xA9803)
    ∷ ("InitIFF", pragma 0xe4 0x90803)
    ∷ ("InitIFFasDOS", pragma 0xea 0x801)
    ∷ ("InitIFFasClip", pragma 0xf0 0x801)
    ∷ ("OpenClipboard", pragma 0xf6 0x001)
    ∷ ("CloseClipboard", pragma 0xfc 0x801)
    ∷ ("GoodID", pragma 0x102 0x001)
    ∷ ("GoodType", pragma 0x108 0x001)
    ∷ ("IDtoStr", pragma 0x10e 0x8002)
    ∷ []
