-- ===== src/Abi/Support/Utility.antt =====
-- The stubs with a fixed number of arguments of targets/m68k-amigaos/include/inline/utility_protos.h and the
-- `libcall` pragmas of targets/m68k-amigaos/ndk/include_h/pragmas/utility_pragmas.h.
use amiga_dev.Common.{[], ◌∷◌, ◌++◌}
use amiga_dev.Abi.{d, a, Stub, stub, in_order, Pragma, pragma, Table}

-- `FindTagItem` to `GetUniqueID`.
unfoldable pub utility_stubs : Table Stub
utility_stubs =
    ("FindTagItem", stub 30 (in_order (d 0 ∷ a 0 ∷ [])))
    ∷ ("GetTagData", stub 36 (in_order (d 0 ∷ d 1 ∷ a 0 ∷ [])))
    ∷ ("PackBoolTags", stub 42 (in_order (d 0 ∷ a 0 ∷ a 1 ∷ [])))
    ∷ ("NextTagItem", stub 48 (in_order (a 0 ∷ [])))
    ∷ ("FilterTagChanges", stub 54 (in_order (a 0 ∷ a 1 ∷ d 0 ∷ [])))
    ∷ ("MapTags", stub 60 (in_order (a 0 ∷ a 1 ∷ d 0 ∷ [])))
    ∷ ("AllocateTagItems", stub 66 (in_order (d 0 ∷ [])))
    ∷ ("CloneTagItems", stub 72 (in_order (a 0 ∷ [])))
    ∷ ("FreeTagItems", stub 78 (in_order (a 0 ∷ [])))
    ∷ ("RefreshTagItemClones", stub 84 (in_order (a 0 ∷ a 1 ∷ [])))
    ∷ ("TagInArray", stub 90 (in_order (d 0 ∷ a 0 ∷ [])))
    ∷ ("FilterTagItems", stub 96 (in_order (a 0 ∷ a 1 ∷ d 0 ∷ [])))
    ∷ ("CallHookPkt", stub 102 (in_order (a 0 ∷ a 2 ∷ a 1 ∷ [])))
    ∷ ("Amiga2Date", stub 120 (in_order (d 0 ∷ a 0 ∷ [])))
    ∷ ("Date2Amiga", stub 126 (in_order (a 0 ∷ [])))
    ∷ ("CheckDate", stub 132 (in_order (a 0 ∷ [])))
    ∷ ("SMult32", stub 138 (in_order (d 0 ∷ d 1 ∷ [])))
    ∷ ("UMult32", stub 144 (in_order (d 0 ∷ d 1 ∷ [])))
    ∷ ("SDivMod32", stub 150 (in_order (d 0 ∷ d 1 ∷ [])))
    ∷ ("UDivMod32", stub 156 (in_order (d 0 ∷ d 1 ∷ [])))
    ∷ ("Stricmp", stub 162 (in_order (a 0 ∷ a 1 ∷ [])))
    ∷ ("Strnicmp", stub 168 (in_order (a 0 ∷ a 1 ∷ d 0 ∷ [])))
    ∷ ("ToUpper", stub 174 (in_order (d 0 ∷ [])))
    ∷ ("ToLower", stub 180 (in_order (d 0 ∷ [])))
    ∷ ("ApplyTagChanges", stub 186 (in_order (a 0 ∷ a 1 ∷ [])))
    ∷ ("SMult64", stub 198 (in_order (d 0 ∷ d 1 ∷ [])))
    ∷ ("UMult64", stub 204 (in_order (d 0 ∷ d 1 ∷ [])))
    ∷ ("PackStructureTags", stub 210 (in_order (a 0 ∷ a 1 ∷ a 2 ∷ [])))
    ∷ ("UnpackStructureTags", stub 216 (in_order (a 0 ∷ a 1 ∷ a 2 ∷ [])))
    ∷ ("AddNamedObject", stub 222 (in_order (a 0 ∷ a 1 ∷ [])))
    ∷ ("AllocNamedObjectA", stub 228 (in_order (a 0 ∷ a 1 ∷ [])))
    ∷ ("AttemptRemNamedObject", stub 234 (in_order (a 0 ∷ [])))
    ∷ ("FindNamedObject", stub 240 (in_order (a 0 ∷ a 1 ∷ a 2 ∷ [])))
    ∷ ("FreeNamedObject", stub 246 (in_order (a 0 ∷ [])))
    ∷ ("NamedObjectName", stub 252 (in_order (a 0 ∷ [])))
    ∷ ("ReleaseNamedObject", stub 258 (in_order (a 0 ∷ [])))
    ∷ ("RemNamedObject", stub 264 (in_order (a 0 ∷ a 1 ∷ [])))
    ∷ ("GetUniqueID", stub 270 [])
    ∷ []

-- `FindTagItem` to `RemNamedObject`.
unfoldable pub pragmas_findtagitem_to_remnamedobject : Table Pragma
pragmas_findtagitem_to_remnamedobject =
    ("FindTagItem", pragma 0x1e 0x8002)
    ∷ ("GetTagData", pragma 0x24 0x81003)
    ∷ ("PackBoolTags", pragma 0x2a 0x98003)
    ∷ ("NextTagItem", pragma 0x30 0x801)
    ∷ ("FilterTagChanges", pragma 0x36 0x09803)
    ∷ ("MapTags", pragma 0x3c 0x09803)
    ∷ ("AllocateTagItems", pragma 0x42 0x001)
    ∷ ("CloneTagItems", pragma 0x48 0x801)
    ∷ ("FreeTagItems", pragma 0x4e 0x801)
    ∷ ("RefreshTagItemClones", pragma 0x54 0x9802)
    ∷ ("TagInArray", pragma 0x5a 0x8002)
    ∷ ("FilterTagItems", pragma 0x60 0x09803)
    ∷ ("CallHookPkt", pragma 0x66 0x9A803)
    ∷ ("Amiga2Date", pragma 0x78 0x8002)
    ∷ ("Date2Amiga", pragma 0x7e 0x801)
    ∷ ("CheckDate", pragma 0x84 0x801)
    ∷ ("SMult32", pragma 0x8a 0x1002)
    ∷ ("UMult32", pragma 0x90 0x1002)
    ∷ ("SDivMod32", pragma 0x96 0x1002)
    ∷ ("UDivMod32", pragma 0x9c 0x1002)
    ∷ ("Stricmp", pragma 0xa2 0x9802)
    ∷ ("Strnicmp", pragma 0xa8 0x09803)
    ∷ ("ToUpper", pragma 0xae 0x001)
    ∷ ("ToLower", pragma 0xb4 0x001)
    ∷ ("ApplyTagChanges", pragma 0xba 0x9802)
    ∷ ("SMult64", pragma 0xc6 0x1002)
    ∷ ("UMult64", pragma 0xcc 0x1002)
    ∷ ("PackStructureTags", pragma 0xd2 0xA9803)
    ∷ ("UnpackStructureTags", pragma 0xd8 0xA9803)
    ∷ ("AddNamedObject", pragma 0xde 0x9802)
    ∷ ("AllocNamedObjectA", pragma 0xe4 0x9802)
    ∷ ("AttemptRemNamedObject", pragma 0xea 0x801)
    ∷ ("FindNamedObject", pragma 0xf0 0xA9803)
    ∷ ("FreeNamedObject", pragma 0xf6 0x801)
    ∷ ("NamedObjectName", pragma 0xfc 0x801)
    ∷ ("ReleaseNamedObject", pragma 0x102 0x801)
    ∷ ("RemNamedObject", pragma 0x108 0x9802)
    ∷ []

-- `GetUniqueID` to `GetUniqueID`.
unfoldable pub pragmas_getuniqueid_to_getuniqueid : Table Pragma
pragmas_getuniqueid_to_getuniqueid = ("GetUniqueID", pragma 0x10e 0x00) ∷ []

unfoldable pub utility_pragmas : Table Pragma
unfolding pragmas_findtagitem_to_remnamedobject pragmas_getuniqueid_to_getuniqueid
utility_pragmas = pragmas_findtagitem_to_remnamedobject ++ pragmas_getuniqueid_to_getuniqueid
