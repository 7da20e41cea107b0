-- ===== src/Abi/Support/Layers.antt =====
-- The stubs with a fixed number of arguments of targets/m68k-amigaos/include/inline/layers_protos.h and the
-- `libcall` pragmas of targets/m68k-amigaos/ndk/include_h/pragmas/layers_pragmas.h.
use amiga_dev.Common.{[], ◌∷◌}
use amiga_dev.Abi.{d, a, Stub, stub, in_order, Pragma, pragma, Table}

-- `InitLayers` to `DoHookClipRects`.
unfoldable pub layers_stubs : Table Stub
layers_stubs =
    ("InitLayers", stub 30 (in_order (a 0 ∷ [])))
    ∷ (
      "CreateUpfrontLayer",
      stub 36 (in_order (a 0 ∷ a 1 ∷ d 0 ∷ d 1 ∷ d 2 ∷ d 3 ∷ d 4 ∷ a 2 ∷ [])),
    )
    ∷ ("CreateBehindLayer", stub 42 (in_order (a 0 ∷ a 1 ∷ d 0 ∷ d 1 ∷ d 2 ∷ d 3 ∷ d 4 ∷ a 2 ∷ [])))
    ∷ ("UpfrontLayer", stub 48 (in_order (a 0 ∷ a 1 ∷ [])))
    ∷ ("BehindLayer", stub 54 (in_order (a 0 ∷ a 1 ∷ [])))
    ∷ ("MoveLayer", stub 60 (in_order (a 0 ∷ a 1 ∷ d 0 ∷ d 1 ∷ [])))
    ∷ ("SizeLayer", stub 66 (in_order (a 0 ∷ a 1 ∷ d 0 ∷ d 1 ∷ [])))
    ∷ ("ScrollLayer", stub 72 (in_order (a 0 ∷ a 1 ∷ d 0 ∷ d 1 ∷ [])))
    ∷ ("BeginUpdate", stub 78 (in_order (a 0 ∷ [])))
    ∷ ("EndUpdate", stub 84 (in_order (a 0 ∷ d 0 ∷ [])))
    ∷ ("DeleteLayer", stub 90 (in_order (a 0 ∷ a 1 ∷ [])))
    ∷ ("LockLayer", stub 96 (in_order (a 0 ∷ a 1 ∷ [])))
    ∷ ("UnlockLayer", stub 102 (in_order (a 0 ∷ [])))
    ∷ ("LockLayers", stub 108 (in_order (a 0 ∷ [])))
    ∷ ("UnlockLayers", stub 114 (in_order (a 0 ∷ [])))
    ∷ ("LockLayerInfo", stub 120 (in_order (a 0 ∷ [])))
    ∷ ("SwapBitsRastPortClipRect", stub 126 (in_order (a 0 ∷ a 1 ∷ [])))
    ∷ ("WhichLayer", stub 132 (in_order (a 0 ∷ d 0 ∷ d 1 ∷ [])))
    ∷ ("UnlockLayerInfo", stub 138 (in_order (a 0 ∷ [])))
    ∷ ("NewLayerInfo", stub 144 [])
    ∷ ("DisposeLayerInfo", stub 150 (in_order (a 0 ∷ [])))
    ∷ ("FattenLayerInfo", stub 156 (in_order (a 0 ∷ [])))
    ∷ ("ThinLayerInfo", stub 162 (in_order (a 0 ∷ [])))
    ∷ ("MoveLayerInFrontOf", stub 168 (in_order (a 0 ∷ a 1 ∷ [])))
    ∷ ("InstallClipRegion", stub 174 (in_order (a 0 ∷ a 1 ∷ [])))
    ∷ ("MoveSizeLayer", stub 180 (in_order (a 0 ∷ d 0 ∷ d 1 ∷ d 2 ∷ d 3 ∷ [])))
    ∷ (
      "CreateUpfrontHookLayer",
      stub 186 (in_order (a 0 ∷ a 1 ∷ d 0 ∷ d 1 ∷ d 2 ∷ d 3 ∷ d 4 ∷ a 3 ∷ a 2 ∷ [])),
    )
    ∷ (
      "CreateBehindHookLayer",
      stub 192 (in_order (a 0 ∷ a 1 ∷ d 0 ∷ d 1 ∷ d 2 ∷ d 3 ∷ d 4 ∷ a 3 ∷ a 2 ∷ [])),
    )
    ∷ ("InstallLayerHook", stub 198 (in_order (a 0 ∷ a 1 ∷ [])))
    ∷ ("InstallLayerInfoHook", stub 204 (in_order (a 0 ∷ a 1 ∷ [])))
    ∷ ("SortLayerCR", stub 210 (in_order (a 0 ∷ d 0 ∷ d 1 ∷ [])))
    ∷ ("DoHookClipRects", stub 216 (in_order (a 0 ∷ a 1 ∷ a 2 ∷ [])))
    ∷ []

-- `InitLayers` to `DoHookClipRects`.
unfoldable pub layers_pragmas : Table Pragma
layers_pragmas =
    ("InitLayers", pragma 0x1e 0x801)
    ∷ ("CreateUpfrontLayer", pragma 0x24 0xA432109808)
    ∷ ("CreateBehindLayer", pragma 0x2a 0xA432109808)
    ∷ ("UpfrontLayer", pragma 0x30 0x9802)
    ∷ ("BehindLayer", pragma 0x36 0x9802)
    ∷ ("MoveLayer", pragma 0x3c 0x109804)
    ∷ ("SizeLayer", pragma 0x42 0x109804)
    ∷ ("ScrollLayer", pragma 0x48 0x109804)
    ∷ ("BeginUpdate", pragma 0x4e 0x801)
    ∷ ("EndUpdate", pragma 0x54 0x0802)
    ∷ ("DeleteLayer", pragma 0x5a 0x9802)
    ∷ ("LockLayer", pragma 0x60 0x9802)
    ∷ ("UnlockLayer", pragma 0x66 0x801)
    ∷ ("LockLayers", pragma 0x6c 0x801)
    ∷ ("UnlockLayers", pragma 0x72 0x801)
    ∷ ("LockLayerInfo", pragma 0x78 0x801)
    ∷ ("SwapBitsRastPortClipRect", pragma 0x7e 0x9802)
    ∷ ("WhichLayer", pragma 0x84 0x10803)
    ∷ ("UnlockLayerInfo", pragma 0x8a 0x801)
    ∷ ("NewLayerInfo", pragma 0x90 0x00)
    ∷ ("DisposeLayerInfo", pragma 0x96 0x801)
    ∷ ("FattenLayerInfo", pragma 0x9c 0x801)
    ∷ ("ThinLayerInfo", pragma 0xa2 0x801)
    ∷ ("MoveLayerInFrontOf", pragma 0xa8 0x9802)
    ∷ ("InstallClipRegion", pragma 0xae 0x9802)
    ∷ ("MoveSizeLayer", pragma 0xb4 0x3210805)
    ∷ ("CreateUpfrontHookLayer", pragma 0xba 0xAB432109809)
    ∷ ("CreateBehindHookLayer", pragma 0xc0 0xAB432109809)
    ∷ ("InstallLayerHook", pragma 0xc6 0x9802)
    ∷ ("InstallLayerInfoHook", pragma 0xcc 0x9802)
    ∷ ("SortLayerCR", pragma 0xd2 0x10803)
    ∷ ("DoHookClipRects", pragma 0xd8 0xA9803)
    ∷ []
