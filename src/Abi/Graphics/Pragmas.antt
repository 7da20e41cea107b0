-- ===== src/Abi/Graphics/Pragmas.antt =====
-- The `libcall` pragmas of targets/m68k-amigaos/ndk/include_h/pragmas/graphics_pragmas.h.
use amiga_dev.Common.{[], ◌∷◌, ◌++◌}
use amiga_dev.Abi.{Pragma, pragma, Table}

-- `BltBitMap` to `ReadPixel`.
unfoldable pub pragmas_bltbitmap_to_readpixel : Table Pragma
pragmas_bltbitmap_to_readpixel =
    ("BltBitMap", pragma 0x1e 0xA76543291080B)
    ∷ ("BltTemplate", pragma 0x24 0x5432910808)
    ∷ ("ClearEOL", pragma 0x2a 0x901)
    ∷ ("ClearScreen", pragma 0x30 0x901)
    ∷ ("TextLength", pragma 0x36 0x08903)
    ∷ ("Text", pragma 0x3c 0x08903)
    ∷ ("SetFont", pragma 0x42 0x8902)
    ∷ ("OpenFont", pragma 0x48 0x801)
    ∷ ("CloseFont", pragma 0x4e 0x901)
    ∷ ("AskSoftStyle", pragma 0x54 0x901)
    ∷ ("SetSoftStyle", pragma 0x5a 0x10903)
    ∷ ("AddBob", pragma 0x60 0x9802)
    ∷ ("AddVSprite", pragma 0x66 0x9802)
    ∷ ("DoCollision", pragma 0x6c 0x901)
    ∷ ("DrawGList", pragma 0x72 0x8902)
    ∷ ("InitGels", pragma 0x78 0xA9803)
    ∷ ("InitMasks", pragma 0x7e 0x801)
    ∷ ("RemIBob", pragma 0x84 0xA9803)
    ∷ ("RemVSprite", pragma 0x8a 0x801)
    ∷ ("SetCollision", pragma 0x90 0x98003)
    ∷ ("SortGList", pragma 0x96 0x901)
    ∷ ("AddAnimOb", pragma 0x9c 0xA9803)
    ∷ ("Animate", pragma 0xa2 0x9802)
    ∷ ("GetGBuffers", pragma 0xa8 0x09803)
    ∷ ("InitGMasks", pragma 0xae 0x801)
    ∷ ("DrawEllipse", pragma 0xb4 0x3210905)
    ∷ ("AreaEllipse", pragma 0xba 0x3210905)
    ∷ ("LoadRGB4", pragma 0xc0 0x09803)
    ∷ ("InitRastPort", pragma 0xc6 0x901)
    ∷ ("InitVPort", pragma 0xcc 0x801)
    ∷ ("MrgCop", pragma 0xd2 0x901)
    ∷ ("MakeVPort", pragma 0xd8 0x9802)
    ∷ ("LoadView", pragma 0xde 0x901)
    ∷ ("WaitBlit", pragma 0xe4 0x00)
    ∷ ("SetRast", pragma 0xea 0x0902)
    ∷ ("Move", pragma 0xf0 0x10903)
    ∷ ("Draw", pragma 0xf6 0x10903)
    ∷ ("AreaMove", pragma 0xfc 0x10903)
    ∷ ("AreaDraw", pragma 0x102 0x10903)
    ∷ ("AreaEnd", pragma 0x108 0x901)
    ∷ ("WaitTOF", pragma 0x10e 0x00)
    ∷ ("QBlit", pragma 0x114 0x901)
    ∷ ("InitArea", pragma 0x11a 0x09803)
    ∷ ("SetRGB4", pragma 0x120 0x3210805)
    ∷ ("QBSBlit", pragma 0x126 0x901)
    ∷ ("BltClear", pragma 0x12c 0x10903)
    ∷ ("RectFill", pragma 0x132 0x3210905)
    ∷ ("BltPattern", pragma 0x138 0x432108907)
    ∷ ("ReadPixel", pragma 0x13e 0x10903)
    ∷ []

-- `WritePixel` to `XorRegionRegion`.
unfoldable pub pragmas_writepixel_to_xorregionregion : Table Pragma
pragmas_writepixel_to_xorregionregion =
    ("WritePixel", pragma 0x144 0x10903)
    ∷ ("Flood", pragma 0x14a 0x102904)
    ∷ ("PolyDraw", pragma 0x150 0x80903)
    ∷ ("SetAPen", pragma 0x156 0x0902)
    ∷ ("SetBPen", pragma 0x15c 0x0902)
    ∷ ("SetDrMd", pragma 0x162 0x0902)
    ∷ ("InitView", pragma 0x168 0x901)
    ∷ ("CBump", pragma 0x16e 0x901)
    ∷ ("CMove", pragma 0x174 0x10903)
    ∷ ("CWait", pragma 0x17a 0x10903)
    ∷ ("VBeamPos", pragma 0x180 0x00)
    ∷ ("InitBitMap", pragma 0x186 0x210804)
    ∷ ("ScrollRaster", pragma 0x18c 0x543210907)
    ∷ ("WaitBOVP", pragma 0x192 0x801)
    ∷ ("GetSprite", pragma 0x198 0x0802)
    ∷ ("FreeSprite", pragma 0x19e 0x001)
    ∷ ("ChangeSprite", pragma 0x1a4 0xA9803)
    ∷ ("MoveSprite", pragma 0x1aa 0x109804)
    ∷ ("LockLayerRom", pragma 0x1b0 0xD01)
    ∷ ("UnlockLayerRom", pragma 0x1b6 0xD01)
    ∷ ("SyncSBitMap", pragma 0x1bc 0x801)
    ∷ ("CopySBitMap", pragma 0x1c2 0x801)
    ∷ ("OwnBlitter", pragma 0x1c8 0x00)
    ∷ ("DisownBlitter", pragma 0x1ce 0x00)
    ∷ ("InitTmpRas", pragma 0x1d4 0x09803)
    ∷ ("AskFont", pragma 0x1da 0x8902)
    ∷ ("AddFont", pragma 0x1e0 0x901)
    ∷ ("RemFont", pragma 0x1e6 0x901)
    ∷ ("AllocRaster", pragma 0x1ec 0x1002)
    ∷ ("FreeRaster", pragma 0x1f2 0x10803)
    ∷ ("AndRectRegion", pragma 0x1f8 0x9802)
    ∷ ("OrRectRegion", pragma 0x1fe 0x9802)
    ∷ ("NewRegion", pragma 0x204 0x00)
    ∷ ("ClearRectRegion", pragma 0x20a 0x9802)
    ∷ ("ClearRegion", pragma 0x210 0x801)
    ∷ ("DisposeRegion", pragma 0x216 0x801)
    ∷ ("FreeVPortCopLists", pragma 0x21c 0x801)
    ∷ ("FreeCopList", pragma 0x222 0x801)
    ∷ ("ClipBlit", pragma 0x228 0x65432910809)
    ∷ ("XorRectRegion", pragma 0x22e 0x9802)
    ∷ ("FreeCprList", pragma 0x234 0x801)
    ∷ ("GetColorMap", pragma 0x23a 0x001)
    ∷ ("FreeColorMap", pragma 0x240 0x801)
    ∷ ("GetRGB4", pragma 0x246 0x0802)
    ∷ ("ScrollVPort", pragma 0x24c 0x801)
    ∷ ("UCopperListInit", pragma 0x252 0x0802)
    ∷ ("FreeGBuffers", pragma 0x258 0x09803)
    ∷ ("BltBitMapRastPort", pragma 0x25e 0x65432910809)
    ∷ ("OrRegionRegion", pragma 0x264 0x9802)
    ∷ ("XorRegionRegion", pragma 0x26a 0x9802)
    ∷ []

-- `AndRegionRegion` to `GetExtSpriteA`.
unfoldable pub pragmas_andregionregion_to_getextspritea : Table Pragma
pragmas_andregionregion_to_getextspritea =
    ("AndRegionRegion", pragma 0x270 0x9802)
    ∷ ("SetRGB4CM", pragma 0x276 0x3210805)
    ∷ ("BltMaskBitMapRastPort", pragma 0x27c 0xA6543291080A)
    ∷ ("AttemptLockLayerRom", pragma 0x28e 0xD01)
    ∷ ("GfxNew", pragma 0x294 0x001)
    ∷ ("GfxFree", pragma 0x29a 0x801)
    ∷ ("GfxAssociate", pragma 0x2a0 0x9802)
    ∷ ("BitMapScale", pragma 0x2a6 0x801)
    ∷ ("ScalerDiv", pragma 0x2ac 0x21003)
    ∷ ("TextExtent", pragma 0x2b2 0xA08904)
    ∷ ("TextFit", pragma 0x2b8 0x321BA08908)
    ∷ ("GfxLookUp", pragma 0x2be 0x801)
    ∷ ("VideoControl", pragma 0x2c4 0x9802)
    ∷ ("OpenMonitor", pragma 0x2ca 0x0902)
    ∷ ("CloseMonitor", pragma 0x2d0 0x801)
    ∷ ("FindDisplayInfo", pragma 0x2d6 0x001)
    ∷ ("NextDisplayInfo", pragma 0x2dc 0x001)
    ∷ ("GetDisplayInfoData", pragma 0x2f4 0x2109805)
    ∷ ("FontExtent", pragma 0x2fa 0x9802)
    ∷ ("ReadPixelLine8", pragma 0x300 0x9A210806)
    ∷ ("WritePixelLine8", pragma 0x306 0x9A210806)
    ∷ ("ReadPixelArray8", pragma 0x30c 0x9A3210807)
    ∷ ("WritePixelArray8", pragma 0x312 0x9A3210807)
    ∷ ("GetVPModeID", pragma 0x318 0x801)
    ∷ ("ModeNotAvailable", pragma 0x31e 0x001)
    ∷ ("EraseRect", pragma 0x32a 0x3210905)
    ∷ ("ExtendFont", pragma 0x330 0x9802)
    ∷ ("StripFont", pragma 0x336 0x801)
    ∷ ("CalcIVG", pragma 0x33c 0x9802)
    ∷ ("AttachPalExtra", pragma 0x342 0x9802)
    ∷ ("ObtainBestPenA", pragma 0x348 0x9321805)
    ∷ ("SetRGB32", pragma 0x354 0x3210805)
    ∷ ("GetAPen", pragma 0x35a 0x801)
    ∷ ("GetBPen", pragma 0x360 0x801)
    ∷ ("GetDrMd", pragma 0x366 0x801)
    ∷ ("GetOutlinePen", pragma 0x36c 0x801)
    ∷ ("LoadRGB32", pragma 0x372 0x9802)
    ∷ ("SetChipRev", pragma 0x378 0x001)
    ∷ ("SetABPenDrMd", pragma 0x37e 0x210904)
    ∷ ("GetRGB32", pragma 0x384 0x910804)
    ∷ ("AllocBitMap", pragma 0x396 0x8321005)
    ∷ ("FreeBitMap", pragma 0x39c 0x801)
    ∷ ("GetExtSpriteA", pragma 0x3a2 0x9A02)
    ∷ []

-- `CoerceMode` to `WriteChunkyPixels`.
unfoldable pub pragmas_coercemode_to_writechunkypixels : Table Pragma
pragmas_coercemode_to_writechunkypixels =
    ("CoerceMode", pragma 0x3a8 0x10803)
    ∷ ("ChangeVPBitMap", pragma 0x3ae 0xA9803)
    ∷ ("ReleasePen", pragma 0x3b4 0x0802)
    ∷ ("ObtainPen", pragma 0x3ba 0x43210806)
    ∷ ("GetBitMapAttr", pragma 0x3c0 0x1802)
    ∷ ("AllocDBufInfo", pragma 0x3c6 0x801)
    ∷ ("FreeDBufInfo", pragma 0x3cc 0x901)
    ∷ ("SetOutlinePen", pragma 0x3d2 0x0802)
    ∷ ("SetWriteMask", pragma 0x3d8 0x0802)
    ∷ ("SetMaxPen", pragma 0x3de 0x0802)
    ∷ ("SetRGB32CM", pragma 0x3e4 0x3210805)
    ∷ ("ScrollRasterBF", pragma 0x3ea 0x543210907)
    ∷ ("FindColor", pragma 0x3f0 0x4321B05)
    ∷ ("AllocSpriteDataA", pragma 0x3fc 0x9A02)
    ∷ ("ChangeExtSpriteA", pragma 0x402 0xBA9804)
    ∷ ("FreeSpriteData", pragma 0x408 0xA01)
    ∷ ("SetRPAttrsA", pragma 0x40e 0x9802)
    ∷ ("GetRPAttrsA", pragma 0x414 0x9802)
    ∷ ("BestModeIDA", pragma 0x41a 0x801)
    ∷ ("WriteChunkyPixels", pragma 0x420 0x4A3210807)
    ∷ []

unfoldable pub graphics_pragmas : Table Pragma
unfolding pragmas_bltbitmap_to_readpixel pragmas_writepixel_to_xorregionregion
    pragmas_andregionregion_to_getextspritea pragmas_coercemode_to_writechunkypixels
graphics_pragmas =
    pragmas_bltbitmap_to_readpixel
    ++ (pragmas_writepixel_to_xorregionregion
        ++ (pragmas_andregionregion_to_getextspritea ++ pragmas_coercemode_to_writechunkypixels))
