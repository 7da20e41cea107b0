-- ===== src/Abi/Graphics/Stubs.antt =====
-- The stubs with a fixed number of arguments of targets/m68k-amigaos/include/inline/graphics_protos.h.
use amiga_dev.Common.{[], ◌∷◌, ◌++◌}
use amiga_dev.Abi.{d, a, Stub, stub, in_order, Table}

-- `BltBitMap` to `WritePixel`.
unfoldable pub stubs_bltbitmap_to_writepixel : Table Stub
stubs_bltbitmap_to_writepixel =
    (
      "BltBitMap",
      stub 30 (in_order (a 0 ∷ d 0 ∷ d 1 ∷ a 1 ∷ d 2 ∷ d 3 ∷ d 4 ∷ d 5 ∷ d 6 ∷ d 7 ∷ a 2 ∷ [])),
    )
    ∷ ("BltTemplate", stub 36 (in_order (a 0 ∷ d 0 ∷ d 1 ∷ a 1 ∷ d 2 ∷ d 3 ∷ d 4 ∷ d 5 ∷ [])))
    ∷ ("ClearEOL", stub 42 (in_order (a 1 ∷ [])))
    ∷ ("ClearScreen", stub 48 (in_order (a 1 ∷ [])))
    ∷ ("TextLength", stub 54 (in_order (a 1 ∷ a 0 ∷ d 0 ∷ [])))
    ∷ ("Text", stub 60 (in_order (a 1 ∷ a 0 ∷ d 0 ∷ [])))
    ∷ ("SetFont", stub 66 (in_order (a 1 ∷ a 0 ∷ [])))
    ∷ ("OpenFont", stub 72 (in_order (a 0 ∷ [])))
    ∷ ("CloseFont", stub 78 (in_order (a 1 ∷ [])))
    ∷ ("AskSoftStyle", stub 84 (in_order (a 1 ∷ [])))
    ∷ ("SetSoftStyle", stub 90 (in_order (a 1 ∷ d 0 ∷ d 1 ∷ [])))
    ∷ ("AddBob", stub 96 (in_order (a 0 ∷ a 1 ∷ [])))
    ∷ ("AddVSprite", stub 102 (in_order (a 0 ∷ a 1 ∷ [])))
    ∷ ("DoCollision", stub 108 (in_order (a 1 ∷ [])))
    ∷ ("DrawGList", stub 114 (in_order (a 1 ∷ a 0 ∷ [])))
    ∷ ("InitGels", stub 120 (in_order (a 0 ∷ a 1 ∷ a 2 ∷ [])))
    ∷ ("InitMasks", stub 126 (in_order (a 0 ∷ [])))
    ∷ ("RemIBob", stub 132 (in_order (a 0 ∷ a 1 ∷ a 2 ∷ [])))
    ∷ ("RemVSprite", stub 138 (in_order (a 0 ∷ [])))
    ∷ ("SetCollision", stub 144 (in_order (d 0 ∷ a 0 ∷ a 1 ∷ [])))
    ∷ ("SortGList", stub 150 (in_order (a 1 ∷ [])))
    ∷ ("AddAnimOb", stub 156 (in_order (a 0 ∷ a 1 ∷ a 2 ∷ [])))
    ∷ ("Animate", stub 162 (in_order (a 0 ∷ a 1 ∷ [])))
    ∷ ("GetGBuffers", stub 168 (in_order (a 0 ∷ a 1 ∷ d 0 ∷ [])))
    ∷ ("InitGMasks", stub 174 (in_order (a 0 ∷ [])))
    ∷ ("DrawEllipse", stub 180 (in_order (a 1 ∷ d 0 ∷ d 1 ∷ d 2 ∷ d 3 ∷ [])))
    ∷ ("AreaEllipse", stub 186 (in_order (a 1 ∷ d 0 ∷ d 1 ∷ d 2 ∷ d 3 ∷ [])))
    ∷ ("LoadRGB4", stub 192 (in_order (a 0 ∷ a 1 ∷ d 0 ∷ [])))
    ∷ ("InitRastPort", stub 198 (in_order (a 1 ∷ [])))
    ∷ ("InitVPort", stub 204 (in_order (a 0 ∷ [])))
    ∷ ("MrgCop", stub 210 (in_order (a 1 ∷ [])))
    ∷ ("MakeVPort", stub 216 (in_order (a 0 ∷ a 1 ∷ [])))
    ∷ ("LoadView", stub 222 (in_order (a 1 ∷ [])))
    ∷ ("WaitBlit", stub 228 [])
    ∷ ("SetRast", stub 234 (in_order (a 1 ∷ d 0 ∷ [])))
    ∷ ("Move", stub 240 (in_order (a 1 ∷ d 0 ∷ d 1 ∷ [])))
    ∷ ("Draw", stub 246 (in_order (a 1 ∷ d 0 ∷ d 1 ∷ [])))
    ∷ ("AreaMove", stub 252 (in_order (a 1 ∷ d 0 ∷ d 1 ∷ [])))
    ∷ ("AreaDraw", stub 258 (in_order (a 1 ∷ d 0 ∷ d 1 ∷ [])))
    ∷ ("AreaEnd", stub 264 (in_order (a 1 ∷ [])))
    ∷ ("WaitTOF", stub 270 [])
    ∷ ("QBlit", stub 276 (in_order (a 1 ∷ [])))
    ∷ ("InitArea", stub 282 (in_order (a 0 ∷ a 1 ∷ d 0 ∷ [])))
    ∷ ("SetRGB4", stub 288 (in_order (a 0 ∷ d 0 ∷ d 1 ∷ d 2 ∷ d 3 ∷ [])))
    ∷ ("QBSBlit", stub 294 (in_order (a 1 ∷ [])))
    ∷ ("BltClear", stub 300 (in_order (a 1 ∷ d 0 ∷ d 1 ∷ [])))
    ∷ ("RectFill", stub 306 (in_order (a 1 ∷ d 0 ∷ d 1 ∷ d 2 ∷ d 3 ∷ [])))
    ∷ ("BltPattern", stub 312 (in_order (a 1 ∷ a 0 ∷ d 0 ∷ d 1 ∷ d 2 ∷ d 3 ∷ d 4 ∷ [])))
    ∷ ("ReadPixel", stub 318 (in_order (a 1 ∷ d 0 ∷ d 1 ∷ [])))
    ∷ ("WritePixel", stub 324 (in_order (a 1 ∷ d 0 ∷ d 1 ∷ [])))
    ∷ []

-- `Flood` to `AndRegionRegion`.
unfoldable pub stubs_flood_to_andregionregion : Table Stub
stubs_flood_to_andregionregion =
    ("Flood", stub 330 (in_order (a 1 ∷ d 2 ∷ d 0 ∷ d 1 ∷ [])))
    ∷ ("PolyDraw", stub 336 (in_order (a 1 ∷ d 0 ∷ a 0 ∷ [])))
    ∷ ("SetAPen", stub 342 (in_order (a 1 ∷ d 0 ∷ [])))
    ∷ ("SetBPen", stub 348 (in_order (a 1 ∷ d 0 ∷ [])))
    ∷ ("SetDrMd", stub 354 (in_order (a 1 ∷ d 0 ∷ [])))
    ∷ ("InitView", stub 360 (in_order (a 1 ∷ [])))
    ∷ ("CBump", stub 366 (in_order (a 1 ∷ [])))
    ∷ ("CMove", stub 372 (in_order (a 1 ∷ d 0 ∷ d 1 ∷ [])))
    ∷ ("CWait", stub 378 (in_order (a 1 ∷ d 0 ∷ d 1 ∷ [])))
    ∷ ("VBeamPos", stub 384 [])
    ∷ ("InitBitMap", stub 390 (in_order (a 0 ∷ d 0 ∷ d 1 ∷ d 2 ∷ [])))
    ∷ ("ScrollRaster", stub 396 (in_order (a 1 ∷ d 0 ∷ d 1 ∷ d 2 ∷ d 3 ∷ d 4 ∷ d 5 ∷ [])))
    ∷ ("WaitBOVP", stub 402 (in_order (a 0 ∷ [])))
    ∷ ("GetSprite", stub 408 (in_order (a 0 ∷ d 0 ∷ [])))
    ∷ ("FreeSprite", stub 414 (in_order (d 0 ∷ [])))
    ∷ ("ChangeSprite", stub 420 (in_order (a 0 ∷ a 1 ∷ a 2 ∷ [])))
    ∷ ("MoveSprite", stub 426 (in_order (a 0 ∷ a 1 ∷ d 0 ∷ d 1 ∷ [])))
    ∷ ("LockLayerRom", stub 432 (in_order (a 5 ∷ [])))
    ∷ ("UnlockLayerRom", stub 438 (in_order (a 5 ∷ [])))
    ∷ ("SyncSBitMap", stub 444 (in_order (a 0 ∷ [])))
    ∷ ("CopySBitMap", stub 450 (in_order (a 0 ∷ [])))
    ∷ ("OwnBlitter", stub 456 [])
    ∷ ("DisownBlitter", stub 462 [])
    ∷ ("InitTmpRas", stub 468 (in_order (a 0 ∷ a 1 ∷ d 0 ∷ [])))
    ∷ ("AskFont", stub 474 (in_order (a 1 ∷ a 0 ∷ [])))
    ∷ ("AddFont", stub 480 (in_order (a 1 ∷ [])))
    ∷ ("RemFont", stub 486 (in_order (a 1 ∷ [])))
    ∷ ("AllocRaster", stub 492 (in_order (d 0 ∷ d 1 ∷ [])))
    ∷ ("FreeRaster", stub 498 (in_order (a 0 ∷ d 0 ∷ d 1 ∷ [])))
    ∷ ("AndRectRegion", stub 504 (in_order (a 0 ∷ a 1 ∷ [])))
    ∷ ("OrRectRegion", stub 510 (in_order (a 0 ∷ a 1 ∷ [])))
    ∷ ("NewRegion", stub 516 [])
    ∷ ("ClearRectRegion", stub 522 (in_order (a 0 ∷ a 1 ∷ [])))
    ∷ ("ClearRegion", stub 528 (in_order (a 0 ∷ [])))
    ∷ ("DisposeRegion", stub 534 (in_order (a 0 ∷ [])))
    ∷ ("FreeVPortCopLists", stub 540 (in_order (a 0 ∷ [])))
    ∷ ("FreeCopList", stub 546 (in_order (a 0 ∷ [])))
    ∷ ("ClipBlit", stub 552 (in_order (a 0 ∷ d 0 ∷ d 1 ∷ a 1 ∷ d 2 ∷ d 3 ∷ d 4 ∷ d 5 ∷ d 6 ∷ [])))
    ∷ ("XorRectRegion", stub 558 (in_order (a 0 ∷ a 1 ∷ [])))
    ∷ ("FreeCprList", stub 564 (in_order (a 0 ∷ [])))
    ∷ ("GetColorMap", stub 570 (in_order (d 0 ∷ [])))
    ∷ ("FreeColorMap", stub 576 (in_order (a 0 ∷ [])))
    ∷ ("GetRGB4", stub 582 (in_order (a 0 ∷ d 0 ∷ [])))
    ∷ ("ScrollVPort", stub 588 (in_order (a 0 ∷ [])))
    ∷ ("UCopperListInit", stub 594 (in_order (a 0 ∷ d 0 ∷ [])))
    ∷ ("FreeGBuffers", stub 600 (in_order (a 0 ∷ a 1 ∷ d 0 ∷ [])))
    ∷ (
      "BltBitMapRastPort",
      stub 606 (in_order (a 0 ∷ d 0 ∷ d 1 ∷ a 1 ∷ d 2 ∷ d 3 ∷ d 4 ∷ d 5 ∷ d 6 ∷ [])),
    )
    ∷ ("OrRegionRegion", stub 612 (in_order (a 0 ∷ a 1 ∷ [])))
    ∷ ("XorRegionRegion", stub 618 (in_order (a 0 ∷ a 1 ∷ [])))
    ∷ ("AndRegionRegion", stub 624 (in_order (a 0 ∷ a 1 ∷ [])))
    ∷ []

-- `SetRGB4CM` to `GetBitMapAttr`.
unfoldable pub stubs_setrgb4cm_to_getbitmapattr : Table Stub
stubs_setrgb4cm_to_getbitmapattr =
    ("SetRGB4CM", stub 630 (in_order (a 0 ∷ d 0 ∷ d 1 ∷ d 2 ∷ d 3 ∷ [])))
    ∷ (
      "BltMaskBitMapRastPort",
      stub 636 (in_order (a 0 ∷ d 0 ∷ d 1 ∷ a 1 ∷ d 2 ∷ d 3 ∷ d 4 ∷ d 5 ∷ d 6 ∷ a 2 ∷ [])),
    )
    ∷ ("AttemptLockLayerRom", stub 654 (in_order (a 5 ∷ [])))
    ∷ ("GfxNew", stub 660 (in_order (d 0 ∷ [])))
    ∷ ("GfxFree", stub 666 (in_order (a 0 ∷ [])))
    ∷ ("GfxAssociate", stub 672 (in_order (a 0 ∷ a 1 ∷ [])))
    ∷ ("BitMapScale", stub 678 (in_order (a 0 ∷ [])))
    ∷ ("ScalerDiv", stub 684 (in_order (d 0 ∷ d 1 ∷ d 2 ∷ [])))
    ∷ ("TextExtent", stub 690 (in_order (a 1 ∷ a 0 ∷ d 0 ∷ a 2 ∷ [])))
    ∷ ("TextFit", stub 696 (in_order (a 1 ∷ a 0 ∷ d 0 ∷ a 2 ∷ a 3 ∷ d 1 ∷ d 2 ∷ d 3 ∷ [])))
    ∷ ("GfxLookUp", stub 702 (in_order (a 0 ∷ [])))
    ∷ ("VideoControl", stub 708 (in_order (a 0 ∷ a 1 ∷ [])))
    ∷ ("OpenMonitor", stub 714 (in_order (a 1 ∷ d 0 ∷ [])))
    ∷ ("CloseMonitor", stub 720 (in_order (a 0 ∷ [])))
    ∷ ("FindDisplayInfo", stub 726 (in_order (d 0 ∷ [])))
    ∷ ("NextDisplayInfo", stub 732 (in_order (d 0 ∷ [])))
    ∷ ("GetDisplayInfoData", stub 756 (in_order (a 0 ∷ a 1 ∷ d 0 ∷ d 1 ∷ d 2 ∷ [])))
    ∷ ("FontExtent", stub 762 (in_order (a 0 ∷ a 1 ∷ [])))
    ∷ ("ReadPixelLine8", stub 768 (in_order (a 0 ∷ d 0 ∷ d 1 ∷ d 2 ∷ a 2 ∷ a 1 ∷ [])))
    ∷ ("WritePixelLine8", stub 774 (in_order (a 0 ∷ d 0 ∷ d 1 ∷ d 2 ∷ a 2 ∷ a 1 ∷ [])))
    ∷ ("ReadPixelArray8", stub 780 (in_order (a 0 ∷ d 0 ∷ d 1 ∷ d 2 ∷ d 3 ∷ a 2 ∷ a 1 ∷ [])))
    ∷ ("WritePixelArray8", stub 786 (in_order (a 0 ∷ d 0 ∷ d 1 ∷ d 2 ∷ d 3 ∷ a 2 ∷ a 1 ∷ [])))
    ∷ ("GetVPModeID", stub 792 (in_order (a 0 ∷ [])))
    ∷ ("ModeNotAvailable", stub 798 (in_order (d 0 ∷ [])))
    ∷ ("EraseRect", stub 810 (in_order (a 1 ∷ d 0 ∷ d 1 ∷ d 2 ∷ d 3 ∷ [])))
    ∷ ("ExtendFont", stub 816 (in_order (a 0 ∷ a 1 ∷ [])))
    ∷ ("StripFont", stub 822 (in_order (a 0 ∷ [])))
    ∷ ("CalcIVG", stub 828 (in_order (a 0 ∷ a 1 ∷ [])))
    ∷ ("AttachPalExtra", stub 834 (in_order (a 0 ∷ a 1 ∷ [])))
    ∷ ("ObtainBestPenA", stub 840 (in_order (a 0 ∷ d 1 ∷ d 2 ∷ d 3 ∷ a 1 ∷ [])))
    ∷ ("SetRGB32", stub 852 (in_order (a 0 ∷ d 0 ∷ d 1 ∷ d 2 ∷ d 3 ∷ [])))
    ∷ ("GetAPen", stub 858 (in_order (a 0 ∷ [])))
    ∷ ("GetBPen", stub 864 (in_order (a 0 ∷ [])))
    ∷ ("GetDrMd", stub 870 (in_order (a 0 ∷ [])))
    ∷ ("GetOutlinePen", stub 876 (in_order (a 0 ∷ [])))
    ∷ ("LoadRGB32", stub 882 (in_order (a 0 ∷ a 1 ∷ [])))
    ∷ ("SetChipRev", stub 888 (in_order (d 0 ∷ [])))
    ∷ ("SetABPenDrMd", stub 894 (in_order (a 1 ∷ d 0 ∷ d 1 ∷ d 2 ∷ [])))
    ∷ ("GetRGB32", stub 900 (in_order (a 0 ∷ d 0 ∷ d 1 ∷ a 1 ∷ [])))
    ∷ ("AllocBitMap", stub 918 (in_order (d 0 ∷ d 1 ∷ d 2 ∷ d 3 ∷ a 0 ∷ [])))
    ∷ ("FreeBitMap", stub 924 (in_order (a 0 ∷ [])))
    ∷ ("GetExtSpriteA", stub 930 (in_order (a 2 ∷ a 1 ∷ [])))
    ∷ ("CoerceMode", stub 936 (in_order (a 0 ∷ d 0 ∷ d 1 ∷ [])))
    ∷ ("ChangeVPBitMap", stub 942 (in_order (a 0 ∷ a 1 ∷ a 2 ∷ [])))
    ∷ ("ReleasePen", stub 948 (in_order (a 0 ∷ d 0 ∷ [])))
    ∷ ("ObtainPen", stub 954 (in_order (a 0 ∷ d 0 ∷ d 1 ∷ d 2 ∷ d 3 ∷ d 4 ∷ [])))
    ∷ ("GetBitMapAttr", stub 960 (in_order (a 0 ∷ d 1 ∷ [])))
    ∷ []

-- `AllocDBufInfo` to `WriteChunkyPixels`.
unfoldable pub stubs_allocdbufinfo_to_writechunkypixels : Table Stub
stubs_allocdbufinfo_to_writechunkypixels =
    ("AllocDBufInfo", stub 966 (in_order (a 0 ∷ [])))
    ∷ ("FreeDBufInfo", stub 972 (in_order (a 1 ∷ [])))
    ∷ ("SetOutlinePen", stub 978 (in_order (a 0 ∷ d 0 ∷ [])))
    ∷ ("SetWriteMask", stub 984 (in_order (a 0 ∷ d 0 ∷ [])))
    ∷ ("SetMaxPen", stub 990 (in_order (a 0 ∷ d 0 ∷ [])))
    ∷ ("SetRGB32CM", stub 996 (in_order (a 0 ∷ d 0 ∷ d 1 ∷ d 2 ∷ d 3 ∷ [])))
    ∷ ("ScrollRasterBF", stub 1002 (in_order (a 1 ∷ d 0 ∷ d 1 ∷ d 2 ∷ d 3 ∷ d 4 ∷ d 5 ∷ [])))
    ∷ ("FindColor", stub 1008 (in_order (a 3 ∷ d 1 ∷ d 2 ∷ d 3 ∷ d 4 ∷ [])))
    ∷ ("AllocSpriteDataA", stub 1020 (in_order (a 2 ∷ a 1 ∷ [])))
    ∷ ("ChangeExtSpriteA", stub 1026 (in_order (a 0 ∷ a 1 ∷ a 2 ∷ a 3 ∷ [])))
    ∷ ("FreeSpriteData", stub 1032 (in_order (a 2 ∷ [])))
    ∷ ("SetRPAttrsA", stub 1038 (in_order (a 0 ∷ a 1 ∷ [])))
    ∷ ("GetRPAttrsA", stub 1044 (in_order (a 0 ∷ a 1 ∷ [])))
    ∷ ("BestModeIDA", stub 1050 (in_order (a 0 ∷ [])))
    ∷ ("WriteChunkyPixels", stub 1056 (in_order (a 0 ∷ d 0 ∷ d 1 ∷ d 2 ∷ d 3 ∷ a 2 ∷ d 4 ∷ [])))
    ∷ []

unfoldable pub graphics_stubs : Table Stub
unfolding stubs_bltbitmap_to_writepixel stubs_flood_to_andregionregion
    stubs_setrgb4cm_to_getbitmapattr stubs_allocdbufinfo_to_writechunkypixels
graphics_stubs =
    stubs_bltbitmap_to_writepixel
    ++ (stubs_flood_to_andregionregion
        ++ (stubs_setrgb4cm_to_getbitmapattr ++ stubs_allocdbufinfo_to_writechunkypixels))
