-- ===== src/Layout/Graphics/Copper.antt =====
-- Structures of targets/m68k-amigaos/ndk/include_h/graphics/copper.h and of include_i/graphics/copper.i beside it.
use amiga_dev.Common.{some, List, [], ◌∷◌}
use amiga_dev.Layout.{Fields, array, int16, ptr}
use amiga_dev.Layout.Asm.{Directive, aptr, field, label, num, struct, structure, times, word}
use amiga_dev.Layout.Agree.{Entry, in_order}

-- `struct cprlist`
abbrev pub cprlist_fields : Fields
cprlist_fields = ("Next", ptr) ∷ ("start", ptr) ∷ ("MaxCount", int16) ∷ []

-- `STRUCTURE cprlist`
abbrev pub cprlist_source : List Directive
cprlist_source =
    structure "cprlist" (num 0)
    ∷ field aptr "crl_Next"
    ∷ field aptr "crl_start"
    ∷ field word "crl_MaxCount"
    ∷ label "crl_SIZEOF"
    ∷ []

-- `struct CopList`
abbrev pub cop_list_fields : Fields
cop_list_fields =
    ("Next", ptr)
    ∷ ("_CopList", ptr)
    ∷ ("_ViewPort", ptr)
    ∷ ("CopIns", ptr)
    ∷ ("CopPtr", ptr)
    ∷ ("CopLStart", ptr)
    ∷ ("CopSStart", ptr)
    ∷ ("Count", int16)
    ∷ ("MaxCount", int16)
    ∷ ("DyOffset", int16)
    ∷ ("Cop2Start", ptr)
    ∷ ("Cop3Start", ptr)
    ∷ ("Cop4Start", ptr)
    ∷ ("Cop5Start", ptr)
    ∷ ("SLRepeat", int16)
    ∷ ("Flags", int16)
    ∷ []

-- `STRUCTURE CopList`
abbrev pub cop_list_source : List Directive
cop_list_source =
    structure "CopList" (num 0)
    ∷ field aptr "cl_Next"
    ∷ field aptr "cl__CopList"
    ∷ field aptr "cl__ViewPort"
    ∷ field aptr "cl_CopIns"
    ∷ field aptr "cl_CopPtr"
    ∷ field aptr "cl_CopLStart"
    ∷ field aptr "cl_CopSStart"
    ∷ field word "cl_Count"
    ∷ field word "cl_MaxCount"
    ∷ field word "cl_DyOffset"
    ∷ field aptr "cl_Cop2Start"
    ∷ field aptr "cl_Cop3Start"
    ∷ field aptr "cl_Cop4Start"
    ∷ field aptr "cl_Cop5Start"
    ∷ field word "cl_SLRepeat"
    ∷ field word "cl_PrivateFlags"
    ∷ label "cl_SIZEOF"
    ∷ []

-- `struct UCopList`
abbrev pub u_cop_list_fields : Fields
u_cop_list_fields = ("Next", ptr) ∷ ("FirstCopList", ptr) ∷ ("CopList", ptr) ∷ []

-- `STRUCTURE UCopList`
abbrev pub u_cop_list_source : List Directive
u_cop_list_source =
    structure "UCopList" (num 0)
    ∷ field aptr "ucl_Next"
    ∷ field aptr "ucl_FirstCopList"
    ∷ field aptr "ucl_CopList"
    ∷ label "ucl_SIZEOF"
    ∷ []

-- `struct copinit`
abbrev pub copinit_fields : Fields
copinit_fields =
    ("vsync_hblank", array 2 int16)
    ∷ ("diagstrt", array 12 int16)
    ∷ ("fm0", array 2 int16)
    ∷ ("diwstart", array 10 int16)
    ∷ ("bplcon2", array 2 int16)
    ∷ ("sprfix", array 16 int16)
    ∷ ("sprstrtup", array 32 int16)
    ∷ ("wait14", array 2 int16)
    ∷ ("norm_hblank", array 2 int16)
    ∷ ("jump", array 2 int16)
    ∷ ("wait_forever", array 6 int16)
    ∷ ("sprstop", array 8 int16)
    ∷ []

-- `STRUCTURE copinit`
abbrev pub copinit_source : List Directive
copinit_source =
    structure "copinit" (num 0)
    ∷ struct "copinit_vsync_hblank" (num 4)
    ∷ struct "copinit_diagstrt" (num 24)
    ∷ struct "copinit_fm0" (num 4)
    ∷ struct "copinit_diwstart" (num 20)
    ∷ struct "copinit_bplcon2" (num 4)
    ∷ struct "copinit_sprfix" (times (times (num 8) (num 2)) (num 2))
    ∷ struct "copinit_sprstrtup" (times (num 2) (times (times (num 2) (num 8)) (num 2)))
    ∷ struct "copinit_wait14" (times (num 2) (num 2))
    ∷ struct "copinit_norm_hblank" (times (num 2) (num 2))
    ∷ struct "copinit_jump" (times (num 2) (num 2))
    ∷ struct "copinit_wait_forever" (times (num 6) (num 2))
    ∷ struct "copinit_sprstop" (times (num 8) (num 2))
    ∷ label "copinit_SIZEOF"
    ∷ []

-- The structures of this file, with the symbol of each field and of the size.
abbrev pub copper_entries : List Entry
copper_entries =
    in_order cprlist_fields cprlist_source (some "crl_SIZEOF")
    ∷ in_order cop_list_fields cop_list_source (some "cl_SIZEOF")
    ∷ in_order u_cop_list_fields u_cop_list_source (some "ucl_SIZEOF")
    ∷ in_order copinit_fields copinit_source (some "copinit_SIZEOF")
    ∷ []
