-- ===== src/Layout/Intuition/Screens.antt =====
-- Structures of targets/m68k-amigaos/ndk/include_h/intuition/screens.h and of include_i/intuition/screens.i beside it: `DrawInfo` to `Screen`.
use amiga_dev.Common.{some, none, List, [], ◌∷◌}
use amiga_dev.Layout.{Fields, array, int16, int32, int8, ptr, struct_of}
use amiga_dev.Layout.Asm.{
  Directive, aptr, byte, field, label, num, struct, structure, sym, ulong, uword, word,
}
use amiga_dev.Layout.Agree.{Entry, entry}
use amiga_dev.Layout.Graphics.Gfx.{bit_map_fields}
use amiga_dev.Layout.Graphics.Layers.{layer_info_fields}
use amiga_dev.Layout.Graphics.Rastport.{rast_port_fields}
use amiga_dev.Layout.Graphics.View.{view_port_fields}

-- `struct DrawInfo`
abbrev pub draw_info_fields : Fields
draw_info_fields =
    ("dri_Version", int16)
    ∷ ("dri_NumPens", int16)
    ∷ ("dri_Pens", ptr)
    ∷ ("dri_Font", ptr)
    ∷ ("dri_Depth", int16)
    ∷ ("dri_Resolution", struct_of (("X", int16) ∷ ("Y", int16) ∷ []))
    ∷ ("dri_Flags", int32)
    ∷ ("dri_CheckMark", ptr)
    ∷ ("dri_AmigaKey", ptr)
    ∷ ("dri_Reserved", array 5 int32)
    ∷ []

-- `STRUCTURE DrawInfo`
abbrev pub draw_info_source : List Directive
draw_info_source =
    structure "DrawInfo" (num 0)
    ∷ field uword "dri_Version"
    ∷ field uword "dri_NumPens"
    ∷ field aptr "dri_Pens"
    ∷ field aptr "dri_Font"
    ∷ field uword "dri_Depth"
    ∷ field uword "dri_ResolutionX"
    ∷ field uword "dri_ResolutionY"
    ∷ field ulong "dri_Flags"
    ∷ field aptr "dri_CheckMark"
    ∷ field aptr "dri_AmigaKey"
    ∷ struct "dri_longreserved" (num 20)
    ∷ []

-- `struct Screen`
abbrev pub screen_fields : Fields
screen_fields =
    ("NextScreen", ptr)
    ∷ ("FirstWindow", ptr)
    ∷ ("LeftEdge", int16)
    ∷ ("TopEdge", int16)
    ∷ ("Width", int16)
    ∷ ("Height", int16)
    ∷ ("MouseY", int16)
    ∷ ("MouseX", int16)
    ∷ ("Flags", int16)
    ∷ ("Title", ptr)
    ∷ ("DefaultTitle", ptr)
    ∷ ("BarHeight", int8)
    ∷ ("BarVBorder", int8)
    ∷ ("BarHBorder", int8)
    ∷ ("MenuVBorder", int8)
    ∷ ("MenuHBorder", int8)
    ∷ ("WBorTop", int8)
    ∷ ("WBorLeft", int8)
    ∷ ("WBorRight", int8)
    ∷ ("WBorBottom", int8)
    ∷ ("Font", ptr)
    ∷ ("ViewPort", struct_of view_port_fields)
    ∷ ("RastPort", struct_of rast_port_fields)
    ∷ ("BitMap", struct_of bit_map_fields)
    ∷ ("LayerInfo", struct_of layer_info_fields)
    ∷ ("FirstGadget", ptr)
    ∷ ("DetailPen", int8)
    ∷ ("BlockPen", int8)
    ∷ ("SaveColor0", int16)
    ∷ ("BarLayer", ptr)
    ∷ ("ExtData", ptr)
    ∷ ("UserData", ptr)
    ∷ []

-- `STRUCTURE Screen`
abbrev pub screen_source : List Directive
screen_source =
    structure "Screen" (num 0)
    ∷ field aptr "sc_NextScreen"
    ∷ field aptr "sc_FirstWindow"
    ∷ field word "sc_LeftEdge"
    ∷ field word "sc_TopEdge"
    ∷ field word "sc_Width"
    ∷ field word "sc_Height"
    ∷ field word "sc_MouseY"
    ∷ field word "sc_MouseX"
    ∷ field word "sc_Flags"
    ∷ field aptr "sc_Title"
    ∷ field aptr "sc_DefaultTitle"
    ∷ field byte "sc_BarHeight"
    ∷ field byte "sc_BarVBorder"
    ∷ field byte "sc_BarHBorder"
    ∷ field byte "sc_MenuVBorder"
    ∷ field byte "sc_MenuHBorder"
    ∷ field byte "sc_WBorTop"
    ∷ field byte "sc_WBorLeft"
    ∷ field byte "sc_WBorRight"
    ∷ field byte "sc_WBorBottom"
    ∷ field byte "sc_KludgeFill00"
    ∷ field aptr "sc_Font"
    ∷ struct "sc_ViewPort" (sym "vp_SIZEOF")
    ∷ struct "sc_RastPort" (sym "rp_SIZEOF")
    ∷ struct "sc_BitMap" (sym "bm_SIZEOF")
    ∷ struct "sc_LayerInfo" (sym "li_SIZEOF")
    ∷ field aptr "sc_FirstGadget"
    ∷ field byte "sc_DetailPen"
    ∷ field byte "sc_BlockPen"
    ∷ field word "sc_SaveColor0"
    ∷ field aptr "sc_BarLayer"
    ∷ field aptr "sc_ExtData"
    ∷ field aptr "sc_UserData"
    ∷ label "sc_SIZEOF"
    ∷ []

-- The structures of this file, with the symbol of each field and of the size.
abbrev pub screens_entries : List Entry
screens_entries =
    entry draw_info_fields draw_info_source
      ("dri_Version" ∷ "dri_NumPens" ∷ "dri_Pens" ∷ "dri_Font" ∷ "dri_Depth" ∷ "dri_ResolutionX"
        ∷ "dri_Flags" ∷ "dri_CheckMark" ∷ "dri_AmigaKey" ∷ "dri_longreserved" ∷ [])
      (none)
    ∷ entry screen_fields screen_source
        ("sc_NextScreen" ∷ "sc_FirstWindow" ∷ "sc_LeftEdge" ∷ "sc_TopEdge" ∷ "sc_Width"
          ∷ "sc_Height" ∷ "sc_MouseY" ∷ "sc_MouseX" ∷ "sc_Flags" ∷ "sc_Title" ∷ "sc_DefaultTitle"
          ∷ "sc_BarHeight" ∷ "sc_BarVBorder" ∷ "sc_BarHBorder" ∷ "sc_MenuVBorder" ∷ "sc_MenuHBorder"
          ∷ "sc_WBorTop" ∷ "sc_WBorLeft" ∷ "sc_WBorRight" ∷ "sc_WBorBottom" ∷ "sc_Font"
          ∷ "sc_ViewPort" ∷ "sc_RastPort" ∷ "sc_BitMap" ∷ "sc_LayerInfo" ∷ "sc_FirstGadget"
          ∷ "sc_DetailPen" ∷ "sc_BlockPen" ∷ "sc_SaveColor0" ∷ "sc_BarLayer" ∷ "sc_ExtData"
          ∷ "sc_UserData" ∷ [])
        (some "sc_SIZEOF")
    ∷ []
