-- ===== src/Layout/Graphics/Text.antt =====
-- Structures of targets/m68k-amigaos/ndk/include_h/graphics/text.h and of include_i/graphics/text.i beside it: `TextAttr` to `ColorTextFont`.
use amiga_dev.Common.{some, List, [], ◌∷◌}
use amiga_dev.Layout.{Fields, array, int16, int32, int8, ptr, struct_of}
use amiga_dev.Layout.Asm.{
  Directive, aptr, field, label, num, struct, structure, sym, times, ubyte, uword,
}
use amiga_dev.Layout.Agree.{Entry, in_order}
use amiga_dev.Layout.Exec.Ports.{message_fields}

-- `struct TextAttr`
abbrev pub text_attr_fields : Fields
text_attr_fields =
    ("ta_Name", int32) ∷ ("ta_YSize", int16) ∷ ("ta_Style", int8) ∷ ("ta_Flags", int8) ∷ []

-- `STRUCTURE TextAttr`
abbrev pub text_attr_source : List Directive
text_attr_source =
    structure "TextAttr" (num 0)
    ∷ field aptr "ta_Name"
    ∷ field uword "ta_YSize"
    ∷ field ubyte "ta_Style"
    ∷ field ubyte "ta_Flags"
    ∷ label "ta_SIZEOF"
    ∷ []

-- `struct TTextAttr`
abbrev pub t_text_attr_fields : Fields
t_text_attr_fields =
    ("tta_Name", int32)
    ∷ ("tta_YSize", int16)
    ∷ ("tta_Style", int8)
    ∷ ("tta_Flags", int8)
    ∷ ("tta_Tags", ptr)
    ∷ []

-- `STRUCTURE TTextAttr`
abbrev pub t_text_attr_source : List Directive
t_text_attr_source =
    structure "TTextAttr" (num 0)
    ∷ field aptr "tta_Name"
    ∷ field uword "tta_YSize"
    ∷ field ubyte "tta_Style"
    ∷ field ubyte "tta_Flags"
    ∷ field aptr "tta_Tags"
    ∷ label "tta_SIZEOF"
    ∷ []

-- `struct TextFont`
abbrev pub text_font_fields : Fields
text_font_fields =
    ("tf_Message", struct_of message_fields)
    ∷ ("tf_YSize", int16)
    ∷ ("tf_Style", int8)
    ∷ ("tf_Flags", int8)
    ∷ ("tf_XSize", int16)
    ∷ ("tf_Baseline", int16)
    ∷ ("tf_BoldSmear", int16)
    ∷ ("tf_Accessors", int16)
    ∷ ("tf_LoChar", int8)
    ∷ ("tf_HiChar", int8)
    ∷ ("tf_CharData", int32)
    ∷ ("tf_Modulo", int16)
    ∷ ("tf_CharLoc", int32)
    ∷ ("tf_CharSpace", int32)
    ∷ ("tf_CharKern", int32)
    ∷ []

-- `STRUCTURE TextFont`
abbrev pub text_font_source : List Directive
text_font_source =
    structure "TextFont" (sym "MN_SIZE")
    ∷ field uword "tf_YSize"
    ∷ field ubyte "tf_Style"
    ∷ field ubyte "tf_Flags"
    ∷ field uword "tf_XSize"
    ∷ field uword "tf_Baseline"
    ∷ field uword "tf_BoldSmear"
    ∷ field uword "tf_Accessors"
    ∷ field ubyte "tf_LoChar"
    ∷ field ubyte "tf_HiChar"
    ∷ field aptr "tf_CharData"
    ∷ field uword "tf_Modulo"
    ∷ field aptr "tf_CharLoc"
    ∷ field aptr "tf_CharSpace"
    ∷ field aptr "tf_CharKern"
    ∷ label "tf_SIZEOF"
    ∷ []

-- `struct TextFontExtension`
abbrev pub text_font_extension_fields : Fields
text_font_extension_fields =
    ("tfe_MatchWord", int16)
    ∷ ("tfe_Flags0", int8)
    ∷ ("tfe_Flags1", int8)
    ∷ ("tfe_BackPtr", ptr)
    ∷ ("tfe_OrigReplyPort", ptr)
    ∷ ("tfe_Tags", ptr)
    ∷ ("tfe_OFontPatchS", ptr)
    ∷ ("tfe_OFontPatchK", ptr)
    ∷ []

-- `STRUCTURE TextFontExtension`
abbrev pub text_font_extension_source : List Directive
text_font_extension_source =
    structure "TextFontExtension" (num 0)
    ∷ field uword "tfe_MatchWord"
    ∷ field ubyte "tfe_Flags0"
    ∷ field ubyte "tfe_Flags1"
    ∷ field aptr "tfe_BackPtr"
    ∷ field aptr "tfe_OrigReplyPort"
    ∷ field aptr "tfe_Tags"
    ∷ field aptr "tfe_OFontPatchS"
    ∷ field aptr "tfe_OFontPatchK"
    ∷ label "tfe_SIZEOF"
    ∷ []

-- `struct ColorFontColors`
abbrev pub color_font_colors_fields : Fields
color_font_colors_fields =
    ("cfc_Reserved", int16) ∷ ("cfc_Count", int16) ∷ ("cfc_ColorTable", ptr) ∷ []

-- `STRUCTURE ColorFontColors`
abbrev pub color_font_colors_source : List Directive
color_font_colors_source =
    structure "ColorFontColors" (num 0)
    ∷ field uword "cfc_Reserved"
    ∷ field uword "cfc_Count"
    ∷ field aptr "cfc_ColorTable"
    ∷ label "cfc_SIZEOF"
    ∷ []

-- `struct ColorTextFont`
abbrev pub color_text_font_fields : Fields
color_text_font_fields =
    ("ctf_TF", struct_of text_font_fields)
    ∷ ("ctf_Flags", int16)
    ∷ ("ctf_Depth", int8)
    ∷ ("ctf_FgColor", int8)
    ∷ ("ctf_Low", int8)
    ∷ ("ctf_High", int8)
    ∷ ("ctf_PlanePick", int8)
    ∷ ("ctf_PlaneOnOff", int8)
    ∷ ("ctf_ColorFontColors", ptr)
    ∷ ("ctf_CharData", array 8 int32)
    ∷ []

-- `STRUCTURE ColorTextFont`
abbrev pub color_text_font_source : List Directive
color_text_font_source =
    structure "ColorTextFont" (sym "tf_SIZEOF")
    ∷ field uword "ctf_Flags"
    ∷ field ubyte "ctf_Depth"
    ∷ field ubyte "ctf_FgColor"
    ∷ field ubyte "ctf_Low"
    ∷ field ubyte "ctf_High"
    ∷ field ubyte "ctf_PlanePick"
    ∷ field ubyte "ctf_PlaneOnOff"
    ∷ field aptr "ctf_ColorFontColors"
    ∷ struct "ctf_CharData" (times (num 8) (num 4))
    ∷ label "ctf_SIZEOF"
    ∷ []

-- The structures of this file, with the symbol of each field and of the size.
abbrev pub text_entries : List Entry
text_entries =
    in_order text_attr_fields text_attr_source (some "ta_SIZEOF")
    ∷ in_order t_text_attr_fields t_text_attr_source (some "tta_SIZEOF")
    ∷ in_order text_font_fields text_font_source (some "tf_SIZEOF")
    ∷ in_order text_font_extension_fields text_font_extension_source (some "tfe_SIZEOF")
    ∷ in_order color_font_colors_fields color_font_colors_source (some "cfc_SIZEOF")
    ∷ in_order color_text_font_fields color_text_font_source (some "ctf_SIZEOF")
    ∷ []
