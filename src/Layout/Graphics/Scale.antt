-- ===== src/Layout/Graphics/Scale.antt =====
-- Structures of targets/m68k-amigaos/ndk/include_h/graphics/scale.h and of include_i/graphics/scale.i beside it.
use amiga_dev.Common.{some, List, [], ◌∷◌}
use amiga_dev.Layout.{Fields, int16, int32, ptr}
use amiga_dev.Layout.Asm.{Directive, aptr, field, label, long, num, structure, ulong, uword}
use amiga_dev.Layout.Agree.{Entry, in_order}

-- `struct BitScaleArgs`
abbrev pub bit_scale_args_fields : Fields
bit_scale_args_fields =
    ("bsa_SrcX", int16)
    ∷ ("bsa_SrcY", int16)
    ∷ ("bsa_SrcWidth", int16)
    ∷ ("bsa_SrcHeight", int16)
    ∷ ("bsa_XSrcFactor", int16)
    ∷ ("bsa_YSrcFactor", int16)
    ∷ ("bsa_DestX", int16)
    ∷ ("bsa_DestY", int16)
    ∷ ("bsa_DestWidth", int16)
    ∷ ("bsa_DestHeight", int16)
    ∷ ("bsa_XDestFactor", int16)
    ∷ ("bsa_YDestFactor", int16)
    ∷ ("bsa_SrcBitMap", ptr)
    ∷ ("bsa_DestBitMap", ptr)
    ∷ ("bsa_Flags", int32)
    ∷ ("bsa_XDDA", int16)
    ∷ ("bsa_YDDA", int16)
    ∷ ("bsa_Reserved1", int32)
    ∷ ("bsa_Reserved2", int32)
    ∷ []

-- `STRUCTURE BitScaleArgs`
abbrev pub bit_scale_args_source : List Directive
bit_scale_args_source =
    structure "BitScaleArgs" (num 0)
    ∷ field uword "bsa_SrcX"
    ∷ field uword "bsa_SrcY"
    ∷ field uword "bsa_SrcWidth"
    ∷ field uword "bsa_SrcHeight"
    ∷ field uword "bsa_XSrcFactor"
    ∷ field uword "bsa_YSrcFactor"
    ∷ field uword "bsa_DestX"
    ∷ field uword "bsa_DestY"
    ∷ field uword "bsa_DestWidth"
    ∷ field uword "bsa_DestHeight"
    ∷ field uword "bsa_XDestFactor"
    ∷ field uword "bsa_YDestFactor"
    ∷ field aptr "bsa_SrcBitMap"
    ∷ field aptr "bsa_DestBitMap"
    ∷ field ulong "bsa_Flags"
    ∷ field uword "bsa_XDDA"
    ∷ field uword "bsa_YDDA"
    ∷ field long "bsa_Reserved1"
    ∷ field long "bsa_Reserved2"
    ∷ label "bsa_SIZEOF"
    ∷ []

-- The structures of this file, with the symbol of each field and of the size.
abbrev pub scale_entries : List Entry
scale_entries = in_order bit_scale_args_fields bit_scale_args_source (some "bsa_SIZEOF") ∷ []
