-- ===== src/Layout/Graphics/TextFromTextextent.antt =====
-- Structures of targets/m68k-amigaos/ndk/include_h/graphics/text.h and of include_i/graphics/text.i beside it: `TextExtent` to `TextExtent`.
use amiga_dev.Common.{some, List, [], ◌∷◌}
use amiga_dev.Layout.{Fields, int16, struct_of}
use amiga_dev.Layout.Asm.{Directive, field, label, num, struct, structure, uword}
use amiga_dev.Layout.Agree.{Entry, in_order}
use amiga_dev.Layout.Graphics.Gfx.{rectangle_fields}

-- `struct TextExtent`
abbrev pub text_extent_fields : Fields
text_extent_fields =
    ("te_Width", int16) ∷ ("te_Height", int16) ∷ ("te_Extent", struct_of rectangle_fields) ∷ []

-- `STRUCTURE TextExtent`
abbrev pub text_extent_source : List Directive
text_extent_source =
    structure "TextExtent" (num 0)
    ∷ field uword "te_Width"
    ∷ field uword "te_Height"
    ∷ struct "te_Extent" (num 8)
    ∷ label "te_SIZEOF"
    ∷ []

-- The structures of this file, with the symbol of each field and of the size.
abbrev pub text_from_textextent_entries : List Entry
text_from_textextent_entries =
    in_order text_extent_fields text_extent_source (some "te_SIZEOF") ∷ []
