-- ===== src/Layout/Exec/Tagitem.antt =====
-- Structures of targets/m68k-amigaos/ndk/include_h/utility/tagitem.h and of include_i/utility/tagitem.i beside it.
use amiga_dev.Common.{some, List, [], ◌∷◌}
use amiga_dev.Layout.{Fields, int32}
use amiga_dev.Layout.Asm.{Directive, field, label, num, structure, ulong}
use amiga_dev.Layout.Agree.{Entry, in_order}

-- `struct TagItem`
abbrev pub tag_item_fields : Fields
tag_item_fields = ("ti_Tag", int32) ∷ ("ti_Data", int32) ∷ []

-- `STRUCTURE TagItem`
abbrev pub tag_item_source : List Directive
tag_item_source =
    structure "TagItem" (num 0)
    ∷ field ulong "ti_Tag"
    ∷ field ulong "ti_Data"
    ∷ label "ti_SIZEOF"
    ∷ []

-- The structures of this file, with the symbol of each field and of the size.
abbrev pub tagitem_entries : List Entry
tagitem_entries = in_order tag_item_fields tag_item_source (some "ti_SIZEOF") ∷ []
