-- ===== src/Layout/Graphics/Regions.antt =====
-- Structures of targets/m68k-amigaos/ndk/include_h/graphics/regions.h and of include_i/graphics/regions.i beside it.
use amiga_dev.Common.{some, List, [], ◌∷◌}
use amiga_dev.Layout.{Fields, ptr, struct_of}
use amiga_dev.Layout.Asm.{Directive, aptr, field, label, num, struct, structure, sym}
use amiga_dev.Layout.Agree.{Entry, in_order}
use amiga_dev.Layout.Graphics.Gfx.{rectangle_fields}

-- `struct RegionRectangle`
abbrev pub region_rectangle_fields : Fields
region_rectangle_fields =
    ("Next", ptr) ∷ ("Prev", ptr) ∷ ("bounds", struct_of rectangle_fields) ∷ []

-- `STRUCTURE RegionRectangle`
abbrev pub region_rectangle_source : List Directive
region_rectangle_source =
    structure "RegionRectangle" (num 0)
    ∷ field aptr "rr_Next"
    ∷ field aptr "rr_Prev"
    ∷ struct "rr_bounds" (sym "ra_SIZEOF")
    ∷ label "rr_SIZEOF"
    ∷ []

-- `struct Region`
abbrev pub region_fields : Fields
region_fields = ("bounds", struct_of rectangle_fields) ∷ ("RegionRectangle", ptr) ∷ []

-- `STRUCTURE Region`
abbrev pub region_source : List Directive
region_source =
    structure "Region" (num 0)
    ∷ struct "rg_bounds" (sym "ra_SIZEOF")
    ∷ field aptr "rg_RegionRectangle"
    ∷ label "rg_SIZEOF"
    ∷ []

-- The structures of this file, with the symbol of each field and of the size.
abbrev pub regions_entries : List Entry
regions_entries =
    in_order region_rectangle_fields region_rectangle_source (some "rr_SIZEOF")
    ∷ in_order region_fields region_source (some "rg_SIZEOF")
    ∷ []
