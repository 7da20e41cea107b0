-- ===== src/Layout/Graphics/Sprite.antt =====
-- Structures of targets/m68k-amigaos/ndk/include_h/graphics/sprite.h and of include_i/graphics/sprite.i beside it.
use amiga_dev.Common.{some, List, [], ◌∷◌}
use amiga_dev.Layout.{Fields, int16, ptr, struct_of}
use amiga_dev.Layout.Asm.{Directive, aptr, field, label, num, struct, structure, sym, word}
use amiga_dev.Layout.Agree.{Entry, in_order}

-- `struct SimpleSprite`
abbrev pub simple_sprite_fields : Fields
simple_sprite_fields =
    ("posctldata", ptr) ∷ ("height", int16) ∷ ("x", int16) ∷ ("y", int16) ∷ ("num", int16) ∷ []

-- `STRUCTURE SimpleSprite`
abbrev pub simple_sprite_source : List Directive
simple_sprite_source =
    structure "SimpleSprite" (num 0)
    ∷ field aptr "ss_posctldata"
    ∷ field word "ss_height"
    ∷ field word "ss_x"
    ∷ field word "ss_y"
    ∷ field word "ss_num"
    ∷ label "ss_SIZEOF"
    ∷ []

-- `struct ExtSprite`
abbrev pub ext_sprite_fields : Fields
ext_sprite_fields =
    ("es_SimpleSprite", struct_of simple_sprite_fields)
    ∷ ("es_wordwidth", int16)
    ∷ ("es_flags", int16)
    ∷ []

-- `STRUCTURE ExtSprite`
abbrev pub ext_sprite_source : List Directive
ext_sprite_source =
    structure "ExtSprite" (num 0)
    ∷ struct "es_SimpleSprite" (sym "ss_SIZEOF")
    ∷ field word "es_wordwidth"
    ∷ field word "es_flags"
    ∷ label "ExtSprite_SIZEOF"
    ∷ []

-- The structures of this file, with the symbol of each field and of the size.
abbrev pub sprite_entries : List Entry
sprite_entries =
    in_order simple_sprite_fields simple_sprite_source (some "ss_SIZEOF")
    ∷ in_order ext_sprite_fields ext_sprite_source (some "ExtSprite_SIZEOF")
    ∷ []
