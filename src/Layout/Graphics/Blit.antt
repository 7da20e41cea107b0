-- ===== src/Layout/Graphics/Blit.antt =====
-- Structures of targets/m68k-amigaos/ndk/include_h/hardware/blit.h and of include_i/hardware/blit.i beside it.
use amiga_dev.Common.{some, List, [], ◌∷◌}
use amiga_dev.Layout.{Fields, int16, int8, ptr}
use amiga_dev.Layout.Asm.{Directive, byte, field, label, long, num, structure, word}
use amiga_dev.Layout.Agree.{Entry, entry}

-- `struct bltnode`
abbrev pub bltnode_fields : Fields
bltnode_fields =
    ("n", ptr)
    ∷ ("function", ptr)
    ∷ ("stat", int8)
    ∷ ("blitsize", int16)
    ∷ ("beamsync", int16)
    ∷ ("cleanup", ptr)
    ∷ []

-- `STRUCTURE bltnode`
abbrev pub bltnode_source : List Directive
bltnode_source =
    structure "bltnode" (num 0)
    ∷ field long "bn_n"
    ∷ field long "bn_function"
    ∷ field byte "bn_stat"
    ∷ field byte "bn_dummy"
    ∷ field word "bn_blitsize"
    ∷ field word "bn_beamsync"
    ∷ field long "bn_cleanup"
    ∷ label "bn_SIZEOF"
    ∷ []

-- The structures of this file, with the symbol of each field and of the size.
abbrev pub blit_entries : List Entry
blit_entries =
    entry bltnode_fields bltnode_source
      ("bn_n" ∷ "bn_function" ∷ "bn_stat" ∷ "bn_blitsize" ∷ "bn_beamsync" ∷ "bn_cleanup" ∷ [])
      (some "bn_SIZEOF")
    ∷ []
