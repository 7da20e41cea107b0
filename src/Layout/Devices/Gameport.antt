-- ===== src/Layout/Devices/Gameport.antt =====
-- Structures of targets/m68k-amigaos/ndk/include_h/devices/gameport.h and of include_i/devices/gameport.i beside it.
use amiga_dev.Common.{some, List, [], ◌∷◌}
use amiga_dev.Layout.{Fields, int16}
use amiga_dev.Layout.Asm.{Directive, field, label, num, structure, uword}
use amiga_dev.Layout.Agree.{Entry, in_order}

-- `struct GamePortTrigger`
abbrev pub game_port_trigger_fields : Fields
game_port_trigger_fields =
    ("gpt_Keys", int16)
    ∷ ("gpt_Timeout", int16)
    ∷ ("gpt_XDelta", int16)
    ∷ ("gpt_YDelta", int16)
    ∷ []

-- `STRUCTURE GamePortTrigger`
abbrev pub game_port_trigger_source : List Directive
game_port_trigger_source =
    structure "GamePortTrigger" (num 0)
    ∷ field uword "gpt_Keys"
    ∷ field uword "gpt_Timeout"
    ∷ field uword "gpt_XDelta"
    ∷ field uword "gpt_YDelta"
    ∷ label "gpt_SIZEOF"
    ∷ []

-- The structures of this file, with the symbol of each field and of the size.
abbrev pub gameport_entries : List Entry
gameport_entries =
    in_order game_port_trigger_fields game_port_trigger_source (some "gpt_SIZEOF") ∷ []
