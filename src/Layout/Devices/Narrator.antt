-- ===== src/Layout/Devices/Narrator.antt =====
-- Structures of targets/m68k-amigaos/ndk/include_h/devices/narrator.h and of include_i/devices/narrator.i beside it.
use amiga_dev.Common.{some, List, [], ◌∷◌}
use amiga_dev.Layout.{Fields, int16, int8, ptr, struct_of}
use amiga_dev.Layout.Asm.{Directive, aptr, byte, field, label, structure, sym, ubyte, uword}
use amiga_dev.Layout.Agree.{Entry, in_order}
use amiga_dev.Layout.Exec.Io.{io_std_req_fields}

-- `struct narrator_rb`
abbrev pub narrator_rb_fields : Fields
narrator_rb_fields =
    ("message", struct_of io_std_req_fields)
    ∷ ("rate", int16)
    ∷ ("pitch", int16)
    ∷ ("mode", int16)
    ∷ ("sex", int16)
    ∷ ("ch_masks", ptr)
    ∷ ("nm_masks", int16)
    ∷ ("volume", int16)
    ∷ ("sampfreq", int16)
    ∷ ("mouths", int8)
    ∷ ("chanmask", int8)
    ∷ ("numchan", int8)
    ∷ ("flags", int8)
    ∷ ("F0enthusiasm", int8)
    ∷ ("F0perturb", int8)
    ∷ ("F1adj", int8)
    ∷ ("F2adj", int8)
    ∷ ("F3adj", int8)
    ∷ ("A1adj", int8)
    ∷ ("A2adj", int8)
    ∷ ("A3adj", int8)
    ∷ ("articulate", int8)
    ∷ ("centralize", int8)
    ∷ ("centphon", ptr)
    ∷ ("AVbias", int8)
    ∷ ("AFbias", int8)
    ∷ ("priority", int8)
    ∷ ("pad1", int8)
    ∷ []

-- `STRUCTURE NDI`
abbrev pub narrator_rb_source : List Directive
narrator_rb_source =
    structure "NDI" (sym "IOSTD_SIZE")
    ∷ field uword "NDI_RATE"
    ∷ field uword "NDI_PITCH"
    ∷ field uword "NDI_MODE"
    ∷ field uword "NDI_SEX"
    ∷ field aptr "NDI_CHMASKS"
    ∷ field uword "NDI_NUMMASKS"
    ∷ field uword "NDI_VOLUME"
    ∷ field uword "NDI_SAMPFREQ"
    ∷ field ubyte "NDI_MOUTHS"
    ∷ field ubyte "NDI_CHANMASK"
    ∷ field ubyte "NDI_NUMCHAN"
    ∷ field ubyte "NDI_FLAGS"
    ∷ field ubyte "NDI_F0ENTHUSIASM"
    ∷ field byte "NDI_F0PERTURB"
    ∷ field byte "NDI_F1ADJ"
    ∷ field byte "NDI_F2ADJ"
    ∷ field byte "NDI_F3ADJ"
    ∷ field byte "NDI_A1ADJ"
    ∷ field byte "NDI_A2ADJ"
    ∷ field byte "NDI_A3ADJ"
    ∷ field ubyte "NDI_ARTICULATE"
    ∷ field ubyte "NDI_CENTRALIZE"
    ∷ field aptr "NDI_CENTPHON"
    ∷ field byte "NDI_AVBIAS"
    ∷ field byte "NDI_AFBIAS"
    ∷ field byte "NDI_PRIORITY"
    ∷ field byte "NDI_PAD1"
    ∷ label "NDI_SIZE"
    ∷ []

-- `struct mouth_rb`
abbrev pub mouth_rb_fields : Fields
mouth_rb_fields =
    ("voice", struct_of narrator_rb_fields)
    ∷ ("width", int8)
    ∷ ("height", int8)
    ∷ ("shape", int8)
    ∷ ("sync", int8)
    ∷ []

-- `STRUCTURE MRB`
abbrev pub mouth_rb_source : List Directive
mouth_rb_source =
    structure "MRB" (sym "NDI_SIZE")
    ∷ field ubyte "MRB_WIDTH"
    ∷ field ubyte "MRB_HEIGHT"
    ∷ field ubyte "MRB_SHAPE"
    ∷ field ubyte "MRB_SYNC"
    ∷ label "MRB_SIZE"
    ∷ []

-- The structures of this file, with the symbol of each field and of the size.
abbrev pub narrator_entries : List Entry
narrator_entries =
    in_order narrator_rb_fields narrator_rb_source (some "NDI_SIZE")
    ∷ in_order mouth_rb_fields mouth_rb_source (some "MRB_SIZE")
    ∷ []
