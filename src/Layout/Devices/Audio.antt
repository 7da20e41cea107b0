-- ===== src/Layout/Devices/Audio.antt =====
-- Structures of targets/m68k-amigaos/ndk/include_h/devices/audio.h and of include_i/devices/audio.i beside it.
use amiga_dev.Common.{some, List, [], ◌∷◌}
use amiga_dev.Layout.{Fields, int16, int32, ptr, struct_of}
use amiga_dev.Layout.Asm.{Directive, aptr, field, label, struct, structure, sym, ulong, uword, word}
use amiga_dev.Layout.Agree.{Entry, in_order}
use amiga_dev.Layout.Exec.Io.{io_request_fields}
use amiga_dev.Layout.Exec.Ports.{message_fields}

-- `struct IOAudio`
abbrev pub io_audio_fields : Fields
io_audio_fields =
    ("ioa_Request", struct_of io_request_fields)
    ∷ ("ioa_AllocKey", int16)
    ∷ ("ioa_Data", ptr)
    ∷ ("ioa_Length", int32)
    ∷ ("ioa_Period", int16)
    ∷ ("ioa_Volume", int16)
    ∷ ("ioa_Cycles", int16)
    ∷ ("ioa_WriteMsg", struct_of message_fields)
    ∷ []

-- `STRUCTURE IOAudio`
abbrev pub io_audio_source : List Directive
io_audio_source =
    structure "IOAudio" (sym "IO_SIZE")
    ∷ field word "ioa_AllocKey"
    ∷ field aptr "ioa_Data"
    ∷ field ulong "ioa_Length"
    ∷ field uword "ioa_Period"
    ∷ field uword "ioa_Volume"
    ∷ field uword "ioa_Cycles"
    ∷ struct "ioa_WriteMsg" (sym "MN_SIZE")
    ∷ label "ioa_SIZEOF"
    ∷ []

-- The structures of this file, with the symbol of each field and of the size.
abbrev pub audio_entries : List Entry
audio_entries = in_order io_audio_fields io_audio_source (some "ioa_SIZEOF") ∷ []
