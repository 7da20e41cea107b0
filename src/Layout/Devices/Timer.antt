-- ===== src/Layout/Devices/Timer.antt =====
-- Structures of targets/m68k-amigaos/ndk/include_h/devices/timer.h and of include_i/devices/timer.i beside it.
use amiga_dev.Common.{some, List, [], ◌∷◌}
use amiga_dev.Layout.{Fields, int32, struct_of}
use amiga_dev.Layout.Asm.{Directive, field, label, num, struct, structure, sym, ulong}
use amiga_dev.Layout.Agree.{Entry, in_order}
use amiga_dev.Layout.Exec.Io.{io_request_fields}

-- `struct timeval`
abbrev pub timeval_fields : Fields
timeval_fields = ("tv_secs", int32) ∷ ("tv_micro", int32) ∷ []

-- `STRUCTURE TIMEVAL`
abbrev pub timeval_source : List Directive
timeval_source =
    structure "TIMEVAL" (num 0)
    ∷ field ulong "TV_SECS"
    ∷ field ulong "TV_MICRO"
    ∷ label "TV_SIZE"
    ∷ []

-- `struct EClockVal`
abbrev pub e_clock_val_fields : Fields
e_clock_val_fields = ("ev_hi", int32) ∷ ("ev_lo", int32) ∷ []

-- `STRUCTURE ECLOCKVAL`
abbrev pub e_clock_val_source : List Directive
e_clock_val_source =
    structure "ECLOCKVAL" (num 0) ∷ field ulong "EV_HI" ∷ field ulong "EV_LO" ∷ label "EV_SIZE" ∷ []

-- `struct timerequest`
abbrev pub timerequest_fields : Fields
timerequest_fields =
    ("tr_node", struct_of io_request_fields) ∷ ("tr_time", struct_of timeval_fields) ∷ []

-- `STRUCTURE TIMEREQUEST`
abbrev pub timerequest_source : List Directive
timerequest_source =
    structure "TIMEREQUEST" (sym "IO_SIZE")
    ∷ struct "IOTV_TIME" (sym "TV_SIZE")
    ∷ label "IOTV_SIZE"
    ∷ []

-- The structures of this file, with the symbol of each field and of the size.
abbrev pub timer_entries : List Entry
timer_entries =
    in_order timeval_fields timeval_source (some "TV_SIZE")
    ∷ in_order e_clock_val_fields e_clock_val_source (some "EV_SIZE")
    ∷ in_order timerequest_fields timerequest_source (some "IOTV_SIZE")
    ∷ []
