-- ===== src/Layout/Devices/Parallel.antt =====
-- Structures of targets/m68k-amigaos/ndk/include_h/devices/parallel.h and of include_i/devices/parallel.i beside it.
use amiga_dev.Common.{some, List, [], ◌∷◌}
use amiga_dev.Layout.{Fields, int32, int8, struct_of}
use amiga_dev.Layout.Asm.{Directive, field, label, num, struct, structure, sym, ubyte, ulong}
use amiga_dev.Layout.Agree.{Entry, in_order}
use amiga_dev.Layout.Exec.Io.{io_std_req_fields}

-- `struct IOPArray`
abbrev pub iop_array_fields : Fields
iop_array_fields = ("PTermArray0", int32) ∷ ("PTermArray1", int32) ∷ []

-- `STRUCTURE PTERMARRAY`
abbrev pub iop_array_source : List Directive
iop_array_source =
    structure "PTERMARRAY" (num 0)
    ∷ field ulong "PTERMARRAY_0"
    ∷ field ulong "PTERMARRAY_1"
    ∷ label "PTERMARRAY_SIZE"
    ∷ []

-- `struct IOExtPar`
abbrev pub io_ext_par_fields : Fields
io_ext_par_fields =
    ("IOPar", struct_of io_std_req_fields)
    ∷ ("io_PExtFlags", int32)
    ∷ ("io_Status", int8)
    ∷ ("io_ParFlags", int8)
    ∷ ("io_PTermArray", struct_of iop_array_fields)
    ∷ []

-- `STRUCTURE IOEXTPAR`
abbrev pub io_ext_par_source : List Directive
io_ext_par_source =
    structure "IOEXTPAR" (sym "IOSTD_SIZE")
    ∷ field ulong "IO_PEXTFLAGS"
    ∷ field ubyte "IO_PARSTATUS"
    ∷ field ubyte "IO_PARFLAGS"
    ∷ struct "IO_PTERMARRAY" (sym "PTERMARRAY_SIZE")
    ∷ label "IOEXTPar_SIZE"
    ∷ []

-- The structures of this file, with the symbol of each field and of the size.
abbrev pub parallel_entries : List Entry
parallel_entries =
    in_order iop_array_fields iop_array_source (some "PTERMARRAY_SIZE")
    ∷ in_order io_ext_par_fields io_ext_par_source (some "IOEXTPar_SIZE")
    ∷ []
