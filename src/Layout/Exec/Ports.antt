-- ===== src/Layout/Exec/Ports.antt =====
-- Structures of targets/m68k-amigaos/ndk/include_h/exec/ports.h and of include_i/exec/ports.i beside it.
use amiga_dev.Common.{some, List, [], ◌∷◌}
use amiga_dev.Layout.{Fields, int16, int8, ptr, struct_of}
use amiga_dev.Layout.Asm.{Directive, aptr, field, label, struct, structure, sym, ubyte, uword}
use amiga_dev.Layout.Agree.{Entry, in_order}
use amiga_dev.Layout.Exec.Lists.{list_fields}
use amiga_dev.Layout.Exec.Nodes.{node_fields}

-- `struct MsgPort`
abbrev pub msg_port_fields : Fields
msg_port_fields =
    ("mp_Node", struct_of node_fields)
    ∷ ("mp_Flags", int8)
    ∷ ("mp_SigBit", int8)
    ∷ ("mp_SigTask", ptr)
    ∷ ("mp_MsgList", struct_of list_fields)
    ∷ []

-- `STRUCTURE MP`
abbrev pub msg_port_source : List Directive
msg_port_source =
    structure "MP" (sym "LN_SIZE")
    ∷ field ubyte "MP_FLAGS"
    ∷ field ubyte "MP_SIGBIT"
    ∷ field aptr "MP_SIGTASK"
    ∷ struct "MP_MSGLIST" (sym "LH_SIZE")
    ∷ label "MP_SIZE"
    ∷ []

-- `struct Message`
abbrev pub message_fields : Fields
message_fields =
    ("mn_Node", struct_of node_fields) ∷ ("mn_ReplyPort", ptr) ∷ ("mn_Length", int16) ∷ []

-- `STRUCTURE MN`
abbrev pub message_source : List Directive
message_source =
    structure "MN" (sym "LN_SIZE")
    ∷ field aptr "MN_REPLYPORT"
    ∷ field uword "MN_LENGTH"
    ∷ label "MN_SIZE"
    ∷ []

-- The structures of this file, with the symbol of each field and of the size.
abbrev pub ports_entries : List Entry
ports_entries =
    in_order msg_port_fields msg_port_source (some "MP_SIZE")
    ∷ in_order message_fields message_source (some "MN_SIZE")
    ∷ []
