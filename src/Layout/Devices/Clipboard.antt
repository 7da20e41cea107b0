-- ===== src/Layout/Devices/Clipboard.antt =====
-- Structures of targets/m68k-amigaos/ndk/include_h/devices/clipboard.h and of include_i/devices/clipboard.i beside it.
use amiga_dev.Common.{some, none, List, [], ◌∷◌}
use amiga_dev.Layout.{Fields, int16, int32, int8, ptr, struct_of}
use amiga_dev.Layout.Asm.{
  Directive, aptr, byte, field, label, long, num, struct, structure, sym, ubyte, ulong, uword,
}
use amiga_dev.Layout.Agree.{Entry, in_order}
use amiga_dev.Layout.Exec.Nodes.{node_fields}
use amiga_dev.Layout.Exec.Ports.{message_fields}

-- `struct ClipboardUnitPartial`
abbrev pub clipboard_unit_partial_fields : Fields
clipboard_unit_partial_fields = ("cu_Node", struct_of node_fields) ∷ ("cu_UnitNum", int32) ∷ []

-- `STRUCTURE ClipboardUnitPartial`
abbrev pub clipboard_unit_partial_source : List Directive
clipboard_unit_partial_source =
    structure "ClipboardUnitPartial" (num 0)
    ∷ struct "cu_Node" (sym "LN_SIZE")
    ∷ field ulong "cu_UnitNum"
    ∷ []

-- `struct IOClipReq`
abbrev pub io_clip_req_fields : Fields
io_clip_req_fields =
    ("io_Message", struct_of message_fields)
    ∷ ("io_Device", ptr)
    ∷ ("io_Unit", ptr)
    ∷ ("io_Command", int16)
    ∷ ("io_Flags", int8)
    ∷ ("io_Error", int8)
    ∷ ("io_Actual", int32)
    ∷ ("io_Length", int32)
    ∷ ("io_Data", int32)
    ∷ ("io_Offset", int32)
    ∷ ("io_ClipID", int32)
    ∷ []

-- `STRUCTURE IOClipReq`
abbrev pub io_clip_req_source : List Directive
io_clip_req_source =
    structure "IOClipReq" (num 0)
    ∷ struct "io_Message" (sym "MN_SIZE")
    ∷ field aptr "io_Device"
    ∷ field aptr "io_Unit"
    ∷ field uword "io_Command"
    ∷ field ubyte "io_Flags"
    ∷ field byte "io_Error"
    ∷ field ulong "io_Actual"
    ∷ field ulong "io_Length"
    ∷ field aptr "io_Data"
    ∷ field ulong "io_Offset"
    ∷ field long "io_ClipID"
    ∷ label "iocr_SIZEOF"
    ∷ []

-- `struct SatisfyMsg`
abbrev pub satisfy_msg_fields : Fields
satisfy_msg_fields =
    ("sm_Msg", struct_of message_fields) ∷ ("sm_Unit", int16) ∷ ("sm_ClipID", int32) ∷ []

-- `STRUCTURE SatisfyMsg`
abbrev pub satisfy_msg_source : List Directive
satisfy_msg_source =
    structure "SatisfyMsg" (num 0)
    ∷ struct "sm_Msg" (sym "MN_SIZE")
    ∷ field uword "sm_Unit"
    ∷ field long "sm_ClipID"
    ∷ label "satisfyMsg_SIZEOF"
    ∷ []

-- `struct ClipHookMsg`
abbrev pub clip_hook_msg_fields : Fields
clip_hook_msg_fields = ("chm_Type", int32) ∷ ("chm_ChangeCmd", int32) ∷ ("chm_ClipID", int32) ∷ []

-- `STRUCTURE ClipHookMsg`
abbrev pub clip_hook_msg_source : List Directive
clip_hook_msg_source =
    structure "ClipHookMsg" (num 0)
    ∷ field ulong "chm_Type"
    ∷ field long "chm_ChangeCmd"
    ∷ field long "chm_ClipID"
    ∷ []

-- The structures of this file, with the symbol of each field and of the size.
abbrev pub clipboard_entries : List Entry
clipboard_entries =
    in_order clipboard_unit_partial_fields clipboard_unit_partial_source none
    ∷ in_order io_clip_req_fields io_clip_req_source (some "iocr_SIZEOF")
    ∷ in_order satisfy_msg_fields satisfy_msg_source (some "satisfyMsg_SIZEOF")
    ∷ in_order clip_hook_msg_fields clip_hook_msg_source none
    ∷ []
