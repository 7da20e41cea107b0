-- ===== src/Layout/Exec/Notify.antt =====
-- Structures of targets/m68k-amigaos/ndk/include_h/dos/notify.h and of include_i/dos/notify.i beside it.
use amiga_dev.Common.{some, List, [], ◌∷◌}
use amiga_dev.Layout.{Fields, array, int16, int32, int8, ptr, struct_of, union_of}
use amiga_dev.Layout.Asm.{
  Directive, aptr, cptr, field, label, num, struct, structure, sym, times, ubyte, ulong, uword,
}
use amiga_dev.Layout.Agree.{Entry, entry, in_order}
use amiga_dev.Layout.Exec.Ports.{message_fields}

-- `struct NotifyMessage`
abbrev pub notify_message_fields : Fields
notify_message_fields =
    ("nm_ExecMessage", struct_of message_fields)
    ∷ ("nm_Class", int32)
    ∷ ("nm_Code", int16)
    ∷ ("nm_NReq", ptr)
    ∷ ("nm_DoNotTouch", int32)
    ∷ ("nm_DoNotTouch2", int32)
    ∷ []

-- `STRUCTURE NotifyMessage`
abbrev pub notify_message_source : List Directive
notify_message_source =
    structure "NotifyMessage" (num 0)
    ∷ struct "nm_ExecMessage" (sym "MN_SIZE")
    ∷ field ulong "nm_Class"
    ∷ field uword "nm_Code"
    ∷ field aptr "nm_NReq"
    ∷ field ulong "nm_DoNotTouch"
    ∷ field ulong "nm_DoNotTouch2"
    ∷ label "NotifyMessage_SIZEOF"
    ∷ []

-- `struct NotifyRequest`
abbrev pub notify_request_fields : Fields
notify_request_fields =
    ("nr_Name", ptr)
    ∷ ("nr_FullName", ptr)
    ∷ ("nr_UserData", int32)
    ∷ ("nr_Flags", int32)
    ∷ (
      "nr_stuff",
      union_of (
          ("nr_Msg", struct_of (("nr_Port", ptr) ∷ []))
          ∷ (
            "nr_Signal",
            struct_of (("nr_Task", ptr) ∷ ("nr_SignalNum", int8) ∷ ("nr_pad", array 3 int8) ∷ []),
          )
          ∷ []),
    )
    ∷ ("nr_Reserved", array 4 int32)
    ∷ ("nr_MsgCount", int32)
    ∷ ("nr_Handler", ptr)
    ∷ []

-- `STRUCTURE NotifyRequest`
abbrev pub notify_request_source : List Directive
notify_request_source =
    structure "NotifyRequest" (num 0)
    ∷ field cptr "nr_Name"
    ∷ field cptr "nr_FullName"
    ∷ field ulong "nr_UserData"
    ∷ field ulong "nr_Flags"
    ∷ field aptr "nr_Port"
    ∷ field ubyte "nr_SignalNum"
    ∷ struct "nr_pad" (num 3)
    ∷ struct "nr_Reserved" (times (num 4) (num 4))
    ∷ field ulong "nr_MsgCount"
    ∷ field aptr "nr_Handler"
    ∷ label "NotifyRequest_SIZEOF"
    ∷ []

-- The structures of this file, with the symbol of each field and of the size.
abbrev pub notify_entries : List Entry
notify_entries =
    in_order notify_message_fields notify_message_source (some "NotifyMessage_SIZEOF")
    ∷ entry notify_request_fields notify_request_source
        ("nr_Name" ∷ "nr_FullName" ∷ "nr_UserData" ∷ "nr_Flags" ∷ "nr_Port" ∷ "nr_Reserved"
          ∷ "nr_MsgCount" ∷ "nr_Handler" ∷ [])
        (some "NotifyRequest_SIZEOF")
    ∷ []
