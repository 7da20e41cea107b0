-- ===== src/Layout/Intuition.antt =====
-- 34 structures of the intuition headers of targets/m68k-amigaos/ndk/include_h, and the same
-- ones of targets/m68k-amigaos/ndk/include_i. Left out of the table are structures that both
-- languages have: GadgetInfo (gi_Reserved, which the assembler leaves out), because the two
-- differ; and ExtNewScreen, ExtNewWindow, Preferences, the messages of classusr.h (Msg, opSet,
-- opUpdate, opGet, opAddTail, opMember), those of gadgetclass.h (gpHitTest, gpRender, gpInput,
-- gpGoInactive, gpLayout, gpDomain, gpKeyTest, gpKeyInput, gpKeyGoInactive), impErase,
-- impHitTest and impDomainFrame, because the two divide them into fields in different ways, or
-- their assembler source has conditions or expressions that Layout/Asm does not have or symbols
-- of a header outside the table.
pub mod Imageclass
pub mod Screens
pub mod ScreensFromNewscreen
pub mod Intuitionbase
pub mod Intuition
pub mod IntuitionFromGadget
pub mod IntuitionFromStringinfo
pub mod IntuitionFromIntuimessage
pub mod IntuitionFromWindow
pub mod IntuitionFromRemember
pub mod Classes
pub mod Sghooks
use amiga_dev.Common.{List, ◌∷◌, ◌++◌}
use amiga_dev.Layout.Asm.{Symbols}
use amiga_dev.Layout.Agree.{Entry}
use amiga_dev.Layout.Graphics.{graphics_structs}
use amiga_dev.Layout.Intuition.Imageclass.{imageclass_entries}
use amiga_dev.Layout.Intuition.Screens.{screens_entries}
use amiga_dev.Layout.Intuition.ScreensFromNewscreen.{screens_from_newscreen_entries}
use amiga_dev.Layout.Intuition.Intuitionbase.{intuitionbase_entries}
use amiga_dev.Layout.Intuition.Intuition.{intuition_entries}
use amiga_dev.Layout.Intuition.IntuitionFromGadget.{intuition_from_gadget_entries}
use amiga_dev.Layout.Intuition.IntuitionFromStringinfo.{intuition_from_stringinfo_entries}
use amiga_dev.Layout.Intuition.IntuitionFromIntuimessage.{intuition_from_intuimessage_entries}
use amiga_dev.Layout.Intuition.IntuitionFromWindow.{intuition_from_window_entries}
use amiga_dev.Layout.Intuition.IntuitionFromRemember.{intuition_from_remember_entries}
use amiga_dev.Layout.Intuition.Classes.{classes_entries}
use amiga_dev.Layout.Intuition.Sghooks.{sghooks_entries}

-- In the order of the assembler's includes, with the ones they need.
abbrev pub intuition_structs : List Entry
intuition_structs =
    graphics_structs ++ imageclass_entries ++ screens_entries ++ screens_from_newscreen_entries
    ++ intuitionbase_entries ++ intuition_entries ++ intuition_from_gadget_entries
    ++ intuition_from_stringinfo_entries ++ intuition_from_intuimessage_entries
    ++ intuition_from_window_entries ++ intuition_from_remember_entries ++ classes_entries
    ++ sghooks_entries
