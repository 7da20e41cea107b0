-- ===== src/Layout/Devices.antt =====
-- 48 structures of the devices and resources headers of targets/m68k-amigaos/ndk/include_h, and
-- the same ones of targets/m68k-amigaos/ndk/include_i. Left out of the table are structures
-- that both languages have: PartitionBlock (pb_EReserved), PrtDriverPreferences (pdp_Length),
-- because the two differ; and TOCSummary, TOCEntry, QCode, ConUnit, the requests IOPrtCmdReq,
-- IODRPReq, IODRPTagsReq, IOPrtPrefsReq, IOPrtErrReq and IOPrefsReq, PrinterData, TP_AmigaXIP
-- and MathIEEEResource, because the two divide them into fields in different ways, or their
-- assembler source has conditions or expressions that Layout/Asm does not have or symbols of a
-- header outside the table.
pub mod Timer
pub mod Inputevent
pub mod Audio
pub mod Bootblock
pub mod Cd
pub mod Clipboard
pub mod Keymap
pub mod Gameport
pub mod Hardblocks
pub mod HardblocksFromFilesysheaderblock
pub mod Narrator
pub mod Parallel
pub mod Printer
pub mod Serial
pub mod Prtbase
pub mod Prtgfx
pub mod Scsidisk
pub mod Trackdisk
pub mod Card
pub mod Disk
pub mod Filesysres
use amiga_dev.Common.{List, ◌∷◌, ◌++◌}
use amiga_dev.Layout.Asm.{Symbols}
use amiga_dev.Layout.Agree.{Entry}
use amiga_dev.Layout.Exec.{exec_structs}
use amiga_dev.Layout.Devices.Timer.{timer_entries}
use amiga_dev.Layout.Devices.Inputevent.{inputevent_entries}
use amiga_dev.Layout.Devices.Audio.{audio_entries}
use amiga_dev.Layout.Devices.Bootblock.{bootblock_entries}
use amiga_dev.Layout.Devices.Cd.{cd_entries}
use amiga_dev.Layout.Devices.Clipboard.{clipboard_entries}
use amiga_dev.Layout.Devices.Keymap.{keymap_entries}
use amiga_dev.Layout.Devices.Gameport.{gameport_entries}
use amiga_dev.Layout.Devices.Hardblocks.{hardblocks_entries}
use amiga_dev.Layout.Devices.HardblocksFromFilesysheaderblock.{
  hardblocks_from_filesysheaderblock_entries,
}
use amiga_dev.Layout.Devices.Narrator.{narrator_entries}
use amiga_dev.Layout.Devices.Parallel.{parallel_entries}
use amiga_dev.Layout.Devices.Printer.{printer_entries}
use amiga_dev.Layout.Devices.Serial.{serial_entries}
use amiga_dev.Layout.Devices.Prtbase.{prtbase_entries}
use amiga_dev.Layout.Devices.Prtgfx.{prtgfx_entries}
use amiga_dev.Layout.Devices.Scsidisk.{scsidisk_entries}
use amiga_dev.Layout.Devices.Trackdisk.{trackdisk_entries}
use amiga_dev.Layout.Devices.Card.{card_entries}
use amiga_dev.Layout.Devices.Disk.{disk_entries}
use amiga_dev.Layout.Devices.Filesysres.{filesysres_entries}

-- In the order of the assembler's includes, with the ones they need.
abbrev pub devices_structs : List Entry
devices_structs =
    exec_structs ++ timer_entries ++ inputevent_entries ++ audio_entries ++ bootblock_entries
    ++ cd_entries ++ clipboard_entries ++ keymap_entries ++ gameport_entries ++ hardblocks_entries
    ++ hardblocks_from_filesysheaderblock_entries ++ narrator_entries ++ parallel_entries
    ++ printer_entries ++ serial_entries ++ prtbase_entries ++ prtgfx_entries ++ scsidisk_entries
    ++ trackdisk_entries ++ card_entries ++ disk_entries ++ filesysres_entries
