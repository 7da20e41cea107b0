-- ===== src/Layout/Graphics.antt =====
-- 44 structures of the graphics and hardware headers of targets/m68k-amigaos/ndk/include_h, and
-- the same ones of targets/m68k-amigaos/ndk/include_i. Left out of the table are structures
-- that both languages have: DBufPacket (dbp_BufPlanes), because the two differ; and Layer,
-- CopIns, VSprite, Bob, AnimComp, AnimOb, collTable, GfxBase and ViewPortExtra, because the two
-- divide them into fields in different ways, or their assembler source has conditions or
-- expressions that Layout/Asm does not have or symbols of a header outside the table.
pub mod Gfx
pub mod Clip
pub mod Copper
pub mod Displayinfo
pub mod DisplayinfoFromVecinfo
pub mod Gfxnodes
pub mod Layers
pub mod Monitor
pub mod Rastport
pub mod Regions
pub mod Scale
pub mod Sprite
pub mod Text
pub mod TextFromTextextent
pub mod View
pub mod ViewFromPaletteextra
pub mod Blit
use amiga_dev.Common.{List, ◌∷◌, ◌++◌}
use amiga_dev.Layout.Asm.{Symbols}
use amiga_dev.Layout.Agree.{Entry}
use amiga_dev.Layout.Exec.{exec_structs}
use amiga_dev.Layout.Graphics.Gfx.{gfx_entries}
use amiga_dev.Layout.Graphics.Clip.{clip_entries}
use amiga_dev.Layout.Graphics.Copper.{copper_entries}
use amiga_dev.Layout.Graphics.Displayinfo.{displayinfo_entries}
use amiga_dev.Layout.Graphics.DisplayinfoFromVecinfo.{displayinfo_from_vecinfo_entries}
use amiga_dev.Layout.Graphics.Gfxnodes.{gfxnodes_entries}
use amiga_dev.Layout.Graphics.Layers.{layers_entries}
use amiga_dev.Layout.Graphics.Monitor.{monitor_entries}
use amiga_dev.Layout.Graphics.Rastport.{rastport_entries}
use amiga_dev.Layout.Graphics.Regions.{regions_entries}
use amiga_dev.Layout.Graphics.Scale.{scale_entries}
use amiga_dev.Layout.Graphics.Sprite.{sprite_entries}
use amiga_dev.Layout.Graphics.Text.{text_entries}
use amiga_dev.Layout.Graphics.TextFromTextextent.{text_from_textextent_entries}
use amiga_dev.Layout.Graphics.View.{view_entries}
use amiga_dev.Layout.Graphics.ViewFromPaletteextra.{view_from_paletteextra_entries}
use amiga_dev.Layout.Graphics.Blit.{blit_entries}

-- In the order of the assembler's includes, with the ones they need.
abbrev pub graphics_structs : List Entry
graphics_structs =
    exec_structs ++ gfx_entries ++ clip_entries ++ copper_entries ++ displayinfo_entries
    ++ displayinfo_from_vecinfo_entries ++ gfxnodes_entries ++ layers_entries ++ monitor_entries
    ++ rastport_entries ++ regions_entries ++ scale_entries ++ sprite_entries ++ text_entries
    ++ text_from_textextent_entries ++ view_entries ++ view_from_paletteextra_entries
    ++ blit_entries
