-- ===== src/Layout/Tests.antt =====
-- Single structures in both languages: the theorems at concrete inputs, and runs.
use amiga_dev.Common.{ℕ, ◌≡◌, refl, Option, some, List, [], ◌∷◌, ◌>>=◌}
use amiga_dev.Abi.{find}
use amiga_dev.Layout.{Fields, int8, int16, int32, ptr, array, struct_of, place, end_of, align_of}
use amiga_dev.Layout.Asm.{
  Directive, structure, field, struct, num, times, ubyte, uword, assemble, eval,
}

-- `struct FontPrefs` of prefs/font.h, up to the first field that the assembler places elsewhere.
abbrev font_prefs_fields : Fields
font_prefs_fields =
    ("fp_Reserved", array 3 int32)
    ∷ ("fp_Reserved2", int16)
    ∷ ("fp_Type", int16)
    ∷ ("fp_FrontPen", int8)
    ∷ ("fp_BackPen", int8)
    ∷ ("fp_DrawMode", int8)
    ∷ ("fp_TextAttr", struct_of (("ta_Name", ptr) ∷ []))
    ∷ []

abbrev font_prefs_source : List Directive
font_prefs_source =
    structure "FontPrefs" (num 0)
    ∷ struct "fp_Reserved" (times (num 3) (num 4))
    ∷ field uword "fp_Reserved2"
    ∷ field uword "fp_Type"
    ∷ field ubyte "fp_FrontPen"
    ∷ field ubyte "fp_BackPen"
    ∷ field ubyte "fp_DrawMode"
    ∷ struct "fp_TextAttr" (num 8)
    ∷ []

font_prefs_differ : find "fp_TextAttr" (place 0 font_prefs_fields) ≡ some 20
unfolding find place struct_of end_of align_of
font_prefs_differ = refl

abbrev font_prefs_offset : Option ℕ
font_prefs_offset = do syms ← assemble 0 [] font_prefs_source; find "fp_TextAttr" syms

font_prefs_misplaced : font_prefs_offset ≡ some 19
unfolding assemble eval find
font_prefs_misplaced = refl
