-- ===== src/Layout/Agree.antt =====
-- The check that C and the assembler give the fields of a structure the same offsets.
use mathlib.Core.Path.{subst}
use Prim.Native.String.{String}
use amiga_dev.Common.{
  ℕ, zero, suc, ◌≡◌, refl, Bool, true, false, Option, none, some, List, [], ◌∷◌, get_elem?, ◌==◌,
  ==→eq, ◌&&◌, &&-true, ◌>>=◌,
}
use amiga_dev.Abi.{find}
use amiga_dev.Layout.{Fields, place, struct_of}
use amiga_dev.Layout.Asm.{Directive, structure, field, struct, num, Symbols, assemble}

-- A structure in both languages, with the assembler's symbol of each field and, where it has one,
-- of the size.
pub record Entry : Type 0 where
  pub fields : Fields
  pub source : List Directive
  pub symbols : List String
  pub size_symbol : Option String

abbrev pub entry : Fields → List Directive → List String → Option String → Entry
entry f d s z = record { fields = f; source = d; symbols = s; size_symbol = z }

-- The symbols of the fields that lines define, in their order; the structure's own symbol stands for
-- what it starts with, where that is not nothing.
abbrev defined_by : List Directive → List String
defined_by [] = []
defined_by (structure x (num n) ∷ ds) = defined_by ds
defined_by (structure x e ∷ ds) = x ∷ defined_by ds
defined_by (field m x ∷ ds) = x ∷ defined_by ds
defined_by (struct x e ∷ ds) = x ∷ defined_by ds
defined_by (d ∷ ds) = defined_by ds

-- A structure whose fields have the same order in both languages.
abbrev pub in_order : Fields → List Directive → Option String → Entry
in_order f d z = entry f d (defined_by d) z

is_at : Option ℕ → ℕ → Bool
is_at none o = false
is_at (some p) o = p == o

is_at_sound : (v : Option ℕ) (o : ℕ) → is_at v o ≡ true → v ≡ some o
unfolding is_at
is_at_sound none o h = cc
is_at_sound (some p) o h = rw (==→eq p o h) refl

same_offsets : List (String × ℕ) → List String → Symbols → Bool
unfolding is_at
same_offsets [] xs syms = true
same_offsets ((n, o) ∷ ps) [] syms = false
same_offsets ((n, o) ∷ ps) (x ∷ xs) syms = is_at (find x syms) o && same_offsets ps xs syms

same_size : Option String → ℕ → Symbols → Bool
unfolding is_at
same_size none n syms = true
same_size (some x) n syms = is_at (find x syms) n

-- The offset of a field in C is the value of its symbol.
abbrev FieldsAgree : List (String × ℕ) → List String → Symbols → Type 0
FieldsAgree ps xs syms =
    (j : ℕ) (n : String) (o : ℕ)
    → get_elem? ps j ≡ some (n, o)
    → (x : String) × (get_elem? xs j ≡ some x) × (find x syms ≡ some o)

abbrev SizeAgrees : Option String → ℕ → Symbols → Type 0
SizeAgrees none n syms = Unit
SizeAgrees (some x) n syms = find x syms ≡ some n

same_offsets_sound :
    (ps : List (String × ℕ)) (xs : List String) (syms : Symbols)
    → same_offsets ps xs syms ≡ true
    → FieldsAgree ps xs syms
unfolding same_offsets
same_offsets_sound [] xs syms h j n o e = cc
same_offsets_sound ((m, p) ∷ ps) [] syms h j n o e = cc
same_offsets_sound ((m, p) ∷ ps) (x ∷ xs) syms h zero n o e =
    let (hx, h') = &&-true (is_at (find x syms) p) _ h in
    let same : p ≡ o = cc in (x, refl, rw (← same) (is_at_sound (find x syms) p hx))
same_offsets_sound ((m, p) ∷ ps) (x ∷ xs) syms h (suc j) n o e =
    let (hx, h') = &&-true (is_at (find x syms) p) _ h in same_offsets_sound ps xs syms h' j n o e

same_size_sound :
    (z : Option String) (n : ℕ) (syms : Symbols) → same_size z n syms ≡ true → SizeAgrees z n syms
unfolding same_size
same_size_sound none n syms h = tt
same_size_sound (some x) n syms h = is_at_sound (find x syms) n h

-- The symbols behind the structure at a place of a list of them, assembled one after another.
unfoldable pub symbols_at : Symbols → List Entry → ℕ → Option Symbols
symbols_at syms [] i = none
symbols_at syms (e ∷ es) zero = assemble 0 syms e.source
symbols_at syms (e ∷ es) (suc i) = do syms' ← assemble 0 syms e.source; symbols_at syms' es i

-- The structure has the same layout in both languages, given the outcome of the assembler.
pub record SameLayout (e : Entry) (assembled : Option Symbols) : Type 0 where
  pub syms : Symbols
  pub is_assembled : assembled ≡ some syms
  pub offsets : FieldsAgree (place 0 e.fields) e.symbols syms
  pub size : SizeAgrees e.size_symbol (struct_of e.fields).size syms

-- The structure against the symbols behind it, and whatever is left to check.
same_layout : Entry → Option Symbols → (Symbols → Bool) → Bool
unfolding same_offsets same_size
same_layout e none rest = false
same_layout e (some syms) rest =
    same_offsets (place 0 e.fields) e.symbols syms
    && (same_size e.size_symbol (struct_of e.fields).size syms && rest syms)

unfoldable pub agree : Symbols → List Entry → Bool
unfolding same_layout
agree syms [] = true
agree syms (e ∷ es) = same_layout e (assemble 0 syms e.source) (λ syms'. agree syms' es)

same_layout_sound :
    (e : Entry) (o : Option Symbols) (rest : Symbols → Bool)
    → same_layout e o rest ≡ true
    → SameLayout e o × ((syms : Symbols) × (o ≡ some syms) × (rest syms ≡ true))
unfolding same_layout
same_layout_sound e none rest h = cc
same_layout_sound e (some syms) rest h =
    let (hf, h') = &&-true (same_offsets (place 0 e.fields) e.symbols syms) _ h in
    let (hz, hr) = &&-true (same_size e.size_symbol (struct_of e.fields).size syms) _ h' in
    (
      record {
        syms = syms;
        is_assembled = refl;
        offsets = same_offsets_sound (place 0 e.fields) e.symbols syms hf;
        size = same_size_sound e.size_symbol (struct_of e.fields).size syms hz;
      },
      (syms, refl, hr),
    )

pub agree_sound :
    (es : List Entry) (syms : Symbols) (i : ℕ) (e : Entry)
    → agree syms es ≡ true
    → get_elem? es i ≡ some e
    → SameLayout e (symbols_at syms es i)
unfolding agree symbols_at
agree_sound [] syms i e h at = cc
agree_sound (x ∷ es) syms zero e h at =
    let same : x ≡ e = cc in
    let found = same_layout_sound x (assemble 0 syms x.source) (λ s. agree s es) h in
    subst (λ y. SameLayout y (assemble 0 syms x.source)) same found.0
agree_sound (x ∷ es) syms (suc i) e h at =
    let found = same_layout_sound x (assemble 0 syms x.source) (λ s. agree s es) h in
    let (syms', is_syms', rest) = found.1 in rw is_syms' (agree_sound es syms' i e rest at)
