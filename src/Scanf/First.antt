-- ===== src/Scanf/First.antt =====
-- The first call of an entry point, and the later ones.
use libc_override.Base.{
  ℕ, ◌≡◌, refl, Bool, true, false, ◌&&◌, List, some, if◌then◌else◌, enosys, ap, arith, ◌∙◌,
}
use libc_override.Scanf.Plan.{Allocator, Plan, no_plan}
use libc_override.Scanf.Parse.{Parsed, parse_scanf_format, parse_wscanf_format}
use libc_override.Scanf.Rehome.{Memory}
use libc_override.Stats.{is_positive}
use libc_override.Scanf.Wrap.{
  World, Linker, Real, Family, Entry, Args, eof, unresolved, enter, wrap_common,
  wrap_vfscanf_common, wrap_vsscanf_common, wrap_vfwscanf_common, wrap_vswscanf_common,
  resolve_scanf_symbols, ensure_scanf_symbols, scan_and_rehome,
}

-- the kind of real function behind an entry point
abbrev pub family : Entry → Family
family Entry.vfscanf = Family.vfscanf
family Entry.vscanf = Family.vfscanf
family Entry.fscanf = Family.vfscanf
family Entry.scanf = Family.vfscanf
family Entry.vsscanf = Family.vsscanf
family Entry.sscanf = Family.vsscanf
family Entry.vfwscanf = Family.vfwscanf
family Entry.vwscanf = Family.vfwscanf
family Entry.fwscanf = Family.vfwscanf
family Entry.wscanf = Family.vfwscanf
family Entry.vswscanf = Family.vswscanf
family Entry.swscanf = Family.vswscanf

-- the source of an entry point
abbrev pub source_of : (stdin : ℕ) → Entry → ℕ → ℕ
source_of stdin Entry.vscanf source = stdin
source_of stdin Entry.scanf source = stdin
source_of stdin Entry.vwscanf source = stdin
source_of stdin Entry.wscanf source = stdin
source_of stdin _ source = source

abbrev is_wide : Entry → Bool
is_wide Entry.vfwscanf = true
is_wide Entry.vwscanf = true
is_wide Entry.fwscanf = true
is_wide Entry.wscanf = true
is_wide Entry.vswscanf = true
is_wide Entry.swscanf = true
is_wide _ = false

-- the parser of an entry point
abbrev pub parser_of : (A : Allocator) → Entry → List ℕ → Args → Plan → A.Mem → Parsed A
parser_of A e = if is_wide e then parse_wscanf_format A else parse_scanf_format A

unmoved :
    {X : Type 0} (ok ready pos : Bool) (x y : X)
    → pos ≡ false
    → (if ok && (ready && pos) then x else y) ≡ y
unmoved ok ready pos x y h = ground arith

module _ (A : Allocator) (linker : Linker A) (stdin : ℕ) (isoc99 : Bool) (source : ℕ)
    (format : List ℕ) (args : Args) (w : World A) where
  -- every entry point is the wrapper, for its parser, its real function and its source
  enter-wrap :
      (e : Entry)
      → enter A linker stdin e isoc99 source format args w
        ≡ wrap_common A linker
            (parser_of A e)
            (w.globals.real (family e) isoc99)
            (source_of stdin e source)
            format
            args
            w
  unfolding enter wrap_vfscanf_common wrap_vsscanf_common wrap_vfwscanf_common wrap_vswscanf_common
  enter-wrap Entry.vfscanf = refl
  enter-wrap Entry.vscanf = refl
  enter-wrap Entry.fscanf = refl
  enter-wrap Entry.scanf = refl
  enter-wrap Entry.vsscanf = refl
  enter-wrap Entry.sscanf = refl
  enter-wrap Entry.vfwscanf = refl
  enter-wrap Entry.vwscanf = refl
  enter-wrap Entry.fwscanf = refl
  enter-wrap Entry.wscanf = refl
  enter-wrap Entry.vswscanf = refl
  enter-wrap Entry.swscanf = refl

  -- The first call of any entry point fails: while the program starts with no symbol resolved, it
  -- returns `EOF` with ENOSYS and scans nothing, whatever `dlsym` finds. It leaves the symbols
  -- resolved as `dlsym` finds them.
  pub first_call_fails :
      (e : Entry)
      → w.globals ≡ unresolved A
      → enter A linker stdin e isoc99 source format args w ≡ (
        eof,
        record {
          memory = w.memory;
          globals = record (resolve_scanf_symbols A linker (unresolved A)) { resolved = true };
          errno = some enosys;
        },
      )
  unfolding wrap_common ensure_scanf_symbols
  first_call_fails e start = enter-wrap e ∙ simp start refl

  -- the memory that a real function starts from, behind the parser
  abbrev pub parsed_memory : Entry → Memory A
  parsed_memory e = record w.memory { mem = (parser_of A e format args no_plan w.memory.mem).1.1 }

  -- Once the symbols are resolved, a call whose real function returns 0 or `EOF` moves nothing: the
  -- bytes are as the real function has left them.
  pub later_call-quiet :
      (e : Entry) (f : Real A)
      → w.globals.resolved ≡ true
      → w.globals.real (family e) isoc99 ≡ some f
      → is_positive (f (source_of stdin e source) format args (parsed_memory e)).0 ≡ false
      → (enter A linker stdin e isoc99 source format args w).1.memory.bytes
        ≡ (f (source_of stdin e source) format args (parsed_memory e)).1.bytes
  unfolding wrap_common ensure_scanf_symbols scan_and_rehome
  later_call-quiet e f resolved found quiet =
      rw (enter-wrap e, found, resolved) (ap (λ (m : Memory A). m.bytes) (unmoved _ _ _ _ _ quiet))
