-- ===== src/Scanf/Wrap.antt =====
-- The entry points of src/scanf_overrides.c around the real functions. Each plain function and its
-- `__isoc99_` twin differ in the function pointer that they pass on, and a function with `...` and
-- the one with a `va_list` in nothing, since the arguments are given here.
use libc_override.Base.{
  ℕ, ◌-◌, ◌^◌, Bool, true, false, ◌&&◌, List, Option, none, some, if◌then◌else◌, Errno, enosys,
}
use libc_override.Scanf.Parse.{parse_scanf_format, parse_wscanf_format, Parsed, is_parsed}
use libc_override.Scanf.Plan.{Allocator, Plan, no_plan, plan_reset}
use libc_override.Scanf.Rehome.{Memory, rehome_plan}
use libc_override.Stats.{is_positive}

-- `EOF`, as the 32-bit pattern of an `int`
abbrev pub eof : ℕ
eof = 2 ^ 32 - 1

-- the four kinds of real functions; each has an `__isoc99_` variant
pub data Family : Type 0 where
  vfscanf vsscanf vfwscanf vswscanf : Family

-- the entry points
pub data Entry : Type 0 where
  vfscanf vscanf fscanf scanf : Entry
  vsscanf sscanf : Entry
  vfwscanf vwscanf fwscanf wscanf : Entry
  vswscanf swscanf : Entry

abbrev pub Args : Type 0
Args = ℕ → ℕ

module _ (A : Allocator) where
  -- a real function: its source is a stream or a string, and its result an `int`
  abbrev pub Real : Type 0
  Real = (source : ℕ) → List ℕ → Args → Memory A → ℕ × Memory A

  -- what `dlsym` finds
  pub record Linker : Type 0 where
    pub real : Family → (isoc99 : Bool) → Option Real
    pub bridge_owns : Bool
    pub bridge_libc_free : Bool
    pub bridge_libc_realloc : Bool

  -- the function pointers, whether `pthread_once` has run, and `g_bridge_ready`
  pub record Globals : Type 0 where
    pub resolved : Bool
    pub real : Family → (isoc99 : Bool) → Option Real
    pub bridge_ready : Bool

  -- `errno` is what these functions set it to, or `none` where it is as the functions that they call
  -- leave it
  pub record World : Type 0 where
    pub memory : Memory A
    pub globals : Globals
    pub errno : Option Errno

  -- the globals as the program starts
  abbrev pub unresolved : Globals
  unresolved = record { resolved = false; real = λ f isoc99. none; bridge_ready = false }

  abbrev pub or_else : Option Real → Option Real → Option Real
  or_else none g = g
  or_else (some f) g = some f

  module _ (linker : Linker) where
    -- a missing `__isoc99_` function is replaced by the plain one
    unfoldable pub resolve_scanf_symbols : Globals → Globals
    resolve_scanf_symbols g = record g {
      real = λ f isoc99.
          if isoc99
          then or_else (linker.real f true) (linker.real f false)
          else linker.real f false;
      bridge_ready = linker.bridge_owns && (linker.bridge_libc_free && linker.bridge_libc_realloc);
    }

    unfoldable pub ensure_scanf_symbols : World → World
    ensure_scanf_symbols w =
        if w.globals.resolved
        then w
        else record w { globals = record (resolve_scanf_symbols w.globals) { resolved = true } }

    -- the code behind the parser
    unfoldable pub scan_and_rehome :
        Real → (source : ℕ) → List ℕ → Args → Parsed A → World → ℕ × World
    scan_and_rehome f source format args (ended, (plan, mem)) w =
        let (ret, m) = f source format args (record w.memory { mem = mem }) in
        let ready = w.globals.bridge_ready in
        let moved =
          if is_parsed ended && (ready && is_positive ret)
          then rehome_plan A ready plan ret m
          else m in
        let (_, mem') = plan_reset A plan moved.mem in
        (ret, record w { memory = record moved { mem = mem' }; errno = none })

    -- the wrappers, for either parser
    unfoldable pub wrap_common :
        (List ℕ → Args → Plan → A.Mem → Parsed A)
        → Option Real
        → (source : ℕ) → List ℕ
        → Args
        → World
        → ℕ × World
    wrap_common parse none source format args w =
        (eof, record (ensure_scanf_symbols w) { errno = some enosys })
    wrap_common parse (some f) source format args w =
        let w = ensure_scanf_symbols w in
        scan_and_rehome f source format args (parse format args no_plan w.memory.mem) w

    unfoldable pub wrap_vfscanf_common : Option Real → ℕ → List ℕ → Args → World → ℕ × World
    wrap_vfscanf_common = wrap_common (parse_scanf_format A)

    unfoldable pub wrap_vsscanf_common : Option Real → ℕ → List ℕ → Args → World → ℕ × World
    wrap_vsscanf_common = wrap_common (parse_scanf_format A)

    unfoldable pub wrap_vfwscanf_common : Option Real → ℕ → List ℕ → Args → World → ℕ × World
    wrap_vfwscanf_common = wrap_common (parse_wscanf_format A)

    unfoldable pub wrap_vswscanf_common : Option Real → ℕ → List ℕ → Args → World → ℕ × World
    wrap_vswscanf_common = wrap_common (parse_wscanf_format A)

    -- a call of an entry point; `stdin` is the stream of those that take none, and the pointer to the
    -- real function is read before the wrapper starts
    unfoldable pub enter :
        (stdin : ℕ) → Entry → (isoc99 : Bool) → (source : ℕ) → List ℕ → Args → World → ℕ × World
    enter stdin Entry.vfscanf isoc99 source format args w =
        wrap_vfscanf_common (w.globals.real Family.vfscanf isoc99) source format args w
    enter stdin Entry.vscanf isoc99 source format args w =
        wrap_vfscanf_common (w.globals.real Family.vfscanf isoc99) stdin format args w
    enter stdin Entry.fscanf isoc99 source format args w =
        wrap_vfscanf_common (w.globals.real Family.vfscanf isoc99) source format args w
    enter stdin Entry.scanf isoc99 source format args w =
        wrap_vfscanf_common (w.globals.real Family.vfscanf isoc99) stdin format args w
    enter stdin Entry.vsscanf isoc99 source format args w =
        wrap_vsscanf_common (w.globals.real Family.vsscanf isoc99) source format args w
    enter stdin Entry.sscanf isoc99 source format args w =
        wrap_vsscanf_common (w.globals.real Family.vsscanf isoc99) source format args w
    enter stdin Entry.vfwscanf isoc99 source format args w =
        wrap_vfwscanf_common (w.globals.real Family.vfwscanf isoc99) source format args w
    enter stdin Entry.vwscanf isoc99 source format args w =
        wrap_vfwscanf_common (w.globals.real Family.vfwscanf isoc99) stdin format args w
    enter stdin Entry.fwscanf isoc99 source format args w =
        wrap_vfwscanf_common (w.globals.real Family.vfwscanf isoc99) source format args w
    enter stdin Entry.wscanf isoc99 source format args w =
        wrap_vfwscanf_common (w.globals.real Family.vfwscanf isoc99) stdin format args w
    enter stdin Entry.vswscanf isoc99 source format args w =
        wrap_vswscanf_common (w.globals.real Family.vswscanf isoc99) source format args w
    enter stdin Entry.swscanf isoc99 source format args w =
        wrap_vswscanf_common (w.globals.real Family.vswscanf isoc99) source format args w
