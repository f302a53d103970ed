-- ===== src/Memstream/Wide.antt =====
-- The memory streams of wide characters in src/memstream_overrides.c: the functions behind a stream of
-- `open_wmemstream`. Positions and sizes count wide characters, and the buffer is that of a stream of
-- bytes, with a wide character at each place.
pub mod Written
use libc_override.Base.{
  ◌||◌, ℕ, ◌+◌, ◌-◌, ◌*◌, ◌/◌, ◌^◌, Bool, true, false, List, [], ◌∷◌, length, Option, none, some,
  ltb, leb, if◌then◌else◌, add_word, sub_word, mul_word, Errno, enomem, einval,
}
use libc_override.Base.Live.{Live, free}
use libc_override.Memstream.Open.{Answers, Opened, open_memstream}
use libc_override.Memstream.{
  Cookie, Realloc, ssize_max, new_space, enlarge, overlay, Offset, ahead, back, Whence, set, cur,
  end,
}

-- `mbstate_t`, of which zero is the initial state
abbrev pub State : Type 0
State = ℕ

-- `ao_wmemstream_cookie`
pub record WideCookie : Type 0 where
  pub cookie : Cookie
  pub state : State

-- What `mbsnrtowcs` answers to a state, the bytes and the room: the number of wide characters, or `none`
-- for bytes that are no character, with the wide characters that it stored and the new state.
pub record Conversion : Type 0 where
  pub converted : Option ℕ
  pub stored : List ℕ
  pub state : State

abbrev pub Convert : Type 0
Convert = State → List ℕ → ℕ → Conversion

-- `SSIZE_MAX / sizeof(wchar_t)`
abbrev pub max_chars : ℕ
max_chars = ssize_max / 4

unfoldable pub grow : Realloc → ℕ → Cookie → Bool × Cookie
unfolding new_space enlarge
grow realloc len c =
    let required = add_word (add_word c.pos len) 1 in
    let size = new_space c.space required in
    let grown = enlarge size (realloc (mul_word size 4)) c in
    if ltb (sub_word (sub_word max_chars len) 1) c.pos
    then (false, record c { errno = enomem })
    else if leb required c.space
    then (true, c)
    else if ltb max_chars size
    then (false, record c { errno = enomem })
    else grown

-- `EILSEQ`, which `mbsnrtowcs` sets
abbrev pub eilseq : Errno
eilseq = Errno.other 84

-- the code behind the conversion
unfoldable pub put : (len : ℕ) → Conversion → Option ℕ → Cookie → ℕ × WideCookie
unfolding overlay
put len v none c = (
  0,
  record {
    cookie = record c { bytes = overlay c.pos v.stored c.bytes; errno = eilseq };
    state = v.state;
  },
)
put len v (some converted) c =
    let pos = add_word c.pos converted in
    (
      len,
      record {
        cookie = record c {
          bytes = overlay c.pos v.stored c.bytes;
          pos = pos;
          len = if leb c.len pos then pos else c.len;
          sizep = pos;
        };
        state = v.state;
      },
    )

-- what is returned is the number of bytes, and 0 for a failure
unfoldable pub wrote : Convert → List ℕ → State → Bool × Cookie → ℕ × WideCookie
unfolding put
wrote convert text state (true, c) =
    let v = convert state text (sub_word c.space c.pos) in put (length text) v v.converted c
wrote convert text state (false, c) = (0, record { cookie = c; state = state })

unfoldable pub write : Realloc → Convert → List ℕ → WideCookie → ℕ × WideCookie
unfolding wrote grow
write realloc convert text w = wrote convert text w.state (grow realloc (length text) w.cookie)

unfoldable pub seek_from : ℕ → Offset → Option ℕ
seek_from base (ahead n) = if ltb max_chars (base + n) then none else some (base + n)
seek_from base (back n) =
    if leb base n || ltb (max_chars + (n + 1)) base then none else some (base - (n + 1))

unfoldable pub target_of : Offset → Whence → Cookie → Option ℕ
unfolding seek_from
target_of offset set c = seek_from 0 offset
target_of offset cur c = seek_from c.pos offset
target_of offset end c = seek_from c.len offset
target_of offset Whence.other c = none

-- a seek that succeeds sets the conversion state back
unfoldable pub moved_to : Option ℕ → WideCookie → Option ℕ × WideCookie
moved_to none w = (none, record w { cookie = record (w.cookie) { errno = einval } })
moved_to (some pos) w = (some pos, record { cookie = record (w.cookie) { pos = pos }; state = 0 })

unfoldable pub seek : Offset → Whence → WideCookie → Option ℕ × WideCookie
unfolding moved_to target_of
seek offset whence w = moved_to (target_of offset whence w.cookie) w

-- NULL, or a stream with its cookie and where that stands; and the blocks that are allocated
pub data WideOpened : Type 0 where
  null : Live → WideOpened
  opened : (stream at : ℕ) → WideCookie → Live → WideOpened

-- the cookie has the initial state of conversion besides
unfoldable pub widened : Opened → WideOpened
widened (Opened.null live) = null live
widened (Opened.opened stream at c live) = opened stream at (record { cookie = c; state = 0 }) live

-- the code is that of `open_memstream` but for `state` and `fwide`
unfoldable pub open_wmemstream : Answers → Errno → Live → WideOpened
unfolding widened open_memstream
open_wmemstream a errno live = widened (open_memstream a errno live)

-- the close function, which does what that of a stream of bytes does
unfoldable pub wide_close : (at : ℕ) → Live → ℕ × Live
unfolding free
wide_close at live = (0, free (some at) live)
