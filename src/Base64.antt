-- ===== src/Base64.antt =====
-- The base64 streams of src/common/base64.h. A `char` or a byte is a number below 256, and EOF is 255,
-- what the int -1 is as a char. `none` is a failed CHECK.
pub mod Spec
pub mod Reader
pub mod Out
pub mod Alphabet
pub mod In
pub mod Rounds
pub mod Read
pub mod RoundTrip
pub mod Bounds
pub mod Ends
pub mod Fuel
mod Tests
use xgboost.Prelude.{
  ℕ, zero, suc, ◌+◌, ◌-◌, ◌*◌, ◌/◌, ◌%◌, ◌^◌, Bool, true, false, not, ◌&&◌, ◌||◌, List, [], ◌∷◌,
  ◌++◌, Option, none, some, ◌==◌, ltb, leb, if◌then◌else◌, length, get_or,
}
use xgboost.Prelude.Check.{◌>>=◌, ◌>>◌, check}

abbrev pub eof : ℕ
eof = 255

-- '='
abbrev pub pad : ℕ
pad = 61

-- isspace of the C locale.
unfoldable pub is_space : ℕ → Bool
is_space c = (c == 32) || (leb 9 c && leb c 13)

-- tmp_ch == EOF || isspace(tmp_ch)
unfoldable pub is_end : ℕ → Bool
is_end c = (c == eof) || is_space c

-- EncodeTable: A-Z, a-z, 0-9, +, /.
unfoldable pub encode_char : ℕ → ℕ
encode_char v =
    if ltb v 26
    then 65 + v
    else if ltb v 52
    then 71 + v
    else if ltb v 62
    then v - 4
    else if v == 62
    then 43
    else 47

-- DecodeTable, with 0 for the other characters; behind 'z' the table ends in the source.
unfoldable pub decode_char : ℕ → ℕ
decode_char c =
    if c == 43
    then 62
    else if c == 47
    then 63
    else if leb 48 c && leb c 57
    then c + 4
    else if leb 65 c && leb c 90
    then c - 65
    else if leb 97 c && leb c 122
    then c - 71
    else 0

-- StreamBufferReader. `chunks` is what the next calls of the underlying stream's Read return; at its
-- end they return nothing.
pub record StreamBufferReader : Type 0 where
  pub chunks : List (List ℕ)
  pub buffer : List ℕ
  pub read_len : ℕ
  pub read_ptr : ℕ

-- set_stream
abbrev pub set_stream : List (List ℕ) → StreamBufferReader
set_stream chunks = record { chunks = chunks; buffer = []; read_len = 1; read_ptr = 1 }

-- GetChar where the buffer is used up. Its loop turns once more after a read of something.
unfoldable pub refill : StreamBufferReader → List (List ℕ) → ℕ × StreamBufferReader
refill r [] = (eof, record r { read_len = 0 })
refill r ([] ∷ chunks) = (eof, record r { chunks = chunks; read_len = 0 })
refill r ((c ∷ cs) ∷ chunks) =
    (c, record { chunks = chunks; buffer = c ∷ cs; read_len = length (c ∷ cs); read_ptr = 1 })

unfoldable pub get_char : StreamBufferReader → ℕ × StreamBufferReader
get_char r =
    if ltb r.read_ptr r.read_len
    then (get_or r.buffer r.read_ptr 0, record r { read_ptr = r.read_ptr + 1 })
    else refill r r.chunks

-- `prev` is the first `num_prev` bytes of `buf_prev`.
pub record Base64InStream : Type 0 where
  pub reader : StreamBufferReader
  pub tmp_ch : ℕ
  pub prev : List ℕ

-- tmp_ch = reader_.GetChar()
unfoldable pub next : Base64InStream → Base64InStream
next st = let (c, r) = get_char st.reader in record st { reader = r; tmp_ch = c }

-- InitPosition, with fuel for its loop over leading spaces.
unfoldable pub init_position : ℕ → Base64InStream → Option Base64InStream
init_position zero st = none
init_position (suc fuel) st = elim (is_space (next st).tmp_ch) [
  | true ↦ init_position fuel (next st)
  | false ↦ some (next st)
]

abbrev pub is_eof : Base64InStream → Bool
is_eof st = (length st.prev == 0) && is_end st.tmp_ch

-- The bytes left from before: what is given out, how many are still wanted, what is left.
unfoldable pub take_prev : ℕ → List ℕ → List ℕ × ℕ × List ℕ
take_prev tlen [] = ([], tlen, [])
take_prev tlen (x ∷ []) = (x ∷ [], tlen - 1, [])
take_prev tlen (x ∷ y ∷ ys) =
    if leb 2 tlen then (x ∷ y ∷ [], tlen - 2, []) else (x ∷ [], tlen - 1, y ∷ [])

-- What a round of Read's loop has: the bytes given out, how many are still wanted, the stream.
pub record Progress : Type 0 where
  pub out : List ℕ
  pub tlen : ℕ
  pub stream : Base64InStream

-- `if (tlen) { *cptr++ = b; --tlen; } else { buf_prev[num_prev++] = b; }`
unfoldable pub put : ℕ → Progress → Progress
put b p =
    if p.tlen == 0
    then record p { stream = record (p.stream) { prev = p.stream.prev ++ (b ∷ []) } }
    else record p { out = p.out ++ (b ∷ []); tlen = p.tlen - 1 }

abbrev pub advance : Progress → Progress
advance p = record p { stream = next p.stream }

-- The next character, which must not be an end.
unfoldable pub advance_inside : Progress → Option Progress
advance_inside p = check (not (is_end (advance p).stream.tmp_ch)) >> some (advance p)

-- The next character, which must be an end.
unfoldable pub advance_end : Progress → Option Progress
advance_end p = check (is_end (advance p).stream.tmp_ch) >> some (advance p)

-- The fourth byte of a unit; the fields of `nvalue` share no bit, so `|=` is a sum. The Boolean says
-- whether the loop goes on.
unfoldable pub fourth : ℕ → Progress → Option (Progress × Bool)
fourth nvalue p = do
  p1 ← advance_inside p
  if p1.stream.tmp_ch == pad
      then (advance_end p1 >>= λ p2. some (p2, false))
      else some (advance (put ((nvalue + decode_char p1.stream.tmp_ch) % 256) p1), true)

unfoldable pub third : ℕ → Progress → Option (Progress × Bool)
third nvalue p = do
  p1 ← advance_inside p
  if p1.stream.tmp_ch == pad
      then (check ((advance p1).stream.tmp_ch == pad)
          >> (advance_end (advance p1) >>= λ p2. some (p2, false)))
      else (let n = nvalue + decode_char p1.stream.tmp_ch * 2 ^ 6 in
          fourth n (put (n / 2 ^ 8 % 256) p1))

-- One round of the loop.
unfoldable pub unit : Progress → Option (Progress × Bool)
unit p = do
  p1 ← advance_inside p
  let n = decode_char p.stream.tmp_ch * 2 ^ 18 + decode_char p1.stream.tmp_ch * 2 ^ 12
  third n (put (n / 2 ^ 16 % 256) p1)

-- The loop of Read. Each round gives out a byte, so `tlen` rounds are enough fuel.
unfoldable pub units : ℕ → Progress → Option Progress
units zero p = some p
units (suc fuel) p = elim (not (p.tlen == 0) && not (is_end p.stream.tmp_ch)) [
  | true ↦ unit p >>= λ (p', more). elim more [ true ↦ units fuel p' | false ↦ some p' ]
  | false ↦ some p
]

-- Read: the bytes given out, and the stream after.
unfoldable pub read : Base64InStream → ℕ → Option (List ℕ × Base64InStream)
read st size =
    let (first, tlen, left) = take_prev size st.prev in
    if size == 0
    then some ([], st)
    else if tlen == 0
    then some (first, record st { prev = left })
    else (units tlen (record { out = first; tlen = tlen; stream = record st { prev = left } })
        >>= λ p. some (p.out, p.stream))

-- `group` is buf[1] to buf[buf_top]; `written` is what the underlying stream has been given.
pub record Base64OutStream : Type 0 where
  pub written : List ℕ
  pub out_buf : List ℕ
  pub group : List ℕ

unfoldable pub flush : Base64OutStream → Base64OutStream
flush st = record st { written = st.written ++ st.out_buf; out_buf = [] }

unfoldable pub put_char : ℕ → Base64OutStream → Base64OutStream
put_char ch st =
    let st1 = record st { out_buf = st.out_buf ++ (ch ∷ []) } in
    if leb 256 (length st1.out_buf) then flush st1 else st1

-- Where the group has three bytes, they go out. The parts of each `|` share no bit.
unfoldable pub flush_group : Base64OutStream → List ℕ → Base64OutStream
flush_group st (a ∷ b ∷ c ∷ cs) =
    record (put_char (encode_char (c % 64)) (
      put_char (encode_char ((b * 4 + c / 64) % 64))
        (put_char (encode_char ((a * 16 + b / 16) % 64)) (put_char (encode_char (a / 4)) st)))) {
          group = [];
        }
flush_group st group = record st { group = group }

-- Write. A group goes out as soon as it is full.
unfoldable pub write : List ℕ → Base64OutStream → Base64OutStream
write [] st = st
write (x ∷ xs) st = write xs (flush_group st (st.group ++ (x ∷ [])))

-- The padding of Finish.
unfoldable pub pad_group : Base64OutStream → List ℕ → Base64OutStream
pad_group st (a ∷ []) =
    put_char pad
      (put_char pad (put_char (encode_char (a * 16 % 64)) (put_char (encode_char (a / 4)) st)))
pad_group st (a ∷ b ∷ []) = put_char pad (
    put_char (encode_char (b * 4 % 64))
      (put_char (encode_char ((a * 16 + b / 16) % 64)) (put_char (encode_char (a / 4)) st)))
pad_group st group = st

unfoldable pub finish : ℕ → Base64OutStream → Base64OutStream
finish endch st =
    let st1 = record (pad_group st st.group) { group = [] } in
    flush (if endch == eof then st1 else put_char endch st1)
