-- ===== src/Stream/Wire.antt =====
-- The class `Wire` and the function `frame`: bytes in the parts in which the socket delivers them, and
-- frames of a kind, a length of four bytes and a body.
use memeloop_token_center_mi.Common.{
  ℕ, ◌+◌, ◌-◌, ◌*◌, ◌/◌, ◌%◌, ◌^◌, Bool, true, false, not, ◌&&◌, List, [], ◌∷◌, ◌++◌, length, drop,
  leb, ltb, if◌then◌else◌, Result, ok, err, throw_if, ◌>>=◌, ◌>>◌, String,
}

abbrev pub Bytes : Type 0
Bytes = List ℕ

-- `thrown` is an error that the code throws, by its message; `out_of_fuel` is none of the code's
pub data CopyError : Type 0 where
  thrown : String → CopyError
  out_of_fuel : CopyError

abbrev pub Copied : Type 0 → Type 0
Copied A = Result CopyError A

-- `COPY.chunk`
abbrev pub chunk : ℕ
chunk = 4_194_304

-- `pending` and what the iterator of the socket still yields; `frameStorage` is a buffer that is used again
pub record Wire : Type 0 where
  pub pending : Bytes
  pub parts : List Bytes

unfoldable pub first : ℕ → Bytes → Bytes
first Prim.Native.Nat.ℕ.zero bs = []
first (Prim.Native.Nat.ℕ.suc n) [] = []
first (Prim.Native.Nat.ℕ.suc n) (b ∷ bs) = b ∷ first n bs

abbrev pub put_before : Bytes → Copied (Bytes × Wire) → Copied (Bytes × Wire)
put_before bs (ok (more, w)) = ok (bs ++ more, w)
put_before bs (err e) = err e

-- the loop of `take`, from what is pending and the parts to come
unfoldable pub fill : ℕ → Bytes → List Bytes → Copied (Bytes × Wire)
fill need pending [] =
    if leb need (length pending)
    then ok (first need pending, record { pending = drop need pending; parts = [] })
    else err (thrown "TRUNCATED_STREAM")
fill need pending (part ∷ parts) =
    let more = put_before pending (fill (need - length pending) part parts) in
    if leb need (length pending)
    then ok (first need pending, record { pending = drop need pending; parts = part ∷ parts })
    else more

unfoldable pub take : ℕ → Wire → Copied (Bytes × Wire)
take n wire =
    if leb n (chunk + 2048) then fill n wire.pending wire.parts else err (thrown "FRAME_SIZE")

abbrev pub is_empty {ℓ} : {A : Type ℓ} → List A → Bool
is_empty [] = true
is_empty (_ ∷ _) = false

unfoldable pub eof : Wire → Copied (Unit {0})
eof wire = throw_if (not (is_empty wire.pending && is_empty wire.parts)) (thrown "EXTRA_BYTES")

pub record Frame : Type 0 where
  pub kind : ℕ
  pub body : Bytes

-- `header.readUInt32BE(1)` and `header[0]`, of a header of five bytes
abbrev pub size_of : Bytes → ℕ
size_of (k ∷ a ∷ b ∷ c ∷ d ∷ []) = a * 16_777_216 + b * 65_536 + c * 256 + d
size_of _ = 0

abbrev pub kind_of : Bytes → ℕ
kind_of [] = 0
kind_of (k ∷ _) = k

unfoldable pub read_frame : Wire → Copied (Frame × Wire)
read_frame wire = take 5 wire >>= λ header.
    throw_if (ltb chunk (size_of header.0)) (thrown "FRAME_SIZE")
    >> (take (size_of header.0) header.1 >>= λ body.
        ok (record { kind = kind_of header.0; body = body.0 }, body.1))

-- the header that `frame` writes
unfoldable pub header : ℕ → ℕ → Bytes
header kind size =
    kind % 256 ∷ size / 16_777_216 ∷ size / 65_536 % 256 ∷ size / 256 % 256 ∷ size % 256 ∷ []

-- What `frame` writes; `writeUInt32BE` throws a range error on a size of more than four bytes.
unfoldable pub frame : ℕ → Bytes → Copied Bytes
frame kind body =
    if ltb (length body) (2 ^ 32)
    then ok (header kind (length body) ++ body)
    else err (thrown "ERR_OUT_OF_RANGE")
