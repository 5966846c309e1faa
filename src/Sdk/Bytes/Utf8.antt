-- ===== src/Sdk/Bytes/Utf8.antt =====
-- Lemmas about `encodeBytes` and UTF-8, with a strict decoder.
-- Code: sdk/typescript/src/index.ts
use Prim.Native.Char.{Char, char, code, IsLt}
use Prim.Native.Nat.{compare, Ordering}
use mathlib.Core.Option
use pgapp.Common.{
  leb, le→leb, Bool, true, ◌&&◌, ◌||◌, ℕ, zero, suc, ◌+◌, ◌-◌, ◌*◌, ◌/◌, ◌%◌, ◌≤◌, ◌<◌, ◌≡◌, refl,
  arith, String, Option, none, some, List, [], ◌∷◌, ◌++◌, ltb, if◌then◌else◌, length, length-append,
  ◌⊎◌, inl, inr, Bool-cases, ltb→lt, ltb→le, ltb_no, lt→ltb,
}
use pgapp.Wire.{Bytes}
use pgapp.Wire.Documented.{AreBytes}
use pgapp.Sdk.Bytes.{Value, utf8_code, utf8, encode_bytes, bytes, text}

-- The code points of a text, which has no lone surrogate.
abbrev pub codes : String → List ℕ
codes String.[] = []
codes (String.◌∷◌ c s) = code c ∷ codes s

abbrev Both : Ordering → Ordering → Type 0
Both Ordering.lt o = IsLt o
Both Ordering.eq _ = ⊥
Both Ordering.gt _ = ⊥

abbrev Scalar : Ordering → Ordering → Ordering → Type 0
Scalar Ordering.lt _ _ = Unit
Scalar Ordering.eq a b = Both a b
Scalar Ordering.gt a b = Both a b

Both-lt : (a b : Ordering) → Both a b → (a ≡ Ordering.lt) × (b ≡ Ordering.lt)
Both-lt Ordering.lt Ordering.lt h = (refl, refl)
Both-lt Ordering.lt Ordering.eq h = elim h [ ]
Both-lt Ordering.lt Ordering.gt h = elim h [ ]
Both-lt Ordering.eq b h = elim h [ ]
Both-lt Ordering.gt b h = elim h [ ]

Scalar-lt :
    (a b c : Ordering) → Scalar a b c → (a ≡ Ordering.lt) ⊎ ((b ≡ Ordering.lt) × (c ≡ Ordering.lt))
Scalar-lt Ordering.lt b c h = inl refl
Scalar-lt Ordering.eq b c h = inr (Both-lt b c h)
Scalar-lt Ordering.gt b c h = inr (Both-lt b c h)

-- A Unicode scalar value: a code point that is no surrogate.
abbrev IsScalar : ℕ → Type 0
IsScalar c = ((c < 0xd800) ⊎ (0xdfff < c)) × (c < 0x110000)

code-IsScalar : (c : Char) → IsScalar (code c)
code-IsScalar (char n h) =
    elim (Scalar-lt (compare n 55296) (compare 57343 n) (compare n 1114112) h) [
      | inl low ↦ ground arith
      | inr (above, below) ↦ (inr (ground arith), ground arith)
    ]

-- A continuation byte.
follows : ℕ → Bool
follows b = leb 0x80 b && ltb b 0xc0

-- A code point and the rest of the bytes, or an error.
abbrev when : Bool → ℕ → Bytes → Option (ℕ × Bytes)
when test c rest = if test then some (c, rest) else none

-- The lead byte tells how many bytes follow, each with six bits. A form that is longer than it has to be
-- is refused, as are surrogates and what is above the last code point.
abbrev two : ℕ → Bytes → Option (ℕ × Bytes)
two a [] = none
two a (b ∷ rest) = let c = (a - 0xc0) * 64 + (b - 0x80) in when (follows b && leb 0x80 c) c rest

abbrev three : ℕ → Bytes → Option (ℕ × Bytes)
three a [] = none
three a (b ∷ []) = none
three a (b ∷ d ∷ rest) =
    let c = (a - 0xe0) * 4096 + (b - 0x80) * 64 + (d - 0x80) in
    when (follows b && follows d && leb 0x800 c && (ltb c 0xd800 || ltb 0xdfff c)) c rest

abbrev four : ℕ → Bytes → Option (ℕ × Bytes)
four a [] = none
four a (b ∷ []) = none
four a (b ∷ d ∷ []) = none
four a (b ∷ d ∷ e ∷ rest) =
    let c = (a - 0xf0) * 262144 + (b - 0x80) * 4096 + (d - 0x80) * 64 + (e - 0x80) in
    when (follows b && follows d && follows e && leb 0x10000 c && ltb c 0x110000) c rest

decode_point : ℕ → Bytes → Option (ℕ × Bytes)
decode_point a rest =
    if ltb a 0x80
    then some (a, rest)
    else if ltb a 0xc0
    then none
    else if ltb a 0xe0
    then two a rest
    else if ltb a 0xf0
    then three a rest
    else if ltb a 0xf8
    then four a rest
    else none

decode_from : ℕ → Bytes → Option (List ℕ)
decode_from fuel [] = some []
decode_from zero (a ∷ rest) = none
decode_from (suc fuel) (a ∷ rest) = elim (decode_point a rest) [
  | none ↦ none
  | some (c, more) ↦ Option.map (λ l. c ∷ l) (decode_from fuel more)
]

-- A decoder of UTF-8 that accepts its shortest forms of Unicode scalar values alone.
unfoldable pub decode : Bytes → Option (List ℕ)
unfolding decode_from decode_point follows
decode b = decode_from (length b) b

utf8_code-AreBytes : (c : ℕ) → c < 0x110000 → AreBytes (utf8_code c)
unfolding utf8_code
utf8_code-AreBytes c h = ground arith

AreBytes-append : (a b : Bytes) → AreBytes a → AreBytes b → AreBytes (a ++ b)
AreBytes-append [] b ha hb = hb
AreBytes-append (x ∷ a) b ha hb = (ha.0, AreBytes-append a b ha.1 hb)

pub utf8-AreBytes : (s : String) → AreBytes (utf8 s)
unfolding utf8
utf8-AreBytes String.[] = tt
utf8-AreBytes (String.◌∷◌ c s) =
    AreBytes-append (utf8_code (code c)) (utf8 s) (utf8_code-AreBytes (code c) (code-IsScalar c).1)
      (utf8-AreBytes s)

point_one : (c : ℕ) (rest : Bytes) → c < 0x80 → decode_point c rest ≡ some (c, rest)
unfolding decode_point
point_one c rest h = rw (lt→ltb c 0x80 h)

follows-low : (b : ℕ) → follows (0x80 + b % 64) ≡ true
unfolding follows
follows-low b = ground arith

point_two :
    (c : ℕ) (rest : Bytes)
    → 0x80 ≤ c
    → c < 0x800
    → decode_point (0xc0 + c / 64) ((0x80 + c % 64) ∷ rest) ≡ some (c, rest)
unfolding decode_point
point_two c rest lo hi =
    let value : (0xc0 + c / 64 - 0xc0) * 64 + (0x80 + c % 64 - 0x80) ≡ c = omega arith in
    rw (
      ltb_no (0xc0 + c / 64) 0x80 (omega arith),
      ltb_no (0xc0 + c / 64) 0xc0 (omega arith),
      lt→ltb (0xc0 + c / 64) 0xe0 (omega arith),
      value,
      follows-low c,
      le→leb 0x80 c lo,
    )

scalar_test : (c : ℕ) → IsScalar c → (ltb c 0xd800 || ltb 0xdfff c) ≡ true
scalar_test c h = ground arith

point_three :
    (c : ℕ) (rest : Bytes)
    → 0x800 ≤ c
    → c < 0x10000
    → IsScalar c
    → decode_point (0xe0 + c / 4096) ((0x80 + c / 64 % 64) ∷ (0x80 + c % 64) ∷ rest)
      ≡ some (c, rest)
unfolding decode_point
point_three c rest lo hi scalar =
    let value : (0xe0 + c / 4096 - 0xe0) * 4096
          + (0x80 + c / 64 % 64 - 0x80) * 64
          + (0x80 + c % 64 - 0x80)
        ≡ c =
      omega arith in
    rw (
      ltb_no (0xe0 + c / 4096) 0x80 (omega arith),
      ltb_no (0xe0 + c / 4096) 0xc0 (omega arith),
      ltb_no (0xe0 + c / 4096) 0xe0 (omega arith),
      lt→ltb (0xe0 + c / 4096) 0xf0 (omega arith),
      value,
      follows-low (c / 64),
      follows-low c,
      le→leb 0x800 c lo,
      scalar_test c scalar,
    )

point_four :
    (c : ℕ) (rest : Bytes)
    → 0x10000 ≤ c
    → c < 0x110000
    → decode_point
        (0xf0 + c / 262144)
        ((0x80 + c / 4096 % 64) ∷ (0x80 + c / 64 % 64) ∷ (0x80 + c % 64) ∷ rest)
      ≡ some (c, rest)
unfolding decode_point
point_four c rest lo hi =
    let value : (0xf0 + c / 262144 - 0xf0) * 262144
          + (0x80 + c / 4096 % 64 - 0x80) * 4096
          + (0x80 + c / 64 % 64 - 0x80) * 64
          + (0x80 + c % 64 - 0x80)
        ≡ c =
      omega arith in
    rw (
      ltb_no (0xf0 + c / 262144) 0x80 (omega arith),
      ltb_no (0xf0 + c / 262144) 0xc0 (omega arith),
      ltb_no (0xf0 + c / 262144) 0xe0 (omega arith),
      ltb_no (0xf0 + c / 262144) 0xf0 (omega arith),
      lt→ltb (0xf0 + c / 262144) 0xf8 (omega arith),
      value,
      follows-low (c / 4096),
      follows-low (c / 64),
      follows-low c,
      le→leb 0x10000 c lo,
      lt→ltb c 0x110000 hi,
    )

decode_step :
    (fuel a c : ℕ) (rest more : Bytes)
    → decode_point a rest ≡ some (c, more)
    → decode_from (suc fuel) (a ∷ rest) ≡ Option.map (λ l. c ∷ l) (decode_from fuel more)
unfolding decode_from
decode_step fuel a c rest more e = rw (e, decode_from)

decode_from-utf8_code :
    (fuel c : ℕ) (rest : Bytes)
    → IsScalar c
    → decode_from (suc fuel) (utf8_code c ++ rest) ≡ Option.map (λ l. c ∷ l) (decode_from fuel rest)
unfolding utf8_code
decode_from-utf8_code fuel c rest h = elim (Bool-cases (ltb c 0x80)) [
  | inl one ↦ rw one (decode_step fuel c c rest rest (point_one c rest (ltb→lt c 0x80 one)))
  | inr more ↦ elim (Bool-cases (ltb c 0x800)) [
    | inl short ↦
        rw (more, short)
          (decode_step fuel _ c _ rest
            (point_two c rest (ltb→le c 0x80 more) (ltb→lt c 0x800 short)))
    | inr long ↦ elim (Bool-cases (ltb c 0x10000)) [
      | inl basic ↦
          rw (more, long, basic)
            (decode_step fuel _ c _ rest
              (point_three c rest (ltb→le c 0x800 long) (ltb→lt c 0x10000 basic) h))
      | inr astral ↦
          rw (more, long, astral)
            (decode_step fuel _ c _ rest (point_four c rest (ltb→le c 0x10000 astral) h.1))
    ]
  ]
]

utf8_code_grows : (c : ℕ) → 0 < length (utf8_code c)
unfolding utf8_code
utf8_code_grows c = ground arith

decode_from-utf8 :
    (s : String) (fuel : ℕ) → length (utf8 s) ≤ fuel → decode_from fuel (utf8 s) ≡ some (codes s)
unfolding utf8
decode_from-utf8 String.[] zero h = unfold decode_from in refl
decode_from-utf8 String.[] (suc fuel) h = unfold decode_from in refl
decode_from-utf8 (String.◌∷◌ c s) zero h =
    absurd (omega (arith, utf8_code_grows (code c), length-append (utf8_code (code c)) (utf8 s)))
decode_from-utf8 (String.◌∷◌ c s) (suc fuel) h = rw (
  decode_from-utf8_code fuel (code c) (utf8 s) (code-IsScalar c),
  decode_from-utf8 s fuel
      (omega (arith, utf8_code_grows (code c), length-append (utf8_code (code c)) (utf8 s))),
)

-- The bytes sent for a text with no lone surrogate are bytes, and a decoder of UTF-8 that refuses
-- overlong forms, stray continuation bytes and surrogates gives the code points of the text.
pub decode-encode_bytes :
    (s : String)
    → AreBytes (encode_bytes (text s)) × (decode (encode_bytes (text s)) ≡ some (codes s))
unfolding encode_bytes decode
decode-encode_bytes s = (utf8-AreBytes s, decode_from-utf8 s (length (utf8 s)) (omega arith))

-- A value given as bytes holds bytes.
abbrev pub HoldsBytes : Value → Type 0
HoldsBytes (bytes b) = AreBytes b
HoldsBytes (text s) = Unit

pub encode_bytes-AreBytes : (value : Value) → HoldsBytes value → AreBytes (encode_bytes value)
unfolding encode_bytes
encode_bytes-AreBytes (bytes b) h = h
encode_bytes-AreBytes (text s) h = utf8-AreBytes s
