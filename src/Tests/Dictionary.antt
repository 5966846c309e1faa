-- ===== src/Tests/Dictionary.antt =====
-- A small runtime that meets the documented behaviour: each text is written as its place in a
-- dictionary, each number as one cell. The theorems about the generated code are applied to it.
use text.Mathlib.Text.{◌==◌ as str_eq}
use text.Mathlib.TextEquality.{eq_iff}
use pgapp.Common.{
  ℕ, zero, suc, ◌+◌, ◌≤◌, ◌<◌, ◌≡◌, refl, sym, ap, arith, String, Bool, true, false, Option, none,
  some, List, [], ◌∷◌, ◌++◌, length, ℤ, pos, negsuc, if◌then◌else◌, take, drop, take_length-append,
  drop_length-append,
}
use pgapp.Common.Result.{Thrown, Result, ok, throw}
use pgapp.Wire.{
  Bytes, WireType, varint, bit64, length_delimited, start_group, end_group, bit32, Reader, Runtime,
  UnknownField,
}
use pgapp.Wire.Documented.{at, ReadsBack, IsDocumented}

abbrev dictionary : List String
dictionary =
    "" ∷ "0" ∷ "1" ∷ "5" ∷ "30" ∷ "60" ∷ "orders" ∷ "users" ∷ "k1" ∷ "k2" ∷ "{}" ∷ "tok" ∷ "dev"
    ∷ "app" ∷ "main" ∷ []

abbrev refused : Thrown
refused = Thrown.error "RangeError" "premature EOF" none

abbrev next_place : Option ℕ → Option ℕ
next_place none = none
next_place (some n) = some (suc n)

abbrev place : String → List String → Option ℕ
place s [] = none
place s (t ∷ ts) = if str_eq s t then some 0 else next_place (place s ts)

abbrev entry : List String → ℕ → Option String
entry [] n = none
entry (t ∷ ts) zero = some t
entry (t ∷ ts) (suc n) = entry ts n

entry-place : (s : String) (ts : List String) (n : ℕ) → place s ts ≡ some n → entry ts n ≡ some s
entry-place s [] n e = cc
entry-place s (t ∷ ts) zero e = ground (arith, eq_iff s t)
entry-place s (t ∷ ts) (suc n) e = ground (arith, eq_iff s t, entry-place s ts n)

-- A value written as one cell.
abbrev put_cell : Option ℕ → Result Bytes
put_cell none = throw refused
put_cell (some n) = ok (n ∷ [])

abbrev give {ℓ} : {A : Type ℓ} → Option A → ℕ → Bytes → Result (A × Reader)
give none p rest = throw refused
give (some a) p rest = ok (a, at p rest)

abbrev get_cell {ℓ} : {A : Type ℓ} → (ℕ → Option A) → ℕ → Bytes → Result (A × Reader)
get_cell decode p [] = throw refused
get_cell decode p (n ∷ rest) = give (decode n) (p + 1) rest

abbrev read_cell {ℓ} : {A : Type ℓ} → (ℕ → Option A) → Reader → Result (A × Reader)
read_cell decode r = get_cell decode r.pos r.rest

cell-ReadsBack {ℓ} :
    {A : Type 0} (Fits : A → Type ℓ) (encode : A → Option ℕ) (decode : ℕ → Option A)
    → ((a : A) (n : ℕ) → encode a ≡ some n → decode n ≡ some a)
    → ReadsBack Fits (λ a. put_cell (encode a)) (read_cell decode)
cell-ReadsBack Fits encode decode back a fits w e p rest = by_code (encode a) refl e
  where
    by_code :
        (o : Option ℕ)
        → encode a ≡ o
        → put_cell o ≡ ok w
        → read_cell decode (at p (w ++ rest)) ≡ ok (a, at (p + length w) rest)
    by_code none same written = cc
    by_code (some n) same written =
        let cells : n ∷ [] ≡ w = ground arith in rw (← cells, back a n same)

give_moves {ℓ} :
    {A : Type ℓ} (o : Option A) (p : ℕ) (rest : Bytes) (a : A) (r' : Reader)
    → give o p rest ≡ ok (a, r')
    → p ≡ r'.pos
give_moves none p rest a r' e = cc
give_moves (some b) p rest a r' e = ground arith

cell_moves {ℓ} :
    {A : Type ℓ} (decode : ℕ → Option A) (r : Reader) (a : A) (r' : Reader)
    → read_cell decode r ≡ ok (a, r')
    → r.pos < r'.pos
cell_moves decode r a r' e = by_rest r.rest e
  where
    by_rest : (b : Bytes) → get_cell decode r.pos b ≡ ok (a, r') → r.pos < r'.pos
    by_rest [] e = cc
    by_rest (n ∷ rest) e = omega (arith, give_moves (decode n) (r.pos + 1) rest a r' e)

-- Bytes, behind their number.
abbrev get_bytes : ℕ → Bytes → Result (Bytes × Reader)
get_bytes p [] = throw refused
get_bytes p (n ∷ rest) = ok (take n rest, at (p + (n + 1)) (drop n rest))

abbrev read_bytes : Reader → Result (Bytes × Reader)
read_bytes r = get_bytes r.pos r.rest

read_bytes_moves :
    (r : Reader) (b : Bytes) (r' : Reader) → read_bytes r ≡ ok (b, r') → r.pos ≤ r'.pos
read_bytes_moves r b r' e = by_rest r.rest e
  where
    by_rest : (cells : Bytes) → get_bytes r.pos cells ≡ ok (b, r') → r.pos ≤ r'.pos
    by_rest [] e = cc
    by_rest (n ∷ rest) e = ground arith

abbrev wire_type_of : ℕ → Option WireType
wire_type_of zero = some varint
wire_type_of (suc zero) = some bit64
wire_type_of (suc (suc zero)) = some length_delimited
wire_type_of (suc (suc (suc zero))) = some start_group
wire_type_of (suc (suc (suc (suc zero)))) = some end_group
wire_type_of (suc (suc (suc (suc (suc zero))))) = some bit32
wire_type_of (suc (suc (suc (suc (suc (suc n)))))) = none

abbrev code_of : WireType → ℕ
code_of varint = 0
code_of bit64 = 1
code_of length_delimited = 2
code_of start_group = 3
code_of end_group = 4
code_of bit32 = 5

abbrev give_tag : ℕ → Option WireType → ℕ → Bytes → Result ((ℕ × WireType) × Reader)
give_tag field_no none p rest = throw refused
give_tag field_no (some t) p rest = ok ((field_no, t), at p rest)

abbrev get_tag : ℕ → Bytes → Result ((ℕ × WireType) × Reader)
get_tag p [] = throw refused
get_tag p (field_no ∷ []) = throw refused
get_tag p (field_no ∷ t ∷ rest) = give_tag field_no (wire_type_of t) (p + 2) rest

abbrev read_tag : Reader → Result ((ℕ × WireType) × Reader)
read_tag r = get_tag r.pos r.rest

read_tag_moves :
    (r : Reader) (t : ℕ × WireType) (r' : Reader) → read_tag r ≡ ok (t, r') → r.pos < r'.pos
read_tag_moves r t r' e = by_rest r.rest e
  where
    by_type :
        (f : ℕ) (o : Option WireType) (rest : Bytes)
        → give_tag f o (r.pos + 2) rest ≡ ok (t, r')
        → r.pos < r'.pos
    by_type f none rest e = cc
    by_type f (some u) rest e = ground arith

    by_rest : (cells : Bytes) → get_tag r.pos cells ≡ ok (t, r') → r.pos < r'.pos
    by_rest [] e = cc
    by_rest (f ∷ []) e = cc
    by_rest (f ∷ u ∷ rest) e = by_type f (wire_type_of u) rest e

wire_type_of-code_of : (t : WireType) → wire_type_of (code_of t) ≡ some t
wire_type_of-code_of varint = refl
wire_type_of-code_of bit64 = refl
wire_type_of-code_of length_delimited = refl
wire_type_of-code_of start_group = refl
wire_type_of-code_of end_group = refl
wire_type_of-code_of bit32 = refl

abbrev cell_of_int : ℤ → Option ℕ
cell_of_int (pos n) = some n
cell_of_int (negsuc n) = none

abbrev cell_of_bool : Bool → Option ℕ
cell_of_bool false = some 0
cell_of_bool true = some 1

abbrev bool_of_cell : ℕ → Option Bool
bool_of_cell zero = some false
bool_of_cell (suc n) = some true

abbrev write_unknown : List UnknownField → Result Bytes
write_unknown [] = ok []
write_unknown (f ∷ fs) = throw refused

abbrev pub runtime : Runtime
runtime = record {
  writer = record {
    tag = λ field_no t. ok (field_no ∷ code_of t ∷ []);
    string = λ s. put_cell (place s dictionary);
    bytes = λ b. ok (length b ∷ b);
    bool = λ b. put_cell (cell_of_bool b);
    int32 = λ z. put_cell (cell_of_int z);
    uint32 = λ n. put_cell (some n);
    int64 = λ s. put_cell (place s dictionary);
    uint64 = λ s. put_cell (place s dictionary);
    join = λ b. ok (length b ∷ b);
  };
  reader = record {
    tag = read_tag;
    skip = λ _. read_bytes;
    string = read_cell (entry dictionary);
    bytes = read_bytes;
    bool = read_cell bool_of_cell;
    int32 = read_cell (λ n. some (pos n));
    uint32 = read_cell (λ n. some n);
    int64 = read_cell (entry dictionary);
    uint64 = read_cell (entry dictionary);
  };
  handler = record { on_read = λ fields field. fields ++ field ∷ []; on_write = write_unknown };
}

text-ReadsBack {ℓ} :
    (Fits : String → Type ℓ)
    → ReadsBack Fits (λ s. put_cell (place s dictionary)) (read_cell (entry dictionary))
text-ReadsBack Fits =
    cell-ReadsBack Fits (λ s. place s dictionary) (entry dictionary)
      (λ s n e. entry-place s dictionary n e)

bytes-ReadsBack {ℓ} : (Fits : Bytes → Type ℓ) → ReadsBack Fits (λ b. ok (length b ∷ b)) read_bytes
bytes-ReadsBack Fits b fits w e p rest =
    let cells : length b ∷ b ≡ w = cc in
    rw (← cells, take_length-append, drop_length-append)
      (ap (λ (q : ℕ). ok (b, at q rest)) (omega arith))

tag_back :
    (field_no : ℕ) (t : WireType) (w : Bytes)
    → runtime.writer.tag field_no t ≡ ok w
    → (p : ℕ) (rest : Bytes)
    → runtime.reader.tag (at p (w ++ rest)) ≡ ok ((field_no, t), at (p + length w) rest)
tag_back field_no t w e p rest =
    let cells : field_no ∷ code_of t ∷ [] ≡ w = cc in rw (← cells, wire_type_of-code_of)

weaken_moves {ℓ} :
    {A : Type ℓ} (decode : ℕ → Option A) (r : Reader) (a : A) (r' : Reader)
    → read_cell decode r ≡ ok (a, r')
    → r.pos ≤ r'.pos
weaken_moves decode r a r' e = omega (arith, cell_moves decode r a r' e)

bool_back : (b : Bool) (n : ℕ) → cell_of_bool b ≡ some n → bool_of_cell n ≡ some b
bool_back false zero e = refl
bool_back false (suc n) e = ground arith
bool_back true zero e = ground arith
bool_back true (suc n) e = refl

int_back : (z : ℤ) (n : ℕ) → cell_of_int z ≡ some n → some (pos n) ≡ some z
int_back (pos m) n e = ground arith
int_back (negsuc m) n e = cc

join_back {ℓ} :
    {A : Type ℓ} (decode : ℕ → Option A) (b w : Bytes)
    → runtime.writer.join b ≡ ok w
    → (p : ℕ) (rest : Bytes) (a : A) → decode (length b) ≡ some a
    → (k : ℕ) × (k + length b ≡ length w)
      × (read_cell decode (at p (w ++ rest)) ≡ ok (a, at (p + k) (b ++ rest)))
join_back decode b w e p rest a size =
    let cells : length b ∷ b ≡ w = cc in (1, rw (← cells) (omega arith), rw (← cells, size))

pub runtime-IsDocumented : IsDocumented runtime
runtime-IsDocumented = record {
  tag = λ field_no numbered t w e p rest. tag_back field_no t w e p rest;
  string = text-ReadsBack _;
  bytes = bytes-ReadsBack _;
  bool = cell-ReadsBack _ cell_of_bool bool_of_cell bool_back;
  int32 = cell-ReadsBack _ cell_of_int (λ n. some (pos n)) int_back;
  uint32 = cell-ReadsBack _ (λ n. some n) (λ n. some n) (λ a n e. sym e);
  int64 = text-ReadsBack _;
  uint64 = text-ReadsBack _;
  join = λ b w e p rest. join_back (λ n. some n) b w e p rest (length b) refl;
  join_int32 =
      λ b w e small p rest. join_back (λ n. some (pos n)) b w e p rest (pos (length b)) refl;
  no_unknown = refl;
  tag_moves = read_tag_moves;
  skip_moves = λ _. read_bytes_moves;
  string_moves = weaken_moves _;
  bytes_moves = read_bytes_moves;
  bool_moves = weaken_moves _;
  int32_moves = weaken_moves (λ n. some (pos n));
  uint32_moves = weaken_moves (λ n. some n);
  int64_moves = cell_moves _;
  uint64_moves = weaken_moves _;
}
